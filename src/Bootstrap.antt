-- ===== src/Bootstrap.antt =====
-- internal/rpc/bootstrapper.go: the first filling of the store. The replies of The Graph and of the
-- chain are given; the users come with the amounts as decimal texts.
pub mod Loading
pub mod Users
use aave_v3_flash_liquidator.Prelude.{
  ℕ, ◌-◌, ◌%◌, ◌^◌, Bool, true, false, ◌&&◌, ◌||◌, ◌==◌, List, [], ◌∷◌, map, Option, none, some,
  if◌then◌else◌, ltb, ℤ, pos, negsuc, ltb_ℤ, leb_ℤ, abs_ℕ, is_zero, Assoc, insert, nat_eq,
}
use aave_v3_flash_liquidator.Text.{Text, set_string}
use aave_v3_flash_liquidator.Ray.{dust_threshold}
use aave_v3_flash_liquidator.Run.{Run, ok, panic, ◌>>=◌}
use aave_v3_flash_liquidator.Models.{GlobalIndex, AssetConfig, EModeCategory, UserReserve}
use aave_v3_flash_liquidator.Store.{
  StateStore, set_anchor_block, set_global_index, set_asset_config, set_e_mode_category,
  set_user_e_mode, upsert_user_reserve,
}
use aave_v3_flash_liquidator.Multicall.{ReserveMaps}

pub record GraphReserve : Type 0 where
  pub underlying_asset : Text
  pub scaled_a_token_balance : Text
  pub scaled_variable_debt : Text
  pub usage_as_collateral_enabled_on_user : Bool

pub record GraphUser : Type 0 where
  pub id : Text
  pub e_mode_category_id : Option Text
  pub reserves : List GraphReserve

unfoldable pub parse_and_clean_big_int : Text → ℤ
parse_and_clean_big_int value = elim (set_string 10 value) [
  | none ↦ pos 0
  | some num ↦ if ltb_ℤ num (pos 0) || leb_ℤ (pos (abs_ℕ num)) dust_threshold then pos 0 else num
]

-- The lowest byte of a signed 64-bit number; `strconv.Atoi` refuses what does not fit.
abbrev pub byte_of : ℤ → ℕ
byte_of (pos n) = if ltb n (2 ^ 63) then n % 2 ^ 8 else 0
byte_of (negsuc n) = if ltb n (2 ^ 63) then 255 - n % 2 ^ 8 else 0

unfoldable pub get_e_mode_id : GraphUser → ℕ
get_e_mode_id user = elim user.e_mode_category_id [
  | none ↦ 0
  | some text ↦ elim (set_string 10 text) [ none ↦ 0 | some val ↦ byte_of val ]
]

unfoldable pub set_indices : Assoc Text GlobalIndex → StateStore → StateStore
set_indices [] s = s
set_indices (e ∷ indices) s = set_indices indices (set_global_index e.0 e.1 s)

unfoldable pub set_configs : Assoc Text AssetConfig → StateStore → StateStore
set_configs [] s = s
set_configs (e ∷ configs) s = set_configs configs (set_asset_config e.0 e.1 s)

unfoldable pub set_categories : Assoc ℕ EModeCategory → StateStore → StateStore
set_categories [] s = s
set_categories (e ∷ categories) s = set_categories categories (set_e_mode_category e.0 e.1 s)

-- The categories of the users, each once.
unfoldable pub category_set : List GraphUser → Assoc ℕ Bool → Assoc ℕ Bool
category_set [] set = set
category_set (u ∷ users) set =
    category_set users (if get_e_mode_id u == 0 then set else insert (get_e_mode_id u) true set)

unfoldable pub load_reserve : Text → GraphReserve → StateStore → StateStore
load_reserve id res s =
    let a_token_bal = parse_and_clean_big_int res.scaled_a_token_balance in
    let var_debt_bal = parse_and_clean_big_int res.scaled_variable_debt in
    if is_zero a_token_bal && is_zero var_debt_bal
    then s
    else upsert_user_reserve id
        (record {
          asset_address = res.underlying_asset;
          scaled_a_token_balance = a_token_bal;
          scaled_variable_debt = var_debt_bal;
          usage_as_collateral_enabled_on_user = res.usage_as_collateral_enabled_on_user;
        })
        s

unfoldable pub load_reserves : Text → List GraphReserve → StateStore → StateStore
load_reserves id [] s = s
load_reserves id (res ∷ reserves) s = load_reserves id reserves (load_reserve id res s)

unfoldable pub load_users : List GraphUser → StateStore → StateStore
load_users [] s = s
load_users (u ∷ users) s =
    load_users users (load_reserves u.id u.reserves (set_user_e_mode u.id (get_e_mode_id u) s))

-- Whether there was no error, and the store; an error leaves what was stored before it.
abbrev pub Loaded : Type 0
Loaded = Bool × StateStore

-- The fetch of the categories may panic; it is not called without categories.
unfoldable pub load_with :
    (List ℕ → Run (Option (Assoc ℕ EModeCategory)))
    → List GraphUser
    → Assoc ℕ Bool
    → StateStore
    → Run Loaded
load_with fetch users [] s = ok (true, load_users users s)
load_with fetch users (e ∷ set) s = fetch (map (λ x. x.0) (e ∷ set)) >>= λ reply. elim reply [
  | none ↦ ok (false, s)
  | some categories ↦ ok (true, load_users users (set_categories categories s))
]

unfoldable pub bootstrap :
    Option ℕ
    → (ℕ → Option ReserveMaps)
    → (ℕ → Option (List GraphUser))
    → (ℕ → List ℕ → Run (Option (Assoc ℕ EModeCategory)))
    → StateStore
    → Run Loaded
bootstrap none reserves_at users_at categories_at s = ok (false, s)
bootstrap (some anchor_block) reserves_at users_at categories_at s =
    let s1 = set_anchor_block anchor_block s in
    elim (reserves_at anchor_block) [
      | none ↦ ok (false, s1)
      | some maps ↦
          let s2 = set_configs maps.1 (set_indices maps.0 s1) in
          elim (users_at anchor_block) [
            | none ↦ ok (false, s2)
            | some users ↦ load_with (categories_at anchor_block) users (category_set users []) s2
          ]
    ]
