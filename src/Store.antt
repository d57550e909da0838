-- ===== src/Store.antt =====
-- internal/store/store.go: the in-memory state. Each method runs under the store's lock, so it is
-- one function from store to store. `get_user_reserve` returns a pointer in the source; here it
-- makes sure that the reserve is there, and `modify_reserve` is a write through that pointer.
pub mod View
pub mod Methods
pub mod Pair
pub mod Fanout
use aave_v3_flash_liquidator.Prelude.{
  ℕ, Bool, true, false, List, [], ◌∷◌, map, none, some, Option, ltb, ◌==◌, if◌then◌else◌, ℤ, pos,
  Assoc, lookup, insert, nat_eq,
}
use aave_v3_flash_liquidator.Text.{Text, text_eq, to_lower}
use aave_v3_flash_liquidator.Models.{
  GlobalIndex, UserReserve, UserPosition, AssetConfig, EModeCategory, UserRiskItem,
}

-- The items of the risk heap are shared by the heap and the lookup table: `risk_items` is the memory
-- that holds them, with `next_item` the first free place, and the heap and the table hold places.
pub record StateStore : Type 0 where
  pub global_indices : Assoc Text GlobalIndex
  pub user_positions : Assoc Text UserPosition
  pub anchor_block : ℕ
  pub prices : Assoc Text ℤ
  pub asset_configs : Assoc Text AssetConfig
  pub asset_subscribers : Assoc Text (Assoc Text (Unit {0}))
  pub risk_items : ℕ → UserRiskItem
  pub next_item : ℕ
  pub risk_heap : List ℕ
  pub heap_lookup : Assoc Text ℕ
  pub e_mode_categories : Assoc ℕ EModeCategory
  pub current_block : ℕ

-- What a free place holds.
abbrev no_item : UserRiskItem
no_item = record { user_address = []; health_factor = pos 0; index = pos 0; next_check_at = pos 0 }

abbrev pub new_state_store : StateStore
new_state_store = record {
  global_indices = [];
  user_positions = [];
  anchor_block = 0;
  prices = [];
  asset_configs = [];
  asset_subscribers = [];
  risk_items = λ _. no_item;
  next_item = 0;
  risk_heap = [];
  heap_lookup = [];
  e_mode_categories = [];
  current_block = 0;
}

unfoldable pub get_asset_price : StateStore → Text → Option ℤ
get_asset_price s asset = lookup (to_lower asset) s.prices

unfoldable pub get_asset_config : StateStore → Text → Option AssetConfig
get_asset_config s asset = lookup (to_lower asset) s.asset_configs

unfoldable pub get_e_mode_category : StateStore → ℕ → Option EModeCategory
get_e_mode_category s category_id = lookup category_id s.e_mode_categories

unfoldable pub set_current_block : ℕ → StateStore → StateStore
set_current_block block s =
    if ltb s.current_block block then record s { current_block = block } else s

unfoldable pub get_current_block : StateStore → ℕ
get_current_block s = s.current_block

unfoldable pub set_anchor_block : ℕ → StateStore → StateStore
set_anchor_block block s =
    let s' = record s { anchor_block = block } in
    if s'.current_block == 0 then record s' { current_block = block } else s'

unfoldable pub set_global_index : Text → GlobalIndex → StateStore → StateStore
set_global_index asset index s = record s {
  global_indices = insert (to_lower asset) index s.global_indices;
}

unfoldable pub get_global_index : StateStore → Text → Option GlobalIndex
get_global_index s asset = lookup (to_lower asset) s.global_indices

unfoldable pub set_asset_price : Text → ℤ → StateStore → StateStore
set_asset_price asset price s = record s { prices = insert (to_lower asset) price s.prices }

unfoldable pub set_asset_config : Text → AssetConfig → StateStore → StateStore
set_asset_config asset config s = record s {
  asset_configs = insert (to_lower asset) config s.asset_configs;
}

unfoldable pub set_e_mode_category : ℕ → EModeCategory → StateStore → StateStore
set_e_mode_category category_id category s = record s {
  e_mode_categories = insert category_id category s.e_mode_categories;
}

abbrev pub new_position : Text → UserPosition
new_position u_addr = record {
  user_address = u_addr;
  reserves = [];
  e_mode_category_id = 0;
  e_mode_fetched = false;
}

-- The position of a user, as the methods leave it there if it was missing.
abbrev pub position_of : Assoc Text UserPosition → Text → UserPosition
position_of positions u_addr = elim (lookup u_addr positions) [
  | none ↦ new_position u_addr
  | some position ↦ position
]

-- `s.userPositions[u].Reserves[a] = r`, the position made first if it is missing.
unfoldable pub put_reserve : Text → Text → UserReserve → StateStore → StateStore
put_reserve u_addr asset reserve s =
    let position = position_of s.user_positions u_addr in
    let position' = record position { reserves = insert asset reserve position.reserves } in
    record s { user_positions = insert u_addr position' s.user_positions }

abbrev pub users_of : Assoc Text (Assoc Text (Unit {0})) → Text → Assoc Text (Unit {0})
users_of subscribers asset = elim (lookup asset subscribers) [ none ↦ [] | some users ↦ users ]

-- `s.assetSubscribers[a][u] = struct{}{}`, the inner map made first if it is missing.
unfoldable pub add_subscriber : Text → Text → StateStore → StateStore
add_subscriber asset u_addr s =
    let users = users_of s.asset_subscribers asset in
    record s { asset_subscribers = insert asset (insert u_addr tt users) s.asset_subscribers }

unfoldable pub upsert_user_reserve : Text → UserReserve → StateStore → StateStore
upsert_user_reserve user_addr reserve s =
    let u_addr = to_lower user_addr in
    let asset = to_lower reserve.asset_address in
    add_subscriber asset u_addr (put_reserve u_addr asset reserve s)

unfoldable pub set_user_e_mode : Text → ℕ → StateStore → StateStore
set_user_e_mode user_addr category_id s =
    let u_addr = to_lower user_addr in
    let position = position_of s.user_positions u_addr in
    let position' = record position { e_mode_category_id = category_id; e_mode_fetched = true } in
    record s { user_positions = insert u_addr position' s.user_positions }

abbrev pub empty_reserve : Text → UserReserve
empty_reserve asset_addr = record {
  asset_address = asset_addr;
  scaled_a_token_balance = pos 0;
  scaled_variable_debt = pos 0;
  usage_as_collateral_enabled_on_user = false;
}

-- The reserve that is found, and the store with the position and the reserve in place.
unfoldable pub get_user_reserve : Text → Text → StateStore → UserReserve × StateStore
get_user_reserve user_addr asset s =
    let u_addr = to_lower user_addr in
    let asset_addr = to_lower asset in
    let position = position_of s.user_positions u_addr in
    elim (lookup asset_addr position.reserves) [
      | some reserve ↦ (reserve, s)
      | none ↦
          let reserve = empty_reserve asset_addr in
          (reserve, add_subscriber asset_addr u_addr (put_reserve u_addr asset_addr reserve s))
    ]

-- What a user's pointer to a reserve reads; the keys are in lower case.
unfoldable pub find_reserve : StateStore → Text → Text → Option UserReserve
find_reserve s u a = elim (lookup u s.user_positions) [
  | none ↦ none
  | some position ↦ lookup a position.reserves
]

-- A write through the pointer that `get_user_reserve` returned.
unfoldable pub modify_reserve : Text → Text → (UserReserve → UserReserve) → StateStore → StateStore
modify_reserve user_addr asset f s = elim (find_reserve s (to_lower user_addr) (to_lower asset)) [
  | none ↦ s
  | some reserve ↦ put_reserve (to_lower user_addr) (to_lower asset) (f reserve) s
]

unfoldable pub get_subscribers : StateStore → Text → List Text
get_subscribers s asset = elim (lookup (to_lower asset) s.asset_subscribers) [
  | none ↦ []
  | some users ↦ map (λ e. e.0) users
]
