-- ===== src/Bootstrap/Users.antt =====
-- What the store holds of a user after the users of The Graph are loaded.
use mathlib.Core.Path.{subst}
use mathlib.Core.List.{Memᴰ}
use aave_v3_flash_liquidator.Prelude.{
  ◌≡◌, ◌≢◌, refl, sym, ◌∙◌, Bool, false, ◌&&◌, Bool-cases, inl, inr, List, [], ◌∷◌, some, is_zero,
  if◌then◌else◌, beq, arith,
}
use aave_v3_flash_liquidator.Text.{Text, text_eq, to_lower, text_beq_iff}
use aave_v3_flash_liquidator.Models.{UserReserve}
use aave_v3_flash_liquidator.Store.{
  StateStore, find_reserve, upsert_user_reserve, put_reserve, set_user_e_mode,
}
use aave_v3_flash_liquidator.Store.View.{find_reserve-put_reserve, find_reserve-add_subscriber}
use aave_v3_flash_liquidator.Store.Methods.{set_user_e_mode_lem}
use aave_v3_flash_liquidator.Bootstrap.{
  GraphReserve, GraphUser, parse_and_clean_big_int, get_e_mode_id, load_reserve, load_reserves,
  load_users,
}

-- A reserve of The Graph as the store keeps it, and whether it is kept.
abbrev pub cleaned : GraphReserve → UserReserve
cleaned res = record {
  asset_address = res.underlying_asset;
  scaled_a_token_balance = parse_and_clean_big_int res.scaled_a_token_balance;
  scaled_variable_debt = parse_and_clean_big_int res.scaled_variable_debt;
  usage_as_collateral_enabled_on_user = res.usage_as_collateral_enabled_on_user;
}

abbrev pub is_empty : GraphReserve → Bool
is_empty res =
    is_zero (parse_and_clean_big_int res.scaled_a_token_balance)
    && is_zero (parse_and_clean_big_int res.scaled_variable_debt)

find_reserve-upsert_user_reserve :
    (user : Text) (r : UserReserve) (s : StateStore) (v b : Text)
    → find_reserve (upsert_user_reserve user r s) v b ≡ (
        if beq (to_lower user) v && beq (to_lower r.asset_address) b
        then some r
        else find_reserve s v b)
unfolding upsert_user_reserve
find_reserve-upsert_user_reserve user r s v b =
    let u = to_lower user in
    let a = to_lower r.asset_address in
    find_reserve-add_subscriber a u (put_reserve u a r s) v b ∙ find_reserve-put_reserve u a r s v b

find_reserve-load_reserve :
    (id : Text) (res : GraphReserve) (s : StateStore) (v b : Text)
    → find_reserve (load_reserve id res s) v b ≡ (
        if is_empty res
        then find_reserve s v b
        else if beq (to_lower id) v && beq (to_lower res.underlying_asset) b
        then some (cleaned res)
        else find_reserve s v b)
unfolding load_reserve
find_reserve-load_reserve id res s v b = elim (Bool-cases (is_empty res)) [
  | inl e ↦ rw (load_reserve, e) refl
  | inr e ↦ rw (load_reserve, e) (find_reserve-upsert_user_reserve id (cleaned res) s v b)
]

-- The reserves of another user change nothing.
load_reserves-other :
    (id : Text) (reserves : List GraphReserve) (s : StateStore) (v b : Text)
    → to_lower id ≢ v
    → find_reserve (load_reserves id reserves s) v b ≡ find_reserve s v b
unfolding load_reserves
load_reserves-other id [] s v b h = refl
load_reserves-other id (res ∷ reserves) s v b h =
    load_reserves-other id reserves (load_reserve id res s) v b h
    ∙ grind (arith, h, find_reserve-load_reserve id res s v b, text_beq_iff (to_lower id) v)

module _ (id : Text) (res : GraphReserve) (kept : is_empty res ≡ false) where
  Holds : StateStore → Type 0
  Holds s = find_reserve s (to_lower id) (to_lower res.underlying_asset) ≡ some (cleaned res)

  load_reserve-sets : (s : StateStore) → Holds (load_reserve id res s)
  unfolding Holds
  load_reserve-sets s =
      let v = to_lower id in
      let b = to_lower res.underlying_asset in
      grind
        (arith, kept, find_reserve-load_reserve id res s v b, text_beq_iff v v, text_beq_iff b b)

  load_reserve-keeps :
      (r : GraphReserve) (s : StateStore)
      → (to_lower r.underlying_asset ≡ to_lower res.underlying_asset → r ≡ res)
      → Holds s
      → Holds (load_reserve id r s)
  unfolding Holds
  load_reserve-keeps r s only h =
      let v = to_lower id in
      let a = to_lower r.underlying_asset in
      let b = to_lower res.underlying_asset in
      elim (Bool-cases (beq a b)) [
        | inl e ↦
            let same = only ((text_beq_iff a b).0 e) in
            subst (λ q. Holds (load_reserve id q s)) (sym same) (load_reserve-sets s)
        | inr e ↦ grind (arith, e, h, find_reserve-load_reserve id r s v b)
      ]

  load_reserves-keeps :
      (reserves : List GraphReserve) (s : StateStore)
      → ((r : GraphReserve)
          → Memᴰ r reserves
          → to_lower r.underlying_asset ≡ to_lower res.underlying_asset
          → r ≡ res)
      → Holds s
      → Holds (load_reserves id reserves s)
  unfolding load_reserves
  load_reserves-keeps [] s only h = h
  load_reserves-keeps (r ∷ reserves) s only h =
      load_reserves-keeps reserves (load_reserve id r s) (λ q m. only q (Memᴰ.tail m))
        (load_reserve-keeps r s (only r (Memᴰ.head refl)) h)

  load_reserves-sets :
      (reserves : List GraphReserve) (s : StateStore)
      → Memᴰ res reserves
      → ((r : GraphReserve)
          → Memᴰ r reserves
          → to_lower r.underlying_asset ≡ to_lower res.underlying_asset
          → r ≡ res)
      → Holds (load_reserves id reserves s)
  unfolding load_reserves
  load_reserves-sets _ s (Memᴰ.head {x} {xs} e) only =
      load_reserves-keeps xs (load_reserve id x s) (λ q m. only q (Memᴰ.tail m))
        (subst (λ q. Holds (load_reserve id q s)) e (load_reserve-sets s))
  load_reserves-sets _ s (Memᴰ.tail {x} {xs} m) only =
      load_reserves-sets xs (load_reserve id x s) m (λ q k. only q (Memᴰ.tail k))

abbrev load_user : GraphUser → StateStore → StateStore
load_user u s = load_reserves u.id u.reserves (set_user_e_mode u.id (get_e_mode_id u) s)

module _ (u : GraphUser) (res : GraphReserve) (kept : is_empty res ≡ false)
    (listed : Memᴰ res u.reserves)
    (only : (r : GraphReserve)
      → Memᴰ r u.reserves
      → to_lower r.underlying_asset ≡ to_lower res.underlying_asset
      → r ≡ res) where
  load_user-keeps :
      (w : GraphUser) (s : StateStore)
      → (to_lower w.id ≡ to_lower u.id → w ≡ u)
      → Holds u.id res kept s
      → Holds u.id res kept (load_user w s)
  unfolding Holds
  load_user-keeps w s same h = elim (Bool-cases (beq (to_lower w.id) (to_lower u.id))) [
    | inl e ↦
        let is_u = same ((text_beq_iff (to_lower w.id) (to_lower u.id)).0 e) in
        subst (λ q. Holds u.id res kept (load_user q s)) (sym is_u)
          (load_reserves-sets u.id res kept u.reserves _ listed only)
    | inr e ↦
        let apart : to_lower w.id ≢ to_lower u.id =
          λ q. ground (arith, e, q, text_beq_iff (to_lower w.id) (to_lower u.id)) in
        load_reserves-other w.id w.reserves _ _ _ apart
        ∙ set_user_e_mode_lem w.id (get_e_mode_id w) s _ _
        ∙ h
  ]

  load_users-keeps :
      (users : List GraphUser) (s : StateStore)
      → ((w : GraphUser) → Memᴰ w users → to_lower w.id ≡ to_lower u.id → w ≡ u)
      → Holds u.id res kept s
      → Holds u.id res kept (load_users users s)
  unfolding load_users
  load_users-keeps [] s same h = h
  load_users-keeps (w ∷ users) s same h =
      load_users-keeps users (load_user w s) (λ q m. same q (Memᴰ.tail m))
        (load_user-keeps w s (same w (Memᴰ.head refl)) h)

  -- Among users of which no other has the identifier, a user's reserve that is not empty and
  -- whose asset no other has is in the store as it was cleaned.
  pub load_users-find_reserve :
      (users : List GraphUser) (s : StateStore)
      → Memᴰ u users
      → ((w : GraphUser) → Memᴰ w users → to_lower w.id ≡ to_lower u.id → w ≡ u)
      → find_reserve (load_users users s) (to_lower u.id) (to_lower res.underlying_asset)
        ≡ some (cleaned res)
  unfolding load_users Holds
  load_users-find_reserve _ s (Memᴰ.head {x} {xs} e) same =
      load_users-keeps xs (load_user x s) (λ q m. same q (Memᴰ.tail m))
        (subst (λ q. Holds u.id res kept (load_user q s)) e
          (load_reserves-sets u.id res kept u.reserves _ listed only))
  load_users-find_reserve _ s (Memᴰ.tail {x} {xs} m) same =
      load_users-find_reserve xs (load_user x s) m (λ q k. same q (Memᴰ.tail k))
