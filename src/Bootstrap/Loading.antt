-- ===== src/Bootstrap/Loading.antt =====
-- The store that the bootstrapper leaves.
use aave_v3_flash_liquidator.Prelude.{
  ℕ, ◌≢◌, refl, Bool, true, false, ◌&&◌, ◌==◌, Bool-cases, Option-cases, inl, inr, List, [], ◌∷◌,
  map, Option, none, some, pos, ◌≤ℤ◌, is_zero, Assoc, arith,
}
use aave_v3_flash_liquidator.Text.{Text, set_string}
use aave_v3_flash_liquidator.Run.{Run, ok, panic, ◌>>=◌, Ends, ends}
use aave_v3_flash_liquidator.Models.{GlobalIndex, AssetConfig, EModeCategory}
use aave_v3_flash_liquidator.Store.{
  StateStore, set_anchor_block, set_asset_config, set_e_mode_category, set_global_index,
  find_reserve,
}
use aave_v3_flash_liquidator.Store.Methods.{
  IsValid, upsert_user_reserve-IsValid, set_user_e_mode-IsValid, set_global_index-IsValid,
}
use aave_v3_flash_liquidator.Multicall.{ReserveMaps}
use aave_v3_flash_liquidator.Bootstrap.{
  GraphReserve, GraphUser, parse_and_clean_big_int, get_e_mode_id, set_indices, set_configs,
  set_categories, category_set, load_reserve, load_reserves, load_users, Loaded, load_with,
  bootstrap,
}

parse_and_clean_big_int_nonneg : (value : Text) → pos 0 ≤ℤ parse_and_clean_big_int value
unfolding parse_and_clean_big_int
parse_and_clean_big_int_nonneg value = elim (Option-cases (set_string 10 value)) [
  | inl e ↦ rw (parse_and_clean_big_int, e) (omega arith)
  | inr (num, e) ↦ rw (parse_and_clean_big_int, e) (ground arith)
]

load_reserve-IsValid :
    (id : Text) (res : GraphReserve) (s : StateStore) → IsValid s → IsValid (load_reserve id res s)
unfolding load_reserve
load_reserve-IsValid id res s h =
    elim (Bool-cases (
      is_zero (parse_and_clean_big_int res.scaled_a_token_balance)
      && is_zero (parse_and_clean_big_int res.scaled_variable_debt))) [
        | inl e ↦ rw (load_reserve, e) h
        | inr e ↦
            rw (load_reserve, e)
              (upsert_user_reserve-IsValid id _ s
                (record {
                  balance = parse_and_clean_big_int_nonneg res.scaled_a_token_balance;
                  debt = parse_and_clean_big_int_nonneg res.scaled_variable_debt;
                })
                h)
      ]

load_reserves-IsValid :
    (id : Text) (reserves : List GraphReserve) (s : StateStore)
    → IsValid s
    → IsValid (load_reserves id reserves s)
unfolding load_reserves
load_reserves-IsValid id [] s h = h
load_reserves-IsValid id (res ∷ reserves) s h =
    load_reserves-IsValid id reserves (load_reserve id res s) (load_reserve-IsValid id res s h)

load_users-IsValid :
    (users : List GraphUser) (s : StateStore) → IsValid s → IsValid (load_users users s)
unfolding load_users
load_users-IsValid [] s h = h
load_users-IsValid (u ∷ users) s h =
    load_users-IsValid users _
      (load_reserves-IsValid u.id u.reserves _ (set_user_e_mode-IsValid u.id (get_e_mode_id u) s h))

set_indices-IsValid :
    (indices : Assoc Text GlobalIndex) (s : StateStore)
    → IsValid s
    → IsValid (set_indices indices s)
unfolding set_indices
set_indices-IsValid [] s h = h
set_indices-IsValid (e ∷ indices) s h =
    set_indices-IsValid indices (set_global_index e.0 e.1 s) (set_global_index-IsValid e.0 e.1 s h)

set_configs-IsValid :
    (configs : Assoc Text AssetConfig) (s : StateStore)
    → IsValid s
    → IsValid (set_configs configs s)
unfolding set_configs set_asset_config find_reserve
set_configs-IsValid [] s h = h
set_configs-IsValid (e ∷ configs) s h =
    set_configs-IsValid configs (set_asset_config e.0 e.1 s)
      (record { nonneg = h.nonneg; indexed = h.indexed })

set_categories-IsValid :
    (m : Assoc ℕ EModeCategory) (s : StateStore) → IsValid s → IsValid (set_categories m s)
unfolding set_categories set_e_mode_category find_reserve
set_categories-IsValid [] s h = h
set_categories-IsValid (e ∷ m) s h =
    set_categories-IsValid m (set_e_mode_category e.0 e.1 s)
      (record { nonneg = h.nonneg; indexed = h.indexed })

set_anchor_block-IsValid :
    (block : ℕ) (s : StateStore) → IsValid s → IsValid (set_anchor_block block s)
unfolding set_anchor_block find_reserve
set_anchor_block-IsValid block s h = elim (Bool-cases (s.current_block == 0)) [
  | inl e ↦ rw (set_anchor_block, e) (record { nonneg = h.nonneg; indexed = h.indexed })
  | inr e ↦ rw (set_anchor_block, e) (record { nonneg = h.nonneg; indexed = h.indexed })
]

after_categories :
    (r : Run (Option (Assoc ℕ EModeCategory))) (users : List GraphUser) (s : StateStore)
    → r ≢ panic
    → IsValid s
    → Ends
        (λ (t : Loaded). IsValid t.1)
        (r >>= λ reply. elim reply [
          | none ↦ ok (false, s)
          | some categories ↦ ok (true, load_users users (set_categories categories s))
        ])
after_categories panic users s p h = absurd (p refl)
after_categories (ok none) users s p h = ends h
after_categories (ok (some m)) users s p h =
    ends (load_users-IsValid users _ (set_categories-IsValid m s h))

load_with-IsValid :
    (fetch : List ℕ → Run (Option (Assoc ℕ EModeCategory))) (users : List GraphUser)
    (set : Assoc ℕ Bool) (s : StateStore)
    → ((ids : List ℕ) → fetch ids ≢ panic)
    → IsValid s
    → Ends (λ (t : Loaded). IsValid t.1) (load_with fetch users set s)
unfolding load_with
load_with-IsValid fetch users [] s p h = ends (load_users-IsValid users s h)
load_with-IsValid fetch users (e ∷ set) s p h =
    after_categories (fetch (map (λ x. x.0) (e ∷ set))) users s (p (map (λ x. x.0) (e ∷ set))) h

-- If the fetch of the categories does not panic, then the first filling of a valid store ends, with
-- or without an error, in a valid store, whatever The Graph and the chain reply: amounts of zero or
-- more, and each holder of a reserve subscribed to its asset.
pub bootstrap-IsValid :
    (anchor : Option ℕ) (reserves_at : ℕ → Option ReserveMaps)
    (users_at : ℕ → Option (List GraphUser))
    (categories_at : ℕ → List ℕ → Run (Option (Assoc ℕ EModeCategory))) (s : StateStore)
    → ((block : ℕ) (ids : List ℕ) → categories_at block ids ≢ panic)
    → IsValid s
    → Ends (λ (t : Loaded). IsValid t.1) (bootstrap anchor reserves_at users_at categories_at s)
unfolding bootstrap
bootstrap-IsValid none reserves_at users_at categories_at s p h = ends h
bootstrap-IsValid (some block) reserves_at users_at categories_at s p h =
    let h1 = set_anchor_block-IsValid block s h in
    elim (Option-cases (reserves_at block)) [
      | inl e ↦ rw (bootstrap, e) (ends h1)
      | inr (maps, e) ↦
          let h2 = set_configs-IsValid maps.1 _ (set_indices-IsValid maps.0 _ h1) in
          elim (Option-cases (users_at block)) [
            | inl d ↦ rw (bootstrap, e, d) (ends h2)
            | inr (users, d) ↦
                rw (bootstrap, e, d)
                  (load_with-IsValid (categories_at block) users (category_set users []) _ (p block)
                    h2)
          ]
    ]
