-- ===== src/Replay/Keeps.antt =====
-- The invariant of the store that the events keep, for the handlers after the decoding.
use aave_v3_flash_liquidator.Prelude.{
  ◌≡◌, refl, ℕ, Bool, none, some, Option, Option-cases, Bool-cases, inl, inr, arith, if◌then◌else◌,
  ℤ, pos, ◌≤ℤ◌, ◌-ℤ◌, is_zero, lookup, lookup-insert, int_laws,
}
use aave_v3_flash_liquidator.Text.{Text, text_eq, to_lower}
use aave_v3_flash_liquidator.Ray.{ray_div}
use aave_v3_flash_liquidator.Ray.Rounding.{ray_div_nonneg}
use aave_v3_flash_liquidator.Models.{GlobalIndex, UserReserve}
use aave_v3_flash_liquidator.Store.{
  StateStore, get_global_index, get_user_reserve, modify_reserve, set_global_index, set_user_e_mode,
}
use aave_v3_flash_liquidator.Store.Methods.{
  IsNonneg, IsValid, set_user_e_mode-IsValid, set_global_index-IsValid, get_user_reserve-IsValid,
  get_user_reserve-global_indices, modify_reserve-global_indices, modify_reserve-IsValid,
}
use aave_v3_flash_liquidator.Replay.{
  LogReplayEngine, mark_user_dirty, drop_dust, add_balance, sub_balance, add_debt, sub_debt,
  touch_reserve, is_int64_two, apply_reserve_data_updated, apply_collateral, apply_supply,
  apply_withdraw, apply_borrow, apply_repay, apply_user_e_mode_set, apply_liquidation_call,
}

drop_dust_nonneg : (x : ℤ) → pos 0 ≤ℤ drop_dust x
unfolding drop_dust
drop_dust_nonneg x = ground arith

module _ (r : UserReserve) (x : ℤ) (h : IsNonneg r) where
  add_balance-IsNonneg : pos 0 ≤ℤ x → IsNonneg (add_balance x r)
  add_balance-IsNonneg p = omega int_laws

  add_debt-IsNonneg : pos 0 ≤ℤ x → IsNonneg (add_debt x r)
  add_debt-IsNonneg p = omega int_laws

  sub_balance-IsNonneg : IsNonneg (sub_balance x r)
  sub_balance-IsNonneg = omega (arith, drop_dust_nonneg (r.scaled_a_token_balance -ℤ x))

  sub_debt-IsNonneg : IsNonneg (sub_debt x r)
  sub_debt-IsNonneg = omega (arith, drop_dust_nonneg (r.scaled_variable_debt -ℤ x))

-- The indices are not negative either.
pub record IsSound (s : StateStore) : Type 0 where
  pub valid : IsValid s
  pub indices :
      (a : Text) (i : GlobalIndex)
      → lookup a s.global_indices ≡ some i
      → (pos 0 ≤ℤ i.liquidity_index) × (pos 0 ≤ℤ i.variable_borrow_index)

module _ (user asset : Text) (s : StateStore) (h : IsSound s) where
  get_user_reserve-IsSound : IsSound (get_user_reserve user asset s).1
  get_user_reserve-IsSound = record {
    valid = get_user_reserve-IsValid user asset s h.valid;
    indices = λ a i p. h.indices a i (rw (get_user_reserve-global_indices user asset s) at p);
  }

  modify_reserve-IsSound :
      (f : UserReserve → UserReserve)
      → ((r : UserReserve) → IsNonneg r → IsNonneg (f r))
      → IsSound (modify_reserve user asset f s)
  modify_reserve-IsSound f keep = record {
    valid = modify_reserve-IsValid user asset f s keep h.valid;
    indices = λ a i p. h.indices a i (rw (modify_reserve-global_indices user asset f s) at p);
  }

touch_reserve-IsSound :
    (user asset : Text) (f : UserReserve → UserReserve) (e : LogReplayEngine)
    → ((r : UserReserve) → IsNonneg r → IsNonneg (f r))
    → IsSound e.store
    → IsSound (touch_reserve user asset f e).store
unfolding touch_reserve mark_user_dirty
touch_reserve-IsSound user asset f e keep h =
    modify_reserve-IsSound user asset _ (get_user_reserve-IsSound user asset e.store h) f keep

-- The amount that is added, scaled by an index of the store, is not negative.
scaled_nonneg :
    (s : StateStore) (asset : Text) (amount : ℤ) {i : GlobalIndex}
    → IsSound s
    → pos 0 ≤ℤ amount
    → get_global_index s asset ≡ some i
    → (pos 0 ≤ℤ ray_div amount i.liquidity_index)
      × (pos 0 ≤ℤ ray_div amount i.variable_borrow_index)
unfolding get_global_index
scaled_nonneg s asset amount {i} h p e =
    let (l, b) = h.indices (to_lower asset) i e in
    (ray_div_nonneg amount i.liquidity_index p l, ray_div_nonneg amount i.variable_borrow_index p b)

-- Four handlers go on only with a known index that is not zero, and then change one reserve by the
-- scaled amount.
module _ (asset user : Text) (e : LogReplayEngine) (h : IsSound e.store) where
  guarded_touch :
      (m : Option GlobalIndex) (index : GlobalIndex → ℤ) (change : ℤ → UserReserve → UserReserve)
      (x : ℤ)
      → ((i : GlobalIndex) (r : UserReserve)
          → m ≡ some i
          → IsNonneg r
          → IsNonneg (change (ray_div x (index i)) r))
      → IsSound
          (elim m as (λ _. LogReplayEngine) [
            | none ↦ e
            | some i ↦
                if is_zero (index i)
                then e
                else touch_reserve user asset (change (ray_div x (index i))) e
          ]).store
  guarded_touch none index change x keep = h
  guarded_touch (some i) index change x keep = elim (Bool-cases (is_zero (index i))) [
    | inl zero_index ↦ rw zero_index h
    | inr ready ↦ rw ready (touch_reserve-IsSound user asset _ e (λ r. keep i r refl) h)
  ]

  pub apply_supply-IsSound : (x : ℤ) → pos 0 ≤ℤ x → IsSound (apply_supply asset user x e).store
  unfolding apply_supply
  apply_supply-IsSound x p =
      guarded_touch (get_global_index e.store asset) (λ i. i.liquidity_index) add_balance x
        λ i r found ok. add_balance-IsNonneg r _ ok (scaled_nonneg e.store asset x h p found).0

  pub apply_borrow-IsSound :
      (x mode : ℤ) → pos 0 ≤ℤ x → IsSound (apply_borrow asset user x mode e).store
  unfolding apply_borrow
  apply_borrow-IsSound x mode p = elim (Bool-cases (is_int64_two mode)) [
    | inl variable ↦
        rw (apply_borrow, variable)
          (guarded_touch (get_global_index e.store asset) (λ i. i.variable_borrow_index) add_debt x
            λ i r found ok. add_debt-IsNonneg r _ ok (scaled_nonneg e.store asset x h p found).1)
    | inr stable ↦ rw (apply_borrow, stable) h
  ]

  pub apply_withdraw-IsSound : (x : ℤ) → IsSound (apply_withdraw asset user x e).store
  unfolding apply_withdraw
  apply_withdraw-IsSound x =
      guarded_touch (get_global_index e.store asset) (λ i. i.liquidity_index) sub_balance x
        λ i r found ok. sub_balance-IsNonneg r _ ok

  pub apply_repay-IsSound : (x : ℤ) → IsSound (apply_repay asset user x e).store
  unfolding apply_repay
  apply_repay-IsSound x =
      guarded_touch (get_global_index e.store asset) (λ i. i.variable_borrow_index) sub_debt x
        λ i r found ok. sub_debt-IsNonneg r _ ok

  pub apply_collateral-IsSound : (b : Bool) → IsSound (apply_collateral b asset user e).store
  unfolding apply_collateral
  apply_collateral-IsSound b = touch_reserve-IsSound user asset _ e (λ r ok. omega arith) h

  pub apply_user_e_mode_set-IsSound : (c : ℤ) → IsSound (apply_user_e_mode_set user c e).store
  unfolding apply_user_e_mode_set mark_user_dirty set_user_e_mode
  apply_user_e_mode_set-IsSound c = record {
    valid = set_user_e_mode-IsValid user _ e.store h.valid;
    indices = h.indices;
  }

  pub apply_reserve_data_updated-IsSound :
      (l b : ℤ) (block : ℕ)
      → pos 0 ≤ℤ l
      → pos 0 ≤ℤ b
      → IsSound (apply_reserve_data_updated asset l b block e).store
  unfolding apply_reserve_data_updated set_global_index
  apply_reserve_data_updated-IsSound l b block p q = record {
    valid = set_global_index-IsValid asset _ e.store h.valid;
    indices = λ a i found. ground (
      arith,
      lookup-insert (to_lower asset) a
          (record {
            asset_address = asset;
            liquidity_index = l;
            variable_borrow_index = b;
            last_update_block = block;
          })
          e.store.global_indices,
      h.indices a i,
    );
  }

  pub apply_liquidation_call-IsSound :
      (collateral : Text) (x y : ℤ)
      → IsSound (apply_liquidation_call collateral asset user x y e).store
  unfolding apply_liquidation_call mark_user_dirty
  apply_liquidation_call-IsSound collateral x y =
      elim (Option-cases (get_global_index e.store asset)) [
        | inl missing ↦ rw (apply_liquidation_call, missing) h
        | inr (i, debt_found) ↦ elim (Option-cases (get_global_index e.store collateral)) [
          | inl missing ↦ rw (apply_liquidation_call, debt_found, missing) h
          | inr (j, found) ↦
              rw (apply_liquidation_call, debt_found, found)
                (modify_reserve-IsSound user collateral _
                  (modify_reserve-IsSound user asset _
                    (get_user_reserve-IsSound user collateral _
                      (get_user_reserve-IsSound user asset e.store h))
                    _ (λ r ok. sub_debt-IsNonneg r _ ok))
                  _ (λ r ok. sub_balance-IsNonneg r _ ok))
        ]
      ]
