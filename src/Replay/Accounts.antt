-- ===== src/Replay/Accounts.antt =====
-- What the events do to the accounts: which reserve changes, and by how much.
use aave_v3_flash_liquidator.Prelude.{
  ◌≡◌, ◌≢◌, Bool, true, false, ◌&&◌, none, some, arith, if◌then◌else◌, beq, beq_refl, ℤ, pos, ◌+ℤ◌,
  ◌-ℤ◌, is_zero, lookup, lookup-insert, ap, ◌∙◌, Option-cases, Bool-cases, inl, inr, int_laws,
}
use aave_v3_flash_liquidator.Text.{Text, text_eq, text_beq_iff, to_lower}
use aave_v3_flash_liquidator.Ray.{ray_div}
use aave_v3_flash_liquidator.Models.{GlobalIndex, UserReserve}
use aave_v3_flash_liquidator.Store.{find_reserve, get_global_index, get_user_reserve}
use aave_v3_flash_liquidator.Store.Methods.{
  reserve_of, update_reserve_lem, get_user_reserve-global_indices, modify_reserve-global_indices,
}
use aave_v3_flash_liquidator.Store.Pair.{update_two_lem}
use aave_v3_flash_liquidator.Replay.{
  LogReplayEngine, mark_user_dirty, drop_dust, add_balance, sub_balance, add_debt, sub_debt,
  touch_reserve, apply_supply, apply_withdraw, apply_borrow, apply_repay, apply_liquidation_call,
}

-- The user will be sent to the risk engine at the next flush.
pub is_dirty : LogReplayEngine → Text → Bool
is_dirty e u = elim (lookup u e.dirty_users) [ none ↦ false | some _ ↦ true ]

-- One reserve of one user is changed by `f`, every other reserve reads as before, and the user is
-- marked dirty.
abbrev pub Changes :
    LogReplayEngine → Text → Text → (UserReserve → UserReserve) → LogReplayEngine → Type 0
Changes e user asset f e' =
    (is_dirty e' user ≡ true)
    × ((v b : Text)
        → find_reserve e'.store v b ≡ (
            if beq (to_lower user) v && beq (to_lower asset) b
            then some (f (reserve_of e.store (to_lower user) (to_lower asset)))
            else find_reserve e.store v b))

touch_reserve-Changes :
    (user asset : Text) (f : UserReserve → UserReserve) (e : LogReplayEngine)
    → Changes e user asset f (touch_reserve user asset f e)
unfolding touch_reserve mark_user_dirty is_dirty
touch_reserve-Changes user asset f e = (
  ground (arith, lookup-insert user user tt e.dirty_users, beq_refl user),
  update_reserve_lem user asset f e.store,
)

module _ (asset user : Text) (x : ℤ) (e : LogReplayEngine) {i : GlobalIndex}
    (known : get_global_index e.store asset ≡ some i) where
  -- At a known liquidity index other than zero, a supply adds the amount, scaled by the index, to
  -- the balance of the account that it is made for and marks the user dirty; no other reserve
  -- changes.
  pub apply_supply_lem :
      i.liquidity_index ≢ pos 0
      → Changes e user asset
          (add_balance (ray_div x i.liquidity_index))
          (apply_supply asset user x e)
  unfolding apply_supply
  apply_supply_lem nonzero =
      let ready : is_zero i.liquidity_index ≡ false = ground arith in
      rw (apply_supply, known, ready) (touch_reserve-Changes user asset _ e)

  pub apply_withdraw_lem :
      i.liquidity_index ≢ pos 0
      → Changes e user asset
          (sub_balance (ray_div x i.liquidity_index))
          (apply_withdraw asset user x e)
  unfolding apply_withdraw
  apply_withdraw_lem nonzero =
      let ready : is_zero i.liquidity_index ≡ false = ground arith in
      rw (apply_withdraw, known, ready) (touch_reserve-Changes user asset _ e)

  pub apply_repay_lem :
      i.variable_borrow_index ≢ pos 0
      → Changes e user asset
          (sub_debt (ray_div x i.variable_borrow_index))
          (apply_repay asset user x e)
  unfolding apply_repay
  apply_repay_lem nonzero =
      let ready : is_zero i.variable_borrow_index ≡ false = ground arith in
      rw (apply_repay, known, ready) (touch_reserve-Changes user asset _ e)

  pub apply_borrow_lem :
      i.variable_borrow_index ≢ pos 0
      → Changes e user asset
          (add_debt (ray_div x i.variable_borrow_index))
          (apply_borrow asset user x (pos 2) e)
  unfolding apply_borrow
  apply_borrow_lem nonzero =
      let ready : is_zero i.variable_borrow_index ≡ false = ground arith in
      rw (apply_borrow, known, ready) (touch_reserve-Changes user asset _ e)

-- Events on accounts leave the indices alone.
touch_reserve-get_global_index :
    (user asset : Text) (f : UserReserve → UserReserve) (e : LogReplayEngine) (a : Text)
    → get_global_index (touch_reserve user asset f e).store a ≡ get_global_index e.store a
unfolding touch_reserve mark_user_dirty get_global_index
touch_reserve-get_global_index user asset f e a = ap (lookup (to_lower a)) (
    modify_reserve-global_indices user asset f (get_user_reserve user asset e.store).1
    ∙ get_user_reserve-global_indices user asset e.store)

apply_supply-get_global_index :
    (asset user : Text) (x : ℤ) (e : LogReplayEngine) (a : Text)
    → get_global_index (apply_supply asset user x e).store a ≡ get_global_index e.store a
unfolding apply_supply
apply_supply-get_global_index asset user x e a =
    elim (Option-cases (get_global_index e.store asset)) [
      | inl missing ↦ rw (apply_supply, missing)
      | inr (i, known) ↦ elim (Bool-cases (is_zero i.liquidity_index)) [
        | inl zero_index ↦ rw (apply_supply, known, zero_index)
        | inr ready ↦
            rw (apply_supply, known, ready) (touch_reserve-get_global_index user asset _ e a)
      ]
    ]

-- At a known liquidity index other than zero, a withdrawal of what was just supplied gives the
-- balance back, less dust, and changes no other reserve.
pub apply_withdraw-apply_supply :
    (asset user : Text) (x : ℤ) (e : LogReplayEngine) {i : GlobalIndex}
    → get_global_index e.store asset ≡ some i
    → i.liquidity_index ≢ pos 0
    → (v b : Text)
    → find_reserve (apply_withdraw asset user x (apply_supply asset user x e)).store v b ≡ (
        if beq (to_lower user) v && beq (to_lower asset) b
        then some (sub_balance (pos 0) (reserve_of e.store (to_lower user) (to_lower asset)))
        else find_reserve e.store v b)
apply_withdraw-apply_supply asset user x e {i} known nonzero v b =
    let u = to_lower user in
    let a = to_lower asset in
    let r = reserve_of e.store u a in
    let s = ray_div x i.liquidity_index in
    let e1 = apply_supply asset user x e in
    let known1 = apply_supply-get_global_index asset user x e asset ∙ known in
    let same : r.scaled_a_token_balance +ℤ s -ℤ s ≡ r.scaled_a_token_balance -ℤ pos 0 =
      omega int_laws in
    let back : sub_balance s (add_balance s r) ≡ sub_balance (pos 0) r =
      ap (λ t. record r { scaled_a_token_balance = drop_dust t }) same in
    ground (
      arith,
      back,
      text_beq_iff u u,
      text_beq_iff a a,
      (apply_withdraw_lem asset user x e1 known1 nonzero).1 v b,
      (apply_supply_lem asset user x e known nonzero).1 u a,
      (apply_supply_lem asset user x e known nonzero).1 v b,
    )

-- With both indices known, a liquidation lowers the debt in the debt asset and the balance in the
-- collateral asset of the user by the scaled amounts, in one reserve if the assets are the same; no
-- other reserve changes.
pub apply_liquidation_call_lem :
    (collateral debt user : Text) (x y : ℤ) (e : LogReplayEngine) {i j : GlobalIndex}
    → get_global_index e.store debt ≡ some i
    → get_global_index e.store collateral ≡ some j
    → (v b : Text)
    → let u = to_lower user in
      let d = to_lower debt in
      let c = to_lower collateral in
      let repay = sub_debt (ray_div x i.variable_borrow_index) in
      let seize = sub_balance (ray_div y j.liquidity_index) in
      find_reserve (apply_liquidation_call collateral debt user x y e).store v b ≡ (
        if beq u v && beq c b
        then some
            (seize (if beq d c then repay (reserve_of e.store u c) else reserve_of e.store u c))
        else if beq u v && beq d b
        then some (repay (reserve_of e.store u d))
        else find_reserve e.store v b)
unfolding apply_liquidation_call mark_user_dirty
apply_liquidation_call_lem collateral debt user x y e {i} {j} known_d known_c v b =
    let repay = sub_debt (ray_div x i.variable_borrow_index) in
    let seize = sub_balance (ray_div y j.liquidity_index) in
    rw (apply_liquidation_call, known_d, known_c)
      (update_two_lem user debt collateral e.store repay seize v b)
