-- ===== src/System/Index.antt =====
-- The risk heap and the capacity of the queue under the handlers of the log engine.
use aave_v3_flash_liquidator.Prelude.{
  ℕ, ◌≤◌, Bool, true, false, Bool-cases, Option-cases, inl, inr, List, Option, none, some,
  if◌then◌else◌, is_zero, length, ◌++◌, length-take, lookup, ℤ, arith,
}
use aave_v3_flash_liquidator.Text.{Text, text_eq, to_lower}
use aave_v3_flash_liquidator.Models.{UserReserve, GlobalIndex}
use aave_v3_flash_liquidator.Store.{
  StateStore, get_user_reserve, modify_reserve, put_reserve, add_subscriber, find_reserve,
  position_of, get_global_index, set_global_index, set_user_e_mode, get_subscribers,
}
use aave_v3_flash_liquidator.Risk.Queue.{
  task_queue_size, enqueue_all, enqueue_by_asset, enqueue_all-take,
}
use aave_v3_flash_liquidator.Risk.Update.View.{IsRiskIndex}
use aave_v3_flash_liquidator.Replay.{
  LogReplayEngine, mark_user_dirty, touch_reserve, is_int64_two, apply_reserve_data_updated,
  apply_collateral, apply_supply, apply_withdraw, apply_borrow, apply_repay, apply_user_e_mode_set,
  apply_liquidation_call, flush_dirty_users,
}

-- The heap is in order and listed by the table, and the queue is within its capacity.
pub record IsHealthy (e : LogReplayEngine) : Type 0 where
  pub index : IsRiskIndex e.store
  pub room : length e.task_queue ≤ task_queue_size

pub enqueue_all-room :
    (users queue : List Text)
    → length queue ≤ task_queue_size
    → length (enqueue_all users queue) ≤ task_queue_size
enqueue_all-room users queue h =
    rw (enqueue_all-take users queue h)
      (omega (arith, length-take task_queue_size (queue ++ users)))

pub enqueue_by_asset-room :
    (s : StateStore) (asset : Text) (queue : List Text)
    → length queue ≤ task_queue_size
    → length (enqueue_by_asset s asset queue) ≤ task_queue_size
unfolding enqueue_by_asset
enqueue_by_asset-room s asset queue h = enqueue_all-room (get_subscribers s asset) queue h

module _ (u a : Text) (s : StateStore) (x : IsRiskIndex s) where
  get_user_reserve-IsRiskIndex : IsRiskIndex (get_user_reserve u a s).1
  unfolding get_user_reserve put_reserve add_subscriber
  get_user_reserve-IsRiskIndex =
      elim (Option-cases
        (lookup (to_lower a) (position_of s.user_positions (to_lower u)).reserves)) [
          | inl e ↦ rw (get_user_reserve, e) (record { heap = x.heap; listing = x.listing })
          | inr (r, e) ↦ rw (get_user_reserve, e) x
        ]

  modify_reserve-IsRiskIndex :
      (f : UserReserve → UserReserve) → IsRiskIndex (modify_reserve u a f s)
  unfolding modify_reserve put_reserve
  modify_reserve-IsRiskIndex f = elim (Option-cases (find_reserve s (to_lower u) (to_lower a))) [
    | inl e ↦ rw (modify_reserve, e) x
    | inr (r, e) ↦ rw (modify_reserve, e) (record { heap = x.heap; listing = x.listing })
  ]

module _ (e : LogReplayEngine) (h : IsHealthy e) where
  touch_reserve-IsHealthy :
      (u a : Text) (f : UserReserve → UserReserve) → IsHealthy (touch_reserve u a f e)
  unfolding touch_reserve mark_user_dirty
  touch_reserve-IsHealthy u a f = record {
    index = modify_reserve-IsRiskIndex u a _ (get_user_reserve-IsRiskIndex u a e.store h.index) f;
    room = h.room;
  }

  pub if-IsHealthy : (b : Bool) {d : LogReplayEngine} → IsHealthy d → IsHealthy (if b then e else d)
  if-IsHealthy true k = h
  if-IsHealthy false k = k

  guarded-IsHealthy :
      (o : Option GlobalIndex) (index : GlobalIndex → ℤ) (u a : Text)
      (f : GlobalIndex → UserReserve → UserReserve)
      → IsHealthy (elim o as (λ _. LogReplayEngine) [
        | none ↦ e
        | some i ↦ if is_zero (index i) then e else touch_reserve u a (f i) e
      ])
  guarded-IsHealthy none index u a f = h
  guarded-IsHealthy (some i) index u a f =
      if-IsHealthy (is_zero (index i)) (touch_reserve-IsHealthy u a (f i))

  module _ (asset user : Text) where
    pub apply_supply-IsHealthy : (x : ℤ) → IsHealthy (apply_supply asset user x e)
    unfolding apply_supply
    apply_supply-IsHealthy x =
        guarded-IsHealthy (get_global_index e.store asset) (λ i. i.liquidity_index) user asset _

    pub apply_withdraw-IsHealthy : (x : ℤ) → IsHealthy (apply_withdraw asset user x e)
    unfolding apply_withdraw
    apply_withdraw-IsHealthy x =
        guarded-IsHealthy (get_global_index e.store asset) (λ i. i.liquidity_index) user asset _

    pub apply_repay-IsHealthy : (x : ℤ) → IsHealthy (apply_repay asset user x e)
    unfolding apply_repay
    apply_repay-IsHealthy x =
        guarded-IsHealthy (get_global_index e.store asset) (λ i. i.variable_borrow_index) user asset
          _

    pub apply_borrow-IsHealthy : (x mode : ℤ) → IsHealthy (apply_borrow asset user x mode e)
    unfolding apply_borrow
    apply_borrow-IsHealthy x mode = elim (Bool-cases (is_int64_two mode)) [
      | inl two ↦
          rw (apply_borrow, two)
            (guarded-IsHealthy (get_global_index e.store asset) (λ i. i.variable_borrow_index) user
              asset _)
      | inr other ↦ rw (apply_borrow, other) h
    ]

    pub apply_collateral-IsHealthy : (b : Bool) → IsHealthy (apply_collateral b asset user e)
    unfolding apply_collateral
    apply_collateral-IsHealthy b = touch_reserve-IsHealthy user asset _

    pub apply_user_e_mode_set-IsHealthy : (c : ℤ) → IsHealthy (apply_user_e_mode_set user c e)
    unfolding apply_user_e_mode_set mark_user_dirty set_user_e_mode
    apply_user_e_mode_set-IsHealthy c = record {
      index = record { heap = h.index.heap; listing = h.index.listing };
      room = h.room;
    }

    pub apply_reserve_data_updated-IsHealthy :
        (x y : ℤ) (n : ℕ) → IsHealthy (apply_reserve_data_updated asset x y n e)
    unfolding apply_reserve_data_updated set_global_index
    apply_reserve_data_updated-IsHealthy x y n = record {
      index = record { heap = h.index.heap; listing = h.index.listing };
      room = enqueue_by_asset-room _ asset e.task_queue h.room;
    }

    pub apply_liquidation_call-IsHealthy :
        (debt_asset : Text) (x y : ℤ)
        → IsHealthy (apply_liquidation_call asset debt_asset user x y e)
    unfolding apply_liquidation_call mark_user_dirty
    apply_liquidation_call-IsHealthy debt_asset x y =
        elim (Option-cases (get_global_index e.store debt_asset)) [
          | inl unknown ↦ rw (apply_liquidation_call, unknown) h
          | inr (i, known) ↦ elim (Option-cases (get_global_index e.store asset)) [
            | inl unknown ↦ rw (apply_liquidation_call, known, unknown) h
            | inr (j, known') ↦
                let first = get_user_reserve-IsRiskIndex user debt_asset e.store h.index in
                let second = get_user_reserve-IsRiskIndex user asset _ first in
                let repaid = modify_reserve-IsRiskIndex user debt_asset _ second _ in
                rw (apply_liquidation_call, known, known')
                  (record {
                    index = modify_reserve-IsRiskIndex user asset _ repaid _;
                    room = h.room;
                  })
          ]
        ]

  pub flush_dirty_users-IsHealthy : IsHealthy (flush_dirty_users e)
  unfolding flush_dirty_users
  flush_dirty_users-IsHealthy = record {
    index = h.index;
    room = enqueue_all-room _ e.task_queue h.room;
  }
