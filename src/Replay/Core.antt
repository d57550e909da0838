-- ===== src/Replay/Core.antt =====
-- What of the engine the handlers read and write: the positions and the indices.
pub mod Handlers
use aave_v3_flash_liquidator.Prelude.{
  ◌≡◌, refl, sym, ap, ◌∙◌, ℕ, Bool, true, false, List, [], ◌∷◌, Option, none, some, Option-cases,
  Bool-cases, inl, inr, arith, ℤ, is_zero, lookup, if◌then◌else◌,
}
use aave_v3_flash_liquidator.Text.{Text, text_eq, to_lower}
use aave_v3_flash_liquidator.Ray.{ray_div}
use aave_v3_flash_liquidator.Models.{UserReserve, GlobalIndex, RpcLog}
use aave_v3_flash_liquidator.Store.{
  StateStore, new_state_store, get_global_index, get_user_reserve, modify_reserve, set_global_index,
  set_user_e_mode, put_reserve, add_subscriber, find_reserve, position_of,
}
use aave_v3_flash_liquidator.Replay.{
  LogReplayEngine, add_balance, sub_balance, add_debt, sub_debt, set_collateral, is_int64_two,
  mark_user_dirty, touch_reserve, apply_reserve_data_updated, apply_collateral, apply_supply,
  apply_withdraw, apply_borrow, apply_repay, apply_user_e_mode_set, apply_liquidation_call,
}

-- The store with no more than the positions and the indices.
abbrev pub core_store : StateStore → StateStore
core_store s = record new_state_store {
  user_positions = s.user_positions;
  global_indices = s.global_indices;
}

abbrev pub core : LogReplayEngine → LogReplayEngine
core e = record {
  store = core_store e.store;
  last_processed_block = 0;
  last_processed_log_index = 0;
  current_tx_hash = [];
  dirty_users = [];
  task_queue = [];
}

get_user_reserve-core :
    (u a : Text) (s : StateStore)
    → core_store (get_user_reserve u a s).1 ≡ core_store (get_user_reserve u a (core_store s)).1
unfolding get_user_reserve put_reserve add_subscriber
get_user_reserve-core u a s =
    elim (Option-cases (lookup (to_lower a) (position_of s.user_positions (to_lower u)).reserves)) [
      | inl e ↦ rw (get_user_reserve, e) refl
      | inr (r, e) ↦ rw (get_user_reserve, e) refl
    ]

modify_reserve-core :
    (u a : Text) (f : UserReserve → UserReserve) (s : StateStore)
    → core_store (modify_reserve u a f s) ≡ core_store (modify_reserve u a f (core_store s))
unfolding modify_reserve put_reserve find_reserve
modify_reserve-core u a f s = elim (Option-cases (find_reserve s (to_lower u) (to_lower a))) [
  | inl e ↦ rw (modify_reserve, e) refl
  | inr (r, e) ↦ rw (modify_reserve, e) refl
]

-- An operation that acts on the core alone.
abbrev IsCore : (StateStore → StateStore) → Type 0
IsCore f = (s : StateStore) → core_store (f s) ≡ core_store (f (core_store s))

IsCore-then : (f g : StateStore → StateStore) → IsCore f → IsCore g → IsCore (λ s. g (f s))
IsCore-then f g hf hg s = hg (f s) ∙ ap (λ c. core_store (g c)) (hf s) ∙ sym (hg (f (core_store s)))

-- The write of a handler through the pointer to one reserve, and those to two reserves.
abbrev one_write : Text → Text → (UserReserve → UserReserve) → StateStore → StateStore
one_write u a f s = modify_reserve u a f (get_user_reserve u a s).1

one_write-IsCore : (u a : Text) (f : UserReserve → UserReserve) → IsCore (one_write u a f)
one_write-IsCore u a f =
    IsCore-then (λ s. (get_user_reserve u a s).1) (modify_reserve u a f) (get_user_reserve-core u a)
      (modify_reserve-core u a f)

abbrev two_writes :
    Text
    → Text
    → Text
    → (UserReserve → UserReserve)
    → (UserReserve → UserReserve)
    → StateStore
    → StateStore
two_writes u a b f g s =
    modify_reserve u b g (modify_reserve u a f (get_user_reserve u b (get_user_reserve u a s).1).1)

two_writes-IsCore : (u a b : Text) (f g : UserReserve → UserReserve) → IsCore (two_writes u a b f g)
two_writes-IsCore u a b f g =
    IsCore-then (λ s. (get_user_reserve u a s).1)
      (λ s. modify_reserve u b g (modify_reserve u a f (get_user_reserve u b s).1))
      (get_user_reserve-core u a)
      (IsCore-then (λ s. (get_user_reserve u b s).1)
        (λ s. modify_reserve u b g (modify_reserve u a f s)) (get_user_reserve-core u b)
        (IsCore-then (modify_reserve u a f) (modify_reserve u b g) (modify_reserve-core u a f)
          (modify_reserve-core u b g)))

touch_reserve-core :
    (u a : Text) (f : UserReserve → UserReserve) (e : LogReplayEngine)
    → core (touch_reserve u a f e) ≡ core (touch_reserve u a f (core e))
unfolding touch_reserve mark_user_dirty
touch_reserve-core u a f e =
    ap (λ c. core (record e { store = c })) (one_write-IsCore u a f e.store)

-- Handlers that go on only with a known index that is not zero.
guarded-core :
    (o : Option GlobalIndex) (index : GlobalIndex → ℤ) (u a : Text)
    (f : GlobalIndex → UserReserve → UserReserve) (e : LogReplayEngine)
    → core (elim o as (λ _. LogReplayEngine) [
      | none ↦ e
      | some i ↦ if is_zero (index i) then e else touch_reserve u a (f i) e
    ])
      ≡ core (elim o as (λ _. LogReplayEngine) [
        | none ↦ core e
        | some i ↦ if is_zero (index i) then core e else touch_reserve u a (f i) (core e)
      ])
guarded-core none index u a f e = refl
guarded-core (some i) index u a f e = elim (Bool-cases (is_zero (index i))) [
  | inl z ↦ rw z refl
  | inr z ↦ rw z (touch_reserve-core u a (f i) e)
]

module _ (asset user : Text) (e : LogReplayEngine) where
  pub apply_supply-core :
      (x : ℤ) → core (apply_supply asset user x e) ≡ core (apply_supply asset user x (core e))
  unfolding apply_supply get_global_index
  apply_supply-core x =
      guarded-core (get_global_index e.store asset) (λ i. i.liquidity_index) user asset
        (λ i. add_balance (ray_div x i.liquidity_index)) e

  pub apply_withdraw-core :
      (x : ℤ) → core (apply_withdraw asset user x e) ≡ core (apply_withdraw asset user x (core e))
  unfolding apply_withdraw get_global_index
  apply_withdraw-core x =
      guarded-core (get_global_index e.store asset) (λ i. i.liquidity_index) user asset
        (λ i. sub_balance (ray_div x i.liquidity_index)) e

  pub apply_repay-core :
      (x : ℤ) → core (apply_repay asset user x e) ≡ core (apply_repay asset user x (core e))
  unfolding apply_repay get_global_index
  apply_repay-core x =
      guarded-core (get_global_index e.store asset) (λ i. i.variable_borrow_index) user asset
        (λ i. sub_debt (ray_div x i.variable_borrow_index)) e

  pub apply_borrow-core :
      (x mode : ℤ)
      → core (apply_borrow asset user x mode e) ≡ core (apply_borrow asset user x mode (core e))
  unfolding apply_borrow get_global_index
  apply_borrow-core x mode = elim (Bool-cases (is_int64_two mode)) [
    | inl two ↦
        rw (apply_borrow, two)
          (guarded-core (get_global_index e.store asset) (λ i. i.variable_borrow_index) user asset
            (λ i. add_debt (ray_div x i.variable_borrow_index)) e)
    | inr other ↦ rw (apply_borrow, other) refl
  ]

  pub apply_collateral-core :
      (b : Bool)
      → core (apply_collateral b asset user e) ≡ core (apply_collateral b asset user (core e))
  unfolding apply_collateral
  apply_collateral-core b = touch_reserve-core user asset (set_collateral b) e

  pub apply_user_e_mode_set-core :
      (c : ℤ) → core (apply_user_e_mode_set user c e) ≡ core (apply_user_e_mode_set user c (core e))
  unfolding apply_user_e_mode_set mark_user_dirty set_user_e_mode
  apply_user_e_mode_set-core c = refl

  pub apply_reserve_data_updated-core :
      (x y : ℤ) (n : ℕ)
      → core (apply_reserve_data_updated asset x y n e)
        ≡ core (apply_reserve_data_updated asset x y n (core e))
  unfolding apply_reserve_data_updated set_global_index
  apply_reserve_data_updated-core x y n = refl

  pub apply_liquidation_call-core :
      (debt_asset : Text) (x y : ℤ)
      → core (apply_liquidation_call asset debt_asset user x y e)
        ≡ core (apply_liquidation_call asset debt_asset user x y (core e))
  unfolding apply_liquidation_call get_global_index mark_user_dirty
  apply_liquidation_call-core debt_asset x y =
      elim (Option-cases (get_global_index e.store debt_asset)) [
        | inl no_debt ↦ rw (apply_liquidation_call, no_debt) refl
        | inr (i, known) ↦ elim (Option-cases (get_global_index e.store asset)) [
          | inl none_left ↦ rw (apply_liquidation_call, known, none_left) refl
          | inr (j, known') ↦
              rw (apply_liquidation_call, known, known')
                (ap (λ c. core (record e { store = c }))
                  (two_writes-IsCore user debt_asset asset
                    (sub_debt (ray_div x i.variable_borrow_index))
                    (sub_balance (ray_div y j.liquidity_index)) e.store))
        ]
      ]
