-- ===== src/Replay.antt =====
-- internal/engine/log_replay_engine.go and events.go: the pool's events, applied to the store.
pub mod Events
pub mod Keeps
pub mod Sound
pub mod Accounts
pub mod Stream
pub mod History
pub mod Fetch
pub mod Core
pub mod Delivery
pub mod Once
pub mod Start
use aave_v3_flash_liquidator.Prelude.{
  ℕ, ◌-◌, ◌%◌, ◌^◌, ◌+◌, Bool, true, false, ◌||◌, List, [], ◌∷◌, none, some, ltb, leb, ◌==◌,
  if◌then◌else◌, ℤ, pos, negsuc, abs_ℕ, ltb_ℤ, leb_ℤ, is_zero, ◌+ℤ◌, ◌-ℤ◌, Assoc, insert, map,
}
use aave_v3_flash_liquidator.Text.{Text, text_eq}
use aave_v3_flash_liquidator.Ray.{ray_div, dust_threshold}
use aave_v3_flash_liquidator.Models.{UserReserve, GlobalIndex}
use aave_v3_flash_liquidator.Store.{
  StateStore, get_global_index, set_global_index, get_user_reserve, modify_reserve, set_user_e_mode,
}
use aave_v3_flash_liquidator.Risk.Queue.{enqueue_all, enqueue_by_asset}

-- The engine's own fields, the store that it shares, and the risk engine's task queue.
pub record LogReplayEngine : Type 0 where
  pub store : StateStore
  pub last_processed_block : ℕ
  pub last_processed_log_index : ℕ
  pub current_tx_hash : Text
  pub dirty_users : Assoc Text (Unit {0})
  pub task_queue : List Text

unfoldable pub mark_user_dirty : Text → LogReplayEngine → LogReplayEngine
mark_user_dirty user_addr e = record e { dirty_users = insert user_addr tt e.dirty_users }

unfoldable pub flush_dirty_users : LogReplayEngine → LogReplayEngine
flush_dirty_users e = record e {
  task_queue = enqueue_all (map (λ d. d.0) e.dirty_users) e.task_queue;
  dirty_users = [];
}

-- A balance below zero, or of dust, is set to zero.
unfoldable pub drop_dust : ℤ → ℤ
drop_dust x = if ltb_ℤ x (pos 0) || leb_ℤ (pos (abs_ℕ x)) dust_threshold then pos 0 else x

abbrev pub add_balance : ℤ → UserReserve → UserReserve
add_balance x r = record r { scaled_a_token_balance = r.scaled_a_token_balance +ℤ x }

abbrev pub sub_balance : ℤ → UserReserve → UserReserve
sub_balance x r = record r { scaled_a_token_balance = drop_dust (r.scaled_a_token_balance -ℤ x) }

abbrev pub add_debt : ℤ → UserReserve → UserReserve
add_debt x r = record r { scaled_variable_debt = r.scaled_variable_debt +ℤ x }

abbrev pub sub_debt : ℤ → UserReserve → UserReserve
sub_debt x r = record r { scaled_variable_debt = drop_dust (r.scaled_variable_debt -ℤ x) }

abbrev pub set_collateral : Bool → UserReserve → UserReserve
set_collateral b r = record r { usage_as_collateral_enabled_on_user = b }

-- `GetUserReserve`, then a change through the pointer, then `markUserDirty`.
unfoldable pub touch_reserve :
    Text → Text → (UserReserve → UserReserve) → LogReplayEngine → LogReplayEngine
touch_reserve user asset f e =
    mark_user_dirty user
      (record e { store = modify_reserve user asset f (get_user_reserve user asset e.store).1 })

-- The handlers from the point where the event has been read.
unfoldable pub apply_reserve_data_updated : Text → ℤ → ℤ → ℕ → LogReplayEngine → LogReplayEngine
apply_reserve_data_updated asset liquidity_index variable_borrow_index block_num e =
    let new_index : GlobalIndex = record {
      asset_address = asset;
      liquidity_index = liquidity_index;
      variable_borrow_index = variable_borrow_index;
      last_update_block = block_num;
    } in
    let store' = set_global_index asset new_index e.store in
    record e { store = store'; task_queue = enqueue_by_asset store' asset e.task_queue }

unfoldable pub apply_collateral : Bool → Text → Text → LogReplayEngine → LogReplayEngine
unfolding touch_reserve
apply_collateral enabled asset user e = touch_reserve user asset (set_collateral enabled) e

unfoldable pub apply_supply : Text → Text → ℤ → LogReplayEngine → LogReplayEngine
unfolding touch_reserve
apply_supply asset on_behalf_of amount e = elim (get_global_index e.store asset) [
  | none ↦ e
  | some idx ↦
      if is_zero idx.liquidity_index
      then e
      else touch_reserve on_behalf_of asset (add_balance (ray_div amount idx.liquidity_index)) e
]

unfoldable pub apply_withdraw : Text → Text → ℤ → LogReplayEngine → LogReplayEngine
unfolding touch_reserve
apply_withdraw asset user amount e = elim (get_global_index e.store asset) [
  | none ↦ e
  | some idx ↦
      if is_zero idx.liquidity_index
      then e
      else touch_reserve user asset (sub_balance (ray_div amount idx.liquidity_index)) e
]

-- `x.Int64()`: the low 64 bits of the absolute value, read in two's complement, with the sign.
abbrev pub is_int64_two : ℤ → Bool
is_int64_two (pos n) = n % 2 ^ 64 == 2
is_int64_two (negsuc n) = (n + 1) % 2 ^ 64 == 2 ^ 64 - 2

unfoldable pub apply_borrow : Text → Text → ℤ → ℤ → LogReplayEngine → LogReplayEngine
unfolding touch_reserve
apply_borrow asset on_behalf_of amount interest_rate_mode e =
    if is_int64_two interest_rate_mode
    then (elim (get_global_index e.store asset) [
      | none ↦ e
      | some idx ↦
          if is_zero idx.variable_borrow_index
          then e
          else touch_reserve on_behalf_of asset
              (add_debt (ray_div amount idx.variable_borrow_index)) e
    ])
    else e

unfoldable pub apply_repay : Text → Text → ℤ → LogReplayEngine → LogReplayEngine
unfolding touch_reserve
apply_repay asset user amount e = elim (get_global_index e.store asset) [
  | none ↦ e
  | some idx ↦
      if is_zero idx.variable_borrow_index
      then e
      else touch_reserve user asset (sub_debt (ray_div amount idx.variable_borrow_index)) e
]

unfoldable pub apply_user_e_mode_set : Text → ℤ → LogReplayEngine → LogReplayEngine
apply_user_e_mode_set user category e =
    mark_user_dirty user
      (record e { store = set_user_e_mode user (abs_ℕ category % 2 ^ 64 % 2 ^ 8) e.store })

-- Both reserves are fetched before either is written; they are one if the assets are the same.
unfoldable pub apply_liquidation_call :
    Text → Text → Text → ℤ → ℤ → LogReplayEngine → LogReplayEngine
apply_liquidation_call collateral_asset debt_asset user debt_to_cover liquidated e =
    elim (get_global_index e.store debt_asset) [
      | none ↦ e
      | some debt_idx ↦ elim (get_global_index e.store collateral_asset) [
        | none ↦ e
        | some collateral_idx ↦
            let scaled_debt = ray_div debt_to_cover debt_idx.variable_borrow_index in
            let scaled_collateral = ray_div liquidated collateral_idx.liquidity_index in
            let fetched =
              (get_user_reserve user collateral_asset
                (get_user_reserve user debt_asset e.store).1).1 in
            let repaid = modify_reserve user debt_asset (sub_debt scaled_debt) fetched in
            mark_user_dirty user (record e {
              store = modify_reserve user collateral_asset (sub_balance scaled_collateral) repaid;
            })
      ]
    ]
