-- ===== src/System/History.antt =====
-- The log engine between its history and its live stream.
use mathlib.Core.Path.{subst}
use aave_v3_flash_liquidator.Prelude.{
  ◌≡◌, sym, ℕ, ◌≤◌, Bool, true, false, Bool-cases, inl, inr, List, if◌then◌else◌, arith,
}
use aave_v3_flash_liquidator.Text.{Text, text_eq}
use aave_v3_flash_liquidator.Models.{RpcLog}
use aave_v3_flash_liquidator.Replay.{LogReplayEngine, flush_dirty_users}
use aave_v3_flash_liquidator.Replay.Stream.{
  block_of, index_of, is_duplicate, enter_transaction, advance, historic_loop, switch_to_stream,
  live_step,
}
use aave_v3_flash_liquidator.Store.{set_current_block}
use aave_v3_flash_liquidator.Replay.Once.{enter_transaction-block}
use aave_v3_flash_liquidator.System.{Phase, starting, replaying, streaming, System}

-- After the history up to a block, the last processed block is not before it.
unfoldable pub IsPast : Phase → LogReplayEngine → Type 0
IsPast starting e = Unit
IsPast (replaying logs b_ws) e = Unit
IsPast (streaming b_ws) e = b_ws ≤ e.last_processed_block

pub switch_to_stream-IsPast :
    (b_ws : ℕ) (e : LogReplayEngine) → b_ws ≤ (switch_to_stream b_ws e).last_processed_block
unfolding flush_dirty_users
switch_to_stream-IsPast b_ws e = ground arith

not_before :
    (e : LogReplayEngine) (block index : ℕ)
    → is_duplicate e block index ≡ false
    → e.last_processed_block ≤ block
unfolding is_duplicate
not_before e block index d = ground (arith, d)

module _ (keccak : Text → Text) (log : RpcLog) (b_ws : ℕ) where
  take-IsPast :
      (e : LogReplayEngine)
      → b_ws ≤ e.last_processed_block
      → b_ws
        ≤ (if is_duplicate e (block_of log) (index_of log)
            then e
            else advance keccak log e).last_processed_block
  unfolding advance
  take-IsPast e h = elim (Bool-cases (is_duplicate e (block_of log) (index_of log))) [
    | inl d ↦ rw d h
    | inr d ↦ rw d (omega (arith, h, not_before e (block_of log) (index_of log) d))
  ]

  flush-IsPast :
      (more : Bool) (e : LogReplayEngine)
      → b_ws ≤ e.last_processed_block
      → b_ws ≤ (if more then e else flush_dirty_users e).last_processed_block
  unfolding flush_dirty_users
  flush-IsPast true e h = h
  flush-IsPast false e h = h

  pub live_step-IsPast :
      (more : Bool) (e : LogReplayEngine)
      → b_ws ≤ e.last_processed_block
      → b_ws ≤ (live_step keccak more log e).last_processed_block
  unfolding live_step
  live_step-IsPast more e h =
      let seen = record e { store = set_current_block (block_of log) e.store } in
      flush-IsPast more _ (
        take-IsPast (enter_transaction log seen)
          (subst (λ n. b_ws ≤ n) (sym (enter_transaction-block keccak b_ws log seen)) h))

module _ (keccak : Text → Text) (target_assets : List Text) (b_ws : ℕ) where
  -- What the loop over these logs and the switch make of the engine.
  replayed : List RpcLog → System → System
  replayed logs y = record y {
    engine = switch_to_stream b_ws (historic_loop keccak logs y.engine);
    phase = streaming b_ws;
  }
