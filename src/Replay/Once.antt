-- ===== src/Replay/Once.antt =====
-- History and live stream together, as `Start` of log_replay_engine.go puts them one after the other.
use aave_v3_flash_liquidator.Prelude.{
  ◌≡◌, refl, sym, ap, ◌∙◌, ℕ, ◌≤◌, ◌<◌, false, List, [], ◌∷◌, ◌++◌, All, ltb, arith, Bool-cases,
  inl, inr, beq,
}
use aave_v3_flash_liquidator.Text.{Text, text_eq}
use aave_v3_flash_liquidator.Models.{RpcLog}
use aave_v3_flash_liquidator.Replay.{LogReplayEngine, flush_dirty_users}
use aave_v3_flash_liquidator.Replay.Stream.{
  block_of, index_of, sort_logs, is_duplicate, enter_transaction, advance, historic_loop,
  replay_history, live_loop,
}
use aave_v3_flash_liquidator.Replay.History.{All-insert_log, replay_history-IsOld}
use aave_v3_flash_liquidator.Replay.Core.{core}
use aave_v3_flash_liquidator.Replay.Delivery.{
  Delivers, process_all, process_all-cong, process_all-append, replay_history-core, Ready,
  live_loop-core,
}

sort_logs-All : (P : RpcLog → Type 0) (logs : List RpcLog) → All P logs → All P (sort_logs logs)
unfolding sort_logs
sort_logs-All P [] h = tt
sort_logs-All P (x ∷ xs) h = All-insert_log P x (sort_logs xs) h.0 (sort_logs-All P xs h.1)

module _ (keccak : Text → Text) (b_ws : ℕ) where
  pub enter_transaction-block :
      (log : RpcLog) (e : LogReplayEngine)
      → (enter_transaction log e).last_processed_block ≡ e.last_processed_block
  unfolding enter_transaction flush_dirty_users
  enter_transaction-block log e = elim (Bool-cases (beq log.transaction_hash e.current_tx_hash)) [
    | inl same ↦ rw (enter_transaction, same) refl
    | inr new ↦ rw (enter_transaction, new) refl
  ]

  historic_loop-block :
      (logs : List RpcLog) (e : LogReplayEngine)
      → All (λ x. block_of x ≤ b_ws) logs
      → e.last_processed_block ≤ b_ws
      → (historic_loop keccak logs e).last_processed_block ≤ b_ws
  unfolding historic_loop advance
  historic_loop-block [] e h k = k
  historic_loop-block (log ∷ logs) e h k =
      historic_loop-block logs (advance keccak log (enter_transaction log e)) h.1 h.0

  replay_history-block :
      (logs : List RpcLog) (e : LogReplayEngine)
      → All (λ x. block_of x ≤ b_ws) logs
      → e.last_processed_block ≤ b_ws
      → (replay_history keccak logs b_ws e).last_processed_block ≤ b_ws
  unfolding replay_history flush_dirty_users
  replay_history-block logs e h k =
      let within = historic_loop-block (sort_logs logs) e (sort_logs-All _ logs h) k in
      let e' = flush_dirty_users (historic_loop keccak (sort_logs logs) e) in
      elim (Bool-cases (ltb e'.last_processed_block b_ws)) [
        | inl early ↦ rw (replay_history, early) (omega arith)
        | inr late ↦ rw (replay_history, late) within
      ]

  beyond :
      (e : LogReplayEngine) (log : RpcLog)
      → e.last_processed_block ≤ b_ws
      → b_ws < block_of log
      → is_duplicate e (block_of log) (index_of log) ≡ false
  unfolding is_duplicate
  beyond e log h k = ground arith

  replay_history-Ready :
      (logs : List RpcLog) (e : LogReplayEngine)
      → All (λ x. block_of x ≤ b_ws) logs
      → e.last_processed_block ≤ b_ws
      → Ready keccak b_ws logs (replay_history keccak logs b_ws e)
  replay_history-Ready logs e h k = record {
    old = replay_history-IsOld keccak logs b_ws e;
    new = λ log after later. beyond _ log (replay_history-block logs e h k) after;
  }

  -- If the history up to a block has no log of a later block, and the live stream repeats logs that
  -- were seen before and else goes on with later logs of later blocks, then after history and
  -- stream the positions and the indices are those that come from processing the sorted history and
  -- the new logs, each once.
  pub live_loop-process_all :
      (logs live fresh : List RpcLog) (e : LogReplayEngine)
      → All (λ x. block_of x ≤ b_ws) logs
      → e.last_processed_block ≤ b_ws
      → Delivers b_ws logs live fresh
      → let after = live_loop keccak live (replay_history keccak logs b_ws e) in
        let once = process_all keccak (sort_logs logs ++ fresh) e in
        (after.store.user_positions ≡ once.store.user_positions)
        × (after.store.global_indices ≡ once.store.global_indices)
  live_loop-process_all logs live fresh e h k d =
      let synced = replay_history keccak logs b_ws e in
      let after = live_loop keccak live synced in
      let once = process_all keccak (sort_logs logs ++ fresh) e in
      let same : core after ≡ core once =
        live_loop-core keccak b_ws logs live fresh synced (replay_history-Ready logs e h k) d
        ∙ process_all-cong keccak fresh _ _ (replay_history-core keccak logs b_ws e)
        ∙ ap core (sym (process_all-append keccak (sort_logs logs) fresh e)) in
      (
        ap (λ (c : LogReplayEngine). c.store.user_positions) same,
        ap (λ (c : LogReplayEngine). c.store.global_indices) same,
      )
