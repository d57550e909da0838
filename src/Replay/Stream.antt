-- ===== src/Replay/Stream.antt =====
-- `Start` of log_replay_engine.go after its set-up: the sorted history first, then the live logs
-- without those that the history held. `LogList.Less` of internal/models/external.go gives the order.
use aave_v3_flash_liquidator.Prelude.{
  ℕ, Bool, true, false, not, ◌&&◌, List, [], ◌∷◌, ltb, leb, ◌==◌, if◌then◌else◌, beq,
}
use aave_v3_flash_liquidator.Text.{Text, text_eq}
use aave_v3_flash_liquidator.Models.{RpcLog}
use aave_v3_flash_liquidator.Store.{set_current_block}
use aave_v3_flash_liquidator.Replay.{LogReplayEngine, flush_dirty_users}
use aave_v3_flash_liquidator.Replay.Events.{hex_number, process_log}

abbrev pub block_of : RpcLog → ℕ
block_of log = hex_number log.block_number

abbrev pub index_of : RpcLog → ℕ
index_of log = hex_number log.log_index

unfoldable pub less : RpcLog → RpcLog → Bool
less x y =
    if not (block_of x == block_of y)
    then ltb (block_of x) (block_of y)
    else ltb (index_of x) (index_of y)

-- `sort.Sort(LogList(...))`, by insertion.
unfoldable pub insert_log : RpcLog → List RpcLog → List RpcLog
insert_log x [] = x ∷ []
insert_log x (y ∷ ys) = let rest = insert_log x ys in if less y x then y ∷ rest else x ∷ y ∷ ys

unfoldable pub sort_logs : List RpcLog → List RpcLog
sort_logs [] = []
sort_logs (x ∷ xs) = insert_log x (sort_logs xs)

unfoldable pub is_duplicate : LogReplayEngine → ℕ → ℕ → Bool
is_duplicate e log_block log_index =
    if ltb log_block e.last_processed_block
    then true
    else if log_block == e.last_processed_block && leb log_index e.last_processed_log_index
    then true
    else false

-- A new transaction hands the users of the one before to the risk engine.
unfoldable pub enter_transaction : RpcLog → LogReplayEngine → LogReplayEngine
enter_transaction log e =
    if beq log.transaction_hash e.current_tx_hash
    then e
    else record (flush_dirty_users e) { current_tx_hash = log.transaction_hash }

-- The log is processed, and becomes the last one.
unfoldable pub advance : (Text → Text) → RpcLog → LogReplayEngine → LogReplayEngine
advance keccak log e = record (process_log keccak log e) {
  last_processed_block = block_of log;
  last_processed_log_index = index_of log;
}

unfoldable pub historic_loop : (Text → Text) → List RpcLog → LogReplayEngine → LogReplayEngine
historic_loop keccak [] e = e
historic_loop keccak (log ∷ logs) e =
    historic_loop keccak logs (advance keccak log (enter_transaction log e))

-- The end of the history, which goes up to the block `b_ws`.
abbrev pub switch_to_stream : ℕ → LogReplayEngine → LogReplayEngine
switch_to_stream b_ws e =
    let e' = flush_dirty_users e in
    if ltb e'.last_processed_block b_ws
    then record e' { last_processed_block = b_ws; last_processed_log_index = 0 }
    else e'

-- The history up to the block `b_ws`, and the switch to the live stream.
unfoldable pub replay_history : (Text → Text) → List RpcLog → ℕ → LogReplayEngine → LogReplayEngine
replay_history keccak historic_logs b_ws e =
    switch_to_stream b_ws (historic_loop keccak (sort_logs historic_logs) e)

-- One round of the live loop; `more` says whether the buffer holds further logs.
unfoldable pub live_step : (Text → Text) → Bool → RpcLog → LogReplayEngine → LogReplayEngine
live_step keccak more log e =
    let seen = record e { store = set_current_block (block_of log) e.store } in
    let entered = enter_transaction log seen in
    let done =
      if is_duplicate entered (block_of log) (index_of log)
      then entered
      else advance keccak log entered in
    if more then done else flush_dirty_users done

-- The logs of the buffer one after another.
unfoldable pub live_loop : (Text → Text) → List RpcLog → LogReplayEngine → LogReplayEngine
live_loop keccak [] e = e
live_loop keccak (log ∷ logs) e =
    let more : Bool = elim logs [ [] ↦ false | _ ∷ _ ↦ true ] in
    live_loop keccak logs (live_step keccak more log e)
