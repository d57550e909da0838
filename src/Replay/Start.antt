-- ===== src/Replay/Start.antt =====
-- `Start` of log_replay_engine.go as a whole. The connection, the nodes and the JSON coder are
-- parameters; the buffer is the list of the logs that the reader puts into it.
use aave_v3_flash_liquidator.Prelude.{
  ◌≡◌, refl, ap, ◌∙◌, ℕ, zero, suc, ◌+◌, ◌-◌, ◌%◌, ◌^◌, ◌≤◌, ◌<◌, Bool, true, false, List, [], ◌∷◌,
  ◌++◌, Option, none, some, All, All-append, if◌then◌else◌, arith,
}
use aave_v3_flash_liquidator.Text.{Text, text_beq, trim_prefix, parse_uint}
use aave_v3_flash_liquidator.Hex.{prefix_0x}
use aave_v3_flash_liquidator.Models.{RpcLog}
use aave_v3_flash_liquidator.Store.{StateStore}
use aave_v3_flash_liquidator.Rpc.{Attempt, RpcClient, call_with_retry}
use aave_v3_flash_liquidator.Replay.{LogReplayEngine}
use aave_v3_flash_liquidator.Replay.Stream.{block_of, sort_logs, replay_history, live_loop}
use aave_v3_flash_liquidator.Replay.Fetch.{
  chunk_size, fetch_historic_logs, logs_of, fetch_historic_logs_lem,
}
use aave_v3_flash_liquidator.Replay.Delivery.{Delivers, process_all}
use aave_v3_flash_liquidator.Replay.Once.{live_loop-process_all}

-- The task queue is the risk engine's.
abbrev pub new_log_replay_engine : StateStore → List Text → LogReplayEngine
new_log_replay_engine s task_queue = record {
  store = s;
  last_processed_block = 0;
  last_processed_log_index = 0;
  current_tx_hash = [];
  dirty_users = [];
  task_queue = task_queue;
}

-- The number that the text of a result spells.
unfoldable pub block_number_of : Option Text → Option ℕ
block_number_of none = none
block_number_of (some result_hex) =
    let (block_num, good) = parse_uint (trim_prefix prefix_0x result_hex) in
    if good then some block_num else none

unfoldable pub fetch_latest_block :
    (ℕ → Text → Attempt) → (Text → Option Text) → RpcClient → Option ℕ
fetch_latest_block post decode_string r = elim (call_with_retry post r).0 [
  | none ↦ none
  | some raw_result ↦ block_number_of (decode_string raw_result)
]

-- Whether the dialling and the subscription succeed, and the log of each message; one that is no
-- event has no block number.
pub record Connection : Type 0 where
  pub dialed : Bool
  pub subscribed : Bool
  pub messages : List RpcLog

-- What the reader puts into the buffer.
unfoldable pub log_buffer : List RpcLog → List RpcLog
log_buffer [] = []
log_buffer (msg ∷ messages) =
    let rest = log_buffer messages in if text_beq msg.block_number [] then rest else msg ∷ rest

-- Whether there was no error, and the engine.
unfoldable pub start :
    (Text → Text)
    → Connection
    → (ℕ → Text → Attempt)
    → (Text → Option Text)
    → (ℕ → ℕ → Option (List RpcLog))
    → RpcClient
    → LogReplayEngine
    → Bool × LogReplayEngine
start keccak conn post decode_string get_logs r e =
    if conn.dialed
    then (if conn.subscribed
        then (elim (fetch_latest_block post decode_string r) [
          | none ↦ (false, e)
          | some b_ws ↦
              elim (fetch_historic_logs get_logs ((e.store.anchor_block + 1) % 2 ^ 64) b_ws) [
                | none ↦ (false, e)
                | some historic_logs ↦ (
                  true,
                  live_loop keccak (log_buffer conn.messages)
                      (replay_history keccak historic_logs b_ws e),
                )
              ]
        ])
        else (false, e))
    else (false, e)

-- The logs of a range are not later than its last block.
logs_of-block :
    (chain : ℕ → List RpcLog) (n a b_ws : ℕ)
    → ((b : ℕ) → All (λ x. block_of x ≡ b) (chain b))
    → a + n ≤ b_ws + 1
    → All (λ x. block_of x ≤ b_ws) (logs_of chain n a)
logs_of-block chain zero a b_ws h k = tt
logs_of-block chain (suc n) a b_ws h k =
    All-append _ (chain a) (logs_of chain n (suc a)) (in_block (chain a) (h a))
      (logs_of-block chain n (suc a) b_ws h (omega arith))
  where
    in_block :
        (logs : List RpcLog) → All (λ x. block_of x ≡ a) logs → All (λ x. block_of x ≤ b_ws) logs
    in_block [] g = tt
    in_block (x ∷ logs) g = (omega (arith, g.0, k), in_block logs g.1)

-- With a connection, a latest block that can be read and is not before the anchor, a node that
-- answers every range with the logs of its blocks, and a live stream that repeats logs seen before
-- or goes on with later ones, the start of the log engine ends without an error, and the positions
-- and the indices are those that come from processing all logs of the blocks after the anchor up to
-- the latest and then the new ones, each once; this needs sums within 64 bits.
pub start-process_all :
    (keccak : Text → Text) (conn : Connection) (post : ℕ → Text → Attempt)
    (decode_string : Text → Option Text) (get_logs : ℕ → ℕ → Option (List RpcLog)) (r : RpcClient)
    (s : StateStore) (task_queue : List Text) (chain : ℕ → List RpcLog) (b_ws : ℕ)
    (fresh : List RpcLog)
    → conn.dialed ≡ true
    → conn.subscribed ≡ true
    → fetch_latest_block post decode_string r ≡ some b_ws
    → ((a b : ℕ) → a ≤ b → get_logs a b ≡ some (logs_of chain (b + 1 - a) a))
    → ((b : ℕ) → All (λ x. block_of x ≡ b) (chain b))
    → b_ws + chunk_size < 2 ^ 64
    → s.anchor_block ≤ b_ws
    → Delivers b_ws
        (logs_of chain (b_ws - s.anchor_block) (s.anchor_block + 1))
        (log_buffer conn.messages)
        fresh
    → let e = new_log_replay_engine s task_queue in
      let done = start keccak conn post decode_string get_logs r e in
      let missed = logs_of chain (b_ws - s.anchor_block) (s.anchor_block + 1) in
      let once = process_all keccak (sort_logs missed ++ fresh) e in
      (done.0 ≡ true)
      × (done.1.store.user_positions ≡ once.store.user_positions)
      × (done.1.store.global_indices ≡ once.store.global_indices)
unfolding start
start-process_all keccak conn post decode_string get_logs r s task_queue chain b_ws fresh dialed
      subscribed latest answers blocks small anchored d =
    let from = s.anchor_block + 1 in
    let wrapped : from % 2 ^ 64 ≡ from = omega arith in
    let size : b_ws + 1 - from ≡ b_ws - s.anchor_block = omega arith in
    let missed = logs_of chain (b_ws - s.anchor_block) from in
    let fetch : fetch_historic_logs get_logs from b_ws ≡ some missed =
      fetch_historic_logs_lem chain get_logs answers from b_ws small
      ∙ ap (λ n. some (logs_of chain n from)) size in
    let (positions, indices) =
      live_loop-process_all keccak b_ws missed (log_buffer conn.messages) fresh
        (new_log_replay_engine s task_queue)
        (logs_of-block chain (b_ws - s.anchor_block) from b_ws blocks (omega arith)) (omega arith)
        d in
    rw (start, dialed, subscribed, latest, wrapped, fetch) (refl, positions, indices)
