-- ===== src/Tests/Streams.antt =====
-- Examples on the engine's start: one block to fetch, and a live stream that repeats it.
use mathlib.Core.List.{Memᴰ}
use aave_v3_flash_liquidator.Prelude.{
  ◌≡◌, refl, ℕ, ◌+◌, ◌-◌, ◌==◌, true, Bool-cases, inl, inr, List, [], ◌∷◌, ◌++◌, All, some,
  if◌then◌else◌, arith,
}
use aave_v3_flash_liquidator.Text.{
  Text, codes, parse_uint, parse_uint_loop, trim_prefix, has_prefix,
}
use aave_v3_flash_liquidator.Models.{RpcLog}
use aave_v3_flash_liquidator.Store.{StateStore}
use aave_v3_flash_liquidator.Rpc.{
  Attempt, body, absent, RpcClient, call_with_retry, attempt_loop, decode, decode_error,
  get_next_url,
}
use aave_v3_flash_liquidator.Replay.Events.{topic_collateral_enabled}
use aave_v3_flash_liquidator.Replay.Stream.{block_of, less, sort_logs, replay_history, live_loop}
use aave_v3_flash_liquidator.Replay.Fetch.{logs_of}
use aave_v3_flash_liquidator.Replay.Delivery.{Delivers, done, again, next, process_all}
use aave_v3_flash_liquidator.Replay.Once.{live_loop-process_all}
use aave_v3_flash_liquidator.Replay.Start.{
  Connection, new_log_replay_engine, start, fetch_latest_block, block_number_of, log_buffer,
  start-process_all,
}
use aave_v3_flash_liquidator.Tests.{ann, weth, log_at, market, engine_on}

abbrev sample_hash : Text → Text
sample_hash t = t

abbrev fetched_log : RpcLog
fetched_log = log_at (codes "0x5") (codes "0x1")

abbrev live_log : RpcLog
live_log = record (log_at (codes "0x6") (codes "0x0")) {
  topics = topic_collateral_enabled sample_hash ∷ weth ∷ ann ∷ [];
}

abbrev repeating : List RpcLog
repeating = fetched_log ∷ live_log ∷ fetched_log ∷ live_log ∷ []

abbrev stream : Delivers 5 (fetched_log ∷ []) repeating (live_log ∷ [])
unfolding less parse_uint parse_uint_loop trim_prefix has_prefix
stream = again (Memᴰ.head refl) (
    next (omega arith) (refl, tt)
      (again (Memᴰ.tail (Memᴰ.head refl)) (again (Memᴰ.head refl) done)))

live_loop-process_all_example :
    let after =
      live_loop sample_hash repeating
        (replay_history sample_hash (fetched_log ∷ []) 5 (engine_on market)) in
    let once =
      process_all sample_hash (sort_logs (fetched_log ∷ []) ++ live_log ∷ []) (engine_on market) in
    (after.store.user_positions ≡ once.store.user_positions)
    × (after.store.global_indices ≡ once.store.global_indices)
unfolding parse_uint parse_uint_loop trim_prefix has_prefix
live_loop-process_all_example =
    live_loop-process_all sample_hash 5 (fetched_log ∷ []) repeating (live_log ∷ [])
      (engine_on market) (omega arith, tt) (omega arith) stream

abbrev chain : ℕ → List RpcLog
chain b = if b == 5 then fetched_log ∷ [] else []

chain-block : (b : ℕ) → All (λ x. block_of x ≡ b) (chain b)
unfolding parse_uint parse_uint_loop trim_prefix has_prefix
chain-block b = elim (Bool-cases (b == 5)) [
  | inl e ↦ rw e (ground (arith, e), tt)
  | inr e ↦ rw e tt
]

abbrev no_event : RpcLog
no_event = log_at [] []

abbrev connection : Connection
connection = record { dialed = true; subscribed = true; messages = no_event ∷ repeating }

abbrev anchored : StateStore
anchored = record market { anchor_block = 4 }

abbrev one_node : RpcClient
one_node = record { rpc_urls = codes "u" ∷ []; current_index = 0 }

abbrev latest : ℕ → Text → Attempt
latest attempt url = body true (some (codes "0x5")) absent

start-process_all_example :
    let e = new_log_replay_engine anchored [] in
    let done =
      start sample_hash connection latest
        (λ raw. some raw)
        (λ a b. some (logs_of chain (b + 1 - a) a))
        one_node
        e in
    let once = process_all sample_hash (sort_logs (fetched_log ∷ []) ++ live_log ∷ []) e in
    (done.0 ≡ true)
    × (done.1.store.user_positions ≡ once.store.user_positions)
    × (done.1.store.global_indices ≡ once.store.global_indices)
unfolding log_buffer fetch_latest_block block_number_of call_with_retry attempt_loop decode
    decode_error get_next_url parse_uint parse_uint_loop trim_prefix has_prefix
start-process_all_example =
    start-process_all sample_hash connection latest (λ raw. some raw)
      (λ a b. some (logs_of chain (b + 1 - a) a)) one_node anchored [] chain 5 (live_log ∷ []) refl
      refl refl (λ a b h. refl) chain-block (omega arith) (omega arith) stream
