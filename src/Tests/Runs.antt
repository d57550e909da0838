-- ===== src/Tests/Runs.antt =====
-- Examples on the running program: a worker whose context is cancelled, and a run of steps.
use aave_v3_flash_liquidator.Prelude.{
  ◌≡◌, refl, Bool, false, ℕ, ◌+◌, ◌%◌, ◌^◌, List, [], ◌∷◌, Option, some, ℤ, pos, arith,
}
use aave_v3_flash_liquidator.Text.{Text, codes}
use aave_v3_flash_liquidator.Models.{RpcLog, UserAccountData, UserPosition, RiskSnapshot}
use aave_v3_flash_liquidator.Run.{Ends}
use aave_v3_flash_liquidator.Strategy.{LiquidationRecipe}
use aave_v3_flash_liquidator.Strategy.Totality.{IsConfigured}
use aave_v3_flash_liquidator.Executor.{refused}
use aave_v3_flash_liquidator.Risk.Update.View.{IsRiskIndex}
use aave_v3_flash_liquidator.Risk.Worker.{Processed, process_user, judge}
use aave_v3_flash_liquidator.Risk.Worker.Context.{
  live, cancelled, Nodes, send_verified, verified_send, process_user-cancelled,
}
use aave_v3_flash_liquidator.System.{
  starting, System, Reach, here, step, on_history, on_historic_log, on_history_end, on_log,
  on_prices, on_tick, on_take, history_arrives, historic_log_arrives, history_ends, log_arrives,
  prices_arrive, timer_ticks, worker_takes,
}
use aave_v3_flash_liquidator.System.Index.{IsHealthy}
use aave_v3_flash_liquidator.System.History.{IsPast}
use aave_v3_flash_liquidator.Replay.Fetch.{fetch_historic_logs, fetch_loop}
use aave_v3_flash_liquidator.Replay.Stream.{sort_logs, insert_log}
use aave_v3_flash_liquidator.System.Invariant.{Reach-IsHealthy}
use aave_v3_flash_liquidator.Tests.{ann, weth, engine_on, market, log_at}
use aave_v3_flash_liquidator.Tests.Risks.{no_e_mode}
use aave_v3_flash_liquidator.Tests.Heaps.{risky, risky-IsRiskIndex}
use aave_v3_flash_liquidator.Tests.Senders.{
  chain_reply, executor, good_node, signature, packed, one_node,
}

-- A node whose calls fail with the error of a context that is done.
abbrev nodes : Nodes
nodes live attempt url = good_node
nodes cancelled attempt url = record good_node {
  estimate_gas = λ msg. refused (codes "context canceled");
}

process_user-cancelled_example :
    ((recipe : LiquidationRecipe)
      → (send_verified (λ t. t) packed signature executor nodes one_node recipe).submitted ≡ [])
    × (process_user
          (pos 9)
          (verified_send (λ t. t) packed signature executor nodes one_node)
          ann
          no_e_mode
          chain_reply
          market
        ≡ process_user (pos 9) (λ recipe. false) ann no_e_mode chain_reply market)
process_user-cancelled_example =
    process_user-cancelled (λ t. t) packed signature executor nodes one_node (pos 9) ann no_e_mode
      chain_reply market (λ attempt url msg. (codes "context canceled", refl))

abbrev hash : Text → Text
hash t = t

abbrev at_start : System
at_start = record {
  engine = record (engine_on risky) { task_queue = ann ∷ [] };
  phase = starting;
  workers = [];
}

at_start-IsHealthy : IsHealthy at_start.engine
at_start-IsHealthy = record { index = risky-IsRiskIndex; room = omega arith }

abbrev old_log : RpcLog
old_log = log_at (codes "0x2") (codes "0x0")

abbrev new_log : RpcLog
new_log = log_at (codes "0x9") (codes "0x0")

abbrev history_of : ℕ → ℕ → Option (List RpcLog)
history_of from to = some (old_log ∷ [])

fetched_history :
    fetch_historic_logs history_of ((at_start.engine.store.anchor_block + 1) % 2 ^ 64) 5
    ≡ some (old_log ∷ [])
unfolding fetch_historic_logs fetch_loop
fetched_history = refl

-- The history is fetched, and a worker takes the user before its log is replayed; the history ends,
-- and a live log, a price and a tick come before the worker goes on.
abbrev replayed_once : System
replayed_once =
    historic_log_arrives hash old_log [] 5
      (worker_takes no_e_mode ann [] (history_arrives (old_log ∷ []) 5 at_start))

abbrev later : System
later = timer_ticks (pos 9) (
    prices_arrive (weth ∷ []) (some (pos 3 ∷ []))
      (log_arrives hash false new_log (history_ends 5 replayed_once)))

run : Reach hash (weth ∷ []) at_start later
unfolding history_arrives historic_log_arrives worker_takes history_ends sort_logs insert_log
run =
    step
      (step
        (step
          (step
            (step
              (step (step here (on_history history_of 5 refl fetched_history))
                (on_take no_e_mode refl))
              (on_historic_log refl))
            (on_history_end refl))
          (on_log false new_log refl))
        (on_prices (some (pos 3 ∷ []))))
      (on_tick (pos 9))

Reach-IsHealthy_example :
    IsHealthy later.engine
    × IsPast later.phase later.engine
    × ((now : ℤ) (send : LiquidationRecipe → Bool) (user_addr : Text)
          (chain : RiskSnapshot → Option (UserAccountData × UserPosition))
          (snapshot : Option RiskSnapshot)
        → IsConfigured later.engine.store
        → Ends
            (λ (r : Processed). IsRiskIndex r.1)
            (judge now send user_addr chain snapshot later.engine.store))
unfolding IsPast
Reach-IsHealthy_example = Reach-IsHealthy hash (weth ∷ []) at_start-IsHealthy tt run
