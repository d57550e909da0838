-- ===== src/System.antt =====
-- The running program, from cmd/bot/main.go on: the log engine, the price feed, the watchdog and
-- the workers share the store and the task queue. The log engine fetches the history, replays it
-- log by log and then takes the live logs, while the others already run. A step is what one of
-- them does under the lock or on its own data; a worker reads a user's health factor in one step
-- and acts on it in another, and all others may take steps between the two, while the worker waits
-- for the chain.
pub mod Index
pub mod History
pub mod Events
pub mod Invariant
use aave_v3_flash_liquidator.Prelude.{
  ◌≡◌, ℕ, ◌+◌, ◌%◌, ◌^◌, Bool, List, [], ◌∷◌, ◌++◌, Option, some, ℤ,
}
use aave_v3_flash_liquidator.Text.{Text}
use aave_v3_flash_liquidator.Models.{RpcLog, RiskSnapshot, UserAccountData, UserPosition}
use aave_v3_flash_liquidator.Run.{ok}
use aave_v3_flash_liquidator.Store.{StateStore}
use aave_v3_flash_liquidator.Strategy.{LiquidationRecipe}
use aave_v3_flash_liquidator.Oracle.{fetch_and_store_prices}
use aave_v3_flash_liquidator.Risk.Health.{EModeReplies, calculate_hf}
use aave_v3_flash_liquidator.Risk.Update.{watchdog_tick}
use aave_v3_flash_liquidator.Risk.Worker.{Processed, judge}
use aave_v3_flash_liquidator.Replay.{LogReplayEngine}
use aave_v3_flash_liquidator.Replay.Stream.{
  sort_logs, enter_transaction, advance, switch_to_stream, live_step,
}
use aave_v3_flash_liquidator.Replay.Fetch.{fetch_historic_logs}

-- A worker that has computed the snapshot of a user and not yet acted on it.
abbrev pub Pending : Type 0
Pending = Text × Option RiskSnapshot

-- How far `Start` of the log engine is: the history is not fetched yet; these logs of the history
-- are left, which goes up to this block; or the history up to this block is done.
pub data Phase : Type 0 where
  starting : Phase
  replaying : List RpcLog → ℕ → Phase
  streaming : ℕ → Phase

-- The log engine holds the shared store and the task queue.
pub record System : Type 0 where
  pub engine : LogReplayEngine
  pub phase : Phase
  pub workers : List Pending

abbrev pub with_store : StateStore → System → System
with_store s y = record y { engine = record y.engine { store = s } }

-- The history is fetched and put in order.
unfoldable pub history_arrives : List RpcLog → ℕ → System → System
history_arrives historic_logs b_ws y = record y { phase = replaying (sort_logs historic_logs) b_ws }

-- One round of the loop over the history, which leaves the logs `rest`.
unfoldable pub historic_log_arrives : (Text → Text) → RpcLog → List RpcLog → ℕ → System → System
historic_log_arrives keccak log rest b_ws y = record y {
  engine = advance keccak log (enter_transaction log y.engine);
  phase = replaying rest b_ws;
}

unfoldable pub history_ends : ℕ → System → System
history_ends b_ws y = record y { engine = switch_to_stream b_ws y.engine; phase = streaming b_ws }

unfoldable pub log_arrives : (Text → Text) → Bool → RpcLog → System → System
log_arrives keccak more log y = record y { engine = live_step keccak more log y.engine }

unfoldable pub prices_arrive : List Text → Option (List ℤ) → System → System
prices_arrive target_assets reply y =
    let (s, queue) =
      fetch_and_store_prices reply target_assets y.engine.store y.engine.task_queue in
    record y { engine = record y.engine { store = s; task_queue = queue } }

unfoldable pub timer_ticks : ℤ → System → System
timer_ticks now y = record y {
  engine = record y.engine { task_queue = watchdog_tick now y.engine.store y.engine.task_queue };
}

-- A worker takes the first user of the queue, which leaves `rest`.
unfoldable pub worker_takes : EModeReplies → Text → List Text → System → System
worker_takes replies user_addr rest y =
    let (snapshot, s) = calculate_hf replies user_addr y.engine.store in
    record y {
      engine = record y.engine { store = s; task_queue = rest };
      workers = (user_addr, snapshot) ∷ y.workers;
    }

-- What may happen next.
pub data Step (keccak : Text → Text) (target_assets : List Text) : System → System → Type 0 where
  on_history :
      {y : System} (get_logs : ℕ → ℕ → Option (List RpcLog)) (b_ws : ℕ)
      {historic_logs : List RpcLog}
      → y.phase ≡ starting
      → fetch_historic_logs get_logs ((y.engine.store.anchor_block + 1) % 2 ^ 64) b_ws
        ≡ some historic_logs
      → Step keccak target_assets y (history_arrives historic_logs b_ws y)
  on_historic_log :
      {y : System} {log : RpcLog} {rest : List RpcLog} {b_ws : ℕ}
      → y.phase ≡ replaying (log ∷ rest) b_ws
      → Step keccak target_assets y (historic_log_arrives keccak log rest b_ws y)
  on_history_end :
      {y : System} {b_ws : ℕ}
      → y.phase ≡ replaying [] b_ws
      → Step keccak target_assets y (history_ends b_ws y)
  on_log :
      {y : System} (more : Bool) (log : RpcLog) {b_ws : ℕ}
      → y.phase ≡ streaming b_ws
      → Step keccak target_assets y (log_arrives keccak more log y)
  on_prices :
      {y : System} (reply : Option (List ℤ))
      → Step keccak target_assets y (prices_arrive target_assets reply y)
  on_tick : {y : System} (now : ℤ) → Step keccak target_assets y (timer_ticks now y)
  on_take :
      {y : System} (replies : EModeReplies) {user_addr : Text} {rest : List Text}
      → y.engine.task_queue ≡ user_addr ∷ rest
      → Step keccak target_assets y (worker_takes replies user_addr rest y)
  on_judge :
      {y : System} (now : ℤ) (send : LiquidationRecipe → Bool)
      (chain : RiskSnapshot → Option (UserAccountData × UserPosition)) (before after : List Pending)
      (user_addr : Text) (snapshot : Option RiskSnapshot) {done : Processed}
      → y.workers ≡ before ++ (user_addr, snapshot) ∷ after
      → judge now send user_addr chain snapshot y.engine.store ≡ ok done
      → Step keccak target_assets y (record (with_store done.1 y) { workers = before ++ after })

pub data Reach (keccak : Text → Text) (target_assets : List Text) (y : System)
    : System → Type 0 where
  here : Reach keccak target_assets y y
  step :
      {x z : System}
      → Reach keccak target_assets y x
      → Step keccak target_assets x z
      → Reach keccak target_assets y z
