-- ===== src/System/Invariant.antt =====
-- What every step of the running program keeps.
use mathlib.Core.Path.{subst}
use aave_v3_flash_liquidator.Prelude.{
  ℕ, ◌≡◌, refl, sym, ap, ◌≤◌, Bool, true, false, Bool-cases, inl, inr, List, [], ◌∷◌, Option, none,
  some, if◌then◌else◌, ℤ, ltb_ℤ, length, arith,
}
use aave_v3_flash_liquidator.Text.{Text, text_eq}
use aave_v3_flash_liquidator.Models.{UserAccountData, UserPosition, RiskSnapshot}
use aave_v3_flash_liquidator.Ray.{hf_liquidation_threshold}
use aave_v3_flash_liquidator.Run.{Run, Ends, ends, OnOk, on_ok, OnOk-value, OnOk->>=}
use aave_v3_flash_liquidator.Store.{StateStore, get_asset_price, set_asset_price}
use aave_v3_flash_liquidator.Oracle.{
  is_changed, store_price, store_prices, enqueue_changed, fetch_and_store_prices,
}
use aave_v3_flash_liquidator.Risk.Queue.{task_queue_size}
use aave_v3_flash_liquidator.Risk.Health.{min_debt_threshold}
use aave_v3_flash_liquidator.Risk.Update.{watchdog_tick}
use aave_v3_flash_liquidator.Risk.Update.View.{IsRiskIndex}
use aave_v3_flash_liquidator.Risk.Worker.{Processed, put_position, verify, judge}
use aave_v3_flash_liquidator.Risk.Worker.Total.{
  update-Keeps, liquidate-Keeps, put_position-IsRiskIndex, judge-Keeps, calculate_hf-IsRiskIndex,
}
use aave_v3_flash_liquidator.Strategy.{LiquidationRecipe, calculate_optimal_recipe}
use aave_v3_flash_liquidator.Strategy.Totality.{IsConfigured}
use aave_v3_flash_liquidator.System.{
  Phase, starting, replaying, streaming, System, history_arrives, historic_log_arrives,
  history_ends, log_arrives, prices_arrive, timer_ticks, worker_takes, Step, on_history,
  on_historic_log, on_history_end, on_log, on_prices, on_tick, on_take, on_judge, Reach, here, step,
}
use aave_v3_flash_liquidator.System.Index.{
  flush_dirty_users-IsHealthy, IsHealthy, enqueue_all-room, enqueue_by_asset-room,
}
use aave_v3_flash_liquidator.System.Events.{
  choice-IsHealthy, historic_step-IsHealthy, live_step-IsHealthy,
}
use aave_v3_flash_liquidator.Replay.{LogReplayEngine, flush_dirty_users}
use aave_v3_flash_liquidator.Replay.Stream.{switch_to_stream, live_step}
use aave_v3_flash_liquidator.System.History.{IsPast, switch_to_stream-IsPast, live_step-IsPast}

Ends-OnOk : {A : Type 0} {P : A → Type 0} {r : Run A} → Ends P r → OnOk P r
Ends-OnOk (ends p) = on_ok p

OnOk-if :
    {A : Type 0} {P : A → Type 0} (b : Bool) {x y : Run A}
    → OnOk P x
    → OnOk P y
    → OnOk P (if b then x else y)
OnOk-if true h k = h
OnOk-if false h k = k

-- A worker that does not stop the program leaves the heap in order.
abbrev KeepsOnOk : Run Processed → Type 0
KeepsOnOk = OnOk (λ (r : Processed). IsRiskIndex r.1)

module _ (now : ℤ) (send : LiquidationRecipe → Bool) (u : Text) where
  verify-KeepsOnOk :
      (reply : Option (UserAccountData × UserPosition)) (s : StateStore)
      → IsRiskIndex s
      → KeepsOnOk (verify now send u reply s)
  unfolding verify
  verify-KeepsOnOk none s x = on_ok x
  verify-KeepsOnOk (some (account, position)) s x =
      let s' = put_position u position s in
      let x' = put_position-IsRiskIndex now send u position s x in
      OnOk-if (ltb_ℤ account.health_factor hf_liquidation_threshold)
        (OnOk->>= (calculate_optimal_recipe s' u position account.health_factor) _
          (λ best e. Ends-OnOk (liquidate-Keeps now send u account.health_factor best s' x')))
        (Ends-OnOk (update-Keeps now send u (some account.health_factor) none s' x'))

  judge-KeepsOnOk :
      (chain : RiskSnapshot → Option (UserAccountData × UserPosition))
      (snapshot : Option RiskSnapshot) (s : StateStore)
      → IsRiskIndex s
      → KeepsOnOk (judge now send u chain snapshot s)
  unfolding judge
  judge-KeepsOnOk chain none s x = Ends-OnOk (update-Keeps now send u none none s x)
  judge-KeepsOnOk chain (some snapshot) s x =
      OnOk-if (ltb_ℤ snapshot.total_debt_base min_debt_threshold)
        (Ends-OnOk (update-Keeps now send u none none s x))
        (OnOk-if (ltb_ℤ snapshot.health_factor hf_liquidation_threshold)
          (verify-KeepsOnOk (chain snapshot) s x)
          (Ends-OnOk (update-Keeps now send u (some snapshot.health_factor) none s x)))

store_prices-IsRiskIndex :
    (assets : List Text) (prices : List ℤ) (t : List Text × StateStore)
    → IsRiskIndex t.1
    → IsRiskIndex (store_prices assets prices t).1
unfolding store_prices store_price set_asset_price
store_prices-IsRiskIndex [] prices t x = x
store_prices-IsRiskIndex (asset ∷ assets) [] t x = x
store_prices-IsRiskIndex (asset ∷ assets) (price ∷ prices) t x =
    store_prices-IsRiskIndex assets prices (store_price asset price t)
      (elim (Bool-cases (is_changed (get_asset_price t.1 asset) price)) [
        | inl e ↦ rw (store_price, e) (record { heap = x.heap; listing = x.listing })
        | inr e ↦ rw (store_price, e) x
      ])

enqueue_changed-room :
    (s : StateStore) (changed queue : List Text)
    → length queue ≤ task_queue_size
    → length (enqueue_changed s changed queue) ≤ task_queue_size
unfolding enqueue_changed
enqueue_changed-room s [] queue h = h
enqueue_changed-room s (asset ∷ changed) queue h =
    enqueue_changed-room s changed _ (enqueue_by_asset-room s asset queue h)

prices_arrive-IsHealthy :
    (assets : List Text) (reply : Option (List ℤ)) (y : System)
    → IsHealthy y.engine
    → IsHealthy (prices_arrive assets reply y).engine
unfolding prices_arrive fetch_and_store_prices
prices_arrive-IsHealthy assets none y h = record { index = h.index; room = h.room }
prices_arrive-IsHealthy assets (some prices) y h = record {
  index = store_prices-IsRiskIndex assets prices ([], y.engine.store) h.index;
  room = enqueue_changed-room _ _ y.engine.task_queue h.room;
}

-- Only the last processed block matters.
subst-IsPast :
    (p : Phase) (d e : LogReplayEngine)
    → d.last_processed_block ≡ e.last_processed_block
    → IsPast p d
    → IsPast p e
unfolding IsPast
subst-IsPast starting d e same h = tt
subst-IsPast (replaying logs b_ws) d e same h = tt
subst-IsPast (streaming b_ws) d e same h = subst (λ n. b_ws ≤ n) same h

switch_to_stream-IsHealthy :
    (b_ws : ℕ) (e : LogReplayEngine) → IsHealthy e → IsHealthy (switch_to_stream b_ws e)
switch_to_stream-IsHealthy b_ws e h =
    let flushed = flush_dirty_users-IsHealthy e h in
    let switched = record (flush_dirty_users e) {
      last_processed_block = b_ws;
      last_processed_log_index = 0;
    } in
    choice-IsHealthy _ {d = switched} (record { index = flushed.index; room = flushed.room })
      flushed

module _ (keccak : Text → Text) (target_assets : List Text) where
  Step-IsPast :
      {y z : System}
      → Step keccak target_assets y z
      → IsPast y.phase y.engine
      → IsPast z.phase z.engine
  unfolding history_arrives historic_log_arrives history_ends log_arrives prices_arrive timer_ticks
      worker_takes IsPast
  Step-IsPast (on_history get_logs b_ws e f) h = tt
  Step-IsPast (on_historic_log e) h = tt
  Step-IsPast (on_history_end {y} {b_ws} e) h = switch_to_stream-IsPast b_ws y.engine
  Step-IsPast (on_log {y} more log {b_ws} e) h =
      let past : b_ws ≤ y.engine.last_processed_block = subst (λ p. IsPast p y.engine) e h in
      subst (λ p. IsPast p (live_step keccak more log y.engine)) (sym e)
        (live_step-IsPast keccak log b_ws more y.engine past)
  Step-IsPast (on_prices {y} reply) h = subst-IsPast y.phase y.engine _ refl h
  Step-IsPast (on_tick {y} now) h = subst-IsPast y.phase y.engine _ refl h
  Step-IsPast (on_take {y} replies e) h = subst-IsPast y.phase y.engine _ refl h
  Step-IsPast (on_judge {y} now send chain before after user_addr snapshot taken e) h =
      subst-IsPast y.phase y.engine _ refl h

  Step-IsHealthy :
      {y z : System} → Step keccak target_assets y z → IsHealthy y.engine → IsHealthy z.engine
  unfolding history_arrives historic_log_arrives history_ends log_arrives timer_ticks worker_takes
      watchdog_tick
  Step-IsHealthy (on_history get_logs b_ws e f) h = h
  Step-IsHealthy (on_historic_log {y} {log} e) h = historic_step-IsHealthy keccak log y.engine h
  Step-IsHealthy (on_history_end {y} {b_ws} e) h = switch_to_stream-IsHealthy b_ws y.engine h
  Step-IsHealthy (on_log {y} more log e) h = live_step-IsHealthy keccak log y.engine h more
  Step-IsHealthy (on_prices {y} reply) h = prices_arrive-IsHealthy target_assets reply y h
  Step-IsHealthy (on_tick {y} now) h = record {
    index = h.index;
    room = enqueue_all-room _ y.engine.task_queue h.room;
  }
  Step-IsHealthy (on_take {y} replies {user_addr} {rest} e) h = record {
    index = calculate_hf-IsRiskIndex user_addr replies y.engine.store h.index;
    room = omega (arith, h.room, ap length e);
  }
  Step-IsHealthy (on_judge {y} now send chain before after user_addr snapshot {done} taken e) h =
      record {
        index = OnOk-value (
            subst (OnOk (λ (r : Processed). IsRiskIndex r.1)) e
              (judge-KeepsOnOk now send user_addr chain snapshot y.engine.store h.index));
        room = h.room;
      }

  reached :
      {y z : System} → IsHealthy y.engine → Reach keccak target_assets y z → IsHealthy z.engine
  reached h here = h
  reached h (step r s) = Step-IsHealthy s (reached h r)

  reached-IsPast :
      {y z : System}
      → IsPast y.phase y.engine
      → Reach keccak target_assets y z
      → IsPast z.phase z.engine
  reached-IsPast h here = h
  reached-IsPast h (step r s) = Step-IsPast s (reached-IsPast h r)

  -- From a risk heap in order that the table lists and a queue within its capacity, and not before
  -- the end of the history if the log engine is past it, every run of the program keeps all of
  -- this, where the log engine replays its history log by log and then takes live logs, while the
  -- price feed, the watchdog and the workers take steps in any order, also between the logs of the
  -- history and between a computation of a worker and what the worker does with it: after the
  -- history up to a block, the last processed block is never before that block; and in each state
  -- that is reached, if the store then has no zero price and no zero bonus where a division uses
  -- it, a worker acts on any user and any snapshot without a panic and keeps the heap in order.
  pub Reach-IsHealthy :
      {y z : System}
      → IsHealthy y.engine
      → IsPast y.phase y.engine
      → Reach keccak target_assets y z
      → IsHealthy z.engine
        × IsPast z.phase z.engine
        × ((now : ℤ) (send : LiquidationRecipe → Bool) (user_addr : Text)
              (chain : RiskSnapshot → Option (UserAccountData × UserPosition))
              (snapshot : Option RiskSnapshot)
            → IsConfigured z.engine.store
            → Ends
                (λ (r : Processed). IsRiskIndex r.1)
                (judge now send user_addr chain snapshot z.engine.store))
  Reach-IsHealthy {z} h past r =
      let healthy = reached h r in
      (
        healthy,
        reached-IsPast past r,
        λ now send user_addr chain snapshot configured.
            judge-Keeps now send user_addr chain snapshot z.engine.store healthy.index configured,
      )
