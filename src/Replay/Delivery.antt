-- ===== src/Replay/Delivery.antt =====
-- The live stream after the history: each log is processed once.
use mathlib.Core.List.{Memᴰ}
use aave_v3_flash_liquidator.Prelude.{
  ◌≡◌, refl, sym, ap, ◌∙◌, ℕ, ◌<◌, Bool, true, false, List, [], ◌∷◌, ◌++◌, All, ltb, if◌then◌else◌,
  beq, arith, Bool-cases, inl, inr,
}
use aave_v3_flash_liquidator.Text.{Text, text_eq}
use aave_v3_flash_liquidator.Models.{RpcLog}
use aave_v3_flash_liquidator.Store.{set_current_block}
use aave_v3_flash_liquidator.Replay.{LogReplayEngine, flush_dirty_users}
use aave_v3_flash_liquidator.Replay.Events.{process_log}
use aave_v3_flash_liquidator.Replay.Stream.{
  block_of, index_of, less, sort_logs, is_duplicate, enter_transaction, advance, historic_loop,
  replay_history, live_step, live_loop,
}
use aave_v3_flash_liquidator.Replay.History.{
  IsOld, All-map, All-Memᴰ, less_irrefl, live_step-Unmoved, live_step-IsOld,
}
use aave_v3_flash_liquidator.Replay.Core.{core}
use aave_v3_flash_liquidator.Replay.Core.Handlers.{process_log-core}

-- A stream after the block `b_ws`, with the logs that were seen before it and the new ones in it: it
-- repeats what was seen, and else goes on with a log that is later than all of that.
pub data Delivers (b_ws : ℕ) : List RpcLog → List RpcLog → List RpcLog → Type 0 where
  done : {seen : List RpcLog} → Delivers b_ws seen [] []
  again :
      {seen live fresh : List RpcLog} {log : RpcLog}
      → Memᴰ log seen
      → Delivers b_ws seen live fresh
      → Delivers b_ws seen (log ∷ live) fresh
  next :
      {seen live fresh : List RpcLog} {log : RpcLog}
      → b_ws < block_of log
      → All (λ old. less old log ≡ true) seen
      → Delivers b_ws (log ∷ seen) live fresh
      → Delivers b_ws seen (log ∷ live) (log ∷ fresh)

module _ (keccak : Text → Text) where
  -- The logs, each processed once.
  unfoldable pub process_all : List RpcLog → LogReplayEngine → LogReplayEngine
  process_all [] e = e
  process_all (log ∷ logs) e = process_all logs (process_log keccak log e)

  process_log-cong :
      (log : RpcLog) (e e' : LogReplayEngine)
      → core e ≡ core e'
      → core (process_log keccak log e) ≡ core (process_log keccak log e')
  process_log-cong log e e' h =
      process_log-core log keccak e
      ∙ ap (λ c. core (process_log keccak log c)) h
      ∙ sym (process_log-core log keccak e')

  pub process_all-cong :
      (logs : List RpcLog) (e e' : LogReplayEngine)
      → core e ≡ core e'
      → core (process_all logs e) ≡ core (process_all logs e')
  unfolding process_all
  process_all-cong [] e e' h = h
  process_all-cong (log ∷ logs) e e' h =
      process_all-cong logs (process_log keccak log e) (process_log keccak log e')
        (process_log-cong log e e' h)

  pub process_all-append :
      (xs ys : List RpcLog) (e : LogReplayEngine)
      → process_all (xs ++ ys) e ≡ process_all ys (process_all xs e)
  unfolding process_all
  process_all-append [] ys e = refl
  process_all-append (x ∷ xs) ys e = process_all-append xs ys (process_log keccak x e)

  enter_transaction-core :
      (log : RpcLog) (e : LogReplayEngine) → core (enter_transaction log e) ≡ core e
  unfolding enter_transaction flush_dirty_users
  enter_transaction-core log e = elim (Bool-cases (beq log.transaction_hash e.current_tx_hash)) [
    | inl same ↦ rw (enter_transaction, same) refl
    | inr new ↦ rw (enter_transaction, new) refl
  ]

  advance-core :
      (log : RpcLog) (e e' : LogReplayEngine)
      → core e ≡ core e'
      → core (advance keccak log e) ≡ core (process_log keccak log e')
  unfolding advance
  advance-core log e e' h = process_log-cong log e e' h

  historic_loop-core :
      (logs : List RpcLog) (e : LogReplayEngine)
      → core (historic_loop keccak logs e) ≡ core (process_all logs e)
  unfolding historic_loop process_all
  historic_loop-core [] e = refl
  historic_loop-core (log ∷ logs) e =
      historic_loop-core logs (advance keccak log (enter_transaction log e))
      ∙ process_all-cong logs _ _
          (advance-core log (enter_transaction log e) e (enter_transaction-core log e))

  pub replay_history-core :
      (logs : List RpcLog) (b_ws : ℕ) (e : LogReplayEngine)
      → core (replay_history keccak logs b_ws e) ≡ core (process_all (sort_logs logs) e)
  unfolding replay_history flush_dirty_users
  replay_history-core logs b_ws e =
      let e' = flush_dirty_users (historic_loop keccak (sort_logs logs) e) in
      elim (Bool-cases (ltb e'.last_processed_block b_ws)) [
        | inl early ↦ rw (replay_history, early) (historic_loop-core (sort_logs logs) e)
        | inr late ↦ rw (replay_history, late) (historic_loop-core (sort_logs logs) e)
      ]

  abbrev entered : RpcLog → LogReplayEngine → LogReplayEngine
  entered log e =
      enter_transaction log (record e { store = set_current_block (block_of log) e.store })

  entered-core : (log : RpcLog) (e : LogReplayEngine) → core (entered log e) ≡ core e
  unfolding set_current_block
  entered-core log e =
      enter_transaction-core log _ ∙ elim (Bool-cases (ltb e.store.current_block (block_of log))) [
        | inl later ↦ rw (set_current_block, later) refl
        | inr same ↦ rw (set_current_block, same) refl
      ]

  entered-is_duplicate :
      (log : RpcLog) (e : LogReplayEngine) (b i : ℕ)
      → is_duplicate (entered log e) b i ≡ is_duplicate e b i
  unfolding enter_transaction flush_dirty_users is_duplicate
  entered-is_duplicate log e b i = elim (Bool-cases (beq log.transaction_hash e.current_tx_hash)) [
    | inl same ↦ rw (enter_transaction, same) refl
    | inr new ↦ rw (enter_transaction, new) refl
  ]

  flush-core :
      (more : Bool) (e : LogReplayEngine) → core (if more then e else flush_dirty_users e) ≡ core e
  unfolding flush_dirty_users
  flush-core true e = refl
  flush-core false e = refl

  live_step-new :
      (more : Bool) (log : RpcLog) (e : LogReplayEngine)
      → is_duplicate e (block_of log) (index_of log) ≡ false
      → core (live_step keccak more log e) ≡ core (process_log keccak log e)
  unfolding live_step
  live_step-new more log e h =
      let new = entered-is_duplicate log e (block_of log) (index_of log) ∙ h in
      rw (live_step, new)
        (flush-core more (advance keccak log (entered log e))
          ∙ advance-core log (entered log e) e (entered-core log e))

  live_step-old :
      (more : Bool) (log : RpcLog) (e : LogReplayEngine)
      → IsOld e log
      → core (live_step keccak more log e) ≡ core e
  unfolding live_step
  live_step-old more log e h =
      let old = entered-is_duplicate log e (block_of log) (index_of log) ∙ h in
      rw (live_step, old) (flush-core more (entered log e) ∙ entered-core log e)

  -- What the engine has seen is old for it, and what is later than all of that is new.
  pub record Ready (b_ws : ℕ) (seen : List RpcLog) (e : LogReplayEngine) : Type 0 where
    pub old : All (IsOld e) seen
    pub new :
        (log : RpcLog)
        → b_ws < block_of log
        → All (λ x. less x log ≡ true) seen
        → is_duplicate e (block_of log) (index_of log) ≡ false

  -- After a new log a later one is new.
  live_step-later :
      (more : Bool) (log x : RpcLog) (e : LogReplayEngine)
      → is_duplicate e (block_of log) (index_of log) ≡ false
      → less log x ≡ true
      → is_duplicate (live_step keccak more log e) (block_of x) (index_of x) ≡ false
  unfolding live_step is_duplicate advance enter_transaction flush_dirty_users less
  live_step-later more log x e h k = ground arith

  still-IsOld :
      (more : Bool) (log x : RpcLog) (e : LogReplayEngine)
      → IsOld e x
      → IsOld (live_step keccak more log e) x
  still-IsOld more log x e h = live_step-IsOld keccak more log x e (ground (arith, h))

  Ready-new :
      (b_ws : ℕ) (seen : List RpcLog) (more : Bool) (log : RpcLog) (e : LogReplayEngine)
      → Ready b_ws seen e
      → is_duplicate e (block_of log) (index_of log) ≡ false
      → Ready b_ws (log ∷ seen) (live_step keccak more log e)
  Ready-new b_ws seen more log e r h = record {
    old = (
      live_step-IsOld keccak more log log e (ground (arith, less_irrefl log)),
      All-map (IsOld e) _ (λ x. still-IsOld more log x e) seen r.old,
    );
    new = λ x after later. live_step-later more log x e h later.0;
  }

  Ready-old :
      (b_ws : ℕ) (seen : List RpcLog) (more : Bool) (log : RpcLog) (e : LogReplayEngine)
      → Ready b_ws seen e
      → IsOld e log
      → Ready b_ws seen (live_step keccak more log e)
  unfolding is_duplicate
  Ready-old b_ws seen more log e r h =
      let step = live_step-Unmoved keccak more log e h in
      record {
        old = All-map (IsOld e) _ (λ x. still-IsOld more log x e) seen r.old;
        new = λ x after later. rw (step.block, step.index) (r.new x after later);
      }

  pub live_loop-core :
      (b_ws : ℕ) (seen live fresh : List RpcLog) (e : LogReplayEngine)
      → Ready b_ws seen e
      → Delivers b_ws seen live fresh
      → core (live_loop keccak live e) ≡ core (process_all fresh e)
  unfolding live_loop process_all
  live_loop-core b_ws seen _ _ e r done = refl
  live_loop-core b_ws seen _ _ e r (again {live} {fresh} {log} m d) =
      let more : Bool = elim live [ [] ↦ false | _ ∷ _ ↦ true ] in
      let old = All-Memᴰ (IsOld e) log seen r.old m in
      live_loop-core b_ws seen live fresh (live_step keccak more log e)
        (Ready-old b_ws seen more log e r old) d
      ∙ process_all-cong fresh _ _ (live_step-old more log e old)
  live_loop-core b_ws seen _ _ e r (next {live} {fresh} {log} after later d) =
      let more : Bool = elim live [ [] ↦ false | _ ∷ _ ↦ true ] in
      let new = r.new log after later in
      live_loop-core b_ws (log ∷ seen) live fresh (live_step keccak more log e)
        (Ready-new b_ws seen more log e r new) d
      ∙ process_all-cong fresh _ _ (live_step-new more log e new)
