-- ===== src/Replay/History.antt =====
-- The live stream of Replay/Stream after the history: which logs are duplicates.
use mathlib.Core.Path.{subst}
use mathlib.Core.Logic.{⊎_elim}
use mathlib.Core.List.{Memᴰ}
use mathlib.Core.List.Memᴰ
use aave_v3_flash_liquidator.Prelude.{
  sym, ℕ, ◌≡◌, refl, ◌∙◌, Bool, true, false, not, ◌&&◌, List, [], ◌∷◌, All, ltb, if◌then◌else◌,
  arith, Bool-cases, inl, inr,
}
use aave_v3_flash_liquidator.Text.{Text, text_eq}
use aave_v3_flash_liquidator.Models.{RpcLog}
use aave_v3_flash_liquidator.Store.{set_current_block}
use aave_v3_flash_liquidator.Replay.{LogReplayEngine, flush_dirty_users}
use aave_v3_flash_liquidator.Replay.Stream.{
  block_of, index_of, less, insert_log, sort_logs, is_duplicate, enter_transaction, advance,
  historic_loop, replay_history, live_step, live_loop,
}

-- A log that the engine takes for a duplicate.
abbrev pub IsOld : LogReplayEngine → RpcLog → Type 0
IsOld e log = is_duplicate e (block_of log) (index_of log) ≡ true

-- In order: no log comes before one that is smaller.
abbrev IsOrdered : List RpcLog → Type 0
IsOrdered [] = Unit
IsOrdered (x ∷ xs) = All (λ y. less y x ≡ false) xs × IsOrdered xs

module _ (P : RpcLog → Type 0) where
  pub All-insert_log : (x : RpcLog) (xs : List RpcLog) → P x → All P xs → All P (insert_log x xs)
  unfolding insert_log
  All-insert_log x [] p ps = (p, tt)
  All-insert_log x (y ∷ ys) p ps = elim (Bool-cases (less y x)) [
    | inl e ↦ rw (insert_log, e) (ps.0, All-insert_log x ys p ps.1)
    | inr e ↦ rw (insert_log, e) (p, ps)
  ]

  All-of-insert_log : (x : RpcLog) (xs : List RpcLog) → All P (insert_log x xs) → P x × All P xs
  unfolding insert_log
  All-of-insert_log x [] h = h
  All-of-insert_log x (y ∷ ys) h = elim (Bool-cases (less y x)) [
    | inl e ↦
        let h' = rw (insert_log, e) at h in
        let t = All-of-insert_log x ys h'.1 in (t.0, (h'.0, t.1))
    | inr e ↦ rw (insert_log, e) at h
  ]

  All-of-sort_logs : (xs : List RpcLog) → All P (sort_logs xs) → All P xs
  unfolding sort_logs
  All-of-sort_logs [] h = tt
  All-of-sort_logs (x ∷ xs) h =
      let t = All-of-insert_log x (sort_logs xs) h in (t.0, All-of-sort_logs xs t.1)

pub All-map :
    (P Q : RpcLog → Type 0) → ((x : RpcLog) → P x → Q x) → (xs : List RpcLog) → All P xs → All Q xs
All-map P Q f [] h = tt
All-map P Q f (x ∷ xs) h = (f x h.0, All-map P Q f xs h.1)

pub All-Memᴰ : (P : RpcLog → Type 0) (x : RpcLog) (xs : List RpcLog) → All P xs → Memᴰ x xs → P x
All-Memᴰ P x [] h m = absurd (Memᴰ.not-nil m)
All-Memᴰ P x (y ∷ ys) h m =
    ⊎_elim (λ e. subst P (sym e) h.0) (All-Memᴰ P x ys h.1) (Memᴰ.cases_cons m)

less_asym : (x y : RpcLog) → less y x ≡ true → less x y ≡ false
unfolding less
less_asym x y h = ground arith

less_trans : (x y z : RpcLog) → less z y ≡ false → less y x ≡ false → less z x ≡ false
unfolding less
less_trans x y z h k = ground arith

pub less_irrefl : (x : RpcLog) → less x x ≡ false
unfolding less
less_irrefl x = ground arith

insert_log-IsOrdered : (x : RpcLog) (xs : List RpcLog) → IsOrdered xs → IsOrdered (insert_log x xs)
unfolding insert_log
insert_log-IsOrdered x [] h = (tt, tt)
insert_log-IsOrdered x (y ∷ ys) h = elim (Bool-cases (less y x)) [
  | inl e ↦
      rw (insert_log, e)
        (
          All-insert_log (λ z. less z y ≡ false) x ys (less_asym x y e) h.0,
          insert_log-IsOrdered x ys h.1,
        )
  | inr e ↦
      rw (insert_log, e)
        (
          (
            e,
            All-map (λ z. less z y ≡ false) (λ z. less z x ≡ false) (λ z p. less_trans x y z p e) ys
                h.0,
          ),
          h,
        )
]

sort_logs-IsOrdered : (xs : List RpcLog) → IsOrdered (sort_logs xs)
unfolding sort_logs
sort_logs-IsOrdered [] = tt
sort_logs-IsOrdered (x ∷ xs) = insert_log-IsOrdered x (sort_logs xs) (sort_logs-IsOrdered xs)

-- The last log that was processed is old, and so is what does not come after it.
advance-IsOld :
    (keccak : Text → Text) (x y : RpcLog) (e : LogReplayEngine)
    → less y x ≡ false
    → IsOld (advance keccak y e) x
unfolding advance is_duplicate less
advance-IsOld keccak x y e h = ground arith

-- The accounts, the indices and the last log are the same.
pub record Unmoved (e e' : LogReplayEngine) : Type 0 where
  pub positions : e'.store.user_positions ≡ e.store.user_positions
  pub indices : e'.store.global_indices ≡ e.store.global_indices
  pub block : e'.last_processed_block ≡ e.last_processed_block
  pub index : e'.last_processed_log_index ≡ e.last_processed_log_index

Unmoved-IsOld : (e e' : LogReplayEngine) → Unmoved e e' → (x : RpcLog) → IsOld e x → IsOld e' x
unfolding is_duplicate
Unmoved-IsOld e e' h x old = rw (h.block, h.index) old

module _ (keccak : Text → Text) where
  pub live_step-Unmoved :
      (more : Bool) (log : RpcLog) (e : LogReplayEngine)
      → IsOld e log
      → Unmoved e (live_step keccak more log e)
  unfolding live_step is_duplicate enter_transaction flush_dirty_users set_current_block
  live_step-Unmoved more log e old = record {
    positions = ground arith;
    indices = ground arith;
    block = ground arith;
    index = ground arith;
  }

  historic_loop-IsOld :
      (x : RpcLog) (logs : List RpcLog) (e : LogReplayEngine)
      → IsOld e x
      → All (λ y. less y x ≡ false) logs
      → IsOld (historic_loop keccak logs e) x
  unfolding historic_loop
  historic_loop-IsOld x [] e old h = old
  historic_loop-IsOld x (y ∷ ys) e old h =
      let e' = enter_transaction y e in
      historic_loop-IsOld x ys (advance keccak y e') (advance-IsOld keccak x y e' h.0) h.1

  historic_loop-All :
      (logs : List RpcLog) (e : LogReplayEngine)
      → IsOrdered logs
      → All (IsOld (historic_loop keccak logs e)) logs
  unfolding historic_loop
  historic_loop-All [] e h = tt
  historic_loop-All (x ∷ xs) e h =
      let e' = enter_transaction x e in
      (
        historic_loop-IsOld x xs (advance keccak x e') (advance-IsOld keccak x x e' (less_irrefl x))
            h.0,
        historic_loop-All xs (advance keccak x e') h.1,
      )

  -- The switch to the live stream takes no log for new that was old.
  switch-IsOld :
      (e : LogReplayEngine) (b : ℕ) (x : RpcLog)
      → IsOld e x
      → IsOld
          (if ltb (flush_dirty_users e).last_processed_block b
            then record (flush_dirty_users e) {
              last_processed_block = b;
              last_processed_log_index = 0;
            }
            else flush_dirty_users e)
          x
  unfolding is_duplicate flush_dirty_users
  switch-IsOld e b x h = ground arith

  -- After the history, every log of it is a duplicate for the live stream.
  pub replay_history-IsOld :
      (logs : List RpcLog) (b_ws : ℕ) (e : LogReplayEngine)
      → All (IsOld (replay_history keccak logs b_ws e)) logs
  unfolding replay_history
  replay_history-IsOld logs b_ws e =
      let e' = historic_loop keccak (sort_logs logs) e in
      All-of-sort_logs _ logs (
        All-map _ _ (switch-IsOld e' b_ws) (sort_logs logs)
          (historic_loop-All (sort_logs logs) e (sort_logs-IsOrdered logs)))

  -- After a round of the live loop, whatever was old before it is old, and so is its log and
  -- whatever does not come after it: the last log only moves forward.
  pub live_step-IsOld :
      (more : Bool) (log x : RpcLog) (e : LogReplayEngine)
      → (less log x && not (is_duplicate e (block_of x) (index_of x))) ≡ false
      → IsOld (live_step keccak more log e) x
  unfolding live_step is_duplicate advance enter_transaction flush_dirty_users less
  live_step-IsOld more log x e h = ground arith

  -- Logs that are old change neither the accounts nor the indices.
  pub live_loop-old :
      (logs : List RpcLog) (e : LogReplayEngine)
      → All (IsOld e) logs
      → ((live_loop keccak logs e).store.user_positions ≡ e.store.user_positions)
        × ((live_loop keccak logs e).store.global_indices ≡ e.store.global_indices)
  unfolding live_loop
  live_loop-old [] e h = (refl, refl)
  live_loop-old (x ∷ xs) e h =
      let m : Bool = elim xs [ [] ↦ false | _ ∷ _ ↦ true ] in
      let step = live_step-Unmoved m x e h.0 in
      let e' = live_step keccak m x e in
      let still = All-map (IsOld e) (IsOld e') (λ y. Unmoved-IsOld e e' step y) xs h.1 in
      let rest = live_loop-old xs e' still in (rest.0 ∙ step.positions, rest.1 ∙ step.indices)

  -- After the history has been replayed, live logs that were in the history, in any order and
  -- number, change neither the positions nor the indices.
  pub live_loop-replay_history :
      (logs : List RpcLog) (b_ws : ℕ) (e : LogReplayEngine) (again : List RpcLog)
      → All (λ x. Memᴰ x logs) again
      → let synced = replay_history keccak logs b_ws e in
        let after = live_loop keccak again synced in
        (after.store.user_positions ≡ synced.store.user_positions)
        × (after.store.global_indices ≡ synced.store.global_indices)
  live_loop-replay_history logs b_ws e again h =
      let synced = replay_history keccak logs b_ws e in
      live_loop-old again synced (
        All-map (λ x. Memᴰ x logs) (IsOld synced)
          (λ x m. All-Memᴰ (IsOld synced) x logs (replay_history-IsOld logs b_ws e) m) again h)
