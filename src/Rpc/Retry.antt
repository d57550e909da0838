-- ===== src/Rpc/Retry.antt =====
-- `CallWithRetry`: which attempt decides, and what a reply leaves for the attempts after it.
use native.Mathlib.Nat.{add-zero, zero-add}
use aave_v3_flash_liquidator.Prelude.{
  sym, ◌⊎◌, ℕ, zero, suc, ◌+◌, ◌≤◌, ◌<◌, ◌≡◌, refl, Bool, true, false, Option, none, some, inl, inr,
  if◌then◌else◌, arith,
}
use aave_v3_flash_liquidator.Text.{Text}
use aave_v3_flash_liquidator.Rpc.{
  RpcClient, get_next_url, ErrorMember, absent, object, Attempt, unreachable, body, ResultSlot,
  decode_error, decode, attempt_loop, max_retries, call_with_retry,
}

either :
    (b : Bool) (x y : Option Text × RpcClient)
    → x.0 ≡ none
    → y.0 ≡ none
    → (if b then x else y).0 ≡ none
either true x y h k = h
either false x y h k = k

module _ (post : ℕ → Text → Attempt) where
  attempt_loop-success :
      (d left attempt : ℕ) (slot : ResultSlot) (r : RpcClient) (raw : Text) (error : ErrorMember)
      → d < left
      → slot.error ≡ none
      → decode_error error none ≡ none
      → ((i : ℕ) (url : Text) → i < d → post (attempt + i) url ≡ unreachable)
      → ((url : Text) → post (attempt + d) url ≡ body true (some raw) error)
      → (attempt_loop post left attempt slot r).0 ≡ some raw
  unfolding attempt_loop decode
  attempt_loop-success d zero attempt slot r raw error h clean fine down up = absurd (omega arith)
  attempt_loop-success zero (suc left) attempt slot r raw error h clean fine down up =
      let url = (get_next_url r).0 in
      let now : post attempt url ≡ body true (some raw) error =
        rw (sym (add-zero attempt)) (up url) in
      rw (attempt_loop, now, clean, fine) refl
  attempt_loop-success (suc d) (suc left) attempt slot r raw error h clean fine down up =
      let (url, r') = get_next_url r in
      let now : post attempt url ≡ unreachable =
        rw (sym (add-zero attempt)) (down 0 url (omega arith)) in
      rw (attempt_loop, now)
        (attempt_loop-success d left (suc attempt) slot r' raw error (omega arith) clean fine
          (λ i u k. rw (shift i) (down (suc i) u (omega arith))) (λ u. rw (shift d) (up u)))
    where
      shift : (i : ℕ) → suc attempt + i ≡ attempt + suc i
      shift i = omega arith

  -- If the first attempts, up to five, reach no node, and the next one brings a result with no
  -- error or the error null, the call returns this result.
  pub call_with_retry-success :
      (k : ℕ) (r : RpcClient) (raw : Text) (error : ErrorMember)
      → k ≤ max_retries
      → decode_error error none ≡ none
      → ((i : ℕ) (url : Text) → i < k → post i url ≡ unreachable)
      → ((url : Text) → post k url ≡ body true (some raw) error)
      → (call_with_retry post r).0 ≡ some raw
  unfolding call_with_retry
  call_with_retry-success k r raw error h fine down up =
      attempt_loop-success k (suc max_retries) 0 _ r raw error (omega arith) refl fine
        (λ i u p. rw (zero-add i) (down i u p)) (λ u. rw (zero-add k) (up u))

  -- An error that is in the shared variable stays there while replies have no member "error", and
  -- makes every attempt fail.
  attempt_loop-stale :
      (left attempt : ℕ) (slot : ResultSlot) (r : RpcClient) {message : Text}
      → slot.error ≡ some message
      → ((i : ℕ) (url : Text)
          → (post (suc i) url ≡ unreachable)
            ⊎ ((v : Bool) × (o : Option Text) × (post (suc i) url ≡ body v o absent)))
      → (attempt_loop post left (suc attempt) slot r).0 ≡ none
  unfolding attempt_loop decode decode_error
  attempt_loop-stale zero attempt slot r stale replies = refl
  attempt_loop-stale (suc left) attempt slot r {message} stale replies =
      let (url, r') = get_next_url r in
      elim (replies attempt url) [
        | inl e ↦ rw (attempt_loop, e) (attempt_loop-stale left (suc attempt) slot r' stale replies)
        | inr (v, o, e) ↦
            let slot' = decode o absent slot in
            let rest = attempt_loop-stale left (suc attempt) slot' r' stale replies in
            let known = record slot' { error = some message } in
            let rest' = attempt_loop-stale left (suc attempt) known r' refl replies in
            rw (attempt_loop, e, stale) (either v _ _ rest rest')
      ]

  -- If the first attempt brings an error object, and every later attempt reaches no node or brings
  -- a reply without the member "error", the call fails, whatever results the replies hold.
  pub call_with_retry-stale :
      (r : RpcClient) (value : Option Text) (message : Text)
      → post 0 (get_next_url r).0 ≡ body true value (object (some message))
      → ((i : ℕ) (url : Text)
          → (post (suc i) url ≡ unreachable)
            ⊎ ((v : Bool) × (o : Option Text) × (post (suc i) url ≡ body v o absent)))
      → (call_with_retry post r).0 ≡ none
  unfolding call_with_retry attempt_loop decode decode_error
  call_with_retry-stale r value message first later =
      rw (attempt_loop, first)
        (attempt_loop-stale max_retries 0 (record { value = _; error = some message })
          (get_next_url r).1 refl later)
