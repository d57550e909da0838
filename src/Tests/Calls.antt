-- ===== src/Tests/Calls.antt =====
-- Examples on the retries.
use aave_v3_flash_liquidator.Prelude.{ℕ, zero, suc, ◌≡◌, refl, [], ◌∷◌, none, some, inr, true}
use aave_v3_flash_liquidator.Text.{Text, codes}
use aave_v3_flash_liquidator.Rpc.{
  RpcClient, Attempt, unreachable, body, absent, object, call_with_retry,
}
use aave_v3_flash_liquidator.Rpc.Retry.{call_with_retry-stale}

abbrev two_nodes : RpcClient
two_nodes = record { rpc_urls = codes "a" ∷ codes "b" ∷ []; current_index = 0 }

-- Down at first, up at the second attempt.
abbrev slow_start : ℕ → Text → Attempt
slow_start zero url = unreachable
slow_start (suc i) url = body true (some (codes "1")) absent

-- An error object first, then a result.
abbrev error_first : ℕ → Text → Attempt
error_first zero url = body true none (object (some (codes "busy")))
error_first (suc i) url = body true (some (codes "1")) absent

call_with_retry-stale_example : (call_with_retry error_first two_nodes).0 ≡ none
call_with_retry-stale_example =
    call_with_retry-stale error_first two_nodes none (codes "busy") refl
      (λ i url. inr (true, some (codes "1"), refl))
