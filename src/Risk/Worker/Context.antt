-- ===== src/Risk/Worker/Context.antt =====
-- The context that the worker hands to the executor: the one of the verification, which it has
-- cancelled right after the call of the chain.
use aave_v3_flash_liquidator.Prelude.{◌≡◌, ap, ℕ, Bool, false, [], Option, ℤ}
use aave_v3_flash_liquidator.Text.{Text}
use aave_v3_flash_liquidator.Models.{UserAccountData, UserPosition, RiskSnapshot}
use aave_v3_flash_liquidator.Rpc.{RpcClient}
use aave_v3_flash_liquidator.Store.{StateStore}
use aave_v3_flash_liquidator.Strategy.{LiquidationRecipe}
use aave_v3_flash_liquidator.Executor.{
  TxExecutor, ContractLiquidationParams, DynamicFeeTx, CallMsg, refused, Node, Sending,
  send_liquidation, is_sent,
}
use aave_v3_flash_liquidator.Executor.Refused.{IsNothing, send_liquidation-IsNothing}
use aave_v3_flash_liquidator.Risk.Health.{EModeReplies}
use aave_v3_flash_liquidator.Risk.Worker.{process_user}

-- A context, by whether it is done.
pub data Context : Type 0 where
  live : Context
  cancelled : Context

-- `cancel()`
unfoldable pub cancel : Context → Context
cancel ctx = cancelled

-- The nodes as the client of go-ethereum reaches them with a context.
abbrev pub Nodes : Type 0
Nodes = Context → ℕ → Text → Node

module _ (hex_to_address : Text → Text) (pack : ContractLiquidationParams → Option Text)
    (sign : DynamicFeeTx → Option Text) (ex : TxExecutor) (nodes : Nodes) (r : RpcClient) where
  -- The verification has the context before the cancellation, the executor after it.
  unfoldable pub send_verified : LiquidationRecipe → Sending
  unfolding cancel
  send_verified recipe =
      let verify_ctx = cancel live in
      send_liquidation hex_to_address pack sign ex (nodes verify_ctx) recipe r

  unfoldable pub verified_send : LiquidationRecipe → Bool
  unfolding send_verified
  verified_send recipe = is_sent (send_verified recipe)

  -- If the estimate of the gas is refused wherever the context is done, then, as the worker cancels
  -- the context of the verification before it hands it to the executor, no recipe leads to a
  -- transaction, and the worker does with every user what it does when each liquidation is refused.
  pub process_user-cancelled :
      (now : ℤ) (user_addr : Text) (replies : EModeReplies)
      (chain : RiskSnapshot → Option (UserAccountData × UserPosition)) (s : StateStore)
      → ((attempt : ℕ) (url : Text) (msg : CallMsg)
          → (message : Text) × ((nodes cancelled attempt url).estimate_gas msg ≡ refused message))
      → ((recipe : LiquidationRecipe) → (send_verified recipe).submitted ≡ [])
        × (process_user now verified_send user_addr replies chain s
            ≡ process_user now (λ recipe. false) user_addr replies chain s)
  unfolding send_verified verified_send cancel
  process_user-cancelled now user_addr replies chain s refuses =
      let nothing : (recipe : LiquidationRecipe)
          → IsNothing (send_liquidation hex_to_address pack sign ex (nodes cancelled) recipe r) =
        λ recipe.
          send_liquidation-IsNothing hex_to_address pack sign ex (nodes cancelled) refuses recipe
            r in
      let refused_all : verified_send ≡ (λ recipe. false) = λ i recipe. (nothing recipe).error i in
      (
        (λ recipe. (nothing recipe).submitted),
        ap (λ send. process_user now send user_addr replies chain s) refused_all,
      )
