-- ===== src/Executor/Refused.antt =====
-- `SendLiquidation` where no node estimates the gas.
use aave_v3_flash_liquidator.Prelude.{
  ◌≡◌, refl, ℕ, zero, suc, ◌⊎◌, false, Bool-cases, Option-cases, inl, inr, [], Option,
}
use aave_v3_flash_liquidator.Text.{Text}
use aave_v3_flash_liquidator.Rpc.{RpcClient, get_next_url}
use aave_v3_flash_liquidator.Strategy.{LiquidationRecipe}
use aave_v3_flash_liquidator.Executor.{
  TxExecutor, ContractLiquidationParams, DynamicFeeTx, CallMsg, refused, Node, is_revert, next,
  abort, Sending, params_of, call_msg, send_round, send_loop, send_liquidation, is_sent,
  max_rpc_retries,
}

-- No transaction was submitted, and an error is reported.
pub record IsNothing (result : Sending) : Type 0 where
  pub submitted : result.submitted ≡ []
  pub error : is_sent result ≡ false

module _ (hex_to_address : Text → Text) (pack : ContractLiquidationParams → Option Text)
    (sign : DynamicFeeTx → Option Text) (ex : TxExecutor) (nodes : ℕ → Text → Node)
    (refuses : (attempt : ℕ) (url : Text) (msg : CallMsg)
      → (message : Text) × ((nodes attempt url).estimate_gas msg ≡ refused message)) where
  send_round-refused :
      (calldata : Text) (attempt : ℕ) (url : Text)
      → (send_round hex_to_address pack sign ex calldata (nodes attempt url) ≡ next)
        ⊎ (send_round hex_to_address pack sign ex calldata (nodes attempt url) ≡ abort)
  unfolding send_round
  send_round-refused calldata attempt url =
      let (message, e) = refuses attempt url (call_msg hex_to_address pack sign ex calldata) in
      elim (Bool-cases (nodes attempt url).dials) [
        | inr down ↦ inl (rw (send_round, down) refl)
        | inl up ↦ elim (Bool-cases (is_revert message)) [
          | inl reverted ↦ inr (rw (send_round, up, e, reverted) refl)
          | inr other ↦ inl (rw (send_round, up, e, other) refl)
        ]
      ]

  send_loop-IsNothing :
      (calldata : Text) (left attempt : ℕ) (r : RpcClient)
      → IsNothing (send_loop hex_to_address pack sign ex nodes calldata left attempt r)
  unfolding send_loop is_sent
  send_loop-IsNothing calldata zero attempt r = record { submitted = refl; error = refl }
  send_loop-IsNothing calldata (suc left) attempt r =
      let (url, r') = get_next_url r in
      elim (send_round-refused calldata attempt url) [
        | inl e ↦ rw (send_loop, e) (send_loop-IsNothing calldata left (suc attempt) r')
        | inr e ↦ rw (send_loop, e) (record { submitted = refl; error = refl })
      ]

  pub send_liquidation-IsNothing :
      (recipe : LiquidationRecipe) (r : RpcClient)
      → IsNothing (send_liquidation hex_to_address pack sign ex nodes recipe r)
  unfolding send_liquidation is_sent
  send_liquidation-IsNothing recipe r =
      elim (Option-cases (pack (params_of hex_to_address pack sign ex recipe))) [
        | inl e ↦ rw (send_liquidation, e) (record { submitted = refl; error = refl })
        | inr (calldata, e) ↦
            rw (send_liquidation, e) (send_loop-IsNothing calldata max_rpc_retries 1 r)
      ]
