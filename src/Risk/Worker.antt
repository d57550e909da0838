-- ===== src/Risk/Worker.antt =====
-- `workerLoop` of internal/engine/risk_engine.go: one user from the queue. The replies of the chain
-- and the fate of a liquidation that is sent are given; log messages, and the comparison of the two
-- health factors that only chooses one of them, are left out.
pub mod Cooldown
pub mod Guards
pub mod Total
pub mod Context
use aave_v3_flash_liquidator.Prelude.{
  ℕ, ◌+◌, ◌^◌, Bool, true, false, Option, none, some, if◌then◌else◌, ℤ, pos, ◌+ℤ◌, ltb_ℤ, Assoc,
  lookup, insert,
}
use aave_v3_flash_liquidator.Text.{Text, text_eq}
use aave_v3_flash_liquidator.Ray.{hf_liquidation_threshold}
use aave_v3_flash_liquidator.Models.{UserRiskItem, UserPosition, UserAccountData, RiskSnapshot}
use aave_v3_flash_liquidator.Run.{Run, ok, ◌>>=◌}
use aave_v3_flash_liquidator.Store.{StateStore}
use aave_v3_flash_liquidator.Risk.Heap.{write}
use aave_v3_flash_liquidator.Risk.Health.{EModeReplies, min_debt_threshold, calculate_hf}
use aave_v3_flash_liquidator.Risk.Update.{update_heap}
use aave_v3_flash_liquidator.Strategy.{LiquidationRecipe, calculate_optimal_recipe}

-- The two pauses, in seconds.
abbrev pub liquidation_cooldown : ℤ
liquidation_cooldown = pos 10

abbrev pub no_profit_cooldown : ℤ
no_profit_cooldown = pos 60

-- The health factor of a user whose liquidation is under way.
abbrev pub fake_safe_hf : ℤ
fake_safe_hf = pos (10 ^ 20)

-- `UserPositions()[userAddr] = positionChain`
abbrev pub put_position : Text → UserPosition → StateStore → StateStore
put_position user_addr position s = record s {
  user_positions = insert user_addr position s.user_positions;
}

abbrev pub set_next_check : ℤ → UserRiskItem → UserRiskItem
set_next_check time item = record item { next_check_at = time }

-- The pause of a user who is in the table.
unfoldable pub cool_down : Text → ℤ → StateStore → StateStore
cool_down user_addr time s = elim (lookup user_addr s.heap_lookup) [
  | none ↦ s
  | some p ↦ record s { risk_items = write s.risk_items p (set_next_check time) }
]

-- The recipe that was handed to the executor, if any, and the store.
abbrev pub Processed : Type 0
Processed = Option LiquidationRecipe × StateStore

-- `now` is the time in seconds, `send` whether `SendLiquidation` returns no error.
module _ (now : ℤ) (send : LiquidationRecipe → Bool) (user_addr : Text) where
  unfoldable pub after_send : ℤ → LiquidationRecipe → StateStore → Run Processed
  after_send hf_chain recipe s =
      if send recipe
      then (update_heap user_addr (some fake_safe_hf) s >>= λ s'. ok (some recipe, s'))
      else (update_heap user_addr (some hf_chain)
            (cool_down user_addr (now +ℤ liquidation_cooldown) s)
          >>= λ s'. ok (some recipe, s'))

  unfoldable pub without_profit : ℤ → StateStore → Run Processed
  without_profit hf_chain s =
      update_heap user_addr (some hf_chain) (cool_down user_addr (now +ℤ no_profit_cooldown) s)
      >>= λ s'. ok (none, s')

  unfoldable pub liquidate : ℤ → Option LiquidationRecipe → StateStore → Run Processed
  liquidate hf_chain none s = without_profit hf_chain s
  liquidate hf_chain (some recipe) s =
      if ltb_ℤ (pos 0) recipe.expected_profit_usd
      then after_send hf_chain recipe s
      else without_profit hf_chain s

  -- With the account and the position that the chain gives; `none` is an error.
  unfoldable pub verify : Option (UserAccountData × UserPosition) → StateStore → Run Processed
  verify none s = ok (none, s)
  verify (some (acct_data_chain, position_chain)) s =
      let s' = put_position user_addr position_chain s in
      let hf_chain = acct_data_chain.health_factor in
      if ltb_ℤ hf_chain hf_liquidation_threshold
      then (calculate_optimal_recipe s' user_addr position_chain hf_chain >>= λ recipe.
          liquidate hf_chain recipe s')
      else (update_heap user_addr (some hf_chain) s' >>= λ s''. ok (none, s''))

  unfoldable pub judge :
      (RiskSnapshot → Option (UserAccountData × UserPosition))
      → Option RiskSnapshot
      → StateStore
      → Run Processed
  judge chain none s = update_heap user_addr none s >>= λ s'. ok (none, s')
  judge chain (some snapshot) s =
      if ltb_ℤ snapshot.total_debt_base min_debt_threshold
      then (update_heap user_addr none s >>= λ s'. ok (none, s'))
      else if ltb_ℤ snapshot.health_factor hf_liquidation_threshold
      then verify (chain snapshot) s
      else (update_heap user_addr (some snapshot.health_factor) s >>= λ s'. ok (none, s'))

  unfoldable pub process_user :
      EModeReplies
      → (RiskSnapshot → Option (UserAccountData × UserPosition))
      → StateStore
      → Run Processed
  process_user replies chain s = let r = calculate_hf replies user_addr s in judge chain r.0 r.1
