-- ===== src/Tests/Accounts.antt =====
-- Examples on the store and the events.
use aave_v3_flash_liquidator.Prelude.{
  ℕ, ◌≡◌, ◌≢◌, true, ◌-◌, refl, ◌&&◌, if◌then◌else◌, Option, some, List, [], ◌∷◌, pos, beq, arith,
  lookup, ◌+◌,
}
use aave_v3_flash_liquidator.Prelude.{insert}
use aave_v3_flash_liquidator.Text.{to_lower, Text, text_eq, trim_prefix, codes}
use aave_v3_flash_liquidator.Ray.{ray, ray_div}
use aave_v3_flash_liquidator.Models.{RpcLog}
use aave_v3_flash_liquidator.Store.{
  StateStore, add_subscriber, put_reserve, find_reserve, get_global_index, upsert_user_reserve,
}
use aave_v3_flash_liquidator.Store.Methods.{IsValid, reserve_of, upsert_user_reserve-IsValid}
use aave_v3_flash_liquidator.Replay.{
  sub_balance, sub_debt, apply_supply, apply_withdraw, apply_liquidation_call,
}
use aave_v3_flash_liquidator.Replay.Events.{process_log, topic_collateral_enabled}
use aave_v3_flash_liquidator.Replay.Keeps.{IsSound}
use aave_v3_flash_liquidator.Replay.Sound.{process_log-IsSound}
use aave_v3_flash_liquidator.Replay.Accounts.{
  apply_withdraw-apply_supply, apply_liquidation_call_lem,
}
use aave_v3_flash_liquidator.Replay.Fetch.{logs_of, fetch_historic_logs, fetch_historic_logs_lem}
use aave_v3_flash_liquidator.Tests.{
  ann, weth, usdc, index_at, reserve_with, market, quiet, engine_on, log_at,
}

known_weth : get_global_index market weth ≡ some (index_at weth ray)
unfolding get_global_index lookup
known_weth = refl

known_usdc : get_global_index market usdc ≡ some (index_at usdc ray)
unfolding get_global_index lookup
known_usdc = refl

ray_nonzero : pos ray ≢ pos 0
ray_nonzero = λ e. ground arith

pub quiet-IsValid : IsValid quiet
unfolding find_reserve lookup
quiet-IsValid = record {
  nonneg = λ u a r e. absurd (ground arith);
  indexed = λ u a r e. absurd (ground arith);
}

quiet-IsSound : IsSound quiet
unfolding lookup
quiet-IsSound = record { valid = quiet-IsValid; indices = λ a i e. ground arith }

abbrev sample_hash : Text → Text
sample_hash t = t

-- The user takes weth as collateral.
abbrev enabled_log : RpcLog
enabled_log = record (log_at (codes "0x1") (codes "0x0")) {
  topics = topic_collateral_enabled sample_hash ∷ weth ∷ ann ∷ [];
}

process_log-IsSound_example : IsSound (process_log sample_hash enabled_log (engine_on quiet)).store
unfolding trim_prefix
process_log-IsSound_example =
    process_log-IsSound sample_hash enabled_log (engine_on quiet) tt quiet-IsSound

apply_withdraw-apply_supply_example :
    find_reserve
      (apply_withdraw weth ann (pos 5) (apply_supply weth ann (pos 5) (engine_on market))).store
      ann
      weth
    ≡ (if beq ann ann && beq weth weth
        then some (sub_balance (pos 0) (reserve_of market ann weth))
        else find_reserve market ann weth)
apply_withdraw-apply_supply_example =
    apply_withdraw-apply_supply weth ann (pos 5) (engine_on market) known_weth ray_nonzero ann weth

apply_liquidation_call_lem_example :
    find_reserve
      (apply_liquidation_call weth usdc ann (pos 9) (pos 4) (engine_on market)).store
      ann
      usdc
    ≡ (if beq ann ann && beq weth usdc
        then some (
            sub_balance (ray_div (pos 4) (pos ray)) (
              if beq usdc weth
              then sub_debt (ray_div (pos 9) (pos ray)) (reserve_of market ann weth)
              else reserve_of market ann weth))
        else if beq ann ann && beq usdc usdc
        then some (sub_debt (ray_div (pos 9) (pos ray)) (reserve_of market ann usdc))
        else find_reserve market ann usdc)
apply_liquidation_call_lem_example =
    apply_liquidation_call_lem weth usdc ann (pos 9) (pos 4) (engine_on market) known_usdc
      known_weth ann usdc

-- Two logs of one transaction in one block, the later one first.
abbrev first_log : RpcLog
first_log = log_at (codes "0x5") (codes "0x1")

abbrev second_log : RpcLog
second_log = log_at (codes "0x5") (codes "0x2")

abbrev history : List RpcLog
history = second_log ∷ first_log ∷ []

-- A log in every block.
abbrev chain : ℕ → List RpcLog
chain b = record (log_at [] []) { removed = true } ∷ []

abbrev node : ℕ → ℕ → Option (List RpcLog)
node a b = some (logs_of chain (b + 1 - a) a)

fetch_historic_logs_lem_example :
    fetch_historic_logs node 5 37 ≡ some (logs_of chain (37 + 1 - 5) 5)
fetch_historic_logs_lem_example =
    fetch_historic_logs_lem chain node (λ a b h. refl) 5 37 (omega arith)

-- A store with one reserve, put there by the store's method.
abbrev pub supplied : StateStore
supplied = upsert_user_reserve ann (reserve_with weth 3 0) quiet

pub supplied_reserve : find_reserve supplied ann (to_lower weth) ≡ some (reserve_with weth 3 0)
unfolding find_reserve upsert_user_reserve add_subscriber put_reserve lookup insert
supplied_reserve = refl

pub supplied-IsValid : IsValid supplied
supplied-IsValid =
    upsert_user_reserve-IsValid ann (reserve_with weth 3 0) quiet
      (record { balance = omega arith; debt = omega arith }) quiet-IsValid
