-- ===== src/Tests/Senders.antt =====
-- Examples on the worker and the executor.
use mathlib.Core.Path.{subst}
use aave_v3_flash_liquidator.Prelude.{
  ℕ, ◌*◌, ◌^◌, ◌==◌, if◌then◌else◌, Bool-cases, inl, inr, ◌≡◌, ◌≢◌, refl, ap, sym, Bool, true,
  false, [], ◌∷◌, Option, some, pos, ◌+ℤ◌, ◌-ℤ◌, ◌*ℤ◌, div_ℤ, insert, arith, lookup,
}
use aave_v3_flash_liquidator.Text.{Text, text_eq, codes}
use aave_v3_flash_liquidator.Models.{UserAccountData, UserPosition, RiskSnapshot}
use aave_v3_flash_liquidator.Run.{ok, Ends}
use aave_v3_flash_liquidator.Strategy.{LiquidationRecipe, calculate_optimal_recipe}
use aave_v3_flash_liquidator.Risk.Health.{calculate_hf}
use aave_v3_flash_liquidator.Risk.Worker.{
  Processed, process_user, without_profit, after_send, no_profit_cooldown, liquidation_cooldown,
}
use aave_v3_flash_liquidator.Ray.{ray_mul}
use aave_v3_flash_liquidator.Run.{div_go}
use aave_v3_flash_liquidator.Risk.Health.{unit_of, bit_at}
use aave_v3_flash_liquidator.Strategy.{
  value_in_base_currency, percent_div_ceil, collect_debt, collect_collateral, collect_step, collect,
  max_liquidatable_debt, bonus_bps_of, protocol_fee_bps_of, liquidation_amounts, protocol_fee,
  leaves_dust, net_profit, evaluate, consider, collateral_loop, debt_loop,
}
use aave_v3_flash_liquidator.Risk.Update.{update_heap, leave_heap}
use aave_v3_flash_liquidator.Risk.Worker.{judge, verify, liquidate}
use aave_v3_flash_liquidator.Risk.Worker.Guards.{IsCalledFor, process_user-guards}
use aave_v3_flash_liquidator.Rpc.{RpcClient}
use aave_v3_flash_liquidator.Strategy.Totality.{IsConfigured}
use aave_v3_flash_liquidator.Tests.Liquidations.{market-IsConfigured}
use aave_v3_flash_liquidator.Tests.Heaps.{risky, risky-IsRiskIndex}
use aave_v3_flash_liquidator.Risk.Update.View.{IsRiskIndex}
use aave_v3_flash_liquidator.Risk.Worker.Cooldown.{IsPaused, liquidate-cooldown}
use aave_v3_flash_liquidator.Risk.Worker.Total.{process_user-IsRiskIndex}
use aave_v3_flash_liquidator.Executor.{
  TxExecutor, ContractLiquidationParams, DynamicFeeTx, estimated, Node, send_liquidation, send_loop,
  send_round, with_gas, submit,
}
use aave_v3_flash_liquidator.Executor.Attempts.{count_taken, IsCareful, send_liquidation-IsCareful}
use aave_v3_flash_liquidator.Tests.{ann, weth, usdc, market, ann_position}
use aave_v3_flash_liquidator.Tests.Risks.{no_e_mode, ann_is_judged}

abbrev pub ann_account : UserAccountData
ann_account = record {
  total_collateral_base = pos 200000000000;
  total_debt_base = pos 170000000000;
  health_factor = pos 941176470588235294;
}

abbrev pub chain_reply : RiskSnapshot → Option (UserAccountData × UserPosition)
chain_reply _ = some (ann_account, ann_position)

abbrev accepts : LiquidationRecipe → Bool
accepts _ = true

abbrev refuses : LiquidationRecipe → Bool
refuses _ = false

abbrev pub ann_recipe : LiquidationRecipe
ann_recipe = record {
  user_address = ann;
  debt_asset = usdc;
  collateral_asset = weth;
  debt_to_cover = pos 170000;
  expected_seized_amount = pos 888;
  expected_profit_usd = pos 6626000000;
  liquidation_bonus_bps = 10500;
}

chosen :
    calculate_optimal_recipe market ann ann_position (pos 941176470588235294) ≡ ok (some ann_recipe)
unfolding value_in_base_currency percent_div_ceil collect_debt collect_collateral collect_step
    collect max_liquidatable_debt bonus_bps_of protocol_fee_bps_of liquidation_amounts protocol_fee
    leaves_dust net_profit evaluate consider collateral_loop debt_loop calculate_optimal_recipe
    unit_of lookup ray_mul ◌+ℤ◌ ◌-ℤ◌ ◌*ℤ◌ div_ℤ div_go bit_at
chosen = refl

ran : process_user (pos 9) accepts ann no_e_mode chain_reply market ≡ ok (some ann_recipe, market)
unfolding process_user judge verify liquidate after_send update_heap leave_heap insert lookup
ran = rw (process_user, ann_is_judged, judge, verify, chosen) refl

process_user-guards_example :
    IsCalledFor ann chain_reply
      (calculate_hf no_e_mode ann market).0
      (calculate_hf no_e_mode ann market).1
      ann_recipe
process_user-guards_example =
    process_user-guards (pos 9) accepts ann chain_reply ann_recipe no_e_mode market market ran

liquidate-cooldown_example :
    Ends
      (λ (r : Processed). IsPaused ann (pos (9 * 10 ^ 17)) (pos 9 +ℤ no_profit_cooldown) risky r.1)
      (without_profit (pos 9) refuses ann (pos (9 * 10 ^ 17)) risky)
    × Ends
        (λ (r : Processed).
          IsPaused ann (pos (9 * 10 ^ 17)) (pos 9 +ℤ liquidation_cooldown) risky r.1)
        (after_send (pos 9) refuses ann (pos (9 * 10 ^ 17)) ann_recipe risky)
liquidate-cooldown_example =
    liquidate-cooldown (pos 9) (pos (9 * 10 ^ 17)) refuses ann ann_recipe risky risky-IsRiskIndex
      refl refl

empty-IsRiskIndex : IsRiskIndex market
unfolding lookup
empty-IsRiskIndex = record {
  heap = record { indexed = λ c p. absurd (omega arith); order = λ c p q. absurd (omega arith) };
  listing = record {
    used = λ c p. absurd (omega arith);
    listed = λ c p. absurd (omega arith);
    placed = λ u p e. absurd (ground (arith, e));
  };
}

judged-IsConfigured : IsConfigured (calculate_hf no_e_mode ann market).1
judged-IsConfigured = subst IsConfigured (ap (λ r. r.1) (sym ann_is_judged)) (record {
  prices = market-IsConfigured.prices;
  bonuses = market-IsConfigured.bonuses;
  categories = market-IsConfigured.categories;
})

process_user-IsRiskIndex_example :
    Ends
      (λ (r : Processed). IsRiskIndex r.1)
      (process_user (pos 9) accepts ann no_e_mode chain_reply market)
process_user-IsRiskIndex_example =
    process_user-IsRiskIndex (pos 9) accepts ann no_e_mode chain_reply market empty-IsRiskIndex
      judged-IsConfigured

-- An executor, a node that accepts everything, and one with a single URL.
abbrev pub executor : TxExecutor
executor = record {
  contract = codes "0xe";
  wallet_addr = codes "0xf";
  chain_id = pos 1;
  fee_cache = record { best_fees = [] };
}

abbrev pub good_node : Node
good_node = record {
  dials = true;
  estimate_gas = λ _. estimated 300000;
  pending_nonce = some 4;
  suggest_gas_tip_cap = some (pos 1);
  suggest_gas_price = some (pos 2);
  send_transaction = λ _. record { is_taken = true; no_error = true };
}

abbrev pub signature : DynamicFeeTx → Option Text
signature _ = some (codes "0x1")

abbrev pub packed : ContractLiquidationParams → Option Text
packed _ = some (codes "data")

signature-named : (tx : DynamicFeeTx) (hash : Text) → signature tx ≡ some hash → hash ≢ []
signature-named tx hash e d = absurd (ground (arith, e, d))

abbrev pub one_node : RpcClient
one_node = record { rpc_urls = codes "u" ∷ []; current_index = 0 }

-- The first node takes the transaction, but its reply is lost; the second one takes another.
abbrev silent : Node
silent = record good_node {
  pending_nonce = some 3;
  send_transaction = λ _. record { is_taken = true; no_error = false };
}

abbrev lossy : ℕ → Text → Node
lossy attempt url = if attempt == 1 then silent else good_node

lossy-honest :
    (attempt : ℕ) (url : Text) (tx : DynamicFeeTx)
    → ((lossy attempt url).send_transaction tx).no_error ≡ true
    → ((lossy attempt url).send_transaction tx).is_taken ≡ true
lossy-honest attempt url tx e = elim (Bool-cases (attempt == 1)) [
  | inl first ↦ rw first refl
  | inr later ↦ rw later refl
]

-- After a lost reply two transactions of one liquidation are in the pools.
two_taken :
    count_taken
      (send_liquidation (λ t. t) packed signature executor lossy ann_recipe one_node).submitted
    ≡ 2
unfolding count_taken send_liquidation send_loop send_round with_gas submit
two_taken = refl

send_liquidation-IsCareful_example :
    IsCareful
      (λ t. t)
      packed
      signature
      executor
      lossy
      (codes "data")
      3
      (send_liquidation (λ t. t) packed signature executor lossy ann_recipe one_node)
send_liquidation-IsCareful_example =
    send_liquidation-IsCareful (λ t. t) packed signature executor lossy signature-named lossy-honest
      ann_recipe (codes "data") one_node refl
