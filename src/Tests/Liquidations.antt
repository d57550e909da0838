-- ===== src/Tests/Liquidations.antt =====
-- Examples on the choice of a liquidation.
use aave_v3_flash_liquidator.Prelude.{
  ℕ, ◌≡◌, ◌≤◌, ◌*◌, ◌/◌, refl, Option, if◌then◌else◌, pos, arith, lookup,
}
use aave_v3_flash_liquidator.Text.{text_eq}
use aave_v3_flash_liquidator.Run.{ok}
use aave_v3_flash_liquidator.Risk.Health.{unit_of}
use aave_v3_flash_liquidator.Strategy.{
  LiquidationRecipe, AssetData, Collected, nothing_collected, calculate_optimal_recipe,
  liquidation_amounts, max_liquidatable_debt,
}
use aave_v3_flash_liquidator.Strategy.Bounds.{
  IsCovered, liquidation_amounts_lem, is_close_factor_half, max_liquidatable_debt_bounded,
}
use aave_v3_flash_liquidator.Strategy.Totality.{IsConfigured}
use aave_v3_flash_liquidator.Strategy.Optimal.{
  IsOptimal, Combines, collected, calculate_optimal_recipe_lem,
}
use aave_v3_flash_liquidator.Tests.{ann, weth, usdc, market, ann_position}

pub market-IsConfigured : IsConfigured market
unfolding lookup
market-IsConfigured = record {
  prices = λ a p e. ground arith;
  bonuses = λ a cfg e f. ground arith;
  categories = λ k cat e. absurd (ground arith);
}

calculate_optimal_recipe_lem_example :
    (best : Option LiquidationRecipe) × (calculate_optimal_recipe market ann ann_position
        (pos 941176470588235294)
      ≡ ok best)
    × IsOptimal
        (Combines market ann ann_position
          (collected market ann_position)
          (pos 941176470588235294)
          (collected market ann_position).debts)
        best
calculate_optimal_recipe_lem_example =
    calculate_optimal_recipe_lem market market-IsConfigured ann ann_position
      (pos 941176470588235294)

-- 1700 usdc, and 10 weth at 200 USD.
abbrev debt : AssetData
debt = record {
  address = usdc;
  balance = pos 170000;
  price = pos 100000000;
  decimals = 2;
  reserve_id = 1;
}

abbrev col : AssetData
col = record {
  address = weth;
  balance = pos 1000;
  price = pos 20000000000;
  decimals = 2;
  reserve_id = 0;
}

liquidation_amounts_lem_example :
    (cover taken : ℕ) × (liquidation_amounts debt col (pos 170000) 10500
      ≡ ok (pos cover, pos taken))
    × IsCovered (100000000 * unit_of 2) (20000000000 * unit_of 2) 170000 1000 10500 cover taken
liquidation_amounts_lem_example =
    liquidation_amounts_lem debt col 170000 100000000 20000000000 1000 10500 (omega arith)
      (omega arith) refl refl refl

abbrev totals : Collected
totals = record nothing_collected { total_debt_in_base = pos 170000000000 }

max_liquidatable_debt_bounded_example :
    (m : ℕ) × (max_liquidatable_debt totals (pos 96) debt ≡ ok (pos m))
    × (m ≤ 170000)
    × (m * 100000000 / unit_of 2 ≤ (
        if is_close_factor_half totals (pos 96)
        then 170000000000 * 5000 / 10000
        else 170000 * 100000000 / unit_of 2))
max_liquidatable_debt_bounded_example =
    max_liquidatable_debt_bounded totals (pos 96) debt 100000000 170000 170000000000 (omega arith)
      refl refl refl
