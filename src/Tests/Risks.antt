-- ===== src/Tests/Risks.antt =====
-- Examples on the health factor.
use mathlib.Core.List.Permᴰ
use aave_v3_flash_liquidator.Prelude.{
  ◌≡◌, none, refl, false, true, some, [], ◌∷◌, pos, ◌+ℤ◌, ◌*ℤ◌, div_ℤ, arith, lookup, insert, Assoc,
}
use aave_v3_flash_liquidator.Text.{Text, text_eq}
use aave_v3_flash_liquidator.Ray.{ray_mul}
use aave_v3_flash_liquidator.Models.{UserReserve, RiskSnapshot}
use aave_v3_flash_liquidator.Store.{StateStore, get_current_block}
use aave_v3_flash_liquidator.Risk.Health.{
  EModeReplies, calculate_hf, lazy_e_mode, load_category, write_e_mode, compute_hf_math, hf_loop,
  hf_step, add_collateral, add_debt_value, base_value, lt_to_use, unit_of, snapshot_of,
  health_factor_of,
}
use aave_v3_flash_liquidator.Risk.Health.Decision.{
  IsPriced, is_liquidatable, is_under_water, health_factor_exact,
}
use aave_v3_flash_liquidator.Risk.Health.Lazy.{IsJudged, calculate_hf-IsJudged}
use aave_v3_flash_liquidator.Risk.Health.Sums.{compute_hf_math-perm}
use aave_v3_flash_liquidator.Tests.{ann, weth, usdc, reserve_with, market, ann_position}

-- 2000 USD at a threshold of 80 % against 1700 USD.
abbrev pub ann_snapshot : RiskSnapshot
ann_snapshot = record {
  health_factor = pos 941176470588235294;
  raw_collateral_base = pos 200000000000;
  total_collateral_base = pos 1600000000000000;
  total_debt_base = pos 170000000000;
  calculated_at_block = 7;
}

ann_is_low : compute_hf_math market ann false 0 ≡ some ann_snapshot
unfolding compute_hf_math hf_loop hf_step add_collateral add_debt_value base_value lt_to_use unit_of
    snapshot_of health_factor_of lookup ray_mul ◌+ℤ◌ ◌*ℤ◌ div_ℤ get_current_block
ann_is_low = refl

market-IsPriced : IsPriced market
unfolding lookup
market-IsPriced = record { prices = λ a p e. ground arith; indices = λ a i e. ground arith }

health_factor_exact_example :
    is_liquidatable ann_snapshot.health_factor
    ≡ is_under_water ann_snapshot.total_collateral_base ann_snapshot.total_debt_base
health_factor_exact_example = health_factor_exact market ann false 0 market-IsPriced ann_is_low

abbrev swapped : Assoc Text UserReserve
swapped = (usdc, reserve_with usdc 0 170000) ∷ (weth, reserve_with weth 1000 0) ∷ []

ann_found : lookup ann market.user_positions ≡ some ann_position
unfolding lookup
ann_found = refl

compute_hf_math-perm_example :
    compute_hf_math
      (record market {
        user_positions =
            insert ann (record ann_position { reserves = swapped }) market.user_positions;
      })
      ann
      false
      0
    ≡ compute_hf_math market ann false 0
compute_hf_math-perm_example =
    compute_hf_math-perm market ann false 0 swapped ann_found ∣ Permᴰ.swap refl refl ∣₁

-- The chain answers that the user is in no E-Mode.
abbrev pub no_e_mode : EModeReplies
no_e_mode = record { user_e_mode = some 0; category = none }

abbrev pub judged : StateStore
judged = record market {
  user_positions = (ann, record ann_position { e_mode_fetched = true }) ∷ [];
}

pub ann_is_judged : calculate_hf no_e_mode ann market ≡ (some ann_snapshot, judged)
unfolding calculate_hf lazy_e_mode load_category write_e_mode insert compute_hf_math hf_loop hf_step
    add_collateral add_debt_value base_value lt_to_use unit_of snapshot_of health_factor_of lookup
    ray_mul ◌+ℤ◌ ◌*ℤ◌ div_ℤ get_current_block
ann_is_judged = refl

calculate_hf-IsJudged_example : IsJudged ann ann_snapshot judged
calculate_hf-IsJudged_example = calculate_hf-IsJudged no_e_mode ann market ann_is_judged refl refl
