-- ===== src/Strategy/Best.antt =====
-- `consider`, the choice of `CalculateOptimalRecipe`, over batches of candidates.
use mathlib.Core.Logic.{⊎_elim}
use aave_v3_flash_liquidator.Prelude.{
  ◌≡◌, refl, sym, ◌∙◌, ◌⊎◌, inl, inr, Bool-cases, true, Option, none, some, arith, ◌≤ℤ◌, ltb_ℤ,
}
use aave_v3_flash_liquidator.Strategy.{LiquidationRecipe, BestRecipe, consider}

-- After some candidates the best recipe is either the one before or one of these, and none of them
-- has a higher profit.
pub record IsBestOf (Candidate : LiquidationRecipe → Type 0) (before after : BestRecipe)
    : Type 0 where
  pub grows : before.highest_profit ≤ℤ after.highest_profit
  pub upper : (r : LiquidationRecipe) → Candidate r → r.expected_profit_usd ≤ℤ after.highest_profit
  pub chosen :
      (after ≡ before)
      ⊎ ((r : LiquidationRecipe) × Candidate r
          × (after ≡ record { recipe = some r; highest_profit = r.expected_profit_usd })
          × (ltb_ℤ before.highest_profit r.expected_profit_usd ≡ true))

pub consider_lem :
    (o : Option LiquidationRecipe) (best : BestRecipe)
    → IsBestOf (λ r. o ≡ some r) best (consider o best)
unfolding consider
consider_lem none best = record {
  grows = omega arith;
  upper = λ r e. ground arith;
  chosen = inl refl;
}
consider_lem (some r) best = elim (Bool-cases (ltb_ℤ best.highest_profit r.expected_profit_usd)) [
  | inl e ↦ rw e (record {
    grows = ground arith;
    upper = λ r' e'. ground arith;
    chosen = inr (r, refl, refl, e);
  })
  | inr e ↦ rw e (record {
    grows = omega arith;
    upper = λ r' e'.
        let same : r ≡ r' = cc in
        let below : r.expected_profit_usd ≤ℤ best.highest_profit = ground arith in
        rw (sym same) below;
    chosen = inl refl;
  })
]

module _ (P Q R : LiquidationRecipe → Type 0) (a b c : BestRecipe) where
  -- Candidates in two batches.
  pub IsBestOf-both :
      ((r : LiquidationRecipe) → R r → P r ⊎ Q r)
      → ((r : LiquidationRecipe) → P r → R r)
      → ((r : LiquidationRecipe) → Q r → R r)
      → IsBestOf P a b
      → IsBestOf Q b c
      → IsBestOf R a c
  IsBestOf-both split p_in q_in first second = record {
    grows = omega (arith, first.grows, second.grows);
    upper = λ r m.
        ⊎_elim (λ p. let h = first.upper r p in let g = second.grows in omega arith)
          (λ q. second.upper r q) (split r m);
    chosen =
        ⊎_elim
          (λ same.
            ⊎_elim (λ same'. inl (same ∙ same')) (λ t. inr (t.0, p_in t.0 t.1, same ∙ t.2, t.3))
              first.chosen)
          (λ t. inr (t.0, q_in t.0 t.1, t.2, let g = first.grows in let h = t.3 in ground arith))
          second.chosen;
  }
