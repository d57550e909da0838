-- ===== src/Strategy/Optimal.antt =====
-- The two loops of `CalculateOptimalRecipe`, and the combinations that they visit.
use mathlib.Core.Path.{subst}
use mathlib.Core.Logic.{⊎_elim}
use mathlib.Core.List.{Memᴰ}
use mathlib.Core.List.Memᴰ
use aave_v3_flash_liquidator.Prelude.{
  ◌≡◌, refl, sym, ap, ◌∙◌, inl, inr, Bool-cases, Option-cases, false, ◌&&◌, List, [], ◌∷◌, Option,
  none, some, arith, ℤ, pos, ◌≤ℤ◌, ltb_ℤ, All, All-append, is_zero, Assoc, lookup,
}
use aave_v3_flash_liquidator.Text.{Text, text_eq}
use aave_v3_flash_liquidator.Models.{UserPosition, UserReserve, GlobalIndex, AssetConfig}
use aave_v3_flash_liquidator.Store.{StateStore}
use aave_v3_flash_liquidator.Run.{ok}
use aave_v3_flash_liquidator.Strategy.{
  LiquidationRecipe, AssetData, Collected, BestRecipe, consider, evaluate, max_liquidatable_debt,
  collateral_loop, debt_loop, calculate_optimal_recipe, collect, nothing_collected, no_recipe,
  collect_step, collect_debt, collect_collateral,
}
use aave_v3_flash_liquidator.Strategy.Best.{IsBestOf, consider_lem, IsBestOf-both}
use aave_v3_flash_liquidator.Strategy.Totality.{
  IsConfigured, max_liquidatable_debt-IsOk, evaluate-IsOk,
}

abbrev IsPricedAsset : AssetData → Type 0
IsPricedAsset a = is_zero a.price ≡ false

-- Every asset that the loop over the reserves collects has a price other than zero.
record IsCollected (c : Collected) : Type 0 where
  debts : All IsPricedAsset c.debts
  collaterals : All IsPricedAsset c.collaterals

module _ (a : Text) (res : UserReserve) (price : ℤ) (idx : GlobalIndex) (cfg : AssetConfig)
    (c : Collected) (p : is_zero price ≡ false) (h : IsCollected c) where
  collect_debt-IsCollected : IsCollected (collect_debt a res price idx cfg c)
  unfolding collect_debt
  collect_debt-IsCollected = elim (Bool-cases (ltb_ℤ (pos 0) res.scaled_variable_debt)) [
    | inl e ↦ rw e (record {
      debts = All-append IsPricedAsset c.debts _ h.debts (p, tt);
      collaterals = h.collaterals;
    })
    | inr e ↦ rw e h
  ]

  collect_collateral-IsCollected : IsCollected (collect_collateral a res price idx cfg c)
  unfolding collect_collateral
  collect_collateral-IsCollected =
      elim (Bool-cases
        (res.usage_as_collateral_enabled_on_user && ltb_ℤ (pos 0) res.scaled_a_token_balance)) [
          | inl e ↦ rw e (record {
            debts = h.debts;
            collaterals = All-append IsPricedAsset c.collaterals _ h.collaterals (p, tt);
          })
          | inr e ↦ rw e h
        ]

-- The profit of an answer of the engine: no recipe earns nothing.
abbrev pub profit_of : Option LiquidationRecipe → ℤ
profit_of none = pos 0
profit_of (some r) = r.expected_profit_usd

-- A recipe that is chosen is a candidate and pays.
abbrev pub IsChosen : (LiquidationRecipe → Type 0) → Option LiquidationRecipe → Type 0
IsChosen Candidate none = Unit
IsChosen Candidate (some r) = Candidate r × (pos 1 ≤ℤ r.expected_profit_usd)

-- No candidate earns more than the answer.
pub record IsOptimal (Candidate : LiquidationRecipe → Type 0) (best : Option LiquidationRecipe)
    : Type 0 where
  pub upper : (r : LiquidationRecipe) → Candidate r → r.expected_profit_usd ≤ℤ profit_of best
  pub chosen : IsChosen Candidate best

best-IsOptimal :
    (C : LiquidationRecipe → Type 0) (after : BestRecipe)
    → IsBestOf C no_recipe after
    → IsOptimal C after.recipe
best-IsOptimal C after h =
    ⊎_elim
      (λ same.
        subst (λ a. IsOptimal C a.recipe) (sym same)
          (record {
            upper =
                λ r m. subst (λ a. r.expected_profit_usd ≤ℤ a.highest_profit) same (h.upper r m);
            chosen = tt;
          }))
      (λ t.
        subst (λ a. IsOptimal C a.recipe) (sym t.2)
          (record {
            upper = λ r m. subst (λ a. r.expected_profit_usd ≤ℤ a.highest_profit) t.2 (h.upper r m);
            chosen = (t.1, (let k = t.3 in ground arith));
          }))
      h.chosen

abbrev pub collected : StateStore → UserPosition → Collected
collected s position = collect s position.reserves nothing_collected

module _ (s : StateStore) (user_addr : Text) (position : UserPosition) where
  -- A recipe that one of the collaterals gives.
  abbrev pub Seizes : AssetData → ℤ → List AssetData → LiquidationRecipe → Type 0
  Seizes debt m cols r =
      (col : AssetData) × Memᴰ col cols × (evaluate s user_addr position debt m col ≡ ok (some r))

  -- A recipe that one of the combinations gives.
  abbrev pub Combines : Collected → ℤ → List AssetData → LiquidationRecipe → Type 0
  Combines c hf debts r =
      (debt : AssetData) × (m : ℤ) × Memᴰ debt debts
      × (max_liquidatable_debt c hf debt ≡ ok m)
      × Seizes debt m c.collaterals r

module _ (s : StateStore) (config : IsConfigured s) where
  collect_step-IsCollected :
      (a : Text) (res : UserReserve) (c : Collected)
      → IsCollected c
      → IsCollected (collect_step s a res c)
  unfolding collect_step
  collect_step-IsCollected a res c h = elim (Option-cases (lookup a s.prices)) [
    | inl e ↦ rw (collect_step, e) h
    | inr (price, e) ↦ elim (Option-cases (lookup a s.global_indices)) [
      | inl e1 ↦ rw (collect_step, e, e1) h
      | inr (idx, e1) ↦ elim (Option-cases (lookup a s.asset_configs)) [
        | inl e2 ↦ rw (collect_step, e, e1, e2) h
        | inr (cfg, e2) ↦
            let p = config.prices a price e in
            rw (collect_step, e, e1, e2)
              (collect_collateral-IsCollected a res price idx cfg _ p
                (collect_debt-IsCollected a res price idx cfg c p h))
      ]
    ]
  ]

  collect-IsCollected :
      (reserves : Assoc Text UserReserve) (c : Collected)
      → IsCollected c
      → IsCollected (collect s reserves c)
  unfolding collect
  collect-IsCollected [] c h = h
  collect-IsCollected ((a, res) ∷ reserves) c h =
      collect-IsCollected reserves (collect_step s a res c) (collect_step-IsCollected a res c h)

  module _ (user_addr : Text) (position : UserPosition) where
    collateral_loop_lem :
        (debt : AssetData) (m : ℤ)
        → IsPricedAsset debt
        → (cols : List AssetData) → All IsPricedAsset cols
        → (best : BestRecipe)
        → (after : BestRecipe) × (collateral_loop s user_addr position debt m cols best ≡ ok after)
          × IsBestOf (Seizes s user_addr position debt m cols) best after
    unfolding collateral_loop
    collateral_loop_lem debt m p [] h best = (
      best,
      refl,
      record { grows = omega arith; upper = λ r t. absurd (Memᴰ.not-nil t.1); chosen = inl refl },
    )
    collateral_loop_lem debt m p (col ∷ cols) h best =
        let this = evaluate-IsOk s config debt p user_addr position m col h.0 in
        let rest = collateral_loop_lem debt m p cols h.1 (consider this.0 best) in
        (
          rest.0,
          rw this.1 rest.1,
          IsBestOf-both (λ r. this.0 ≡ some r) (Seizes s user_addr position debt m cols) _ best _ _
              (λ r t.
                ⊎_elim
                  (λ e.
                    let same : evaluate s user_addr position debt m col ≡ ok (some r) =
                      subst (λ x. evaluate s user_addr position debt m x ≡ ok (some r)) e t.2 in
                    inl cc)
                  (λ n. inr (t.0, n, t.2)) (Memᴰ.cases_cons t.1))
              (λ r e. (col, Memᴰ.head refl, this.1 ∙ ap ok e)) (λ r t. (t.0, Memᴰ.tail t.1, t.2))
              (consider_lem this.0 best) rest.2,
        )

    -- A debt has one limit.
    same_debt :
        (c : Collected) (hf : ℤ) (d debt : AssetData) (n m : ℤ) (r : LiquidationRecipe)
        → d ≡ debt
        → max_liquidatable_debt c hf debt ≡ ok m
        → max_liquidatable_debt c hf d ≡ ok n
        → Seizes s user_addr position d n c.collaterals r
        → Seizes s user_addr position debt m c.collaterals r
    same_debt c hf d debt n m r e em en t =
        let en' = subst (λ x. max_liquidatable_debt c hf x ≡ ok n) e en in
        let same : n ≡ m = cc in
        subst (λ x. Seizes s user_addr position x m c.collaterals r) e
          (subst (λ k. Seizes s user_addr position d k c.collaterals r) same t)

    debt_loop_lem :
        (c : Collected) (hf : ℤ)
        → All IsPricedAsset c.collaterals
        → (debts : List AssetData) → All IsPricedAsset debts
        → (best : BestRecipe)
        → (after : BestRecipe) × (debt_loop s user_addr position c hf debts best ≡ ok after)
          × IsBestOf (Combines s user_addr position c hf debts) best after
    unfolding debt_loop
    debt_loop_lem c hf cols [] h best = (
      best,
      refl,
      record { grows = omega arith; upper = λ r t. absurd (Memᴰ.not-nil t.2); chosen = inl refl },
    )
    debt_loop_lem c hf cols (debt ∷ debts) h best =
        let m = max_liquidatable_debt-IsOk s config debt h.0 c hf in
        let inner = collateral_loop_lem debt m.0 h.0 c.collaterals cols best in
        let rest = debt_loop_lem c hf cols debts h.1 inner.0 in
        (
          rest.0,
          rw (m.1, inner.1) rest.1,
          IsBestOf-both (Seizes s user_addr position debt m.0 c.collaterals)
              (Combines s user_addr position c hf debts) _ best inner.0 rest.0
              (λ r t.
                ⊎_elim (λ e. inl (same_debt c hf t.0 debt t.1 m.0 r e m.1 t.3 t.4))
                  (λ n. inr (t.0, t.1, n, t.3, t.4)) (Memᴰ.cases_cons t.2))
              (λ r t. (debt, m.0, Memᴰ.head refl, m.1, t))
              (λ r t. (t.0, t.1, Memᴰ.tail t.2, t.3, t.4)) inner.2 rest.2,
        )

    -- On a store without a zero price, with a bonus above zero in each E-Mode category and in each
    -- asset with a protocol fee, the search for a liquidation ends without a panic; its answer is a
    -- recipe of one of the combinations of a debt and a collateral with a profit above zero, or
    -- none, and no combination gives a higher profit.
    pub calculate_optimal_recipe_lem :
        (hf : ℤ)
        → (best : Option LiquidationRecipe) × (calculate_optimal_recipe s user_addr position hf
            ≡ ok best)
          × IsOptimal
              (Combines s user_addr position (collected s position) hf (collected s position).debts)
              best
    unfolding calculate_optimal_recipe
    calculate_optimal_recipe_lem hf =
        let c =
          collect-IsCollected position.reserves nothing_collected
            (record { debts = tt; collaterals = tt }) in
        let loop =
          debt_loop_lem (collected s position) hf c.collaterals (collected s position).debts c.debts
            no_recipe in
        (loop.0.recipe, rw loop.1 refl, best-IsOptimal _ loop.0 loop.2)
