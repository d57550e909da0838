-- ===== src/Strategy/Bounds.antt =====
-- `liquidation_amounts` and `max_liquidatable_debt` on natural amounts and prices.
use native.Mathlib.Nat.{mul-pos, mul-le-mul_right, le_of_mul-le-mul_right}
use aave_v3_flash_liquidator.Prelude.{
  ℕ, zero, suc, ◌+◌, ◌-◌, ◌*◌, ◌/◌, ◌≤◌, ◌<◌, ◌≡◌, refl, ◌∙◌, ap, inl, inr, Bool-cases, Bool, ◌&&◌,
  leb_ℤ, div_bounds, arith, div_unique, if◌then◌else◌, ℤ, pos, ◌+ℤ◌, ◌-ℤ◌, ◌*ℤ◌, div_ℤ, ltb_ℤ, ◌^◌,
}
use aave_v3_flash_liquidator.Run.{ok, div_go}
use aave_v3_flash_liquidator.Risk.Health.{unit_of}
use aave_v3_flash_liquidator.Strategy.{
  AssetData, Collected, max_liquidatable_debt, value_in_base_currency,
  min_base_max_close_factor_threshold, close_factor_hf_threshold, liquidation_amounts,
  percent_div_ceil,
}
use aave_v3_flash_liquidator.Strategy.Amounts.{seized, needed, seized_worth, cover_bounds}

ten_pow_pos : (d : ℕ) → 0 < 10 ^ d
ten_pow_pos zero = omega arith
ten_pow_pos (suc d) = let h = ten_pow_pos d in omega arith

pub unit_of_pos : (d : ℕ) → 0 < unit_of d
unfolding unit_of
unit_of_pos d = ground (arith, ten_pow_pos d)

percent_div_ceil-pos :
    (v w : ℕ) → 0 < w → percent_div_ceil (pos v) (pos w) ≡ pos ((v * 10000 + w - 1) / w)
unfolding percent_div_ceil div_ℤ ◌*ℤ◌ ◌+ℤ◌ ◌-ℤ◌
percent_div_ceil-pos v w h =
    let at_zero : (w - 1) / w ≡ 0 = div_unique (w - 1) w 0 (omega arith) (omega arith) in
    ground arith

div_go-pos : (a b : ℕ) → 0 < b → div_go (pos a) (pos b) ≡ ok (pos (a / b))
unfolding div_go div_ℤ
div_go-pos a b h = ground arith

-- The answer of `liquidation_amounts` for `max_debt` units of debt: no more than these, no more
-- than the balance of the collateral, and worth no more than the debt with the bonus and a unit.
pub record IsCovered (debt_worth col_worth max_debt balance bonus cover taken : ℕ) : Type 0 where
  pub debt : cover ≤ max_debt
  pub collateral : taken ≤ balance
  pub worth : taken * col_worth * 10000 ≤ (cover * bonus + 10000) * debt_worth

module _ (debt col : AssetData) (m pd pc b w : ℕ) (pd_pos : 0 < pd) (pc_pos : 0 < pc)
    (debt_price : debt.price ≡ pos pd) (col_price : col.price ≡ pos pc)
    (col_balance : col.balance ≡ pos b) where
  abbrev du : ℕ
  du = unit_of debt.decimals

  abbrev cu : ℕ
  cu = unit_of col.decimals

  abbrev p : ℕ
  p = pd * cu

  abbrev q : ℕ
  q = pc * du

  p_pos : 0 < p
  p_pos = mul-pos pd_pos (unit_of_pos _)

  q_pos : 0 < q
  q_pos = mul-pos pc_pos (unit_of_pos _)

  amounts_eq : liquidation_amounts debt col (pos m) w ≡ (
      if ltb_ℤ (pos b) (pos (seized m b p q w p_pos q_pos))
      then ok (percent_div_ceil (pos (needed m b p q w p_pos q_pos)) (pos w), pos b)
      else ok (pos m, pos (seized m b p q w p_pos q_pos)))
  unfolding liquidation_amounts div_ℤ ◌*ℤ◌
  amounts_eq =
      let e1 : pd * m * cu ≡ m * p = omega arith in
      let e2 : pc * b * du ≡ b * q = omega arith in
      rw (debt_price, col_price, col_balance, e1, e2, div_go-pos _ q q_pos, div_go-pos _ p p_pos)
        refl

  -- With positive prices and natural amounts, the amounts of a liquidation exist; the debt to cover
  -- is at most the limit, the collateral at most the balance, and 10000 times the worth of the
  -- collateral at most that of the debt with the bonus factor and one unit.
  pub liquidation_amounts_lem :
      (cover taken : ℕ) × (liquidation_amounts debt col (pos m) w ≡ ok (pos cover, pos taken))
      × IsCovered p q m b w cover taken
  liquidation_amounts_lem = elim (Bool-cases (ltb_ℤ (pos b) (pos (seized m b p q w p_pos q_pos)))) [
    | inl e ↦
        let above : b < seized m b p q w p_pos q_pos = ground arith in
        let w_pos : 0 < w = ground arith in
        let h = cover_bounds m b p q w p_pos q_pos w_pos above in
        (
          _,
          b,
          amounts_eq ∙ rw (e, percent_div_ceil-pos _ w w_pos) refl,
          record { debt = h.0; collateral = omega arith; worth = h.1 },
        )
    | inr e ↦
        let within : seized m b p q w p_pos q_pos ≤ b = ground arith in
        let h = seized_worth m b p q w p_pos q_pos in
        (
          m,
          _,
          amounts_eq ∙ rw e refl,
          record { debt = omega arith; collateral = within; worth = omega arith },
        )
  ]

-- Whether the close factor of one half applies.
abbrev pub is_close_factor_half : Collected → ℤ → Bool
is_close_factor_half c hf =
    leb_ℤ min_base_max_close_factor_threshold c.total_collateral_in_base
    && leb_ℤ min_base_max_close_factor_threshold c.total_debt_in_base
    && ltb_ℤ close_factor_hf_threshold hf

half_limit :
    (b t p unit : ℕ)
    → 0 < p
    → 0 < unit
    → t < b * p / unit
    → (t * unit / p ≤ b) × (t * unit / p * p / unit ≤ t)
half_limit b t p unit p_pos unit_pos h =
    let h1 = (div_bounds (b * p) unit unit_pos).0 in
    let h2 = mul-le-mul_right unit h in
    let h3 = (div_bounds (t * unit) p p_pos).0 in
    (
      le_of_mul-le-mul_right {m = t * unit / p} {n = b} {k = p} (omega arith) p_pos,
      le_of_mul-le-mul_right {k = unit}
          (let h4 = (div_bounds (t * unit / p * p) unit unit_pos).0 in omega arith) unit_pos,
    )

module _ (c : Collected) (hf : ℤ) (debt : AssetData) (p b t : ℕ) (p_pos : 0 < p)
    (price : debt.price ≡ pos p) (balance : debt.balance ≡ pos b)
    (total : c.total_debt_in_base ≡ pos t) where
  -- With a positive price and natural amounts, the limit of a debt exists and is at most the debt;
  -- it is worth at most half of all debts where the close factor of one half applies, and at most
  -- the debt elsewhere.
  pub max_liquidatable_debt_bounded :
      (m : ℕ) × (max_liquidatable_debt c hf debt ≡ ok (pos m))
      × (m ≤ b)
      × (m * p / unit_of debt.decimals
          ≤ (if is_close_factor_half c hf then t * 5000 / 10000 else b * p / unit_of debt.decimals))
  unfolding max_liquidatable_debt value_in_base_currency div_ℤ ◌*ℤ◌
  max_liquidatable_debt_bounded = elim (Bool-cases (is_close_factor_half c hf)) [
    | inr e ↦ rw (max_liquidatable_debt, e) (b, ap ok balance, omega arith, omega arith)
    | inl e ↦
        let unit = unit_of debt.decimals in
        let half : ℕ = t * 5000 / 10000 in
        elim (Bool-cases (ltb_ℤ (pos half) (pos (b * p / unit)))) [
          | inl above ↦
              let h = half_limit b half p unit p_pos (unit_of_pos _) (ground arith) in
              (
                half * unit / p,
                rw (max_liquidatable_debt, e, total, price, balance, above) (div_go-pos _ p p_pos),
                h.0,
                rw e h.1,
              )
          | inr below ↦ (
            b,
            rw (max_liquidatable_debt, e, total, price, balance, below) refl,
            omega arith,
            rw e (ground arith),
          )
        ]
  ]
