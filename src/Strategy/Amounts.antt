-- ===== src/Strategy/Amounts.antt =====
-- The debt to cover and the collateral taken for it, as numbers: bounds, and the worth of the one
-- against the other.
use native.Mathlib.Nat.{mul-le-mul_right, le_of_mul-le-mul_right}
use aave_v3_flash_liquidator.Prelude.{ℕ, ◌+◌, ◌-◌, ◌*◌, ◌/◌, ◌≤◌, ◌<◌, arith, div_bounds}

-- With `m` units of debt and `b` of collateral, `p` and `q` the worth of one unit of each in a
-- common unit, and a bonus factor of `w`.
module _ (m b p q w : ℕ) (p_pos : 0 < p) (q_pos : 0 < q) where
  abbrev pub base : ℕ
  base = m * p / q

  abbrev pub seized : ℕ
  seized = base * w / 10000

  abbrev pub needed : ℕ
  needed = b * q / p

  pub seized_worth : seized * q * 10000 ≤ m * p * w
  seized_worth =
      let h1 = (div_bounds (m * p) q q_pos).0 in
      let h2 : seized * 10000 ≤ base * w = omega arith in
      let h3 = mul-le-mul_right w h1 in let h4 = mul-le-mul_right q h2 in omega arith

  -- A seizure above the balance needs less than `m` units of debt.
  pub needed_small : b < seized → needed * 10000 ≤ m * w
  needed_small h =
      let h1 = (div_bounds (b * q) p p_pos).0 in
      let h2 = seized_worth in
      let h3 = mul-le-mul_right q h in
      let h4 : needed * 10000 * p ≤ m * w * p = omega arith in le_of_mul-le-mul_right h4 p_pos

  -- The debt that a seizure of `b` asks for, rounded up.
  pub cover_bounds :
      0 < w
      → b < seized
      → ((needed * 10000 + w - 1) / w ≤ m)
        × (b * q * 10000 ≤ ((needed * 10000 + w - 1) / w * w + 10000) * p)
  cover_bounds w_pos h =
      let h1 = (div_bounds (b * q) p p_pos).1 in
      let h2 = div_bounds (needed * 10000 + w - 1) w w_pos in
      let cover : ℕ = (needed * 10000 + w - 1) / w in
      let small = needed_small h in
      let h3 : cover * w < m * w + w = omega arith in
      let h4 : needed * 10000 ≤ cover * w = omega arith in
      let h5 = mul-le-mul_right p h4 in (grind arith, omega arith)
