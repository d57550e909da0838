-- ===== src/Ray/Rounding.antt =====
-- The rounding of `ray_mul` and `ray_div`.
use aave_v3_flash_liquidator.Prelude.{
  div_bounds, div_unique, ℕ, ◌+◌, ◌*◌, ◌/◌, ◌≤◌, ◌<◌, ◌≡◌, refl, ℤ, pos, negsuc, ◌≤ℤ◌, arith, ◌==◌,
  ap, Bool-cases, inl, inr,
}
use aave_v3_flash_liquidator.Ray.{ray, ray_mul, ray_div}

pub ray_mul-pos : (a b : ℕ) → ray_mul (pos a) (pos b) ≡ pos ((a * b + ray / 2) / ray)
unfolding ray_mul
ray_mul-pos a b = refl

pub ray_div-pos : (a b : ℕ) → 0 < b → ray_div (pos a) (pos b) ≡ pos ((a * ray + b / 2) / b)
unfolding ray_div
ray_div-pos a b h = ground arith

-- The product of numbers of zero or more lies within half a unit of the exact product, and a half
-- is rounded up.
pub ray_mul_rounds :
    (a b : ℕ)
    → (r : ℕ) × (ray_mul (pos a) (pos b) ≡ pos r)
      × (2 * (r * ray) ≤ 2 * (a * b) + ray)
      × (2 * (a * b) + ray < 2 * (r * ray) + 2 * ray)
ray_mul_rounds a b = ((a * b + ray / 2) / ray, ray_mul-pos a b, omega arith, omega arith)

-- The quotient of a number of zero or more by a number above zero lies within half a unit of the
-- exact quotient.
pub ray_div_rounds :
    (a b : ℕ)
    → 0 < b
    → (r : ℕ) × (ray_div (pos a) (pos b) ≡ pos r)
      × (2 * (r * b) ≤ 2 * (a * ray) + b)
      × (2 * (a * ray) + b < 2 * (r * b) + 2 * b + 1)
ray_div_rounds a b h =
    ((a * ray + b / 2) / b, ray_div-pos a b h, grind (arith, div_bounds), grind (arith, div_bounds))

-- With an index of at least one RAY, a balance that is scaled up by the index and down again is
-- unchanged.
pub ray_div-ray_mul : (a i : ℕ) → ray ≤ i → ray_div (ray_mul (pos a) (pos i)) (pos i) ≡ pos a
ray_div-ray_mul a i h =
    rw (ray_mul-pos, ray_div-pos ((a * i + ray / 2) / ray) i (omega arith))
      (ap pos (elim (Bool-cases (i == ray)) [
        | inl e ↦
            let at_ray : i ≡ ray = ground arith in
            rw at_ray (div_unique _ _ a (omega arith) (omega arith))
        | inr e ↦ let above : ray < i = ground arith in div_unique _ _ a (omega arith) (omega arith)
      ]))

pub ray_div_nonneg : (a b : ℤ) → pos 0 ≤ℤ a → pos 0 ≤ℤ b → pos 0 ≤ℤ ray_div a b
unfolding ray_div
ray_div_nonneg (pos a) (pos b) p q = ground arith
ray_div_nonneg (pos a) (negsuc b) p q = absurd (omega arith)
ray_div_nonneg (negsuc a) b p q = absurd (omega arith)
