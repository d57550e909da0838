-- ===== src/Ray.antt =====
-- Fixed-point arithmetic of pkg/math/math.go: numbers scaled by 10^27 (RAY) and 10^18 (WAD).
pub mod Rounding
use aave_v3_flash_liquidator.Prelude.{
  ◌^◌, ◌*◌, ℕ, ℤ, pos, ◌+ℤ◌, ◌*ℤ◌, div_ℤ, is_zero, if◌then◌else◌,
}

abbrev pub dust_threshold : ℤ
dust_threshold = pos 10

abbrev pub ray : ℕ
ray = 10 ^ 27

abbrev pub wad : ℕ
wad = 10 ^ 18

abbrev pub hf_safety_threshold : ℤ
hf_safety_threshold = pos (105 * 10 ^ 16)

abbrev pub hf_liquidation_threshold : ℤ
hf_liquidation_threshold = pos wad

unfoldable pub ray_div : ℤ → ℤ → ℤ
unfolding ◌+ℤ◌ ◌*ℤ◌ div_ℤ
ray_div a b =
    if is_zero b then pos 0 else (let half_b = div_ℤ b (pos 2) in div_ℤ (a *ℤ pos ray +ℤ half_b) b)

unfoldable pub ray_mul : ℤ → ℤ → ℤ
unfolding ◌+ℤ◌ ◌*ℤ◌ div_ℤ
ray_mul a b = let half_ray = div_ℤ (pos ray) (pos 2) in div_ℤ (a *ℤ b +ℤ half_ray) (pos ray)
