-- ===== src/Dex/Fees.antt =====
-- `GetOptimalFee` and the order of the two assets.
use aave_v3_flash_liquidator.Prelude.{
  ◌≡◌, refl, ap, true, false, [], ◌∷◌, lookup, arith, Bool-cases, inl, inr,
}
use aave_v3_flash_liquidator.Text.{Text, text_eq, to_lower}
use aave_v3_flash_liquidator.Dex.{is_after, sort_pair, pair_key, FeeCache, get_optimal_fee}

pub is_after_asym : (s t : Text) → is_after s t ≡ true → is_after t s ≡ false
unfolding is_after
is_after_asym [] t h = ground arith
is_after_asym (c ∷ s) [] h = refl
is_after_asym (c ∷ s) (d ∷ t) h = ground (arith, is_after_asym s t)

pub is_after_total : (s t : Text) → is_after s t ≡ false → is_after t s ≡ false → s ≡ t
unfolding is_after
is_after_total [] [] h k = refl
is_after_total [] (d ∷ t) h k = ground arith
is_after_total (c ∷ s) [] h k = ground arith
is_after_total (c ∷ s) (d ∷ t) h k = ground (arith, is_after_total s t)

sort_pair_comm : (a b : Text) → sort_pair a b ≡ sort_pair b a
unfolding sort_pair
sort_pair_comm a b = elim (Bool-cases (is_after a b)) [
  | inl e ↦ rw (sort_pair, e, is_after_asym a b e) refl
  | inr e ↦ elim (Bool-cases (is_after b a)) [
    | inl e' ↦ rw (sort_pair, e, e') refl
    | inr e' ↦ rw (sort_pair, e, e') (let same = is_after_total a b e e' in cc)
  ]
]

-- The fee of two assets does not depend on their order.
pub get_optimal_fee_comm :
    (fc : FeeCache) (a b : Text) → get_optimal_fee fc a b ≡ get_optimal_fee fc b a
unfolding get_optimal_fee
get_optimal_fee_comm fc a b =
    ap (λ p. lookup (pair_key p) fc.best_fees) (sort_pair_comm (to_lower a) (to_lower b))
