-- ===== src/Graph/Partitions.antt =====
-- Neighbouring partitions of the users, and what they make up together.
use mathlib.Core.List.{append-nil}
use aave_v3_flash_liquidator.Prelude.{
  ◌≡◌, ◌≢◌, refl, ap, ◌∙◌, true, false, List, [], ◌∷◌, ◌++◌, arith, Bool-cases, inl, inr, All, map,
}
use aave_v3_flash_liquidator.Text.{Text}
use aave_v3_flash_liquidator.Dex.{is_after}
use aave_v3_flash_liquidator.Dex.Fees.{is_after_asym, is_after_total}
use aave_v3_flash_liquidator.Bootstrap.{GraphUser}
use aave_v3_flash_liquidator.Graph.{pair_up}
use aave_v3_flash_liquidator.Graph.Order.{
  is_between, between, IsSorted, AllAfter, AllAfter-weaken, is_after_trans,
}

-- Where all users are after the bound in the middle.
above_middle :
    (gt mid hi : Text) (users : List GraphUser)
    → is_after mid gt ≡ true
    → AllAfter mid users
    → (between gt mid users ≡ []) × (between mid hi users ≡ between gt hi users)
unfolding between
above_middle gt mid hi [] h k = (refl, refl)
above_middle gt mid hi (u ∷ users) h k =
    let (none_below, same) = above_middle gt mid hi users h k.1 in
    let not_below : is_between gt mid u ≡ false = ground (arith, is_after_asym u.id mid k.0) in
    let both : is_between mid hi u ≡ is_between gt hi u =
      ground (arith, k.0, is_after_trans u.id mid gt k.0 h) in
    (rw (between, not_below) none_below, rw (between, both, same) refl)

-- Two neighbouring parts are one part, where no user has the bound between them.
between-append :
    (gt mid hi : Text) (users : List GraphUser)
    → IsSorted users
    → All (λ u. u.id ≢ mid) users
    → is_after mid gt ≡ true
    → is_after hi mid ≡ true
    → between gt mid users ++ between mid hi users ≡ between gt hi users
unfolding between
between-append gt mid hi [] sorted apart h k = refl
between-append gt mid hi (u ∷ users) sorted apart h k =
    let rest = between-append gt mid hi users sorted.1 apart.1 h k in
    elim (Bool-cases (is_after mid u.id)) [
      | inl e ↦
          let up : is_between mid hi u ≡ false = ground (arith, is_after_asym mid u.id e) in
          let same : is_between gt mid u ≡ is_between gt hi u =
            ground (arith, e, is_after_trans hi mid u.id k e) in
          elim (Bool-cases (is_between gt hi u)) [
            | inl e' ↦ rw (between, up, same, e') (ap (λ r. u ∷ r) rest)
            | inr e' ↦ rw (between, up, same, e') rest
          ]
      | inr e ↦
          let after : is_after u.id mid ≡ true = elim (Bool-cases (is_after u.id mid)) [
            | inl a ↦ a
            | inr a ↦ absurd (apart.0 (is_after_total u.id mid a e))
          ] in
          let all_after : AllAfter mid (u ∷ users) =
            (after, AllAfter-weaken u.id mid users after sorted.0) in
          let (none_below, same) = above_middle gt mid hi (u ∷ users) h all_after in
          rw (none_below) same
    ]

abbrev pub join {ℓ} : {A : Type ℓ} → List (List A) → List A
join [] = []
join (xs ∷ xss) = xs ++ join xss

abbrev pub IsAscending : Text → List Text → Type 0
IsAscending gt [] = Unit
IsAscending gt (lt ∷ bounds) = (is_after lt gt ≡ true) × IsAscending lt bounds

abbrev pub last_bound : Text → List Text → Text
last_bound gt [] = gt
last_bound gt (lt ∷ bounds) = last_bound lt bounds

abbrev pub part_of : List GraphUser → Text × Text → List GraphUser
part_of users p = between p.0 p.1 users

last_bound-after :
    (s gt : Text) (bounds : List Text)
    → is_after gt s ≡ true
    → IsAscending gt bounds
    → is_after (last_bound gt bounds) s ≡ true
last_bound-after s gt [] h k = h
last_bound-after s gt (lt ∷ bounds) h k =
    last_bound-after s lt bounds (is_after_trans lt gt s k.0 h) k.1

-- The parts between the bounds make up what is between the first and the last.
pub join-pair_up :
    (users : List GraphUser) (gt lt : Text) (bounds : List Text)
    → IsSorted users
    → IsAscending gt (lt ∷ bounds)
    → All (λ b. All (λ u. u.id ≢ b) users) (lt ∷ bounds)
    → join (map (part_of users) (pair_up gt (lt ∷ bounds)))
      ≡ between gt (last_bound lt bounds) users
join-pair_up users gt lt [] sorted up apart = append-nil (between gt lt users)
join-pair_up users gt lt (next ∷ bounds) sorted up apart =
    ap (λ r. between gt lt users ++ r) (join-pair_up users lt next bounds sorted up.1 apart.1)
    ∙ between-append gt lt (last_bound next bounds) users sorted apart.0 up.0
        (last_bound-after lt next bounds up.1.0 up.1.1)
