-- ===== src/Graph/Order.antt =====
-- Users in the order of their identifiers, and those between two identifiers: what The Graph is
-- asked for.
use aave_v3_flash_liquidator.Prelude.{
  ◌≡◌, refl, ℕ, zero, suc, Bool, true, false, ◌&&◌, Bool-cases, inl, inr, List, [], ◌∷◌, take, drop,
  if◌then◌else◌, All, arith,
}
use aave_v3_flash_liquidator.Text.{Text}
use aave_v3_flash_liquidator.Dex.{is_after}
use aave_v3_flash_liquidator.Dex.Fees.{is_after_asym}
use aave_v3_flash_liquidator.Bootstrap.{GraphUser}
use aave_v3_flash_liquidator.Graph.{last_user}

pub is_after_trans :
    (r s t : Text) → is_after r s ≡ true → is_after s t ≡ true → is_after r t ≡ true
unfolding is_after
is_after_trans [] s t h k = ground (arith, h)
is_after_trans (c ∷ r) [] t h k = ground (arith, k)
is_after_trans (c ∷ r) (d ∷ s) [] h k = refl
is_after_trans (c ∷ r) (d ∷ s) (e ∷ t) h k = ground (arith, is_after_trans r s t)

abbrev pub is_between : Text → Text → GraphUser → Bool
is_between gt lt u = is_after u.id gt && is_after lt u.id

-- The users with an identifier between the two, in their order.
unfoldable pub between : Text → Text → List GraphUser → List GraphUser
between gt lt [] = []
between gt lt (u ∷ users) =
    let rest = between gt lt users in if is_between gt lt u then u ∷ rest else rest

abbrev pub AllAfter : Text → List GraphUser → Type 0
AllAfter s = All (λ u. is_after u.id s ≡ true)

-- Each user before all that follow, so no identifier twice.
abbrev pub IsSorted : List GraphUser → Type 0
IsSorted [] = Unit
IsSorted (u ∷ users) = AllAfter u.id users × IsSorted users

pub AllAfter-weaken :
    (s t : Text) (users : List GraphUser)
    → is_after s t ≡ true
    → AllAfter s users
    → AllAfter t users
AllAfter-weaken s t [] h k = tt
AllAfter-weaken s t (u ∷ users) h k =
    (is_after_trans u.id s t k.0 h, AllAfter-weaken s t users h k.1)

AllAfter-between :
    (s gt lt : Text) (users : List GraphUser) → AllAfter s users → AllAfter s (between gt lt users)
unfolding between
AllAfter-between s gt lt [] h = tt
AllAfter-between s gt lt (u ∷ users) h = elim (Bool-cases (is_between gt lt u)) [
  | inl e ↦ rw (between, e) (h.0, AllAfter-between s gt lt users h.1)
  | inr e ↦ rw (between, e) (AllAfter-between s gt lt users h.1)
]

pub between-IsSorted :
    (gt lt : Text) (users : List GraphUser) → IsSorted users → IsSorted (between gt lt users)
unfolding between
between-IsSorted gt lt [] h = tt
between-IsSorted gt lt (u ∷ users) h = elim (Bool-cases (is_between gt lt u)) [
  | inl e ↦
      rw (between, e) (AllAfter-between u.id gt lt users h.0, between-IsSorted gt lt users h.1)
  | inr e ↦ rw (between, e) (between-IsSorted gt lt users h.1)
]

-- Asking again from a later identifier gives a part of what was asked for.
pub between_later :
    (s gt lt : Text) (users : List GraphUser)
    → is_after s gt ≡ true
    → between s lt (between gt lt users) ≡ between s lt users
unfolding between
between_later s gt lt [] h = refl
between_later s gt lt (u ∷ users) h =
    let rest = between_later s gt lt users h in
    elim (Bool-cases (is_between s lt u)) [
      | inl e ↦
          let inner : is_between gt lt u ≡ true = ground (arith, is_after_trans u.id s gt, e, h) in
          rw (between, inner, e, rest) refl
      | inr e ↦ elim (Bool-cases (is_between gt lt u)) [
        | inl e' ↦ rw (between, e', e, rest) refl
        | inr e' ↦ rw (between, e', e, rest) refl
      ]
    ]

abbrev pub AllBelow : Text → List GraphUser → Type 0
AllBelow lt = All (λ u. is_after lt u.id ≡ true)

pub between-AllBelow : (gt lt : Text) (users : List GraphUser) → AllBelow lt (between gt lt users)
unfolding between
between-AllBelow gt lt [] = tt
between-AllBelow gt lt (u ∷ users) = elim (Bool-cases (is_between gt lt u)) [
  | inl e ↦ rw (between, e) (ground (arith, e), between-AllBelow gt lt users)
  | inr e ↦ rw (between, e) (between-AllBelow gt lt users)
]

pub between-AllAfter : (gt lt : Text) (users : List GraphUser) → AllAfter gt (between gt lt users)
unfolding between
between-AllAfter gt lt [] = tt
between-AllAfter gt lt (u ∷ users) = elim (Bool-cases (is_between gt lt u)) [
  | inl e ↦ rw (between, e) (ground (arith, e), between-AllAfter gt lt users)
  | inr e ↦ rw (between, e) (between-AllAfter gt lt users)
]

pub between_all :
    (gt lt : Text) (users : List GraphUser)
    → AllAfter gt users
    → AllBelow lt users
    → between gt lt users ≡ users
unfolding between
between_all gt lt [] h k = refl
between_all gt lt (u ∷ users) h k = rw (between, h.0, k.0, between_all gt lt users h.1 k.1) refl

pub last_user-AllAfter :
    (s : Text) (k : ℕ) (u : GraphUser) (users : List GraphUser)
    → AllAfter s (u ∷ users)
    → is_after (last_user u (take k users)).id s ≡ true
unfolding last_user
last_user-AllAfter s zero u users h = h.0
last_user-AllAfter s (suc k) u [] h = h.0
last_user-AllAfter s (suc k) u (v ∷ users) h = last_user-AllAfter s k v users h.1

skip_first :
    (s lt : Text) (u : GraphUser) (users : List GraphUser)
    → is_after s u.id ≡ true
    → between s lt (u ∷ users) ≡ between s lt users
unfolding between
skip_first s lt u users h = let e = is_after_asym s u.id h in rw (between, e) refl

pub is_after_irrefl : (s : Text) → is_after s s ≡ false
is_after_irrefl s = elim (Bool-cases (is_after s s)) [ inl e ↦ is_after_asym s s e | inr e ↦ e ]

skip_self :
    (lt : Text) (u : GraphUser) (users : List GraphUser)
    → between u.id lt (u ∷ users) ≡ between u.id lt users
unfolding between
skip_self lt u users = rw (between, is_after_irrefl u.id) refl

-- After a page with the first users in order, the users that are left are those after its last.
pub between-last_user :
    (lt : Text) (k : ℕ) (u : GraphUser) (users : List GraphUser)
    → IsSorted (u ∷ users)
    → AllBelow lt (u ∷ users)
    → between (last_user u (take k users)).id lt (u ∷ users) ≡ drop k users
unfolding last_user between
between-last_user lt zero u users h b =
    rw (skip_self lt u users) (between_all u.id lt users h.0 b.1)
between-last_user lt (suc k) u [] h b = skip_self lt u []
between-last_user lt (suc k) u (v ∷ users) h b =
    rw (skip_first _ lt u (v ∷ users) (last_user-AllAfter u.id k v users h.0))
      (between-last_user lt k v users h.1 b.1)
