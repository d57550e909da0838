-- ===== src/Risk/Heap/Order.antt =====
-- The heap order among the first `n` positions, and what is left of it while an item moves.
use aave_v3_flash_liquidator.Prelude.{ℕ, ◌-◌, ◌/◌, ◌≤◌, ◌<◌, ◌≡◌, ◌≢◌, refl, ◌∙◌, ◌≤ℤ◌, arith}
use aave_v3_flash_liquidator.Risk.Heap.{RiskHeap}
use aave_v3_flash_liquidator.Risk.Heap.Swap.{
  place, key, size, IsIndexed, IsShuffled, IsShuffled-refl, IsShuffled-trans, after, place-after,
  after-IsShuffled,
}

abbrev pub parent : ℕ → ℕ
parent c = (c - 1) / 2

-- The item at `c` is not lower than the one above it.
abbrev pub IsEdge : RiskHeap → ℕ → Type 0
IsEdge h c = key h (parent c) ≤ℤ key h c

abbrev pub IsHeapUpTo : ℕ → RiskHeap → Type 0
IsHeapUpTo n h = (c : ℕ) → 0 < c → c < n → IsEdge h c

-- The items below `i` are not lower than the one above `i`.
abbrev pub IsBridge : ℕ → RiskHeap → ℕ → Type 0
IsBridge n h i = (c : ℕ) → 0 < c → c < n → parent c ≡ i → 0 < i → key h (parent i) ≤ℤ key h c

-- All edges are in order but the one above `i`.
pub record IsRising (n : ℕ) (h : RiskHeap) (i : ℕ) : Type 0 where
  pub edges : (c : ℕ) → 0 < c → c < n → c ≢ i → IsEdge h c
  pub bridge : IsBridge n h i

-- All edges are in order but those next to `i`.
pub record IsLoose (n : ℕ) (h : RiskHeap) (i : ℕ) : Type 0 where
  pub edges : (c : ℕ) → 0 < c → c < n → c ≢ i → parent c ≢ i → IsEdge h c
  pub bridge : IsBridge n h i

-- The first `n` positions are shuffled, the others left.
pub record IsSifted (n : ℕ) (h h' : RiskHeap) : Type 0 where
  pub shuffled : IsShuffled h h'
  pub outside : (c : ℕ) → n ≤ c → place h' c ≡ place h c

pub IsSifted-refl : (n : ℕ) (h : RiskHeap) → IsIndexed h → IsSifted n h h
IsSifted-refl n h d = record { shuffled = IsShuffled-refl d; outside = λ c p. refl }

pub IsSifted-trans : (n : ℕ) {h g k : RiskHeap} → IsSifted n h g → IsSifted n g k → IsSifted n h k
IsSifted-trans n f s = record {
  shuffled = IsShuffled-trans f.shuffled s.shuffled;
  outside = λ c p. s.outside c p ∙ f.outside c p;
}

pub after-IsSifted :
    (n : ℕ) (h : RiskHeap) (i j : ℕ) (hi : i < size h) (hj : j < size h)
    → i < n
    → j < n
    → IsIndexed h
    → IsSifted n h (after h i j hi hj)
after-IsSifted n h i j hi hj p q d = record {
  shuffled = after-IsShuffled h i j hi hj d;
  outside = λ c r. ground (arith, place-after h i j hi hj c);
}
