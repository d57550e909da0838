-- ===== src/Risk/Heap/Calls.antt =====
-- `heap.Push`, `heap.Fix` and `heap.Init` of container/heap.
use aave_v3_flash_liquidator.Prelude.{
  ℕ, zero, suc, ◌-◌, ◌≤◌, ◌<◌, ◌≡◌, ◌≢◌, refl, ap, ◌∙◌, List, [], ◌∷◌, ◌++◌, if◌then◌else◌, ◌==◌,
  pos, arith, length, length-append, get_or,
}
use aave_v3_flash_liquidator.Run.{Ends, Ends-weaken}
use aave_v3_flash_liquidator.Risk.Heap.{RiskHeap, heap_append, heap_push, heap_fix}
use aave_v3_flash_liquidator.Risk.Heap.Swap.{place, key, size, IsIndexed, IsShuffled}
use aave_v3_flash_liquidator.Risk.Heap.Order.{parent, IsHeapUpTo, IsRising, IsLoose, IsSifted}
use aave_v3_flash_liquidator.Risk.Heap.Up.{up-Ends}
use aave_v3_flash_liquidator.Risk.Heap.Down.{sift-Ends}

-- All positions are in order and stored in their items.
pub record IsHeap (h : RiskHeap) : Type 0 where
  pub indexed : IsIndexed h
  pub order : IsHeapUpTo (size h) h

IsHeap-sifted :
    (n : ℕ) (h h' : RiskHeap) → size h ≡ n → IsSifted n h h' → IsHeapUpTo n h' → IsHeap h'
IsHeap-sifted n h h' e s o = record {
  indexed = s.shuffled.indexed;
  order = λ c p q. o c p (omega (arith, s.shuffled.length));
}

get_or-append :
    (xs : List ℕ) (p c : ℕ)
    → c ≤ length xs
    → get_or (xs ++ p ∷ []) c 0 ≡ (if c == length xs then p else get_or xs c 0)
get_or-append [] p zero h = refl
get_or-append [] p (suc c) h = absurd (omega arith)
get_or-append (x ∷ xs) p zero h = ground arith
get_or-append (x ∷ xs) p (suc c) h = ground (arith, get_or-append xs p c)

module _ (h : RiskHeap) (p : ℕ) where
  pub size-heap_append : size (heap_append h p) ≡ suc (size h)
  unfolding heap_append
  size-heap_append = ground (arith, length-append h.slots (p ∷ []))

  pub place-heap_append :
      (c : ℕ) → c ≤ size h → place (heap_append h p) c ≡ (if c == size h then p else place h c)
  unfolding heap_append place
  place-heap_append c q = get_or-append h.slots p c q

  cell-heap_append :
      (q : ℕ)
      → ((heap_append h p).cell q).index ≡ (if p == q then pos (size h) else (h.cell q).index)
  unfolding heap_append
  cell-heap_append q = ground arith

  factor-heap_append : (q : ℕ) → ((heap_append h p).cell q).health_factor ≡ (h.cell q).health_factor
  unfolding heap_append
  factor-heap_append q = ground arith

  key-heap_append : (c : ℕ) → c < size h → key (heap_append h p) c ≡ key h c
  unfolding key
  key-heap_append c q =
      factor-heap_append (place (heap_append h p) c)
      ∙ ap (λ r. (h.cell r).health_factor) (ground (arith, place-heap_append c))

  module _ (heap : IsHeap h) (fresh : (c : ℕ) → c < size h → place h c ≢ p) where
    heap_append-IsIndexed : IsIndexed (heap_append h p)
    heap_append-IsIndexed c q = ground (
      arith,
      size-heap_append,
      place-heap_append c,
      cell-heap_append (place (heap_append h p) c),
      fresh c,
      heap.indexed c,
    )

    heap_append-IsRising : IsRising (suc (size h)) (heap_append h p) (size h)
    heap_append-IsRising = record {
      edges =
          λ c r s t. ground (arith, key-heap_append c, key-heap_append (parent c), heap.order c);
      bridge = λ c r s t u. absurd (omega arith);
    }

    pub heap_push-Ends : Ends (λ h'. IsShuffled (heap_append h p) h' × IsHeap h') (heap_push h p)
    unfolding heap_push
    heap_push-Ends =
        let h' = heap_append h p in
        let last : size h' - 1 ≡ size h = omega (arith, size-heap_append) in
        rw last (
          Ends-weaken
            (λ g s. (s.0.shuffled, IsHeap-sifted (suc (size h)) h' g size-heap_append s.0 s.1))
            (up-Ends (suc (size h)) h' (size h) (omega arith) (omega (arith, size-heap_append))
              heap_append-IsIndexed heap_append-IsRising))

pub heap_fix-Ends :
    (h : RiskHeap) (i : ℕ)
    → i < size h
    → IsIndexed h
    → IsLoose (size h) h i
    → Ends (λ h'. IsShuffled h h' × IsHeap h') (heap_fix h (pos i))
unfolding heap_fix
heap_fix-Ends h i p d v =
    Ends-weaken (λ g s. (s.0.shuffled, IsHeap-sifted (size h) h g refl s.0 s.1))
      (sift-Ends (size h) h i p (omega arith) d v)
