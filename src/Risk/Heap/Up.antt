-- ===== src/Risk/Heap/Up.antt =====
-- `up` of container/heap.
use aave_v3_flash_liquidator.Prelude.{ℕ, zero, suc, ◌≤◌, ◌<◌, ◌≡◌, ltb_ℤ, ◌==◌, arith, true}
use aave_v3_flash_liquidator.Run.{ok, Ends, ends, Ends-weaken, Ends-if}
use aave_v3_flash_liquidator.Risk.Heap.{RiskHeap, up_loop, up}
use aave_v3_flash_liquidator.Risk.Heap.Swap.{
  key, size, IsIndexed, after, key-after, heap_less-ok, heap_swap-ok,
}
use aave_v3_flash_liquidator.Risk.Heap.Order.{
  parent, IsHeapUpTo, IsRising, IsSifted, IsSifted-refl, IsSifted-trans, after-IsSifted,
}

after-IsRising :
    (n : ℕ) (h : RiskHeap) (j : ℕ) (hi : parent j < size h) (hj : j < size h)
    → 0 < j
    → j < n
    → IsRising n h j
    → ltb_ℤ (key h j) (key h (parent j)) ≡ true
    → IsRising n (after h (parent j) j hi hj) (parent j)
after-IsRising n h j hi hj p q v below =
    let moved = key-after h (parent j) j hi hj in
    record {
      edges = λ c r s t.
          ground (arith, moved c, moved (parent c), v.edges c, v.bridge c, v.edges (parent j));
      bridge = λ c r s t u.
          ground (arith, moved c, moved (parent (parent j)), v.edges c, v.edges (parent j));
    }

up_loop-Ends :
    (fuel n : ℕ) (h : RiskHeap) (j : ℕ)
    → j < fuel
    → j < n
    → n ≤ size h
    → IsIndexed h
    → IsRising n h j
    → Ends (λ h'. IsSifted n h h' × IsHeapUpTo n h') (up_loop fuel h j)
unfolding up_loop
up_loop-Ends zero n h j f p q d v = absurd (omega arith)
up_loop-Ends (suc fuel) n h j f p q d v =
    let hi : parent j < size h = omega arith in
    let hj : j < size h = omega arith in
    let done : IsHeapUpTo n h → Ends (λ h'. IsSifted n h h' × IsHeapUpTo n h') (ok h) =
      λ o. ends (IsSifted-refl n h d, o) in
    Ends-if (parent j == j) (λ root. done (λ c r s. ground (arith, v.edges c)))
      (λ inner.
        rw (heap_less-ok h j (parent j) hj hi, heap_swap-ok h (parent j) j hi hj)
          (Ends-if (ltb_ℤ (key h j) (key h (parent j)))
            (λ below.
              let step = after-IsSifted n h (parent j) j hi hj (omega arith) p d in
              Ends-weaken (λ h' r. (IsSifted-trans n step r.0, r.1))
                (up_loop-Ends fuel n (after h (parent j) j hi hj) (parent j) (ground arith)
                  (omega arith) (omega (arith, step.shuffled.length)) step.shuffled.indexed
                  (after-IsRising n h j hi hj (ground arith) p v below)))
            (λ above. done (λ c r s. ground (arith, v.edges c)))))

pub up-Ends :
    (n : ℕ) (h : RiskHeap) (j : ℕ)
    → j < n
    → n ≤ size h
    → IsIndexed h
    → IsRising n h j
    → Ends (λ h'. IsSifted n h h' × IsHeapUpTo n h') (up h j)
unfolding up
up-Ends n h j p q d v = up_loop-Ends (suc j) n h j (omega arith) p q d v
