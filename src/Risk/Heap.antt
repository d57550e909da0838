-- ===== src/Risk/Heap.antt =====
-- `RiskHeap` of internal/models/risk.go under the functions of Go's container/heap. The heap is a
-- slice of pointers: a list of places in the memory `cell`. An index out of range panics.
pub mod Swap
pub mod Order
pub mod Down
pub mod Up
pub mod Calls
pub mod Removal
use aave_v3_flash_liquidator.Prelude.{
  ℕ, zero, suc, ◌+◌, ◌-◌, ◌*◌, ◌/◌, Bool, true, false, List, [], ◌∷◌, ◌++◌, Option, none, some, ltb,
  ◌==◌, if◌then◌else◌, ℤ, pos, negsuc, ltb_ℤ, length, get_elem?, set, take,
}
use aave_v3_flash_liquidator.Models.{UserRiskItem}
use aave_v3_flash_liquidator.Run.{Run, ok, panic, ◌>>=◌}

pub record RiskHeap : Type 0 where
  pub cell : ℕ → UserRiskItem
  pub slots : List ℕ

-- `h[i]`
unfoldable pub at : RiskHeap → ℕ → Run ℕ
at h i = elim (get_elem? h.slots i) [ none ↦ panic | some p ↦ ok p ]

-- A write through a pointer.
abbrev pub write : (ℕ → UserRiskItem) → ℕ → (UserRiskItem → UserRiskItem) → ℕ → UserRiskItem
write cell p f q = if p == q then f (cell q) else cell q

abbrev pub set_index : ℤ → UserRiskItem → UserRiskItem
set_index i item = record item { index = i }

unfoldable pub heap_less : RiskHeap → ℕ → ℕ → Run Bool
heap_less h i j = do
  p ← at h i
  q ← at h j
  ok (ltb_ℤ (h.cell p).health_factor (h.cell q).health_factor)

unfoldable pub heap_swap : RiskHeap → ℕ → ℕ → Run RiskHeap
heap_swap h i j = do
  q ← at h j
  p ← at h i
  ok (record {
    cell = write (write h.cell q (set_index (pos i))) p (set_index (pos j));
    slots = set (set h.slots i q) j p;
  })

-- `Push` and `Pop` of the slice; `Pop` gives the place of the item that leaves.
unfoldable pub heap_append : RiskHeap → ℕ → RiskHeap
heap_append h p = record {
  cell = write h.cell p (set_index (pos (length h.slots)));
  slots = h.slots ++ p ∷ [];
}

unfoldable pub heap_pop_last : RiskHeap → Run (ℕ × RiskHeap)
heap_pop_last h = at h (length h.slots - 1) >>= λ p. ok (
  p,
  record {
    cell = write h.cell p (set_index (negsuc 0));
    slots = take (length h.slots - 1) h.slots;
  },
)

-- `up` of container/heap. The fuel is one more than the position; each round halves it.
unfoldable pub up_loop : ℕ → RiskHeap → ℕ → Run RiskHeap
up_loop zero h j = panic
up_loop (suc fuel) h j =
    let i = (j - 1) / 2 in
    let rise = heap_swap h i j >>= λ h'. up_loop fuel h' i in
    if i == j then ok h else heap_less h j i >>= λ below. if below then rise else ok h

unfoldable pub up : RiskHeap → ℕ → Run RiskHeap
up h j = up_loop (suc j) h j

-- The child of `i` with the lower health factor, among the first `n`.
unfoldable pub lower_child : RiskHeap → ℕ → ℕ → Run ℕ
lower_child h i n =
    let j1 = 2 * i + 1 in
    let j2 = j1 + 1 in
    if ltb j2 n then (heap_less h j2 j1 >>= λ below. ok (if below then j2 else j1)) else ok j1

-- `down` of container/heap, with the last position reached. The fuel is one more than `n`.
unfoldable pub down_loop : ℕ → RiskHeap → ℕ → ℕ → Run (ℕ × RiskHeap)
down_loop zero h i n = panic
down_loop (suc fuel) h i n =
    let sink : ℕ → Run (ℕ × RiskHeap) = λ j. heap_swap h i j >>= λ h'. down_loop fuel h' j n in
    if ltb (2 * i + 1) n
    then (lower_child h i n >>= λ j.
        heap_less h j i >>= λ below. if below then sink j else ok (i, h))
    else ok (i, h)

-- Whether the item moved, and the heap.
unfoldable pub down : RiskHeap → ℕ → ℕ → Run (Bool × RiskHeap)
down h i0 n = down_loop (suc n) h i0 n >>= λ r. ok (ltb i0 r.0, r.1)

-- `down`, and `up` if the item has not moved.
unfoldable pub sift : RiskHeap → ℕ → ℕ → Run RiskHeap
sift h i n = down h i n >>= λ r. if r.0 then ok r.1 else up r.1 i

-- `heap.Push`, `heap.Fix` and `heap.Remove`; a negative index panics.
unfoldable pub heap_push : RiskHeap → ℕ → Run RiskHeap
heap_push h p = let h' = heap_append h p in up h' (length h'.slots - 1)

unfoldable pub heap_fix : RiskHeap → ℤ → Run RiskHeap
heap_fix h (pos i) = sift h i (length h.slots)
heap_fix h (negsuc i) = panic

unfoldable pub heap_remove : RiskHeap → ℤ → Run (ℕ × RiskHeap)
heap_remove h (negsuc i) = panic
heap_remove h (pos i) =
    let n = length h.slots - 1 in
    if n == i
    then heap_pop_last h
    else heap_swap h i n >>= λ h'. sift h' i n >>= λ h''. heap_pop_last h''

-- `heap.Init` sifts down from the last parent to the root.
unfoldable pub init_loop : ℕ → RiskHeap → Run RiskHeap
init_loop zero h = ok h
init_loop (suc i) h = down h i (length h.slots) >>= λ r. init_loop i r.1

unfoldable pub heap_init : RiskHeap → Run RiskHeap
heap_init h = init_loop (length h.slots / 2) h
