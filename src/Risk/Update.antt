-- ===== src/Risk/Update.antt =====
-- `updateHeap` of internal/engine/risk_engine.go, and the scan of the watchdog. The table and the
-- heap share the items: both hold places in the memory of the store. A new item takes the first
-- free place.
pub mod Listing
pub mod View
pub mod Leave
pub mod Change
pub mod Newcomer
pub mod Refines
pub mod Watchdog
use aave_v3_flash_liquidator.Prelude.{
  ℕ, suc, ◌*◌, ◌&&◌, Bool, true, false, List, [], ◌∷◌, ◌++◌, Option, none, some, if◌then◌else◌, ℤ,
  pos, ltb_ℤ, leb_ℤ, div_ℤ, Assoc, lookup, insert, erase,
}
use aave_v3_flash_liquidator.Text.{Text, text_eq}
use aave_v3_flash_liquidator.Ray.{wad, hf_safety_threshold}
use aave_v3_flash_liquidator.Models.{UserRiskItem}
use aave_v3_flash_liquidator.Run.{Run, ok, panic, ◌>>=◌}
use aave_v3_flash_liquidator.Store.{StateStore}
use aave_v3_flash_liquidator.Risk.Heap.{RiskHeap, write, heap_push, heap_fix, heap_remove}
use aave_v3_flash_liquidator.Risk.Queue.{enqueue_all}

abbrev pub heap_of : StateStore → RiskHeap
heap_of s = record { cell = s.risk_items; slots = s.risk_heap }

abbrev pub with_heap : RiskHeap → StateStore → StateStore
with_heap h s = record s { risk_items = h.cell; risk_heap = h.slots }

-- The health factor of a user who belongs in the heap; `none` is `nil`.
abbrev pub at_risk : Option ℤ → Option ℤ
at_risk none = none
at_risk (some hf) = if leb_ℤ hf_safety_threshold hf then none else some hf

abbrev pub set_factor : ℤ → UserRiskItem → UserRiskItem
set_factor hf item = record item { health_factor = hf }

abbrev pub new_item : Text → ℤ → UserRiskItem
new_item user_addr hf = record {
  user_address = user_addr;
  health_factor = hf;
  index = pos 0;
  next_check_at = pos 0;
}

unfoldable pub leave_heap : Text → StateStore → Run StateStore
leave_heap user_addr s = elim (lookup user_addr s.heap_lookup) [
  | none ↦ ok s
  | some p ↦ heap_remove (heap_of s) (s.risk_items p).index >>= λ r.
      ok (record (with_heap r.1 s) { heap_lookup = erase user_addr s.heap_lookup })
]

-- The memory with a new health factor in an item, and with a new item.
abbrev pub with_factor : ℕ → ℤ → RiskHeap → RiskHeap
with_factor p hf h = record h { cell = write h.cell p (set_factor hf) }

abbrev pub with_item : ℕ → UserRiskItem → RiskHeap → RiskHeap
with_item p item h = record h { cell = write h.cell p (λ _. item) }

unfoldable pub enter_heap : Text → ℤ → StateStore → Run StateStore
enter_heap user_addr hf s = elim (lookup user_addr s.heap_lookup) [
  | some p ↦
      heap_fix (with_factor p hf (heap_of s)) (s.risk_items p).index >>= λ h. ok (with_heap h s)
  | none ↦
      let p = s.next_item in
      heap_push (with_item p (new_item user_addr hf) (heap_of s)) p >>= λ h.
      ok (record (with_heap h s) {
        next_item = suc p;
        heap_lookup = insert user_addr p s.heap_lookup;
      })
]

unfoldable pub update_heap : Text → Option ℤ → StateStore → Run StateStore
update_heap user_addr hf s = elim (at_risk hf) [
  | none ↦ leave_heap user_addr s
  | some f ↦ enter_heap user_addr f s
]

-- `threshold`: 102 hundredths.
abbrev pub watchdog_threshold : ℤ
watchdog_threshold = div_ℤ (pos (102 * wad)) (pos 100)

-- The users whose items are due, in the order of the heap.
unfoldable pub watchdog_scan : (ℕ → UserRiskItem) → ℤ → List ℕ → List Text
watchdog_scan items now [] = []
watchdog_scan items now (p ∷ slots) =
    let rest = watchdog_scan items now slots in
    let item = items p in
    if leb_ℤ item.health_factor watchdog_threshold && leb_ℤ item.next_check_at now
    then item.user_address ∷ rest
    else rest

-- One tick of the watchdog, at the time `now` in seconds.
unfoldable pub watchdog_tick : ℤ → StateStore → List Text → List Text
watchdog_tick now s queue = enqueue_all (watchdog_scan s.risk_items now s.risk_heap) queue
