-- ===== src/Tests/Heaps.antt =====
-- Examples on the heap of users at risk.
use mathlib.Core.List.{Memᴰ}
use aave_v3_flash_liquidator.Prelude.{
  ℕ, zero, suc, ◌<◌, ◌*◌, ◌^◌, ◌≡◌, ◌↔◌, refl, true, [], ◌∷◌, some, pos, lookup, arith,
}
use aave_v3_flash_liquidator.Text.{text_eq}
use aave_v3_flash_liquidator.Models.{UserRiskItem}
use aave_v3_flash_liquidator.Run.{Ends}
use aave_v3_flash_liquidator.Store.{StateStore}
use aave_v3_flash_liquidator.Risk.Heap.{heap_remove}
use aave_v3_flash_liquidator.Risk.Heap.Swap.{place}
use aave_v3_flash_liquidator.Risk.Heap.Removal.{IsWithout, heap_remove-Ends}
use aave_v3_flash_liquidator.Risk.Update.{heap_of, at_risk, update_heap, watchdog_scan}
use aave_v3_flash_liquidator.Risk.Update.Listing.{user_at}
use aave_v3_flash_liquidator.Risk.Update.View.{IsRiskIndex, IsUpdated, risk_of}
use aave_v3_flash_liquidator.Risk.Update.Refines.{update_heap-Ends}
use aave_v3_flash_liquidator.Risk.Update.Watchdog.{is_due, watchdog_scan-due}
use aave_v3_flash_liquidator.Tests.{ann, market}

-- One user in the heap, with a health factor of 1.01.
abbrev pub ann_item : UserRiskItem
ann_item = record {
  user_address = ann;
  health_factor = pos (101 * 10 ^ 16);
  index = pos 0;
  next_check_at = pos 5;
}

abbrev pub risky : StateStore
risky = record market {
  risk_items = λ _. ann_item;
  next_item = 1;
  risk_heap = 0 ∷ [];
  heap_lookup = (ann, 0) ∷ [];
}

risky_index : (c : ℕ) → c < 1 → ann_item.index ≡ pos c
risky_index zero p = refl
risky_index (suc c) p = absurd (omega arith)

risky-place : (c : ℕ) → c < 1 → place (heap_of risky) c ≡ 0
unfolding place
risky-place zero p = refl
risky-place (suc c) p = absurd (omega arith)

risky_listed : (p : ℕ) → p ≡ 0 → lookup (user_at (heap_of risky) p) risky.heap_lookup ≡ some p
unfolding lookup
risky_listed p e = rw e refl

pub risky-IsRiskIndex : IsRiskIndex risky
unfolding lookup place
risky-IsRiskIndex = record {
  heap = record { indexed = risky_index; order = λ c p q. absurd (omega arith) };
  listing = record {
    used = λ c p. omega (arith, risky-place c p);
    listed = λ c p. risky_listed (place (heap_of risky) c) (risky-place c p);
    placed = λ u p e. (0, omega arith, ground (arith, e), ground (arith, e, text_eq.beq_iff ann u));
  };
}

heap_remove-Ends_example :
    Ends
      (λ r. (r.0 ≡ place (heap_of risky) 0) × IsWithout (heap_of risky) 0 r.1)
      (heap_remove (heap_of risky) (pos 0))
heap_remove-Ends_example = heap_remove-Ends (heap_of risky) 0 (omega arith) risky-IsRiskIndex.heap

update_heap-Ends_example :
    Ends
      (IsUpdated ann (at_risk (some (pos (10 ^ 18)))) risky)
      (update_heap ann (some (pos (10 ^ 18))) risky)
update_heap-Ends_example = update_heap-Ends ann (some (pos (10 ^ 18))) risky risky-IsRiskIndex

watchdog_scan-due_example :
    Memᴰ ann (watchdog_scan risky.risk_items (pos 6) risky.risk_heap)
    ↔ (is_due (pos 6) (risk_of risky ann) ≡ true)
watchdog_scan-due_example = watchdog_scan-due risky (pos 6) ann risky-IsRiskIndex
