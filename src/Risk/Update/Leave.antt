-- ===== src/Risk/Update/Leave.antt =====
-- `updateHeap` for a user who leaves the heap.
use aave_v3_flash_liquidator.Prelude.{
  ℕ, ◌≡◌, refl, ap, ◌∙◌, none, some, if◌then◌else◌, Option-cases, inl, inr, beq, lookup, erase,
  lookup-erase, arith,
}
use aave_v3_flash_liquidator.Text.{Text, text_eq}
use aave_v3_flash_liquidator.Run.{Ends, ends, Ends->>=}
use aave_v3_flash_liquidator.Store.{StateStore}
use aave_v3_flash_liquidator.Risk.Heap.Removal.{heap_remove-Ends}
use aave_v3_flash_liquidator.Risk.Update.{heap_of, leave_heap}
use aave_v3_flash_liquidator.Risk.Update.Listing.{IsListed-without, user_at}
use aave_v3_flash_liquidator.Risk.Update.View.{
  IsRiskIndex, entry_of, risk_of, IsUpdated, entry_same, index_of,
}

module _ (u : Text) (s : StateStore) (x : IsRiskIndex s) where
  erased_entry :
      (v : Text)
      → entry_of s.risk_items (if beq u v then none else lookup v s.heap_lookup)
        ≡ (if beq u v then none else risk_of s v)
  erased_entry v = ground arith

  leave_missing : lookup u s.heap_lookup ≡ none → IsUpdated u none s s
  leave_missing e = record {
    index = x;
    view = λ v. ground (arith, text_eq.beq_iff u v, e, ap (λ w. lookup w s.heap_lookup));
    positions = refl;
  }

  leave_present :
      (p : ℕ) → lookup u s.heap_lookup ≡ some p → Ends (IsUpdated u none s) (leave_heap u s)
  unfolding leave_heap
  leave_present p e =
      let (c, r, a, b) = x.listing.placed u p e in
      rw (leave_heap, e, index_of s x p c r a)
        (Ends->>= (heap_remove-Ends (heap_of s) c r x.heap) (λ t w. ends (record {
          index = record {
            heap = w.1.heap;
            listing =
                IsListed-without x.listing c u r x.heap.indexed (ap (user_at (heap_of s)) a ∙ b)
                  w.1;
          };
          view = λ v.
              entry_same t.1 (heap_of s) w.1.factors w.1.times (lookup v (erase u s.heap_lookup))
              ∙ ap (entry_of s.risk_items) (lookup-erase u v s.heap_lookup)
              ∙ erased_entry v;
          positions = refl;
        })))

  pub leave_heap-Ends : Ends (IsUpdated u none s) (leave_heap u s)
  unfolding leave_heap
  leave_heap-Ends = elim (Option-cases (lookup u s.heap_lookup)) [
    | inl e ↦ rw (leave_heap, e) (ends (leave_missing e))
    | inr (p, e) ↦ leave_present p e
  ]
