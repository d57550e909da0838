-- ===== src/Risk/Update/Newcomer.antt =====
-- `updateHeap` for a user who was not in the heap.
use aave_v3_flash_liquidator.Prelude.{
  ℕ, ◌<◌, ◌≡◌, ◌≢◌, refl, sym, ap, ◌∙◌, none, some, if◌then◌else◌, Bool-cases, Option-cases, inl,
  inr, ℤ, pos, beq, lookup, insert, lookup-insert, arith,
}
use aave_v3_flash_liquidator.Text.{Text, text_eq}
use aave_v3_flash_liquidator.Run.{Ends, ends, Ends->>=}
use aave_v3_flash_liquidator.Store.{StateStore}
use aave_v3_flash_liquidator.Risk.Heap.{RiskHeap, heap_append, heap_push}
use aave_v3_flash_liquidator.Risk.Heap.Swap.{place, key, size, IsShuffled}
use aave_v3_flash_liquidator.Risk.Heap.Order.{parent}
use aave_v3_flash_liquidator.Risk.Heap.Calls.{IsHeap, heap_push-Ends}
use aave_v3_flash_liquidator.Risk.Update.{heap_of, new_item, with_item, enter_heap}
use aave_v3_flash_liquidator.Risk.Update.Listing.{IsListed-shuffled, grown, grown-IsListed}
use aave_v3_flash_liquidator.Risk.Update.View.{
  IsRiskIndex, entry_of, risk_of, check_time, IsUpdated, entry_same,
}

module _ (u : Text) (s : StateStore) (x : IsRiskIndex s) where
  -- A user who was not in the heap.
  module _ (f : ℤ) (e : lookup u s.heap_lookup ≡ none) where
    unfoldable stored : RiskHeap
    stored = with_item s.next_item (new_item u f) (heap_of s)

    cell-stored : (q : ℕ) → s.next_item ≢ q → stored.cell q ≡ s.risk_items q
    unfolding stored
    cell-stored q n = ground arith

    place-stored : (d : ℕ) → place stored d ≡ place (heap_of s) d
    unfolding stored place
    place-stored d = refl

    size-stored : size stored ≡ size (heap_of s)
    unfolding stored
    size-stored = refl

    free : (d : ℕ) → d < size stored → s.next_item ≢ place stored d
    free d q t = omega (arith, x.listing.used d, t, place-stored d, size-stored)

    key-stored : (d : ℕ) → d < size stored → key stored d ≡ key (heap_of s) d
    unfolding key
    key-stored d q =
        ap (λ i. i.health_factor) (cell-stored (place stored d) (free d q))
        ∙ ap (λ k. (s.risk_items k).health_factor) (place-stored d)

    stored-IsHeap : IsHeap stored
    stored-IsHeap = record {
      indexed = λ d q.
          ap (λ i. i.index) (cell-stored (place stored d) (free d q))
          ∙ ap (λ k. (s.risk_items k).index) (place-stored d)
          ∙ x.heap.indexed d (omega (arith, size-stored));
      order = λ d q q'.
          ground (arith, key-stored d, key-stored (parent d), x.heap.order d, size-stored);
    }

    pushed-Ends :
        Ends
          (λ g. IsShuffled (heap_append stored s.next_item) g × IsHeap g)
          (heap_push stored s.next_item)
    pushed-Ends = heap_push-Ends stored s.next_item stored-IsHeap (λ d q t. free d q (sym t))

    entry_new : entry_of (heap_append stored s.next_item).cell (some s.next_item) ≡ some (f, pos 0)
    unfolding stored heap_append
    entry_new = ground arith

    entry_old :
        (q : ℕ)
        → s.next_item ≢ q
        → entry_of (heap_append stored s.next_item).cell (some q) ≡ entry_of s.risk_items (some q)
    unfolding stored heap_append
    entry_old q n = ground arith

    listed_old : (v : Text) (q : ℕ) → lookup v s.heap_lookup ≡ some q → s.next_item ≢ q
    listed_old v q t h =
        let (d, k, m, b) = x.listing.placed v q t in omega (arith, x.listing.used d k, m, h)

    entry-stored :
        (v : Text)
        → entry_of
            (heap_append stored s.next_item).cell
            (if beq u v then some s.next_item else lookup v s.heap_lookup)
          ≡ (if beq u v then some (f, pos 0) else risk_of s v)
    entry-stored v = elim (Bool-cases (beq u v)) [
      | inl here ↦ rw here entry_new
      | inr there ↦ elim (Option-cases (lookup v s.heap_lookup)) [
        | inl t ↦ rw (there, t) refl
        | inr (q, t) ↦ rw (there, t) (entry_old q (listed_old v q t))
      ]
    ]

    time_missing : check_time (risk_of s u) ≡ pos 0
    time_missing = rw e refl

    pub enter_missing : Ends (IsUpdated u (some f) s) (enter_heap u f s)
    unfolding enter_heap stored grown
    enter_missing =
        rw (enter_heap, e)
          (Ends->>= pushed-Ends (λ g w. ends (record {
            index = record {
              heap = w.1;
              listing = IsListed-shuffled (grown-IsListed x.listing u f e) w.0;
            };
            view = λ v.
                entry_same g (heap_append stored s.next_item) w.0.factors w.0.times
                  (lookup v (insert u s.next_item s.heap_lookup))
                ∙ ap (entry_of (heap_append stored s.next_item).cell)
                    (lookup-insert u v s.next_item s.heap_lookup)
                ∙ entry-stored v
                ∙ ap (λ t. if beq u v then some (f, t) else risk_of s v) (sym time_missing);
            positions = refl;
          })))
