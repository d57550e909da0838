-- ===== src/Risk/Update/Change.antt =====
-- `updateHeap` for a user who is in the heap.
use aave_v3_flash_liquidator.Prelude.{
  ℕ, ◌<◌, ◌≡◌, ◌≢◌, refl, sym, ap, ◌∙◌, false, some, if◌then◌else◌, Bool-cases, Option-cases, inl,
  inr, ℤ, beq, lookup, arith,
}
use aave_v3_flash_liquidator.Text.{Text, text_eq}
use aave_v3_flash_liquidator.Run.{Ends, ends, Ends->>=}
use aave_v3_flash_liquidator.Store.{StateStore}
use aave_v3_flash_liquidator.Risk.Heap.{RiskHeap}
use aave_v3_flash_liquidator.Risk.Heap.Swap.{place, key, size, IsIndexed}
use aave_v3_flash_liquidator.Risk.Heap.Order.{parent, IsLoose}
use aave_v3_flash_liquidator.Risk.Heap.Calls.{heap_fix-Ends}
use aave_v3_flash_liquidator.Risk.Heap.Removal.{place_injective}
use aave_v3_flash_liquidator.Risk.Update.{heap_of, with_factor, enter_heap}
use aave_v3_flash_liquidator.Risk.Update.Listing.{IsListed-shuffled, IsListed-with_factor, user_at}
use aave_v3_flash_liquidator.Risk.Update.View.{
  IsRiskIndex, entry_of, risk_of, check_time, IsUpdated, entry_same, index_of,
}

module _ (u : Text) (s : StateStore) (x : IsRiskIndex s) where
  -- A new health factor for the user at position `c`.
  module _ (f : ℤ) (p c : ℕ) (e : lookup u s.heap_lookup ≡ some p) (r : c < size (heap_of s))
      (a : place (heap_of s) c ≡ p) where
    unfoldable changed : RiskHeap
    changed = with_factor p f (heap_of s)

    index-changed : (q : ℕ) → (changed.cell q).index ≡ (s.risk_items q).index
    unfolding changed
    index-changed q = ground arith

    place-changed : (d : ℕ) → place changed d ≡ place (heap_of s) d
    unfolding changed place
    place-changed d = refl

    factor-changed :
        (q : ℕ) → p ≢ q → (changed.cell q).health_factor ≡ (s.risk_items q).health_factor
    unfolding changed
    factor-changed q n = ground arith

    key-changed : (d : ℕ) → d < size (heap_of s) → d ≢ c → key changed d ≡ key (heap_of s) d
    unfolding key
    key-changed d q n =
        let other : p ≢ place (heap_of s) d =
          λ t. n (place_injective (heap_of s) x.heap.indexed d c q r (sym t ∙ sym a)) in
        ap (λ k. (changed.cell k).health_factor) (place-changed d)
        ∙ factor-changed (place (heap_of s) d) other

    changed_here :
        entry_of changed.cell (some p) ≡ some (f, check_time (entry_of s.risk_items (some p)))
    unfolding changed
    changed_here = ground arith

    changed_there :
        (q : ℕ) → p ≢ q → entry_of changed.cell (some q) ≡ entry_of s.risk_items (some q)
    unfolding changed
    changed_there q n = ground arith

    other_item : (v : Text) (q : ℕ) → beq u v ≡ false → lookup v s.heap_lookup ≡ some q → p ≢ q
    other_item v q n t h =
        let (d, k, m, b) = x.listing.placed v q t in
        let (d', k', m', b') = x.listing.placed u p e in
        let same : u ≡ v = sym b' ∙ ap (user_at (heap_of s)) h ∙ b in
        ground (arith, text_eq.beq_iff u v)

    changed_entry :
        (v : Text)
        → entry_of changed.cell (lookup v s.heap_lookup)
          ≡ (if beq u v then some (f, check_time (risk_of s u)) else risk_of s v)
    changed_entry v = elim (Bool-cases (beq u v)) [
      | inl here ↦
          let same : u ≡ v = ground (arith, text_eq.beq_iff u v) in
          rw (here, sym same, e) changed_here
      | inr there ↦ elim (Option-cases (lookup v s.heap_lookup)) [
        | inl t ↦ rw (there, t) refl
        | inr (q, t) ↦ rw (there, t) (changed_there q (other_item v q there t))
      ]
    ]

    changed-IsIndexed : IsIndexed changed
    unfolding changed place
    changed-IsIndexed d q = index-changed (place (heap_of s) d) ∙ x.heap.indexed d q

    changed-IsLoose : IsLoose (size (heap_of s)) changed c
    changed-IsLoose = record {
      edges = λ d q q' n n'. ground (arith, key-changed d, key-changed (parent d), x.heap.order d);
      bridge = λ d q q' n n'.
          ground (arith, key-changed d, key-changed (parent c), x.heap.order d, x.heap.order c);
    }

    pub enter_present : Ends (IsUpdated u (some f) s) (enter_heap u f s)
    unfolding enter_heap changed
    enter_present =
        rw (enter_heap, e, index_of s x p c r a)
          (Ends->>= (heap_fix-Ends changed c r changed-IsIndexed changed-IsLoose) (λ g w.
            ends (record {
              index = record {
                heap = w.1;
                listing = IsListed-shuffled (IsListed-with_factor x.listing p f) w.0;
              };
              view = λ v.
                  entry_same g changed w.0.factors w.0.times (lookup v s.heap_lookup)
                  ∙ changed_entry v;
              positions = refl;
            })))
