-- ===== src/Risk/Heap/Removal.antt =====
-- `heap.Remove` of container/heap.
use aave_v3_flash_liquidator.Prelude.{
  ℕ, zero, suc, ◌-◌, ◌<◌, ◌≡◌, ◌≢◌, refl, sym, ap, ◌∙◌, List, [], ◌∷◌, if◌then◌else◌, ◌==◌, pos,
  negsuc, arith, length-take, get_or, take,
}
use aave_v3_flash_liquidator.Run.{ok, ◌>>=◌, Ends, ends, Ends->>=, Ends-if}
use aave_v3_flash_liquidator.Risk.Heap.{
  RiskHeap, write, set_index, heap_pop_last, heap_remove, heap_swap, sift,
}
use aave_v3_flash_liquidator.Risk.Heap.Swap.{
  place, key, size, swapped, IsIndexed, IsShuffled, IsShuffled-trans, after, key-after, place-after,
  after-IsShuffled, at-ok, heap_swap-ok,
}
use aave_v3_flash_liquidator.Risk.Heap.Order.{parent, IsHeapUpTo, IsLoose, IsSifted}
use aave_v3_flash_liquidator.Risk.Heap.Down.{sift-Ends}
use aave_v3_flash_liquidator.Risk.Heap.Calls.{IsHeap}

pub place_injective :
    (h : RiskHeap)
    → IsIndexed h
    → (c d : ℕ) → c < size h
    → d < size h
    → place h c ≡ place h d
    → c ≡ d
place_injective h x c d p q e = ground (arith, x c p, x d q, e)

-- The heap `h'` holds the items of `h` but the one that was at position `i`.
pub record IsWithout (h : RiskHeap) (i : ℕ) (h' : RiskHeap) : Type 0 where
  pub heap : IsHeap h'
  pub users : (p : ℕ) → (h'.cell p).user_address ≡ (h.cell p).user_address
  pub factors : (p : ℕ) → (h'.cell p).health_factor ≡ (h.cell p).health_factor
  pub times : (p : ℕ) → (h'.cell p).next_check_at ≡ (h.cell p).next_check_at
  pub kept : (c : ℕ) → c < size h → c ≢ i → (d : ℕ) × (d < size h') × (place h' d ≡ place h c)
  pub found : (c : ℕ) → c < size h' → (d : ℕ) × (d < size h) × (d ≢ i) × (place h d ≡ place h' c)

get_or-take : (n c : ℕ) (xs : List ℕ) → c < n → get_or (take n xs) c 0 ≡ get_or xs c 0
get_or-take zero c xs h = absurd (omega arith)
get_or-take (suc n) c [] h = refl
get_or-take (suc n) zero (x ∷ xs) h = refl
get_or-take (suc n) (suc c) (x ∷ xs) h = get_or-take n c xs (omega arith)

-- `Pop` takes the last position away.
module _ (h : RiskHeap) (n : ℕ) (len : size h ≡ suc n) where
  unfoldable popped : RiskHeap
  popped = record { cell = write h.cell (place h n) (set_index (negsuc 0)); slots = take n h.slots }

  heap_pop_last-ok : heap_pop_last h ≡ ok (place h n, popped)
  unfolding heap_pop_last popped
  heap_pop_last-ok =
      let last : size h - 1 ≡ n = omega (arith, len) in
      rw (heap_pop_last, last, at-ok h n (omega (arith, len))) refl

  size-popped : size popped ≡ n
  unfolding popped
  size-popped = omega (arith, length-take n h.slots, len)

  place-popped : (c : ℕ) → c < n → place popped c ≡ place h c
  unfolding popped place
  place-popped c p = get_or-take n c h.slots p

  index-popped :
      (p : ℕ) → (popped.cell p).index ≡ (if place h n == p then negsuc 0 else (h.cell p).index)
  unfolding popped
  index-popped p = ground arith

  factor-popped : (p : ℕ) → (popped.cell p).health_factor ≡ (h.cell p).health_factor
  unfolding popped
  factor-popped p = ground arith

  key-popped : (c : ℕ) → c < n → key popped c ≡ key h c
  unfolding key
  key-popped c p =
      factor-popped (place popped c) ∙ ap (λ r. (h.cell r).health_factor) (place-popped c p)

  popped-IsWithout : IsIndexed h → IsHeapUpTo n h → IsWithout h n popped
  unfolding popped
  popped-IsWithout d o = record {
    heap = record {
      indexed = λ c p. ground (
        arith,
        size-popped,
        place-popped c,
        index-popped (place popped c),
        d c,
        place_injective h d c n,
        len,
      );
      order = λ c p q. ground (arith, size-popped, key-popped c, key-popped (parent c), o c);
    };
    users = λ p. ground arith;
    factors = λ p. ground arith;
    times = λ p. ground arith;
    kept = λ c p q. (c, omega (arith, size-popped, len), place-popped c (omega (arith, len)));
    found = λ c p. (
      c,
      omega (arith, size-popped, len),
      omega (arith, size-popped),
      sym (place-popped c (omega (arith, size-popped))),
    );
  }

-- A shuffle that brings the item at `i` to position `n`, before the item at `n` goes.
IsWithout-shuffled :
    (h g k : RiskHeap) (i n : ℕ)
    → i < size h
    → n < size g
    → IsIndexed h
    → IsShuffled h g
    → place g n ≡ place h i
    → IsWithout g n k
    → IsWithout h i k
IsWithout-shuffled h g k i n p q x s e w = record {
  heap = w.heap;
  users = λ r. w.users r ∙ s.users r;
  factors = λ r. w.factors r ∙ s.factors r;
  times = λ r. w.times r ∙ s.times r;
  kept = λ c r u.
      let (d, d1, d2) = s.kept c r in
      let (d', e1, e2) =
        w.kept d (omega (arith, s.length))
          (λ t. u (place_injective h x c i r p (sym d2 ∙ ap (place g) t ∙ e))) in
      (d', e1, e2 ∙ d2);
  found = λ c r.
      let (d, d1, d2, d3) = w.found c r in
      let (d', e1, e2) = s.found d (omega (arith, s.length)) in
      (
        d',
        e1,
        (λ t. d2 (place_injective g s.indexed d n d1 q (sym e2 ∙ ap (place h) t ∙ sym e))),
        e2 ∙ d3,
      );
}

module _ (h : RiskHeap) (n : ℕ) (len : size h ≡ suc n) (i : ℕ) (p : i < n) (hi : i < size h)
    (hn : n < size h) (heap : IsHeap h) where
  moved : RiskHeap
  moved = after h i n hi hn

  key-moved : (c : ℕ) → c < n → c ≢ i → key moved c ≡ key h c
  unfolding moved
  key-moved c q r =
      let stays : swapped i n c ≡ c = ground arith in key-after h i n hi hn c ∙ ap (key h) stays

  moved-IsLoose : IsLoose n moved i
  moved-IsLoose = record {
    edges = λ c q r s t. ground (arith, key-moved c, key-moved (parent c), heap.order c, len);
    bridge = λ c q r s t.
        ground (arith, key-moved c, key-moved (parent i), heap.order c, heap.order i, len);
  }

  moved-IsShuffled : IsShuffled h moved
  unfolding moved
  moved-IsShuffled = after-IsShuffled h i n hi hn heap.indexed

  place-moved : place moved n ≡ place h i
  unfolding moved
  place-moved =
      let last : swapped i n n ≡ i = ground arith in place-after h i n hi hn n ∙ ap (place h) last

  heap_swap-moved : heap_swap h i n ≡ ok moved
  unfolding moved
  heap_swap-moved = heap_swap-ok h i n hi hn

  pop_sifted-Ends :
      (g : RiskHeap)
      → IsSifted n moved g × IsHeapUpTo n g
      → Ends (λ r. (r.0 ≡ place h i) × IsWithout h i r.1) (heap_pop_last g)
  pop_sifted-Ends g s =
      let shuffled : IsShuffled h g = IsShuffled-trans moved-IsShuffled s.0.shuffled in
      let len' : size g ≡ suc n = omega (arith, len, shuffled.length) in
      let last : place g n ≡ place h i = s.0.outside n (omega arith) ∙ place-moved in
      rw (heap_pop_last-ok g n len') (
        ends (
          last,
          IsWithout-shuffled h g (popped g n len') i n (omega (arith, len)) (omega (arith, len'))
              heap.indexed shuffled last (popped-IsWithout g n len' shuffled.indexed s.1),
        ))

  remove_inside-Ends :
      Ends
        (λ r. (r.0 ≡ place h i) × IsWithout h i r.1)
        (heap_swap h i n >>= λ h'. sift h' i n >>= λ h''. heap_pop_last h'')
  remove_inside-Ends = rw heap_swap-moved (
      Ends->>=
        (sift-Ends n moved i p (omega (arith, len, moved-IsShuffled.length))
          moved-IsShuffled.indexed moved-IsLoose)
        pop_sifted-Ends)

pub heap_remove-Ends :
    (h : RiskHeap) (i : ℕ)
    → i < size h
    → IsHeap h
    → Ends (λ r. (r.0 ≡ place h i) × IsWithout h i r.1) (heap_remove h (pos i))
unfolding heap_remove
heap_remove-Ends h i p heap =
    let n = size h - 1 in
    let len : size h ≡ suc n = omega arith in
    Ends-if (n == i)
      (λ e.
        let last : i ≡ n = ground arith in
        rw (last, heap_pop_last-ok h n len)
          (ends
            (refl, popped-IsWithout h n len heap.indexed (λ c q r. heap.order c q (omega arith)))))
      (λ e. remove_inside-Ends h n len i (ground arith) p (omega arith) heap)
