-- ===== src/Risk/Heap/Down.antt =====
-- `down` of container/heap, and `down` with `up` after it.
use mathlib.Core.Path.{subst}
use aave_v3_flash_liquidator.Prelude.{
  sym, ℕ, zero, suc, ◌+◌, ◌-◌, ◌*◌, ◌≤◌, ◌<◌, ◌≡◌, ◌≢◌, ◌⊎◌, inl, inr, refl, ltb, ltb_ℤ,
  if◌then◌else◌, ◌==◌, ◌≤ℤ◌, arith, Bool, true, false, Bool-cases,
}
use aave_v3_flash_liquidator.Run.{ok, Ends, ends, Ends-weaken, Ends-if, Ends->>=}
use aave_v3_flash_liquidator.Risk.Heap.{RiskHeap, lower_child, down_loop, down, sift, up}
use aave_v3_flash_liquidator.Risk.Heap.Swap.{
  key, size, IsIndexed, after, key-after, heap_less-ok, heap_swap-ok,
}
use aave_v3_flash_liquidator.Risk.Heap.Order.{
  parent, IsEdge, IsHeapUpTo, IsRising, IsLoose, IsSifted, IsSifted-refl, IsSifted-trans,
  after-IsSifted,
}
use aave_v3_flash_liquidator.Risk.Heap.Up.{up-Ends}

-- `m` is the child of `i` with the lower health factor.
record IsLowerChild (n : ℕ) (h : RiskHeap) (i m : ℕ) : Type 0 where
  inside : m < n
  child : (m ≡ 2 * i + 1) ⊎ (m ≡ 2 * i + 2)
  least : (c : ℕ) → 0 < c → c < n → parent c ≡ i → key h m ≤ℤ key h c

lower_child-Ends :
    (n : ℕ) (h : RiskHeap) (i : ℕ)
    → 2 * i + 1 < n
    → n ≤ size h
    → Ends (IsLowerChild n h i) (lower_child h i n)
unfolding lower_child
lower_child-Ends n h i p q =
    Ends-if (ltb (2 * i + 1 + 1) n)
      (λ two. rw (heap_less-ok h (2 * i + 1 + 1) (2 * i + 1) (ground arith) (omega arith)) (
        ends (record {
          inside = ground arith;
          child = ground arith;
          least = λ c r s e. ground arith;
        })))
      (λ one. ends (record { inside = p; child = inl refl; least = λ c r s e. ground arith }))

-- What `down` leaves when it starts at `i` and ends at `r`.
record IsSunk (n : ℕ) (h : RiskHeap) (i : ℕ) (r : ℕ × RiskHeap) : Type 0 where
  sifted : IsSifted n h r.1
  lower : i ≤ r.0
  edges : (c : ℕ) → 0 < c → c < n → c ≢ i → IsEdge r.1 c
  moved : i < r.0 → 0 < i → IsEdge r.1 i
  stayed : r.0 ≡ i → r.1 ≡ h

module _ (n : ℕ) (h : RiskHeap) (i m : ℕ) (hi : i < size h) (hm : m < size h) (v : IsLoose n h i)
    (s : IsLowerChild n h i m) (below : ltb_ℤ (key h m) (key h i) ≡ true) where
  after-edges : (c : ℕ) → 0 < c → c < n → parent c ≢ m → IsEdge (after h i m hi hm) c
  after-edges c p q r =
      let moved = key-after h i m hi hm in
      ground (
        arith,
        moved c,
        moved (parent c),
        v.edges c,
        v.bridge c,
        v.bridge m,
        s.least c,
        s.inside,
        s.child,
      )

  after-IsLoose : IsLoose n (after h i m hi hm) m
  after-IsLoose =
      let moved = key-after h i m hi hm in
      record {
        edges = λ c p q r t. after-edges c p q t;
        bridge = λ c p q r t. ground (arith, moved c, moved (parent m), v.edges c, s.child);
      }

-- One step down, and the way from there.
module _ (n : ℕ) (h : RiskHeap) (i m : ℕ) (r : ℕ × RiskHeap) (hi : i < size h) (hm : m < size h)
    (s : IsLowerChild n h i m) (step : IsSifted n h (after h i m hi hm))
    (edges : (c : ℕ) → 0 < c → c < n → parent c ≢ m → IsEdge (after h i m hi hm) c)
    (u : IsSunk n (after h i m hi hm) m r) where
  edge_at_child : 0 < m → IsEdge r.1 m
  edge_at_child p = elim (Bool-cases (ltb m r.0)) [
    | inl far ↦ u.moved (ground arith) p
    | inr near ↦
        let same = u.stayed (ground (arith, u.lower)) in
        subst (λ g. IsEdge g m) (sym same) (edges m p s.inside (omega arith))
  ]

  all_edges : IsHeapUpTo n r.1
  all_edges c p q = elim (Bool-cases (c == m)) [
    | inl e ↦
        let here : m ≡ c = ground arith in subst (IsEdge r.1) here (edge_at_child (omega arith))
    | inr e ↦ u.edges c p q (ground arith)
  ]

  IsSunk-further : IsSunk n h i r
  IsSunk-further = record {
    sifted = IsSifted-trans n step u.sifted;
    lower = omega (arith, s.child, u.lower);
    edges = λ c p q t. all_edges c p q;
    moved = λ far p. all_edges i p (omega (arith, s.inside, s.child));
    stayed = λ e. absurd (omega (arith, s.child, u.lower));
  }

down_loop-Ends :
    (fuel n : ℕ) (h : RiskHeap) (i : ℕ)
    → n - i < fuel
    → i < n
    → n ≤ size h
    → IsIndexed h
    → IsLoose n h i
    → Ends (IsSunk n h i) (down_loop fuel h i n)
unfolding down_loop
down_loop-Ends zero n h i f p q d v = absurd (omega arith)
down_loop-Ends (suc fuel) n h i f p q d v =
    let hi : i < size h = omega arith in
    let rest : ((c : ℕ) → 0 < c → c < n → parent c ≡ i → IsEdge h c)
        → Ends (IsSunk n h i) (ok (i, h)) =
      λ o. ends (record {
        sifted = IsSifted-refl n h d;
        lower = omega arith;
        edges = λ c r s t. ground (arith, v.edges c, o c);
        moved = λ m. absurd (omega arith);
        stayed = λ e. refl;
      }) in
    Ends-if (ltb (2 * i + 1) n)
      (λ inner. Ends->>= (lower_child-Ends n h i (ground arith) q) (λ m s.
        let hm : m < size h = omega (arith, s.inside) in
        rw (heap_less-ok h m i hm hi, heap_swap-ok h i m hi hm)
          (Ends-if (ltb_ℤ (key h m) (key h i))
            (λ below.
              let step = after-IsSifted n h i m hi hm p s.inside d in
              let loose = after-IsLoose n h i m hi hm v s below in
              let edges = after-edges n h i m hi hm v s below in
              Ends-weaken (λ r u. IsSunk-further n h i m r hi hm s step edges u)
                (down_loop-Ends fuel n (after h i m hi hm) m (omega (arith, s.child)) s.inside
                  (omega (arith, step.shuffled.length)) step.shuffled.indexed loose))
            (λ above. rest (λ c r u e. ground (arith, s.least c r u e))))))
      (λ leaf. rest (λ c r u e. absurd (ground arith)))

-- The same of `down`, which says only whether the item moved.
record IsDone (n : ℕ) (h : RiskHeap) (i : ℕ) (t : Bool × RiskHeap) : Type 0 where
  sifted : IsSifted n h t.1
  edges : (c : ℕ) → 0 < c → c < n → c ≢ i → IsEdge t.1 c
  moved : t.0 ≡ true → 0 < i → IsEdge t.1 i
  stayed : t.0 ≡ false → t.1 ≡ h

module _ (n : ℕ) (h : RiskHeap) (i : ℕ) (p : i < n) (q : n ≤ size h) (d : IsIndexed h)
    (v : IsLoose n h i) where
  down-Ends : Ends (IsDone n h i) (down h i n)
  unfolding down
  down-Ends = Ends->>= (down_loop-Ends (suc n) n h i (omega arith) p q d v) (λ r u. ends (record {
    sifted = u.sifted;
    edges = u.edges;
    moved = λ e. u.moved (ground arith);
    stayed = λ e. u.stayed (ground (arith, u.lower));
  }))

  all_edges_done : (h' : RiskHeap) → IsDone n h i (true, h') → IsHeapUpTo n h'
  all_edges_done h' u c r s = elim (Bool-cases (c == i)) [
    | inl e ↦ let here : i ≡ c = ground arith in subst (IsEdge h') here (u.moved refl (omega arith))
    | inr e ↦ u.edges c r s (ground arith)
  ]

  rising : (h' : RiskHeap) → IsDone n h i (false, h') → IsRising n h i
  rising h' u = record {
    edges = λ c r s t. subst (λ g. IsEdge g c) (u.stayed refl) (u.edges c r s t);
    bridge = v.bridge;
  }

  up_after :
      (t : Bool × RiskHeap)
      → IsDone n h i t
      → Ends (λ h'. IsSifted n h h' × IsHeapUpTo n h') (if t.0 then ok t.1 else up t.1 i)
  up_after (true, h') u = ends (u.sifted, all_edges_done h' u)
  up_after (false, h') u =
      subst (λ g. Ends (λ k. IsSifted n h k × IsHeapUpTo n k) (up g i)) (sym (u.stayed refl))
        (up-Ends n h i p q d (rising h' u))

  -- From a heap that is loose at `i`, the first `n` positions become a heap.
  pub sift-Ends : Ends (λ h'. IsSifted n h h' × IsHeapUpTo n h') (sift h i n)
  unfolding sift
  sift-Ends = Ends->>= down-Ends up_after
