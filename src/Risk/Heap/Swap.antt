-- ===== src/Risk/Heap/Swap.antt =====
-- What a swap does to the places, the keys and the stored positions.
use aave_v3_flash_liquidator.Prelude.{
  ℕ, zero, suc, ◌<◌, ◌≡◌, refl, sym, ap, ◌∙◌, List, [], ◌∷◌, some, ◌==◌, if◌then◌else◌, ℤ, pos,
  ltb_ℤ, length, get_elem?, get_or, set, arith,
}
use aave_v3_flash_liquidator.Run.{ok}
use aave_v3_flash_liquidator.Risk.Heap.{RiskHeap, at, write, set_index, heap_less, heap_swap}

pub length-set : (xs : List ℕ) (i v : ℕ) → length (set xs i v) ≡ length xs
length-set [] i v = refl
length-set (x ∷ xs) zero v = refl
length-set (x ∷ xs) (suc i) v = ap suc (length-set xs i v)

pub get_or-set :
    (xs : List ℕ) (i v j : ℕ)
    → i < length xs
    → get_or (set xs i v) j 0 ≡ (if i == j then v else get_or xs j 0)
get_or-set [] i v j h = absurd (omega arith)
get_or-set (x ∷ xs) zero v zero h = refl
get_or-set (x ∷ xs) zero v (suc j) h = ground arith
get_or-set (x ∷ xs) (suc i) v zero h = ground arith
get_or-set (x ∷ xs) (suc i) v (suc j) h = ground (arith, get_or-set xs i v j)

get_elem?-get_or : (xs : List ℕ) (i : ℕ) → i < length xs → get_elem? xs i ≡ some (get_or xs i 0)
get_elem?-get_or [] i h = absurd (omega arith)
get_elem?-get_or (x ∷ xs) zero h = refl
get_elem?-get_or (x ∷ xs) (suc i) h = get_elem?-get_or xs i (omega arith)

-- The place at position `i`, and the health factor there.
unfoldable pub place : RiskHeap → ℕ → ℕ
place h i = get_or h.slots i 0

unfoldable pub key : RiskHeap → ℕ → ℤ
key h i = (h.cell (place h i)).health_factor

abbrev pub size : RiskHeap → ℕ
size h = length h.slots

pub at-ok : (h : RiskHeap) (i : ℕ) → i < size h → at h i ≡ ok (place h i)
unfolding at place
at-ok h i p = rw (at, get_elem?-get_or h.slots i p)

pub heap_less-ok :
    (h : RiskHeap) (i j : ℕ)
    → i < size h
    → j < size h
    → heap_less h i j ≡ ok (ltb_ℤ (key h i) (key h j))
unfolding heap_less key
heap_less-ok h i j p q = rw (at-ok h i p, at-ok h j q) refl

-- Each position stores itself in its item.
abbrev pub IsIndexed : RiskHeap → Type 0
IsIndexed h = (c : ℕ) → c < size h → (h.cell (place h c)).index ≡ pos c

-- The heap `h'` holds the items of `h`, which differ at most in the stored position.
pub record IsShuffled (h h' : RiskHeap) : Type 0 where
  pub length : size h' ≡ size h
  pub users : (p : ℕ) → (h'.cell p).user_address ≡ (h.cell p).user_address
  pub factors : (p : ℕ) → (h'.cell p).health_factor ≡ (h.cell p).health_factor
  pub times : (p : ℕ) → (h'.cell p).next_check_at ≡ (h.cell p).next_check_at
  pub indexed : IsIndexed h'
  pub kept : (c : ℕ) → c < size h → (d : ℕ) × (d < size h) × (place h' d ≡ place h c)
  pub found : (c : ℕ) → c < size h → (d : ℕ) × (d < size h) × (place h d ≡ place h' c)

-- The position that position `c` takes part in a swap of `i` and `j` with.
abbrev pub swapped : ℕ → ℕ → ℕ → ℕ
swapped i j c = if j == c then i else if i == c then j else c

module _ (h : RiskHeap) (i j : ℕ) (hi : i < size h) (hj : j < size h) where
  unfoldable pub after : RiskHeap
  after = record {
    cell = write (write h.cell (place h j) (set_index (pos i))) (place h i) (set_index (pos j));
    slots = set (set h.slots i (place h j)) j (place h i);
  }

  pub heap_swap-ok : heap_swap h i j ≡ ok after
  unfolding heap_swap after
  heap_swap-ok = rw (heap_swap, at-ok h j hj, at-ok h i hi) refl

  pub place-after : (c : ℕ) → place after c ≡ place h (swapped i j c)
  unfolding place after
  place-after c = ground (
    arith,
    length-set h.slots i (get_or h.slots j 0),
    get_or-set h.slots i (get_or h.slots j 0) c hi,
    get_or-set (set h.slots i (get_or h.slots j 0)) j (get_or h.slots i 0) c,
  )

  size-after : size after ≡ size h
  unfolding after
  size-after =
      length-set (set h.slots i (place h j)) j (place h i) ∙ length-set h.slots i (place h j)

  index-after :
      (p : ℕ)
      → (after.cell p).index
        ≡ (if place h i == p then pos j else if place h j == p then pos i else (h.cell p).index)
  unfolding after
  index-after p = ground arith

  after-IsIndexed : IsIndexed h → IsIndexed after
  after-IsIndexed d c p =
      ground (arith, size-after, place-after c, index-after (place after c), d i, d j, d c)

  pub after-IsShuffled : IsIndexed h → IsShuffled h after
  unfolding after
  after-IsShuffled d = record {
    length = size-after;
    users = λ p. ground arith;
    factors = λ p. ground arith;
    times = λ p. ground arith;
    indexed = after-IsIndexed d;
    kept = λ c p. (swapped i j c, ground arith, ground (arith, place-after (swapped i j c)));
    found = λ c p. (swapped i j c, ground arith, sym (place-after c));
  }

  factors-after : (p : ℕ) → (after.cell p).health_factor ≡ (h.cell p).health_factor
  unfolding after
  factors-after p = ground arith

  pub key-after : (c : ℕ) → key after c ≡ key h (swapped i j c)
  unfolding key
  key-after c = factors-after (place after c) ∙ ap (λ p. (h.cell p).health_factor) (place-after c)

module _ {h : RiskHeap} where
  pub IsShuffled-refl : IsIndexed h → IsShuffled h h
  IsShuffled-refl d = record {
    length = refl;
    users = λ p. refl;
    factors = λ p. refl;
    times = λ p. refl;
    indexed = d;
    kept = λ c p. (c, p, refl);
    found = λ c p. (c, p, refl);
  }

  pub IsShuffled-trans : {g k : RiskHeap} → IsShuffled h g → IsShuffled g k → IsShuffled h k
  IsShuffled-trans f s = record {
    length = s.length ∙ f.length;
    users = λ p. s.users p ∙ f.users p;
    factors = λ p. s.factors p ∙ f.factors p;
    times = λ p. s.times p ∙ f.times p;
    indexed = s.indexed;
    kept = λ c p.
        let (d, q, e) = f.kept c p in
        let (d', q', e') = s.kept d (omega (arith, f.length)) in
        (d', omega (arith, f.length), e' ∙ e);
    found = λ c p.
        let (d, q, e) = s.found c (omega (arith, f.length)) in
        let (d', q', e') = f.found d (omega (arith, f.length)) in (d', q', e' ∙ e);
  }
