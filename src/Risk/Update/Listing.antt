-- ===== src/Risk/Update/Listing.antt =====
-- The table of the places that the heap holds, by user.
use mathlib.Core.Path.{subst}
use aave_v3_flash_liquidator.Prelude.{
  Bool-cases, inl, inr, ℕ, suc, ◌≤◌, ◌<◌, ◌≡◌, ◌≢◌, sym, ap, ◌∙◌, none, some, if◌then◌else◌, ◌==◌,
  ℤ, Assoc, Eq, beq, lookup, insert, erase, lookup-insert, lookup-erase, arith,
}
use aave_v3_flash_liquidator.Text.{Text, text_eq}
use aave_v3_flash_liquidator.Risk.Heap.{RiskHeap, heap_append}
use aave_v3_flash_liquidator.Risk.Heap.Calls.{size-heap_append, place-heap_append}
use aave_v3_flash_liquidator.Risk.Update.{with_factor, with_item, new_item}
use aave_v3_flash_liquidator.Risk.Heap.Swap.{place, size, IsIndexed, IsShuffled}
use aave_v3_flash_liquidator.Risk.Heap.Removal.{IsWithout, place_injective}

abbrev pub user_at : RiskHeap → ℕ → Text
user_at h p = (h.cell p).user_address

-- The table lists the items of the heap by their users, and the places from `n` on are free.
pub record IsListed (h : RiskHeap) (table : Assoc Text ℕ) (n : ℕ) : Type 0 where
  pub used : (c : ℕ) → c < size h → place h c < n
  pub listed : (c : ℕ) → c < size h → lookup (user_at h (place h c)) table ≡ some (place h c)
  pub placed :
      (u : Text) (p : ℕ)
      → lookup u table ≡ some p
      → (c : ℕ) × (c < size h) × (place h c ≡ p) × (user_at h p ≡ u)

module _ {ℓ κ} {K : Type ℓ} {V : Type κ} ⦃e : Eq K⦄ (k j : K) (m : Assoc K V) where
  lookup-erase_other : k ≢ j → lookup j (erase k m) ≡ lookup j m
  lookup-erase_other h = ground (arith, lookup-erase k j m, e.beq_iff k j)

  lookup-erase-some : (v : V) → lookup j (erase k m) ≡ some v → (k ≢ j) × (lookup j m ≡ some v)
  lookup-erase-some v h = (
    ground (arith, lookup-erase k j m, e.beq_iff k j),
    ground (arith, lookup-erase k j m, e.beq_iff k j),
  )

  lookup-insert_other : (v : V) → k ≢ j → lookup j (insert k v m) ≡ lookup j m
  lookup-insert_other v h = ground (arith, lookup-insert k j v m, e.beq_iff k j)

  lookup-insert_same : (v : V) → k ≡ j → lookup j (insert k v m) ≡ some v
  lookup-insert_same v h = ground (arith, lookup-insert k j v m, e.beq_iff k j)

module _ {h : RiskHeap} {table : Assoc Text ℕ} {n : ℕ} (l : IsListed h table n) where
  pub IsListed-shuffled : {g : RiskHeap} → IsShuffled h g → IsListed g table n
  IsListed-shuffled {g} s = record {
    used =
        λ c r. let (d, p, e) = s.found c (omega (arith, s.length)) in omega (arith, l.used d p, e);
    listed = λ c r.
        let (d, p, e) = s.found c (omega (arith, s.length)) in
        ap (λ u. lookup u table) (s.users (place g c))
        ∙ subst (λ q. lookup (user_at h q) table ≡ some q) e (l.listed d p);
    placed = λ u p e.
        let (c, r, x, y) = l.placed u p e in
        let (d, q, z) = s.kept c r in (d, omega (arith, s.length), z ∙ x, s.users p ∙ y);
  }

  one_place :
      (c d : ℕ)
      → c < size h
      → d < size h
      → user_at h (place h c) ≡ user_at h (place h d)
      → place h c ≡ place h d
  one_place c d p q e =
      let a = l.listed c p in let b = l.listed d q in grind (arith, ap (λ u. lookup u table) e)

  -- The user at position `i` leaves.
  pub IsListed-without :
      {g : RiskHeap} (i : ℕ) (u : Text)
      → i < size h
      → IsIndexed h
      → user_at h (place h i) ≡ u
      → IsWithout h i g
      → IsListed g (erase u table) n
  IsListed-without {g} i u hi x e w = record {
    used = λ c r. let (d, p, q, z) = w.found c r in omega (arith, l.used d p, z);
    listed = λ c r.
        let (d, p, q, z) = w.found c r in
        let other : u ≢ user_at h (place h d) =
          λ t. q (place_injective h x d i p hi (one_place d i p hi (sym t ∙ sym e))) in
        ap (λ v. lookup v (erase u table)) (w.users (place g c))
        ∙ subst (λ k. lookup (user_at h k) (erase u table) ≡ some k) z
            (lookup-erase_other u (user_at h (place h d)) table other ∙ l.listed d p);
    placed = λ v p r.
        let (other, there) = lookup-erase-some u v table p r in
        let (c, k, a, b) = l.placed v p there in
        let (d, q, z) =
          w.kept c k
            (λ t. other (sym e ∙ ap (λ m. user_at h (place h m)) (sym t) ∙ ap (user_at h) a ∙ b)) in
        (d, q, z ∙ a, w.users p ∙ b);
  }

  user-with_factor : (p : ℕ) (f : ℤ) (q : ℕ) → user_at (with_factor p f h) q ≡ user_at h q
  user-with_factor p f q = ground arith

  pub IsListed-with_factor : (p : ℕ) (f : ℤ) → IsListed (with_factor p f h) table n
  unfolding place
  IsListed-with_factor p f = record {
    used = l.used;
    listed = λ c r. ap (λ u. lookup u table) (user-with_factor p f (place h c)) ∙ l.listed c r;
    placed = λ u q e. let (c, r, x, y) = l.placed u q e in (c, r, x, user-with_factor p f q ∙ y);
  }

  -- A new user takes the first free place.
  module _ (u : Text) (f : ℤ) (new : lookup u table ≡ none) where
    unfoldable pub grown : RiskHeap
    grown = heap_append (with_item n (new_item u f) h) n

    user-grown : (q : ℕ) → user_at grown q ≡ (if n == q then u else user_at h q)
    unfolding grown heap_append
    user-grown q = ground arith

    place-grown : (c : ℕ) → c ≤ size h → place grown c ≡ (if c == size h then n else place h c)
    unfolding grown place
    place-grown c p = place-heap_append (with_item n (new_item u f) h) n c p

    size-grown : size grown ≡ suc (size h)
    unfolding grown
    size-grown = size-heap_append (with_item n (new_item u f) h) n

    old_user : (c : ℕ) → c < size h → user_at grown (place h c) ≡ user_at h (place h c)
    old_user c p = ground (arith, user-grown (place h c), l.used c p)

    old_place : (c : ℕ) → c < size h → place grown c ≡ place h c
    old_place c p = ground (arith, place-grown c)

    new_place : place grown (size h) ≡ n
    new_place = ground (arith, place-grown (size h))

    new_user : user_at grown n ≡ u
    new_user = ground (arith, user-grown n)

    not_new : (c : ℕ) → c < size h → u ≢ user_at h (place h c)
    not_new c p e = absurd (ground (arith, l.listed c p, new, ap (λ v. lookup v table) e))

    old_listed :
        (c : ℕ)
        → c < size h
        → lookup (user_at grown (place grown c)) (insert u n table) ≡ some (place grown c)
    old_listed c p =
        subst (λ q. lookup (user_at grown q) (insert u n table) ≡ some q) (sym (old_place c p))
          (ap (λ v. lookup v (insert u n table)) (old_user c p)
            ∙ lookup-insert_other u (user_at h (place h c)) table n (not_new c p)
            ∙ l.listed c p)

    new_listed :
        lookup (user_at grown (place grown (size h))) (insert u n table)
        ≡ some (place grown (size h))
    new_listed =
        subst (λ q. lookup (user_at grown q) (insert u n table) ≡ some q) (sym new_place)
          (lookup-insert_same u (user_at grown n) table n (sym new_user))

    abbrev PlacedIn : Text → ℕ → Type 0
    PlacedIn v p = (c : ℕ) × (c < size grown) × (place grown c ≡ p) × (user_at grown p ≡ v)

    new_placed : (v : Text) (p : ℕ) → u ≡ v → n ≡ p → PlacedIn v p
    new_placed v p e d = (
      size h,
      omega (arith, size-grown),
      new_place ∙ d,
      ap (user_at grown) (sym d) ∙ new_user ∙ e,
    )

    old_placed : (v : Text) (p : ℕ) → lookup v table ≡ some p → PlacedIn v p
    old_placed v p e =
        let (c, r, x, y) = l.placed v p e in
        (
          c,
          omega (arith, size-grown),
          old_place c r ∙ x,
          ap (user_at grown) (sym x) ∙ old_user c r ∙ ap (user_at h) x ∙ y,
        )

    pub grown-IsListed : IsListed grown (insert u n table) (suc n)
    grown-IsListed = record {
      used = λ c r. ground (arith, place-grown c, size-grown, l.used c);
      listed = λ c r. elim (Bool-cases (c == size h)) [
        | inl e ↦
            let last : size h ≡ c = ground arith in
            subst
              (λ d.
                lookup (user_at grown (place grown d)) (insert u n table) ≡ some (place grown d))
              last new_listed
        | inr e ↦ old_listed c (ground (arith, size-grown))
      ];
      placed = λ v p r. elim (Bool-cases (beq u v)) [
        | inl e ↦
            new_placed v p (ground (arith, text_eq.beq_iff u v))
              (ground (arith, lookup-insert u v n table))
        | inr e ↦ old_placed v p (ground (arith, lookup-insert u v n table))
      ];
    }
