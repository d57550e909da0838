-- ===== src/Dex/Depth.antt =====
-- The last loop of `BuildCache` against the balances that it is offered.
use mathlib.Core.Path.{subst}
use mathlib.Core.Logic.{⊎_elim}
use mathlib.Core.List.{Memᴰ}
use mathlib.Core.List.Memᴰ
use aave_v3_flash_liquidator.Prelude.{
  ℕ, ◌≡◌, refl, sym, ◌⊎◌, inl, inr, List, [], ◌∷◌, some, Option-cases, Bool-cases, ltb_ℤ, ℤ, Assoc,
  ◌≤ℤ◌, lookup, insert, beq, lookup-insert, beq_refl, arith, lookup-nil,
}
use aave_v3_flash_liquidator.Text.{Text, text_eq, text_beq_iff}
use aave_v3_flash_liquidator.Dex.{PoolMeta, FeeSearch, offer, offer_all}

-- For the pools `Seen`, each with its balance: the tracked balance of a pair is the largest one, and
-- the fee of the pair is that of a pool with this balance.
pub record IsDeepest (Seen : PoolMeta × ℤ → Type 0) (fc : FeeSearch) : Type 0 where
  pub upper :
      (o : PoolMeta × ℤ)
      → Seen o
      → (b : ℤ) × (lookup o.0.pair_key fc.max_balances ≡ some b) × (o.1 ≤ℤ b)
  pub held :
      (k : Text) (b : ℤ)
      → lookup k fc.max_balances ≡ some b
      → (o : PoolMeta × ℤ) × Seen o
        × (o.0.pair_key ≡ k)
        × (o.1 ≡ b)
        × (lookup k fc.best_fees ≡ some o.0.fee)

module _ (Seen : PoolMeta × ℤ → Type 0) (meta : PoolMeta) (balance : ℤ) (fc : FeeSearch)
    (h : IsDeepest Seen fc) where
  abbrev Grown : PoolMeta × ℤ → Type 0
  Grown x = Seen x ⊎ (x ≡ (meta, balance))

  abbrev better : FeeSearch
  better = record {
    best_fees = insert meta.pair_key meta.fee fc.best_fees;
    max_balances = insert meta.pair_key balance fc.max_balances;
  }

  at_key : lookup meta.pair_key better.max_balances ≡ some balance
  at_key = ground (
    arith,
    lookup-insert meta.pair_key meta.pair_key balance fc.max_balances,
    beq_refl meta.pair_key,
  )

  upper_old :
      ((b : ℤ) → lookup meta.pair_key fc.max_balances ≡ some b → b ≤ℤ balance)
      → (o : PoolMeta × ℤ) → Seen o
      → (b : ℤ) × (lookup o.0.pair_key better.max_balances ≡ some b) × (o.1 ≤ℤ b)
  upper_old deeper o seen =
      let (b, found, below) = h.upper o seen in
      elim (Bool-cases (beq meta.pair_key o.0.pair_key)) [
        | inl same ↦
            let here : meta.pair_key ≡ o.0.pair_key =
              ground (arith, text_beq_iff meta.pair_key o.0.pair_key) in
            let more = deeper b (subst (λ k. lookup k fc.max_balances ≡ some b) (sym here) found) in
            (
              balance,
              ground (arith, lookup-insert meta.pair_key o.0.pair_key balance fc.max_balances),
              omega arith,
            )
        | inr other ↦ (
          b,
          ground (arith, found, lookup-insert meta.pair_key o.0.pair_key balance fc.max_balances),
          below,
        )
      ]

  -- A pool that is deeper than the one before, or the first one.
  better-IsDeepest :
      ((b : ℤ) → lookup meta.pair_key fc.max_balances ≡ some b → b ≤ℤ balance)
      → IsDeepest Grown better
  better-IsDeepest deeper = record {
    upper = λ o g.
        ⊎_elim (upper_old deeper o)
          (λ e.
            subst (λ o. (b : ℤ) × (lookup o.0.pair_key better.max_balances ≡ some b) × (o.1 ≤ℤ b))
              (sym e) (balance, at_key, omega arith))
          g;
    held = λ k b e. elim (Bool-cases (beq meta.pair_key k)) [
      | inl same ↦
          let here : meta.pair_key ≡ k = ground (arith, text_beq_iff meta.pair_key k) in
          (
            (meta, balance),
            inr refl,
            here,
            (ground (arith, lookup-insert meta.pair_key k balance fc.max_balances)),
            (ground (arith, lookup-insert meta.pair_key k meta.fee fc.best_fees)),
          )
      | inr other ↦
          let old : lookup k fc.max_balances ≡ some b =
            ground (arith, lookup-insert meta.pair_key k balance fc.max_balances) in
          let t = h.held k b old in
          (
            t.0,
            inl t.1,
            t.2,
            t.3,
            ground (arith, t.4, lookup-insert meta.pair_key k meta.fee fc.best_fees),
          )
    ];
  }

  -- A pool that is not deeper.
  same-IsDeepest :
      (b : ℤ) → lookup meta.pair_key fc.max_balances ≡ some b → balance ≤ℤ b → IsDeepest Grown fc
  same-IsDeepest b found below = record {
    upper = λ o g.
        ⊎_elim (h.upper o)
          (λ e.
            subst (λ o. (c : ℤ) × (lookup o.0.pair_key fc.max_balances ≡ some c) × (o.1 ≤ℤ c))
              (sym e) (b, found, below))
          g;
    held = λ k c e. let t = h.held k c e in (t.0, inl t.1, t.2, t.3, t.4);
  }

  offer-IsDeepest : IsDeepest Grown (offer meta balance fc)
  unfolding offer
  offer-IsDeepest = elim (Option-cases (lookup meta.pair_key fc.max_balances)) [
    | inl e ↦ rw (offer, e) (better-IsDeepest (λ b e'. absurd (ground arith)))
    | inr (b, e) ↦ elim (Bool-cases (ltb_ℤ b balance)) [
      | inl e' ↦ rw (offer, e, e') (better-IsDeepest (λ c e''. ground arith))
      | inr e' ↦ rw (offer, e, e') (same-IsDeepest b e (ground arith))
    ]
  ]

regroup :
    (P Q : PoolMeta × ℤ → Type 0) (fc : FeeSearch)
    → ((o : PoolMeta × ℤ) → P o → Q o)
    → ((o : PoolMeta × ℤ) → Q o → P o)
    → IsDeepest P fc
    → IsDeepest Q fc
regroup P Q fc there back h = record {
  upper = λ o q. h.upper o (back o q);
  held = λ k b e. let t = h.held k b e in (t.0, there t.0 t.1, t.2, t.3, t.4);
}

offers-IsDeepest :
    (offers : List (PoolMeta × ℤ)) (Seen : PoolMeta × ℤ → Type 0) (fc : FeeSearch)
    → IsDeepest Seen fc
    → IsDeepest (λ o. Seen o ⊎ Memᴰ o offers) (offer_all offers fc)
unfolding offer_all
offers-IsDeepest [] Seen fc h =
    regroup Seen _ fc (λ o s. inl s) (λ o t. ⊎_elim (λ s. s) (λ m. absurd (Memᴰ.not-nil m)) t) h
offers-IsDeepest (x ∷ xs) Seen fc h =
    regroup _ _ (offer_all xs (offer x.0 x.1 fc))
      (λ o t.
        ⊎_elim (λ g. ⊎_elim (λ s. inl s) (λ e. inr (Memᴰ.head e)) g) (λ m. inr (Memᴰ.tail m)) t)
      (λ o t.
        ⊎_elim (λ s. inl (inl s)) (λ m. ⊎_elim (λ e. inl (inr e)) (λ r. inr r) (Memᴰ.cases_cons m))
          t)
      (offers-IsDeepest xs (Grown Seen x.0 x.1 fc h) (offer x.0 x.1 fc)
        (offer-IsDeepest Seen x.0 x.1 fc h))

-- After the last loop of the cache build, the tracked balance of each pair is the largest one
-- offered for it, every pair that was offered has one, and the fee of the pair is that of an
-- offered pool with this balance.
pub offer_all-IsDeepest :
    (offers : List (PoolMeta × ℤ)) (fees : Assoc Text ℕ)
    → IsDeepest
        (λ o. Memᴰ o offers)
        (offer_all offers (record { best_fees = fees; max_balances = [] }))
offer_all-IsDeepest offers fees =
    let start : FeeSearch = record { best_fees = fees; max_balances = [] } in
    let none_yet : IsDeepest (λ o. ⊥) start = record {
      upper = λ o n. absurd n;
      held = λ k b e. absurd (ground (arith, lookup-nil {V = ℤ} k));
    } in
    regroup _ _ (offer_all offers start) (λ o t. ⊎_elim (λ n. absurd n) (λ m. m) t) (λ o m. inr m)
      (offers-IsDeepest offers (λ o. ⊥) start none_yet)
