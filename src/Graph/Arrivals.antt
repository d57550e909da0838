-- ===== src/Graph/Arrivals.antt =====
-- The loop of `GetAllUsersAtBlock` over what the partitions deliver.
use mathlib.Core.Path.{subst}
use mathlib.Core.List.{Permᴰ, append-nil, append_assoc}
use mathlib.Core.List.Permᴰ as Permᴰ
use aave_v3_flash_liquidator.Prelude.{
  ◌≡◌, refl, sym, ap, ◌∙◌, ℕ, zero, suc, ◌<◌, ◌==◌, length, Bool-cases, inl, inr, if◌then◌else◌,
  Bool, true, false, List, [], ◌∷◌, ◌++◌, arith, All, map,
}
use aave_v3_flash_liquidator.Bootstrap.{GraphUser}
use aave_v3_flash_liquidator.Graph.{
  Fetched, fetched, failed, unfinished, receive_results, partitions, Transport, GraphClient,
  get_all_users_at_block, fetch_partitions,
}
use aave_v3_flash_liquidator.Text.{Text}
use aave_v3_flash_liquidator.Graph.Partitions.{join}

-- The users of a result, none if it is no list of users.
abbrev pub users_of : Fetched → List GraphUser
users_of (fetched users) = users
users_of failed = []
users_of unfinished = []

abbrev pub IsFetched : Fetched → Type 0
IsFetched r = r ≡ fetched (users_of r)

not_done :
    (done : ℕ → Bool) (left : ℕ)
    → done left ≡ false
    → ((k : ℕ) → k < left → done k ≡ false)
    → (k : ℕ) → k < suc left
    → done k ≡ false
not_done done left d live k p = elim (Bool-cases (k == left)) [
  | inl last ↦ subst (λ j. done j ≡ false) (ground (arith, last)) d
  | inr other ↦ live k (ground (arith, other, p))
]

-- The loop brings users only if all results are lists of users, and then brings all of them.
receive_results-fetched :
    (done : ℕ → Bool) (left : ℕ) (results : List Fetched) (first_err : Bool)
    (all users : List GraphUser)
    → length results ≡ left
    → receive_results done left results first_err all ≡ fetched users
    → All IsFetched results
      × (users ≡ all ++ join (map users_of results))
      × (first_err ≡ false)
      × ((k : ℕ) → k < left → done k ≡ false)
unfolding receive_results
receive_results-fetched done zero [] true all users n h = absurd (ground (arith, h))
receive_results-fetched done zero [] false all users n h =
    (tt, grind (arith, h, append-nil all), refl, λ k p. absurd (omega (arith, p)))
receive_results-fetched done zero (r ∷ results) first_err all users n h = absurd (omega (arith, n))
receive_results-fetched done (suc left) [] first_err all users n h = absurd (omega (arith, n))
receive_results-fetched done (suc left) (fetched part ∷ results) first_err all users n h =
    elim (Bool-cases (done left)) [
      | inl d ↦ absurd (ground (arith, h, d))
      | inr d ↦
          let (good, total, clean, live) =
            receive_results-fetched done left results first_err (all ++ part) users
              (omega (arith, n))
              (subst
                (λ b.
                  (if b then failed else receive_results done left results first_err (all ++ part))
                  ≡ fetched users)
                d h) in
          (
            (refl, good),
            total ∙ append_assoc all part (join (map users_of results)),
            clean,
            not_done done left d live,
          )
    ]
receive_results-fetched done (suc left) (failed ∷ results) first_err all users n h =
    elim (Bool-cases (done left)) [
      | inl d ↦ absurd (ground (arith, h, d))
      | inr d ↦
          let (good, total, clean, live) =
            receive_results-fetched done left results true all users (omega (arith, n)) (
              subst
                (λ b.
                  (if b then failed else receive_results done left results true all)
                  ≡ fetched users)
                d h) in
          absurd (ground (arith, clean))
    ]
receive_results-fetched done (suc left) (unfinished ∷ results) first_err all users n h =
    absurd (ground (arith, h))

receive_results-delivered :
    (results : List Fetched) (left : ℕ) (all : List GraphUser)
    → length results ≡ left
    → All IsFetched results
    → receive_results (λ _. false) left results false all
      ≡ fetched (all ++ join (map users_of results))
unfolding receive_results
receive_results-delivered [] zero all n h = ap fetched (sym (append-nil all))
receive_results-delivered [] (suc left) all n h = absurd (omega (arith, n))
receive_results-delivered (r ∷ results) zero all n h = absurd (omega (arith, n))
receive_results-delivered (r ∷ results) (suc left) all n h =
    rw (receive_results, h.0)
      (receive_results-delivered results left (all ++ users_of r) (omega (arith, n)) h.1
        ∙ ap fetched (append_assoc all (users_of r) (join (map users_of results))))

length-Permᴰ {ℓ} : {A : Type ℓ} {xs ys : List A} → Permᴰ xs ys → length xs ≡ length ys
length-Permᴰ Permᴰ.nil = refl
length-Permᴰ (Permᴰ.cons e p) = ap suc (length-Permᴰ p)
length-Permᴰ (Permᴰ.swap e e') = refl
length-Permᴰ (Permᴰ.trans p q) = length-Permᴰ p ∙ length-Permᴰ q

All-Permᴰ {ℓ κ} : {A : Type ℓ} (P : A → Type κ) {xs ys : List A} → Permᴰ xs ys → All P xs → All P ys
All-Permᴰ P Permᴰ.nil h = h
All-Permᴰ P (Permᴰ.cons e p) h = (subst P e h.0, All-Permᴰ P p h.1)
All-Permᴰ P (Permᴰ.swap {a} {b} e e') h = (subst P e' h.1.0, (subst P e h.0, h.1.1))
All-Permᴰ P (Permᴰ.trans p q) h = All-Permᴰ P q (All-Permᴰ P p h)

join-append {ℓ} :
    {A : Type ℓ} (xs ys : List A) (xss : List (List A))
    → Permᴰ (xs ++ (ys ++ join xss)) (ys ++ (xs ++ join xss))
join-append xs ys xss =
    subst (λ l. Permᴰ (xs ++ (ys ++ join xss)) l) (append_assoc ys xs (join xss))
      (subst (λ l. Permᴰ l ((ys ++ xs) ++ join xss)) (append_assoc xs ys (join xss))
        (Permᴰ.append_right (join xss) (Permᴰ.append_comm xs ys)))

-- The lists one after another, in another order.
join-Permᴰ {ℓ} :
    {A B : Type ℓ} (f : A → List B) {xs ys : List A}
    → Permᴰ xs ys
    → Permᴰ (join (map f xs)) (join (map f ys))
join-Permᴰ f Permᴰ.nil = Permᴰ.nil
join-Permᴰ f (Permᴰ.cons {a} {b} {l₁} {l₂} e p) =
    subst (λ c. Permᴰ (f a ++ join (map f l₁)) (f c ++ join (map f l₂))) e
      (Permᴰ.append_left (f a) (join-Permᴰ f p))
join-Permᴰ f (Permᴰ.swap {a} {b} {a'} {b'} {l} e e') =
    rw (e, e') (join-append (f b') (f a') (map f l))
join-Permᴰ f (Permᴰ.trans p q) = Permᴰ.trans (join-Permᴰ f p) (join-Permᴰ f q)

-- Results that are all lists of users, received in any order.
pub receive_results-Permᴰ :
    (order : List Fetched → List Fetched) (results : List Fetched)
    → ((rs : List Fetched) → Permᴰ (order rs) rs)
    → All IsFetched results
    → (users : List GraphUser) × (receive_results
          (λ _. false)
          (length results)
          (order results)
          false
          []
        ≡ fetched users)
      × Permᴰ users (join (map users_of results))
unfolding Permᴰ.symm
receive_results-Permᴰ order results perm h = (
  join (map users_of (order results)),
  receive_results-delivered (order results) (length results) [] (length-Permᴰ (perm results))
      (All-Permᴰ IsFetched (Permᴰ.symm (perm results)) h),
  join-Permᴰ users_of (perm results),
)

-- In whatever order the results of the partitions arrive, if the fetch of all users brings users,
-- then each partition was fetched to its end, the users are those of all partitions, each as often
-- as there, and no round found the context done: no failed or cancelled partition leads to a part
-- of the users.
pub get_all_users_at_block-fetched :
    (order : List Fetched → List Fetched)
    → ((results : List Fetched) → Permᴰ (order results) results)
    → (done : ℕ → Bool) (transports : Text × Text → Transport) (g : GraphClient)
      (fuel block_number : ℕ) (users : List GraphUser)
    → get_all_users_at_block order done transports g fuel block_number ≡ fetched users
    → let results = fetch_partitions transports g fuel block_number in
      All IsFetched results
      × Permᴰ users (join (map users_of results))
      × ((k : ℕ) → k < length partitions → done k ≡ false)
unfolding get_all_users_at_block fetch_partitions
get_all_users_at_block-fetched order perm done transports g fuel block_number users h =
    let results = fetch_partitions transports g fuel block_number in
    let (good, total, clean, live) =
      receive_results-fetched done (length partitions) (order results) false [] users
        (length-Permᴰ (perm results)) h in
    (
      All-Permᴰ IsFetched (perm results) good,
      subst (λ l. Permᴰ l (join (map users_of results))) (sym total)
          (join-Permᴰ users_of (perm results)),
      live,
    )
