-- ===== src/Graph/Filling.antt =====
-- The first filling of the store with the users that `GetAllUsersAtBlock` brings.
use mathlib.Core.Path.{subst}
use mathlib.Core.List.{Permᴰ, Memᴰ}
use mathlib.Core.List.Permᴰ as Permᴰ
use aave_v3_flash_liquidator.Prelude.{
  ◌≡◌, refl, sym, ap, ◌∙◌, ℕ, ◌<◌, Bool, true, false, List, [], ◌∷◌, map, Option, some, All, Assoc,
  inl, inr, length, arith,
}
use aave_v3_flash_liquidator.Text.{Text, to_lower, lower_byte}
use aave_v3_flash_liquidator.Run.{Run, ok, Ends, ends}
use aave_v3_flash_liquidator.Models.{EModeCategory}
use aave_v3_flash_liquidator.Store.{StateStore, find_reserve, set_anchor_block}
use aave_v3_flash_liquidator.Dex.{is_after}
use aave_v3_flash_liquidator.Multicall.{ReserveMaps}
use aave_v3_flash_liquidator.Bootstrap.{
  GraphReserve, GraphUser, Loaded, bootstrap, load_with, load_users, set_categories, set_configs,
  set_indices, category_set,
}
use aave_v3_flash_liquidator.Bootstrap.Users.{cleaned, is_empty, load_users-find_reserve}
use aave_v3_flash_liquidator.Graph.{
  GraphClient, Transport, active_borrowers, max_query_retries, Fetched, fetched,
  get_all_users_at_block, Variables,
}
use aave_v3_flash_liquidator.Graph.Order.{IsSorted, is_after_irrefl}
use aave_v3_flash_liquidator.Graph.Pages.{Answers, page_of}
use aave_v3_flash_liquidator.Graph.Borrowers.{
  IsLowerDigit, IsAccountId, AllAccounts, get_all_users_at_block-Permᴰ,
}

lower_digit : (c : ℕ) → IsLowerDigit c → lower_byte c ≡ c
lower_digit c (inl h) = ground (arith, h.0, h.1)
lower_digit c (inr h) = ground (arith, h.0, h.1)

lower_digits : (digits : Text) → All IsLowerDigit digits → to_lower digits ≡ digits
lower_digits [] h = refl
lower_digits (c ∷ digits) h =
    ap (λ d. d ∷ to_lower digits) (lower_digit c h.0) ∙ ap (λ r. c ∷ r) (lower_digits digits h.1)

lower_account : (id : Text) → IsAccountId id → to_lower id ≡ id
lower_account id h =
    subst (λ s. to_lower s ≡ s) (sym h.spelled)
      (ap (λ r. b'0' ∷ b'x' ∷ r) (lower_digits h.digits h.lower))

All-Memᴰ {ℓ κ} : {A : Type ℓ} (P : A → Type κ) {x : A} {xs : List A} → All P xs → Memᴰ x xs → P x
All-Memᴰ P h (Memᴰ.head e) = subst P (sym e) h.0
All-Memᴰ P h (Memᴰ.tail m) = All-Memᴰ P h.1 m

-- Users in order with the same identifier are the same.
sorted_unique :
    (u w : GraphUser) (users : List GraphUser)
    → IsSorted users
    → Memᴰ u users
    → Memᴰ w users
    → w.id ≡ u.id
    → w ≡ u
sorted_unique u w _ h (Memᴰ.head e) (Memᴰ.head e') same = e' ∙ sym e
sorted_unique u w _ h (Memᴰ.head {x} {xs} e) (Memᴰ.tail m) same =
    let later = All-Memᴰ (λ q. is_after q.id x.id ≡ true) h.0 m in
    absurd (ground (arith, later, is_after_irrefl x.id, same, ap (λ (q : GraphUser). q.id) e))
sorted_unique u w _ h (Memᴰ.tail {x} {xs} m) (Memᴰ.head e) same =
    let later = All-Memᴰ (λ q. is_after q.id x.id ≡ true) h.0 m in
    absurd (ground (arith, later, is_after_irrefl x.id, same, ap (λ (q : GraphUser). q.id) e))
sorted_unique u w _ h (Memᴰ.tail {x} {xs} m) (Memᴰ.tail k) same = sorted_unique u w xs h.1 m k same

accounts_unique :
    (users : List GraphUser) (u w : GraphUser)
    → IsSorted users
    → AllAccounts users
    → Memᴰ u users
    → Memᴰ w users
    → to_lower w.id ≡ to_lower u.id
    → w ≡ u
accounts_unique users u w sorted h m k same =
    let lower_u = lower_account u.id (All-Memᴰ (λ q. IsAccountId q.id) h m) in
    let lower_w = lower_account w.id (All-Memᴰ (λ q. IsAccountId q.id) h k) in
    sorted_unique u w users sorted m k (sym lower_w ∙ same ∙ lower_u)

Memᴰ-Permᴰ {ℓ} : {A : Type ℓ} {x : A} {xs ys : List A} → Permᴰ xs ys → Memᴰ x xs → Memᴰ x ys
Memᴰ-Permᴰ Permᴰ.nil m = elim m [ ]
Memᴰ-Permᴰ (Permᴰ.cons e p) (Memᴰ.head e') = Memᴰ.head (e' ∙ e)
Memᴰ-Permᴰ (Permᴰ.cons e p) (Memᴰ.tail m) = Memᴰ.tail (Memᴰ-Permᴰ p m)
Memᴰ-Permᴰ (Permᴰ.swap e e') (Memᴰ.head k) = Memᴰ.tail (Memᴰ.head (k ∙ e))
Memᴰ-Permᴰ (Permᴰ.swap e e') (Memᴰ.tail (Memᴰ.head k)) = Memᴰ.head (k ∙ e')
Memᴰ-Permᴰ (Permᴰ.swap e e') (Memᴰ.tail (Memᴰ.tail m)) = Memᴰ.tail (Memᴰ.tail m)
Memᴰ-Permᴰ (Permᴰ.trans p q) m = Memᴰ-Permᴰ q (Memᴰ-Permᴰ p m)

-- With indices, users and categories at hand, the filling ends in loading the users.
bootstrap-load_users :
    (block : ℕ) (reserves_at : ℕ → Option ReserveMaps) (users : List GraphUser)
    (categories_at : ℕ → List ℕ → Run (Option (Assoc ℕ EModeCategory))) (s : StateStore)
    (maps : ReserveMaps)
    → reserves_at block ≡ some maps
    → ((ids : List ℕ) → (m : Assoc ℕ EModeCategory) × (categories_at block ids ≡ ok (some m)))
    → (s' : StateStore) × (bootstrap (some block) reserves_at (λ _. some users) categories_at s
        ≡ ok (true, load_users users s'))
unfolding bootstrap load_with
bootstrap-load_users block reserves_at users categories_at s maps e replies =
    let s2 = set_configs maps.1 (set_indices maps.0 (set_anchor_block block s)) in
    let (s', e') = with_categories (category_set users []) s2 in (s', rw (bootstrap, e) e')
  where
    with_categories :
        (set : Assoc ℕ Bool) (s2 : StateStore)
        → (s' : StateStore) × (load_with (categories_at block) users set s2
            ≡ ok (true, load_users users s'))
    with_categories [] s2 = (s2, refl)
    with_categories (c ∷ set) s2 =
        let (m, e') = replies (map (λ x. x.0) (c ∷ set)) in
        (set_categories m s2, rw (load_with, e') refl)

module _ (transports : Text × Text → Transport) (g : GraphClient) (block : ℕ)
    (borrowers : List GraphUser) (sorted : IsSorted borrowers) (accounts : AllAccounts borrowers)
    (serves : (p : Text × Text) (v : Variables) (n : ℕ)
      → v.block_number ≡ block
      → (resp_data : Text) × Answers
          (transports p)
          g
          (active_borrowers v)
          resp_data
          max_query_retries
          n
        × ((transports p).decode_users resp_data
            ≡ some (record { users = page_of borrowers v; errors = 0 })))
    (order : List Fetched → List Fetched)
    (perm : (results : List Fetched) → Permᴰ (order results) results) where
  -- If The Graph serves each page of the borrowers, who are accounts in order with one reserve for
  -- each asset, if the indices can be read and all categories, then whatever the order in which the
  -- partitions arrive, the users are fetched and the filling of the store ends without an error,
  -- and the store holds each reserve of each borrower that is not of dust alone, with the cleaned
  -- amounts.
  pub bootstrap-borrowers :
      (fuel : ℕ) (reserves_at : ℕ → Option ReserveMaps) (maps : ReserveMaps)
      (categories_at : ℕ → List ℕ → Run (Option (Assoc ℕ EModeCategory))) (s : StateStore)
      → length borrowers < fuel
      → reserves_at block ≡ some maps
      → ((ids : List ℕ) → (m : Assoc ℕ EModeCategory) × (categories_at block ids ≡ ok (some m)))
      → ((u : GraphUser) (r q : GraphReserve)
          → Memᴰ u borrowers
          → Memᴰ r u.reserves
          → Memᴰ q u.reserves
          → to_lower r.underlying_asset ≡ to_lower q.underlying_asset
          → r ≡ q)
      → (users : List GraphUser) × (get_all_users_at_block order
            (λ _. false)
            transports
            g
            fuel
            block
          ≡ fetched users)
        × Ends
            (λ (t : Loaded).
              (t.0 ≡ true)
              × ((u : GraphUser) (res : GraphReserve)
                  → Memᴰ u borrowers
                  → Memᴰ res u.reserves
                  → is_empty res ≡ false
                  → find_reserve t.1 u.id (to_lower res.underlying_asset) ≡ some (cleaned res)))
            (bootstrap (some block) reserves_at (λ _. some users) categories_at s)
  bootstrap-borrowers fuel reserves_at maps categories_at s enough e replies distinct =
      let (users, fetch, p) =
        get_all_users_at_block-Permᴰ transports g block borrowers sorted serves fuel enough order
          perm accounts in
      let (s', e') = bootstrap-load_users block reserves_at users categories_at s maps e replies in
      let held : (u : GraphUser) (res : GraphReserve)
          → Memᴰ u borrowers
          → Memᴰ res u.reserves
          → is_empty res ≡ false
          → find_reserve (load_users users s') u.id (to_lower res.underlying_asset)
            ≡ some (cleaned res) =
        λ u res m k kept.
          let known =
            load_users-find_reserve u res kept k (λ r l. distinct u r res m l k) users s'
              (Memᴰ-Permᴰ (Permᴰ.symm p) m)
              (λ w l. accounts_unique borrowers u w sorted accounts m (Memᴰ-Permᴰ p l)) in
          let lower = lower_account u.id (All-Memᴰ (λ q. IsAccountId q.id) accounts m) in
          subst
            (λ v.
              find_reserve (load_users users s') v (to_lower res.underlying_asset)
              ≡ some (cleaned res))
            lower known in
      (users, fetch, subst (Ends _) (sym e') (ends (refl, held)))
