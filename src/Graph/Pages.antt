-- ===== src/Graph/Pages.antt =====
-- `fetchUserPartition`: the attempts for a page, and the loop over the pages.
use mathlib.Core.Path.{subst}
use mathlib.Core.List.{append-nil, append_assoc}
use aave_v3_flash_liquidator.Prelude.{
  ◌≡◌, refl, sym, ap, ◌∙◌, ℕ, zero, suc, ◌<◌, List, [], ◌∷◌, ◌++◌, take, drop, none, some, length,
  length-drop, arith, List-cases, inl, inr,
}
use aave_v3_flash_liquidator.Text.{Text}
use aave_v3_flash_liquidator.Bootstrap.{GraphUser}
use aave_v3_flash_liquidator.Graph.{
  Variables, GraphQuery, active_borrowers, GraphClient, Transport, do_query, max_query_retries,
  query_with_retry, fetched, last_user, read_page, fetch_pages, fetch_user_partition,
}
use aave_v3_flash_liquidator.Graph.Order.{
  between, IsSorted, AllBelow, AllAfter, between-IsSorted, between-AllBelow, between-AllAfter,
  between_later, last_user-AllAfter, between-last_user,
}

-- With so many attempts left, from the exchange with this number on, the first one that is no
-- error brings the text.
pub data Answers (t : Transport) (g : GraphClient) (query : GraphQuery) (resp_data : Text)
    : ℕ → ℕ → Type 0 where
  now :
      {left n : ℕ}
      → do_query t g query n ≡ some resp_data
      → Answers t g query resp_data (suc left) n
  later :
      {left n : ℕ}
      → do_query t g query n ≡ none
      → Answers t g query resp_data left (suc n)
      → Answers t g query resp_data (suc left) n

query_with_retry-Answers :
    (t : Transport) (g : GraphClient) (query : GraphQuery) (resp_data : Text) (left n : ℕ)
    → Answers t g query resp_data left n
    → (query_with_retry t g query left n).0 ≡ some resp_data
unfolding query_with_retry
query_with_retry-Answers t g query resp_data _ n (now e) = rw (query_with_retry, e) refl
query_with_retry-Answers t g query resp_data _ n (later {left} e h) =
    rw (query_with_retry, e) (query_with_retry-Answers t g query resp_data left (suc n) h)

-- The page of a query: the first borrowers between its identifiers.
abbrev pub page_of : List GraphUser → Variables → List GraphUser
page_of borrowers v = take v.limit (between v.last_id v.prefix_lt borrowers)

read_page-users :
    (t : Transport) (resp_data : Text) (users : List GraphUser)
    → t.decode_users resp_data ≡ some (record { users = users; errors = 0 })
    → read_page t (some resp_data) ≡ some users
unfolding read_page
read_page-users t resp_data users e = rw (read_page, e) refl

take-drop : {A : Type 0} (n : ℕ) (xs : List A) → take n xs ++ drop n xs ≡ xs
take-drop zero xs = refl
take-drop (suc n) [] = refl
take-drop (suc n) (x ∷ xs) = ap (λ r. x ∷ r) (take-drop n xs)

joined :
    {A : Type 0} (all : List A) (u : A) (users : List A) (k : ℕ)
    → (all ++ u ∷ take k users) ++ drop k users ≡ all ++ u ∷ users
joined all u users k =
    let tail : (u ∷ take k users) ++ drop k users ≡ u ∷ users =
      ap (λ r. u ∷ r) (take-drop k users) in
    append_assoc all (u ∷ take k users) (drop k users) ∙ ap (λ r. all ++ r) tail

module _ (t : Transport) (g : GraphClient) (block_number : ℕ) (borrowers : List GraphUser)
    (sorted : IsSorted borrowers)
    (serves : (v : Variables) (n : ℕ)
      → v.block_number ≡ block_number
      → (resp_data : Text) × Answers t g (active_borrowers v) resp_data max_query_retries n
        × (t.decode_users resp_data
            ≡ some (record { users = page_of borrowers v; errors = 0 }))) where
  -- What is left after a page with the first `suc k` users.
  left_after :
      (gt lt : Text) (k : ℕ) (u : GraphUser) (users : List GraphUser)
      → between gt lt borrowers ≡ u ∷ users
      → between (last_user u (take k users)).id lt borrowers ≡ drop k users
  left_after gt lt k u users e =
      let s = (last_user u (take k users)).id in
      let ordered : IsSorted (u ∷ users) =
        subst IsSorted e (between-IsSorted gt lt borrowers sorted) in
      let below : AllBelow lt (u ∷ users) =
        subst (AllBelow lt) e (between-AllBelow gt lt borrowers) in
      let above : AllAfter gt (u ∷ users) =
        subst (AllAfter gt) e (between-AllAfter gt lt borrowers) in
      sym (between_later s gt lt borrowers (last_user-AllAfter gt k u users above))
      ∙ ap (between s lt) e
      ∙ between-last_user lt k u users ordered below

  fetch_pages-between :
      (fuel n k : ℕ) (v : Variables) (all : List GraphUser)
      → v.block_number ≡ block_number
      → v.limit ≡ suc k
      → length (between v.last_id v.prefix_lt borrowers) < fuel
      → fetch_pages t g fuel v n all ≡ fetched (all ++ between v.last_id v.prefix_lt borrowers)
  unfolding fetch_pages
  fetch_pages-between zero n k v all hb hl h = absurd (omega arith)
  fetch_pages-between (suc fuel) n k v all hb hl h =
      let (resp_data, answers, decoded) = serves v n hb in
      let reply =
        query_with_retry-Answers t g (active_borrowers v) resp_data max_query_retries n answers in
      let page = read_page-users t resp_data (page_of borrowers v) decoded in
      elim (List-cases (between v.last_id v.prefix_lt borrowers)) [
        | inl e ↦ rw (fetch_pages, reply, page, hl, e) (ap fetched (sym (append-nil all)))
        | inr (u, users, e) ↦
            let v' = record v { last_id = (last_user u (take k users)).id } in
            let n' = (query_with_retry t g (active_borrowers v) max_query_retries n).1 in
            let more = left_after v.last_id v.prefix_lt k u users e in
            let shorter : length (between v'.last_id v.prefix_lt borrowers) < fuel =
              rw (more) (omega (arith, h, ap length e, length-drop k users)) in
            let rest = fetch_pages-between fuel n' k v' (all ++ u ∷ take k users) hb hl shorter in
            rw (fetch_pages, reply, page, hl, e)
              (rest
                ∙ ap fetched (ap (λ r. (all ++ u ∷ take k users) ++ r) more ∙ joined all u users k))
      ]

  -- If a node answers each query for the block, at the third attempt at the latest, with the first
  -- users in order between the identifiers, then with a positive limit and more fuel than such
  -- users the loop over the pages ends, with exactly the users between the two bounds in order.
  pub fetch_user_partition-between :
      (fuel limit : ℕ) (prefix_gt prefix_lt : Text)
      → 0 < limit
      → length (between prefix_gt prefix_lt borrowers) < fuel
      → fetch_user_partition t g fuel block_number prefix_gt prefix_lt limit
        ≡ fetched (between prefix_gt prefix_lt borrowers)
  unfolding fetch_user_partition
  fetch_user_partition-between fuel zero prefix_gt prefix_lt h k = absurd (omega arith)
  fetch_user_partition-between fuel (suc limit) prefix_gt prefix_lt h k =
      fetch_pages-between fuel 0 limit
        (record {
          block_number = block_number;
          last_id = prefix_gt;
          prefix_lt = prefix_lt;
          limit = suc limit;
        })
        [] refl refl k
