-- ===== src/Tests/Graphs.antt =====
-- Examples on the queries of The Graph: a node that fails every other time, and two borrowers.
use mathlib.Core.Path.{subst}
use mathlib.Core.List.{Permᴰ, Memᴰ}
use mathlib.Core.List.Memᴰ as Memᴰ
use mathlib.Core.List.Permᴰ as Permᴰ
use aave_v3_flash_liquidator.Prelude.{
  length, ◌<◌, ◌≡◌, ◌≢◌, refl, sym, ap, ◌∙◌, ℕ, zero, suc, ◌%◌, Bool, true, false, ◌&&◌, ◌||◌, ◌==◌,
  leb, List, [], ◌∷◌, ◌++◌, map, Option, some, none, All, Assoc, inl, inr, arith, Bool-cases,
  if◌then◌else◌, All-take,
}
use aave_v3_flash_liquidator.Text.{Text, codes, to_lower, text_eq}
use aave_v3_flash_liquidator.Run.{Run, ok, Ends}
use aave_v3_flash_liquidator.Models.{EModeCategory}
use aave_v3_flash_liquidator.Store.{find_reserve}
use aave_v3_flash_liquidator.Multicall.{ReserveMaps}
use aave_v3_flash_liquidator.Bootstrap.{GraphReserve, GraphUser, Loaded, bootstrap}
use aave_v3_flash_liquidator.Bootstrap.Users.{cleaned, is_empty}
use aave_v3_flash_liquidator.Dex.{is_after}
use aave_v3_flash_liquidator.Graph.{
  GraphClient, GraphQuery, block_meta, active_borrowers, Variables, Transport, do_query,
  new_request, read_response, max_query_retries, Fetched, fetched, fetch_user_partition,
  fetch_partitions, receive_results, fetch_pages, query_with_retry, read_page, last_user,
  partitions, get_all_users_at_block, status_ok, last_prefix,
}
use aave_v3_flash_liquidator.Graph.Order.{between, is_between, IsSorted}
use aave_v3_flash_liquidator.Graph.Pages.{
  Answers, now, later, page_of, fetch_user_partition-between,
}
use aave_v3_flash_liquidator.Graph.Partitions.{join}
use aave_v3_flash_liquidator.Graph.Arrivals.{IsFetched, users_of, get_all_users_at_block-fetched}
use aave_v3_flash_liquidator.Graph.Borrowers.{
  IsLowerDigit, AllAccounts, get_all_users_at_block-Permᴰ,
}
use aave_v3_flash_liquidator.Graph.Filling.{bootstrap-borrowers}
use aave_v3_flash_liquidator.Tests.{weth, quiet}

abbrev weth_reserve : GraphReserve
weth_reserve = record {
  underlying_asset = weth;
  scaled_a_token_balance = codes "5000";
  scaled_variable_debt = codes "0";
  usage_as_collateral_enabled_on_user = true;
}

abbrev borrower : Text → GraphUser
borrower id = record { id = id; e_mode_category_id = none; reserves = weth_reserve ∷ [] }

abbrev low : GraphUser
low = borrower (codes "0x0a00000000000000000000000000000000000001")

abbrev high : GraphUser
high = borrower (codes "0xff00000000000000000000000000000000000002")

abbrev two_users : List GraphUser
two_users = low ∷ high ∷ []

abbrev is_lower_digit : ℕ → Bool
is_lower_digit c = (leb b'0' c && leb c b'9') || (leb b'a' c && leb c b'f')

digit_test : (c : ℕ) → is_lower_digit c ≡ true → IsLowerDigit c
digit_test c h = elim (Bool-cases (leb b'0' c && leb c b'9')) [
  | inl e ↦ inl (ground (arith, e), ground (arith, e))
  | inr e ↦ inr (ground (arith, h, e), ground (arith, h, e))
]

abbrev are_lower_digits : Text → Bool
are_lower_digits [] = true
are_lower_digits (c ∷ digits) = is_lower_digit c && are_lower_digits digits

digits_test : (digits : Text) → are_lower_digits digits ≡ true → All IsLowerDigit digits
digits_test [] h = tt
digits_test (c ∷ digits) h =
    (digit_test c (ground (arith, h)), digits_test digits (ground (arith, h)))

different : (s t : Text) → text_eq.beq s t ≡ false → s ≢ t
different s t h e = ground (arith, h, (text_eq.beq_iff s t).1 e)

two_accounts : AllAccounts two_users
two_accounts = (
  record {
    digits = codes "0a00000000000000000000000000000000000001";
    spelled = refl;
    size = refl;
    lower = digits_test (codes "0a00000000000000000000000000000000000001") refl;
    not_last = different _ _ refl;
  },
  (
    record {
      digits = codes "ff00000000000000000000000000000000000002";
      spelled = refl;
      size = refl;
      lower = digits_test (codes "ff00000000000000000000000000000000000002") refl;
      not_last = different _ _ refl;
    },
    tt,
  ),
)

two-IsSorted : IsSorted two_users
unfolding is_after
two-IsSorted = ((refl, tt), (tt, tt))

-- A reply spells a user as one byte.
abbrev spell : GraphUser → ℕ
spell u = if text_eq.beq u.id low.id then 0 else 1

abbrev spelled_user : ℕ → GraphUser
spelled_user zero = low
spelled_user (suc n) = high

abbrev graph : GraphClient
graph = record { endpoint = codes "https"; api_key = codes "key" }

-- A request holds the reply that it brings, at every second exchange.
abbrev content_of : GraphQuery → Text
content_of block_meta = []
content_of (active_borrowers v) = map spell (page_of two_users v)

abbrev node : Transport
node = record {
  marshal = λ query. some (content_of query);
  is_url = λ url. true;
  send = λ n req.
      if n % 2 == 0
      then none
      else some (record { status_code = status_ok; content = some req.content });
  decode_block = λ t. some 7;
  decode_users = λ t. some (record { users = map spelled_user t; errors = 0 });
}

answered :
    (query : GraphQuery) (n : ℕ) → n % 2 ≡ 1 → do_query node graph query n ≡ some (content_of query)
unfolding do_query new_request read_response
answered query n h = ground (arith, h)

silent : (query : GraphQuery) (n : ℕ) → n % 2 ≡ 0 → do_query node graph query n ≡ none
unfolding do_query new_request read_response
silent query n h = ground (arith, h)

answers :
    (query : GraphQuery) (n : ℕ) → Answers node graph query (content_of query) max_query_retries n
answers query n = elim (Bool-cases (n % 2 == 0)) [
  | inl e ↦
      later (silent query n (ground (arith, e))) (now (answered query (suc n) (ground (arith, e))))
  | inr e ↦ now (answered query n (ground (arith, e)))
]

Spelled : GraphUser → Type 0
Spelled u = spelled_user (spell u) ≡ u

between-Spelled :
    (gt lt : Text) (users : List GraphUser) → All Spelled users → All Spelled (between gt lt users)
unfolding between
between-Spelled gt lt [] h = tt
between-Spelled gt lt (u ∷ users) h = elim (Bool-cases (is_between gt lt u)) [
  | inl e ↦ rw (between, e) (h.0, between-Spelled gt lt users h.1)
  | inr e ↦ rw (between, e) (between-Spelled gt lt users h.1)
]

read_back :
    (users : List GraphUser) → All Spelled users → map spelled_user (map spell users) ≡ users
unfolding Spelled
read_back [] h = refl
read_back (u ∷ users) h = rw (h.0, read_back users h.1) refl

serves :
    (block_number : ℕ) (v : Variables) (n : ℕ)
    → v.block_number ≡ block_number
    → (resp_data : Text) × Answers node graph (active_borrowers v) resp_data max_query_retries n
      × (node.decode_users resp_data ≡ some (record { users = page_of two_users v; errors = 0 }))
unfolding Spelled
serves block_number v n h = (
  content_of (active_borrowers v),
  answers (active_borrowers v) n,
  ap (λ users. some (record { users = users; errors = 0 }))
      (read_back (page_of two_users v) (
        All-take Spelled v.limit _
          (between-Spelled v.last_id v.prefix_lt two_users (refl, (refl, tt))))),
)

fetch_user_partition-between_example :
    fetch_user_partition node graph 9 7 (codes "0xf") last_prefix 1 ≡ fetched (high ∷ [])
unfolding between is_after
fetch_user_partition-between_example =
    fetch_user_partition-between node graph 7 two_users two-IsSorted (serves 7) 9 1 (codes "0xf")
      last_prefix (omega arith) (omega arith)

-- The first result comes last.
abbrev rotate : List Fetched → List Fetched
rotate [] = []
rotate (r ∷ results) = results ++ (r ∷ [])

rotate-Permᴰ : (results : List Fetched) → Permᴰ (rotate results) results
rotate-Permᴰ [] = Permᴰ.nil
rotate-Permᴰ (r ∷ results) = Permᴰ.append_comm results (r ∷ [])

get_all_users_at_block-Permᴰ_example :
    (users : List GraphUser) × (get_all_users_at_block rotate (λ _. false) (λ p. node) graph 9 7
      ≡ fetched users)
    × Permᴰ users two_users
get_all_users_at_block-Permᴰ_example =
    get_all_users_at_block-Permᴰ (λ p. node) graph 7 two_users two-IsSorted (λ p. serves 7) 9
      (omega arith) rotate rotate-Permᴰ two_accounts

get_all_users_at_block-fetched_example :
    let results = fetch_partitions (λ p. node) graph 9 7 in
    All IsFetched results
    × Permᴰ (high ∷ low ∷ []) (join (map users_of results))
    × ((k : ℕ) → k < length partitions → false ≡ false)
unfolding get_all_users_at_block fetch_partitions receive_results fetch_user_partition fetch_pages
    query_with_retry do_query new_request read_response read_page last_user between is_after
get_all_users_at_block-fetched_example =
    get_all_users_at_block-fetched rotate rotate-Permᴰ (λ _. false) (λ p. node) graph 9 7
      (high ∷ low ∷ []) refl

abbrev maps : ReserveMaps
maps = ([], [])

abbrev no_categories : ℕ → List ℕ → Run (Option (Assoc ℕ EModeCategory))
no_categories block ids = ok (some [])

one_reserve :
    (u : GraphUser) (r q : GraphReserve)
    → Memᴰ u two_users
    → Memᴰ r u.reserves
    → Memᴰ q u.reserves
    → to_lower r.underlying_asset ≡ to_lower q.underlying_asset
    → r ≡ q
one_reserve u r q m k l same =
    let only_reserve : u.reserves ≡ weth_reserve ∷ [] = reserves_of m in
    let first = Memᴰ.eq_of_singleton (subst (Memᴰ r) only_reserve k) in
    let second = Memᴰ.eq_of_singleton (subst (Memᴰ q) only_reserve l) in first ∙ sym second
  where
    reserves_of : Memᴰ u two_users → u.reserves ≡ weth_reserve ∷ []
    reserves_of (Memᴰ.head e) = ap (λ (w : GraphUser). w.reserves) e
    reserves_of (Memᴰ.tail (Memᴰ.head e)) = ap (λ (w : GraphUser). w.reserves) e
    reserves_of (Memᴰ.tail (Memᴰ.tail k)) = elim k [ ]

bootstrap-borrowers_example :
    (users : List GraphUser) × (get_all_users_at_block rotate (λ _. false) (λ p. node) graph 9 7
      ≡ fetched users)
    × Ends
        (λ (t : Loaded).
          (t.0 ≡ true)
          × ((u : GraphUser) (res : GraphReserve)
              → Memᴰ u two_users
              → Memᴰ res u.reserves
              → is_empty res ≡ false
              → find_reserve t.1 u.id (to_lower res.underlying_asset) ≡ some (cleaned res)))
        (bootstrap (some 7) (λ b. some maps) (λ b. some users) no_categories quiet)
bootstrap-borrowers_example =
    bootstrap-borrowers (λ p. node) graph 7 two_users two-IsSorted two_accounts (λ p. serves 7)
      rotate rotate-Permᴰ 9 (λ b. some maps) maps no_categories quiet (omega arith) refl
      (λ ids. ([], refl)) one_reserve
