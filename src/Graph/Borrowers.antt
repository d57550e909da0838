-- ===== src/Graph/Borrowers.antt =====
-- `GetAllUsersAtBlock` on accounts: the 16 partitions leave out no address but the last one.
use mathlib.Core.Path.{subst}
use mathlib.Core.List.{Permᴰ}
use aave_v3_flash_liquidator.Prelude.{
  ◌≡◌, ◌≢◌, refl, sym, ap, ◌∙◌, ℕ, zero, suc, ◌<◌, ◌≤◌, Bool, true, false, List, [], ◌∷◌, some,
  length, drop, replicate, arith, Bool-cases, inl, inr, All, map, ◌==◌, ◌||◌, ◌&&◌, ◌⊎◌,
}
use aave_v3_flash_liquidator.Text.{Text, codes, text_eq}
use aave_v3_flash_liquidator.Dex.{is_after}
use aave_v3_flash_liquidator.Dex.Fees.{is_after_total}
use aave_v3_flash_liquidator.Bootstrap.{GraphUser}
use aave_v3_flash_liquidator.Graph.{
  GraphClient, Transport, active_borrowers, max_query_retries, partitions, partition_bounds,
  last_prefix, limit_per_page, Fetched, fetched, fetch_user_partition, fetch_partitions,
  get_all_users_at_block, Variables,
}
use aave_v3_flash_liquidator.Graph.Order.{between, between_all, AllAfter, AllBelow, IsSorted}
use aave_v3_flash_liquidator.Graph.Pages.{Answers, page_of, fetch_user_partition-between}
use aave_v3_flash_liquidator.Graph.Partitions.{join, join-pair_up, part_of, IsAscending}
use aave_v3_flash_liquidator.Graph.Arrivals.{IsFetched, users_of, receive_results-Permᴰ}

abbrev pub IsLowerDigit : ℕ → Type 0
IsLowerDigit c = ((b'0' ≤ c) × (c ≤ b'9')) ⊎ ((b'a' ≤ c) × (c ≤ b'f'))

digit_bounds : (c : ℕ) → IsLowerDigit c → (b'0' ≤ c) × (c ≤ b'f')
digit_bounds c (inl h) = (h.0, omega (arith, h.1))
digit_bounds c (inr h) = (omega (arith, h.0), h.1)

-- 0x and 40 digits in lower case, which are not all the digit f.
pub record IsAccountId (id : Text) : Type 0 where
  pub digits : Text
  pub spelled : id ≡ b'0' ∷ b'x' ∷ digits
  pub size : length digits ≡ 40
  pub lower : All IsLowerDigit digits
  pub not_last : id ≢ last_prefix

not_after_last :
    (n : ℕ) (digits : Text)
    → length digits ≡ n
    → All IsLowerDigit digits
    → is_after digits (replicate n b'f') ≡ false
unfolding is_after
not_after_last n [] h lower = refl
not_after_last zero (c ∷ digits) h lower = absurd (omega arith)
not_after_last (suc n) (c ∷ digits) h lower =
    let rest = not_after_last n digits (omega (arith, h)) lower.1 in
    let bound : c ≤ b'f' = (digit_bounds c lower.0).1 in ground (arith, rest, bound)

account-below : (id : Text) → IsAccountId id → is_after last_prefix id ≡ true
unfolding is_after
account-below id h =
    let not_after : is_after id last_prefix ≡ false =
      subst (λ s. is_after s last_prefix ≡ false) (sym h.spelled)
        (not_after_last 40 h.digits h.size h.lower) in
    elim (Bool-cases (is_after last_prefix id)) [
      | inl e ↦ e
      | inr e ↦ absurd (h.not_last (is_after_total id last_prefix not_after e))
    ]

after_zero :
    (digits : Text)
    → length digits ≡ 40
    → All IsLowerDigit digits
    → is_after (b'0' ∷ b'x' ∷ digits) (codes "0x0") ≡ true
unfolding is_after
after_zero [] h lower = absurd (omega (arith, h))
after_zero (c ∷ []) h lower = absurd (omega (arith, h))
after_zero (c ∷ d ∷ digits) h lower =
    let bound : b'0' ≤ c = (digit_bounds c lower.0).0 in ground (arith, bound)

account-above : (id : Text) → IsAccountId id → is_after id (codes "0x0") ≡ true
account-above id h =
    subst (λ s. is_after s (codes "0x0") ≡ true) (sym h.spelled)
      (after_zero h.digits h.size h.lower)

-- A bound is shorter than an account, or is the last one.
is_bound : Text → Bool
is_bound b = length b == 3 || text_eq.beq b last_prefix

account-apart : (id b : Text) → IsAccountId id → is_bound b ≡ true → id ≢ b
unfolding is_bound
account-apart id b h k e = elim (Bool-cases (text_eq.beq b last_prefix)) [
  | inl last ↦ h.not_last (e ∙ (text_eq.beq_iff b last_prefix).0 last)
  | inr other ↦ absurd (ground (arith, h.size, k, other, ap length (sym h.spelled ∙ e)))
]

abbrev pub AllAccounts : List GraphUser → Type 0
AllAccounts = All (λ u. IsAccountId u.id)

accounts-apart :
    (b : Text) (users : List GraphUser)
    → is_bound b ≡ true
    → AllAccounts users
    → All (λ u. u.id ≢ b) users
accounts-apart b [] k h = tt
accounts-apart b (u ∷ users) k h = (account-apart u.id b h.0 k, accounts-apart b users k h.1)

-- The test of all bounds, and that they ascend.
are_bounds : Text → List Text → Bool
unfolding is_bound
are_bounds gt [] = true
are_bounds gt (lt ∷ bounds) =
    let rest = are_bounds lt bounds in is_bound lt && is_after lt gt && rest

bounds-IsAscending :
    (gt : Text) (bounds : List Text) → are_bounds gt bounds ≡ true → IsAscending gt bounds
unfolding are_bounds
bounds-IsAscending gt [] h = tt
bounds-IsAscending gt (lt ∷ bounds) h =
    (ground (arith, h), bounds-IsAscending lt bounds (ground (arith, h)))

bounds-apart :
    (gt : Text) (bounds : List Text) (users : List GraphUser)
    → are_bounds gt bounds ≡ true
    → AllAccounts users
    → All (λ b. All (λ u. u.id ≢ b) users) bounds
unfolding are_bounds
bounds-apart gt [] users h accounts = tt
bounds-apart gt (lt ∷ bounds) users h accounts = (
  accounts-apart lt users (ground (arith, h)) accounts,
  bounds-apart lt bounds users (ground (arith, h)) accounts,
)

accounts-within :
    (users : List GraphUser)
    → AllAccounts users
    → AllAfter (codes "0x0") users × AllBelow last_prefix users
accounts-within [] h = (tt, tt)
accounts-within (u ∷ users) h =
    let (above, below) = accounts-within users h.1 in
    ((account-above u.id h.0, above), (account-below u.id h.0, below))

-- The partitions of accounts in order are the accounts.
partitions-join :
    (users : List GraphUser)
    → IsSorted users
    → AllAccounts users
    → join (map (part_of users) partitions) ≡ users
unfolding are_bounds is_bound is_after
partitions-join users sorted h =
    let (above, below) = accounts-within users h in
    join-pair_up users (codes "0x0") (codes "0x1") (drop 1 partition_bounds) sorted
      (bounds-IsAscending (codes "0x0") partition_bounds refl)
      (bounds-apart (codes "0x0") partition_bounds users refl h)
    ∙ between_all (codes "0x0") last_prefix users above below

length-between :
    (gt lt : Text) (users : List GraphUser) → length (between gt lt users) ≤ length users
unfolding between
length-between gt lt [] = omega arith
length-between gt lt (u ∷ users) = ground (arith, length-between gt lt users)

module _ (transports : Text × Text → Transport) (g : GraphClient) (block_number : ℕ)
    (borrowers : List GraphUser) (sorted : IsSorted borrowers)
    (serves : (p : Text × Text) (v : Variables) (n : ℕ)
      → v.block_number ≡ block_number
      → (resp_data : Text) × Answers
          (transports p)
          g
          (active_borrowers v)
          resp_data
          max_query_retries
          n
        × ((transports p).decode_users resp_data
            ≡ some (record { users = page_of borrowers v; errors = 0 })))
    (fuel : ℕ) (enough : length borrowers < fuel) where
  fetch_partition : Text × Text → Fetched
  fetch_partition p = fetch_user_partition (transports p) g fuel block_number p.0 p.1 limit_per_page

  fetch_partition_lem : (p : Text × Text) → fetch_partition p ≡ fetched (part_of borrowers p)
  unfolding fetch_partition
  fetch_partition_lem p =
      fetch_user_partition-between (transports p) g block_number borrowers sorted (serves p) fuel
        limit_per_page p.0 p.1 (omega arith)
        (omega (arith, enough, length-between p.0 p.1 borrowers))

  All-IsFetched :
      (ps : List (Text × Text))
      → All IsFetched (map fetch_partition ps)
        × (map users_of (map fetch_partition ps) ≡ map (part_of borrowers) ps)
  All-IsFetched [] = (tt, refl)
  All-IsFetched (p ∷ ps) =
      let (good, same) = All-IsFetched ps in
      let e = fetch_partition_lem p in
      ((e ∙ ap fetched (sym (ap users_of e)), good), rw (e, same) refl)

  -- If each partition is served the pages of the borrowers, who are accounts in order and fewer
  -- than the fuel, at the third attempt at the latest, then the fetch of all users ends with each
  -- borrower as often as in the list, whatever the order in which the partitions arrive.
  pub get_all_users_at_block-Permᴰ :
      (order : List Fetched → List Fetched)
      → ((results : List Fetched) → Permᴰ (order results) results)
      → AllAccounts borrowers
      → (users : List GraphUser) × (get_all_users_at_block order
            (λ _. false)
            transports
            g
            fuel
            block_number
          ≡ fetched users)
        × Permᴰ users borrowers
  unfolding get_all_users_at_block fetch_partitions fetch_partition
  get_all_users_at_block-Permᴰ order perm h =
      let (good, same) = All-IsFetched partitions in
      let (users, e, p) = receive_results-Permᴰ order (map fetch_partition partitions) perm good in
      let total : join (map users_of (map fetch_partition partitions)) ≡ borrowers =
        ap join same ∙ partitions-join borrowers sorted h in
      (users, e, subst (Permᴰ users) total p)
