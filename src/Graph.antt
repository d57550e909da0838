-- ===== src/Graph.antt =====
-- internal/rpc/graph_client.go: the borrowers of a block, asked of The Graph page by page in 16
-- partitions. HTTP and the JSON coder are parameters: `Transport`.
pub mod Order
pub mod Pages
pub mod Partitions
pub mod Arrivals
pub mod Borrowers
pub mod Filling
use aave_v3_flash_liquidator.Prelude.{
  ℕ, zero, suc, Bool, true, false, List, [], ◌∷◌, ◌++◌, map, Option, none, some, ltb, ◌==◌,
  if◌then◌else◌, length,
}
use aave_v3_flash_liquidator.Text.{Text, codes, text_beq}
use aave_v3_flash_liquidator.Bootstrap.{GraphUser}

pub record GraphClient : Type 0 where
  pub endpoint : Text
  pub api_key : Text

-- The variables of the query for active borrowers.
pub record Variables : Type 0 where
  pub block_number : ℕ
  pub last_id : Text
  pub prefix_lt : Text
  pub limit : ℕ

pub data GraphQuery : Type 0 where
  block_meta : GraphQuery
  active_borrowers : Variables → GraphQuery

pub record GraphRequest : Type 0 where
  pub url : Text
  pub authorization : Option Text
  pub content : Text

-- `none` is a body that cannot be read to its end.
pub record GraphResponse : Type 0 where
  pub status_code : ℕ
  pub content : Option Text

-- The members "data.users" and, counted, "errors" of a reply.
pub record UsersReply : Type 0 where
  pub users : List GraphUser
  pub errors : ℕ

-- The JSON coder, the check of a URL, and what the request with a number brings.
pub record Transport : Type 0 where
  pub marshal : GraphQuery → Option Text
  pub is_url : Text → Bool
  pub send : ℕ → GraphRequest → Option GraphResponse
  pub decode_block : Text → Option ℕ
  pub decode_users : Text → Option UsersReply

abbrev pub status_ok : ℕ
status_ok = 200

unfoldable pub new_request : GraphClient → Text → GraphRequest
new_request g content = record {
  url = g.endpoint;
  authorization = if text_beq g.api_key [] then none else some (codes "Bearer " ++ g.api_key);
  content = content;
}

unfoldable pub read_response : Option GraphResponse → Option Text
read_response none = none
read_response (some resp) = if resp.status_code == status_ok then resp.content else none

-- One exchange, the one with the number `n`; `none` is an error.
unfoldable pub do_query : Transport → GraphClient → GraphQuery → ℕ → Option Text
do_query t g query n = elim (t.marshal query) [
  | none ↦ none
  | some content ↦
      if t.is_url g.endpoint then read_response (t.send n (new_request g content)) else none
]

unfoldable pub get_anchor_block : Transport → GraphClient → Option ℕ
get_anchor_block t g = elim (do_query t g block_meta 0) [
  | none ↦ none
  | some resp_data ↦ elim (t.decode_block resp_data) [
    | none ↦ none
    | some number ↦ if number == 0 then none else some number
  ]
]

abbrev pub max_query_retries : ℕ
max_query_retries = 3

-- The attempts for one page, with how many are left; and the number of the next exchange.
unfoldable pub query_with_retry : Transport → GraphClient → GraphQuery → ℕ → ℕ → Option Text × ℕ
query_with_retry t g query zero n = (none, n)
query_with_retry t g query (suc left) n = elim (do_query t g query n) [
  | none ↦ query_with_retry t g query left (suc n)
  | some resp_data ↦ (some resp_data, suc n)
]

-- `unfinished` is a loop that has not come to its end on the fuel given.
pub data Fetched : Type 0 where
  fetched : List GraphUser → Fetched
  failed : Fetched
  unfinished : Fetched

unfoldable pub last_user : GraphUser → List GraphUser → GraphUser
last_user u [] = u
last_user u (v ∷ users) = last_user v users

-- What a page is, as the checks after the attempts leave it: `none` is an error.
unfoldable pub read_page : Transport → Option Text → Option (List GraphUser)
read_page t none = none
read_page t (some resp_data) = elim (t.decode_users resp_data) [
  | none ↦ none
  | some reply ↦ if ltb 0 reply.errors then none else some reply.users
]

-- The loop over the pages, on fuel.
unfoldable pub fetch_pages : Transport → GraphClient → ℕ → Variables → ℕ → List GraphUser → Fetched
fetch_pages t g zero v n all = unfinished
fetch_pages t g (suc fuel) v n all =
    let (reply, n') = query_with_retry t g (active_borrowers v) max_query_retries n in
    elim (read_page t reply) [
      | none ↦ failed
      | some [] ↦ fetched all
      | some (u ∷ users) ↦
          fetch_pages t g fuel (record v { last_id = (last_user u users).id }) n' (all ++ u ∷ users)
    ]

unfoldable pub fetch_user_partition : Transport → GraphClient → ℕ → ℕ → Text → Text → ℕ → Fetched
fetch_user_partition t g fuel block_number prefix_gt prefix_lt limit =
    fetch_pages t g fuel
      (record {
        block_number = block_number;
        last_id = prefix_gt;
        prefix_lt = prefix_lt;
        limit = limit;
      })
      0 []

abbrev pub last_prefix : Text
last_prefix = codes "0xffffffffffffffffffffffffffffffffffffffff"

-- The bounds of the partitions, each but the last one the upper bound of one and the lower of the
-- next.
abbrev pub partition_bounds : List Text
partition_bounds =
    codes "0x1"
    ∷ codes "0x2"
    ∷ codes "0x3"
    ∷ codes "0x4"
    ∷ codes "0x5"
    ∷ codes "0x6"
    ∷ codes "0x7"
    ∷ codes "0x8"
    ∷ codes "0x9"
    ∷ codes "0xa"
    ∷ codes "0xb"
    ∷ codes "0xc"
    ∷ codes "0xd"
    ∷ codes "0xe"
    ∷ codes "0xf"
    ∷ last_prefix
    ∷ []

abbrev pub pair_up : Text → List Text → List (Text × Text)
pair_up gt [] = []
pair_up gt (lt ∷ bounds) = (gt, lt) ∷ pair_up lt bounds

abbrev pub partitions : List (Text × Text)
partitions = pair_up (codes "0x0") partition_bounds

-- The loop of the given number of rounds over the results in the order in which they arrive, with
-- whether an error has arrived and the users so far; `done` says whether the select of a round,
-- numbered by those that are left after it, finds the context done. With no result to come, or with
-- a partition that does not end, it waits.
unfoldable pub receive_results : (ℕ → Bool) → ℕ → List Fetched → Bool → List GraphUser → Fetched
receive_results done zero results first_err all = if first_err then failed else fetched all
receive_results done (suc left) [] first_err all = if done left then failed else unfinished
receive_results done (suc left) (fetched users ∷ results) first_err all =
    let rest = receive_results done left results first_err (all ++ users) in
    if done left then failed else rest
receive_results done (suc left) (failed ∷ results) first_err all =
    let rest = receive_results done left results true all in if done left then failed else rest
receive_results done (suc left) (unfinished ∷ results) first_err all =
    if done left then failed else unfinished

abbrev pub limit_per_page : ℕ
limit_per_page = 1000

-- The goroutine of a partition, with the transport as it is for this goroutine: the cancellation
-- by another one that failed is a request that brings nothing.
unfoldable pub fetch_partitions : (Text × Text → Transport) → GraphClient → ℕ → ℕ → List Fetched
fetch_partitions transports g fuel block_number =
    map (λ p. fetch_user_partition (transports p) g fuel block_number p.0 p.1 limit_per_page)
      partitions

-- `order` is the order in which the results arrive; a result for each partition is received.
unfoldable pub get_all_users_at_block :
    (List Fetched → List Fetched)
    → (ℕ → Bool)
    → (Text × Text → Transport)
    → GraphClient
    → ℕ
    → ℕ
    → Fetched
get_all_users_at_block order done transports g fuel block_number =
    receive_results done (length partitions)
      (order (fetch_partitions transports g fuel block_number)) false []
