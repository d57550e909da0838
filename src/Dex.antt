-- ===== src/Dex.antt =====
-- internal/dex/fee_cache.go: for each pair of assets the fee of the Uniswap pool that holds most of
-- its first token. The ABI coder, the address parser and the multicall are parameters.
pub mod Fees
pub mod Depth
use aave_v3_flash_liquidator.Prelude.{
  ℕ, zero, suc, ◌+◌, Bool, true, false, not, ◌||◌, List, [], ◌∷◌, ◌++◌, map, Option, none, some,
  ltb, if◌then◌else◌, get_elem?, ℤ, ltb_ℤ, Assoc, lookup, insert, beq,
}
use aave_v3_flash_liquidator.Text.{Text, text_eq, codes, to_lower}
use aave_v3_flash_liquidator.Run.{Run, ok, panic, ◌>>=◌}

-- `strings.Compare(s, t) > 0`
unfoldable pub is_after : Text → Text → Bool
is_after [] t = false
is_after (c ∷ s) [] = true
is_after (c ∷ s) (d ∷ t) =
    let rest = is_after s t in if ltb d c then true else if ltb c d then false else rest

-- Two assets in order.
unfoldable pub sort_pair : Text → Text → Text × Text
sort_pair a b = if is_after a b then (b, a) else (a, b)

abbrev pub pair_key : Text × Text → Text
pair_key p = p.0 ++ codes "-" ++ p.1

-- The inner loop for one asset, and all pairs.
unfoldable pub pairs_with : Text → List Text → List (Text × Text)
pairs_with a [] = []
pairs_with a (b ∷ assets) = sort_pair a b ∷ pairs_with a assets

unfoldable pub all_pairs : List Text → List (Text × Text)
all_pairs [] = []
all_pairs (a ∷ assets) = pairs_with a assets ++ all_pairs assets

abbrev pub standard_fees : List ℕ
standard_fees = 100 ∷ 500 ∷ 3000 ∷ 10000 ∷ []

pub record PoolMeta : Type 0 where
  pub pair_key : Text
  pub fee : ℕ
  pub token0 : Text

pub record CallResult : Type 0 where
  pub success : Bool
  pub return_data : Text

pub record Call : Type 0 where
  pub target : Text
  pub allow_failure : Bool
  pub call_data : Text

pub record FeeCache : Type 0 where
  pub best_fees : Assoc Text ℕ

-- The cache, and the balances that the last loop of `BuildCache` tracks.
pub record FeeSearch : Type 0 where
  pub best_fees : Assoc Text ℕ
  pub max_balances : Assoc Text ℤ

-- One round of the last loop: the pool is the best of its pair so far, or it is not.
unfoldable pub offer : PoolMeta → ℤ → FeeSearch → FeeSearch
offer meta balance fc =
    let better : FeeSearch = record {
      best_fees = insert meta.pair_key meta.fee fc.best_fees;
      max_balances = insert meta.pair_key balance fc.max_balances;
    } in
    elim (lookup meta.pair_key fc.max_balances) [
      | none ↦ better
      | some current_max ↦ if ltb_ℤ current_max balance then better else fc
    ]

unfoldable pub offer_all : List (PoolMeta × ℤ) → FeeSearch → FeeSearch
offer_all [] fc = fc
offer_all (o ∷ offers) fc = offer_all offers (offer o.0 o.1 fc)

unfoldable pub get_optimal_fee : FeeCache → Text → Text → Option ℕ
get_optimal_fee fc asset_a asset_b =
    lookup (pair_key (sort_pair (to_lower asset_a) (to_lower asset_b))) fc.best_fees

module _ (hex_to_address : Text → Text) (pack_get_pool : Text → Text → ℕ → Text)
    (pack_balance_of : Text → Text) (unpack_pool : Text → Option Text)
    (unpack_balance : Text → Option ℤ) where
  unfoldable pub metas_of : Text × Text → List ℕ → List PoolMeta
  metas_of pair [] = []
  metas_of pair (fee ∷ fees) =
      record { pair_key = pair_key pair; fee = fee; token0 = hex_to_address pair.0 }
      ∷ metas_of pair fees

  unfoldable pub all_metas : List (Text × Text) → List PoolMeta
  all_metas [] = []
  all_metas (pair ∷ pairs) = metas_of pair standard_fees ++ all_metas pairs

  unfoldable pub calls_of : Text → Text × Text → List ℕ → List Call
  calls_of factory pair [] = []
  calls_of factory pair (fee ∷ fees) =
      let packed = pack_get_pool (hex_to_address pair.0) (hex_to_address pair.1) fee in
      record { target = factory; allow_failure = true; call_data = packed }
      ∷ calls_of factory pair fees

  unfoldable pub pool_calls : Text → List (Text × Text) → List Call
  pool_calls factory [] = []
  pool_calls factory (pair ∷ pairs) =
      calls_of factory pair standard_fees ++ pool_calls factory pairs

  abbrev balance_call : PoolMeta → Text → Call
  balance_call meta pool = record {
    target = meta.token0;
    allow_failure = true;
    call_data = pack_balance_of pool;
  }

  abbrev is_empty : Text → Bool
  is_empty [] = true
  is_empty (c ∷ t) = false

  -- The pools that exist; a result without a call of its own is an index out of range.
  unfoldable pub valid_pools : List CallResult → List PoolMeta → Run (List (PoolMeta × Call))
  valid_pools [] metas = ok []
  valid_pools (res ∷ results) metas =
      let rest = elim metas as (λ _. Run (List (PoolMeta × Call))) [
        | [] ↦ valid_pools results []
        | _ ∷ others ↦ valid_pools results others
      ] in
      if not res.success || is_empty res.return_data
      then rest
      else elim (unpack_pool res.return_data) [
        | none ↦ rest
        | some pool ↦ if beq pool (hex_to_address (codes "0x0")) then rest else elim metas [
          | [] ↦ panic
          | meta ∷ _ ↦ rest >>= λ pools. ok ((meta, balance_call meta pool) ∷ pools)
        ]
      ]

  -- The balances that are read, each with its pool.
  unfoldable pub read_balances :
      List CallResult → List (PoolMeta × Call) → Run (List (PoolMeta × ℤ))
  read_balances [] pools = ok []
  read_balances (res ∷ results) pools =
      let rest = elim pools as (λ _. Run (List (PoolMeta × ℤ))) [
        | [] ↦ read_balances results []
        | _ ∷ others ↦ read_balances results others
      ] in
      if not res.success || is_empty res.return_data
      then rest
      else elim (unpack_balance res.return_data) [
        | none ↦ rest
        | some balance ↦ elim pools [
          | [] ↦ panic
          | pool ∷ _ ↦ rest >>= λ balances. ok ((pool.0, balance) ∷ balances)
        ]
      ]

  -- The stage after the pools are known. `execute` is the multicall, `none` its error; the Boolean
  -- of the answer is whether the build had no error.
  unfoldable pub rank_pools :
      (List Call → Option (List CallResult))
      → FeeCache
      → List (PoolMeta × Call)
      → Run (Bool × FeeCache)
  rank_pools execute fc [] = ok (true, fc)
  rank_pools execute fc (p ∷ ps) = elim (execute (map (λ x. x.1) (p ∷ ps))) [
    | none ↦ ok (false, fc)
    | some results ↦ read_balances results (p ∷ ps) >>= λ offers.
        let start : FeeSearch = record { best_fees = fc.best_fees; max_balances = [] } in
        ok (true, record { best_fees = (offer_all offers start).best_fees })
  ]

  unfoldable pub build_cache :
      (List Call → Option (List CallResult)) → Text → List Text → FeeCache → Run (Bool × FeeCache)
  build_cache execute factory assets fc =
      let pairs = all_pairs assets in
      elim (execute (pool_calls factory pairs)) [
        | none ↦ ok (false, fc)
        | some results ↦
            valid_pools results (all_metas pairs) >>= λ pools. rank_pools execute fc pools
      ]
