-- ===== src/Tests/Pools.antt =====
-- Examples on the fee cache.
use mathlib.Core.List.{Memᴰ}
use aave_v3_flash_liquidator.Prelude.{List, [], ◌∷◌, ℤ, pos}
use aave_v3_flash_liquidator.Text.{codes}
use aave_v3_flash_liquidator.Dex.{PoolMeta, FeeCache, offer_all}
use aave_v3_flash_liquidator.Dex.Depth.{IsDeepest, offer_all-IsDeepest}

abbrev cache : FeeCache
cache = record { best_fees = (codes "0xa-0xb", 500) ∷ [] }

-- Two pools of one pair.
abbrev offers : List (PoolMeta × ℤ)
offers =
    (record { pair_key = codes "0xa-0xb"; fee = 500; token0 = codes "0xa" }, pos 7)
    ∷ (record { pair_key = codes "0xa-0xb"; fee = 3000; token0 = codes "0xa" }, pos 9)
    ∷ []

offer_all-IsDeepest_example :
    IsDeepest (λ o. Memᴰ o offers) (offer_all offers (record { best_fees = []; max_balances = [] }))
offer_all-IsDeepest_example = offer_all-IsDeepest offers []
