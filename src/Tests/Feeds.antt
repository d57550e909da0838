-- ===== src/Tests/Feeds.antt =====
-- Examples on the price feed.
use mathlib.Core.List.{Memᴰ}
use aave_v3_flash_liquidator.Prelude.{
  ◌≡◌, ◌≢◌, ◌++◌, refl, sym, ◌∙◌, List, [], ◌∷◌, some, pos, take, lookup, insert, arith,
}
use aave_v3_flash_liquidator.Text.{Text, text_eq}
use aave_v3_flash_liquidator.Store.{
  get_asset_price, set_asset_price, upsert_user_reserve, put_reserve, add_subscriber,
}
use aave_v3_flash_liquidator.Risk.Queue.{task_queue_size}
use aave_v3_flash_liquidator.Oracle.{fetch_and_store_prices, store_prices, store_price}
use aave_v3_flash_liquidator.Oracle.Prices.{quoted, fetch_and_store_prices-price}
use aave_v3_flash_liquidator.Oracle.Reach.{fetch_and_store_prices-reaches}
use aave_v3_flash_liquidator.Tests.{ann, weth, usdc, market, reserve_with}
use aave_v3_flash_liquidator.Tests.Accounts.{supplied, supplied-IsValid, supplied_reserve}

fetch_and_store_prices-price_example :
    get_asset_price (fetch_and_store_prices (some (pos 3 ∷ [])) (weth ∷ usdc ∷ []) market []).0 weth
    ≡ quoted weth (weth ∷ usdc ∷ []) (pos 3 ∷ []) (get_asset_price market weth)
fetch_and_store_prices-price_example =
    fetch_and_store_prices-price (pos 3 ∷ []) (weth ∷ usdc ∷ []) market [] weth

before : get_asset_price supplied weth ≡ some (pos 20000000000)
unfolding get_asset_price lookup upsert_user_reserve put_reserve add_subscriber
before = refl

after :
    get_asset_price
      (fetch_and_store_prices (some (pos 3 ∷ [])) (weth ∷ usdc ∷ []) supplied []).0
      weth
    ≡ some (pos 3)
unfolding fetch_and_store_prices store_prices store_price get_asset_price set_asset_price lookup
    insert upsert_user_reserve put_reserve add_subscriber
after = refl

moved :
    get_asset_price
      (fetch_and_store_prices (some (pos 3 ∷ [])) (weth ∷ usdc ∷ []) supplied []).0
      weth
    ≢ get_asset_price supplied weth
moved e =
    let h : some (pos 3) ≡ some (pos 20000000000) = sym after ∙ e ∙ before in
    absurd (ground (arith, h))

fetch_and_store_prices-reaches_example :
    (users : List Text) × ((fetch_and_store_prices
        (some (pos 3 ∷ []))
        (weth ∷ usdc ∷ [])
        supplied
        []).1
      ≡ take task_queue_size ([] ++ users))
    × Memᴰ ann users
fetch_and_store_prices-reaches_example =
    fetch_and_store_prices-reaches (pos 3 ∷ []) (weth ∷ usdc ∷ []) supplied [] ann weth
      (reserve_with weth 3 0) (omega arith) supplied-IsValid supplied_reserve moved
