-- ===== src/Oracle.antt =====
-- `fetchAndStorePrices` of internal/oracle/oracle.go. The call of the oracle contract is a
-- parameter: the prices that it returns, or an error. The reply is read by position; an asset past
-- its end keeps its price.
pub mod Prices
pub mod Reach
use aave_v3_flash_liquidator.Prelude.{
  ℕ, zero, suc, ◌-◌, Bool, true, false, not, ◌||◌, ◌&&◌, ◌==◌, List, [], ◌∷◌, ◌++◌, Option, none,
  some, if◌then◌else◌, ltb, ℤ, leb_ℤ, get_elem?,
}
use aave_v3_flash_liquidator.Text.{Text, text_eq}
use aave_v3_flash_liquidator.Store.{StateStore, get_asset_price, set_asset_price}
use aave_v3_flash_liquidator.Risk.Queue.{enqueue_by_asset}

-- `oldPrice.Cmp(newPrice) != 0`
abbrev pub differs : ℤ → ℤ → Bool
differs old new = not (leb_ℤ old new && leb_ℤ new old)

abbrev pub is_changed : Option ℤ → ℤ → Bool
is_changed none new = true
is_changed (some old) new = differs old new

-- One asset with its price: the assets that changed so far, and the store.
unfoldable pub store_price : Text → ℤ → List Text × StateStore → List Text × StateStore
store_price asset new_price t =
    if is_changed (get_asset_price t.1 asset) new_price
    then (t.0 ++ asset ∷ [], set_asset_price asset new_price t.1)
    else t

-- The loop over the assets; both lists move on together, which is `i < len(prices)`.
unfoldable pub store_prices : List Text → List ℤ → List Text × StateStore → List Text × StateStore
store_prices [] prices t = t
store_prices (asset ∷ assets) [] t = t
store_prices (asset ∷ assets) (price ∷ prices) t =
    store_prices assets prices (store_price asset price t)

-- The users of the changed assets go to the queue, asset by asset.
unfoldable pub enqueue_changed : StateStore → List Text → List Text → List Text
enqueue_changed s [] queue = queue
enqueue_changed s (asset ∷ changed) queue =
    enqueue_changed s changed (enqueue_by_asset s asset queue)

-- One heartbeat: the store and the queue. An error of the call leaves both.
unfoldable pub fetch_and_store_prices :
    Option (List ℤ) → List Text → StateStore → List Text → StateStore × List Text
fetch_and_store_prices none target_assets s queue = (s, queue)
fetch_and_store_prices (some prices) target_assets s queue =
    let (changed, s') = store_prices target_assets prices ([], s) in
    (s', enqueue_changed s' changed queue)
