-- ===== src/Oracle/Prices.antt =====
-- What a heartbeat of the price feed leaves in the store and in the queue.
use aave_v3_flash_liquidator.Prelude.{
  ◌≡◌, refl, ap, ◌∙◌, sym, false, Bool-cases, inl, inr, List, [], ◌∷◌, Option, none, some,
  if◌then◌else◌, ℤ, eq_of_parts, beq, lookup, lookup-insert, arith,
}
use aave_v3_flash_liquidator.Text.{Text, text_eq, to_lower}
use aave_v3_flash_liquidator.Store.{StateStore, get_asset_price, set_asset_price}
use aave_v3_flash_liquidator.Oracle.{is_changed, store_price, store_prices, fetch_and_store_prices}

-- The last price that the reply has for an asset, whatever the case of its letters.
pub quoted : Text → List Text → List ℤ → Option ℤ → Option ℤ
quoted a [] prices old = old
quoted a (asset ∷ assets) [] old = old
quoted a (asset ∷ assets) (price ∷ prices) old =
    quoted a assets prices (if beq (to_lower asset) (to_lower a) then some price else old)

not_changed : (old : Option ℤ) (new : ℤ) → is_changed old new ≡ false → old ≡ some new
not_changed none new h = absurd (ground arith)
not_changed (some x) new h = ap some (eq_of_parts x new (ground arith))

kept_price :
    (asset a : Text) (price : ℤ) (s : StateStore)
    → get_asset_price s asset ≡ some price
    → get_asset_price s a
      ≡ (if beq (to_lower asset) (to_lower a) then some price else get_asset_price s a)
unfolding get_asset_price
kept_price asset a price s h = elim (Bool-cases (beq (to_lower asset) (to_lower a))) [
  | inl e ↦
      let same : to_lower asset ≡ to_lower a =
        ground (arith, text_eq.beq_iff (to_lower asset) (to_lower a)) in
      rw e (ap (λ k. lookup k s.prices) (sym same) ∙ h)
  | inr e ↦ rw e refl
]

store_price-price :
    (asset a : Text) (price : ℤ) (t : List Text × StateStore)
    → get_asset_price (store_price asset price t).1 a
      ≡ (if beq (to_lower asset) (to_lower a) then some price else get_asset_price t.1 a)
unfolding store_price get_asset_price set_asset_price
store_price-price asset a price t =
    elim (Bool-cases (is_changed (get_asset_price t.1 asset) price)) [
      | inl e ↦ rw e (lookup-insert (to_lower asset) (to_lower a) price t.1.prices)
      | inr e ↦
          rw e (kept_price asset a price t.1 (not_changed (get_asset_price t.1 asset) price e))
    ]

store_prices-price :
    (assets : List Text) (prices : List ℤ) (a : Text) (t : List Text × StateStore)
    → get_asset_price (store_prices assets prices t).1 a
      ≡ quoted a assets prices (get_asset_price t.1 a)
unfolding store_prices quoted
store_prices-price [] prices a t = refl
store_prices-price (asset ∷ assets) [] a t = refl
store_prices-price (asset ∷ assets) (price ∷ prices) a t =
    store_prices-price assets prices a (store_price asset price t)
    ∙ ap (quoted a assets prices) (store_price-price asset a price t)

-- After a heartbeat with a reply, each asset has the last price that the reply holds for its name
-- in any case of the letters, or its old price if there is none.
pub fetch_and_store_prices-price :
    (prices : List ℤ) (assets : List Text) (s : StateStore) (queue : List Text) (a : Text)
    → get_asset_price (fetch_and_store_prices (some prices) assets s queue).0 a
      ≡ quoted a assets prices (get_asset_price s a)
unfolding fetch_and_store_prices
fetch_and_store_prices-price prices assets s queue a = store_prices-price assets prices a ([], s)
