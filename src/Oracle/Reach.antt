-- ===== src/Oracle/Reach.antt =====
-- Whom a heartbeat of the price feed puts into the queue.
use mathlib.Core.Path.{subst}
use mathlib.Core.Logic.{⊎_elim}
use mathlib.Core.List.{Memᴰ}
use mathlib.Core.List.Memᴰ
use aave_v3_flash_liquidator.Prelude.{
  ◌≢◌, ◌⊎◌, ◌≤◌, ◌≡◌, refl, ap, ◌∙◌, sym, Bool-cases, inl, inr, List, [], ◌∷◌, ◌++◌, none, some, ℤ,
  beq, lookup, map, lookup-insert, length, take, arith,
}
use aave_v3_flash_liquidator.Text.{Text, text_eq, to_lower}
use aave_v3_flash_liquidator.Models.{UserReserve}
use aave_v3_flash_liquidator.Store.{
  StateStore, get_asset_price, set_asset_price, get_subscribers, find_reserve,
}
use aave_v3_flash_liquidator.Store.Methods.{IsValid}
use aave_v3_flash_liquidator.Store.Fanout.{get_subscribers-complete}
use aave_v3_flash_liquidator.Risk.Queue.{
  enqueue, enqueue_all, enqueue_by_asset, enqueue_all-take, task_queue_size,
}
use aave_v3_flash_liquidator.Oracle.{
  is_changed, store_price, store_prices, enqueue_changed, fetch_and_store_prices,
}

-- An asset of this name, in any case of its letters.
abbrev pub Names : Text → List Text → Type 0
Names a assets = (b : Text) × Memᴰ b assets × (to_lower b ≡ to_lower a)

store_price-kept :
    (asset b : Text) (price : ℤ) (t : List Text × StateStore)
    → Memᴰ b t.0
    → Memᴰ b (store_price asset price t).0
unfolding store_price
store_price-kept asset b price t m =
    elim (Bool-cases (is_changed (get_asset_price t.1 asset) price)) [
      | inl e ↦ rw e (Memᴰ.append_left (asset ∷ []) m)
      | inr e ↦ rw e m
    ]

store_prices-kept :
    (assets : List Text) (prices : List ℤ) (b : Text) (t : List Text × StateStore)
    → Memᴰ b t.0
    → Memᴰ b (store_prices assets prices t).0
unfolding store_prices
store_prices-kept [] prices b t m = m
store_prices-kept (asset ∷ assets) [] b t m = m
store_prices-kept (asset ∷ assets) (price ∷ prices) b t m =
    store_prices-kept assets prices b (store_price asset price t)
      (store_price-kept asset b price t m)

store_price-listed :
    (asset a : Text) (price : ℤ) (t : List Text × StateStore)
    → Names a (store_price asset price t).0
      ⊎ (get_asset_price (store_price asset price t).1 a ≡ get_asset_price t.1 a)
unfolding store_price get_asset_price set_asset_price
store_price-listed asset a price t =
    elim (Bool-cases (is_changed (get_asset_price t.1 asset) price)) [
      | inr e ↦ rw e (inr refl)
      | inl e ↦ elim (Bool-cases (beq (to_lower asset) (to_lower a))) [
        | inl d ↦ rw e (
            inl (
              asset,
              Memᴰ.append_right t.0 (Memᴰ.head refl),
              ground (arith, text_eq.beq_iff (to_lower asset) (to_lower a)),
            ))
        | inr d ↦
            rw e
              (inr (ground (arith, lookup-insert (to_lower asset) (to_lower a) price t.1.prices)))
      ]
    ]

store_prices-listed :
    (assets : List Text) (prices : List ℤ) (a : Text) (t : List Text × StateStore)
    → Names a (store_prices assets prices t).0
      ⊎ (get_asset_price (store_prices assets prices t).1 a ≡ get_asset_price t.1 a)
unfolding store_prices
store_prices-listed [] prices a t = inr refl
store_prices-listed (asset ∷ assets) [] a t = inr refl
store_prices-listed (asset ∷ assets) (price ∷ prices) a t =
    let t' = store_price asset price t in
    ⊎_elim (λ n. inl (n.0, store_prices-kept assets prices n.0 t' n.1, n.2))
      (λ e. ⊎_elim inl (λ e'. inr (e' ∙ e)) (store_prices-listed assets prices a t'))
      (store_price-listed asset a price t)

store_prices-subscribers :
    (assets : List Text) (prices : List ℤ) (t : List Text × StateStore)
    → (store_prices assets prices t).1.asset_subscribers ≡ t.1.asset_subscribers
unfolding store_prices store_price set_asset_price
store_prices-subscribers [] prices t = refl
store_prices-subscribers (asset ∷ assets) [] t = refl
store_prices-subscribers (asset ∷ assets) (price ∷ prices) t =
    store_prices-subscribers assets prices (store_price asset price t) ∙ ground (arith)

-- The users who are subscribed to one of the assets.
pub fan_out : StateStore → List Text → List Text
fan_out s [] = []
fan_out s (asset ∷ assets) = get_subscribers s asset ++ fan_out s assets

enqueue_all-append :
    (xs ys queue : List Text) → enqueue_all (xs ++ ys) queue ≡ enqueue_all ys (enqueue_all xs queue)
unfolding enqueue_all
enqueue_all-append [] ys queue = refl
enqueue_all-append (u ∷ xs) ys queue = enqueue_all-append xs ys (enqueue u queue)

enqueue_changed-fan_out :
    (s : StateStore) (assets queue : List Text)
    → enqueue_changed s assets queue ≡ enqueue_all (fan_out s assets) queue
unfolding enqueue_changed fan_out enqueue_by_asset enqueue_all
enqueue_changed-fan_out s [] queue = refl
enqueue_changed-fan_out s (asset ∷ assets) queue =
    enqueue_changed-fan_out s assets (enqueue_by_asset s asset queue)
    ∙ sym (enqueue_all-append (get_subscribers s asset) (fan_out s assets) queue)

fan_out-complete :
    (s : StateStore) (u : Text) (assets : List Text) (b : Text)
    → Memᴰ b assets
    → Memᴰ u (get_subscribers s b)
    → Memᴰ u (fan_out s assets)
unfolding fan_out
fan_out-complete s u [] b m h = absurd (Memᴰ.not-nil m)
fan_out-complete s u (asset ∷ assets) b m h =
    ⊎_elim
      (λ e. Memᴰ.append_left (fan_out s assets) (subst (λ x. Memᴰ u (get_subscribers s x)) e h))
      (λ n. Memᴰ.append_right (get_subscribers s asset) (fan_out-complete s u assets b n h))
      (Memᴰ.cases_cons m)

subscribers_stay :
    (s s' : StateStore) (a b : Text)
    → s'.asset_subscribers ≡ s.asset_subscribers
    → to_lower b ≡ to_lower a
    → get_subscribers s' b ≡ get_subscribers s a
unfolding get_subscribers
subscribers_stay s s' a b e d =
    ap (λ m. elim (lookup (to_lower b) m) [ none ↦ [] | some users ↦ map (λ x. x.0) users ]) e
    ∙ ap
        (λ k. elim (lookup k s.asset_subscribers) [ none ↦ [] | some users ↦ map (λ x. x.0) users ])
        d

-- If a heartbeat changes the price of an asset of which a user holds a reserve, in a valid store,
-- then the queue becomes the first 50000 of the queue followed by a list of users with this user
-- among them.
pub fetch_and_store_prices-reaches :
    (prices : List ℤ) (assets : List Text) (s : StateStore) (queue : List Text) (u a : Text)
    (r : UserReserve)
    → length queue ≤ task_queue_size
    → IsValid s
    → find_reserve s u (to_lower a) ≡ some r
    → get_asset_price (fetch_and_store_prices (some prices) assets s queue).0 a
      ≢ get_asset_price s a
    → (users : List Text) × ((fetch_and_store_prices (some prices) assets s queue).1
        ≡ take task_queue_size (queue ++ users))
      × Memᴰ u users
unfolding fetch_and_store_prices
fetch_and_store_prices-reaches prices assets s queue u a r room valid holds moves =
    let t = store_prices assets prices ([], s) in
    ⊎_elim
      (λ n. (
        fan_out t.1 t.0,
        enqueue_changed-fan_out t.1 t.0 queue ∙ enqueue_all-take (fan_out t.1 t.0) queue room,
        fan_out-complete t.1 u t.0 n.0 n.1 (
            subst (Memᴰ u)
              (sym
                (subscribers_stay s t.1 a n.0 (store_prices-subscribers assets prices ([], s)) n.2))
              (get_subscribers-complete s u a r valid holds)),
      ))
      (λ e. absurd (moves e)) (store_prices-listed assets prices a ([], s))
