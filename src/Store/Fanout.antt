-- ===== src/Store/Fanout.antt =====
-- `GetSubscribers` of internal/store/store.go against the holders of a reserve.
use mathlib.Core.List.{Memᴰ}
use aave_v3_flash_liquidator.Prelude.{
  ◌≡◌, sym, [], ◌∷◌, map, some, Option-cases, Bool-cases, inl, inr, Assoc, lookup, beq, arith,
  lookup-nil,
}
use aave_v3_flash_liquidator.Text.{Text, text_eq, text_beq_iff, to_lower}
use aave_v3_flash_liquidator.Models.{UserReserve}
use aave_v3_flash_liquidator.Store.{StateStore, find_reserve, get_subscribers}
use aave_v3_flash_liquidator.Store.Methods.{IsValid}

key_listed :
    (u : Text) (users : Assoc Text (Unit {0})) {x : Unit {0}}
    → lookup u users ≡ some x
    → Memᴰ u (map (λ e. e.0) users)
unfolding lookup
key_listed u [] h = absurd (ground arith)
key_listed u ((v, x) ∷ users) h = elim (Bool-cases (beq v u)) [
  | inl e ↦ let same : v ≡ u = ground (arith, text_beq_iff v u) in Memᴰ.head (sym same)
  | inr e ↦ Memᴰ.tail (key_listed u users (ground arith))
]

-- In a valid store, where each holder of a reserve is subscribed to its asset, the subscribers of
-- an asset hold every user with a reserve of it.
pub get_subscribers-complete :
    (s : StateStore) (u asset : Text) (r : UserReserve)
    → IsValid s
    → find_reserve s u (to_lower asset) ≡ some r
    → Memᴰ u (get_subscribers s asset)
unfolding get_subscribers
get_subscribers-complete s u asset r h e =
    let known = h.indexed u (to_lower asset) r e in
    elim (Option-cases (lookup (to_lower asset) s.asset_subscribers)) [
      | inl missing ↦ absurd (ground (arith, missing, known, lookup-nil {V = Unit {0}} u))
      | inr (users, found) ↦ elim (Option-cases (lookup u users)) [
        | inl absent ↦ absurd (ground (arith, found, known, absent))
        | inr (x, listed) ↦ rw (get_subscribers, found) (key_listed u users listed)
      ]
    ]
