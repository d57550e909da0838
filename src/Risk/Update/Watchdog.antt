-- ===== src/Risk/Update/Watchdog.antt =====
-- The scan of the watchdog.
use mathlib.Core.Logic.{⊎_elim}
use mathlib.Core.List.{Memᴰ}
use mathlib.Core.List.Memᴰ
use aave_v3_flash_liquidator.Prelude.{
  ℕ, zero, suc, ◌<◌, ◌≡◌, ap, ◌∙◌, sym, true, false, Bool, ◌&&◌, Bool-cases, inl, inr, List, [],
  ◌∷◌, Option, none, some, Option-cases, ℤ, leb_ℤ, length, get_or, lookup, ◌↔◌, arith,
}
use aave_v3_flash_liquidator.Text.{Text, text_eq}
use aave_v3_flash_liquidator.Models.{UserRiskItem}
use aave_v3_flash_liquidator.Store.{StateStore}
use aave_v3_flash_liquidator.Risk.Heap.Swap.{place}
use aave_v3_flash_liquidator.Risk.Update.{watchdog_threshold, watchdog_scan}
use aave_v3_flash_liquidator.Risk.Update.View.{IsRiskIndex, entry_of, risk_of}

-- A health factor of 1.02 at most, and a time that has come.
abbrev pub is_due : ℤ → Option (ℤ × ℤ) → Bool
is_due now none = false
is_due now (some e) = leb_ℤ e.0 watchdog_threshold && leb_ℤ e.1 now

module _ (items : ℕ → UserRiskItem) (now : ℤ) (u : Text) where
  abbrev due_at : ℕ → Bool
  due_at p = is_due now (entry_of items (some p))

  scan-found :
      (slots : List ℕ)
      → Memᴰ u (watchdog_scan items now slots)
      → (c : ℕ) × (c < length slots)
        × ((items (get_or slots c 0)).user_address ≡ u)
        × (due_at (get_or slots c 0) ≡ true)
  unfolding watchdog_scan
  scan-found [] m = absurd (Memᴰ.not-nil m)
  scan-found (p ∷ slots) m = elim (Bool-cases (due_at p)) [
    | inl h ↦
        ⊎_elim (λ e. (0, omega arith, sym e, h))
          (λ n. let (c, q, e, d) = scan-found slots n in (suc c, omega arith, e, d))
          (Memᴰ.cases_cons (rw h at m))
    | inr h ↦ let (c, q, e, d) = scan-found slots (rw h at m) in (suc c, omega arith, e, d)
  ]

  scan-complete :
      (slots : List ℕ) (c : ℕ)
      → c < length slots
      → (items (get_or slots c 0)).user_address ≡ u
      → due_at (get_or slots c 0) ≡ true
      → Memᴰ u (watchdog_scan items now slots)
  unfolding watchdog_scan
  scan-complete [] c q e d = absurd (omega arith)
  scan-complete (p ∷ slots) zero q e d = rw d (Memᴰ.head (sym e))
  scan-complete (p ∷ slots) (suc c) q e d = elim (Bool-cases (due_at p)) [
    | inl h ↦ rw h (Memᴰ.tail (scan-complete slots c (omega arith) e d))
    | inr h ↦ rw h (scan-complete slots c (omega arith) e d)
  ]

module _ (s : StateStore) (now : ℤ) (u : Text) (x : IsRiskIndex s) where
  due_of_found :
      Memᴰ u (watchdog_scan s.risk_items now s.risk_heap) → is_due now (risk_of s u) ≡ true
  unfolding place
  due_of_found m =
      let (c, q, e, d) = scan-found s.risk_items now u s.risk_heap m in
      ap (λ o. is_due now (entry_of s.risk_items o))
        (ap (λ v. lookup v s.heap_lookup) (sym e) ∙ x.listing.listed c q)
      ∙ d

  found_of_due :
      is_due now (risk_of s u) ≡ true → Memᴰ u (watchdog_scan s.risk_items now s.risk_heap)
  unfolding place
  found_of_due h = elim (Option-cases (lookup u s.heap_lookup)) [
    | inl t ↦ absurd (ground (arith, t))
    | inr (p, t) ↦
        let (c, q, a, b) = x.listing.placed u p t in
        scan-complete s.risk_items now u s.risk_heap c q
          (ap (λ k. (s.risk_items k).user_address) a ∙ b)
          (ap (λ k. is_due now (entry_of s.risk_items (some k))) a
            ∙ ap (λ o. is_due now (entry_of s.risk_items o)) (sym t)
            ∙ h)
  ]

-- On a heap that the table lists, the watchdog finds a user exactly if the table has an entry of
-- the user with a health factor of 1.02 at most and a time of the next check that has come.
pub watchdog_scan-due :
    (s : StateStore) (now : ℤ) (u : Text)
    → IsRiskIndex s
    → Memᴰ u (watchdog_scan s.risk_items now s.risk_heap) ↔ (is_due now (risk_of s u) ≡ true)
watchdog_scan-due s now u x = (due_of_found s now u x, found_of_due s now u x)
