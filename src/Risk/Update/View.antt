-- ===== src/Risk/Update/View.antt =====
-- The abstract view of the heap and the table: one map from the users at risk to their health
-- factors and the times of their next checks.
use aave_v3_flash_liquidator.Prelude.{
  ℕ, ◌<◌, ◌≡◌, refl, sym, ap, ◌∙◌, Option, none, some, if◌then◌else◌, ℤ, pos, beq, lookup,
}
use aave_v3_flash_liquidator.Text.{Text, text_eq}
use aave_v3_flash_liquidator.Models.{UserRiskItem}
use aave_v3_flash_liquidator.Store.{StateStore}
use aave_v3_flash_liquidator.Risk.Heap.{RiskHeap}
use aave_v3_flash_liquidator.Risk.Heap.Swap.{place, size}
use aave_v3_flash_liquidator.Risk.Heap.Calls.{IsHeap}
use aave_v3_flash_liquidator.Risk.Update.{heap_of}
use aave_v3_flash_liquidator.Risk.Update.Listing.{IsListed}

-- The heap is in order, and the table lists it.
pub record IsRiskIndex (s : StateStore) : Type 0 where
  pub heap : IsHeap (heap_of s)
  pub listing : IsListed (heap_of s) s.heap_lookup s.next_item

-- The health factor and the time of the next check of a user in the heap.
abbrev pub entry_of : (ℕ → UserRiskItem) → Option ℕ → Option (ℤ × ℤ)
entry_of items none = none
entry_of items (some p) = some ((items p).health_factor, (items p).next_check_at)

abbrev pub risk_of : StateStore → Text → Option (ℤ × ℤ)
risk_of s user = entry_of s.risk_items (lookup user s.heap_lookup)

-- A new user may be checked at once; a user who was there keeps the time.
abbrev pub check_time : Option (ℤ × ℤ) → ℤ
check_time none = pos 0
check_time (some old) = old.1

abbrev pub updated : Option ℤ → Option (ℤ × ℤ) → Option (ℤ × ℤ)
updated none old = none
updated (some f) old = some (f, check_time old)

pub record IsUpdated (user : Text) (hf : Option ℤ) (s s' : StateStore) : Type 0 where
  pub index : IsRiskIndex s'
  pub view :
      (v : Text) → risk_of s' v ≡ (if beq user v then updated hf (risk_of s user) else risk_of s v)
  pub positions : s'.user_positions ≡ s.user_positions

pub entry_same :
    (g h : RiskHeap)
    → ((p : ℕ) → (g.cell p).health_factor ≡ (h.cell p).health_factor)
    → ((p : ℕ) → (g.cell p).next_check_at ≡ (h.cell p).next_check_at)
    → (o : Option ℕ) → entry_of g.cell o ≡ entry_of h.cell o
entry_same g h f t none = refl
entry_same g h f t (some p) = rw (f p, t p) refl

pub index_of :
    (s : StateStore)
    → IsRiskIndex s
    → (p c : ℕ) → c < size (heap_of s)
    → place (heap_of s) c ≡ p
    → (s.risk_items p).index ≡ pos c
index_of s x p c r e = ap (λ q. (s.risk_items q).index) (sym e) ∙ x.heap.indexed c r
