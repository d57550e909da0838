-- ===== src/Risk/Update/Refines.antt =====
-- `updateHeap` as an update of the map of the users at risk.
use aave_v3_flash_liquidator.Prelude.{Option, Option-cases, inl, inr, ℤ, lookup}
use aave_v3_flash_liquidator.Text.{Text, text_eq}
use aave_v3_flash_liquidator.Run.{Ends}
use aave_v3_flash_liquidator.Store.{StateStore}
use aave_v3_flash_liquidator.Risk.Update.{at_risk, update_heap}
use aave_v3_flash_liquidator.Risk.Update.View.{IsRiskIndex, IsUpdated}
use aave_v3_flash_liquidator.Risk.Update.Leave.{leave_heap-Ends}
use aave_v3_flash_liquidator.Risk.Update.Change.{enter_present}
use aave_v3_flash_liquidator.Risk.Update.Newcomer.{enter_missing}

-- On a heap in order that the table lists, the update of a user does not panic, leaves such a heap
-- and table, and acts on the map from users to health factors and times as a map: a user with no
-- health factor or one from the safety threshold on is removed, another gets the health factor, and
-- no other entry changes.
pub update_heap-Ends :
    (u : Text) (hf : Option ℤ) (s : StateStore)
    → IsRiskIndex s
    → Ends (IsUpdated u (at_risk hf) s) (update_heap u hf s)
unfolding update_heap
update_heap-Ends u hf s x = elim (Option-cases (at_risk hf)) [
  | inl e ↦ rw (update_heap, e) (leave_heap-Ends u s x)
  | inr (f, e) ↦
      rw (update_heap, e)
        (elim (Option-cases (lookup u s.heap_lookup)) [
          | inl t ↦ enter_missing u s x f t
          | inr (p, t) ↦
              let (c, r, a, b) = x.listing.placed u p t in enter_present u s x f p c t r a
        ])
]
