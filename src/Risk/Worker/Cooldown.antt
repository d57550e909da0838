-- ===== src/Risk/Worker/Cooldown.antt =====
-- The pause after a liquidation that failed or does not pay.
use mathlib.Core.Path.{subst}
use aave_v3_flash_liquidator.Prelude.{
  ℕ, ◌≡◌, refl, ap, ◌∙◌, Bool, false, Option-cases, inl, inr, Option, none, some, if◌then◌else◌, ℤ,
  pos, ◌+ℤ◌, leb_ℤ, beq_refl, lookup, arith,
}
use aave_v3_flash_liquidator.Text.{Text, text_eq}
use aave_v3_flash_liquidator.Ray.{hf_safety_threshold}
use aave_v3_flash_liquidator.Run.{ok, ◌>>=◌, Ends, ends, Ends->>=}
use aave_v3_flash_liquidator.Store.{StateStore}
use aave_v3_flash_liquidator.Risk.Heap.{RiskHeap, write}
use aave_v3_flash_liquidator.Risk.Heap.Swap.{place, key}
use aave_v3_flash_liquidator.Risk.Heap.Order.{parent}
use aave_v3_flash_liquidator.Risk.Heap.Calls.{IsHeap}
use aave_v3_flash_liquidator.Risk.Update.{heap_of, update_heap}
use aave_v3_flash_liquidator.Risk.Update.Listing.{IsListed}
use aave_v3_flash_liquidator.Risk.Update.View.{IsRiskIndex, risk_of, check_time, IsUpdated}
use aave_v3_flash_liquidator.Risk.Update.Refines.{update_heap-Ends}
use aave_v3_flash_liquidator.Strategy.{LiquidationRecipe}
use aave_v3_flash_liquidator.Risk.Worker.{
  Processed, no_profit_cooldown, liquidation_cooldown, cool_down, set_next_check, without_profit,
  after_send,
}

-- A new time for an item changes nothing else.
module _ (s : StateStore) (p : ℕ) (time : ℤ) (x : IsRiskIndex s) where
  unfoldable timed : RiskHeap
  timed = record (heap_of s) { cell = write s.risk_items p (set_next_check time) }

  users-timed : (q : ℕ) → (timed.cell q).user_address ≡ (s.risk_items q).user_address
  unfolding timed
  users-timed q = ground arith

  index-timed : (q : ℕ) → (timed.cell q).index ≡ (s.risk_items q).index
  unfolding timed
  index-timed q = ground arith

  factor-timed : (q : ℕ) → (timed.cell q).health_factor ≡ (s.risk_items q).health_factor
  unfolding timed
  factor-timed q = ground arith

  timed-IsHeap : IsHeap timed
  unfolding timed place key
  timed-IsHeap = record {
    indexed = λ c q. index-timed (place (heap_of s) c) ∙ x.heap.indexed c q;
    order = λ c q r. ground (
      arith,
      factor-timed (place (heap_of s) c),
      factor-timed (place (heap_of s) (parent c)),
      x.heap.order c,
    );
  }

  timed-IsListed : IsListed timed s.heap_lookup s.next_item
  unfolding timed place
  timed-IsListed = record {
    used = x.listing.used;
    listed = λ c r.
        ap (λ u. lookup u s.heap_lookup) (users-timed (place (heap_of s) c)) ∙ x.listing.listed c r;
    placed = λ u q e. let (c, r, a, b) = x.listing.placed u q e in (c, r, a, users-timed q ∙ b);
  }

-- The entry of a user with this health factor after a pause until `time`.
abbrev pub paused : ℤ → ℤ → Option (ℤ × ℤ) → ℤ × ℤ
paused hf time none = (hf, pos 0)
paused hf time (some _) = (hf, time)

module _ (u : Text) (time : ℤ) (s : StateStore) (x : IsRiskIndex s) where
  pub cool_down-IsRiskIndex : IsRiskIndex (cool_down u time s)
  unfolding cool_down timed
  cool_down-IsRiskIndex = elim (Option-cases (lookup u s.heap_lookup)) [
    | inl e ↦ rw (cool_down, e) x
    | inr (p, e) ↦
        rw (cool_down, e)
          (record { heap = timed-IsHeap s p time x; listing = timed-IsListed s p time x })
  ]

  pub entry-cool_down :
      (hf : ℤ) → (hf, check_time (risk_of (cool_down u time s) u)) ≡ paused hf time (risk_of s u)
  unfolding cool_down
  entry-cool_down hf = elim (Option-cases (lookup u s.heap_lookup)) [
    | inl e ↦ rw (cool_down, e, e) refl
    | inr (p, e) ↦ rw (cool_down, e, e) (ground arith)
  ]

-- The user is in the heap, with this entry.
pub record IsPaused (u : Text) (hf time : ℤ) (s s' : StateStore) : Type 0 where
  pub index : IsRiskIndex s'
  pub entry : risk_of s' u ≡ some (paused hf time (risk_of s u))

module _ (u : Text) (hf time : ℤ) (s : StateStore) (x : IsRiskIndex s)
    (low : leb_ℤ hf_safety_threshold hf ≡ false) where
  IsUpdated-IsPaused :
      (s' : StateStore) → IsUpdated u (some hf) (cool_down u time s) s' → IsPaused u hf time s s'
  IsUpdated-IsPaused s' w = record {
    index = w.index;
    entry = w.view u ∙ rw (beq_refl u) (ap some (entry-cool_down u time s x hf));
  }

  pause-Ends :
      (out : Option LiquidationRecipe)
      → Ends
          (λ (r : Processed). IsPaused u hf time s r.1)
          (update_heap u (some hf) (cool_down u time s) >>= λ s'. ok (out, s'))
  pause-Ends out =
      Ends->>=
        (update_heap-Ends u (some hf) (cool_down u time s) (cool_down-IsRiskIndex u time s x))
        (λ s' w. ends (
          IsUpdated-IsPaused s' (
            subst (λ o. IsUpdated u o (cool_down u time s) s')
              (ap (λ b. if b then none else some hf) low) w)))

-- With a health factor on the chain below the safety threshold, after a liquidation that does not
-- pay or that was refused the user is in the heap with this health factor; the next check is after
-- the pause if the user was in the heap before, and due at time zero if not.
pub liquidate-cooldown :
    (now hf : ℤ) (send : LiquidationRecipe → Bool) (u : Text) (recipe : LiquidationRecipe)
    (s : StateStore)
    → IsRiskIndex s
    → leb_ℤ hf_safety_threshold hf ≡ false
    → send recipe ≡ false
    → Ends
        (λ (r : Processed). IsPaused u hf (now +ℤ no_profit_cooldown) s r.1)
        (without_profit now send u hf s)
      × Ends
          (λ (r : Processed). IsPaused u hf (now +ℤ liquidation_cooldown) s r.1)
          (after_send now send u hf recipe s)
unfolding without_profit after_send
liquidate-cooldown now hf send u recipe s x low refused = (
  pause-Ends u hf (now +ℤ no_profit_cooldown) s x low none,
  rw (after_send, refused) (pause-Ends u hf (now +ℤ liquidation_cooldown) s x low (some recipe)),
)
