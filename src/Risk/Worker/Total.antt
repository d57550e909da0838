-- ===== src/Risk/Worker/Total.antt =====
-- The worker never stops the program, and keeps the heap in order.
use aave_v3_flash_liquidator.Prelude.{
  ℕ, Bool, not, ◌&&◌, Bool-cases, Option-cases, inl, inr, Option, none, some, ℤ, pos, ltb, ltb_ℤ,
  insert, Assoc, nat_eq, lookup,
}
use aave_v3_flash_liquidator.Text.{Text, text_eq}
use aave_v3_flash_liquidator.Ray.{hf_liquidation_threshold, hf_safety_threshold}
use aave_v3_flash_liquidator.Models.{UserPosition, UserAccountData, EModeCategory, RiskSnapshot}
use aave_v3_flash_liquidator.Run.{Run, ok, ◌>>=◌, Ends, ends, Ends-if, Ends->>=}
use aave_v3_flash_liquidator.Store.{StateStore}
use aave_v3_flash_liquidator.Risk.Health.{
  EModeReplies, min_debt_threshold, calculate_hf, lazy_e_mode, load_category, write_e_mode,
  compute_hf_math,
}
use aave_v3_flash_liquidator.Risk.Update.{update_heap}
use aave_v3_flash_liquidator.Risk.Update.View.{IsRiskIndex}
use aave_v3_flash_liquidator.Risk.Update.Refines.{update_heap-Ends}
use aave_v3_flash_liquidator.Strategy.{LiquidationRecipe}
use aave_v3_flash_liquidator.Strategy.Totality.{IsConfigured}
use aave_v3_flash_liquidator.Strategy.Optimal.{calculate_optimal_recipe_lem}
use aave_v3_flash_liquidator.Risk.Worker.Cooldown.{cool_down-IsRiskIndex}
use aave_v3_flash_liquidator.Risk.Worker.{
  Processed, put_position, after_send, without_profit, liquidate, verify, judge, process_user,
}

module _ (u : Text) (replies : EModeReplies) (s : StateStore) (x : IsRiskIndex s) where
  with_e_mode :
      (user : UserPosition) (cat : ℕ) (categories : Assoc ℕ EModeCategory)
      → IsRiskIndex (write_e_mode u user cat (record s { e_mode_categories = categories }))
  unfolding write_e_mode
  with_e_mode user cat categories = record { heap = x.heap; listing = x.listing }

  lazy_e_mode-IsRiskIndex : (user : UserPosition) → IsRiskIndex (lazy_e_mode replies u user s).1
  unfolding lazy_e_mode load_category write_e_mode
  lazy_e_mode-IsRiskIndex user = elim (Option-cases replies.user_e_mode) [
    | inl e ↦ rw (lazy_e_mode, e) x
    | inr (cat, e) ↦ elim (Bool-cases (ltb 0 cat)) [
      | inr d ↦ rw (lazy_e_mode, e, load_category, d) (with_e_mode user cat s.e_mode_categories)
      | inl d ↦ elim (Option-cases (lookup cat s.e_mode_categories)) [
        | inr (known, k) ↦
            rw (lazy_e_mode, e, load_category, d, k) (with_e_mode user cat s.e_mode_categories)
        | inl k ↦ elim (Option-cases replies.category) [
          | inl f ↦ rw (lazy_e_mode, e, load_category, d, k, f) x
          | inr (config, f) ↦
              rw (lazy_e_mode, e, load_category, d, k, f)
                (with_e_mode user cat (insert cat config s.e_mode_categories))
        ]
      ]
    ]
  ]

  pub calculate_hf-IsRiskIndex : IsRiskIndex (calculate_hf replies u s).1
  unfolding calculate_hf
  calculate_hf-IsRiskIndex = elim (Option-cases (lookup u s.user_positions)) [
    | inl e ↦ rw (calculate_hf, e) x
    | inr (user, e) ↦
        elim (Option-cases (compute_hf_math s u user.e_mode_fetched user.e_mode_category_id)) [
          | inl f ↦ rw (calculate_hf, e, f) x
          | inr (snapshot, f) ↦
              elim (Bool-cases (ltb_ℤ snapshot.total_debt_base min_debt_threshold)) [
                | inl small ↦ rw (calculate_hf, e, f, small) x
                | inr large ↦
                    elim (Bool-cases (
                      not user.e_mode_fetched
                      && ltb_ℤ snapshot.health_factor hf_safety_threshold)) [
                        | inl late ↦
                            rw (calculate_hf, e, f, large, late) (lazy_e_mode-IsRiskIndex user)
                        | inr known ↦ rw (calculate_hf, e, f, large, known) x
                      ]
              ]
        ]
  ]

abbrev pub Keeps : Run Processed → Type 0
Keeps = Ends (λ (r : Processed). IsRiskIndex r.1)

module _ (now : ℤ) (send : LiquidationRecipe → Bool) (u : Text) where
  pub update-Keeps :
      (hf : Option ℤ) (out : Option LiquidationRecipe) (s : StateStore)
      → IsRiskIndex s
      → Keeps (update_heap u hf s >>= λ s'. ok (out, s'))
  update-Keeps hf out s x = Ends->>= (update_heap-Ends u hf s x) (λ s' w. ends w.index)

  without_profit-Keeps :
      (hf : ℤ) (s : StateStore) → IsRiskIndex s → Keeps (without_profit now send u hf s)
  unfolding without_profit
  without_profit-Keeps hf s x = update-Keeps (some hf) none _ (cool_down-IsRiskIndex u _ s x)

  pub liquidate-Keeps :
      (hf : ℤ) (best : Option LiquidationRecipe) (s : StateStore)
      → IsRiskIndex s
      → Keeps (liquidate now send u hf best s)
  unfolding liquidate after_send
  liquidate-Keeps hf none s x = without_profit-Keeps hf s x
  liquidate-Keeps hf (some r) s x =
      Ends-if (ltb_ℤ (pos 0) r.expected_profit_usd)
        (λ _.
          Ends-if (send r) (λ _. update-Keeps _ (some r) s x)
            (λ _. update-Keeps (some hf) (some r) _ (cool_down-IsRiskIndex u _ s x)))
        (λ _. without_profit-Keeps hf s x)

  pub put_position-IsRiskIndex :
      (position : UserPosition) (s : StateStore)
      → IsRiskIndex s
      → IsRiskIndex (put_position u position s)
  put_position-IsRiskIndex position s x = record { heap = x.heap; listing = x.listing }

  put_position-IsConfigured :
      (position : UserPosition) (s : StateStore)
      → IsConfigured s
      → IsConfigured (put_position u position s)
  put_position-IsConfigured position s c = record {
    prices = c.prices;
    bonuses = c.bonuses;
    categories = c.categories;
  }

  verify-Keeps :
      (reply : Option (UserAccountData × UserPosition)) (s : StateStore)
      → IsRiskIndex s
      → IsConfigured s
      → Keeps (verify now send u reply s)
  unfolding verify
  verify-Keeps none s x c = ends x
  verify-Keeps (some (account, position)) s x c =
      let s' = put_position u position s in
      let x' = put_position-IsRiskIndex position s x in
      let (best, e, _) =
        calculate_optimal_recipe_lem s' (put_position-IsConfigured position s c) u position
          account.health_factor in
      Ends-if (ltb_ℤ account.health_factor hf_liquidation_threshold)
        (λ _. rw e (liquidate-Keeps account.health_factor best s' x'))
        (λ _. update-Keeps _ none s' x')

  pub judge-Keeps :
      (chain : RiskSnapshot → Option (UserAccountData × UserPosition)) (first : Option RiskSnapshot)
      (s : StateStore)
      → IsRiskIndex s
      → IsConfigured s
      → Keeps (judge now send u chain first s)
  unfolding judge
  judge-Keeps chain none s x c = update-Keeps none none s x
  judge-Keeps chain (some snapshot) s x c =
      Ends-if (ltb_ℤ snapshot.total_debt_base min_debt_threshold) (λ _. update-Keeps none none s x)
        (λ _.
          Ends-if (ltb_ℤ snapshot.health_factor hf_liquidation_threshold)
            (λ _. verify-Keeps (chain snapshot) s x c) (λ _. update-Keeps _ none s x))

  -- If the store that the computation leaves has no zero price and no zero bonus where a division
  -- uses it, the worker does not panic on a user, and it keeps the heap in order and listed by the
  -- table.
  pub process_user-IsRiskIndex :
      (replies : EModeReplies) (chain : RiskSnapshot → Option (UserAccountData × UserPosition))
      (s : StateStore)
      → IsRiskIndex s
      → IsConfigured (calculate_hf replies u s).1
      → Ends (λ (r : Processed). IsRiskIndex r.1) (process_user now send u replies chain s)
  unfolding process_user
  process_user-IsRiskIndex replies chain s x c =
      judge-Keeps chain _ _ (calculate_hf-IsRiskIndex u replies s x) c
