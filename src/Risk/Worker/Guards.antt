-- ===== src/Risk/Worker/Guards.antt =====
-- What must hold before a liquidation is sent.
use mathlib.Core.Path.{subst}
use aave_v3_flash_liquidator.Prelude.{
  ◌≡◌, refl, ap, ◌∙◌, Bool, true, false, Bool-cases, Option-cases, inl, inr, Option, none, some, ℤ,
  pos, ltb_ℤ, arith,
}
use aave_v3_flash_liquidator.Text.{Text, text_eq}
use aave_v3_flash_liquidator.Ray.{hf_liquidation_threshold}
use aave_v3_flash_liquidator.Models.{UserPosition, UserAccountData, RiskSnapshot}
use aave_v3_flash_liquidator.Run.{
  Run, ok, panic, ◌>>=◌, OnOk, on_ok, on_panic, OnOk-value, OnOk->>=,
}
use aave_v3_flash_liquidator.Store.{StateStore}
use aave_v3_flash_liquidator.Risk.Health.{EModeReplies, min_debt_threshold, calculate_hf}
use aave_v3_flash_liquidator.Strategy.{LiquidationRecipe, calculate_optimal_recipe}
use aave_v3_flash_liquidator.Risk.Worker.{
  Processed, put_position, after_send, without_profit, liquidate, verify, judge, process_user,
}

-- The snapshot that was computed and the reply of the chain call for this liquidation.
pub record IsCalledFor (user : Text)
    (chain : RiskSnapshot → Option (UserAccountData × UserPosition)) (first : Option RiskSnapshot)
    (s : StateStore) (recipe : LiquidationRecipe) : Type 0 where
  pub snapshot : RiskSnapshot
  pub account : UserAccountData
  pub position : UserPosition
  pub computed : first ≡ some snapshot
  pub large : ltb_ℤ snapshot.total_debt_base min_debt_threshold ≡ false
  pub low : ltb_ℤ snapshot.health_factor hf_liquidation_threshold ≡ true
  pub verified : chain snapshot ≡ some (account, position)
  pub low_on_chain : ltb_ℤ account.health_factor hf_liquidation_threshold ≡ true
  pub chosen :
      calculate_optimal_recipe (put_position user position s) user position account.health_factor
      ≡ ok (some recipe)
  pub pays : ltb_ℤ (pos 0) recipe.expected_profit_usd ≡ true

module _ (now : ℤ) (send : LiquidationRecipe → Bool) (u : Text)
    (chain : RiskSnapshot → Option (UserAccountData × UserPosition))
    (recipe : LiquidationRecipe) where
  -- What a run with this outcome shows.
  abbrev Shows : Option RiskSnapshot → StateStore → Processed → Type 0
  Shows first s r = r.0 ≡ some recipe → IsCalledFor u chain first s recipe

  abbrev Quiet : Type 0 → Run Processed → Type 0
  Quiet P = OnOk (λ (t : Processed). t.0 ≡ some recipe → P)

  nothing_sent : (P : Type 0) (r : Run StateStore) → Quiet P (r >>= λ s'. ok (none, s'))
  nothing_sent P (ok s') = on_ok (λ e. absurd (ground (arith, e)))
  nothing_sent P panic = on_panic

  sent :
      (P : Type 0) (r : Run StateStore) (other : LiquidationRecipe)
      → (other ≡ recipe → P)
      → Quiet P (r >>= λ s'. ok (some other, s'))
  sent P (ok s') other k = on_ok (λ e. let h : some other ≡ some recipe = e in k cc)
  sent P panic other k = on_panic

  without_profit-silent :
      (P : Type 0) (hf : ℤ) (s : StateStore) → Quiet P (without_profit now send u hf s)
  unfolding without_profit
  without_profit-silent P hf s = nothing_sent P _

  liquidate-sends :
      (P : Type 0) (hf : ℤ) (best : Option LiquidationRecipe) (s : StateStore)
      → (best ≡ some recipe → ltb_ℤ (pos 0) recipe.expected_profit_usd ≡ true → P)
      → Quiet P (liquidate now send u hf best s)
  unfolding liquidate after_send
  liquidate-sends P hf none s k = without_profit-silent P hf s
  liquidate-sends P hf (some r) s k =
      let here : ltb_ℤ (pos 0) r.expected_profit_usd ≡ true → r ≡ recipe → P =
        λ e d. k (ap some d) (subst (λ q. ltb_ℤ (pos 0) q.expected_profit_usd ≡ true) d e) in
      elim (Bool-cases (ltb_ℤ (pos 0) r.expected_profit_usd)) [
        | inr e ↦ rw e (without_profit-silent P hf s)
        | inl e ↦ elim (Bool-cases (send r)) [
          | inl t ↦ rw (e, t) (sent P _ r (here e))
          | inr t ↦ rw (e, t) (sent P _ r (here e))
        ]
      ]

  verify-sends :
      (snapshot : RiskSnapshot) (s : StateStore)
      → ltb_ℤ snapshot.total_debt_base min_debt_threshold ≡ false
      → ltb_ℤ snapshot.health_factor hf_liquidation_threshold ≡ true
      → OnOk (Shows (some snapshot) s) (verify now send u (chain snapshot) s)
  unfolding verify
  verify-sends snapshot s large low = elim (Option-cases (chain snapshot)) [
    | inl e ↦ rw e (on_ok (λ d. absurd (ground (arith, d))))
    | inr ((account, position), e) ↦
        elim (Bool-cases (ltb_ℤ account.health_factor hf_liquidation_threshold)) [
          | inr d ↦ rw (e, d) (nothing_sent _ _)
          | inl d ↦
              rw (e, d)
                (OnOk->>=
                  (calculate_optimal_recipe (put_position u position s) u position
                    account.health_factor)
                  _
                  (λ best c.
                    liquidate-sends _ account.health_factor best (put_position u position s)
                      (λ b pays. record {
                        snapshot = snapshot;
                        account = account;
                        position = position;
                        computed = refl;
                        large = large;
                        low = low;
                        verified = e;
                        low_on_chain = d;
                        chosen = c ∙ ap ok b;
                        pays = pays;
                      })))
        ]
  ]

  judge-sends :
      (first : Option RiskSnapshot) (s : StateStore)
      → OnOk (Shows first s) (judge now send u chain first s)
  unfolding judge
  judge-sends none s = nothing_sent _ _
  judge-sends (some snapshot) s =
      elim (Bool-cases (ltb_ℤ snapshot.total_debt_base min_debt_threshold)) [
        | inl small ↦ rw small (nothing_sent _ _)
        | inr large ↦ elim (Bool-cases (ltb_ℤ snapshot.health_factor hf_liquidation_threshold)) [
          | inl low ↦ rw (large, low) (verify-sends snapshot s large low)
          | inr high ↦ rw (large, high) (nothing_sent _ _)
        ]
      ]

  -- If the worker hands a recipe to the executor, then the snapshot of the user has at least the
  -- minimal debt and a health factor below 1, the health factor of the account on the chain is
  -- below 1 as well, and the recipe is the one that the strategy chooses for the position on the
  -- chain, with a profit above zero.
  pub process_user-guards :
      (replies : EModeReplies) (s s' : StateStore)
      → process_user now send u replies chain s ≡ ok (some recipe, s')
      → IsCalledFor u chain (calculate_hf replies u s).0 (calculate_hf replies u s).1 recipe
  unfolding process_user
  process_user-guards replies s s' e =
      let r = calculate_hf replies u s in
      OnOk-value (subst (OnOk (Shows r.0 r.1)) e (judge-sends r.0 r.1)) refl
