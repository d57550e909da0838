-- ===== src/Risk/Health/Lazy.antt =====
-- `calculateHF` and the E-Mode that is loaded only for users at risk.
use mathlib.Core.Path.{subst}
use aave_v3_flash_liquidator.Prelude.{
  ◌≡◌, refl, sym, ap, ◌∙◌, true, false, not, ◌&&◌, Option, some, Option-cases, Bool-cases, inl, inr,
  ltb_ℤ, lookup, lookup-insert, beq_refl, arith,
}
use aave_v3_flash_liquidator.Text.{Text, text_eq}
use aave_v3_flash_liquidator.Ray.{hf_safety_threshold}
use aave_v3_flash_liquidator.Models.{UserPosition, RiskSnapshot}
use aave_v3_flash_liquidator.Store.{StateStore}
use aave_v3_flash_liquidator.Risk.Health.{
  EModeReplies, min_debt_threshold, load_category, write_e_mode, lazy_e_mode, calculate_hf,
  compute_hf_math,
}

-- The store holds the user's position with the E-Mode fetched, and the snapshot is the one that the
-- store gives with this E-Mode.
abbrev pub IsJudged : Text → RiskSnapshot → StateStore → Type 0
IsJudged user snapshot s =
    (p : UserPosition) × (lookup user s.user_positions ≡ some p)
    × (p.e_mode_fetched ≡ true)
    × (compute_hf_math s user true p.e_mode_category_id ≡ some snapshot)

module _ (replies : EModeReplies) (user : Text) {snapshot : RiskSnapshot} {s' : StateStore} where
  lazy_e_mode-IsJudged :
      (position : UserPosition) (s : StateStore)
      → lazy_e_mode replies user position s ≡ (some snapshot, s')
      → IsJudged user snapshot s'
  unfolding lazy_e_mode write_e_mode
  lazy_e_mode-IsJudged position s e = elim (Option-cases replies.user_e_mode) [
    | inl down ↦ absurd (ground (arith, ap (λ t. t.0) (rw (lazy_e_mode, down) at e)))
    | inr (cat, up) ↦ elim (Option-cases (load_category replies cat s)) [
      | inl down ↦ absurd (ground (arith, ap (λ t. t.0) (rw (lazy_e_mode, up, down) at e)))
      | inr (s1, loaded) ↦
          let e' = rw (lazy_e_mode, up, loaded) at e in
          let p : UserPosition = record position {
            e_mode_category_id = cat;
            e_mode_fetched = true;
          } in
          subst (IsJudged user snapshot) (ap (λ t. t.1) e')
            (p, rw (lookup-insert, beq_refl) refl, refl, ap (λ t. t.0) e')
    ]
  ]

  same_snapshot :
      (first : RiskSnapshot) (s : StateStore)
      → ◌≡◌ {A = Option RiskSnapshot × StateStore} (some first, s) (some snapshot, s')
      → first ≡ snapshot
  same_snapshot first s e = let h = ap (λ t. t.0) e in cc

  -- If the computation for a user gives a snapshot with at least the minimal debt and a health
  -- factor below the safety threshold, then the store that it leaves holds the position with the
  -- E-Mode fetched, and the snapshot is the one of that store with this E-Mode.
  pub calculate_hf-IsJudged :
      (s : StateStore)
      → calculate_hf replies user s ≡ (some snapshot, s')
      → ltb_ℤ snapshot.total_debt_base min_debt_threshold ≡ false
      → ltb_ℤ snapshot.health_factor hf_safety_threshold ≡ true
      → IsJudged user snapshot s'
  unfolding calculate_hf
  calculate_hf-IsJudged s e large low = elim (Option-cases (lookup user s.user_positions)) [
    | inl missing ↦ absurd (ground (arith, ap (λ t. t.0) (rw (calculate_hf, missing) at e)))
    | inr (p, found) ↦
        elim (Option-cases (compute_hf_math s user p.e_mode_fetched p.e_mode_category_id)) [
          | inl nothing ↦
              absurd (ground (arith, ap (λ t. t.0) (rw (calculate_hf, found, nothing) at e)))
          | inr (first, computed) ↦
              elim (Bool-cases (ltb_ℤ first.total_debt_base min_debt_threshold)) [
                | inl tiny ↦
                    let e' = rw (calculate_hf, found, computed, tiny) at e in
                    let large' =
                      subst (λ x. ltb_ℤ x.total_debt_base min_debt_threshold ≡ false)
                        (sym (same_snapshot first s e')) large in
                    absurd (ground arith)
                | inr big ↦
                    elim (Bool-cases
                      (not p.e_mode_fetched && ltb_ℤ first.health_factor hf_safety_threshold)) [
                        | inl lazy ↦
                            lazy_e_mode-IsJudged p s
                              (rw (calculate_hf, found, computed, big, lazy) at e)
                        | inr done ↦
                            let e' = rw (calculate_hf, found, computed, big, done) at e in
                            let same = same_snapshot first s e' in
                            let low' =
                              subst (λ x. ltb_ℤ x.health_factor hf_safety_threshold ≡ true)
                                (sym same) low in
                            let fetched : p.e_mode_fetched ≡ true = ground arith in
                            subst (IsJudged user snapshot) (ap (λ t. t.1) e')
                              (p, found, fetched, rw fetched at computed ∙ ap some same)
                      ]
              ]
        ]
  ]
