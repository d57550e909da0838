-- ===== src/Risk/Health/Sums.antt =====
-- The loop of `computeHFMath` as a sum of what each reserve contributes.
use mathlib.Core.List.{Perm, Permᴰ}
use mathlib.Core.Logic.{∥∥₁_elim}
use aave_v3_flash_liquidator.Prelude.{
  ℕ, ◌≡◌, refl, ◌∙◌, ap, sym, Bool, ◌&&◌, [], ◌∷◌, none, some, Option, Option-cases, Bool-cases,
  inl, inr, arith, ℤ, pos, ◌+ℤ◌, ◌*ℤ◌, is_zero, +ℤ-zero, zero-+ℤ, +ℤ_assoc, +ℤ_comm, Assoc, lookup,
  insert, lookup-insert, beq_refl,
}
use aave_v3_flash_liquidator.Text.{Text, text_eq}
use aave_v3_flash_liquidator.Ray.{ray_mul}
use aave_v3_flash_liquidator.Models.{GlobalIndex, UserReserve, UserPosition, RiskSnapshot}
use aave_v3_flash_liquidator.Store.{StateStore, get_current_block}
use aave_v3_flash_liquidator.Risk.Health.{
  Totals, zero_totals, base_value, lt_to_use, unit_of, add_collateral, add_debt_value, hf_step,
  hf_loop, snapshot_of, compute_hf_math,
}

infixl 65 ◌+T◌
abbrev pub ◌+T◌ : Totals → Totals → Totals
t +T u = record {
  raw_collateral = t.raw_collateral +ℤ u.raw_collateral;
  collateral = t.collateral +ℤ u.collateral;
  debt = t.debt +ℤ u.debt;
}

+T-zero : (t : Totals) → t +T zero_totals ≡ t
+T-zero t = ground (arith, +ℤ-zero t.raw_collateral, +ℤ-zero t.collateral, +ℤ-zero t.debt)

+T_assoc : (t u w : Totals) → t +T u +T w ≡ t +T (u +T w)
+T_assoc t u w = ground (
  arith,
  +ℤ_assoc t.raw_collateral u.raw_collateral w.raw_collateral,
  +ℤ_assoc t.collateral u.collateral w.collateral,
  +ℤ_assoc t.debt u.debt w.debt,
)

+T_comm : (t u : Totals) → t +T u ≡ u +T t
+T_comm t u = ground (
  arith,
  +ℤ_comm t.raw_collateral u.raw_collateral,
  +ℤ_comm t.collateral u.collateral,
  +ℤ_comm t.debt u.debt,
)

-- A sum with a missing part is missing.
infixl 65 ◌+O◌
abbrev pub ◌+O◌ : Option Totals → Option Totals → Option Totals
none +O o = none
some t +O none = none
some t +O some u = some (t +T u)

+O_assoc : (a b c : Option Totals) → a +O b +O c ≡ a +O (b +O c)
+O_assoc none b c = refl
+O_assoc (some t) none c = refl
+O_assoc (some t) (some u) none = refl
+O_assoc (some t) (some u) (some w) = ap some (+T_assoc t u w)

+O_comm : (a b : Option Totals) → a +O b ≡ b +O a
+O_comm none none = refl
+O_comm none (some u) = refl
+O_comm (some t) none = refl
+O_comm (some t) (some u) = ap some (+T_comm t u)

-- What one reserve adds.
unfoldable pub contribution : StateStore → Bool → ℕ → UserReserve → Option Totals
contribution s fetched cat res = hf_step s fetched cat res zero_totals

module _ (res : UserReserve) (price : ℤ) (idx : GlobalIndex) (unit : ℕ) where
  add_collateral-sum :
      (lt : ℕ) (t : Totals)
      → add_collateral res price idx unit lt t
        ≡ t +T add_collateral res price idx unit lt zero_totals
  unfolding add_collateral
  add_collateral-sum lt t =
      let value = base_value (ray_mul res.scaled_a_token_balance idx.liquidity_index) price unit in
      ground (arith, +T-zero t, zero-+ℤ value, zero-+ℤ (value *ℤ pos lt), +ℤ-zero t.debt)

  add_debt_value-sum :
      (t u : Totals)
      → add_debt_value res price idx unit (t +T u) ≡ t +T add_debt_value res price idx unit u
  unfolding add_debt_value
  add_debt_value-sum t u = ground (
    arith,
    +ℤ_assoc t.debt u.debt
        (base_value (ray_mul res.scaled_variable_debt idx.variable_borrow_index) price unit),
  )

-- A round of the loop adds the contribution of its reserve.
hf_step-contribution :
    (s : StateStore) (fetched : Bool) (cat : ℕ) (res : UserReserve) (t : Totals)
    → hf_step s fetched cat res t ≡ some t +O contribution s fetched cat res
unfolding hf_step contribution
hf_step-contribution s fetched cat res t =
    elim (Bool-cases (is_zero res.scaled_a_token_balance && is_zero res.scaled_variable_debt)) [
      | inl skip ↦ rw (hf_step, skip) (ap some (sym (+T-zero t)))
      | inr used ↦ elim (Option-cases (lookup res.asset_address s.prices)) [
        | inl missing ↦ rw (hf_step, used, missing)
        | inr (price, p) ↦ elim (Option-cases (lookup res.asset_address s.global_indices)) [
          | inl missing ↦ rw (hf_step, used, p, missing)
          | inr (idx, q) ↦ elim (Option-cases (lookup res.asset_address s.asset_configs)) [
            | inl missing ↦ rw (hf_step, used, p, q, missing)
            | inr (cfg, r) ↦
                rw (hf_step, used, p, q, r)
                  (ap some (
                    ap (add_debt_value res price idx (unit_of cfg.decimals)) (
                      add_collateral-sum res price idx (unit_of cfg.decimals)
                        (lt_to_use s fetched cat cfg) t)
                    ∙ add_debt_value-sum res price idx (unit_of cfg.decimals) t _))
          ]
        ]
      ]
    ]

-- The contributions of all the reserves, if none is missing.
unfoldable pub sum_contributions : StateStore → Bool → ℕ → Assoc Text UserReserve → Option Totals
sum_contributions s fetched cat [] = some zero_totals
sum_contributions s fetched cat (e ∷ reserves) =
    contribution s fetched cat e.1 +O sum_contributions s fetched cat reserves

module _ (s : StateStore) (fetched : Bool) (cat : ℕ) where
  hf_loop-from :
      (reserves : Assoc Text UserReserve) (t : Totals)
      → hf_loop s fetched cat reserves t ≡ some t +O sum_contributions s fetched cat reserves
  unfolding hf_loop sum_contributions
  hf_loop-from [] t = ap some (sym (+T-zero t))
  hf_loop-from (e ∷ reserves) t =
      rw (hf_loop, hf_step-contribution s fetched cat e.1 t)
        (rest (contribution s fetched cat e.1) (sum_contributions s fetched cat reserves)
          (hf_loop-from reserves))
    where
      rest :
          (c sum : Option Totals)
          → ((t : Totals) → hf_loop s fetched cat reserves t ≡ some t +O sum)
          → elim (some t +O c) as (λ _. Option Totals) [
            | none ↦ none
            | some t' ↦ hf_loop s fetched cat reserves t'
          ]
            ≡ some t +O (c +O sum)
      rest none sum ih = refl
      rest (some u) sum ih = ih (t +T u) ∙ +O_assoc (some t) (some u) sum

  sum_contributions-perm :
      {x y : Assoc Text UserReserve}
      → Permᴰ x y
      → sum_contributions s fetched cat x ≡ sum_contributions s fetched cat y
  unfolding sum_contributions
  sum_contributions-perm Permᴰ.nil = refl
  sum_contributions-perm (Permᴰ.cons {a} {b} {l₁} {l₂} e p) = rw (e, sum_contributions-perm p)
  sum_contributions-perm (Permᴰ.swap {a} {b} {a'} {b'} {l} p q) =
      let f = contribution s fetched cat in
      let sum = sum_contributions s fetched cat l in
      rw (p, q)
        (sym (+O_assoc (f b'.1) (f a'.1) sum)
          ∙ ap (λ o. o +O sum) (+O_comm (f b'.1) (f a'.1))
          ∙ +O_assoc (f a'.1) (f b'.1) sum)
  sum_contributions-perm (Permᴰ.trans p q) = sum_contributions-perm p ∙ sum_contributions-perm q

  Totals-set : IsSet (Option Totals)
  Totals-set = hlevel

  hf_loop-perm :
      {x y : Assoc Text UserReserve}
      → Perm x y
      → hf_loop s fetched cat x zero_totals ≡ hf_loop s fetched cat y zero_totals
  hf_loop-perm {x} {y} p =
      hf_loop-from x zero_totals
      ∙ ap (λ o. some zero_totals +O o)
          (∥∥₁_elim p (Totals-set _ _) (λ q. sum_contributions-perm q))
      ∙ sym (hf_loop-from y zero_totals)

-- The loop does not read the positions.
hf_loop-positions :
    (s : StateStore) (positions : Assoc Text UserPosition) (fetched : Bool) (cat : ℕ)
    (reserves : Assoc Text UserReserve) (t : Totals)
    → hf_loop (record s { user_positions = positions }) fetched cat reserves t
      ≡ hf_loop s fetched cat reserves t
unfolding hf_loop hf_step lt_to_use
hf_loop-positions s positions fetched cat [] t = refl
hf_loop-positions s positions fetched cat (e ∷ reserves) t =
    ground (arith, hf_loop-positions s positions fetched cat reserves)

pub compute_hf_math-eq :
    (s : StateStore) (user : Text) (fetched : Bool) (cat : ℕ) {p : UserPosition}
    → lookup user s.user_positions ≡ some p
    → compute_hf_math s user fetched cat
      ≡ elim (hf_loop s fetched cat p.reserves zero_totals) as (λ _. Option RiskSnapshot) [
        | none ↦ none
        | some t ↦ snapshot_of s.current_block t
      ]
unfolding compute_hf_math get_current_block
compute_hf_math-eq s user fetched cat found = rw (compute_hf_math, found)

-- The snapshot of a user does not change when the reserves of the position are visited in another
-- order.
pub compute_hf_math-perm :
    (s : StateStore) (user : Text) (fetched : Bool) (cat : ℕ) {p : UserPosition}
    (reserves : Assoc Text UserReserve)
    → lookup user s.user_positions ≡ some p
    → Perm p.reserves reserves
    → compute_hf_math
        (record s {
          user_positions = insert user (record p { reserves = reserves }) s.user_positions;
        })
        user
        fetched
        cat
      ≡ compute_hf_math s user fetched cat
compute_hf_math-perm s user fetched cat {p} reserves found perm =
    let p' = record p { reserves = reserves } in
    let positions = insert user p' s.user_positions in
    let s' = record s { user_positions = positions } in
    let found' : lookup user positions ≡ some p' = rw (lookup-insert, beq_refl) in
    let same : hf_loop s' fetched cat reserves zero_totals
        ≡ hf_loop s fetched cat p.reserves zero_totals =
      hf_loop-positions s positions fetched cat reserves zero_totals
      ∙ sym (hf_loop-perm s fetched cat perm) in
    compute_hf_math-eq s' user fetched cat found'
    ∙ ap
        (λ o. elim o as (λ _. Option RiskSnapshot) [
          | none ↦ none
          | some t ↦ snapshot_of s.current_block t
        ])
        same
    ∙ sym (compute_hf_math-eq s user fetched cat found)
