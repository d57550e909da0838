-- ===== src/Risk/Health/Decision.antt =====
-- The test `HealthFactor < 1.0` of the worker loop, and its two roundings.
use native.Mathlib.Decide.{dec_lt}
use aave_v3_flash_liquidator.Prelude.{
  ℕ, ◌+◌, ◌*◌, ◌/◌, ◌≤◌, ◌<◌, ◌≡◌, ◌↔◌, Bool, false, ◌&&◌, [], ◌∷◌, none, some, Option,
  Option-cases, Bool-cases, inl, inr, arith, ℤ, pos, negsuc, ◌≤ℤ◌, ◌*ℤ◌, div_ℤ, ltb_ℤ, is_zero,
  int_laws, Assoc, lookup, div_bounds,
}
use aave_v3_flash_liquidator.Text.{Text, text_eq}
use aave_v3_flash_liquidator.Ray.{ray_mul, wad, hf_liquidation_threshold}
use aave_v3_flash_liquidator.Models.{GlobalIndex, UserReserve, RiskSnapshot}
use aave_v3_flash_liquidator.Store.{StateStore}
use aave_v3_flash_liquidator.Risk.Health.{
  Totals, zero_totals, base_value, unit_of, add_collateral, add_debt_value, hf_step, hf_loop,
  health_factor_of, snapshot_of, compute_hf_math,
}
use aave_v3_flash_liquidator.Risk.Health.Sums.{compute_hf_math-eq}

-- Prices and indices, as the chain reports them, are not negative.
pub record IsPriced (s : StateStore) : Type 0 where
  pub prices : (a : Text) (p : ℤ) → lookup a s.prices ≡ some p → pos 0 ≤ℤ p
  pub indices :
      (a : Text) (i : GlobalIndex)
      → lookup a s.global_indices ≡ some i
      → (pos 0 ≤ℤ i.liquidity_index) × (pos 0 ≤ℤ i.variable_borrow_index)

pub record IsNonnegTotals (t : Totals) : Type 0 where
  pub collateral : pos 0 ≤ℤ t.collateral
  pub debt : pos 0 ≤ℤ t.debt

ray_mul_nonneg : (a b : ℤ) → pos 0 ≤ℤ a → pos 0 ≤ℤ b → pos 0 ≤ℤ ray_mul a b
unfolding ray_mul
ray_mul_nonneg (pos a) (pos b) p q = omega arith
ray_mul_nonneg (pos a) (negsuc b) p q = absurd (omega arith)
ray_mul_nonneg (negsuc a) b p q = absurd (omega arith)

base_value_nonneg : (a p : ℤ) (unit : ℕ) → pos 0 ≤ℤ a → pos 0 ≤ℤ p → pos 0 ≤ℤ base_value a p unit
unfolding base_value ◌*ℤ◌ div_ℤ
base_value_nonneg (pos a) (pos b) unit p q = omega arith
base_value_nonneg (pos a) (negsuc b) unit p q = absurd (omega arith)
base_value_nonneg (negsuc a) b unit p q = absurd (omega arith)

scale_nonneg : (a : ℤ) (n : ℕ) → pos 0 ≤ℤ a → pos 0 ≤ℤ a *ℤ pos n
unfolding ◌*ℤ◌
scale_nonneg (pos a) n p = omega arith
scale_nonneg (negsuc a) n p = absurd (omega arith)

module _ (res : UserReserve) (price : ℤ) (idx : GlobalIndex) (unit : ℕ) (p : pos 0 ≤ℤ price)
    (l : pos 0 ≤ℤ idx.liquidity_index) (b : pos 0 ≤ℤ idx.variable_borrow_index) where
  add_collateral-IsNonnegTotals :
      (lt : ℕ) (t : Totals)
      → IsNonnegTotals t
      → IsNonnegTotals (add_collateral res price idx unit lt t)
  unfolding add_collateral
  add_collateral-IsNonnegTotals lt t h =
      let bal = ray_mul res.scaled_a_token_balance idx.liquidity_index in
      let value = base_value bal price unit in
      elim (Bool-cases
        (res.usage_as_collateral_enabled_on_user && ltb_ℤ (pos 0) res.scaled_a_token_balance)) [
          | inl used ↦
              let held : pos 0 ≤ℤ res.scaled_a_token_balance = ground arith in
              let v = base_value_nonneg bal price unit (ray_mul_nonneg _ _ held l) p in
              rw (add_collateral, used) (omega (int_laws, scale_nonneg value lt v))
          | inr skip ↦ rw (add_collateral, skip) h
        ]

  add_debt_value-IsNonnegTotals :
      (t : Totals) → IsNonnegTotals t → IsNonnegTotals (add_debt_value res price idx unit t)
  unfolding add_debt_value
  add_debt_value-IsNonnegTotals t h =
      let owed = ray_mul res.scaled_variable_debt idx.variable_borrow_index in
      elim (Bool-cases (ltb_ℤ (pos 0) res.scaled_variable_debt)) [
        | inl used ↦
            let held : pos 0 ≤ℤ res.scaled_variable_debt = ground arith in
            let v = base_value_nonneg owed price unit (ray_mul_nonneg _ _ held b) p in
            rw (add_debt_value, used) (omega (int_laws, v))
        | inr skip ↦ rw (add_debt_value, skip) h
      ]

-- What the loop returns, if it returns.
abbrev Ok : Option Totals → Type 0
Ok none = Unit
Ok (some t) = IsNonnegTotals t

module _ (s : StateStore) (fetched : Bool) (cat : ℕ) (w : IsPriced s) where
  hf_step-Ok :
      (res : UserReserve) (t : Totals) → IsNonnegTotals t → Ok (hf_step s fetched cat res t)
  unfolding hf_step
  hf_step-Ok res t h =
      elim (Bool-cases (is_zero res.scaled_a_token_balance && is_zero res.scaled_variable_debt)) [
        | inl skip ↦ rw (hf_step, skip) h
        | inr used ↦ elim (Option-cases (lookup res.asset_address s.prices)) [
          | inl missing ↦ rw (hf_step, used, missing) tt
          | inr (price, p) ↦ elim (Option-cases (lookup res.asset_address s.global_indices)) [
            | inl missing ↦ rw (hf_step, used, p, missing) tt
            | inr (idx, q) ↦ elim (Option-cases (lookup res.asset_address s.asset_configs)) [
              | inl missing ↦ rw (hf_step, used, p, q, missing) tt
              | inr (cfg, r) ↦
                  let unit = unit_of cfg.decimals in
                  let (l, b) = w.indices res.asset_address idx q in
                  let n = w.prices res.asset_address price p in
                  rw (hf_step, used, p, q, r)
                    (add_debt_value-IsNonnegTotals res price idx unit n l b _
                      (add_collateral-IsNonnegTotals res price idx unit n l b _ t h))
            ]
          ]
        ]
      ]

  hf_loop-Ok :
      (reserves : Assoc Text UserReserve) (t : Totals)
      → IsNonnegTotals t
      → Ok (hf_loop s fetched cat reserves t)
  unfolding hf_loop
  hf_loop-Ok [] t h = h
  hf_loop-Ok (r ∷ reserves) t h =
      rest (hf_step s fetched cat r.1 t) (hf_step-Ok r.1 t h) (hf_loop-Ok reserves)
    where
      rest :
          (o : Option Totals)
          → Ok o
          → ((t : Totals) → IsNonnegTotals t → Ok (hf_loop s fetched cat reserves t))
          → Ok (elim o as (λ _. Option Totals) [
            | none ↦ none
            | some t' ↦ hf_loop s fetched cat reserves t'
          ])
      rest none h ih = tt
      rest (some t) h ih = ih t h

mul_mono : (q w d : ℕ) → q ≤ w → q * d ≤ w * d
mul_mono q w d h = grind arith

health_factor-lt-one_ℕ : (t d : ℕ) → 0 < d → (t * wad / 10000 / d < wad) ↔ (t < d * 10000)
health_factor-lt-one_ℕ t d h =
    let q = t * wad / 10000 / d in
    let (lo, hi) = div_bounds (t * wad / 10000) d h in
    (
      λ e. omega (arith, mul_mono (q + 1) wad d (omega arith)),
      λ e. elim (dec_lt q wad) [
        | yes p ↦ p
        | no p ↦ absurd (omega (arith, mul_mono wad q d (omega arith)))
      ],
    )

-- The two sides of the decision.
abbrev pub is_liquidatable : ℤ → Bool
is_liquidatable hf = ltb_ℤ hf hf_liquidation_threshold

abbrev pub is_under_water : ℤ → ℤ → Bool
is_under_water collateral debt = ltb_ℤ collateral (debt *ℤ pos 10000)

health_factor-lt-one :
    (c b : ℤ)
    → pos 0 ≤ℤ c
    → pos 0 ≤ℤ b
    → is_zero b ≡ false
    → is_liquidatable (health_factor_of c b) ≡ is_under_water c b
unfolding health_factor_of ◌*ℤ◌ div_ℤ
health_factor-lt-one (pos t) (pos d) p q h =
    ground (arith, health_factor-lt-one_ℕ t d (ground arith))
health_factor-lt-one (pos t) (negsuc d) p q h = absurd (omega arith)
health_factor-lt-one (negsuc t) b p q h = absurd (omega arith)

abbrev Exact : Option RiskSnapshot → Type 0
Exact none = Unit
Exact (some r) =
    is_liquidatable r.health_factor ≡ is_under_water r.total_collateral_base r.total_debt_base

snapshot_of-Exact : (block : ℕ) (t : Totals) → IsNonnegTotals t → Exact (snapshot_of block t)
unfolding snapshot_of
snapshot_of-Exact block t h = elim (Bool-cases (is_zero t.debt)) [
  | inl free ↦ rw (snapshot_of, free) tt
  | inr owes ↦
      rw (snapshot_of, owes) (health_factor-lt-one t.collateral t.debt h.collateral h.debt owes)
]

-- With prices and indices of zero or more, the health factor of a snapshot, after both roundings,
-- is below the liquidation threshold exactly when the weighted collateral is below 10000 times the
-- debt.
pub health_factor_exact :
    (s : StateStore) (user : Text) (fetched : Bool) (cat : ℕ) {snapshot : RiskSnapshot}
    → IsPriced s
    → compute_hf_math s user fetched cat ≡ some snapshot
    → is_liquidatable snapshot.health_factor
      ≡ is_under_water snapshot.total_collateral_base snapshot.total_debt_base
unfolding compute_hf_math
health_factor_exact s user fetched cat w e = elim (Option-cases (lookup user s.user_positions)) [
  | inl missing ↦ cc (rw (compute_hf_math, missing) at e)
  | inr (p, found) ↦
      let exact : Exact (compute_hf_math s user fetched cat) =
        rw (compute_hf_math-eq s user fetched cat found) (
          rest s.current_block (hf_loop s fetched cat p.reserves zero_totals)
            (hf_loop-Ok s fetched cat w p.reserves zero_totals (omega arith))) in
      rw e at exact
]
  where
    rest :
        (block : ℕ) (o : Option Totals)
        → Ok o
        → Exact
            (elim o as (λ _. Option RiskSnapshot) [ none ↦ none | some t ↦ snapshot_of block t ])
    rest block none h = tt
    rest block (some t) h = snapshot_of-Exact block t h
