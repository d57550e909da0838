-- ===== src/Strategy/Totality.antt =====
-- The divisions of `CalculateOptimalRecipe` by prices and bonuses.
use native.Mathlib.Nat.{mul-pos}
use aave_v3_flash_liquidator.Prelude.{
  ℕ, zero, suc, ◌*◌, ◌<◌, ◌≡◌, refl, Bool, abs_ℕ, neg_ℕ, true, false, inl, inr, Bool-cases, arith,
  ltb, if◌then◌else◌, some, ℤ, pos, negsuc, ◌*ℤ◌, div_ℤ, is_zero, lookup, nat_eq,
}
use aave_v3_flash_liquidator.Text.{Text, text_eq}
use aave_v3_flash_liquidator.Models.{UserPosition, AssetConfig, EModeCategory}
use aave_v3_flash_liquidator.Store.{StateStore}
use aave_v3_flash_liquidator.Run.{Run, ok, div_go-ok}
use aave_v3_flash_liquidator.Risk.Health.{unit_of}
use aave_v3_flash_liquidator.Strategy.{
  AssetData, Collected, liquidation_amounts, percentage_factor, protocol_fee, bonus_bps_of,
  protocol_fee_bps_of, evaluate, max_liquidatable_debt, default_liquidation_close_factor,
}
use aave_v3_flash_liquidator.Strategy.Bounds.{unit_of_pos}

-- No price is zero, and no bonus that a division uses.
pub record IsConfigured (s : StateStore) : Type 0 where
  pub prices : (a : Text) (p : ℤ) → lookup a s.prices ≡ some p → is_zero p ≡ false
  pub bonuses :
      (a : Text) (cfg : AssetConfig)
      → lookup a s.asset_configs ≡ some cfg
      → 0 < cfg.liquidation_protocol_fee
      → 0 < cfg.liquidation_bonus
  pub categories :
      (k : ℕ) (cat : EModeCategory)
      → lookup k s.e_mode_categories ≡ some cat
      → 0 < cat.liquidation_bonus

abbrev IsOk : {A : Type 0} → Run A → Type 0
IsOk {A} r = (a : A) × (r ≡ ok a)

if_IsOk : {A : Type 0} (b : Bool) (x y : Run A) → IsOk x → IsOk y → IsOk (if b then x else y)
if_IsOk true x y h k = h
if_IsOk false x y h k = k

abs_neg : (n : ℕ) → abs_ℕ (neg_ℕ n) ≡ n
abs_neg zero = refl
abs_neg (suc n) = refl

times_unit : (a : ℤ) (d : ℕ) → is_zero a ≡ false → is_zero (a *ℤ pos (unit_of d)) ≡ false
unfolding ◌*ℤ◌
times_unit (pos zero) d h = ground arith
times_unit (pos (suc a)) d h =
    let p = mul-pos {m = suc a} (omega arith) (unit_of_pos d) in ground arith
times_unit (negsuc a) d h =
    let p = mul-pos {m = suc a} (omega arith) (unit_of_pos d) in
    rw (abs_neg (suc a * unit_of d)) (ground arith)

liquidation_amounts-IsOk :
    (debt col : AssetData) (m : ℤ) (w : ℕ)
    → is_zero debt.price ≡ false
    → is_zero col.price ≡ false
    → IsOk (liquidation_amounts debt col m w)
unfolding liquidation_amounts
liquidation_amounts-IsOk debt col m w dp cp =
    let base = debt.price *ℤ m *ℤ pos (unit_of col.decimals) in
    let share = col.price *ℤ col.balance *ℤ pos (unit_of debt.decimals) in
    let e1 =
      div_go-ok base (col.price *ℤ pos (unit_of debt.decimals))
        (times_unit col.price debt.decimals cp) in
    let e2 =
      div_go-ok share (debt.price *ℤ pos (unit_of col.decimals))
        (times_unit debt.price col.decimals dp) in
    rw (e1, e2) (if_IsOk _ _ _ (_, refl) (_, refl))

protocol_fee-IsOk : (c : ℤ) (w f : ℕ) → (0 < f → 0 < w) → IsOk (protocol_fee c w f)
unfolding protocol_fee
protocol_fee-IsOk c w f h = elim (Bool-cases (ltb 0 f)) [
  | inl e ↦
      let nonzero : is_zero (pos w) ≡ false = let g = h (ground arith) in ground arith in
      rw (e, div_go-ok _ (pos w) nonzero) (_, refl)
  | inr e ↦ rw e (_, refl)
]

bonus_pos :
    (s : StateStore) (position : UserPosition) (col : AssetData)
    → IsConfigured s
    → 0 < protocol_fee_bps_of s col
    → 0 < bonus_bps_of s position col
unfolding bonus_bps_of protocol_fee_bps_of
bonus_pos s position col h f = grind (arith, h.bonuses, h.categories)

module _ (s : StateStore) (config : IsConfigured s) (debt : AssetData)
    (dp : is_zero debt.price ≡ false) where
  pub max_liquidatable_debt-IsOk : (c : Collected) (hf : ℤ) → IsOk (max_liquidatable_debt c hf debt)
  unfolding max_liquidatable_debt
  max_liquidatable_debt-IsOk c hf =
      let half =
        div_ℤ (c.total_debt_in_base *ℤ default_liquidation_close_factor) percentage_factor in
      let e = div_go-ok (half *ℤ pos (unit_of debt.decimals)) debt.price dp in
      rw e (if_IsOk _ _ _ (if_IsOk _ _ _ (_, refl) (_, refl)) (_, refl))

  pub evaluate-IsOk :
      (user_addr : Text) (position : UserPosition) (m : ℤ) (col : AssetData)
      → is_zero col.price ≡ false
      → IsOk (evaluate s user_addr position debt m col)
  unfolding evaluate
  evaluate-IsOk user_addr position m col cp =
      let w = bonus_bps_of s position col in
      let amounts = liquidation_amounts-IsOk debt col m w dp cp in
      let fee =
        protocol_fee-IsOk amounts.0.1 w (protocol_fee_bps_of s col)
          (bonus_pos s position col config) in
      rw (amounts.1, fee.1) (if_IsOk _ _ _ (_, refl) (_, refl))
