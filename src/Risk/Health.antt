-- ===== src/Risk/Health.antt =====
-- `computeHFMath` and `calculateHF` of internal/engine/risk_engine.go. A `range` over a map visits
-- its entries in an order of its own: here it is the order of the association list.
pub mod Sums
pub mod Decision
pub mod Lazy
use aave_v3_flash_liquidator.Prelude.{
  ℕ, ◌+◌, ◌*◌, ◌/◌, ◌%◌, ◌^◌, Bool, true, false, not, ◌&&◌, ◌||◌, List, [], ◌∷◌, none, some, Option,
  ltb, ◌==◌, if◌then◌else◌, ℤ, pos, negsuc, ◌+ℤ◌, ◌*ℤ◌, div_ℤ, ltb_ℤ, is_zero, Assoc, lookup,
  insert, nat_eq,
}
use aave_v3_flash_liquidator.Text.{Text, text_eq}
use aave_v3_flash_liquidator.Ray.{ray_mul, wad, hf_safety_threshold}
use aave_v3_flash_liquidator.Models.{
  GlobalIndex, UserReserve, UserPosition, AssetConfig, EModeCategory, RiskSnapshot,
}
use aave_v3_flash_liquidator.Store.{StateStore, get_current_block}

abbrev pub min_debt_threshold : ℤ
min_debt_threshold = pos 100000000

-- `new(big.Int).Exp(10, int64(decimals), nil)`: a negative exponent gives 1.
unfoldable pub unit_of : ℕ → ℕ
unit_of decimals = if ltb decimals (2 ^ 63) then 10 ^ decimals else 1

-- `new(big.Int).Rsh(x, n)` and then the lowest bit, also of a negative number.
unfoldable pub bit_at : ℤ → ℕ → Bool
bit_at (pos b) n = b / 2 ^ n % 2 == 1
bit_at (negsuc m) n = m / 2 ^ n % 2 == 0

pub record Totals : Type 0 where
  pub raw_collateral : ℤ
  pub collateral : ℤ
  pub debt : ℤ

abbrev pub zero_totals : Totals
zero_totals = record { raw_collateral = pos 0; collateral = pos 0; debt = pos 0 }

-- The E-Mode threshold replaces that of the asset if the category holds the reserve's bit.
unfoldable pub lt_to_use : StateStore → Bool → ℕ → AssetConfig → ℕ
lt_to_use s e_mode_fetched user_e_mode_cat cfg =
    if e_mode_fetched && not (user_e_mode_cat == 0)
    then (elim (lookup user_e_mode_cat s.e_mode_categories) [
      | none ↦ cfg.liquidation_threshold
      | some category ↦
          if bit_at category.collateral_bitmap cfg.reserve_id
          then category.liquidation_threshold
          else cfg.liquidation_threshold
    ])
    else cfg.liquidation_threshold

-- An amount at a price, in units of 10^-8 USD.
unfoldable pub base_value : ℤ → ℤ → ℕ → ℤ
base_value amount price unit = div_ℤ (amount *ℤ price) (pos unit)

unfoldable pub add_collateral : UserReserve → ℤ → GlobalIndex → ℕ → ℕ → Totals → Totals
add_collateral res price idx unit lt t =
    if res.usage_as_collateral_enabled_on_user && ltb_ℤ (pos 0) res.scaled_a_token_balance
    then (let value =
          base_value (ray_mul res.scaled_a_token_balance idx.liquidity_index) price unit in
        record t {
          raw_collateral = t.raw_collateral +ℤ value;
          collateral = t.collateral +ℤ value *ℤ pos lt;
        })
    else t

unfoldable pub add_debt_value : UserReserve → ℤ → GlobalIndex → ℕ → Totals → Totals
add_debt_value res price idx unit t =
    if ltb_ℤ (pos 0) res.scaled_variable_debt
    then (let value =
          base_value (ray_mul res.scaled_variable_debt idx.variable_borrow_index) price unit in
        record t { debt = t.debt +ℤ value })
    else t

-- One round of the loop; `none` ends the function with nil.
unfoldable pub hf_step : StateStore → Bool → ℕ → UserReserve → Totals → Option Totals
hf_step s e_mode_fetched user_e_mode_cat res t =
    if is_zero res.scaled_a_token_balance && is_zero res.scaled_variable_debt
    then some t
    else elim (lookup res.asset_address s.prices) [
      | none ↦ none
      | some price ↦ elim (lookup res.asset_address s.global_indices) [
        | none ↦ none
        | some idx ↦ elim (lookup res.asset_address s.asset_configs) [
          | none ↦ none
          | some cfg ↦
              let unit = unit_of cfg.decimals in
              let lt = lt_to_use s e_mode_fetched user_e_mode_cat cfg in
              some (add_debt_value res price idx unit (add_collateral res price idx unit lt t))
        ]
      ]
    ]

unfoldable pub hf_loop : StateStore → Bool → ℕ → Assoc Text UserReserve → Totals → Option Totals
hf_loop s fetched cat [] t = some t
hf_loop s fetched cat (e ∷ reserves) t = elim (hf_step s fetched cat e.1 t) [
  | none ↦ none
  | some t' ↦ hf_loop s fetched cat reserves t'
]

unfoldable pub health_factor_of : ℤ → ℤ → ℤ
health_factor_of collateral debt = div_ℤ (div_ℤ (collateral *ℤ pos wad) (pos 10000)) debt

unfoldable pub snapshot_of : ℕ → Totals → Option RiskSnapshot
snapshot_of start_block t =
    if is_zero t.debt
    then none
    else some (record {
      health_factor = health_factor_of t.collateral t.debt;
      raw_collateral_base = t.raw_collateral;
      total_collateral_base = t.collateral;
      total_debt_base = t.debt;
      calculated_at_block = start_block;
    })

unfoldable pub compute_hf_math : StateStore → Text → Bool → ℕ → Option RiskSnapshot
compute_hf_math s user_addr e_mode_fetched user_e_mode_cat =
    elim (lookup user_addr s.user_positions) [
      | none ↦ none
      | some user ↦ elim (hf_loop s e_mode_fetched user_e_mode_cat user.reserves zero_totals) [
        | none ↦ none
        | some t ↦ snapshot_of (get_current_block s) t
      ]
    ]

-- What the chain answers to `FetchUserEMode` and `FetchEModeCategory`; `none` is an error.
pub record EModeReplies : Type 0 where
  pub user_e_mode : Option ℕ
  pub category : Option EModeCategory

-- The category of the user is looked up on the chain if the store lacks it; `none` gives up.
unfoldable pub load_category : EModeReplies → ℕ → StateStore → Option StateStore
load_category replies cat_id s =
    if ltb 0 cat_id
    then (elim (lookup cat_id s.e_mode_categories) [
      | some _ ↦ some s
      | none ↦ elim replies.category [
        | none ↦ none
        | some config ↦
            some (record s { e_mode_categories = insert cat_id config s.e_mode_categories })
      ]
    ])
    else some s

-- The write through the pointer to the user's position.
unfoldable pub write_e_mode : Text → UserPosition → ℕ → StateStore → StateStore
write_e_mode user_addr user cat_id s =
    let user' = record user { e_mode_category_id = cat_id; e_mode_fetched = true } in
    record s { user_positions = insert user_addr user' s.user_positions }

unfoldable pub lazy_e_mode :
    EModeReplies → Text → UserPosition → StateStore → Option RiskSnapshot × StateStore
lazy_e_mode replies user_addr user s = elim replies.user_e_mode [
  | none ↦ (none, s)
  | some cat_id ↦ elim (load_category replies cat_id s) [
    | none ↦ (none, s)
    | some s' ↦
        let s'' = write_e_mode user_addr user cat_id s' in
        (compute_hf_math s'' user_addr true cat_id, s'')
  ]
]

unfoldable pub calculate_hf : EModeReplies → Text → StateStore → Option RiskSnapshot × StateStore
calculate_hf replies user_addr s = elim (lookup user_addr s.user_positions) [
  | none ↦ (none, s)
  | some user ↦ elim (compute_hf_math s user_addr user.e_mode_fetched user.e_mode_category_id) [
    | none ↦ (none, s)
    | some snapshot ↦
        if ltb_ℤ snapshot.total_debt_base min_debt_threshold
        then (some snapshot, s)
        else if not user.e_mode_fetched && ltb_ℤ snapshot.health_factor hf_safety_threshold
        then lazy_e_mode replies user_addr user s
        else (some snapshot, s)
  ]
]
