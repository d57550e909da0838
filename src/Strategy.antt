-- ===== src/Strategy.antt =====
-- internal/engine/strategy_engine.go: the most profitable liquidation of one position.
pub mod Amounts
pub mod Best
pub mod Bounds
pub mod Totality
pub mod Optimal
use aave_v3_flash_liquidator.Prelude.{
  ℕ, ◌-◌, ◌+◌, Bool, true, false, not, ◌&&◌, ◌||◌, List, [], ◌∷◌, ◌++◌, none, some, Option, ltb,
  leb, ◌==◌, if◌then◌else◌, ℤ, pos, ◌+ℤ◌, ◌-ℤ◌, ◌*ℤ◌, div_ℤ, ltb_ℤ, leb_ℤ, is_zero, Assoc, lookup,
  nat_eq, ◌*◌, ◌^◌,
}
use aave_v3_flash_liquidator.Text.{Text, text_eq}
use aave_v3_flash_liquidator.Ray.{ray_mul}
use aave_v3_flash_liquidator.Models.{
  GlobalIndex, UserReserve, UserPosition, AssetConfig, EModeCategory,
}
use aave_v3_flash_liquidator.Store.{StateStore}
use aave_v3_flash_liquidator.Risk.Health.{unit_of, bit_at}
use aave_v3_flash_liquidator.Run.{Run, ok, panic, ◌>>=◌, div_go}

pub record LiquidationRecipe : Type 0 where
  pub user_address : Text
  pub debt_asset : Text
  pub collateral_asset : Text
  pub debt_to_cover : ℤ
  pub expected_seized_amount : ℤ
  pub expected_profit_usd : ℤ
  pub liquidation_bonus_bps : ℕ

abbrev pub close_factor_hf_threshold : ℤ
close_factor_hf_threshold = pos (95 * 10 ^ 16)

abbrev pub min_base_max_close_factor_threshold : ℤ
min_base_max_close_factor_threshold = pos 200000000000

abbrev pub min_leftover_base : ℤ
min_leftover_base = pos 100000000000

abbrev pub default_liquidation_close_factor : ℤ
default_liquidation_close_factor = pos 5000

abbrev pub percentage_factor : ℤ
percentage_factor = pos 10000

abbrev pub flashloan_fee_bps : ℕ
flashloan_fee_bps = 5

abbrev pub estimated_dex_slippage_bps : ℕ
estimated_dex_slippage_bps = 50

abbrev pub estimated_gas_cost_usd : ℤ
estimated_gas_cost_usd = pos 1000000

unfoldable pub value_in_base_currency : ℤ → ℤ → ℕ → ℤ
value_in_base_currency amount price decimals = div_ℤ (amount *ℤ price) (pos (unit_of decimals))

unfoldable pub percent_div_ceil : ℤ → ℤ → ℤ
percent_div_ceil value percentage =
    if is_zero value || is_zero percentage
    then pos 0
    else div_ℤ (value *ℤ percentage_factor +ℤ percentage -ℤ pos 1) percentage

pub record AssetData : Type 0 where
  pub address : Text
  pub balance : ℤ
  pub price : ℤ
  pub decimals : ℕ
  pub reserve_id : ℕ

-- What the loop over the reserves collects.
pub record Collected : Type 0 where
  pub debts : List AssetData
  pub collaterals : List AssetData
  pub total_debt_in_base : ℤ
  pub total_collateral_in_base : ℤ

abbrev pub nothing_collected : Collected
nothing_collected = record {
  debts = [];
  collaterals = [];
  total_debt_in_base = pos 0;
  total_collateral_in_base = pos 0;
}

abbrev pub asset_data : Text → ℤ → ℤ → AssetConfig → AssetData
asset_data address balance price cfg = record {
  address = address;
  balance = balance;
  price = price;
  decimals = cfg.decimals;
  reserve_id = cfg.reserve_id;
}

unfoldable pub collect_debt :
    Text → UserReserve → ℤ → GlobalIndex → AssetConfig → Collected → Collected
collect_debt asset_addr reserve price idx cfg c =
    if ltb_ℤ (pos 0) reserve.scaled_variable_debt
    then (let actual_debt = ray_mul reserve.scaled_variable_debt idx.variable_borrow_index in
        record c {
          debts = c.debts ++ asset_data asset_addr actual_debt price cfg ∷ [];
          total_debt_in_base =
              c.total_debt_in_base +ℤ value_in_base_currency actual_debt price cfg.decimals;
        })
    else c

unfoldable pub collect_collateral :
    Text → UserReserve → ℤ → GlobalIndex → AssetConfig → Collected → Collected
collect_collateral asset_addr reserve price idx cfg c =
    if reserve.usage_as_collateral_enabled_on_user && ltb_ℤ (pos 0) reserve.scaled_a_token_balance
    then (let actual_col = ray_mul reserve.scaled_a_token_balance idx.liquidity_index in
        record c {
          collaterals = c.collaterals ++ asset_data asset_addr actual_col price cfg ∷ [];
          total_collateral_in_base =
              c.total_collateral_in_base +ℤ value_in_base_currency actual_col price cfg.decimals;
        })
    else c

unfoldable pub collect_step : StateStore → Text → UserReserve → Collected → Collected
collect_step s asset_addr reserve c = elim (lookup asset_addr s.prices) [
  | none ↦ c
  | some price ↦ elim (lookup asset_addr s.global_indices) [
    | none ↦ c
    | some idx ↦ elim (lookup asset_addr s.asset_configs) [
      | none ↦ c
      | some cfg ↦
          collect_collateral asset_addr reserve price idx cfg
            (collect_debt asset_addr reserve price idx cfg c)
    ]
  ]
]

unfoldable pub collect : StateStore → Assoc Text UserReserve → Collected → Collected
collect s [] c = c
collect s ((asset_addr, reserve) ∷ reserves) c =
    collect s reserves (collect_step s asset_addr reserve c)

-- Half of the debt at most, for a position that is large and not far below 1.0.
unfoldable pub max_liquidatable_debt : Collected → ℤ → AssetData → Run ℤ
max_liquidatable_debt c hf debt =
    if leb_ℤ min_base_max_close_factor_threshold c.total_collateral_in_base
      && leb_ℤ min_base_max_close_factor_threshold c.total_debt_in_base
      && ltb_ℤ close_factor_hf_threshold hf
    then (let total_default =
          div_ℤ (c.total_debt_in_base *ℤ default_liquidation_close_factor) percentage_factor in
        if ltb_ℤ total_default (value_in_base_currency debt.balance debt.price debt.decimals)
        then div_go (total_default *ℤ pos (unit_of debt.decimals)) debt.price
        else ok debt.balance)
    else ok debt.balance

-- The bonus and the protocol fee of a collateral, with the E-Mode's bonus where it applies.
unfoldable pub bonus_bps_of : StateStore → UserPosition → AssetData → ℕ
bonus_bps_of s position col =
    let plain : ℕ = elim (lookup col.address s.asset_configs) [
      | none ↦ 0
      | some cfg ↦ cfg.liquidation_bonus
    ] in
    if position.e_mode_fetched && not (position.e_mode_category_id == 0)
    then (elim (lookup position.e_mode_category_id s.e_mode_categories) [
      | none ↦ plain
      | some cat ↦
          if bit_at cat.collateral_bitmap col.reserve_id then cat.liquidation_bonus else plain
    ])
    else plain

unfoldable pub protocol_fee_bps_of : StateStore → AssetData → ℕ
protocol_fee_bps_of s col = elim (lookup col.address s.asset_configs) [
  | none ↦ 0
  | some cfg ↦ cfg.liquidation_protocol_fee
]

-- The debt to cover and the collateral that is taken for it.
unfoldable pub liquidation_amounts : AssetData → AssetData → ℤ → ℕ → Run (ℤ × ℤ)
liquidation_amounts debt col max_debt bonus_bps = do
  let debt_unit = pos (unit_of debt.decimals)
  let col_unit = pos (unit_of col.decimals)
  base_collateral ← div_go (debt.price *ℤ max_debt *ℤ col_unit) (col.price *ℤ debt_unit)
  let max_collateral = div_ℤ (base_collateral *ℤ pos bonus_bps) percentage_factor
  if ltb_ℤ col.balance max_collateral
      then (div_go (col.price *ℤ col.balance *ℤ debt_unit) (debt.price *ℤ col_unit)
          >>= λ debt_needed. ok (percent_div_ceil debt_needed (pos bonus_bps), col.balance))
      else ok (max_debt, max_collateral)

unfoldable pub protocol_fee : ℤ → ℕ → ℕ → Run ℤ
protocol_fee collateral bonus_bps fee_bps =
    if ltb 0 fee_bps
    then (div_go (collateral *ℤ percentage_factor) (pos bonus_bps) >>= λ bonus_portion.
        ok (div_ℤ ((collateral -ℤ bonus_portion) *ℤ pos fee_bps) percentage_factor))
    else ok (pos 0)

-- The pool refuses a liquidation that leaves a little of both.
unfoldable pub leaves_dust : AssetData → AssetData → ℤ → ℤ → Bool
leaves_dust debt col debt_to_cover collateral =
    if ltb_ℤ debt_to_cover debt.balance && ltb_ℤ collateral col.balance
    then ltb_ℤ (value_in_base_currency (debt.balance -ℤ debt_to_cover) debt.price debt.decimals)
        min_leftover_base
      || ltb_ℤ (value_in_base_currency (col.balance -ℤ collateral) col.price col.decimals)
          min_leftover_base
    else false

unfoldable pub net_profit : AssetData → AssetData → ℤ → ℤ → ℤ
net_profit debt col debt_to_cover received =
    let debt_cost = div_ℤ (debt_to_cover *ℤ pos (10000 + flashloan_fee_bps)) percentage_factor in
    let cost_usd = value_in_base_currency debt_cost debt.price debt.decimals in
    let ideal_revenue_usd = value_in_base_currency received col.price col.decimals in
    let actual_revenue_usd =
      div_ℤ (ideal_revenue_usd *ℤ pos (10000 - estimated_dex_slippage_bps)) percentage_factor in
    actual_revenue_usd -ℤ cost_usd -ℤ estimated_gas_cost_usd

-- One combination of a debt and a collateral; `none` is the `continue` of the source.
unfoldable pub evaluate :
    StateStore → Text → UserPosition → AssetData → ℤ → AssetData → Run (Option LiquidationRecipe)
evaluate s user_addr position debt max_debt col = do
  let bonus_bps = bonus_bps_of s position col
  (debt_to_cover, collateral) ← liquidation_amounts debt col max_debt bonus_bps
  fee ← protocol_fee collateral bonus_bps (protocol_fee_bps_of s col)
  let received = collateral -ℤ fee
  if leaves_dust debt col debt_to_cover collateral
      then ok none
      else ok (
          some (record {
            user_address = user_addr;
            debt_asset = debt.address;
            collateral_asset = col.address;
            debt_to_cover = debt_to_cover;
            expected_seized_amount = received;
            expected_profit_usd = net_profit debt col debt_to_cover received;
            liquidation_bonus_bps = bonus_bps;
          }))

pub record BestRecipe : Type 0 where
  pub recipe : Option LiquidationRecipe
  pub highest_profit : ℤ

abbrev pub no_recipe : BestRecipe
no_recipe = record { recipe = none; highest_profit = pos 0 }

unfoldable pub consider : Option LiquidationRecipe → BestRecipe → BestRecipe
consider none best = best
consider (some r) best =
    if ltb_ℤ best.highest_profit r.expected_profit_usd
    then record { recipe = some r; highest_profit = r.expected_profit_usd }
    else best

module _ (s : StateStore) (user_addr : Text) (position : UserPosition) where
  unfoldable pub collateral_loop : AssetData → ℤ → List AssetData → BestRecipe → Run BestRecipe
  collateral_loop debt max_debt [] best = ok best
  collateral_loop debt max_debt (col ∷ cols) best =
      evaluate s user_addr position debt max_debt col >>= λ r.
      collateral_loop debt max_debt cols (consider r best)

  unfoldable pub debt_loop : Collected → ℤ → List AssetData → BestRecipe → Run BestRecipe
  debt_loop c hf [] best = ok best
  debt_loop c hf (debt ∷ debts) best = max_liquidatable_debt c hf debt >>= λ max_debt.
      collateral_loop debt max_debt c.collaterals best >>= λ best'. debt_loop c hf debts best'

  unfoldable pub calculate_optimal_recipe : ℤ → Run (Option LiquidationRecipe)
  calculate_optimal_recipe hf = do
    let c = collect s position.reserves nothing_collected
    best ← debt_loop c hf c.debts no_recipe
    ok best.recipe
