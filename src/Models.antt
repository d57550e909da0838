-- ===== src/Models.antt =====
-- The data of internal/models: domain.go, risk.go and external.go. A `*big.Int` is a ℤ, an unsigned
-- field a number, and a map an association list. The pointers that the program never leaves nil
-- are the values that they point at.
use aave_v3_flash_liquidator.Prelude.{ℕ, Bool, List, ℤ, Assoc}
use aave_v3_flash_liquidator.Text.{Text}

pub record GlobalIndex : Type 0 where
  pub asset_address : Text
  pub liquidity_index : ℤ
  pub variable_borrow_index : ℤ
  pub last_update_block : ℕ

pub record UserReserve : Type 0 where
  pub asset_address : Text
  pub scaled_a_token_balance : ℤ
  pub scaled_variable_debt : ℤ
  pub usage_as_collateral_enabled_on_user : Bool

pub record UserPosition : Type 0 where
  pub user_address : Text
  pub reserves : Assoc Text UserReserve
  pub e_mode_category_id : ℕ
  pub e_mode_fetched : Bool

pub record AssetConfig : Type 0 where
  pub decimals : ℕ
  pub liquidation_threshold : ℕ
  pub liquidation_bonus : ℕ
  pub reserve_id : ℕ
  pub a_token_address : Text
  pub v_token_address : Text
  pub liquidation_protocol_fee : ℕ

pub record EModeCategory : Type 0 where
  pub ltv : ℕ
  pub liquidation_threshold : ℕ
  pub liquidation_bonus : ℕ
  pub price_source : Text
  pub collateral_bitmap : ℤ

pub record UserAccountData : Type 0 where
  pub total_collateral_base : ℤ
  pub total_debt_base : ℤ
  pub health_factor : ℤ

-- `index` is -1 for an item that has left the heap.
pub record UserRiskItem : Type 0 where
  pub user_address : Text
  pub health_factor : ℤ
  pub index : ℤ
  pub next_check_at : ℤ

pub record RiskSnapshot : Type 0 where
  pub health_factor : ℤ
  pub raw_collateral_base : ℤ
  pub total_collateral_base : ℤ
  pub total_debt_base : ℤ
  pub calculated_at_block : ℕ

pub record RpcLog : Type 0 where
  pub address : Text
  pub topics : List Text
  pub payload : Text
  pub block_number : Text
  pub transaction_hash : Text
  pub transaction_index : Text
  pub log_index : Text
  pub removed : Bool
