-- ===== src/Tests.antt =====
-- Small stores and logs for the examples of the modules below.
pub mod Numbers
pub mod Accounts
pub mod Risks
pub mod Liquidations
pub mod Calls
pub mod Pools
pub mod Heaps
pub mod Senders
pub mod Feeds
pub mod Batches
pub mod Starts
pub mod Graphs
pub mod Settings
pub mod Streams
pub mod Runs
pub mod Worlds
use aave_v3_flash_liquidator.Prelude.{ℕ, Bool, true, false, List, [], ◌∷◌, ℤ, pos, ◌*◌, ◌^◌}
use aave_v3_flash_liquidator.Text.{Text, codes}
use aave_v3_flash_liquidator.Models.{GlobalIndex, UserReserve, UserPosition, AssetConfig, RpcLog}
use aave_v3_flash_liquidator.Ray.{ray}
use aave_v3_flash_liquidator.Store.{StateStore, new_state_store}
use aave_v3_flash_liquidator.Replay.{LogReplayEngine}

-- A user, two assets.
abbrev pub ann : Text
ann = codes "0xa"

abbrev pub weth : Text
weth = codes "0xb"

abbrev pub usdc : Text
usdc = codes "0xc"

abbrev pub index_at : Text → ℕ → GlobalIndex
index_at asset i = record {
  asset_address = asset;
  liquidity_index = pos i;
  variable_borrow_index = pos i;
  last_update_block = 1;
}

abbrev pub config_of : ℕ → ℕ → AssetConfig
config_of decimals reserve_id = record {
  decimals = decimals;
  liquidation_threshold = 8000;
  liquidation_bonus = 10500;
  reserve_id = reserve_id;
  a_token_address = [];
  v_token_address = [];
  liquidation_protocol_fee = 1000;
}

abbrev pub reserve_with : Text → ℕ → ℕ → UserReserve
reserve_with asset balance debt = record {
  asset_address = asset;
  scaled_a_token_balance = pos balance;
  scaled_variable_debt = pos debt;
  usage_as_collateral_enabled_on_user = true;
}

-- 10 units of weth at 200 USD as collateral for a debt of 1700 usdc.
abbrev pub ann_position : UserPosition
ann_position = record {
  user_address = ann;
  reserves = (weth, reserve_with weth 1000 0) ∷ (usdc, reserve_with usdc 0 170000) ∷ [];
  e_mode_category_id = 0;
  e_mode_fetched = false;
}

abbrev pub market : StateStore
market = record new_state_store {
  global_indices = (weth, index_at weth ray) ∷ (usdc, index_at usdc ray) ∷ [];
  user_positions = (ann, ann_position) ∷ [];
  prices = (weth, pos (200 * 10 ^ 8)) ∷ (usdc, pos (10 ^ 8)) ∷ [];
  asset_configs = (weth, config_of 2 0) ∷ (usdc, config_of 2 1) ∷ [];
  current_block = 7;
}

-- The store without positions.
abbrev pub quiet : StateStore
quiet = record market { user_positions = [] }

abbrev pub engine_on : StateStore → LogReplayEngine
engine_on s = record {
  store = s;
  last_processed_block = 0;
  last_processed_log_index = 0;
  current_tx_hash = [];
  dirty_users = [];
  task_queue = [];
}

abbrev pub log_at : Text → Text → RpcLog
log_at block index = record {
  address = [];
  topics = [];
  payload = codes "0x";
  block_number = block;
  transaction_hash = codes "0x1";
  transaction_index = codes "0x0";
  log_index = index;
  removed = false;
}
