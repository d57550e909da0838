-- ===== src/Tests/Worlds.antt =====
-- An example on the start of the program.
use aave_v3_flash_liquidator.Prelude.{◌≡◌, refl, true, [], ◌∷◌, some}
use aave_v3_flash_liquidator.Text.{
  set_string, parse_magnitude, parse_digits, trim_prefix, has_prefix,
}
use aave_v3_flash_liquidator.Run.{ok, OnOk}
use aave_v3_flash_liquidator.Config.{
  load_config, require_env, get_env_or_default, split_on, trim_left, trim_right, clean_urls,
  split_urls,
}
use aave_v3_flash_liquidator.Rpc.{new_rpc_client}
use aave_v3_flash_liquidator.Bootstrap.{
  bootstrap, load_with, load_users, set_indices, set_configs, category_set,
}
use aave_v3_flash_liquidator.Store.{set_anchor_block}
use aave_v3_flash_liquidator.Risk.Heap.{heap_init, init_loop}
use aave_v3_flash_liquidator.Startup.{
  World, Started, main, setup_tx_executor, new_tx_executor, start_risk_engine,
}
use aave_v3_flash_liquidator.Startup.Idle.{StartsHealthy, main-StartsHealthy}
use aave_v3_flash_liquidator.Tests.{weth}
use aave_v3_flash_liquidator.Tests.Settings.{getenv}

abbrev world : World
world = record {
  getenv = getenv;
  is_hex_address = λ address. true;
  hex_to_address = λ address. address;
  log_dir_made = λ dir. true;
  pool_abi_reads = true;
  e_mode_abi_reads = true;
  liquidator_abi_reads = true;
  reserves_list = λ rpc_client pool. some (weth ∷ []);
  fee_cache = λ rpc_client cfg assets. ok (true, record { best_fees = [] });
  anchor = λ cfg. some 4;
  reserves_at = λ assets block. some ([], []);
  users_at = λ cfg block. some [];
  categories_at = λ block ids. ok (some []);
  private_key = λ text. some text;
  wallet_of = λ key. key;
}

-- The program starts in this world.
main_starts : (started : Started) × (main world ≡ ok started)
unfolding main load_config require_env get_env_or_default split_on trim_left trim_right clean_urls
    split_urls set_string parse_magnitude parse_digits trim_prefix has_prefix new_rpc_client
    bootstrap load_with load_users set_indices set_configs category_set set_anchor_block heap_init
    init_loop setup_tx_executor new_tx_executor start_risk_engine
main_starts = (_, refl)

main-StartsHealthy_example : OnOk (StartsHealthy (λ t. t)) (main world)
main-StartsHealthy_example = main-StartsHealthy (λ t. t) world
