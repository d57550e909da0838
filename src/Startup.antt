-- ===== src/Startup.antt =====
-- `main` of cmd/bot/main.go up to the start of the engines, with `NewTxExecutor` and `Start` of the
-- risk engine. `log.Fatal` and the panics of the set-up end the program: `panic`. The outside of the
-- program, and what the list of the assets and the cache of the fees come to, are in `World`.
pub mod Idle
use aave_v3_flash_liquidator.Prelude.{
  ℕ, Bool, List, [], Option, none, some, if◌then◌else◌, ℤ, Assoc,
}
use aave_v3_flash_liquidator.Text.{Text, codes, trim_prefix}
use aave_v3_flash_liquidator.Run.{Run, ok, panic, ◌>>=◌}
use aave_v3_flash_liquidator.Models.{EModeCategory}
use aave_v3_flash_liquidator.Store.{StateStore, new_state_store}
use aave_v3_flash_liquidator.Config.{AppConfig, load_config}
use aave_v3_flash_liquidator.Rpc.{RpcClient, new_rpc_client}
use aave_v3_flash_liquidator.Dex.{FeeCache}
use aave_v3_flash_liquidator.Multicall.{ReserveMaps}
use aave_v3_flash_liquidator.Bootstrap.{GraphUser, bootstrap}
use aave_v3_flash_liquidator.Executor.{TxExecutor}
use aave_v3_flash_liquidator.Risk.Heap.{heap_init}
use aave_v3_flash_liquidator.Risk.Update.{heap_of, with_heap}
use aave_v3_flash_liquidator.Replay.Start.{new_log_replay_engine}
use aave_v3_flash_liquidator.System.{System, starting}

pub record World : Type 0 where
  pub getenv : Text → Text
  pub is_hex_address : Text → Bool
  pub hex_to_address : Text → Text
  pub log_dir_made : Text → Bool
  pub pool_abi_reads : Bool
  pub e_mode_abi_reads : Bool
  pub liquidator_abi_reads : Bool
  pub reserves_list : RpcClient → Text → Option (List Text)
  pub fee_cache : RpcClient → AppConfig → List Text → Run (Bool × FeeCache)
  pub anchor : AppConfig → Option ℕ
  pub reserves_at : List Text → ℕ → Option ReserveMaps
  pub users_at : AppConfig → ℕ → Option (List GraphUser)
  pub categories_at : ℕ → List ℕ → Run (Option (Assoc ℕ EModeCategory))
  pub private_key : Text → Option Text
  pub wallet_of : Text → Text

-- A result that the program cannot go on without.
abbrev pub or_fatal {ℓ} : {A : Type ℓ} → Option A → Run A
or_fatal none = panic
or_fatal (some a) = ok a

abbrev pub unless_fatal {ℓ} : {A : Type ℓ} → Bool × A → Run A
unless_fatal r = if r.0 then ok r.1 else panic

unfoldable pub new_tx_executor : World → Text → Text → ℤ → FeeCache → Option TxExecutor
new_tx_executor w contract key chain_id cache =
    if w.liquidator_abi_reads
    then some (record {
      contract = contract;
      wallet_addr = w.wallet_of key;
      chain_id = chain_id;
      fee_cache = cache;
    })
    else none

-- `setupTxExecutor`
unfoldable pub setup_tx_executor : World → AppConfig → FeeCache → Run TxExecutor
setup_tx_executor w cfg cache =
    or_fatal (w.private_key (trim_prefix (codes "0x") cfg.bot_private_key)) >>= λ key.
    or_fatal (new_tx_executor w cfg.liquidator_contract key cfg.chain_id cache)

-- `RiskEngine.Start`, whose goroutines are the steps of System.
unfoldable pub start_risk_engine : StateStore → Run StateStore
start_risk_engine s = heap_init (heap_of s) >>= λ h. ok (with_heap h s)

pub record Started : Type 0 where
  pub system : System
  pub executor : TxExecutor
  pub target_assets : List Text

unfoldable pub main : World → Run Started
main w = do
  cfg ← load_config w.getenv w.is_hex_address w.hex_to_address
  log_dir ← unless_fatal (w.log_dir_made cfg.log_dir, cfg.log_dir)
  rpc_client ← new_rpc_client w.pool_abi_reads w.e_mode_abi_reads cfg.rpc_urls
  target_assets ← or_fatal (w.reserves_list rpc_client cfg.aave_v3_pool)
  built ← w.fee_cache rpc_client cfg target_assets
  cache ← unless_fatal built
  loaded ←
      bootstrap (w.anchor cfg) (w.reserves_at target_assets) (w.users_at cfg) w.categories_at
        new_state_store
  filled ← unless_fatal loaded
  executor ← setup_tx_executor w cfg cache
  store ← start_risk_engine filled
  ok (record {
    system = record { engine = new_log_replay_engine store []; phase = starting; workers = [] };
    executor = executor;
    target_assets = target_assets;
  })
