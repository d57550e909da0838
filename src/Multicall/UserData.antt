-- ===== src/Multicall/UserData.antt =====
-- internal/rpc/user_data_on_chain.go: the account and the position of one user in one batch. The ABI
-- coder and the call of the node are parameters. The results are read by position: three for the
-- user, then two for each asset.
pub mod Single
use aave_v3_flash_liquidator.Prelude.{
  ℕ, suc, ◌+◌, ◌*◌, ◌%◌, ◌^◌, Bool, true, false, ◌==◌, List, [], ◌∷◌, Option, none, some,
  if◌then◌else◌, ℤ, pos, Assoc, insert, length,
}
use aave_v3_flash_liquidator.Text.{Text, text_eq, to_lower}
use aave_v3_flash_liquidator.Run.{Run, ok, panic, ◌>>=◌}
use aave_v3_flash_liquidator.Models.{AssetConfig, UserReserve, UserPosition, UserAccountData}
use aave_v3_flash_liquidator.Store.{StateStore}
use aave_v3_flash_liquidator.Risk.Health.{bit_at}
use aave_v3_flash_liquidator.Dex.{Call, CallResult}
use aave_v3_flash_liquidator.Multicall.Categories.{result_at}

pub record AssetMeta : Type 0 where
  pub asset_address : Text
  pub a_token_address : Text
  pub v_token_address : Text
  pub reserve_index : ℕ

-- The coder: call data from the address of the user, and what return data hold.
pub record UserAbi : Type 0 where
  pub hex_to_address : Text → Text
  pub pack_account_data : Text → Text
  pub pack_e_mode : Text → Text
  pub pack_configuration : Text → Text
  pub pack_balance : Text → Text
  pub unpack_account_data : Text → Option UserAccountData
  pub unpack_e_mode : Text → Option ℕ
  pub unpack_configuration : Text → Option ℕ
  pub unpack_balance : Text → Option ℤ

unfoldable pub assets_of : Assoc Text AssetConfig → List AssetMeta
assets_of [] = []
assets_of ((asset_addr, cfg) ∷ configs) =
    record {
      asset_address = asset_addr;
      a_token_address = cfg.a_token_address;
      v_token_address = cfg.v_token_address;
      reserve_index = cfg.reserve_id;
    }
    ∷ assets_of configs

unfoldable pub unpack_safe_bytes : {A : Type 0} → (Text → Option A) → Text → Option A
unpack_safe_bytes unpack [] = none
unpack_safe_bytes unpack (b ∷ data_bytes) = unpack (b ∷ data_bytes)

-- A result that must have succeeded.
unfoldable pub read_result : {A : Type 0} → (Text → Option A) → CallResult → Option A
unfolding unpack_safe_bytes
read_result unpack res = if res.success then unpack_safe_bytes unpack res.return_data else none

-- `eModeId` is the lowest byte.
unfoldable pub position_with : Text → ℕ → Assoc Text UserReserve → UserPosition
position_with user_address e_mode reserves = record {
  user_address = to_lower user_address;
  reserves = reserves;
  e_mode_category_id = e_mode % 2 ^ 8;
  e_mode_fetched = true;
}

module _ (abi : UserAbi) where
  abbrev pub strict_call : Text → Text → Call
  strict_call target call_data = record {
    target = target;
    allow_failure = false;
    call_data = call_data;
  }

  unfoldable pub balance_calls : Text → List AssetMeta → List Call
  balance_calls user_common [] = []
  balance_calls user_common (asset ∷ assets) =
      strict_call (abi.hex_to_address asset.a_token_address) (abi.pack_balance user_common)
      ∷ strict_call (abi.hex_to_address asset.v_token_address) (abi.pack_balance user_common)
      ∷ balance_calls user_common assets

  unfoldable pub user_calls : Text → Text → List AssetMeta → List Call
  user_calls pool_common user_common assets =
      strict_call pool_common (abi.pack_account_data user_common)
      ∷ strict_call pool_common (abi.pack_e_mode user_common)
      ∷ strict_call pool_common (abi.pack_configuration user_common)
      ∷ balance_calls user_common assets

  -- `bitIndex` is a 16-bit number before it is widened.
  unfoldable pub reserve_from : ℕ → AssetMeta → CallResult → CallResult → Option UserReserve
  reserve_from config_data asset a_token_result v_token_result =
      elim (read_result abi.unpack_balance a_token_result) [
        | none ↦ none
        | some balance ↦ elim (read_result abi.unpack_balance v_token_result) [
          | none ↦ none
          | some debt ↦ some (record {
            asset_address = asset.asset_address;
            scaled_a_token_balance = balance;
            scaled_variable_debt = debt;
            usage_as_collateral_enabled_on_user =
                bit_at (pos config_data) ((asset.reserve_index * 2 + 1) % 2 ^ 16);
          })
        ]
      ]

  unfoldable pub balances_loop :
      ℕ
      → List CallResult
      → ℕ
      → List AssetMeta
      → Assoc Text UserReserve
      → Run (Option (Assoc Text UserReserve))
  balances_loop config_data return_datas i [] reserves = ok (some reserves)
  balances_loop config_data return_datas i (asset ∷ assets) reserves =
      result_at return_datas (3 + i * 2) >>= λ a_token_result.
      result_at return_datas (3 + i * 2 + 1) >>= λ v_token_result.
      elim (reserve_from config_data asset a_token_result v_token_result) [
        | none ↦ ok none
        | some reserve ↦
            balances_loop config_data return_datas (suc i) assets
              (insert asset.asset_address reserve reserves)
      ]

  -- The three results of the user, or an error.
  unfoldable pub header_of : CallResult → CallResult → CallResult → Option (UserAccountData × ℕ × ℕ)
  header_of first second third = elim (read_result abi.unpack_account_data first) [
    | none ↦ none
    | some acct_data ↦ elim (read_result abi.unpack_e_mode second) [
      | none ↦ none
      | some e_mode ↦ elim (read_result abi.unpack_configuration third) [
        | none ↦ none
        | some config_data ↦ some (acct_data, e_mode, config_data)
      ]
    ]
  ]

  abbrev pub with_reserves :
      Text
      → UserAccountData
      → ℕ
      → Option (Assoc Text UserReserve)
      → Option (UserAccountData × UserPosition)
  with_reserves user acct_data e_mode none = none
  with_reserves user acct_data e_mode (some reserves) =
      some (acct_data, position_with user e_mode reserves)

  unfoldable pub decode_user :
      Text → List AssetMeta → List CallResult → Run (Option (UserAccountData × UserPosition))
  decode_user user_address assets return_datas = result_at return_datas 0 >>= λ first.
      result_at return_datas 1 >>= λ second. result_at return_datas 2 >>= λ third.
      elim (header_of first second third) [
        | none ↦ ok none
        | some h ↦ balances_loop h.2 return_datas 0 assets [] >>= λ reserves.
            ok (with_reserves user_address h.0 h.1 reserves)
      ]

  -- `aggregate` is the call of `aggregate3` with its reply unpacked, at a block or, without one, at
  -- the latest; `none` is an error.
  unfoldable pub fetch_user_position_batch_at_block :
      (List Call → Option ℕ → Option (List CallResult))
      → Text
      → Text
      → ℕ
      → StateStore
      → Run (Option (UserAccountData × UserPosition))
  fetch_user_position_batch_at_block aggregate pool_address user_address block_num s =
      let assets = assets_of s.asset_configs in
      let calls =
        user_calls (abi.hex_to_address pool_address) (abi.hex_to_address user_address) assets in
      elim (aggregate calls (if block_num == 0 then none else some block_num)) [
        | none ↦ ok none
        | some return_datas ↦
            if length return_datas == length calls
            then decode_user user_address assets return_datas
            else ok none
      ]
