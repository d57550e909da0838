-- ===== src/Multicall.antt =====
-- internal/rpc/multicall.go: batches of reads of the pool. The ABI coder and the call of the node
-- are parameters; a reply is read by position.
pub mod Fields
pub mod Batches
pub mod Reverts
pub mod Categories
pub mod UserData
pub mod OnchainCall
use aave_v3_flash_liquidator.Prelude.{
  ℕ, zero, suc, ◌+◌, ◌-◌, ◌*◌, ◌/◌, ◌%◌, ◌^◌, Bool, true, false, ◌&&◌, ◌||◌, ◌==◌, List, [], ◌∷◌,
  Option, none, some, if◌then◌else◌, ltb, leb, ℤ, pos, Assoc, insert, nat_eq, length, take, drop,
  get_elem?,
}
use aave_v3_flash_liquidator.Text.{Text, text_eq, has_prefix}
use aave_v3_flash_liquidator.Run.{Run, ok, panic, ◌>>=◌}
use aave_v3_flash_liquidator.Models.{GlobalIndex, AssetConfig, EModeCategory}
use aave_v3_flash_liquidator.Dex.{Call, CallResult}

-- What the source reads of the reply to `getReserveData`.
pub record ReserveData : Type 0 where
  pub configuration : ℕ
  pub liquidity_index : ℤ
  pub variable_borrow_index : ℤ
  pub id : ℕ
  pub a_token_address : Text
  pub variable_debt_token_address : Text

-- `width` bits of the bitmap from bit `shift` on.
abbrev pub bits : ℕ → ℕ → ℕ → ℕ
bits bitmap shift width = bitmap / 2 ^ shift % 2 ^ width

unfoldable pub asset_config_of : ReserveData → AssetConfig
asset_config_of reserve_data = record {
  decimals = bits reserve_data.configuration 48 8;
  liquidation_threshold = bits reserve_data.configuration 16 16;
  liquidation_bonus = bits reserve_data.configuration 32 16;
  reserve_id = reserve_data.id;
  a_token_address = reserve_data.a_token_address;
  v_token_address = reserve_data.variable_debt_token_address;
  liquidation_protocol_fee = bits reserve_data.configuration 152 16;
}

unfoldable pub global_index_of : Text → ℕ → ReserveData → GlobalIndex
global_index_of asset block_number reserve_data = record {
  asset_address = asset;
  liquidity_index = reserve_data.liquidity_index;
  variable_borrow_index = reserve_data.variable_borrow_index;
  last_update_block = block_number;
}

abbrev pub ReserveMaps : Type 0
ReserveMaps = Assoc Text GlobalIndex × Assoc Text AssetConfig

module _ (unpack_reserve_data : Text → Option ReserveData) where
  -- What one result holds, if the call succeeded and its data can be read.
  unfoldable pub reserve_of : CallResult → Option ReserveData
  reserve_of res = if res.success then unpack_reserve_data res.return_data else none

  unfoldable pub decode_loop : ℕ → List CallResult → List Text → ReserveMaps → ReserveMaps
  decode_loop block_number [] assets maps = maps
  decode_loop block_number (res ∷ results) [] maps = maps
  decode_loop block_number (res ∷ results) (asset ∷ assets) maps = elim (reserve_of res) [
    | none ↦ decode_loop block_number results assets maps
    | some reserve_data ↦ decode_loop block_number results assets (
      insert asset (global_index_of asset block_number reserve_data) maps.0,
      insert asset (asset_config_of reserve_data) maps.1,
    )
  ]

  -- After the data have been unpacked; `none` is the error on a wrong number of results.
  unfoldable pub decode_multicall_results_safe :
      Option (List CallResult) → List Text → ℕ → Option ReserveMaps
  decode_multicall_results_safe none assets block_number = none
  decode_multicall_results_safe (some results) assets block_number =
      if length results == length assets
      then some (decode_loop block_number results assets ([], []))
      else none

module _ (hex_to_address : Text → Text) (pack_get_reserve_data : Text → Option Text) where
  unfoldable pub reserve_calls : Text → List Text → Option (List Call)
  reserve_calls pool_address [] = some []
  reserve_calls pool_address (asset ∷ assets) =
      let rest = reserve_calls pool_address assets in
      elim (pack_get_reserve_data (hex_to_address asset)) [
        | none ↦ none
        | some call_data ↦ elim rest [
          | none ↦ none
          | some calls ↦ some (
              record {
                target = hex_to_address pool_address;
                allow_failure = true;
                call_data = call_data;
              }
              ∷ calls)
        ]
      ]

  -- `aggregate` is the call of `aggregate3` at a block with its reply unpacked.
  unfoldable pub batch_fetch_reserve_data :
      (Text → Option ReserveData)
      → (List Call → ℕ → Option (List CallResult))
      → Text
      → List Text
      → ℕ
      → Option ReserveMaps
  batch_fetch_reserve_data unpack aggregate pool_address [] block_number = some ([], [])
  batch_fetch_reserve_data unpack aggregate pool_address (asset ∷ assets) block_number =
      elim (reserve_calls pool_address (asset ∷ assets)) [
        | none ↦ none
        | some calls ↦
            decode_multicall_results_safe unpack (aggregate calls block_number) (asset ∷ assets)
              block_number
      ]

-- The number that bytes spell, most significant first.
unfoldable pub bytes_value : ℕ → Text → ℕ
bytes_value n [] = n
bytes_value n (b ∷ s) = bytes_value (n * 256 + b) s

-- The texts that the function returns: for no data, the reason, or the data in hexadecimal digits.
pub data RevertReason : Type 0 where
  no_return_data : RevertReason
  reason : Text → RevertReason
  raw : Text → RevertReason

abbrev pub error_selector : Text
error_selector = 0x08 ∷ 0xc3 ∷ 0x79 ∷ 0xa0 ∷ []

abbrev pub str_len : Text → ℕ
str_len return_data = bytes_value 0 (take 32 (drop 36 return_data)) % 2 ^ 64

-- The sum is an unsigned 64-bit number, and a negative `int` from 2^63 on. A slice panics if it ends
-- before it begins or after the data.
unfoldable pub decode_revert_reason : Text → Run RevertReason
decode_revert_reason [] = ok no_return_data
decode_revert_reason (b ∷ data_bytes) =
    let return_data = b ∷ data_bytes in
    let end_index = (68 + str_len return_data) % 2 ^ 64 in
    if leb 68 (length return_data) && has_prefix error_selector return_data
    then (if leb (2 ^ 63) end_index || leb end_index (length return_data)
        then (if ltb end_index 68 || ltb (length return_data) end_index
            then panic
            else ok (reason (take (end_index - 68) (drop 68 return_data))))
        else ok (raw return_data))
    else ok (raw return_data)
