-- ===== src/Tests/Batches.antt =====
-- Examples on the batches of reads.
use mathlib.Core.Path.{subst}
use aave_v3_flash_liquidator.Prelude.{
  ℕ, map, zero, suc, ◌++◌, ◌^◌, ◌-◌, ◌≡◌, refl, true, false, ◌&&◌, List, [], ◌∷◌, Option, none,
  some, ℤ, pos, leb, length, lookup, insert, All, arith,
}
use aave_v3_flash_liquidator.Text.{Text, text_eq, codes, has_prefix}
use aave_v3_flash_liquidator.Run.{ok, Ends}
use aave_v3_flash_liquidator.Dex.{Call, CallResult}
use aave_v3_flash_liquidator.Multicall.{
  ReserveData, asset_config_of, global_index_of, reserve_of, decode_loop,
  decode_multicall_results_safe, decode_revert_reason, error_selector, str_len,
}
use aave_v3_flash_liquidator.Multicall.Fields.{bitmap_of, asset_config_of-bitmap_of}
use aave_v3_flash_liquidator.Multicall.Batches.{
  reading, entry_or, decode_multicall_results_safe-reads,
}
use aave_v3_flash_liquidator.Multicall.Reverts.{is_panic, decode_revert_reason-panics}
use aave_v3_flash_liquidator.Multicall.Categories.{EModeData, batch_fetch_e_mode_categories}
use aave_v3_flash_liquidator.Multicall.Categories.Replies.{
  IsHarmless, IsAnswer, batch_fetch_e_mode_categories-Ends,
}
use aave_v3_flash_liquidator.Multicall.UserData.{
  UserAbi, assets_of, fetch_user_position_batch_at_block,
}
use aave_v3_flash_liquidator.Multicall.UserData.Single.{
  ask_all, ask_header, fetch_user_position_batch_at_block-ask_all,
}
use aave_v3_flash_liquidator.Tests.Senders.{ann_account}
use aave_v3_flash_liquidator.Tests.{ann, weth, usdc, market}

abbrev weth_data : ReserveData
weth_data = record {
  configuration = bitmap_of 8000 8250 10500 18 3 1000 5;
  liquidity_index = pos 7;
  variable_borrow_index = pos 8;
  id = 4;
  a_token_address = codes "0xd";
  variable_debt_token_address = codes "0xe";
}

asset_config_of-bitmap_of_example : asset_config_of weth_data ≡ record {
  decimals = 18;
  liquidation_threshold = 8250;
  liquidation_bonus = 10500;
  reserve_id = 4;
  a_token_address = codes "0xd";
  v_token_address = codes "0xe";
  liquidation_protocol_fee = 1000;
}
asset_config_of-bitmap_of_example =
    asset_config_of-bitmap_of 8000 8250 10500 18 3 1000 5 weth_data
      (record {
        ltv_small = omega arith;
        threshold_small = omega arith;
        bonus_small = omega arith;
        decimals_small = omega arith;
        others_small = omega arith;
        fee_small = omega arith;
      })
      refl

abbrev good_result : CallResult
good_result = record { success = true; return_data = [] }

abbrev failed_result : CallResult
failed_result = record { success = false; return_data = [] }

abbrev unpack : Text → Option ReserveData
unpack _ = some weth_data

decode_multicall_results_safe-reads_example :
    (length (good_result ∷ failed_result ∷ []) ≡ length (weth ∷ usdc ∷ []))
    × (lookup weth ((weth, global_index_of weth 9 weth_data) ∷ [])
        ≡ entry_or unpack
            (global_index_of weth 9)
            none
            (reading unpack weth (good_result ∷ failed_result ∷ []) (weth ∷ usdc ∷ [])))
    × (lookup weth ((weth, asset_config_of weth_data) ∷ [])
        ≡ entry_or unpack asset_config_of none
            (reading unpack weth (good_result ∷ failed_result ∷ []) (weth ∷ usdc ∷ [])))
unfolding decode_multicall_results_safe decode_loop reserve_of insert
decode_multicall_results_safe-reads_example =
    decode_multicall_results_safe-reads unpack (good_result ∷ failed_result ∷ []) (weth ∷ usdc ∷ [])
      9 ((weth, global_index_of weth 9 weth_data) ∷ [], (weth, asset_config_of weth_data) ∷ []) weth
      refl

abbrev repeat : ℕ → ℕ → Text
repeat zero b = []
repeat (suc n) b = b ∷ repeat n b

-- A payload that claims the longest of all texts.
abbrev long_payload : Text
long_payload = 8 ∷ 195 ∷ 121 ∷ 160 ∷ repeat 32 0 ++ repeat 32 255

decode_revert_reason-panics_example :
    is_panic (decode_revert_reason long_payload)
    ≡ leb 68 (length long_payload)
      && has_prefix error_selector long_payload
      && leb (2 ^ 63 - 68) (str_len long_payload)
decode_revert_reason-panics_example = decode_revert_reason-panics long_payload (omega arith)

-- A node that answers each call without data.
abbrev answer_all : List Call → List CallResult
answer_all [] = []
answer_all (c ∷ calls) = good_result ∷ answer_all calls

length-answer_all : (calls : List Call) → length (answer_all calls) ≡ length calls
length-answer_all [] = refl
length-answer_all (c ∷ calls) = ground (arith, length-answer_all calls)

answer_all-IsHarmless : (calls : List Call) → All IsHarmless (answer_all calls)
unfolding decode_revert_reason
answer_all-IsHarmless [] = tt
answer_all-IsHarmless (c ∷ calls) = (refl, answer_all-IsHarmless calls)

abbrev aggregate : List Call → ℕ → Option (List CallResult)
aggregate calls block = some (answer_all calls)

aggregate-honest :
    (calls : List Call) (block : ℕ) (results : List CallResult)
    → aggregate calls block ≡ some results
    → (length results ≡ length calls) × All IsHarmless results
aggregate-honest calls block results e =
    let same : answer_all calls ≡ results = cc in
    subst (λ r. (length r ≡ length calls) × All IsHarmless r) same
      (length-answer_all calls, answer_all-IsHarmless calls)

abbrev no_data : Text → Option EModeData
no_data _ = none

abbrev no_bitmap : Text → Option ℤ
no_bitmap _ = some (pos 3)

batch_fetch_e_mode_categories-Ends_example : Ends IsAnswer (
    batch_fetch_e_mode_categories no_data no_bitmap
      (λ t. t)
      (λ _. [])
      (λ _. [])
      aggregate
      []
      (0 ∷ 1 ∷ 2 ∷ [])
      9)
batch_fetch_e_mode_categories-Ends_example =
    batch_fetch_e_mode_categories-Ends no_data no_bitmap (λ t. t) (λ _. []) (λ _. []) aggregate
      aggregate-honest [] (0 ∷ 1 ∷ 2 ∷ []) 9

-- A coder that reads one byte.
abbrev byte : Text → Option ℕ
byte [] = none
byte (b ∷ s) = some b

abbrev byte_ℤ : Text → Option ℤ
byte_ℤ [] = none
byte_ℤ (b ∷ s) = some (pos b)

abbrev small_abi : UserAbi
small_abi = record {
  hex_to_address = λ t. t;
  pack_account_data = λ t. t;
  pack_e_mode = λ t. t;
  pack_configuration = λ t. t;
  pack_balance = λ t. t;
  unpack_account_data = λ t. some ann_account;
  unpack_e_mode = byte;
  unpack_configuration = byte;
  unpack_balance = byte_ℤ;
}

abbrev one_byte : Call → CallResult
one_byte c = record { success = true; return_data = 3 ∷ [] }

fetch_user_position_batch_at_block-ask_all_example :
    fetch_user_position_batch_at_block small_abi
      (λ calls block. some (map one_byte calls))
      weth
      ann
      7
      market
    ≡ ok (
        ask_all small_abi one_byte ann weth ann
          (assets_of market.asset_configs)
          (ask_header small_abi one_byte ann weth))
fetch_user_position_batch_at_block-ask_all_example =
    fetch_user_position_batch_at_block-ask_all small_abi one_byte
      (λ calls block. some (map one_byte calls)) (λ calls block. refl) weth ann 7 market
