-- ===== src/Multicall/OnchainCall.antt =====
-- internal/rpc/onchain_call.go and internal/rpc/pool.go: single reads of the pool. The call of the
-- node, with the packing before it, is given by its reply: the text of the result, or an error. The
-- ABI coder behind it reads that text.
use aave_v3_flash_liquidator.Prelude.{ℕ, ◌%◌, ◌^◌, List, [], ◌∷◌, map, Option, none, some, ℤ, abs_ℕ}
use aave_v3_flash_liquidator.Text.{Text, to_lower, trim_prefix, codes, set_string}
use aave_v3_flash_liquidator.Run.{Run, ok, panic}
use aave_v3_flash_liquidator.Models.{GlobalIndex, EModeCategory}
use aave_v3_flash_liquidator.Multicall.{ReserveData, global_index_of}
use aave_v3_flash_liquidator.Multicall.Categories.{EModeData}

-- `decode` is `hexutil.Decode` with the unpacking.
unfoldable fetch_indices_at_block :
    (Text → Option ReserveData) → Text → ℕ → Option Text → Option GlobalIndex
fetch_indices_at_block decode asset_address block_number none = none
fetch_indices_at_block decode asset_address block_number (some res_hex) = elim (decode res_hex) [
  | none ↦ none
  | some reserve_data ↦ some (global_index_of asset_address block_number reserve_data)
]

abbrev category_with : EModeData → ℤ → EModeCategory
category_with e bitmap = record {
  ltv = e.ltv;
  liquidation_threshold = e.liquidation_threshold;
  liquidation_bonus = e.liquidation_bonus;
  price_source = e.price_source;
  collateral_bitmap = bitmap;
}

unfoldable fetch_e_mode_category :
    (Text → Option EModeData) → (Text → Option ℤ) → Option Text → Option Text → Option EModeCategory
fetch_e_mode_category decode_data decode_bitmap none raw_bitmap = none
fetch_e_mode_category decode_data decode_bitmap (some config_res_hex) none = none
fetch_e_mode_category decode_data decode_bitmap (some config_res_hex) (some bitmap_res_hex) =
    elim (decode_data config_res_hex) [
      | none ↦ none
      | some e ↦ elim (decode_bitmap bitmap_res_hex) [
        | none ↦ none
        | some bitmap ↦ some (category_with e bitmap)
      ]
    ]

-- `SetString` leaves nil for a text that is no number, and `Uint64` of nil panics.
unfoldable fetch_user_e_mode : Option Text → Run (Option ℕ)
fetch_user_e_mode none = ok none
fetch_user_e_mode (some res_hex) = elim (trim_prefix (codes "0x") res_hex) [
  | [] ↦ ok (some 0)
  | c ∷ hex_data ↦ elim (set_string 16 (c ∷ hex_data)) [
    | none ↦ panic
    | some val ↦ ok (some (abs_ℕ val % 2 ^ 64 % 2 ^ 8))
  ]
]

unfoldable fetch_reserves_list : (Text → Option (List Text)) → Option Text → Option (List Text)
fetch_reserves_list decode none = none
fetch_reserves_list decode (some raw_hex_result) = elim (decode raw_hex_result) [
  | none ↦ none
  | some reserves ↦ some (map to_lower reserves)
]
