-- ===== src/Multicall/Categories.antt =====
-- `BatchFetchEModeCategories` of internal/rpc/multicall.go. The results are read by position, two for
-- a category, with no test of their number. Only the reasons of reverts can panic besides.
pub mod Replies
use aave_v3_flash_liquidator.Prelude.{
  ℕ, zero, suc, ◌+◌, ◌*◌, Bool, true, false, ◌==◌, List, [], ◌∷◌, Option, none, some, if◌then◌else◌,
  ℤ, pos, Assoc, insert, nat_eq, get_elem?,
}
use aave_v3_flash_liquidator.Text.{Text}
use aave_v3_flash_liquidator.Run.{Run, ok, panic, ◌>>=◌}
use aave_v3_flash_liquidator.Models.{EModeCategory}
use aave_v3_flash_liquidator.Dex.{Call, CallResult}
use aave_v3_flash_liquidator.Multicall.{decode_revert_reason}

-- What the source reads of the reply to `getEModeCategoryData`.
pub record EModeData : Type 0 where
  pub ltv : ℕ
  pub liquidation_threshold : ℕ
  pub liquidation_bonus : ℕ
  pub price_source : Text

unfoldable pub valid_ids : List ℕ → List ℕ
valid_ids [] = []
valid_ids (cid ∷ category_ids) =
    let rest = valid_ids category_ids in if cid == 0 then rest else cid ∷ rest

-- The category that is built up, before anything is read.
abbrev pub empty_category : EModeCategory
empty_category = record {
  ltv = 0;
  liquidation_threshold = 0;
  liquidation_bonus = 0;
  price_source = [];
  collateral_bitmap = pos 0;
}

unfoldable pub result_at : List CallResult → ℕ → Run CallResult
result_at results i = elim (get_elem? results i) [ none ↦ panic | some r ↦ ok r ]

module _ (unpack_data : Text → Option EModeData) (unpack_bitmap : Text → Option ℤ) where
  -- After a failed call the reason of the revert is decoded for the log.
  unfoldable pub read_config : CallResult → EModeCategory → Run EModeCategory
  read_config res cat =
      if res.success
      then (elim (unpack_data res.return_data) [
        | none ↦ ok cat
        | some e ↦ ok (record cat {
          ltv = e.ltv;
          liquidation_threshold = e.liquidation_threshold;
          liquidation_bonus = e.liquidation_bonus;
          price_source = e.price_source;
        })
      ])
      else (decode_revert_reason res.return_data >>= λ _. ok cat)

  unfoldable pub read_bitmap : CallResult → EModeCategory → Run EModeCategory
  read_bitmap res cat =
      if res.success
      then (elim (unpack_bitmap res.return_data) [
        | none ↦ ok cat
        | some b ↦ ok (record cat { collateral_bitmap = b })
      ])
      else (decode_revert_reason res.return_data >>= λ _. ok cat)

  -- The category at position `i`, and whether it is stored.
  unfoldable pub read_category : List CallResult → ℕ → Run (Bool × EModeCategory)
  read_category results i = do
    config_res ← result_at results (i * 2)
    bitmap_res ← result_at results (i * 2 + 1)
    cat ← read_config config_res empty_category
    cat' ← read_bitmap bitmap_res cat
    ok (config_res.success, cat')

  unfoldable pub category_loop :
      List CallResult → ℕ → List ℕ → Assoc ℕ EModeCategory → Run (Assoc ℕ EModeCategory)
  category_loop results i [] categories = ok categories
  category_loop results i (cid ∷ ids) categories = read_category results i >>= λ r.
      category_loop results (suc i) ids (if r.0 then insert cid r.1 categories else categories)

  -- `aggregate` is the call of `aggregate3` at a block with its reply unpacked; `none` is an error.
  -- An error of the packing of one call leaves empty call data.
  module _ (hex_to_address : Text → Text) (pack_data : ℕ → Text) (pack_bitmap : ℕ → Text)
      (aggregate : List Call → ℕ → Option (List CallResult)) where
    unfoldable pub category_calls : Text → List ℕ → List Call
    category_calls pool_address [] = []
    category_calls pool_address (cid ∷ ids) =
        record {
          target = hex_to_address pool_address;
          allow_failure = true;
          call_data = pack_data cid;
        }
        ∷ record {
          target = hex_to_address pool_address;
          allow_failure = true;
          call_data = pack_bitmap cid;
        }
        ∷ category_calls pool_address ids

    unfoldable pub fetch_valid : Text → ℕ → List ℕ → Run (Option (Assoc ℕ EModeCategory))
    fetch_valid pool_address block_number [] = ok (some [])
    fetch_valid pool_address block_number (cid ∷ ids) =
        elim (aggregate (category_calls pool_address (cid ∷ ids)) block_number) [
          | none ↦ ok none
          | some results ↦
              category_loop results 0 (cid ∷ ids) [] >>= λ categories. ok (some categories)
        ]

    unfoldable pub batch_fetch_e_mode_categories :
        Text → List ℕ → ℕ → Run (Option (Assoc ℕ EModeCategory))
    batch_fetch_e_mode_categories pool_address category_ids block_number =
        fetch_valid pool_address block_number (valid_ids category_ids)
