-- ===== src/Multicall/Fields.antt =====
-- The fields of the configuration bitmap.
use aave_v3_flash_liquidator.Prelude.{ℕ, ◌+◌, ◌*◌, ◌^◌, ◌<◌, ◌≡◌, refl, arith}
use aave_v3_flash_liquidator.Multicall.{bits, ReserveData, asset_config_of}

-- The bitmap of Aave: loan to value, threshold, bonus, decimals, other fields, the fee, and the rest.
abbrev pub bitmap_of : ℕ → ℕ → ℕ → ℕ → ℕ → ℕ → ℕ → ℕ
bitmap_of ltv threshold bonus decimals others fee rest =
    ltv
    + 2 ^ 16
      * (threshold
          + 2 ^ 16
            * (bonus + 2 ^ 16 * (decimals + 2 ^ 8 * (others + 2 ^ 96 * (fee + 2 ^ 16 * rest)))))

-- Each field fits in its bits.
pub record IsBounded (ltv threshold bonus decimals others fee : ℕ) : Type 0 where
  pub ltv_small : ltv < 2 ^ 16
  pub threshold_small : threshold < 2 ^ 16
  pub bonus_small : bonus < 2 ^ 16
  pub decimals_small : decimals < 2 ^ 8
  pub others_small : others < 2 ^ 96
  pub fee_small : fee < 2 ^ 16

module _ (ltv threshold bonus decimals others fee rest : ℕ)
    (h : IsBounded ltv threshold bonus decimals others fee) where
  bitmap : ℕ
  bitmap = bitmap_of ltv threshold bonus decimals others fee rest

  threshold_bits : bits bitmap 16 16 ≡ threshold
  unfolding bitmap
  threshold_bits = omega (arith, h.ltv_small, h.threshold_small)

  bonus_bits : bits bitmap 32 16 ≡ bonus
  unfolding bitmap
  bonus_bits = omega (arith, h.ltv_small, h.threshold_small, h.bonus_small)

  decimals_bits : bits bitmap 48 8 ≡ decimals
  unfolding bitmap
  decimals_bits = omega (arith, h.ltv_small, h.threshold_small, h.bonus_small, h.decimals_small)

  fee_bits : bits bitmap 152 16 ≡ fee
  unfolding bitmap
  fee_bits = omega (
    arith, h.ltv_small, h.threshold_small, h.bonus_small, h.decimals_small, h.others_small,
    h.fee_small,
  )

-- From a bitmap that is put together from fields that fit in their bits, the threshold, the bonus,
-- the decimals and the fee are read back.
pub asset_config_of-bitmap_of :
    (ltv threshold bonus decimals others fee rest : ℕ) (reserve_data : ReserveData)
    → IsBounded ltv threshold bonus decimals others fee
    → reserve_data.configuration ≡ bitmap_of ltv threshold bonus decimals others fee rest
    → asset_config_of reserve_data ≡ record {
      decimals = decimals;
      liquidation_threshold = threshold;
      liquidation_bonus = bonus;
      reserve_id = reserve_data.id;
      a_token_address = reserve_data.a_token_address;
      v_token_address = reserve_data.variable_debt_token_address;
      liquidation_protocol_fee = fee;
    }
unfolding asset_config_of bitmap
asset_config_of-bitmap_of ltv threshold bonus decimals others fee rest reserve_data h e =
    rw
      (
        asset_config_of,
        e,
        decimals_bits ltv threshold bonus decimals others fee rest h,
        threshold_bits ltv threshold bonus decimals others fee rest h,
        bonus_bits ltv threshold bonus decimals others fee rest h,
        fee_bits ltv threshold bonus decimals others fee rest h,
      )
      refl
