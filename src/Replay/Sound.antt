-- ===== src/Replay/Sound.antt =====
-- The handlers and `process_log` against the invariant of Replay/Keeps.
use aave_v3_flash_liquidator.Prelude.{
  ℕ, ◌-◌, Bool, true, false, [], Bool-cases, List-cases, inl, inr, ltb, if◌then◌else◌, pos, ◌≤ℤ◌,
  length, drop, All-take, All-drop,
}
use aave_v3_flash_liquidator.Text.{Text, text_eq, IsHex, IsHexDigit}
use aave_v3_flash_liquidator.Hex.{parse_hex_big_int}
use aave_v3_flash_liquidator.Hex.Digits.{parse_hex_big_int_nonneg}
use aave_v3_flash_liquidator.Models.{RpcLog}
use aave_v3_flash_liquidator.Replay.{LogReplayEngine}
use aave_v3_flash_liquidator.Replay.Events.{
  log_data, slice, topic_address, hex_number, process_log, dispatch, handle_supply, handle_borrow,
  handle_reserve_data_updated, handle_withdraw, handle_repay, handle_liquidation_call,
  handle_collateral_enabled, handle_collateral_disabled, handle_user_e_mode_set,
}
use aave_v3_flash_liquidator.Replay.Keeps.{
  IsSound, apply_supply-IsSound, apply_borrow-IsSound, apply_withdraw-IsSound, apply_repay-IsSound,
  apply_collateral-IsSound, apply_user_e_mode_set-IsSound, apply_reserve_data_updated-IsSound,
  apply_liquidation_call-IsSound,
}

record IsSoundEngine (e : LogReplayEngine) : Type 0 where
  sound : IsSound e.store

if_keeps :
    (b : Bool) (e e' : LogReplayEngine)
    → IsSoundEngine e
    → IsSoundEngine e'
    → IsSoundEngine (if b then e else e')
if_keeps true e e' h h' = h
if_keeps false e e' h h' = h'

-- Hexadecimal digits anywhere in the data spell no negative number.
slice_nonneg : (lo hi : ℕ) (t : Text) → IsHex t → pos 0 ≤ℤ parse_hex_big_int (slice lo hi t)
slice_nonneg lo hi t h =
    parse_hex_big_int_nonneg (slice lo hi t)
      (All-take IsHexDigit (hi - lo) (drop lo t) (All-drop IsHexDigit lo t h))

module _ (log : RpcLog) (e : LogReplayEngine) (digits : IsHex (log_data log))
    (h : IsSound e.store) where
  handle_reserve_data_updated-IsSoundEngine : IsSoundEngine (handle_reserve_data_updated log e)
  unfolding handle_reserve_data_updated
  handle_reserve_data_updated-IsSoundEngine =
      if_keeps (ltb (length log.topics) 2) e _ (record { sound = h })
        (if_keeps (ltb (length (log_data log)) 320) e _ (record { sound = h })
          (record {
            sound =
                apply_reserve_data_updated-IsSound (topic_address log 1) [] e h
                  (parse_hex_big_int (slice 192 256 (log_data log)))
                  (parse_hex_big_int (slice 256 320 (log_data log))) (hex_number log.block_number)
                  (slice_nonneg 192 256 (log_data log) digits)
                  (slice_nonneg 256 320 (log_data log) digits);
          }))

  handle_supply-IsSoundEngine : IsSoundEngine (handle_supply log e)
  unfolding handle_supply
  handle_supply-IsSoundEngine =
      if_keeps (ltb (length log.topics) 3) e _ (record { sound = h })
        (if_keeps (ltb (length (log_data log)) 128) e _ (record { sound = h })
          (record {
            sound =
                apply_supply-IsSound (topic_address log 1) (topic_address log 2) e h
                  (parse_hex_big_int (slice 64 128 (log_data log)))
                  (slice_nonneg 64 128 (log_data log) digits);
          }))

  handle_withdraw-IsSoundEngine : IsSoundEngine (handle_withdraw log e)
  unfolding handle_withdraw
  handle_withdraw-IsSoundEngine =
      if_keeps (ltb (length log.topics) 4) e _ (record { sound = h })
        (if_keeps (ltb (length (log_data log)) 64) e _ (record { sound = h })
          (record {
            sound =
                apply_withdraw-IsSound (topic_address log 1) (topic_address log 2) e h
                  (parse_hex_big_int (slice 0 64 (log_data log)));
          }))

  handle_borrow-IsSoundEngine : IsSoundEngine (handle_borrow log e)
  unfolding handle_borrow
  handle_borrow-IsSoundEngine =
      if_keeps (ltb (length log.topics) 3) e _ (record { sound = h })
        (if_keeps (ltb (length (log_data log)) 192) e _ (record { sound = h })
          (record {
            sound =
                apply_borrow-IsSound (topic_address log 1) (topic_address log 2) e h
                  (parse_hex_big_int (slice 64 128 (log_data log)))
                  (parse_hex_big_int (slice 128 192 (log_data log)))
                  (slice_nonneg 64 128 (log_data log) digits);
          }))

  handle_repay-IsSoundEngine : IsSoundEngine (handle_repay log e)
  unfolding handle_repay
  handle_repay-IsSoundEngine =
      if_keeps (ltb (length log.topics) 3) e _ (record { sound = h })
        (if_keeps (ltb (length (log_data log)) 64) e _ (record { sound = h })
          (record {
            sound =
                apply_repay-IsSound (topic_address log 1) (topic_address log 2) e h
                  (parse_hex_big_int (slice 0 64 (log_data log)));
          }))

  handle_liquidation_call-IsSoundEngine : IsSoundEngine (handle_liquidation_call log e)
  unfolding handle_liquidation_call
  handle_liquidation_call-IsSoundEngine =
      if_keeps (ltb (length log.topics) 4) e _ (record { sound = h })
        (if_keeps (ltb (length (log_data log)) 128) e _ (record { sound = h })
          (record {
            sound =
                apply_liquidation_call-IsSound (topic_address log 2) (topic_address log 3) e h
                  (topic_address log 1) (parse_hex_big_int (slice 0 64 (log_data log)))
                  (parse_hex_big_int (slice 64 128 (log_data log)));
          }))

  handle_collateral_enabled-IsSoundEngine : IsSoundEngine (handle_collateral_enabled log e)
  unfolding handle_collateral_enabled
  handle_collateral_enabled-IsSoundEngine =
      if_keeps (ltb (length log.topics) 3) e _ (record { sound = h })
        (record {
          sound = apply_collateral-IsSound (topic_address log 1) (topic_address log 2) e h true;
        })

  handle_collateral_disabled-IsSoundEngine : IsSoundEngine (handle_collateral_disabled log e)
  unfolding handle_collateral_disabled
  handle_collateral_disabled-IsSoundEngine =
      if_keeps (ltb (length log.topics) 3) e _ (record { sound = h })
        (record {
          sound = apply_collateral-IsSound (topic_address log 1) (topic_address log 2) e h false;
        })

  handle_user_e_mode_set-IsSoundEngine : IsSoundEngine (handle_user_e_mode_set log e)
  unfolding handle_user_e_mode_set
  handle_user_e_mode_set-IsSoundEngine =
      if_keeps (ltb (length log.topics) 2) e _ (record { sound = h })
        (record {
          sound =
              apply_user_e_mode_set-IsSound [] (topic_address log 1) e h
                (parse_hex_big_int (log_data log));
        })

  dispatch-IsSoundEngine :
      (keccak : Text → Text) (signature : Text) → IsSoundEngine (dispatch keccak signature log e)
  unfolding dispatch
  dispatch-IsSoundEngine keccak signature =
      (if_keeps _ _ _ handle_reserve_data_updated-IsSoundEngine (
        if_keeps _ _ _ handle_supply-IsSoundEngine (
          if_keeps _ _ _ handle_withdraw-IsSoundEngine (
            if_keeps _ _ _ handle_borrow-IsSoundEngine (
              if_keeps _ _ _ handle_repay-IsSoundEngine (
                if_keeps _ _ _ handle_liquidation_call-IsSoundEngine (
                  if_keeps _ _ _ handle_collateral_enabled-IsSoundEngine (
                    if_keeps _ _ _ handle_collateral_disabled-IsSoundEngine (
                      if_keeps _ _ _ handle_user_e_mode_set-IsSoundEngine
                        (record { sound = h }))))))))))

-- Processing any log with hexadecimal data, whatever the hash function, keeps balances, debts and
-- indices at zero or more and every holder of a reserve subscribed to its asset.
pub process_log-IsSound :
    (keccak : Text → Text) (log : RpcLog) (e : LogReplayEngine)
    → IsHex (log_data log)
    → IsSound e.store
    → IsSound (process_log keccak log e).store
unfolding process_log
process_log-IsSound keccak log e digits h = elim (Bool-cases log.removed) [
  | inl gone ↦ rw (process_log, gone) h
  | inr kept ↦ elim (List-cases log.topics) [
    | inl bare ↦ rw (process_log, kept, bare) h
    | inr (signature, rest, e') ↦
        rw (process_log, kept, e') (dispatch-IsSoundEngine log e digits h keccak signature).sound
  ]
]
