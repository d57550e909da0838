-- ===== src/Replay/Core/Handlers.antt =====
-- `processLog` reads and writes no more than the positions and the indices of the engine.
use aave_v3_flash_liquidator.Prelude.{
  ◌≡◌, refl, Bool, true, false, List, [], ◌∷◌, ltb, length, if◌then◌else◌, beq,
}
use aave_v3_flash_liquidator.Text.{Text, text_eq}
use aave_v3_flash_liquidator.Models.{RpcLog}
use aave_v3_flash_liquidator.Hex.{parse_hex_big_int}
use aave_v3_flash_liquidator.Replay.{LogReplayEngine}
use aave_v3_flash_liquidator.Replay.Events.{
  slice, topic_address, log_data, hex_number, handle_reserve_data_updated,
  handle_collateral_enabled, handle_collateral_disabled, handle_supply, handle_withdraw,
  handle_borrow, handle_repay, handle_user_e_mode_set, handle_liquidation_call, dispatch,
  process_log, topic_reserve_data_updated, topic_supply, topic_withdraw, topic_borrow, topic_repay,
  topic_liquidation_call, topic_collateral_enabled, topic_collateral_disabled,
  topic_user_e_mode_set,
}
use aave_v3_flash_liquidator.Replay.Core.{
  core, apply_supply-core, apply_withdraw-core, apply_repay-core, apply_borrow-core,
  apply_collateral-core, apply_user_e_mode_set-core, apply_reserve_data_updated-core,
  apply_liquidation_call-core,
}

-- A step of the engine that acts on the core alone.
abbrev pub IsCoreStep : (LogReplayEngine → LogReplayEngine) → Type 0
IsCoreStep f = (e : LogReplayEngine) → core (f e) ≡ core (f (core e))

guard-core :
    (b : Bool) (f : LogReplayEngine → LogReplayEngine)
    → IsCoreStep f
    → IsCoreStep (λ e. if b then e else f e)
guard-core true f h e = refl
guard-core false f h e = h e

choice-core :
    (b : Bool) (f g : LogReplayEngine → LogReplayEngine)
    → IsCoreStep f
    → IsCoreStep g
    → IsCoreStep (λ e. if b then f e else g e)
choice-core true f g h k e = h e
choice-core false f g h k e = k e

-- The guards on the topics and on the data.
guards-core :
    (b c : Bool) (f : LogReplayEngine → LogReplayEngine)
    → IsCoreStep f
    → IsCoreStep (λ e. if b then e else if c then e else f e)
guards-core b c f h = guard-core b (λ e. if c then e else f e) (guard-core c f h)

module _ (log : RpcLog) where
  handle_supply-core : IsCoreStep (handle_supply log)
  unfolding handle_supply
  handle_supply-core =
      let d = log_data log in
      guards-core (ltb (length log.topics) 3) (ltb (length d) 128) _ (λ e.
        apply_supply-core (topic_address log 1) (topic_address log 2) e
          (parse_hex_big_int (slice 64 128 d)))

  handle_withdraw-core : IsCoreStep (handle_withdraw log)
  unfolding handle_withdraw
  handle_withdraw-core =
      let d = log_data log in
      guards-core (ltb (length log.topics) 4) (ltb (length d) 64) _ (λ e.
        apply_withdraw-core (topic_address log 1) (topic_address log 2) e
          (parse_hex_big_int (slice 0 64 d)))

  handle_borrow-core : IsCoreStep (handle_borrow log)
  unfolding handle_borrow
  handle_borrow-core =
      let d = log_data log in
      guards-core (ltb (length log.topics) 3) (ltb (length d) 192) _ (λ e.
        apply_borrow-core (topic_address log 1) (topic_address log 2) e
          (parse_hex_big_int (slice 64 128 d)) (parse_hex_big_int (slice 128 192 d)))

  handle_repay-core : IsCoreStep (handle_repay log)
  unfolding handle_repay
  handle_repay-core =
      let d = log_data log in
      guards-core (ltb (length log.topics) 3) (ltb (length d) 64) _ (λ e.
        apply_repay-core (topic_address log 1) (topic_address log 2) e
          (parse_hex_big_int (slice 0 64 d)))

  handle_reserve_data_updated-core : IsCoreStep (handle_reserve_data_updated log)
  unfolding handle_reserve_data_updated
  handle_reserve_data_updated-core =
      let d = log_data log in
      guards-core (ltb (length log.topics) 2) (ltb (length d) 320) _ (λ e.
        apply_reserve_data_updated-core (topic_address log 1) (topic_address log 1) e
          (parse_hex_big_int (slice 192 256 d)) (parse_hex_big_int (slice 256 320 d))
          (hex_number log.block_number))

  handle_liquidation_call-core : IsCoreStep (handle_liquidation_call log)
  unfolding handle_liquidation_call
  handle_liquidation_call-core =
      let d = log_data log in
      guards-core (ltb (length log.topics) 4) (ltb (length d) 128) _ (λ e.
        apply_liquidation_call-core (topic_address log 1) (topic_address log 3) e
          (topic_address log 2) (parse_hex_big_int (slice 0 64 d))
          (parse_hex_big_int (slice 64 128 d)))

  handle_collateral_enabled-core : IsCoreStep (handle_collateral_enabled log)
  unfolding handle_collateral_enabled
  handle_collateral_enabled-core =
      guard-core (ltb (length log.topics) 3) _
        (λ e. apply_collateral-core (topic_address log 1) (topic_address log 2) e true)

  handle_collateral_disabled-core : IsCoreStep (handle_collateral_disabled log)
  unfolding handle_collateral_disabled
  handle_collateral_disabled-core =
      guard-core (ltb (length log.topics) 3) _
        (λ e. apply_collateral-core (topic_address log 1) (topic_address log 2) e false)

  handle_user_e_mode_set-core : IsCoreStep (handle_user_e_mode_set log)
  unfolding handle_user_e_mode_set
  handle_user_e_mode_set-core = guard-core (ltb (length log.topics) 2) _ (λ e.
      apply_user_e_mode_set-core (topic_address log 1) (topic_address log 1) e
        (parse_hex_big_int (log_data log)))

  module _ (keccak : Text → Text) where
    dispatch-core : (t : Text) → IsCoreStep (dispatch keccak t log)
    unfolding dispatch
    dispatch-core t =
        choice-core (beq t (topic_reserve_data_updated keccak)) _ _ handle_reserve_data_updated-core
          (choice-core (beq t (topic_supply keccak)) _ _ handle_supply-core (
            choice-core (beq t (topic_withdraw keccak)) _ _ handle_withdraw-core (
              choice-core (beq t (topic_borrow keccak)) _ _ handle_borrow-core (
                choice-core (beq t (topic_repay keccak)) _ _ handle_repay-core (
                  choice-core (beq t (topic_liquidation_call keccak)) _ _
                    handle_liquidation_call-core
                    (choice-core (beq t (topic_collateral_enabled keccak)) _ _
                      handle_collateral_enabled-core
                      (choice-core (beq t (topic_collateral_disabled keccak)) _ _
                        handle_collateral_disabled-core
                        (choice-core (beq t (topic_user_e_mode_set keccak)) _ (λ e. e)
                          handle_user_e_mode_set-core (λ e. refl)))))))))

    on_topics :
        (topics : List Text)
        → IsCoreStep (λ e. elim topics [ [] ↦ e | t ∷ _ ↦ dispatch keccak t log e ])
    on_topics [] e = refl
    on_topics (t ∷ topics) e = dispatch-core t e

    pub process_log-core : IsCoreStep (process_log keccak log)
    unfolding process_log
    process_log-core = guard-core log.removed _ (on_topics log.topics)
