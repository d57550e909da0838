-- ===== src/System/Events.antt =====
-- A log, as `processLog` and the live loop take it, under the risk heap and the queue.
use aave_v3_flash_liquidator.Prelude.{
  Bool, true, false, Bool-cases, inl, inr, List, [], ◌∷◌, ltb, length, if◌then◌else◌, beq,
}
use aave_v3_flash_liquidator.Text.{Text, text_eq}
use aave_v3_flash_liquidator.Models.{RpcLog}
use aave_v3_flash_liquidator.Hex.{parse_hex_big_int}
use aave_v3_flash_liquidator.Store.{set_current_block}
use aave_v3_flash_liquidator.Replay.{LogReplayEngine}
use aave_v3_flash_liquidator.Replay.Events.{
  slice, topic_address, log_data, hex_number, handle_reserve_data_updated,
  handle_collateral_enabled, handle_collateral_disabled, handle_supply, handle_withdraw,
  handle_borrow, handle_repay, handle_user_e_mode_set, handle_liquidation_call, dispatch,
  process_log,
}
use aave_v3_flash_liquidator.Replay.Stream.{
  block_of, index_of, is_duplicate, enter_transaction, advance, live_step,
}
use aave_v3_flash_liquidator.System.Index.{
  IsHealthy, if-IsHealthy, apply_supply-IsHealthy, apply_withdraw-IsHealthy, apply_repay-IsHealthy,
  apply_borrow-IsHealthy, apply_collateral-IsHealthy, apply_user_e_mode_set-IsHealthy,
  apply_reserve_data_updated-IsHealthy, apply_liquidation_call-IsHealthy,
  flush_dirty_users-IsHealthy,
}

pub choice-IsHealthy :
    (b : Bool) {d e : LogReplayEngine} → IsHealthy d → IsHealthy e → IsHealthy (if b then d else e)
choice-IsHealthy true h k = h
choice-IsHealthy false h k = k

module _ (log : RpcLog) (e : LogReplayEngine) (h : IsHealthy e) where
  handle_supply-IsHealthy : IsHealthy (handle_supply log e)
  unfolding handle_supply
  handle_supply-IsHealthy = if-IsHealthy e h (ltb (length log.topics) 3) (
      if-IsHealthy e h (ltb (length (log_data log)) 128) (
        apply_supply-IsHealthy e h (topic_address log 1) (topic_address log 2)
          (parse_hex_big_int (slice 64 128 (log_data log)))))

  handle_withdraw-IsHealthy : IsHealthy (handle_withdraw log e)
  unfolding handle_withdraw
  handle_withdraw-IsHealthy = if-IsHealthy e h (ltb (length log.topics) 4) (
      if-IsHealthy e h (ltb (length (log_data log)) 64) (
        apply_withdraw-IsHealthy e h (topic_address log 1) (topic_address log 2)
          (parse_hex_big_int (slice 0 64 (log_data log)))))

  handle_borrow-IsHealthy : IsHealthy (handle_borrow log e)
  unfolding handle_borrow
  handle_borrow-IsHealthy = if-IsHealthy e h (ltb (length log.topics) 3) (
      if-IsHealthy e h (ltb (length (log_data log)) 192) (
        apply_borrow-IsHealthy e h (topic_address log 1) (topic_address log 2)
          (parse_hex_big_int (slice 64 128 (log_data log)))
          (parse_hex_big_int (slice 128 192 (log_data log)))))

  handle_repay-IsHealthy : IsHealthy (handle_repay log e)
  unfolding handle_repay
  handle_repay-IsHealthy = if-IsHealthy e h (ltb (length log.topics) 3) (
      if-IsHealthy e h (ltb (length (log_data log)) 64) (
        apply_repay-IsHealthy e h (topic_address log 1) (topic_address log 2)
          (parse_hex_big_int (slice 0 64 (log_data log)))))

  handle_reserve_data_updated-IsHealthy : IsHealthy (handle_reserve_data_updated log e)
  unfolding handle_reserve_data_updated
  handle_reserve_data_updated-IsHealthy = if-IsHealthy e h (ltb (length log.topics) 2) (
      if-IsHealthy e h (ltb (length (log_data log)) 320) (
        apply_reserve_data_updated-IsHealthy e h (topic_address log 1) (topic_address log 1)
          (parse_hex_big_int (slice 192 256 (log_data log)))
          (parse_hex_big_int (slice 256 320 (log_data log))) (hex_number log.block_number)))

  handle_liquidation_call-IsHealthy : IsHealthy (handle_liquidation_call log e)
  unfolding handle_liquidation_call
  handle_liquidation_call-IsHealthy = if-IsHealthy e h (ltb (length log.topics) 4) (
      if-IsHealthy e h (ltb (length (log_data log)) 128) (
        apply_liquidation_call-IsHealthy e h (topic_address log 1) (topic_address log 3)
          (topic_address log 2) (parse_hex_big_int (slice 0 64 (log_data log)))
          (parse_hex_big_int (slice 64 128 (log_data log)))))

  handle_collateral_enabled-IsHealthy : IsHealthy (handle_collateral_enabled log e)
  unfolding handle_collateral_enabled
  handle_collateral_enabled-IsHealthy =
      if-IsHealthy e h (ltb (length log.topics) 3)
        (apply_collateral-IsHealthy e h (topic_address log 1) (topic_address log 2) true)

  handle_collateral_disabled-IsHealthy : IsHealthy (handle_collateral_disabled log e)
  unfolding handle_collateral_disabled
  handle_collateral_disabled-IsHealthy =
      if-IsHealthy e h (ltb (length log.topics) 3)
        (apply_collateral-IsHealthy e h (topic_address log 1) (topic_address log 2) false)

  handle_user_e_mode_set-IsHealthy : IsHealthy (handle_user_e_mode_set log e)
  unfolding handle_user_e_mode_set
  handle_user_e_mode_set-IsHealthy = if-IsHealthy e h (ltb (length log.topics) 2) (
      apply_user_e_mode_set-IsHealthy e h (topic_address log 1) (topic_address log 1)
        (parse_hex_big_int (log_data log)))

  module _ (keccak : Text → Text) where
    dispatch-IsHealthy : (t : Text) → IsHealthy (dispatch keccak t log e)
    unfolding dispatch
    dispatch-IsHealthy t = choice-IsHealthy _ handle_reserve_data_updated-IsHealthy (
        choice-IsHealthy _ handle_supply-IsHealthy (
          choice-IsHealthy _ handle_withdraw-IsHealthy (
            choice-IsHealthy _ handle_borrow-IsHealthy (
              choice-IsHealthy _ handle_repay-IsHealthy (
                choice-IsHealthy _ handle_liquidation_call-IsHealthy (
                  choice-IsHealthy _ handle_collateral_enabled-IsHealthy (
                    choice-IsHealthy _ handle_collateral_disabled-IsHealthy
                      (choice-IsHealthy _ handle_user_e_mode_set-IsHealthy h))))))))

    on_topics :
        (topics : List Text)
        → IsHealthy
            (elim topics as (λ _. LogReplayEngine) [ [] ↦ e | t ∷ _ ↦ dispatch keccak t log e ])
    on_topics [] = h
    on_topics (t ∷ topics) = dispatch-IsHealthy t

    process_log-IsHealthy : IsHealthy (process_log keccak log e)
    unfolding process_log
    process_log-IsHealthy = if-IsHealthy e h log.removed (on_topics log.topics)

    enter_transaction-IsHealthy : IsHealthy (enter_transaction log e)
    unfolding enter_transaction
    enter_transaction-IsHealthy =
        let flushed = flush_dirty_users-IsHealthy e h in
        if-IsHealthy e h (beq log.transaction_hash e.current_tx_hash)
          (record { index = flushed.index; room = flushed.room })

    advance-IsHealthy : IsHealthy (advance keccak log e)
    unfolding advance
    advance-IsHealthy = record {
      index = process_log-IsHealthy.index;
      room = process_log-IsHealthy.room;
    }

    seen-IsHealthy : IsHealthy (record e { store = set_current_block (block_of log) e.store })
    unfolding set_current_block
    seen-IsHealthy = elim (Bool-cases (ltb e.store.current_block (block_of log))) [
      | inl later ↦
          rw (set_current_block, later)
            (record {
              index = record { heap = h.index.heap; listing = h.index.listing };
              room = h.room;
            })
      | inr same ↦ rw (set_current_block, same) (record { index = h.index; room = h.room })
    ]

module _ (keccak : Text → Text) (log : RpcLog) (e : LogReplayEngine) (h : IsHealthy e) where
  pub live_step-IsHealthy : (more : Bool) → IsHealthy (live_step keccak more log e)
  unfolding live_step
  live_step-IsHealthy more =
      let entered = enter_transaction-IsHealthy log _ (seen-IsHealthy log e h keccak) keccak in
      let done =
        choice-IsHealthy (is_duplicate _ (block_of log) (index_of log)) entered
          (advance-IsHealthy log _ entered keccak) in
      choice-IsHealthy more done (flush_dirty_users-IsHealthy _ done)

  pub historic_step-IsHealthy : IsHealthy (advance keccak log (enter_transaction log e))
  historic_step-IsHealthy =
      advance-IsHealthy log _ (enter_transaction-IsHealthy log e h keccak) keccak
