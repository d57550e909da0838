-- ===== src/Replay/Events.antt =====
-- From a raw log to its handler: the guards on the topics and the data, the fields that are read,
-- and the choice of the handler. Topic hashes come from Keccak-256, which is a parameter.
use aave_v3_flash_liquidator.Prelude.{
  ℕ, ◌+◌, ◌-◌, ◌/◌, ◌%◌, true, false, [], ◌∷◌, ◌++◌, ltb, if◌then◌else◌, length, take, drop, get_or,
  beq,
}
use aave_v3_flash_liquidator.Text.{Text, text_eq, codes, trim_prefix, parse_uint}
use aave_v3_flash_liquidator.Hex.{prefix_0x, parse_hex_address, parse_hex_big_int}
use aave_v3_flash_liquidator.Models.{RpcLog}
use aave_v3_flash_liquidator.Replay.{
  LogReplayEngine, apply_reserve_data_updated, apply_collateral, apply_supply, apply_withdraw,
  apply_borrow, apply_repay, apply_user_e_mode_set, apply_liquidation_call,
}

-- `data[lo:hi]` for bounds that the handlers have checked.
abbrev pub slice : ℕ → ℕ → Text → Text
slice lo hi t = take (hi - lo) (drop lo t)

-- The address in topic `i`, which the handlers have checked to be there.
abbrev pub topic_address : RpcLog → ℕ → Text
topic_address log i = parse_hex_address (get_or log.topics i [])

abbrev pub log_data : RpcLog → Text
log_data log = trim_prefix prefix_0x log.payload

abbrev pub hex_number : Text → ℕ
hex_number t = (parse_uint (trim_prefix prefix_0x t)).0

unfoldable pub handle_reserve_data_updated : RpcLog → LogReplayEngine → LogReplayEngine
handle_reserve_data_updated log e =
    if ltb (length log.topics) 2
    then e
    else let d = log_data log in
      if ltb (length d) 320
      then e
      else apply_reserve_data_updated (topic_address log 1) (parse_hex_big_int (slice 192 256 d))
          (parse_hex_big_int (slice 256 320 d)) (hex_number log.block_number) e

unfoldable pub handle_collateral_enabled : RpcLog → LogReplayEngine → LogReplayEngine
handle_collateral_enabled log e =
    if ltb (length log.topics) 3
    then e
    else apply_collateral true (topic_address log 1) (topic_address log 2) e

unfoldable pub handle_collateral_disabled : RpcLog → LogReplayEngine → LogReplayEngine
handle_collateral_disabled log e =
    if ltb (length log.topics) 3
    then e
    else apply_collateral false (topic_address log 1) (topic_address log 2) e

unfoldable pub handle_supply : RpcLog → LogReplayEngine → LogReplayEngine
handle_supply log e =
    if ltb (length log.topics) 3
    then e
    else let d = log_data log in
      if ltb (length d) 128
      then e
      else apply_supply (topic_address log 1) (topic_address log 2)
          (parse_hex_big_int (slice 64 128 d)) e

unfoldable pub handle_withdraw : RpcLog → LogReplayEngine → LogReplayEngine
handle_withdraw log e =
    if ltb (length log.topics) 4
    then e
    else let d = log_data log in
      if ltb (length d) 64
      then e
      else apply_withdraw (topic_address log 1) (topic_address log 2)
          (parse_hex_big_int (slice 0 64 d)) e

unfoldable pub handle_borrow : RpcLog → LogReplayEngine → LogReplayEngine
handle_borrow log e =
    if ltb (length log.topics) 3
    then e
    else let d = log_data log in
      if ltb (length d) 192
      then e
      else apply_borrow (topic_address log 1) (topic_address log 2)
          (parse_hex_big_int (slice 64 128 d)) (parse_hex_big_int (slice 128 192 d)) e

unfoldable pub handle_repay : RpcLog → LogReplayEngine → LogReplayEngine
handle_repay log e =
    if ltb (length log.topics) 3
    then e
    else let d = log_data log in
      if ltb (length d) 64
      then e
      else apply_repay (topic_address log 1) (topic_address log 2)
          (parse_hex_big_int (slice 0 64 d)) e

unfoldable pub handle_user_e_mode_set : RpcLog → LogReplayEngine → LogReplayEngine
handle_user_e_mode_set log e =
    if ltb (length log.topics) 2
    then e
    else apply_user_e_mode_set (topic_address log 1) (parse_hex_big_int (log_data log)) e

unfoldable pub handle_liquidation_call : RpcLog → LogReplayEngine → LogReplayEngine
handle_liquidation_call log e =
    if ltb (length log.topics) 4
    then e
    else let d = log_data log in
      if ltb (length d) 128
      then e
      else apply_liquidation_call (topic_address log 1) (topic_address log 2) (topic_address log 3)
          (parse_hex_big_int (slice 0 64 d)) (parse_hex_big_int (slice 64 128 d)) e

-- `fmt.Sprintf("%x", bytes)`
abbrev pub nibble : ℕ → ℕ
nibble d = if ltb d 10 then d + b'0' else d - 10 + b'a'

abbrev pub hex_bytes : Text → Text
hex_bytes [] = []
hex_bytes (b ∷ bs) = nibble (b / 16) ∷ nibble (b % 16) ∷ hex_bytes bs

module _ (keccak : Text → Text) where
  -- `math.GetTopicHash`, and the topics of events.go.
  unfoldable pub get_topic_hash : Text → Text
  get_topic_hash signature = prefix_0x ++ hex_bytes (keccak signature)

  unfoldable pub topic_reserve_data_updated : Text
  unfolding get_topic_hash
  topic_reserve_data_updated =
      get_topic_hash (codes "ReserveDataUpdated(address,uint256,uint256,uint256,uint256,uint256)")

  unfoldable pub topic_supply : Text
  unfolding get_topic_hash
  topic_supply = get_topic_hash (codes "Supply(address,address,address,uint256,uint16)")

  unfoldable pub topic_withdraw : Text
  unfolding get_topic_hash
  topic_withdraw = get_topic_hash (codes "Withdraw(address,address,address,uint256)")

  unfoldable pub topic_borrow : Text
  unfolding get_topic_hash
  topic_borrow =
      get_topic_hash (codes "Borrow(address,address,address,uint256,uint8,uint256,uint16)")

  unfoldable pub topic_repay : Text
  unfolding get_topic_hash
  topic_repay = get_topic_hash (codes "Repay(address,address,address,uint256,bool)")

  unfoldable pub topic_liquidation_call : Text
  unfolding get_topic_hash
  topic_liquidation_call =
      get_topic_hash (codes "LiquidationCall(address,address,address,uint256,uint256,address,bool)")

  unfoldable pub topic_collateral_enabled : Text
  unfolding get_topic_hash
  topic_collateral_enabled =
      get_topic_hash (codes "ReserveUsedAsCollateralEnabled(address,address)")

  unfoldable pub topic_collateral_disabled : Text
  unfolding get_topic_hash
  topic_collateral_disabled =
      get_topic_hash (codes "ReserveUsedAsCollateralDisabled(address,address)")

  unfoldable pub topic_user_e_mode_set : Text
  unfolding get_topic_hash
  topic_user_e_mode_set = get_topic_hash (codes "UserEModeSet(address,uint8)")

  -- The `switch` on the first topic.
  unfoldable pub dispatch : Text → RpcLog → LogReplayEngine → LogReplayEngine
  dispatch event_signature log e =
      if beq event_signature topic_reserve_data_updated
      then handle_reserve_data_updated log e
      else if beq event_signature topic_supply
      then handle_supply log e
      else if beq event_signature topic_withdraw
      then handle_withdraw log e
      else if beq event_signature topic_borrow
      then handle_borrow log e
      else if beq event_signature topic_repay
      then handle_repay log e
      else if beq event_signature topic_liquidation_call
      then handle_liquidation_call log e
      else if beq event_signature topic_collateral_enabled
      then handle_collateral_enabled log e
      else if beq event_signature topic_collateral_disabled
      then handle_collateral_disabled log e
      else if beq event_signature topic_user_e_mode_set
      then handle_user_e_mode_set log e
      else e

  unfoldable pub process_log : RpcLog → LogReplayEngine → LogReplayEngine
  unfolding dispatch
  process_log log e =
      if log.removed
      then e
      else elim log.topics [ [] ↦ e | event_signature ∷ _ ↦ dispatch event_signature log e ]
