-- ===== src/Multicall/UserData/Single.antt =====
-- The batch against single calls.
use aave_v3_flash_liquidator.Prelude.{
  ℕ, suc, ◌+◌, ◌*◌, ◌≡◌, refl, ap, ◌∙◌, true, ◌==◌, List, [], ◌∷◌, map, Option, none, some,
  if◌then◌else◌, Assoc, insert, length, arith,
}
use aave_v3_flash_liquidator.Text.{Text, text_eq}
use aave_v3_flash_liquidator.Run.{Run, ok, ◌>>=◌}
use aave_v3_flash_liquidator.Models.{UserReserve, UserPosition, UserAccountData}
use aave_v3_flash_liquidator.Store.{StateStore}
use aave_v3_flash_liquidator.Dex.{Call, CallResult}
use aave_v3_flash_liquidator.Multicall.Categories.{result_at}
use aave_v3_flash_liquidator.Multicall.UserData.{
  AssetMeta, UserAbi, assets_of, strict_call, balance_calls, user_calls, reserve_from,
  balances_loop, header_of, with_reserves, decode_user, fetch_user_position_batch_at_block,
}

module _ (abi : UserAbi) (reply : Call → CallResult) (user pool : Text) where
  -- The two balances of an asset, each from a call of its own.
  pub ask_reserve : ℕ → AssetMeta → Option UserReserve
  ask_reserve config asset =
      reserve_from abi config asset
        (reply (strict_call abi (abi.hex_to_address asset.a_token_address) (abi.pack_balance user)))
        (reply (strict_call abi (abi.hex_to_address asset.v_token_address) (abi.pack_balance user)))

  pub ask_reserves : ℕ → List AssetMeta → Assoc Text UserReserve → Option (Assoc Text UserReserve)
  ask_reserves config [] reserves = some reserves
  ask_reserves config (asset ∷ assets) reserves = elim (ask_reserve config asset) [
    | none ↦ none
    | some r ↦ ask_reserves config assets (insert asset.asset_address r reserves)
  ]

  -- From position `3 + 2 * i` on, the results are the replies to the calls for the assets.
  abbrev IsAligned : List CallResult → ℕ → List AssetMeta → Type 0
  IsAligned results i assets =
      (j : ℕ)
      → result_at results (3 + i * 2 + j) ≡ result_at (map reply (balance_calls abi user assets)) j

  module _ (results : List CallResult) (i : ℕ) (asset : AssetMeta) (assets : List AssetMeta)
      (h : IsAligned results i (asset ∷ assets)) where
    first_balance :
        result_at results (3 + i * 2)
        ≡ ok (
            reply
              (strict_call abi (abi.hex_to_address asset.a_token_address) (abi.pack_balance user)))
    unfolding balance_calls result_at
    first_balance =
        let here : 3 + i * 2 ≡ 3 + i * 2 + 0 = omega arith in ap (result_at results) here ∙ h 0

    second_balance :
        result_at results (3 + i * 2 + 1)
        ≡ ok (
            reply
              (strict_call abi (abi.hex_to_address asset.v_token_address) (abi.pack_balance user)))
    unfolding balance_calls result_at
    second_balance = h 1

    next-IsAligned : IsAligned results (suc i) assets
    unfolding balance_calls result_at
    next-IsAligned j =
        let here : 3 + suc i * 2 + j ≡ 3 + i * 2 + suc (suc j) = omega arith in
        ap (result_at results) here ∙ h (suc (suc j))

  after_reserve :
      (config i : ℕ) (results : List CallResult) (asset : AssetMeta) (assets : List AssetMeta)
      (reserves : Assoc Text UserReserve) (o : Option UserReserve)
      → ((m : Assoc Text UserReserve)
          → balances_loop abi config results (suc i) assets m ≡ ok (ask_reserves config assets m))
      → elim o as (λ _. Run (Option (Assoc Text UserReserve))) [
        | none ↦ ok none
        | some r ↦
            balances_loop abi config results (suc i) assets (insert asset.asset_address r reserves)
      ]
        ≡ ok (elim o [
          | none ↦ none
          | some r ↦ ask_reserves config assets (insert asset.asset_address r reserves)
        ])
  after_reserve config i results asset assets reserves none h = refl
  after_reserve config i results asset assets reserves (some r) h =
      h (insert asset.asset_address r reserves)

  balances_loop-ask :
      (config i : ℕ) (results : List CallResult) (assets : List AssetMeta)
      (reserves : Assoc Text UserReserve)
      → IsAligned results i assets
      → balances_loop abi config results i assets reserves
        ≡ ok (ask_reserves config assets reserves)
  unfolding balances_loop ask_reserves ask_reserve
  balances_loop-ask config i results [] reserves h = refl
  balances_loop-ask config i results (asset ∷ assets) reserves h =
      rw
        (
          balances_loop,
          first_balance results i asset assets h,
          second_balance results i asset assets h,
        )
        (after_reserve config i results asset assets reserves _ (λ m.
          balances_loop-ask config (suc i) results assets m
            (next-IsAligned results i asset assets h)))

  -- The answers to single calls, put together.
  pub ask_all :
      Text
      → List AssetMeta
      → Option (UserAccountData × ℕ × ℕ)
      → Option (UserAccountData × UserPosition)
  ask_all user_address assets none = none
  ask_all user_address assets (some h) =
      with_reserves abi user_address h.0 h.1 (ask_reserves h.2 assets [])

  pub ask_header : Option (UserAccountData × ℕ × ℕ)
  ask_header =
      header_of abi (reply (strict_call abi pool (abi.pack_account_data user)))
        (reply (strict_call abi pool (abi.pack_e_mode user)))
        (reply (strict_call abi pool (abi.pack_configuration user)))

  after_header :
      (user_address : Text) (assets : List AssetMeta) (results : List CallResult)
      (o : Option (UserAccountData × ℕ × ℕ))
      → IsAligned results 0 assets
      → elim o as (λ _. Run (Option (UserAccountData × UserPosition))) [
        | none ↦ ok none
        | some h ↦ balances_loop abi h.2 results 0 assets [] >>= λ reserves.
            ok (with_reserves abi user_address h.0 h.1 reserves)
      ]
        ≡ ok (ask_all user_address assets o)
  unfolding ask_all
  after_header user_address assets results none a = refl
  after_header user_address assets results (some h) a =
      rw (balances_loop-ask h.2 0 results assets [] a) refl

  decode_user-ask :
      (user_address : Text) (assets : List AssetMeta)
      → decode_user abi user_address assets (map reply (user_calls abi pool user assets))
        ≡ ok (ask_all user_address assets ask_header)
  unfolding decode_user user_calls result_at ask_header
  decode_user-ask user_address assets =
      after_header user_address assets (map reply (user_calls abi pool user assets)) ask_header
        (λ j.
          let here : 3 + 0 * 2 + j ≡ suc (suc (suc j)) = omega arith in
          ap (result_at (map reply (user_calls abi pool user assets))) here)

length-map_reply :
    (reply : Call → CallResult) (calls : List Call) → length (map reply calls) ≡ length calls
length-map_reply reply [] = refl
length-map_reply reply (c ∷ calls) = ground (arith, length-map_reply reply calls)

-- With a multicall that answers each call of a batch on its own, the fetch of a user does not
-- panic, and gives the account and the position that single calls for the account, the E-Mode, the
-- configuration and the two balances of each configured asset give, or an error if one of these
-- fails.
pub fetch_user_position_batch_at_block-ask_all :
    (abi : UserAbi) (reply : Call → CallResult)
    (aggregate : List Call → Option ℕ → Option (List CallResult))
    → ((calls : List Call) (block : Option ℕ) → aggregate calls block ≡ some (map reply calls))
    → (pool_address user_address : Text) (block_num : ℕ) (s : StateStore)
    → fetch_user_position_batch_at_block abi aggregate pool_address user_address block_num s
      ≡ ok (
          ask_all abi reply
            (abi.hex_to_address user_address)
            (abi.hex_to_address pool_address)
            user_address
            (assets_of s.asset_configs)
            (ask_header abi reply
              (abi.hex_to_address user_address)
              (abi.hex_to_address pool_address)))
unfolding fetch_user_position_batch_at_block
fetch_user_position_batch_at_block-ask_all abi reply aggregate honest pool_address user_address
      block_num s =
    let user = abi.hex_to_address user_address in
    let pool = abi.hex_to_address pool_address in
    let assets = assets_of s.asset_configs in
    let calls = user_calls abi pool user assets in
    let same : length (map reply calls) == length calls ≡ true =
      ground (arith, length-map_reply reply calls) in
    rw
      (
        fetch_user_position_batch_at_block,
        honest calls (if block_num == 0 then none else some block_num),
        same,
      )
      (decode_user-ask abi reply user pool user_address assets)
