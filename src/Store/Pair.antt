-- ===== src/Store/Pair.antt =====
-- Two reserves of one user fetched, and then both written: they may be the same reserve.
use aave_v3_flash_liquidator.Prelude.{◌≡◌, ◌&&◌, some, arith, if◌then◌else◌, beq}
use aave_v3_flash_liquidator.Text.{Text, text_eq, text_beq_iff, to_lower}
use aave_v3_flash_liquidator.Models.{UserReserve}
use aave_v3_flash_liquidator.Store.{StateStore, find_reserve, get_user_reserve, modify_reserve}
use aave_v3_flash_liquidator.Store.Methods.{reserve_of, get_user_reserve_lem, modify_reserve_lem}

module _ (user debt collateral : Text) (s : StateStore) where
  abbrev u : Text
  u = to_lower user

  abbrev d : Text
  d = to_lower debt

  abbrev c : Text
  c = to_lower collateral

  abbrev s1 : StateStore
  s1 = (get_user_reserve user debt s).1

  abbrev fetched : StateStore
  fetched = (get_user_reserve user collateral s1).1

  collateral_in_place : find_reserve fetched u c ≡ some (reserve_of s u c)
  collateral_in_place = ground (
    arith,
    text_beq_iff u u,
    text_beq_iff c c,
    text_beq_iff d c,
    get_user_reserve_lem user collateral s1 u c,
    get_user_reserve_lem user debt s u c,
  )

  debt_in_place : find_reserve fetched u d ≡ some (reserve_of s u d)
  debt_in_place = ground (
    arith,
    text_beq_iff u u,
    text_beq_iff d d,
    text_beq_iff c d,
    get_user_reserve_lem user collateral s1 u d,
    get_user_reserve_lem user debt s u d,
    get_user_reserve_lem user debt s u c,
  )

  fetched-find_reserve :
      (v b : Text)
      → find_reserve fetched v b ≡ (
          if beq u v && beq c b
          then some (reserve_of s u c)
          else if beq u v && beq d b
          then some (reserve_of s u d)
          else find_reserve s v b)
  fetched-find_reserve v b = ground (
    arith,
    text_beq_iff u v,
    text_beq_iff c b,
    text_beq_iff d b,
    collateral_in_place,
    debt_in_place,
    get_user_reserve_lem user collateral s1 v b,
    get_user_reserve_lem user debt s v b,
  )

  pub update_two_lem :
      (f g : UserReserve → UserReserve) (v b : Text)
      → find_reserve (modify_reserve user collateral g (modify_reserve user debt f fetched)) v b ≡ (
          if beq u v && beq c b
          then some (g (if beq d c then f (reserve_of s u c) else reserve_of s u c))
          else if beq u v && beq d b
          then some (f (reserve_of s u d))
          else find_reserve s v b)
  update_two_lem f g v b =
      let repaid = modify_reserve user debt f fetched in
      let seen : find_reserve repaid u c
          ≡ some (if beq d c then f (reserve_of s u c) else reserve_of s u c) =
        ground (
          arith,
          text_beq_iff u u,
          text_beq_iff d c,
          collateral_in_place,
          modify_reserve_lem user debt f fetched debt_in_place u c,
        ) in
      ground (
        arith,
        modify_reserve_lem user collateral g repaid seen v b,
        modify_reserve_lem user debt f fetched debt_in_place v b,
        fetched-find_reserve v b,
      )
