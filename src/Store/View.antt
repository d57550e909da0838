-- ===== src/Store/View.antt =====
-- What a store says of one user and one asset, and how the basic writes change that.
use aave_v3_flash_liquidator.Prelude.{
  ◌≡◌, refl, Bool, true, false, ◌&&◌, none, some, arith, if◌then◌else◌, beq, lookup, insert,
  lookup-insert, lookup-nil,
}
use aave_v3_flash_liquidator.Text.{Text, text_eq, text_beq_iff}
use aave_v3_flash_liquidator.Models.{UserReserve}
use aave_v3_flash_liquidator.Store.{
  StateStore, find_reserve, position_of, users_of, put_reserve, add_subscriber,
}

-- The user is among those whom a change of the asset wakes.
abbrev pub is_subscribed : StateStore → Text → Text → Bool
is_subscribed s u a = elim (lookup a s.asset_subscribers) [
  | none ↦ false
  | some users ↦ elim (lookup u users) [ none ↦ false | some _ ↦ true ]
]

pub find_reserve-put_reserve :
    (u a : Text) (r : UserReserve) (s : StateStore) (v b : Text)
    → find_reserve (put_reserve u a r s) v b
      ≡ (if beq u v && beq a b then some r else find_reserve s v b)
unfolding find_reserve put_reserve
find_reserve-put_reserve u a r s v b =
    let p = position_of s.user_positions u in
    ground (
      arith,
      text_beq_iff u v,
      lookup-insert u v (record p { reserves = insert a r p.reserves }) s.user_positions,
      lookup-insert a b r p.reserves,
      lookup-nil {V = UserReserve} b,
    )

pub is_subscribed-put_reserve :
    (u a : Text) (r : UserReserve) (s : StateStore) (v b : Text)
    → is_subscribed (put_reserve u a r s) v b ≡ is_subscribed s v b
unfolding put_reserve
is_subscribed-put_reserve u a r s v b = refl

pub find_reserve-add_subscriber :
    (a u : Text) (s : StateStore) (v b : Text)
    → find_reserve (add_subscriber a u s) v b ≡ find_reserve s v b
unfolding find_reserve add_subscriber
find_reserve-add_subscriber a u s v b = refl

pub is_subscribed-add_subscriber :
    (a u : Text) (s : StateStore) (v b : Text)
    → is_subscribed (add_subscriber a u s) v b
      ≡ (if beq u v && beq a b then true else is_subscribed s v b)
unfolding add_subscriber
is_subscribed-add_subscriber a u s v b =
    let users = users_of s.asset_subscribers a in
    ground (
      arith,
      text_beq_iff a b,
      lookup-insert a b (insert u tt users) s.asset_subscribers,
      lookup-insert u v tt users,
      lookup-nil {V = Unit {0}} v,
    )
