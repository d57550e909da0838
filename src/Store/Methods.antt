-- ===== src/Store/Methods.antt =====
-- The methods on reserves, and the invariant of the store.
use aave_v3_flash_liquidator.Prelude.{
  ◌≡◌, true, ◌&&◌, none, some, Option-cases, inl, inr, arith, if◌then◌else◌, beq, lookup-nil,
  lookup-insert, ℕ, pos, ◌≤ℤ◌,
}
use aave_v3_flash_liquidator.Text.{Text, text_eq, text_beq_iff, to_lower}
use aave_v3_flash_liquidator.Models.{UserReserve, GlobalIndex}
use aave_v3_flash_liquidator.Store.{
  StateStore, find_reserve, position_of, put_reserve, add_subscriber, empty_reserve,
  get_user_reserve, modify_reserve, upsert_user_reserve, set_user_e_mode, set_global_index,
}
use aave_v3_flash_liquidator.Store.View.{
  is_subscribed, find_reserve-put_reserve, is_subscribed-put_reserve, find_reserve-add_subscriber,
  is_subscribed-add_subscriber,
}

-- No balance or debt below zero.
pub record IsNonneg (r : UserReserve) : Type 0 where
  pub balance : pos 0 ≤ℤ r.scaled_a_token_balance
  pub debt : pos 0 ≤ℤ r.scaled_variable_debt

-- Reserves hold no negative amount, and whoever has a reserve of an asset is subscribed to it.
pub record IsValid (s : StateStore) : Type 0 where
  pub nonneg : (u a : Text) (r : UserReserve) → find_reserve s u a ≡ some r → IsNonneg r
  pub indexed :
      (u a : Text) (r : UserReserve) → find_reserve s u a ≡ some r → is_subscribed s u a ≡ true

-- What a user's reserve reads as, a missing one as the empty reserve.
abbrev pub reserve_of : StateStore → Text → Text → UserReserve
reserve_of s u a = elim (find_reserve s u a) [ none ↦ empty_reserve a | some r ↦ r ]

-- The lookup inside `get_user_reserve` is `find_reserve`.
get_user_reserve-eq :
    (user asset : Text) (s : StateStore)
    → let u = to_lower user in
      let a = to_lower asset in
      get_user_reserve user asset s ≡ elim (find_reserve s u a) [
        | some r ↦ (r, s)
        | none ↦ (empty_reserve a, add_subscriber a u (put_reserve u a (empty_reserve a) s))
      ]
unfolding get_user_reserve find_reserve
get_user_reserve-eq user asset s = ground (arith, lookup-nil {V = UserReserve} (to_lower asset))

module _ (u a : Text) (r : UserReserve) (s : StateStore) where
  put_reserve-IsValid :
      IsNonneg r → is_subscribed s u a ≡ true → IsValid s → IsValid (put_reserve u a r s)
  put_reserve-IsValid ok sub h = record {
    nonneg = λ v b r' e. ground (arith, find_reserve-put_reserve u a r s v b, h.nonneg v b r');
    indexed = λ v b r' e. ground (
      arith,
      text_beq_iff u v,
      text_beq_iff a b,
      find_reserve-put_reserve u a r s v b,
      is_subscribed-put_reserve u a r s v b,
      h.indexed v b r',
    );
  }

  -- A reserve that is put in place together with the subscription.
  put_and_subscribe-IsValid :
      IsNonneg r → IsValid s → IsValid (add_subscriber a u (put_reserve u a r s))
  put_and_subscribe-IsValid ok h = record {
    nonneg = λ v b r' e. ground (
      arith,
      find_reserve-add_subscriber a u (put_reserve u a r s) v b,
      find_reserve-put_reserve u a r s v b,
      h.nonneg v b r',
    );
    indexed = λ v b r' e. ground (
      arith,
      find_reserve-add_subscriber a u (put_reserve u a r s) v b,
      find_reserve-put_reserve u a r s v b,
      is_subscribed-add_subscriber a u (put_reserve u a r s) v b,
      is_subscribed-put_reserve u a r s v b,
      h.indexed v b r',
    );
  }

-- `get_user_reserve` returns the reserve, puts it in place, and leaves all others alone.
pub get_user_reserve_lem :
    (user asset : Text) (s : StateStore) (v b : Text)
    → let (r, s') = get_user_reserve user asset s in
      (r ≡ reserve_of s (to_lower user) (to_lower asset))
      × (find_reserve s' v b ≡ (
          if beq (to_lower user) v && beq (to_lower asset) b then some r else find_reserve s v b))
get_user_reserve_lem user asset s v b =
    let u = to_lower user in
    let a = to_lower asset in
    let grown = put_reserve u a (empty_reserve a) s in
    ground (
      arith,
      text_beq_iff u v,
      text_beq_iff a b,
      get_user_reserve-eq user asset s,
      find_reserve-add_subscriber a u grown v b,
      find_reserve-put_reserve u a (empty_reserve a) s v b,
    )

pub get_user_reserve-IsValid :
    (user asset : Text) (s : StateStore) → IsValid s → IsValid (get_user_reserve user asset s).1
get_user_reserve-IsValid user asset s h =
    let u = to_lower user in
    let a = to_lower asset in
    elim (Option-cases (find_reserve s u a)) [
      | inl missing ↦
          rw (get_user_reserve-eq user asset s, missing)
            (put_and_subscribe-IsValid u a (empty_reserve a) s (omega arith) h)
      | inr (r, e) ↦ rw (get_user_reserve-eq user asset s, e) h
    ]

-- Putting a reserve of no negative amount into a valid store leaves it valid: amounts of zero or
-- more, and each holder of a reserve subscribed to its asset.
pub upsert_user_reserve-IsValid :
    (user : Text) (r : UserReserve) (s : StateStore)
    → IsNonneg r
    → IsValid s
    → IsValid (upsert_user_reserve user r s)
unfolding upsert_user_reserve
upsert_user_reserve-IsValid user r s ok h =
    put_and_subscribe-IsValid (to_lower user) (to_lower r.asset_address) r s ok h

pub modify_reserve_lem :
    (user asset : Text) (f : UserReserve → UserReserve) (s : StateStore) {r : UserReserve}
    → find_reserve s (to_lower user) (to_lower asset) ≡ some r
    → (v b : Text)
    → find_reserve (modify_reserve user asset f s) v b
      ≡ (if beq (to_lower user) v && beq (to_lower asset) b then some (f r) else find_reserve s v b)
unfolding modify_reserve
modify_reserve_lem user asset f s {r} e v b =
    rw (modify_reserve, e) (find_reserve-put_reserve _ _ (f r) s v b)

pub modify_reserve-IsValid :
    (user asset : Text) (f : UserReserve → UserReserve) (s : StateStore)
    → ((r : UserReserve) → IsNonneg r → IsNonneg (f r))
    → IsValid s
    → IsValid (modify_reserve user asset f s)
unfolding modify_reserve
modify_reserve-IsValid user asset f s keep h =
    let u = to_lower user in
    let a = to_lower asset in
    elim (Option-cases (find_reserve s u a)) [
      | inl missing ↦ rw (modify_reserve, missing) h
      | inr (r, e) ↦
          rw (modify_reserve, e)
            (put_reserve-IsValid u a (f r) s (keep r (h.nonneg u a r e)) (h.indexed u a r e) h)
    ]

-- Fetching a reserve and writing through the pointer changes this reserve, or the empty one if it
-- was missing, by the written function, and no other reserve.
pub update_reserve_lem :
    (user asset : Text) (f : UserReserve → UserReserve) (s : StateStore) (v b : Text)
    → find_reserve (modify_reserve user asset f (get_user_reserve user asset s).1) v b ≡ (
        if beq (to_lower user) v && beq (to_lower asset) b
        then some (f (reserve_of s (to_lower user) (to_lower asset)))
        else find_reserve s v b)
update_reserve_lem user asset f s v b =
    let u = to_lower user in
    let a = to_lower asset in
    let (r, s') = get_user_reserve user asset s in
    let in_place : find_reserve s' u a ≡ some r =
      ground (arith, text_beq_iff u u, text_beq_iff a a, get_user_reserve_lem user asset s u a) in
    ground (
      arith,
      get_user_reserve_lem user asset s v b,
      modify_reserve_lem user asset f s' in_place v b,
    )

pub update_reserve-IsValid :
    (user asset : Text) (f : UserReserve → UserReserve) (s : StateStore)
    → ((r : UserReserve) → IsNonneg r → IsNonneg (f r))
    → IsValid s
    → IsValid (modify_reserve user asset f (get_user_reserve user asset s).1)
update_reserve-IsValid user asset f s keep h =
    modify_reserve-IsValid user asset f _ keep (get_user_reserve-IsValid user asset s h)

-- The methods on positions leave the indices alone.
pub get_user_reserve-global_indices :
    (user asset : Text) (s : StateStore)
    → (get_user_reserve user asset s).1.global_indices ≡ s.global_indices
unfolding get_user_reserve put_reserve add_subscriber
get_user_reserve-global_indices user asset s = ground arith

pub modify_reserve-global_indices :
    (user asset : Text) (f : UserReserve → UserReserve) (s : StateStore)
    → (modify_reserve user asset f s).global_indices ≡ s.global_indices
unfolding modify_reserve put_reserve
modify_reserve-global_indices user asset f s = ground arith

-- An E-Mode category, new or changed, does not touch the reserves.
pub set_user_e_mode_lem :
    (user : Text) (category : ℕ) (s : StateStore) (v b : Text)
    → find_reserve (set_user_e_mode user category s) v b ≡ find_reserve s v b
unfolding find_reserve set_user_e_mode
set_user_e_mode_lem user category s v b =
    let u = to_lower user in
    let p = position_of s.user_positions u in
    ground (
      arith,
      text_beq_iff u v,
      lookup-insert u v (record p { e_mode_category_id = category; e_mode_fetched = true })
          s.user_positions,
      lookup-nil {V = UserReserve} b,
    )

pub set_user_e_mode-IsValid :
    (user : Text) (category : ℕ) (s : StateStore)
    → IsValid s
    → IsValid (set_user_e_mode user category s)
unfolding set_user_e_mode
set_user_e_mode-IsValid user category s h = record {
  nonneg = λ v b r e. h.nonneg v b r (rw (set_user_e_mode_lem user category s v b) at e);
  indexed = λ v b r e. h.indexed v b r (rw (set_user_e_mode_lem user category s v b) at e);
}

pub set_global_index-IsValid :
    (asset : Text) (i : GlobalIndex) (s : StateStore)
    → IsValid s
    → IsValid (set_global_index asset i s)
unfolding set_global_index find_reserve
set_global_index-IsValid asset i s h = record {
  nonneg = λ v b r e. h.nonneg v b r e;
  indexed = λ v b r e. h.indexed v b r e;
}
