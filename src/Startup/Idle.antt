-- ===== src/Startup/Idle.antt =====
-- The state in which `main` starts the engines.
use mathlib.Core.Path.{subst}
use aave_v3_flash_liquidator.Prelude.{
  ◌≡◌, refl, sym, ap, ◌∙◌, ℕ, ◌/◌, ◌&&◌, ◌==◌, Bool, true, false, Bool-cases, Option-cases, inl,
  inr, List, [], ◌∷◌, map, length, Option, none, some, is_zero, Assoc, lookup, arith,
}
use aave_v3_flash_liquidator.Text.{Text, text_eq}
use aave_v3_flash_liquidator.Run.{Run, ok, OnOk, on_ok, OnOk->>=, OnOk-value}
use aave_v3_flash_liquidator.Models.{GlobalIndex, AssetConfig, EModeCategory}
use aave_v3_flash_liquidator.Store.{
  StateStore, new_state_store, set_anchor_block, set_global_index, set_asset_config,
  set_e_mode_category, set_user_e_mode, upsert_user_reserve, put_reserve, add_subscriber,
}
use aave_v3_flash_liquidator.Config.{load_config}
use aave_v3_flash_liquidator.Rpc.{new_rpc_client}
use aave_v3_flash_liquidator.Multicall.{ReserveMaps}
use aave_v3_flash_liquidator.Bootstrap.{
  GraphReserve, GraphUser, parse_and_clean_big_int, get_e_mode_id, set_indices, set_configs,
  set_categories, category_set, load_reserve, load_reserves, load_users, Loaded, load_with,
  bootstrap,
}
use aave_v3_flash_liquidator.Risk.Heap.{heap_init, init_loop}
use aave_v3_flash_liquidator.Risk.Update.View.{IsRiskIndex}
use aave_v3_flash_liquidator.System.{System, Reach}
use aave_v3_flash_liquidator.System.Index.{IsHealthy}
use aave_v3_flash_liquidator.System.History.{IsPast}
use aave_v3_flash_liquidator.System.Invariant.{Reach-IsHealthy}
use aave_v3_flash_liquidator.Startup.{
  World, or_fatal, unless_fatal, setup_tx_executor, start_risk_engine, Started, main,
}

-- No user is at risk yet.
pub record IsIdle (s : StateStore) : Type 0 where
  pub heap : s.risk_heap ≡ []
  pub table : s.heap_lookup ≡ []

IsIdle-IsRiskIndex : (s : StateStore) → IsIdle s → IsRiskIndex s
unfolding lookup
IsIdle-IsRiskIndex s h = record {
  heap = record {
    indexed = λ c p. absurd (omega (arith, p, ap length h.heap));
    order = λ c p q. absurd (omega (arith, q, ap length h.heap));
  };
  listing = record {
    used = λ c p. absurd (omega (arith, p, ap length h.heap));
    listed = λ c p. absurd (omega (arith, p, ap length h.heap));
    placed = λ u p e. absurd (ground (arith, sym (ap (lookup u) h.table) ∙ e));
  };
}

load_reserves-IsIdle :
    (id : Text) (reserves : List GraphReserve) (s : StateStore)
    → IsIdle s
    → IsIdle (load_reserves id reserves s)
unfolding load_reserves load_reserve upsert_user_reserve put_reserve add_subscriber
load_reserves-IsIdle id [] s h = h
load_reserves-IsIdle id (res ∷ reserves) s h =
    load_reserves-IsIdle id reserves (load_reserve id res s)
      (elim (Bool-cases (
        is_zero (parse_and_clean_big_int res.scaled_a_token_balance)
        && is_zero (parse_and_clean_big_int res.scaled_variable_debt))) [
          | inl e ↦ rw (load_reserve, e) h
          | inr e ↦ rw (load_reserve, e) (record { heap = h.heap; table = h.table })
        ])

load_users-IsIdle :
    (users : List GraphUser) (s : StateStore) → IsIdle s → IsIdle (load_users users s)
unfolding load_users set_user_e_mode
load_users-IsIdle [] s h = h
load_users-IsIdle (u ∷ users) s h = load_users-IsIdle users _ (
    load_reserves-IsIdle u.id u.reserves (set_user_e_mode u.id (get_e_mode_id u) s)
      (record { heap = h.heap; table = h.table }))

set_indices-IsIdle :
    (indices : Assoc Text GlobalIndex) (s : StateStore) → IsIdle s → IsIdle (set_indices indices s)
unfolding set_indices set_global_index
set_indices-IsIdle [] s h = h
set_indices-IsIdle (e ∷ indices) s h =
    set_indices-IsIdle indices _ (record { heap = h.heap; table = h.table })

set_configs-IsIdle :
    (configs : Assoc Text AssetConfig) (s : StateStore) → IsIdle s → IsIdle (set_configs configs s)
unfolding set_configs set_asset_config
set_configs-IsIdle [] s h = h
set_configs-IsIdle (e ∷ configs) s h =
    set_configs-IsIdle configs _ (record { heap = h.heap; table = h.table })

set_categories-IsIdle :
    (m : Assoc ℕ EModeCategory) (s : StateStore) → IsIdle s → IsIdle (set_categories m s)
unfolding set_categories set_e_mode_category
set_categories-IsIdle [] s h = h
set_categories-IsIdle (e ∷ m) s h =
    set_categories-IsIdle m _ (record { heap = h.heap; table = h.table })

set_anchor_block-IsIdle : (b : ℕ) (s : StateStore) → IsIdle s → IsIdle (set_anchor_block b s)
unfolding set_anchor_block
set_anchor_block-IsIdle b s h = elim (Bool-cases (s.current_block == 0)) [
  | inl e ↦ rw (set_anchor_block, e) (record { heap = h.heap; table = h.table })
  | inr e ↦ rw (set_anchor_block, e) (record { heap = h.heap; table = h.table })
]

abbrev LoadsIdle : Run Loaded → Type 0
LoadsIdle = OnOk (λ (t : Loaded). IsIdle t.1)

load_with-IsIdle :
    (fetch : List ℕ → Run (Option (Assoc ℕ EModeCategory))) (users : List GraphUser)
    (set : Assoc ℕ Bool) (s : StateStore)
    → IsIdle s
    → LoadsIdle (load_with fetch users set s)
unfolding load_with
load_with-IsIdle fetch users [] s h = on_ok (load_users-IsIdle users s h)
load_with-IsIdle fetch users (e ∷ set) s h =
    OnOk->>= (fetch (map (λ x. x.0) (e ∷ set))) _ (λ reply known. after reply)
  where
    after :
        (reply : Option (Assoc ℕ EModeCategory))
        → LoadsIdle (elim reply as (λ _. Run Loaded) [
          | none ↦ ok (false, s)
          | some categories ↦ ok (true, load_users users (set_categories categories s))
        ])
    after none = on_ok h
    after (some categories) =
        on_ok (load_users-IsIdle users _ (set_categories-IsIdle categories s h))

bootstrap-IsIdle :
    (anchor : Option ℕ) (reserves_at : ℕ → Option ReserveMaps)
    (users_at : ℕ → Option (List GraphUser))
    (categories_at : ℕ → List ℕ → Run (Option (Assoc ℕ EModeCategory))) (s : StateStore)
    → IsIdle s
    → LoadsIdle (bootstrap anchor reserves_at users_at categories_at s)
unfolding bootstrap
bootstrap-IsIdle none reserves_at users_at categories_at s h = on_ok h
bootstrap-IsIdle (some block) reserves_at users_at categories_at s h =
    let h1 = set_anchor_block-IsIdle block s h in
    elim (Option-cases (reserves_at block)) [
      | inl e ↦ rw (bootstrap, e) (on_ok h1)
      | inr (maps, e) ↦
          let h2 = set_configs-IsIdle maps.1 _ (set_indices-IsIdle maps.0 _ h1) in
          elim (Option-cases (users_at block)) [
            | inl f ↦ rw (bootstrap, e, f) (on_ok h2)
            | inr (users, f) ↦
                rw (bootstrap, e, f)
                  (load_with-IsIdle (categories_at block) users (category_set users []) _ h2)
          ]
    ]

start_risk_engine-IsRiskIndex : (s : StateStore) → IsIdle s → OnOk IsRiskIndex (start_risk_engine s)
unfolding start_risk_engine heap_init init_loop
start_risk_engine-IsRiskIndex s h =
    let none_there : length s.risk_heap / 2 ≡ 0 = omega (arith, ap length h.heap) in
    let idle = IsIdle-IsRiskIndex s h in
    rw (start_risk_engine, heap_init, none_there)
      (on_ok (record { heap = idle.heap; listing = idle.listing }))

unless_fatal-ok : {A : Type 0} (r : Bool × A) (a : A) → unless_fatal r ≡ ok a → r.1 ≡ a
unless_fatal-ok (true, b) a h = ground (arith, h)
unless_fatal-ok (false, b) a h = absurd (ground (arith, h))

-- The engines run on a heap in order, a queue within its capacity, and a log engine that is not
-- before its history.
abbrev pub StartsHealthy : (Text → Text) → Started → Type 0
StartsHealthy keccak started =
    (z : System)
    → Reach keccak started.target_assets started.system z
    → IsHealthy z.engine × IsPast z.phase z.engine

-- If main comes to the start of the engines, then in every state that the engines then reach, from
-- the fetch of the history on, while its logs are replayed and in the live stream, with the steps
-- of the others in any order between, the risk heap is in order, the table lists it, the queue is
-- within its capacity, and after the history up to a block the last processed block is not before
-- that block.
pub main-StartsHealthy : (keccak : Text → Text) (w : World) → OnOk (StartsHealthy keccak) (main w)
unfolding main IsPast
main-StartsHealthy keccak w =
    OnOk->>= (load_config w.getenv w.is_hex_address w.hex_to_address) _ λ cfg e0.
      OnOk->>= (unless_fatal (w.log_dir_made cfg.log_dir, cfg.log_dir)) _ λ log_dir e1.
        OnOk->>= (new_rpc_client w.pool_abi_reads w.e_mode_abi_reads cfg.rpc_urls) _
          λ rpc_client e2.
            OnOk->>= (or_fatal (w.reserves_list rpc_client cfg.aave_v3_pool)) _ λ target_assets e3.
              OnOk->>= (w.fee_cache rpc_client cfg target_assets) _ λ built e4.
                OnOk->>= (unless_fatal built) _ λ cache e5.
                  OnOk->>=
                    (bootstrap (w.anchor cfg) (w.reserves_at target_assets) (w.users_at cfg)
                      w.categories_at new_state_store)
                    _
                    λ loaded e6. OnOk->>= (unless_fatal loaded) _ λ filled e7.
                      OnOk->>= (setup_tx_executor w cfg cache) _ λ executor e8.
                        OnOk->>= (start_risk_engine filled) _ λ store e9. on_ok (
                          let idle : IsIdle loaded.1 = OnOk-value (
                            subst LoadsIdle e6 (
                              bootstrap-IsIdle (w.anchor cfg) (w.reserves_at target_assets)
                                (w.users_at cfg) w.categories_at new_state_store
                                (record { heap = refl; table = refl }))) in
                          let filled_idle = subst IsIdle (unless_fatal-ok loaded filled e7) idle in
                          let index : IsRiskIndex store = OnOk-value (
                            subst (OnOk IsRiskIndex) e9
                              (start_risk_engine-IsRiskIndex filled filled_idle)) in
                          λ z r.
                            let (healthy, past, acts) =
                              Reach-IsHealthy keccak target_assets
                                (record { index = index; room = omega arith }) tt r in
                            (healthy, past))
