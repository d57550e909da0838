-- ===== src/Multicall/Batches.antt =====
-- What a decoded batch of reserves holds.
use aave_v3_flash_liquidator.Prelude.{
  ℕ, ◌≡◌, refl, ap, ◌∙◌, sym, Bool, true, false, Bool-cases, Option-cases, inl, inr, List, [], ◌∷◌,
  Option, none, some, if◌then◌else◌, ◌==◌, Assoc, beq, lookup, insert, lookup-insert, length, arith,
}
use aave_v3_flash_liquidator.Text.{Text, text_eq}
use aave_v3_flash_liquidator.Models.{GlobalIndex}
use aave_v3_flash_liquidator.Dex.{CallResult}
use aave_v3_flash_liquidator.Multicall.{
  ReserveData, ReserveMaps, asset_config_of, global_index_of, reserve_of, decode_loop,
  decode_multicall_results_safe,
}

index_step :
    (block : ℕ) (asset a : Text) (r : ReserveData) (m : Assoc Text GlobalIndex)
    → lookup a (insert asset (global_index_of asset block r) m)
      ≡ (if beq asset a then some (global_index_of a block r) else lookup a m)
index_step block asset a r m = elim (Bool-cases (beq asset a)) [
  | inl e ↦
      let same : asset ≡ a = ground (arith, text_eq.beq_iff asset a) in
      lookup-insert asset a (global_index_of asset block r) m
      ∙ rw e (ap (λ k. some (global_index_of k block r)) same)
  | inr e ↦ lookup-insert asset a (global_index_of asset block r) m ∙ rw e refl
]

module _ (unpack : Text → Option ReserveData) where
  -- The last readable result for an asset.
  pub reading : Text → List CallResult → List Text → Option ReserveData
  reading a [] assets = none
  reading a (res ∷ results) [] = none
  reading a (res ∷ results) (asset ∷ assets) = elim (reading a results assets) [
    | some r ↦ some r
    | none ↦ if beq asset a then reserve_of unpack res else none
  ]

  -- The entry for a reading, or the one that was there.
  abbrev pub entry_or : {B : Type 0} → (ReserveData → B) → Option B → Option ReserveData → Option B
  entry_or f old none = old
  entry_or f old (some r) = some (f r)

  abbrev IsRead : ℕ → Text → List CallResult → List Text → ReserveMaps → ReserveMaps → Type 0
  IsRead block a results assets maps maps' =
      (lookup a maps'.0
        ≡ entry_or (global_index_of a block) (lookup a maps.0) (reading a results assets))
      × (lookup a maps'.1 ≡ entry_or asset_config_of (lookup a maps.1) (reading a results assets))

  -- A result, and then the later ones.
  entry_or-later :
      {B : Type 0} (f : ReserveData → B) (old : Option B) (first later : Option ReserveData)
      → entry_or f (entry_or f old first) later
        ≡ entry_or f old (elim later [ some r ↦ some r | none ↦ first ])
  entry_or-later f old first none = refl
  entry_or-later f old first (some r) = refl

  entry_or-if :
      {B : Type 0} (f : ReserveData → B) (old : Option B) (same : Bool) (r : ReserveData)
      → (if same then some (f r) else old) ≡ entry_or f old (if same then some r else none)
  entry_or-if f old true r = refl
  entry_or-if f old false r = refl

  entry_or-none :
      {B : Type 0} (f : ReserveData → B) (old : Option B) (same : Bool)
      → old ≡ entry_or f old (if same then none else none)
  entry_or-none f old true = refl
  entry_or-none f old false = refl

  -- One result for an asset.
  read_step :
      {B : Type 0} (f : ReserveData → B) (a asset : Text) (res : CallResult)
      (results : List CallResult) (assets : List Text) (old new : Option B) (result : Option B)
      → new ≡ entry_or f old (if beq asset a then reserve_of unpack res else none)
      → result ≡ entry_or f new (reading a results assets)
      → result ≡ entry_or f old (reading a (res ∷ results) (asset ∷ assets))
  unfolding reading
  read_step f a asset res results assets old new result e d =
      d
      ∙ ap (λ n. entry_or f n (reading a results assets)) e
      ∙ entry_or-later f old (if beq asset a then reserve_of unpack res else none)
          (reading a results assets)

  decode_loop-IsRead :
      (block : ℕ) (a : Text) (results : List CallResult) (assets : List Text) (maps : ReserveMaps)
      → IsRead block a results assets maps (decode_loop unpack block results assets maps)
  unfolding decode_loop reading
  decode_loop-IsRead block a [] assets maps = (refl, refl)
  decode_loop-IsRead block a (res ∷ results) [] maps = (refl, refl)
  decode_loop-IsRead block a (res ∷ results) (asset ∷ assets) maps =
      elim (Option-cases (reserve_of unpack res)) [
        | inl e ↦
            let (x, y) = decode_loop-IsRead block a results assets maps in
            rw (decode_loop, e)
              (
                read_step (global_index_of a block) a asset res results assets _ _ _
                    (rw e (entry_or-none _ _ (beq asset a))) x,
                read_step asset_config_of a asset res results assets _ _ _
                    (rw e (entry_or-none _ _ (beq asset a))) y,
              )
        | inr (r, e) ↦
            let maps' : ReserveMaps = (
              insert asset (global_index_of asset block r) maps.0,
              insert asset (asset_config_of r) maps.1,
            ) in
            let (x, y) = decode_loop-IsRead block a results assets maps' in
            rw (decode_loop, e)
              (
                read_step (global_index_of a block) a asset res results assets (lookup a maps.0)
                    (lookup a maps'.0) _
                    (rw e (
                      index_step block asset a r maps.0
                      ∙ entry_or-if (global_index_of a block) (lookup a maps.0) (beq asset a) r))
                    x,
                read_step asset_config_of a asset res results assets (lookup a maps.1)
                    (lookup a maps'.1) _
                    (rw e (
                      lookup-insert asset a (asset_config_of r) maps.1
                      ∙ entry_or-if asset_config_of (lookup a maps.1) (beq asset a) r))
                    y,
              )
      ]

  -- A batch that is decoded has as many results as assets, and both maps hold for each asset the
  -- index and the configuration of its last result that succeeded and can be read, and nothing for
  -- an asset without one.
  pub decode_multicall_results_safe-reads :
      (results : List CallResult) (assets : List Text) (block : ℕ) (maps : ReserveMaps) (a : Text)
      → decode_multicall_results_safe unpack (some results) assets block ≡ some maps
      → (length results ≡ length assets)
        × (lookup a maps.0 ≡ entry_or (global_index_of a block) none (reading a results assets))
        × (lookup a maps.1 ≡ entry_or asset_config_of none (reading a results assets))
  unfolding decode_multicall_results_safe lookup
  decode_multicall_results_safe-reads results assets block maps a e =
      let (x, y) = decode_loop-IsRead block a results assets ([], []) in
      elim (Bool-cases (length results == length assets)) [
        | inr d ↦ absurd (ground (arith, e))
        | inl d ↦
            let same : decode_loop unpack block results assets ([], []) ≡ maps =
              ground (arith, e, d) in
            (
              ground arith,
              ap (λ m. lookup a m.0) (sym same) ∙ x,
              ap (λ m. lookup a m.1) (sym same) ∙ y,
            )
      ]
