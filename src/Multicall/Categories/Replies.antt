-- ===== src/Multicall/Categories/Replies.antt =====
-- Replies that are long enough, and those that are not.
use aave_v3_flash_liquidator.Prelude.{
  ℕ, zero, suc, ◌+◌, ◌*◌, ◌≤◌, ◌<◌, ◌≡◌, refl, Bool, true, false, ◌==◌, Bool-cases, Option-cases,
  inl, inr, List, [], ◌∷◌, Option, none, some, if◌then◌else◌, ℤ, All, Assoc, insert, lookup,
  lookup-insert, lookup-nil, nat_eq, length, arith,
}
use aave_v3_flash_liquidator.Text.{Text}
use aave_v3_flash_liquidator.Run.{Run, ok, panic, ◌>>=◌, Ends, ends, Ends->>=}
use aave_v3_flash_liquidator.Models.{EModeCategory}
use aave_v3_flash_liquidator.Dex.{Call, CallResult}
use aave_v3_flash_liquidator.Multicall.{RevertReason, decode_revert_reason}
use aave_v3_flash_liquidator.Multicall.Reverts.{is_panic}
use aave_v3_flash_liquidator.Multicall.Categories.{
  EModeData, valid_ids, empty_category, result_at, read_config, read_bitmap, read_category,
  category_loop, category_calls, fetch_valid, batch_fetch_e_mode_categories,
}

-- A result whose reason of a revert can be decoded.
abbrev pub IsHarmless : CallResult → Type 0
IsHarmless res = is_panic (decode_revert_reason res.return_data) ≡ false

result_at-Ends :
    (results : List CallResult) (i : ℕ)
    → All IsHarmless results
    → i < length results
    → Ends IsHarmless (result_at results i)
unfolding result_at
result_at-Ends [] i h p = absurd (omega arith)
result_at-Ends (r ∷ results) zero h p = ends h.0
result_at-Ends (r ∷ results) (suc i) h p = result_at-Ends results i h.1 (omega arith)

after_reason :
    (r : Run RevertReason) (cat : EModeCategory)
    → is_panic r ≡ false
    → Ends (λ _. Unit {0}) (r >>= λ _. ok cat)
after_reason (ok a) cat h = ends tt
after_reason panic cat h = absurd (ground arith)

-- No category has the number zero.
abbrev pub HasNoZero : Assoc ℕ EModeCategory → Type 0
HasNoZero m = lookup 0 m ≡ none

module _ (unpack_data : Text → Option EModeData) (unpack_bitmap : Text → Option ℤ) where
  read_config-Ends :
      (res : CallResult) (cat : EModeCategory)
      → IsHarmless res
      → Ends (λ _. Unit {0}) (read_config unpack_data unpack_bitmap res cat)
  unfolding read_config
  read_config-Ends res cat h = elim (Bool-cases res.success) [
    | inr e ↦ rw (read_config, e) (after_reason (decode_revert_reason res.return_data) cat h)
    | inl e ↦ elim (Option-cases (unpack_data res.return_data)) [
      | inl d ↦ rw (read_config, e, d) (ends tt)
      | inr (x, d) ↦ rw (read_config, e, d) (ends tt)
    ]
  ]

  read_bitmap-Ends :
      (res : CallResult) (cat : EModeCategory)
      → IsHarmless res
      → Ends (λ _. Unit {0}) (read_bitmap unpack_data unpack_bitmap res cat)
  unfolding read_bitmap
  read_bitmap-Ends res cat h = elim (Bool-cases res.success) [
    | inr e ↦ rw (read_bitmap, e) (after_reason (decode_revert_reason res.return_data) cat h)
    | inl e ↦ elim (Option-cases (unpack_bitmap res.return_data)) [
      | inl d ↦ rw (read_bitmap, e, d) (ends tt)
      | inr (x, d) ↦ rw (read_bitmap, e, d) (ends tt)
    ]
  ]

  read_category-Ends :
      (results : List CallResult) (i : ℕ)
      → All IsHarmless results
      → i * 2 + 1 < length results
      → Ends (λ _. Unit {0}) (read_category unpack_data unpack_bitmap results i)
  unfolding read_category
  read_category-Ends results i h p =
      Ends->>= (result_at-Ends results (i * 2) h (omega arith)) (λ config a.
        Ends->>= (result_at-Ends results (i * 2 + 1) h p) (λ bitmap b.
          Ends->>= (read_config-Ends config empty_category a)
            (λ cat _. Ends->>= (read_bitmap-Ends bitmap cat b) (λ cat' _. ends tt))))

  insert-HasNoZero :
      (stored : Bool) (cid : ℕ) (cat : EModeCategory) (m : Assoc ℕ EModeCategory)
      → (cid == 0) ≡ false
      → HasNoZero m
      → HasNoZero (if stored then insert cid cat m else m)
  insert-HasNoZero true cid cat m p h = ground (arith, lookup-insert cid 0 cat m)
  insert-HasNoZero false cid cat m p h = h

  category_loop-Ends :
      (results : List CallResult) (i : ℕ) (ids : List ℕ) (m : Assoc ℕ EModeCategory)
      → All IsHarmless results
      → (i + length ids) * 2 ≤ length results
      → All (λ cid. (cid == 0) ≡ false) ids
      → HasNoZero m
      → Ends HasNoZero (category_loop unpack_data unpack_bitmap results i ids m)
  unfolding category_loop
  category_loop-Ends results i [] m h p v z = ends z
  category_loop-Ends results i (cid ∷ ids) m h p v z =
      Ends->>= (read_category-Ends results i h (omega arith)) (λ r _.
        category_loop-Ends results (suc i) ids (if r.0 then insert cid r.1 m else m) h (omega arith)
          v.1 (insert-HasNoZero r.0 cid r.1 m v.0 z))

valid_ids-nonzero : (ids : List ℕ) → All (λ cid. (cid == 0) ≡ false) (valid_ids ids)
unfolding valid_ids
valid_ids-nonzero [] = tt
valid_ids-nonzero (cid ∷ ids) = elim (Bool-cases (cid == 0)) [
  | inl e ↦ rw e (valid_ids-nonzero ids)
  | inr e ↦ rw e (e, valid_ids-nonzero ids)
]

-- No answer, or categories without the number zero.
abbrev pub IsAnswer : Option (Assoc ℕ EModeCategory) → Type 0
IsAnswer none = Unit
IsAnswer (some m) = HasNoZero m

module _ (unpack_data : Text → Option EModeData) (unpack_bitmap : Text → Option ℤ)
    (hex_to_address : Text → Text) (pack_data : ℕ → Text) (pack_bitmap : ℕ → Text)
    (aggregate : List Call → ℕ → Option (List CallResult)) where
  e_mode_calls : Text → List ℕ → List Call
  e_mode_calls =
      category_calls unpack_data unpack_bitmap hex_to_address pack_data pack_bitmap aggregate

  length-e_mode_calls :
      (pool : Text) (ids : List ℕ) → length (e_mode_calls pool ids) ≡ length ids * 2
  unfolding e_mode_calls category_calls
  length-e_mode_calls pool [] = refl
  length-e_mode_calls pool (cid ∷ ids) = ground (arith, length-e_mode_calls pool ids)

  fetch_valid-Ends :
      (pool : Text) (block : ℕ) (ids : List ℕ)
      → ((results : List CallResult)
          → aggregate (e_mode_calls pool ids) block ≡ some results
          → (length results ≡ length (e_mode_calls pool ids)) × All IsHarmless results)
      → All (λ cid. (cid == 0) ≡ false) ids
      → Ends IsAnswer (
          fetch_valid unpack_data unpack_bitmap hex_to_address pack_data pack_bitmap aggregate pool
            block ids)
  unfolding fetch_valid e_mode_calls
  fetch_valid-Ends pool block [] honest v = ends (lookup-nil 0)
  fetch_valid-Ends pool block (cid ∷ ids) honest v =
      elim (Option-cases (aggregate (e_mode_calls pool (cid ∷ ids)) block)) [
        | inl e ↦ rw (fetch_valid, e) (ends tt)
        | inr (results, e) ↦
            let (same, harmless) = honest results e in
            rw (fetch_valid, e)
              (Ends->>=
                (category_loop-Ends unpack_data unpack_bitmap results 0 (cid ∷ ids) [] harmless
                  (omega (arith, same, length-e_mode_calls pool (cid ∷ ids))) v (lookup-nil 0))
                (λ m z. ends z))
      ]

  -- If the node answers each batch with as many results as calls, none of which holds a reason that
  -- panics, then the fetch of the E-Mode categories does not panic, and its map has no category
  -- zero.
  pub batch_fetch_e_mode_categories-Ends :
      ((calls : List Call) (block : ℕ) (results : List CallResult)
        → aggregate calls block ≡ some results
        → (length results ≡ length calls) × All IsHarmless results)
      → (pool_address : Text) (category_ids : List ℕ) (block_number : ℕ)
      → Ends IsAnswer (
          batch_fetch_e_mode_categories unpack_data unpack_bitmap hex_to_address pack_data
            pack_bitmap aggregate pool_address category_ids block_number)
  unfolding batch_fetch_e_mode_categories e_mode_calls
  batch_fetch_e_mode_categories-Ends honest pool ids block =
      fetch_valid-Ends pool block (valid_ids ids) (honest (e_mode_calls pool (valid_ids ids)) block)
        (valid_ids-nonzero ids)
