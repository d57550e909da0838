-- ===== src/Multicall/Reverts.antt =====
-- The reason of a revert, and the lengths that a payload claims.
use aave_v3_flash_liquidator.Prelude.{
  ℕ, ◌+◌, ◌-◌, ◌%◌, ◌^◌, ◌≤◌, ◌<◌, ◌≡◌, refl, Bool, true, false, ◌&&◌, ◌||◌, [], ◌∷◌, if◌then◌else◌,
  ltb, leb, length, arith,
}
use aave_v3_flash_liquidator.Text.{Text, has_prefix}
use aave_v3_flash_liquidator.Run.{Run, ok, panic}
use aave_v3_flash_liquidator.Multicall.{
  RevertReason, raw, error_selector, str_len, decode_revert_reason,
}

abbrev pub is_panic {ℓ} : {A : Type ℓ} → Run A → Bool
is_panic (ok a) = false
is_panic panic = true

-- The slice of the source, with the end of the text for `len + 68`.
abbrev slice_or : ℕ → ℕ → RevertReason → RevertReason → Run RevertReason
slice_or n end_index x y =
    if leb (2 ^ 63) end_index || leb end_index n
    then (if ltb end_index 68 || ltb n end_index then panic else ok x)
    else ok y

slice_or-panics :
    (n l : ℕ) (x y : RevertReason)
    → 68 ≤ n
    → n < 2 ^ 63
    → l < 2 ^ 64
    → is_panic (slice_or n ((68 + l) % 2 ^ 64) x y) ≡ leb (2 ^ 63 - 68) l
slice_or-panics n l x y p q r = ground arith

guarded :
    {A : Type 0} (c d t : Bool) (r : Run A) (y : A)
    → (c ≡ true → is_panic r ≡ t)
    → is_panic (if c && d then r else ok y) ≡ c && d && t
guarded true true t r y h = h refl
guarded true false t r y h = refl
guarded false d t r y h = refl

-- For data of less than 2^63 bytes, the decoding of the reason of a revert panics exactly if the
-- data have at least 68 bytes, begin with the selector of an error, and claim a length of at least
-- 2^63 - 68, modulo 2^64.
pub decode_revert_reason-panics :
    (return_data : Text)
    → length return_data < 2 ^ 63
    → is_panic (decode_revert_reason return_data)
      ≡ leb 68 (length return_data)
        && has_prefix error_selector return_data
        && leb (2 ^ 63 - 68) (str_len return_data)
unfolding decode_revert_reason
decode_revert_reason-panics [] h = refl
decode_revert_reason-panics (b ∷ s) h =
    let data_bytes = b ∷ s in
    guarded (leb 68 (length data_bytes)) (has_prefix error_selector data_bytes) _ _ (raw data_bytes)
      (λ e.
        slice_or-panics (length data_bytes) (str_len data_bytes) _ (raw data_bytes) (ground arith) h
          (omega arith))
