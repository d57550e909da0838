-- ===== src/Hex/Digits.antt =====
-- `parse_hex_big_int` of Hex on the hexadecimal digits of a number.
use native.Mathlib.Nat.{pow-suc}
use aave_v3_flash_liquidator.Prelude.{
  ℕ, zero, suc, ◌+◌, ◌*◌, ◌/◌, ◌%◌, ◌^◌, ◌<◌, ◌≡◌, refl, ◌∙◌, ap, [], ◌∷◌, ◌++◌, some, Option-cases,
  inl, inr, arith, ltb, if◌then◌else◌, pos, All-append, ◌≤ℤ◌,
}
use aave_v3_flash_liquidator.Text.{
  Text, trim_prefix, parse_digits, parse_magnitude, digit, IsHexDigit, IsHex,
}
use aave_v3_flash_liquidator.Hex.{prefix_0x, parse_hex_big_int}

-- A digit below 16, in lower case, and a number in `k` digits.
abbrev pub hex_char : ℕ → ℕ
hex_char d = if ltb d 10 then d + 48 else d + 87

abbrev pub hex_word : ℕ → ℕ → Text
hex_word zero n = []
hex_word (suc k) n = hex_word k (n / 16) ++ hex_char (n % 16) ∷ []

digit-hex_char : (d : ℕ) → d < 16 → digit 16 (hex_char d) ≡ some d
digit-hex_char d h = ground arith

hex_word-IsHex : (k n : ℕ) → IsHex (hex_word k n)
hex_word-IsHex zero n = tt
hex_word-IsHex (suc k) n =
    All-append IsHexDigit (hex_word k (n / 16)) (hex_char (n % 16) ∷ []) (hex_word-IsHex k (n / 16))
      ((n % 16, digit-hex_char (n % 16) (omega arith)), tt)

parse_digits-append :
    (base n : ℕ) (s t : Text) {m : ℕ}
    → parse_digits base n s ≡ some m
    → parse_digits base n (s ++ t) ≡ parse_digits base m t
unfolding parse_digits
parse_digits-append base n [] t h = ground arith
parse_digits-append base n (c ∷ s) t h = elim (Option-cases (digit base c)) [
  | inl bad ↦ ground arith
  | inr (d, e) ↦
      rw (parse_digits, e) (parse_digits-append base (n * base + d) s t (rw (parse_digits, e) at h))
]

parse_digits-hex_word :
    (k n m : ℕ) → n < 16 ^ k → parse_digits 16 m (hex_word k n) ≡ some (m * 16 ^ k + n)
unfolding parse_digits
parse_digits-hex_word zero n m h = ap some (omega arith)
parse_digits-hex_word (suc k) n m h =
    parse_digits-append 16 m (hex_word k (n / 16)) (hex_char (n % 16) ∷ [])
      (parse_digits-hex_word k (n / 16) m (omega (arith, pow-suc 16 k)))
    ∙ rw (parse_digits, digit-hex_char (n % 16) (omega arith))
        (ap some (omega (arith, ap (λ (t : ℕ). m * t) (pow-suc 16 k))))

parse_digits-IsHex : (n : ℕ) (s : Text) → IsHex s → (m : ℕ) × (parse_digits 16 n s ≡ some m)
unfolding parse_digits
parse_digits-IsHex n [] h = (n, refl)
parse_digits-IsHex n (c ∷ s) ((d, e), h) =
    rw (parse_digits, e) (parse_digits-IsHex (n * 16 + d) s h)

IsHex-trim_prefix : (s : Text) → IsHex s → trim_prefix prefix_0x s ≡ s
unfolding trim_prefix
IsHex-trim_prefix [] h = refl
IsHex-trim_prefix (c ∷ []) h = ground arith
IsHex-trim_prefix (c ∷ x ∷ s) (_, ((d, e), _)) = ground arith

-- Digits are neither a sign nor the `x` of a prefix.
parse_hex_big_int-digits :
    (s : Text) → IsHex s → {m : ℕ} → parse_digits 16 0 s ≡ some m → parse_hex_big_int s ≡ pos m
unfolding parse_hex_big_int parse_magnitude parse_digits
parse_hex_big_int-digits [] h e = rw (parse_hex_big_int, IsHex-trim_prefix [] h) (ground arith)
parse_hex_big_int-digits (c ∷ s) h e =
    let ((d, f), _) = h in rw (parse_hex_big_int, IsHex-trim_prefix (c ∷ s) h) (ground arith)

-- Hexadecimal digits, however many, are never read as a negative number.
pub parse_hex_big_int_nonneg : (s : Text) → IsHex s → pos 0 ≤ℤ parse_hex_big_int s
parse_hex_big_int_nonneg s h =
    let (m, e) = parse_digits-IsHex 0 s h in rw (parse_hex_big_int-digits s h e) (omega arith)

-- The hexadecimal digits of a number, in as many places as it fits in, are read back as the number.
pub parse_hex_big_int-hex_word : (k n : ℕ) → n < 16 ^ k → parse_hex_big_int (hex_word k n) ≡ pos n
parse_hex_big_int-hex_word k n h =
    parse_hex_big_int-digits (hex_word k n) (hex_word-IsHex k n) (parse_digits-hex_word k n 0 h)
    ∙ ap pos (omega arith)
