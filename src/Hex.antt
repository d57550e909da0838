-- ===== src/Hex.antt =====
-- The hexadecimal helpers of pkg/math/math.go and pkg/conv/conv.go.
pub mod Digits
pub mod Address
use aave_v3_flash_liquidator.Prelude.{
  ℕ, ◌-◌, ◌++◌, List, [], ◌∷◌, none, some, leb, if◌then◌else◌, ℤ, pos, length, drop, replicate,
}
use aave_v3_flash_liquidator.Text.{Text, trim_prefix, to_lower, set_string}

-- The two bytes `0x`.
abbrev pub prefix_0x : Text
prefix_0x = b'0' ∷ b'x' ∷ []

unfoldable pub pad_left_zero : Text → ℕ → Text
pad_left_zero hex_str len =
    let clean = trim_prefix prefix_0x hex_str in
    if leb len (length clean) then clean else replicate (len - length clean) b'0' ++ clean

unfoldable pub parse_hex_address : Text → Text
parse_hex_address hex_str =
    let clean = trim_prefix prefix_0x hex_str in
    if leb 40 (length clean)
    then prefix_0x ++ to_lower (drop (length clean - 40) clean)
    else prefix_0x ++ to_lower clean

unfoldable pub parse_hex_big_int : Text → ℤ
unfolding set_string
parse_hex_big_int hex_str = elim (set_string 16 (trim_prefix prefix_0x hex_str)) [
  | none ↦ pos 0
  | some v ↦ v
]
