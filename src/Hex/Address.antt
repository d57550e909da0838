-- ===== src/Hex/Address.antt =====
-- `parse_hex_address` of Hex: the form of an address.
use aave_v3_flash_liquidator.Prelude.{
  ℕ, ◌-◌, ◌≤◌, ◌≡◌, refl, [], ◌∷◌, ◌++◌, arith, leb, if◌then◌else◌, length, drop, length-map,
  length-append, Bool-cases, true, inl, inr, ap, length-drop, drop-append,
}
use aave_v3_flash_liquidator.Text.{Text, trim_prefix, to_lower, lower_byte}
use aave_v3_flash_liquidator.Hex.{prefix_0x, parse_hex_address}

lower_byte_idem : (c : ℕ) → lower_byte (lower_byte c) ≡ lower_byte c
lower_byte_idem c = ground arith

pub to_lower_idem : (s : Text) → to_lower (to_lower s) ≡ to_lower s
to_lower_idem [] = refl
to_lower_idem (c ∷ s) = cc (lower_byte_idem c, to_lower_idem s)

-- The last 40 bytes, or all of a shorter text.
abbrev last_40 : Text → Text
last_40 s = if leb 40 (length s) then drop (length s - 40) s else s

length-last_40 : (s : Text) → length (last_40 s) ≤ 40
length-last_40 s = ground (arith, length-drop (length s - 40) s)

last_40_short : (s : Text) → length s ≤ 40 → last_40 s ≡ s
last_40_short s h = elim (Bool-cases (leb 40 (length s))) [
  | inl full ↦ let e : length s ≡ 40 = ground arith in rw e
  | inr short ↦ rw short
]

last_40-append : (padding digits : Text) → length digits ≡ 40 → last_40 (padding ++ digits) ≡ digits
last_40-append padding digits h =
    let size = length-append padding digits in
    let long : leb 40 (length (padding ++ digits)) ≡ true = ground arith in
    let cut : length (padding ++ digits) - 40 ≡ length padding = omega arith in
    rw (long, cut) (drop-append padding digits)

parse_hex_address-eq :
    (s : Text) → parse_hex_address s ≡ prefix_0x ++ to_lower (last_40 (trim_prefix prefix_0x s))
unfolding parse_hex_address
parse_hex_address-eq s = elim (Bool-cases (leb 40 (length (trim_prefix prefix_0x s)))) [
  | inl full ↦ rw full
  | inr short ↦ rw short
]

trim_prefix-append : (s : Text) → trim_prefix prefix_0x (prefix_0x ++ s) ≡ s
unfolding trim_prefix
trim_prefix-append s = refl

-- An address comes out in lower case.
pub to_lower-parse_hex_address : (s : Text) → to_lower (parse_hex_address s) ≡ parse_hex_address s
to_lower-parse_hex_address s =
    rw parse_hex_address-eq
      (ap (λ t. prefix_0x ++ t) (to_lower_idem (last_40 (trim_prefix prefix_0x s))))

-- Reading an address that was read before changes nothing.
pub parse_hex_address_idem :
    (s : Text) → parse_hex_address (parse_hex_address s) ≡ parse_hex_address s
parse_hex_address_idem s =
    let t = last_40 (trim_prefix prefix_0x s) in
    let short : length (to_lower t) ≤ 40 =
      omega (arith, length-map t lower_byte, length-last_40 (trim_prefix prefix_0x s)) in
    rw
      (
        parse_hex_address-eq s,
        parse_hex_address-eq,
        trim_prefix-append,
        last_40_short (to_lower t) short,
      )
      (ap (λ u. prefix_0x ++ u) (to_lower_idem t))

-- From the text 0x, padding of any length and 40 digits, the address is 0x and the 40 digits in
-- lower case.
pub parse_hex_address-topic :
    (padding digits : Text)
    → length digits ≡ 40
    → parse_hex_address (prefix_0x ++ padding ++ digits) ≡ prefix_0x ++ to_lower digits
parse_hex_address-topic padding digits h =
    rw (parse_hex_address-eq, trim_prefix-append)
      (ap (λ u. prefix_0x ++ to_lower u) (last_40-append padding digits h))
