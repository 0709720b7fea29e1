-- ===== src/Settings/Numbers.antt =====
-- The numbers that settings are parsed to: Rust's unsigned integers, and `f64` by its bits.
pub mod Bounds
use hhm_api_server_rs.Common.{
  ℕ, ◌+◌, ◌-◌, ◌*◌, ◌/◌, ◌%◌, ◌^◌, Bool, true, false, not, ◌&&◌, Option, none, some, List, [], ◌∷◌,
  Text, is_ascii_digit, ltb, nat_eq, if◌then◌else◌,
}

-- The digits that remain, by the value so far; `none` on another character or past the type.
unfoldable pub parse_digits : ℕ → ℕ → Text → Option ℕ
parse_digits limit value [] = some value
parse_digits limit value (c ∷ rest) =
    let next = value * 10 + (c - 48) in
    let result = parse_digits limit next rest in
    if not (is_ascii_digit c) then none else if ltb next limit then result else none

abbrev pub some_digits : ℕ → Text → Option ℕ
some_digits limit [] = none
some_digits limit (c ∷ rest) = parse_digits limit 0 (c ∷ rest)

-- `str::parse` to an unsigned integer below `limit`: one sign `+` at most, then digits.
unfoldable pub parse_unsigned : ℕ → Text → Option ℕ
parse_unsigned limit [] = none
parse_unsigned limit (c ∷ rest) =
    if nat_eq c b'+' then some_digits limit rest else some_digits limit (c ∷ rest)

abbrev pub f64_one : ℕ
f64_one = 1023 * 2 ^ 52

-- `f64::is_finite`: the exponent is not all ones.
abbrev pub is_finite : ℕ → Bool
is_finite bits = not (nat_eq (bits / 2 ^ 52 % 2048) 2047)

-- `value > 0.0` for a finite value: the sign bit is clear, and it is not zero.
abbrev pub is_positive : ℕ → Bool
is_positive bits = ltb 0 bits && ltb bits (2 ^ 63)
