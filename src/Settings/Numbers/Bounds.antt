-- ===== src/Settings/Numbers/Bounds.antt =====
-- The range of the numbers that `parse_unsigned` returns.
use hhm_api_server_rs.Common.{ℕ, ◌+◌, ◌-◌, ◌*◌, ◌<◌, ◌≡◌, some, [], ◌∷◌, Text, arith}
use hhm_api_server_rs.Settings.Numbers.{parse_digits, parse_unsigned}

parse_digits-lt :
    (limit value : ℕ) (text : Text) {n : ℕ}
    → value < limit
    → parse_digits limit value text ≡ some n
    → n < limit
unfolding parse_digits
parse_digits-lt limit value [] small h = ground (arith, h)
parse_digits-lt limit value (c ∷ rest) {n} small h =
    ground (arith, parse_digits-lt limit (value * 10 + (c - 48)) rest {n = n})

-- A parsed number fits the type.
pub parse_unsigned-lt :
    (limit : ℕ) (text : Text) {n : ℕ} → 0 < limit → parse_unsigned limit text ≡ some n → n < limit
unfolding parse_unsigned
parse_unsigned-lt limit [] room h = ground arith
parse_unsigned-lt limit (c ∷ []) {n} room h =
    ground (arith, parse_digits-lt limit 0 (c ∷ []) {n = n})
parse_unsigned-lt limit (c ∷ d ∷ rest) {n} room h = ground (
  arith,
  parse_digits-lt limit 0 (c ∷ d ∷ rest) {n = n},
  parse_digits-lt limit 0 (d ∷ rest) {n = n},
)
