-- ===== src/Hex.antt =====
-- src/hex.rs: lower-case hexadecimal.
pub mod Laws
use hhm_api_server_rs.Common.{ℕ, zero, suc, ◌/◌, ◌%◌, List, [], ◌∷◌, Text, codes}

abbrev pub lower_hex_digits : Text
lower_hex_digits = codes "0123456789abcdef"

-- An entry of the table of digits; every index that `lower_hex` uses is below 16.
abbrev pub digit_at : Text → ℕ → ℕ
digit_at [] i = 0
digit_at (c ∷ cs) zero = c
digit_at (c ∷ cs) (suc i) = digit_at cs i

unfoldable pub lower_hex : List ℕ → Text
lower_hex [] = []
lower_hex (byte ∷ rest) =
    digit_at lower_hex_digits (byte / 16) ∷ digit_at lower_hex_digits (byte % 16) ∷ lower_hex rest
