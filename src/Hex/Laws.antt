-- ===== src/Hex/Laws.antt =====
-- src/hex.rs: what `lower_hex` writes.
use hhm_api_server_rs.Common.{
  ℕ, zero, suc, ◌+◌, ◌-◌, ◌*◌, ◌/◌, ◌%◌, ◌<◌, ◌≡◌, refl, ap, ap₂, ◌∙◌, true, List, [], ◌∷◌, Text,
  arith, bytes, len, length, all, All, encode_char, ltb, if◌then◌else◌,
}
use hhm_api_server_rs.Hex.{lower_hex, lower_hex_digits, digit_at}
use hhm_api_server_rs.Persistence.Context.{valid_digest, is_lower_hex_byte}

-- The value of a digit.
abbrev pub digit_value : ℕ → ℕ
digit_value c = if ltb c 97 then c - 48 else c - 87

-- The bytes that a hexadecimal text stands for.
abbrev pub decode_hex : Text → List ℕ
decode_hex [] = []
decode_hex (a ∷ []) = []
decode_hex (a ∷ b ∷ rest) = (digit_value a * 16 + digit_value b) ∷ decode_hex rest

abbrev pub IsByte : ℕ → Type 0
IsByte b = b < 256

-- A digit is a lower-case hexadecimal character of one byte, and its value is the index.
digit_at_ok :
    (i : ℕ)
    → i < 16
    → (digit_value (digit_at lower_hex_digits i) ≡ i)
      × (is_lower_hex_byte (digit_at lower_hex_digits i) ≡ true)
      × (encode_char (digit_at lower_hex_digits i) ≡ digit_at lower_hex_digits i ∷ [])
digit_at_ok zero h = (refl, refl, refl)
digit_at_ok (suc zero) h = (refl, refl, refl)
digit_at_ok (suc (suc zero)) h = (refl, refl, refl)
digit_at_ok (suc (suc (suc zero))) h = (refl, refl, refl)
digit_at_ok (suc (suc (suc (suc zero)))) h = (refl, refl, refl)
digit_at_ok (suc (suc (suc (suc (suc zero))))) h = (refl, refl, refl)
digit_at_ok (suc (suc (suc (suc (suc (suc zero)))))) h = (refl, refl, refl)
digit_at_ok (suc (suc (suc (suc (suc (suc (suc zero))))))) h = (refl, refl, refl)
digit_at_ok (suc (suc (suc (suc (suc (suc (suc (suc zero)))))))) h = (refl, refl, refl)
digit_at_ok (suc (suc (suc (suc (suc (suc (suc (suc (suc zero))))))))) h = (refl, refl, refl)
digit_at_ok (suc (suc (suc (suc (suc (suc (suc (suc (suc (suc zero)))))))))) h = (refl, refl, refl)
digit_at_ok (suc (suc (suc (suc (suc (suc (suc (suc (suc (suc (suc zero))))))))))) h =
    (refl, refl, refl)
digit_at_ok (suc (suc (suc (suc (suc (suc (suc (suc (suc (suc (suc (suc zero)))))))))))) h =
    (refl, refl, refl)
digit_at_ok (suc (suc (suc (suc (suc (suc (suc (suc (suc (suc (suc (suc (suc zero))))))))))))) h =
    (refl, refl, refl)
digit_at_ok (suc (suc (suc (suc (suc (suc (suc (suc (suc (suc (suc (suc (suc (suc zero))))))))))))))
      h =
    (refl, refl, refl)
digit_at_ok
      (suc (suc (suc (suc (suc (suc (suc (suc (suc (suc (suc (suc (suc (suc (suc zero)))))))))))))))
      h =
    (refl, refl, refl)
digit_at_ok
      (suc
        (suc (suc (suc (suc (suc (suc (suc (suc (suc (suc (suc (suc (suc (suc (suc n))))))))))))))))
      h =
    absurd (omega arith)

-- What `lower_hex` writes decodes to the bytes that it was given.
pub decode_hex-lower_hex : (xs : List ℕ) → All IsByte xs → decode_hex (lower_hex xs) ≡ xs
unfolding lower_hex
decode_hex-lower_hex [] h = refl
decode_hex-lower_hex (x ∷ xs) (h, hs) =
    let (value, _, _) = digit_at_ok (x / 16) (omega arith) in
    let (value', _, _) = digit_at_ok (x % 16) (omega arith) in
    ap₂ (λ (a : ℕ) (l : List ℕ). a ∷ l) (ap₂ (λ a b. a * 16 + b) value value' ∙ omega arith)
      (decode_hex-lower_hex xs hs)

bytes-lower_hex : (xs : List ℕ) → All IsByte xs → bytes (lower_hex xs) ≡ lower_hex xs
unfolding lower_hex
bytes-lower_hex [] h = refl
bytes-lower_hex (x ∷ xs) (h, hs) =
    let (_, _, one) = digit_at_ok (x / 16) (omega arith) in
    let (_, _, one') = digit_at_ok (x % 16) (omega arith) in rw (one, one', bytes-lower_hex xs hs)

length-lower_hex : (xs : List ℕ) → length (lower_hex xs) ≡ 2 * length xs
unfolding lower_hex
length-lower_hex [] = refl
length-lower_hex (x ∷ xs) = omega (arith, length-lower_hex xs)

all-lower_hex : (xs : List ℕ) → All IsByte xs → all is_lower_hex_byte (lower_hex xs) ≡ true
unfolding lower_hex
all-lower_hex [] h = refl
all-lower_hex (x ∷ xs) (h, hs) =
    let (_, lower, _) = digit_at_ok (x / 16) (omega arith) in
    let (_, lower', _) = digit_at_ok (x % 16) (omega arith) in
    rw (lower, lower') (all-lower_hex xs hs)

-- The hexadecimal text of 32 bytes is a digest that a submission context accepts.
pub lower_hex-valid_digest :
    (xs : List ℕ) → All IsByte xs → length xs ≡ 32 → valid_digest (lower_hex xs) ≡ true
lower_hex-valid_digest xs h n =
    let size : len (lower_hex xs) ≡ 64 =
      rw (bytes-lower_hex xs h) (length-lower_hex xs) ∙ ap (λ k. 2 * k) n in
    rw (size, bytes-lower_hex xs h) (all-lower_hex xs h)
