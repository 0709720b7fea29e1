-- ===== src/Common/Str.antt =====
-- Rust's `str`: a list of Unicode scalar values with its UTF-8 bytes, and the classes of bytes and
-- characters that the program tests.
use Prim.Native.Char.{code}
use Prim.Native.Nat.{ℕ, ◌+◌, ◌-◌, ◌/◌, ◌%◌}
use Prim.Native.String.{String}
use mathlib.Core.Path.{◌≡◌}
use mathlib.Core.Logic.{◌↔◌}
use mathlib.Core.Bool.{Bool, true, false, ◌||◌}
use mathlib.Core.Option
use mathlib.Core.Option.{Option, none, some}
use mathlib.Core.List.{List, [], ◌∷◌, ◌++◌, reverse}
use hhm_api_server_rs.Common.Tests.{ltb, leb, nat_eq, within, if◌then◌else◌}
use hhm_api_server_rs.Common.Lists.{length}
use hhm_api_server_rs.Common.Equality.{Comparable, ◌==◌, ℕ-Eq, list_eq, list_eq_iff}

abbrev pub Text : Type 0
Text = List ℕ

instance abbrev pub Text-Eq : Comparable Text
Text-Eq = record { test = list_eq; decides = list_eq_iff }

-- A text literal.
abbrev pub codes : String → Text
codes String.[] = []
codes (String.◌∷◌ c s) = code c ∷ codes s

-- The UTF-8 encoding of one scalar value.
abbrev pub encode_char : ℕ → List ℕ
encode_char c =
    if ltb c 0x80
    then c ∷ []
    else if ltb c 0x800
    then (0xc0 + c / 64) ∷ (0x80 + c % 64) ∷ []
    else if ltb c 0x10000
    then (0xe0 + c / 4096) ∷ (0x80 + c / 64 % 64) ∷ (0x80 + c % 64) ∷ []
    else (0xf0 + c / 262144) ∷ (0x80 + c / 4096 % 64) ∷ (0x80 + c / 64 % 64) ∷ (0x80 + c % 64) ∷ []

-- `str::bytes`.
abbrev pub bytes : Text → List ℕ
bytes [] = []
bytes (c ∷ s) = encode_char c ++ bytes s

-- `str::len`, in bytes.
abbrev pub len : Text → ℕ
len s = length (bytes s)

abbrev pub is_empty : Text → Bool
is_empty [] = true
is_empty (_ ∷ _) = false

abbrev pub is_ascii_digit : ℕ → Bool
is_ascii_digit b = within 48 57 b

abbrev pub is_ascii_uppercase : ℕ → Bool
is_ascii_uppercase b = within 65 90 b

abbrev pub is_ascii_lowercase : ℕ → Bool
is_ascii_lowercase b = within 97 122 b

abbrev pub is_ascii_alphanumeric : ℕ → Bool
is_ascii_alphanumeric b = is_ascii_digit b || is_ascii_uppercase b || is_ascii_lowercase b

abbrev pub is_ascii_hexdigit : ℕ → Bool
is_ascii_hexdigit b = is_ascii_digit b || within 65 70 b || within 97 102 b

-- `char::is_control`: the general category Cc.
abbrev pub is_control : ℕ → Bool
is_control c = ltb c 0x20 || within 0x7f 0x9f c

-- `char::is_whitespace`: the property White_Space.
abbrev pub is_whitespace : ℕ → Bool
is_whitespace c =
    within 9 13 c
    || nat_eq c 0x20
    || nat_eq c 0x85
    || nat_eq c 0xa0
    || nat_eq c 0x1680
    || within 0x2000 0x200a c
    || within 0x2028 0x2029 c
    || nat_eq c 0x202f
    || nat_eq c 0x205f
    || nat_eq c 0x3000

-- `char::to_ascii_lowercase`.
abbrev pub lower_char : ℕ → ℕ
lower_char c = if is_ascii_uppercase c then c + 32 else c

-- `str::to_ascii_lowercase`.
abbrev pub to_ascii_lowercase : Text → Text
to_ascii_lowercase [] = []
to_ascii_lowercase (c ∷ s) = lower_char c ∷ to_ascii_lowercase s

-- `str::trim_start`, and `str::trim` by way of the reversed text.
abbrev pub trim_start : Text → Text
trim_start [] = []
trim_start (c ∷ s) = let rest = trim_start s in if is_whitespace c then rest else c ∷ s

abbrev pub trim : Text → Text
trim s = reverse (trim_start (reverse (trim_start s)))

-- `str::split_once(sep)`.
abbrev pub split_once : ℕ → Text → Option (Text × Text)
split_once sep [] = none
split_once sep (c ∷ s) =
    let rest = split_once sep s in
    if nat_eq c sep then some ([], s) else Option.map (λ p. (c ∷ p.0, p.1)) rest

-- `str::split`: the part before the first separator, and the others.
abbrev pub split_from : (ℕ → Bool) → Text → Text × List Text
split_from is_separator [] = ([], [])
split_from is_separator (c ∷ s) =
    let rest = split_from is_separator s in
    if is_separator c then ([], rest.0 ∷ rest.1) else (c ∷ rest.0, rest.1)

abbrev pub split : (ℕ → Bool) → Text → List Text
split is_separator s = (split_from is_separator s).0 ∷ (split_from is_separator s).1

-- `u8::is_ascii_whitespace`.
abbrev pub is_ascii_whitespace : ℕ → Bool
is_ascii_whitespace c = nat_eq c 9 || nat_eq c 10 || nat_eq c 12 || nat_eq c 13 || nat_eq c 32

abbrev pub non_empty : List Text → List Text
non_empty [] = []
non_empty (t ∷ ts) = let rest = non_empty ts in if is_empty t then rest else t ∷ rest

-- `str::split_ascii_whitespace`.
abbrev pub split_ascii_whitespace : Text → List Text
split_ascii_whitespace s = non_empty (split is_ascii_whitespace s)

abbrev pub eq_ignore_ascii_case : Text → Text → Bool
eq_ignore_ascii_case s t = to_ascii_lowercase s == to_ascii_lowercase t

-- `str::strip_prefix`.
abbrev pub strip_prefix : Text → Text → Option Text
strip_prefix [] s = some s
strip_prefix (p ∷ ps) [] = none
strip_prefix (p ∷ ps) (c ∷ s) = let rest = strip_prefix ps s in if nat_eq p c then rest else none

abbrev pub starts_with : Text → Text → Bool
starts_with prefix s = elim (strip_prefix prefix s) [ none ↦ false | some _ ↦ true ]

-- `&s[..n]`: a prefix of n bytes; `none` where Rust panics, past the end or inside a character.
abbrev pub slice_to : Text → ℕ → Option Text
slice_to [] n = if nat_eq n 0 then some [] else none
slice_to (c ∷ s) n =
    let width = length (encode_char c) in
    let rest = slice_to s (n - width) in
    if nat_eq n 0 then some [] else if leb width n then Option.map (λ t. c ∷ t) rest else none

pub text_eq_iff : (s t : Text) → ((s == t) ≡ true) ↔ (s ≡ t)
text_eq_iff s t = list_eq_iff s t
