-- ===== src/Flags/Redaction.antt =====
-- src/flags.rs: what an error about unknown options may show.
use hhm_api_server_rs.Common.{
  ℕ, ◌≡◌, ◌≢◌, refl, ap, ap₂, inl, inr, false, ◌&&◌, some, List, [], ◌∷◌, ◌++◌, Text, any, map,
  nat_eq, split_from, arith, Bool-cases,
}
use hhm_api_server_rs.Common.Result.{Result, ok, err, panic, and_then, map_err}
use hhm_api_server_rs.Common.Maps.{extend}
use hhm_api_server_rs.Flags.{
  Parsed, Flags2Env, NamedTempFile, cannot_create, cannot_materialize, audit_failed,
  unknown_options, option_name, option_names, keys, is_nil, refuse, resolve_from,
}

-- Two options that differ in their value only: a long one after its first `=`, a short one after
-- its letter.
pub data SameName : Text → Text → Type 0 where
  same : (option : Text) → SameName option option
  long :
      (name v w : Text)
      → any (λ c. nat_eq c b'=') name ≡ false
      → SameName (b'-' ∷ b'-' ∷ name ++ b'=' ∷ v) (b'-' ∷ b'-' ∷ name ++ b'=' ∷ w)
  short :
      (a b : ℕ) (v w : Text)
      → (nat_eq b'-' a && nat_eq b'-' b) ≡ false
      → SameName (a ∷ b ∷ v) (a ∷ b ∷ w)

pub data SameNames : List Text → List Text → Type 0 where
  done : SameNames [] []
  next :
      {s t : Text} {ss ts : List Text}
      → SameName s t
      → SameNames ss ts
      → SameNames (s ∷ ss) (t ∷ ts)

before_equals :
    (name v : Text)
    → any (λ c. nat_eq c b'=') name ≡ false
    → (split_from (λ c. nat_eq c b'=') (name ++ b'=' ∷ v)).0 ≡ name
before_equals [] v h = refl
before_equals (c ∷ name) v h = elim (Bool-cases (nat_eq c b'=')) [
  | inl e ↦ ground (arith, e, h)
  | inr e ↦ rw e (ap (λ (rest : Text). c ∷ rest) (before_equals name v (ground (arith, e, h))))
]

option_name-SameName : {s t : Text} → SameName s t → option_name s ≡ option_name t
unfolding option_name
option_name-SameName (same option) = refl
option_name-SameName (long name v w h) = rw (before_equals name v h, before_equals name w h) refl
option_name-SameName (short a b v w h) = elim (Bool-cases (nat_eq b'-' a)) [
  | inl e ↦ let other : nat_eq b'-' b ≡ false = ground (arith, e, h) in rw (e, other) refl
  | inr e ↦ rw e refl
]

named_entries :
    {ss ts : List Text}
    → SameNames ss ts
    → map {B = Text × Unit {0}} (λ option. (option_name option, tt)) ss
      ≡ map {B = Text × Unit {0}} (λ option. (option_name option, tt)) ts
named_entries done = refl
named_entries (next e more) =
    ap₂ (λ (x : Text) (xs : List (Text × Unit {0})). (x, tt) ∷ xs) (option_name-SameName e)
      (named_entries more)

option_names-SameNames : {ss ts : List Text} → SameNames ss ts → option_names ss ≡ option_names ts
option_names-SameNames h =
    ap (λ (entries : List (Text × Unit {0})). keys (extend [] entries)) (named_entries h)

filled_both : {ss ts : List Text} → SameNames ss ts → ss ≢ [] → ts ≢ []
filled_both done h = h
filled_both (next e more) h = λ e'. cc

not_nil : (l : List Text) → l ≢ [] → is_nil l ≡ false
not_nil [] h = absurd (h refl)
not_nil (x ∷ l) h = refl

refuse_unknown :
    (parsed : Parsed)
    → parsed.unknown_options ≢ []
    → refuse parsed ≡ err (unknown_options (option_names parsed.unknown_options))
unfolding refuse
refuse_unknown parsed h = rw (not_nil parsed.unknown_options h) refl

and_then_cong :
    {E A B : Type 0} (m : Result E A) (f g : A → Result E B)
    → ((a : A) → m ≡ ok a → f a ≡ g a)
    → and_then m f ≡ and_then m g
and_then_cong (ok a) f g h = h a refl
and_then_cong (err e) f g h = refl
and_then_cong panic f g h = refl

module _ (parser : Flags2Env) (file : NamedTempFile) (contract : Text) where
  -- Two command lines with unknown options that differ in the options' values only are answered
  -- alike, whatever else stands on them and in the two environments: the answer shows no value.
  pub resolve_from_redacts :
      (argv other : List Text) (variables others : List (Text × Text)) {path : Text} {p q : Parsed}
      → file.path ≡ some path
      → parser.parse_structured argv path ≡ ok p
      → parser.parse_structured other path ≡ ok q
      → SameNames p.unknown_options q.unknown_options
      → p.unknown_options ≢ []
      → resolve_from parser file contract argv variables
        ≡ resolve_from parser file contract other others
  unfolding resolve_from
  resolve_from_redacts argv other variables others {path} {p} {q} placed first second names filled =
      and_then_cong (map_err cannot_create file.new) _ _ (λ _ _.
        and_then_cong (map_err cannot_materialize (file.write_all contract)) _ _ (λ _ _. rw placed (
          and_then_cong (map_err audit_failed (parser.audit_config path)) _ _ (λ _ _.
            rw
              (
                first,
                second,
                refuse_unknown p filled,
                refuse_unknown q (filled_both names filled),
                option_names-SameNames names,
              )
              refl))))
