-- ===== src/Common/Maps.antt =====
-- `BTreeMap` over texts: the entries in the order of their keys.
pub mod Laws
pub mod Order
use hhm_api_server_rs.Common.{
  ℕ, Bool, true, false, Option, none, some, List, [], ◌∷◌, Text, Text-Eq, ltb, nat_eq, ◌==◌,
  if◌then◌else◌,
}

abbrev pub BTreeMap {ℓ} : Type ℓ → Type ℓ
BTreeMap V = List (Text × V)

-- `Ord for str`: by the scalar values, which is the order of the UTF-8 bytes.
abbrev pub text_ltb : Text → Text → Bool
text_ltb _ [] = false
text_ltb [] (_ ∷ _) = true
text_ltb (a ∷ s) (b ∷ t) = let rest = text_ltb s t in if nat_eq a b then rest else ltb a b

module _ {ℓ} {V : Type ℓ} where
  unfoldable pub get : BTreeMap V → Text → Option V
  get [] name = none
  get ((key, value) ∷ entries) name =
      let rest = get entries name in if key == name then some value else rest

  unfoldable pub insert : BTreeMap V → Text → V → BTreeMap V
  insert [] name value = (name, value) ∷ []
  insert ((key, old) ∷ entries) name value =
      let rest = insert entries name value in
      if key == name
      then (name, value) ∷ entries
      else if text_ltb name key
      then (name, value) ∷ (key, old) ∷ entries
      else (key, old) ∷ rest

  unfoldable pub remove : BTreeMap V → Text → BTreeMap V
  remove [] name = []
  remove ((key, value) ∷ entries) name =
      let rest = remove entries name in if key == name then rest else (key, value) ∷ rest

  -- `extend`, in the order of iteration; `collect` extends the empty map.
  unfoldable pub extend : BTreeMap V → List (Text × V) → BTreeMap V
  unfolding insert
  extend entries [] = entries
  extend entries ((name, value) ∷ more) = extend (insert entries name value) more
