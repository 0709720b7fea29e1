-- ===== src/Common/Maps/Laws.antt =====
-- Lookups in a `BTreeMap` after each operation.
use hhm_api_server_rs.Common.{
  ◌≡◌, refl, sym, ap, ◌∙◌, inl, inr, Bool, true, false, Option, none, some, List, [], ◌∷◌, Text,
  Text-Eq, text_eq_iff, ◌==◌, arith, Bool-cases, if◌then◌else◌,
}
use hhm_api_server_rs.Common.Maps.{BTreeMap, get, insert, remove, extend, text_ltb}

apart : (k key name : Text) → (k == key) ≡ false → (k == name) ≡ true → (key == name) ≡ true → ⊥
apart k key name other a b =
    let same = (text_eq_iff k name).0 a ∙ sym ((text_eq_iff key name).0 b) in
    ground (arith, (text_eq_iff k key).1 same, other)

module _ {ℓ} {V : Type ℓ} where
  abbrev pub or_else : Option V → Option V → Option V
  or_else none other = other
  or_else (some value) other = some value

  pub or_else-none : (o : Option V) → or_else o none ≡ o
  or_else-none none = refl
  or_else-none (some v) = refl

  -- The last entry of a name.
  abbrev pub latest : List (Text × V) → Text → Option V
  latest [] name = none
  latest ((key, value) ∷ entries) name =
      or_else (latest entries name) (if key == name then some value else none)

  -- Two tests of which at most one passes, in either order.
  swap :
      (p q : Bool) (a b c : Option V)
      → (p ≡ true → q ≡ true → ⊥)
      → (if p then a else if q then b else c) ≡ (if q then b else if p then a else c)
  swap true true a b c h = absurd (h refl refl)
  swap true false a b c h = refl
  swap false true a b c h = refl
  swap false false a b c h = refl

  skip :
      (p : Bool) (a b c : Option V) → (if p then a else if p then b else c) ≡ (if p then a else c)
  skip true a b c = refl
  skip false a b c = refl

  or_else-if :
      (o : Option V) (p : Bool) (value : V) (other : Option V)
      → or_else o (if p then some value else other)
        ≡ or_else (or_else o (if p then some value else none)) other
  or_else-if (some v) p value other = refl
  or_else-if none true value other = refl
  or_else-if none false value other = refl

  pub get-insert :
      (entries : BTreeMap V) (key : Text) (value : V) (name : Text)
      → get (insert entries key value) name ≡ (if key == name then some value else get entries name)
  unfolding get insert
  get-insert [] key value name = refl
  get-insert ((k, old) ∷ entries) key value name = elim (Bool-cases (k == key)) [
    | inl here ↦
        let same = (text_eq_iff k key).0 here in
        rw (here, same) (elim (Bool-cases (key == name)) [ inl e ↦ rw e refl | inr e ↦ rw e refl ])
    | inr other ↦ elim (Bool-cases (text_ltb key k)) [
      | inl before ↦ rw (other, before) refl
      | inr after ↦
          rw (other, after, get-insert entries key value name)
            (swap (k == name) (key == name) _ _ _ (apart k key name other))
    ]
  ]

  pub get-remove :
      (entries : BTreeMap V) (key name : Text)
      → get (remove entries key) name ≡ (if key == name then none else get entries name)
  unfolding get remove
  get-remove [] key name = elim (Bool-cases (key == name)) [ inl e ↦ rw e refl | inr e ↦ rw e refl ]
  get-remove ((k, old) ∷ entries) key name = elim (Bool-cases (k == key)) [
    | inl here ↦
        let same = (text_eq_iff k key).0 here in
        rw (here, same, get-remove entries key name) (sym (skip (key == name) _ _ _))
    | inr other ↦
        rw (other, get-remove entries key name)
          (swap (k == name) (key == name) _ _ _ (apart k key name other))
  ]

  pub get-extend :
      (more : List (Text × V)) (entries : BTreeMap V) (name : Text)
      → get (extend entries more) name ≡ or_else (latest more name) (get entries name)
  unfolding extend
  get-extend [] entries name = refl
  get-extend ((key, value) ∷ more) entries name =
      get-extend more (insert entries key value) name
      ∙ ap (or_else (latest more name)) (get-insert entries key value name)
      ∙ or_else-if (latest more name) (key == name) value (get entries name)
