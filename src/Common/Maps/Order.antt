-- ===== src/Common/Maps/Order.antt =====
-- The order of the keys: every operation keeps the entries ascending.
use hhm_api_server_rs.Common.{
  ◌≡◌, refl, sym, inl, inr, true, false, none, List, [], ◌∷◌, Text, Text-Eq, text_eq_iff, All, ◌==◌,
  arith, Bool-cases,
}
use hhm_api_server_rs.Common.Maps.{BTreeMap, text_ltb, get, insert, extend}
use hhm_api_server_rs.Common.Maps.Laws.{latest, or_else-none}

text_ltb_trans : (r s t : Text) → text_ltb r s ≡ true → text_ltb s t ≡ true → text_ltb r t ≡ true
text_ltb_trans r s [] h k = ground (arith, h, k)
text_ltb_trans [] s (c ∷ t) h k = refl
text_ltb_trans (a ∷ r) [] (c ∷ t) h k = cc
text_ltb_trans (a ∷ r) (b ∷ s) (c ∷ t) h k = ground (arith, text_ltb_trans r s t, h, k)

text_ltb_other : (s t : Text) → text_ltb s t ≡ true → (s == t) ≡ false
text_ltb_other s [] h = ground (arith, h)
text_ltb_other [] (b ∷ t) h = refl
text_ltb_other (a ∷ s) (b ∷ t) h = ground (arith, text_ltb_other s t, h)

text_ltb_total : (s t : Text) → (s == t) ≡ false → text_ltb t s ≡ false → text_ltb s t ≡ true
text_ltb_total [] [] h k = cc
text_ltb_total (a ∷ s) [] h k = cc
text_ltb_total [] (b ∷ t) h k = refl
text_ltb_total (a ∷ s) (b ∷ t) h k = ground (arith, text_ltb_total s t, h, k)

module _ {ℓ} {V : Type ℓ} where
  -- Every key is above a text.
  abbrev pub IsAbove : Text → BTreeMap V → Type 0
  IsAbove key = All (λ entry. text_ltb key entry.0 ≡ true)

  abbrev pub IsSorted : BTreeMap V → Type 0
  IsSorted [] = Unit
  IsSorted ((key, _) ∷ entries) = IsAbove key entries × IsSorted entries

  IsAbove-trans :
      (low key : Text) (entries : BTreeMap V)
      → text_ltb low key ≡ true
      → IsAbove key entries
      → IsAbove low entries
  IsAbove-trans low key [] h above = tt
  IsAbove-trans low key ((k, v) ∷ entries) h (first, above) =
      (text_ltb_trans low key k h first, IsAbove-trans low key entries h above)

  insert-IsAbove :
      (low : Text) (entries : BTreeMap V) (name : Text) (value : V)
      → text_ltb low name ≡ true
      → IsAbove low entries
      → IsAbove low (insert entries name value)
  unfolding insert
  insert-IsAbove low [] name value h above = (h, tt)
  insert-IsAbove low ((k, old) ∷ entries) name value h (first, above) =
      elim (Bool-cases (k == name)) [
        | inl here ↦ rw here (h, above)
        | inr other ↦ elim (Bool-cases (text_ltb name k)) [
          | inl before ↦ rw (other, before) (h, (first, above))
          | inr after ↦ rw (other, after) (first, insert-IsAbove low entries name value h above)
        ]
      ]

  pub insert-IsSorted :
      (entries : BTreeMap V) (name : Text) (value : V)
      → IsSorted entries
      → IsSorted (insert entries name value)
  unfolding insert
  insert-IsSorted [] name value sorted = (tt, tt)
  insert-IsSorted ((k, old) ∷ entries) name value (above, sorted) = elim (Bool-cases (k == name)) [
    | inl here ↦ let same = (text_eq_iff k name).0 here in rw here ((rw same at above), sorted)
    | inr other ↦ elim (Bool-cases (text_ltb name k)) [
      | inl before ↦
          rw (other, before) ((before, IsAbove-trans name k entries before above), (above, sorted))
      | inr after ↦
          rw (other, after)
            (
              insert-IsAbove k entries name value (text_ltb_total k name other after) above,
              insert-IsSorted entries name value sorted,
            )
    ]
  ]

  pub extend-IsSorted :
      (more : List (Text × V)) (entries : BTreeMap V)
      → IsSorted entries
      → IsSorted (extend entries more)
  unfolding extend
  extend-IsSorted [] entries sorted = sorted
  extend-IsSorted ((name, value) ∷ more) entries sorted =
      extend-IsSorted more (insert entries name value) (insert-IsSorted entries name value sorted)

  get_above : (name : Text) (entries : BTreeMap V) → IsAbove name entries → get entries name ≡ none
  unfolding get
  get_above name [] above = refl
  get_above name ((k, v) ∷ entries) (first, above) = elim (Bool-cases (k == name)) [
    | inl here ↦
        let same = (text_eq_iff k name).0 here in
        let unlike = text_ltb_other name k first in
        ground (arith, unlike, (text_eq_iff name k).1 (sym same))
    | inr other ↦ rw other (get_above name entries above)
  ]

  -- In a sorted map the last entry of a name is its only one.
  pub latest_as_get :
      (entries : BTreeMap V) (name : Text)
      → IsSorted entries
      → latest entries name ≡ get entries name
  unfolding get
  latest_as_get [] name sorted = refl
  latest_as_get ((k, v) ∷ entries) name (above, sorted) =
      rw (latest_as_get entries name sorted) (elim (Bool-cases (k == name)) [
        | inl here ↦
            let same = (text_eq_iff k name).0 here in
            rw (here, get_above name entries (rw same at above)) refl
        | inr other ↦ rw other (or_else-none (get entries name))
      ])
