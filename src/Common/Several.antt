-- ===== src/Common/Several.antt =====
-- How many elements of a list satisfy a predicate, as a proposition on the list.
use Prim.Native.Nat.{ℕ, suc}
use mathlib.Core.Path.{◌≡◌, refl}
use mathlib.Core.Bool.{Bool, true}
use mathlib.Core.List.{List, [], ◌∷◌}
use mathlib.Core.Logic.{◌⊎◌, inl, inr}
use hhm_api_server_rs.Common.Tests.{Bool-cases}
use hhm_api_server_rs.Common.Lists.{count_where, modify_where}

module _ {A : Type 0} (P : A → Type 0) where
  -- There are `n` elements, at different places, that satisfy the predicate.
  abbrev pub Several : ℕ → List A → Type 0
  Several n [] = n ≡ 0
  Several n (x ∷ xs) = Several n xs ⊎ ((m : ℕ) × (n ≡ suc m) × P x × Several m xs)

  module _ (test : A → Bool) where
    pub Several-count :
        ((x : A) → test x ≡ true → P x) → (xs : List A) → Several (count_where test xs) xs
    Several-count sound [] = refl
    Several-count sound (x ∷ xs) = elim (Bool-cases (test x)) [
      | inl hit ↦ rw hit (inr (count_where test xs, refl, sound x hit, Several-count sound xs))
      | inr other ↦ rw other (inl (Several-count sound xs))
    ]

    -- What an update makes of the elements that it changes.
    pub Several-modify :
        (change : A → A)
        → ((x : A) → test x ≡ true → P (change x))
        → (xs : List A) → Several (count_where test xs) (modify_where test change xs)
    Several-modify change made [] = refl
    Several-modify change made (x ∷ xs) = elim (Bool-cases (test x)) [
      | inl hit ↦
          rw hit (inr (count_where test xs, refl, made x hit, Several-modify change made xs))
      | inr other ↦ rw other (inl (Several-modify change made xs))
    ]
