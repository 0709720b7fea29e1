-- ===== src/Common/Equality.antt =====
-- Decided equality as an interface: native numbers, strings, lists and options of such.
use Prim.Native.Nat.{ℕ}
use Prim.Native.String.{String}
use mathlib.Core.Path.{◌≡◌}
use mathlib.Core.Logic.{◌↔◌}
use mathlib.Core.Bool.{Bool, true, false, ◌&&◌}
use mathlib.Core.Option.{Option, none, some}
use mathlib.Core.List.{List, [], ◌∷◌}
use native.Mathlib.Omega.{arith}
use text.Mathlib.Text.{◌==◌ as string_eq}
use text.Mathlib.TextEquality.{eq_iff}
use hhm_api_server_rs.Common.Tests.{nat_eq, nat_eq_iff}

-- A test that decides equality.
pub record Comparable {ℓ} (T : Type ℓ) : Type ℓ where
  pub test : T → T → Bool
  pub decides : (x y : T) → (test x y ≡ true) ↔ (x ≡ y)

instance abbrev pub String-Eq : Comparable String
String-Eq = record { decides = eq_iff; test = string_eq }

infix 50 ◌==◌
abbrev pub ◌==◌ {ℓ} : {T : Type ℓ} ⦃c : Comparable T⦄ (x y : T) → Bool
◌==◌ ⦃c⦄ x y = c.test x y

instance abbrev pub ℕ-Eq : Comparable ℕ
ℕ-Eq = record { decides = nat_eq_iff; test = nat_eq }

module _ {ℓ} {A : Type ℓ} ⦃c : Comparable A⦄ where
  abbrev pub list_eq : List A → List A → Bool
  list_eq [] [] = true
  list_eq (x ∷ xs) (y ∷ ys) = x == y && list_eq xs ys
  list_eq _ _ = false

  pub list_eq_iff : (xs ys : List A) → (list_eq xs ys ≡ true) ↔ (xs ≡ ys)
  list_eq_iff [] [] = ground arith
  list_eq_iff [] (y ∷ ys) = ground arith
  list_eq_iff (x ∷ xs) [] = ground arith
  list_eq_iff (x ∷ xs) (y ∷ ys) = ground (arith, c.decides x y, list_eq_iff xs ys)

  -- `=` on a nullable column through `IS NOT DISTINCT FROM`: two absent values are equal.
  abbrev pub option_eq : Option A → Option A → Bool
  option_eq none none = true
  option_eq (some x) (some y) = x == y
  option_eq _ _ = false

  pub option_eq_iff : (x y : Option A) → (option_eq x y ≡ true) ↔ (x ≡ y)
  option_eq_iff none none = ground arith
  option_eq_iff none (some y) = ground arith
  option_eq_iff (some x) none = ground arith
  option_eq_iff (some x) (some y) = ground (arith, c.decides x y)

instance abbrev pub List-Eq {ℓ} : {A : Type ℓ} ⦃c : Comparable A⦄ → Comparable (List A)
List-Eq = record { test = list_eq; decides = list_eq_iff }

instance abbrev pub Option-Eq {ℓ} : {A : Type ℓ} ⦃c : Comparable A⦄ → Comparable (Option A)
Option-Eq = record { test = option_eq; decides = option_eq_iff }
