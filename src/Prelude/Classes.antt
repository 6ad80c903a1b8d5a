-- ===== src/Prelude/Classes.antt =====
-- Decidable equality as an interface: numbers, native strings, and lists of what has it.
use Prim.Native.Nat.{ℕ}
use Prim.Native.String.{String}
use mathlib.Core.Path.{◌≡◌, refl}
use mathlib.Core.Logic.{◌↔◌}
use mathlib.Core.Bool.{Bool, true, false, ◌&&◌}
use mathlib.Core.List.{List, [], ◌∷◌}
use native.Mathlib.Omega.{arith}
use text.Mathlib.Text.{◌==◌ as str_eq}
use text.Mathlib.TextEquality.{eq_iff}
use aethercore.Prelude.Tests.{nat_eq, nat_eq_iff}

pub record Eq {ℓ} (A : Type ℓ) : Type ℓ where
  pub equal : A → A → Bool
  pub equal_iff : (x y : A) → (equal x y ≡ true) ↔ (x ≡ y)

instance abbrev pub eq_string : Eq String
eq_string = record { equal = str_eq; equal_iff = eq_iff }

instance abbrev pub eq_nat : Eq ℕ
eq_nat = record { equal = nat_eq; equal_iff = nat_eq_iff }

infix 50 ◌==◌
abbrev pub ◌==◌ {ℓ} : {K : Type ℓ} ⦃same : Eq K⦄ → K → K → Bool
◌==◌ ⦃same⦄ = same.equal

module _ {ℓ} {A : Type ℓ} ⦃e : Eq A⦄ where
  abbrev pub list_eq : List A → List A → Bool
  list_eq [] [] = true
  list_eq (x ∷ xs) (y ∷ ys) = e.equal x y && list_eq xs ys
  list_eq _ _ = false

  list_eq→eq : (xs ys : List A) → list_eq xs ys ≡ true → xs ≡ ys
  list_eq→eq [] [] h = refl
  list_eq→eq [] (y ∷ ys) h = cc
  list_eq→eq (x ∷ xs) [] h = cc
  list_eq→eq (x ∷ xs) (y ∷ ys) h = ground (arith, e.equal_iff x y, list_eq→eq xs ys)

  list_eq_refl : (xs : List A) → list_eq xs xs ≡ true
  list_eq_refl [] = refl
  list_eq_refl (x ∷ xs) = ground (arith, e.equal_iff x x, list_eq_refl xs)

  pub list_eq_iff : (xs ys : List A) → (list_eq xs ys ≡ true) ↔ (xs ≡ ys)
  list_eq_iff xs ys = (list_eq→eq xs ys, λ p. ground (arith, list_eq_refl xs))

  instance abbrev pub eq_list : Eq (List A)
  eq_list = record { equal = list_eq; equal_iff = list_eq_iff }

  pub ==_refl : (a : A) → (a == a) ≡ true
  ==_refl a = (e.equal_iff a a).1 refl
