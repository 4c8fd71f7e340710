-- ===== src/Prelude/Equality.antt =====
-- Equality of keys as an interface: a test and what it decides.
use Prim.Native.Nat.{ℕ}
use Prim.Native.String.{String}
use mathlib.Core.Path.{◌≡◌, refl}
use mathlib.Core.Logic.{◌≢◌, ◌↔◌}
use mathlib.Core.Bool.{Bool, true, false, ◌&&◌}
use mathlib.Core.List.{List, [], ◌∷◌}
use native.Mathlib.Omega.{arith}
use text.Mathlib.Text.{◌==◌ as str_eq}
use text.Mathlib.TextEquality.{eq_iff}
use meshp.Prelude.Tests.{◌==◌, ==_iff}

pub record Eq {ℓ} (K : Type ℓ) : Type ℓ where
  pub same : K → K → Bool
  pub decides : (j k : K) → (same j k ≡ true) ↔ (j ≡ k)

abbrev pub equal {ℓ} : {A : Type ℓ} ⦃e : Eq A⦄ → A → A → Bool
equal ⦃e⦄ = e.same

pub equal_iff {ℓ} : {A : Type ℓ} ⦃e : Eq A⦄ → (a b : A) → (equal a b ≡ true) ↔ (a ≡ b)
equal_iff ⦃e⦄ = e.decides

instance abbrev pub nat_eq : Eq ℕ
nat_eq = record { same = ◌==◌; decides = ==_iff }

instance abbrev pub string_eq : Eq String
string_eq = record { same = str_eq; decides = eq_iff }

-- Arrays and slices of bytes.
abbrev pub same_bytes : List ℕ → List ℕ → Bool
same_bytes [] [] = true
same_bytes (x ∷ xs) (y ∷ ys) = x == y && same_bytes xs ys
same_bytes [] (y ∷ ys) = false
same_bytes (x ∷ xs) [] = false

pub same_bytes_iff : (xs ys : List ℕ) → (same_bytes xs ys ≡ true) ↔ (xs ≡ ys)
same_bytes_iff [] [] = (λ h. refl, λ h. refl)
same_bytes_iff (x ∷ xs) (y ∷ ys) = ground (arith, same_bytes_iff xs ys)
same_bytes_iff [] (y ∷ ys) = ground arith
same_bytes_iff (x ∷ xs) [] = ground arith

instance abbrev pub bytes_eq : Eq (List ℕ)
bytes_eq = record { same = same_bytes; decides = same_bytes_iff }

pub equal_refl {ℓ} : {K : Type ℓ} ⦃e : Eq K⦄ (k : K) → equal k k ≡ true
equal_refl k = (equal_iff k k).1 refl

pub equal_ne {ℓ} : {K : Type ℓ} ⦃e : Eq K⦄ (k j : K) → k ≢ j → equal k j ≡ false
equal_ne k j h = ground (arith, equal_iff k j)

pub ne_of_equal {ℓ} : {K : Type ℓ} ⦃e : Eq K⦄ (k j : K) → equal k j ≡ false → k ≢ j
ne_of_equal k j h = ground (arith, equal_iff k j)
