-- ===== src/Prelude/Members.antt =====
-- Membership in a list, as a test.
use mathlib.Core.Path.{◌≡◌, refl}
use mathlib.Core.Bool.{Bool, true, false, ◌&&◌, ◌||◌}
use mathlib.Core.List.{List, [], ◌∷◌, ◌++◌}
use native.Mathlib.Omega.{arith}
use meshp.Prelude.Tests.{if◌then◌else◌}
use meshp.Prelude.Equality.{Eq, equal, equal_iff}
use meshp.Prelude.Keyed.{elem}
use meshp.Prelude.Order.{insert_by, sort_by}
use meshp.Prelude.Sorting.{filter}

-- Whether a test holds of an element.
unfoldable pub any_is {ℓ} : {A : Type ℓ} → (A → Bool) → List A → Bool
any_is test [] = false
any_is test (x ∷ xs) = test x || any_is test xs

pub any_is-append {ℓ} :
    {A : Type ℓ} (test : A → Bool) (xs ys : List A)
    → any_is test (xs ++ ys) ≡ (any_is test xs || any_is test ys)
unfolding any_is
any_is-append test [] ys = refl
any_is-append test (x ∷ xs) ys = ground (arith, any_is-append test xs ys)

module _ {ℓ} {K : Type ℓ} ⦃e : Eq K⦄ where
  pub elem-append : (x : K) (xs ys : List K) → elem x (xs ++ ys) ≡ (elem x xs || elem x ys)
  unfolding elem
  elem-append x [] ys = refl
  elem-append x (y ∷ xs) ys = ground (arith, elem-append x xs ys)

  pub elem-filter : (p : K → Bool) (x : K) (xs : List K) → elem x (filter p xs) ≡ (p x && elem x xs)
  unfolding elem filter
  elem-filter p x [] = ground arith
  elem-filter p x (y ∷ xs) = ground (arith, equal_iff y x, elem-filter p x xs)

  elem-insert_by :
      (before : K → K → Bool) (x y : K) (xs : List K)
      → elem x (insert_by before y xs) ≡ (if equal y x then true else elem x xs)
  unfolding elem insert_by
  elem-insert_by before x y [] = refl
  elem-insert_by before x y (z ∷ xs) = ground (arith, elem-insert_by before x y xs)

  pub elem-sort_by :
      (before : K → K → Bool) (x : K) (xs : List K) → elem x (sort_by before xs) ≡ elem x xs
  unfolding elem sort_by
  elem-sort_by before x [] = refl
  elem-sort_by before x (y ∷ xs) =
      ground (arith, elem-insert_by before x y (sort_by before xs), elem-sort_by before x xs)
