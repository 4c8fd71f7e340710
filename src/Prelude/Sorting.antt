-- ===== src/Prelude/Sorting.antt =====
-- Sorting by a strict weak order.
use mathlib.Core.Path.{◌≡◌, refl}
use mathlib.Core.Logic.{◌⊎◌, inl, inr}
use mathlib.Core.Bool.{Bool, true, false}
use mathlib.Core.List.{List, [], ◌∷◌}
use native.Mathlib.Omega.{arith}
use meshp.Prelude.Tests.{if◌then◌else◌, Bool-cases}
use meshp.Prelude.Lists.{All, length}
use meshp.Prelude.Order.{insert_by, sort_by}

-- The elements that pass a test, in their order.
unfoldable pub filter {ℓ} : {A : Type ℓ} → (A → Bool) → List A → List A
filter keep [] = []
filter keep (x ∷ xs) = let rest = filter keep xs in if keep x then x ∷ rest else rest

pub record StrictOrder {ℓ} {A : Type ℓ} (before : A → A → Bool) : Type ℓ where
  pub one_way : (x y : A) → before x y ≡ true → before y x ≡ false
  pub apart : (x y z : A) → before x y ≡ true → before z y ≡ false → before x z ≡ true

module _ {ℓ} {A : Type ℓ} (before : A → A → Bool) where
  -- No element comes before one that stands in front of it.
  abbrev pub IsSorted : List A → Type 0
  IsSorted [] = Unit
  IsSorted (x ∷ xs) = All (λ y. before y x ≡ false) xs × IsSorted xs

module _ {ℓ κ} {A : Type ℓ} (before : A → A → Bool) (P : A → Type κ) where
  holds_inserted : (x : A) (ys : List A) → P x → All P ys → All P (insert_by before x ys)
  unfolding insert_by
  holds_inserted x [] p all = (p, tt)
  holds_inserted x (y ∷ ys) p all = elim (Bool-cases (before x y)) [
    | inl h ↦ rw h (p, all)
    | inr h ↦ rw h (all.0, holds_inserted x ys p all.1)
  ]

  -- Sorting keeps what every element has.
  pub sort_by-All : (xs : List A) → All P xs → All P (sort_by before xs)
  unfolding sort_by
  sort_by-All [] all = tt
  sort_by-All (x ∷ xs) all = holds_inserted x (sort_by before xs) all.0 (sort_by-All xs all.1)

module _ {ℓ} {A : Type ℓ} (before : A → A → Bool) (o : StrictOrder before) where
  -- What stands behind y stands behind whatever comes before y.
  behind :
      (x y : A) (ys : List A)
      → before x y ≡ true
      → All (λ z. before z y ≡ false) ys
      → All (λ z. before z x ≡ false) ys
  behind x y [] h all = tt
  behind x y (z ∷ zs) h all = (o.one_way x z (o.apart x y z h all.0), behind x y zs h all.1)

  insert_by-IsSorted :
      (x : A) (ys : List A) → IsSorted before ys → IsSorted before (insert_by before x ys)
  unfolding insert_by
  insert_by-IsSorted x [] s = (tt, tt)
  insert_by-IsSorted x (y ∷ ys) s = elim (Bool-cases (before x y)) [
    | inl h ↦ rw h ((o.one_way x y h, behind x y ys h s.0), s)
    | inr h ↦
        rw h
          (holds_inserted before (λ z. before z y ≡ false) x ys h s.0, insert_by-IsSorted x ys s.1)
  ]

  pub sort_by-IsSorted : (xs : List A) → IsSorted before (sort_by before xs)
  unfolding sort_by
  sort_by-IsSorted [] = tt
  sort_by-IsSorted (x ∷ xs) = insert_by-IsSorted x (sort_by before xs) (sort_by-IsSorted xs)

  -- An element in front of all others is inserted there.
  insert_front :
      (x : A) (ys : List A) → All (λ z. before x z ≡ true) ys → insert_by before x ys ≡ x ∷ ys
  unfolding insert_by
  insert_front x [] all = refl
  insert_front x (y ∷ ys) all = rw all.0

  holds_filtered :
      (P : A → Type 0) (keep : A → Bool) (ys : List A) → All P ys → All P (filter keep ys)
  unfolding filter
  holds_filtered P keep [] all = tt
  holds_filtered P keep (y ∷ ys) all = elim (Bool-cases (keep y)) [
    | inl h ↦ rw h (all.0, holds_filtered P keep ys all.1)
    | inr h ↦ rw h (holds_filtered P keep ys all.1)
  ]

  ahead_of :
      (x y : A) (ys : List A)
      → before x y ≡ true
      → All (λ z. before z y ≡ false) ys
      → All (λ z. before x z ≡ true) ys
  ahead_of x y [] h all = tt
  ahead_of x y (z ∷ zs) h all = (o.apart x y z h all.0, ahead_of x y zs h all.1)

  filter-insert_by :
      (keep : A → Bool) (x : A) (ys : List A)
      → IsSorted before ys
      → filter keep (insert_by before x ys)
        ≡ (if keep x then insert_by before x (filter keep ys) else filter keep ys)
  unfolding filter insert_by
  filter-insert_by keep x [] s = refl
  filter-insert_by keep x (y ∷ ys) s = elim (Bool-cases (before x y)) [
    | inl h ↦
        let front =
          insert_front x (filter keep (y ∷ ys))
            (holds_filtered (λ z. before x z ≡ true) keep (y ∷ ys) (h, ahead_of x y ys h s.0)) in
        ground (arith, front)
    | inr h ↦ ground (arith, filter-insert_by keep x ys s.1)
  ]

  -- Sorting and leaving elements out commute.
  pub filter-sort_by :
      (keep : A → Bool) (xs : List A)
      → filter keep (sort_by before xs) ≡ sort_by before (filter keep xs)
  unfolding filter sort_by
  filter-sort_by keep [] = refl
  filter-sort_by keep (x ∷ xs) = ground (
    arith,
    filter-insert_by keep x (sort_by before xs) (sort_by-IsSorted xs),
    filter-sort_by keep xs,
  )

module _ {ℓ} {A : Type ℓ} (before : A → A → Bool) (p : A → Bool) where
  count_insert :
      (x : A) (ys : List A) → length (filter p (insert_by before x ys)) ≡ length (filter p (x ∷ ys))
  unfolding filter insert_by
  count_insert x [] = refl
  count_insert x (y ∷ ys) = ground (arith, count_insert x ys)

  -- Sorting keeps how many elements pass a test.
  pub length-filter-sort_by :
      (xs : List A) → length (filter p (sort_by before xs)) ≡ length (filter p xs)
  unfolding filter sort_by
  length-filter-sort_by [] = refl
  length-filter-sort_by (x ∷ xs) =
      ground (arith, count_insert x (sort_by before xs), length-filter-sort_by xs)

module _ {ℓ} {A : Type ℓ} (before : A → A → Bool) (o : StrictOrder before) where
  -- Two elements of which one comes before the other may be inserted either way.
  pub insert_by-swap :
      (x y : A) (zs : List A)
      → (before x y ≡ true) ⊎ (before y x ≡ true)
      → insert_by before x (insert_by before y zs) ≡ insert_by before y (insert_by before x zs)
  unfolding insert_by
  insert_by-swap x y [] d = ground (arith, o.one_way x y, o.one_way y x)
  insert_by-swap x y (z ∷ zs) d = ground (
    arith,
    o.one_way x y,
    o.one_way y x,
    o.apart x y z,
    o.apart y x z,
    o.apart x z y,
    o.apart y z x,
    insert_by-swap x y zs d,
  )
