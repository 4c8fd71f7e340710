-- ===== src/Prelude/Order.antt =====
-- `sort.Slice` as an insertion sort, and the order of strings. Go's sort is not stable: it agrees
-- with this one where no two elements are equivalent, as with the keys of a map.
use Prim.Native.Nat.{Ordering}
use Prim.Native.String.{String, compare}
use mathlib.Core.Path.{◌≡◌, refl, ap, ◌∙◌}
use mathlib.Core.Bool.{Bool, true, false}
use mathlib.Core.Option.{none, some}
use mathlib.Core.List.{List, [], ◌∷◌}
use native.Mathlib.Omega.{arith}
use meshp.Prelude.Tests.{if◌then◌else◌}
use meshp.Prelude.Equality.{Eq, equal, equal_iff}
use meshp.Prelude.Assoc.{Assoc, IsMap, lookup}

abbrev pub is_lt : Ordering → Bool
is_lt Ordering.lt = true
is_lt _ = false

-- Go's `<` on strings compares their bytes, as this does.
unfoldable pub string_lt : String → String → Bool
string_lt a b = is_lt (compare a b)

module _ {ℓ} {A : Type ℓ} where
  unfoldable pub insert_by : (A → A → Bool) → A → List A → List A
  insert_by before x [] = x ∷ []
  insert_by before x (y ∷ ys) = if before x y then x ∷ y ∷ ys else y ∷ insert_by before x ys

  unfoldable pub sort_by : (A → A → Bool) → List A → List A
  unfolding insert_by
  sort_by before [] = []
  sort_by before (x ∷ xs) = insert_by before x (sort_by before xs)

-- The entries of a map in an order of their keys.
abbrev pub entry_before {ℓ κ} : {K : Type ℓ} {V : Type κ} → (K → K → Bool) → K × V → K × V → Bool
entry_before before x y = before x.0 y.0

module _ {ℓ κ} {K : Type ℓ} ⦃e : Eq K⦄ {V : Type κ} (before : K → K → Bool) where
  lookup-insert_by :
      (k j : K) (v : V) (m : Assoc K V)
      → lookup k m ≡ none
      → lookup j (insert_by (entry_before before) (k, v) m)
        ≡ (if equal k j then some v else lookup j m)
  unfolding lookup insert_by
  lookup-insert_by k j v [] h = refl
  lookup-insert_by k j v ((i, w) ∷ m) h =
      ground (arith, equal_iff k j, equal_iff i k, equal_iff i j, lookup-insert_by k j v m)

  insert_by-IsMap :
      (k : K) (v : V) (m : Assoc K V)
      → lookup k m ≡ none
      → IsMap m
      → IsMap (insert_by (entry_before before) (k, v) m)
  unfolding lookup insert_by
  insert_by-IsMap k v [] h w = (refl, tt)
  insert_by-IsMap k v ((i, w) ∷ m) h u =
      ground (arith, equal_iff i k, equal_iff k i, lookup-insert_by k i v m, insert_by-IsMap k v m)

  -- Sorting a map's entries keeps what it holds.
  pub sort-IsMap :
      (m : Assoc K V)
      → IsMap m
      → IsMap (sort_by (entry_before before) m)
        × ((j : K) → lookup j (sort_by (entry_before before) m) ≡ lookup j m)
  unfolding sort_by lookup
  sort-IsMap [] w = (tt, λ j. refl)
  sort-IsMap ((k, v) ∷ m) w =
      let (w', same) = sort-IsMap m w.1 in
      (
        insert_by-IsMap k v (sort_by (entry_before before) m) (same k ∙ w.0) w',
        λ j.
            lookup-insert_by k j v (sort_by (entry_before before) m) (same k ∙ w.0)
            ∙ ap (λ o. if equal k j then some v else o) (same j),
      )
