-- ===== src/Prelude/Keyed.antt =====
-- Maps whose values hold their own keys: values put at their keys and keys taken out, by loops.
use mathlib.Core.Path.{◌≡◌, refl, ap, ◌∙◌}
use mathlib.Core.Logic.{inl, inr}
use mathlib.Core.Bool.{Bool, true, false}
use mathlib.Core.Option.{Option, none, some}
use mathlib.Core.List.{List, [], ◌∷◌, map}
use native.Mathlib.Omega.{arith}
use Prim.Native.String.{String}
use meshp.Prelude.Tests.{if◌then◌else◌, Bool-cases, Option-cases}
use meshp.Prelude.Lists.{All}
use meshp.Prelude.Equality.{Eq, equal, string_eq, equal_iff, equal_refl}
use meshp.Prelude.Assoc.{
  Assoc, IsMap, lookup, insert, delete, lookup-insert, lookup-delete, insert-IsMap, delete-IsMap,
}

unfoldable pub elem {ℓ} : {K : Type ℓ} ⦃e : Eq K⦄ → K → List K → Bool
elem k [] = false
elem k (j ∷ js) = if equal j k then true else elem k js

module _ {V : Type 0} where
  -- The loop over the keys to remove.
  unfoldable pub delete_all : List String → Assoc String V → Assoc String V
  delete_all [] m = m
  delete_all (k ∷ ks) m = delete_all ks (delete k m)

  -- The loop over the values to put at their keys.
  unfoldable pub upsert_all : (V → String) → List V → Assoc String V → Assoc String V
  upsert_all key [] m = m
  upsert_all key (v ∷ vs) m = upsert_all key vs (insert (key v) v m)

  -- A field that is absent from a delta is unchanged.
  abbrev pub or_keep : Option V → Option V → Option V
  or_keep none old = old
  or_keep (some new) old = some new

  -- The last value of a list that goes to a key.
  unfoldable pub last_for : (V → String) → String → List V → Option V
  last_for key k [] = none
  last_for key k (v ∷ vs) = or_keep (last_for key k vs) (if equal (key v) k then some v else none)

  pub lookup-delete_all :
      (ks : List String) (m : Assoc String V) (j : String)
      → lookup j (delete_all ks m) ≡ (if elem j ks then none else lookup j m)
  unfolding delete_all elem
  lookup-delete_all [] m j = refl
  lookup-delete_all (k ∷ ks) m j =
      ground (arith, lookup-delete_all ks (delete k m) j, lookup-delete k j m)

  pub lookup-upsert_all :
      (key : V → String) (vs : List V) (m : Assoc String V) (j : String)
      → lookup j (upsert_all key vs m) ≡ or_keep (last_for key j vs) (lookup j m)
  unfolding upsert_all last_for
  lookup-upsert_all key [] m j = refl
  lookup-upsert_all key (v ∷ vs) m j =
      ground (arith, lookup-upsert_all key vs (insert (key v) v m) j, lookup-insert (key v) j v m)

  pub delete_all-IsMap : (ks : List String) (m : Assoc String V) → IsMap m → IsMap (delete_all ks m)
  unfolding delete_all
  delete_all-IsMap [] m h = h
  delete_all-IsMap (k ∷ ks) m h = delete_all-IsMap ks (delete k m) (delete-IsMap k m h)

  pub upsert_all-IsMap :
      (key : V → String) (vs : List V) (m : Assoc String V) → IsMap m → IsMap (upsert_all key vs m)
  unfolding upsert_all
  upsert_all-IsMap key [] m h = h
  upsert_all-IsMap key (v ∷ vs) m h =
      upsert_all-IsMap key vs (insert (key v) v m) (insert-IsMap (key v) v m h)

  -- Each value is at its own key.
  abbrev pub IsKeyed : (V → String) → Assoc String V → Type 0
  IsKeyed key m = (k : String) (v : V) → lookup k m ≡ some v → key v ≡ k

  pub last_for_key :
      (key : V → String) (k : String) (vs : List V) (v : V) → last_for key k vs ≡ some v → key v ≡ k
  unfolding last_for
  last_for_key key k [] v h = absurd (cc)
  last_for_key key k (u ∷ vs) v h = ground (arith, equal_iff (key u) k, last_for_key key k vs v)

  pub fold-IsKeyed :
      (key : V → String) (ks : List String) (vs : List V) (m : Assoc String V)
      → IsKeyed key m
      → IsKeyed key (upsert_all key vs (delete_all ks m))
  fold-IsKeyed key ks vs m h k v e = ground (
    arith,
    lookup-upsert_all key vs (delete_all ks m) k,
    lookup-delete_all ks m k,
    last_for_key key k vs v,
    h k v,
  )

  pub fold_view :
      (key : V → String) (ks : List String) (vs : List V) (m : Assoc String V) (k : String)
      → lookup k (upsert_all key vs (delete_all ks m))
        ≡ or_keep (last_for key k vs) (if elem k ks then none else lookup k m)
  fold_view key ks vs m k =
      lookup-upsert_all key vs (delete_all ks m) k
      ∙ ap (λ o. or_keep (last_for key k vs) o) (lookup-delete_all ks m k)

module _ {V : Type 0} where
  -- The values of a map, put at their keys again, give the map.
  pub last_for-values :
      (key : V → String) (m : Assoc String V) (k : String)
      → IsMap m
      → IsKeyed key m
      → last_for key k (map (λ x. x.1) m) ≡ lookup k m
  unfolding last_for lookup
  last_for-values key [] k u h = refl
  last_for-values key ((j, v) ∷ m) k u h =
      let own : key v ≡ j = h j v (rw (equal_refl j)) in
      ground (
        arith,
        own,
        equal_iff j k,
        u,
        last_for-values key m k u.1 (λ i w e. h i w (ground (arith, equal_iff j i, u))),
      )

  -- What holds of all values holds of the last one of a key.
  pub last_for-All {κ} :
      (P : V → Type κ) (key : V → String) (k : String) (vs : List V) (v : V)
      → All P vs
      → last_for key k vs ≡ some v
      → P v
  unfolding last_for
  last_for-All P key k [] v all e = absurd (cc e)
  last_for-All P key k (u ∷ vs) v all e = elim (Option-cases (last_for key k vs)) [
    | inr (w, later) ↦ last_for-All P key k vs v all.1 (later ∙ (rw later at e))
    | inl gone ↦ elim (Bool-cases (equal (key u) k)) [
      | inl here ↦ let same : u ≡ v = cc (rw (gone, here) at e) in rw same at all.0
      | inr other ↦ absurd (cc (rw (gone, other) at e))
    ]
  ]
