-- ===== src/Prelude/Assoc.antt =====
-- A Go map as a list of its entries, at most one to a key. The program never relies on the order
-- in which a map is walked, and no law here speaks of it.
use meshp.Prelude.Equality.{Eq, equal, equal_iff}
use Prim.Native.Nat.{◌+◌}
use mathlib.Core.Path.{◌≡◌, refl}
use mathlib.Core.Logic.{◌≢◌, ◌⊎◌, inl}
use mathlib.Core.Bool.{Bool}
use mathlib.Core.Option.{Option, none, some}
use mathlib.Core.List.{List, [], ◌∷◌}
use native.Mathlib.Omega.{arith}
use meshp.Prelude.Tests.{if◌then◌else◌}
use meshp.Prelude.Lists.{length}

abbrev pub Assoc {ℓ κ} : Type ℓ → Type κ → Type (ℓ ⊔ κ)
Assoc K V = List (K × V)

module _ {ℓ κ} {K : Type ℓ} ⦃e : Eq K⦄ {V : Type κ} where
  unfoldable pub lookup : K → Assoc K V → Option V
  lookup k [] = none
  lookup k ((key, value) ∷ rest) = if equal key k then some value else lookup k rest

  -- m[k] = v
  unfoldable pub insert : K → V → Assoc K V → Assoc K V
  insert k v [] = (k, v) ∷ []
  insert k v ((j, w) ∷ m) = if equal j k then (j, v) ∷ m else (j, w) ∷ insert k v m

  -- delete(m, k)
  unfoldable pub delete : K → Assoc K V → Assoc K V
  delete k [] = []
  delete k ((j, w) ∷ m) = let rest = delete k m in if equal j k then rest else (j, w) ∷ rest

  -- The entries whose key and value pass a test: a loop that deletes all others.
  unfoldable pub retain : (K → V → Bool) → Assoc K V → Assoc K V
  retain p [] = []
  retain p ((j, w) ∷ m) = let rest = retain p m in if p j w then (j, w) ∷ rest else rest

  -- No key has two entries.
  abbrev pub IsMap : Assoc K V → Type κ
  IsMap [] = Unit
  IsMap ((k, v) ∷ m) = (lookup k m ≡ none) × IsMap m

module _ {ℓ κ} {K : Type ℓ} ⦃e : Eq K⦄ {V : Type κ} where
  pub lookup-insert :
      (a b : K) (x : V) (rest : Assoc K V)
      → lookup b (insert a x rest) ≡ (if equal a b then some x else lookup b rest)
  unfolding lookup insert
  lookup-insert a b x [] = refl
  lookup-insert a b x ((c, y) ∷ rest) =
      ground (arith, equal_iff a b, equal_iff c a, equal_iff c b, lookup-insert a b x rest)

  pub lookup-delete :
      (a b : K) (rest : Assoc K V)
      → lookup b (delete a rest) ≡ (if equal a b then none else lookup b rest)
  unfolding lookup delete
  lookup-delete a b [] = ground arith
  lookup-delete a b ((c, y) ∷ rest) =
      ground (arith, equal_iff a b, equal_iff c a, equal_iff c b, lookup-delete a b rest)

  pub lookup-retain :
      (p : K → V → Bool) (j : K) (m : Assoc K V)
      → IsMap m
      → lookup j (retain p m)
        ≡ elim (lookup j m) [ none ↦ none | some v ↦ if p j v then some v else none ]
  unfolding lookup retain
  lookup-retain p j [] h = refl
  lookup-retain p j ((i, w) ∷ m) h = ground (arith, equal_iff i j, lookup-retain p j m h.1)

  pub insert-IsMap : (k : K) (v : V) (m : Assoc K V) → IsMap m → IsMap (insert k v m)
  unfolding lookup insert
  insert-IsMap k v [] h = (refl, tt)
  insert-IsMap k v ((i, w) ∷ m) h =
      ground (arith, lookup-insert k i v m, equal_iff i k, equal_iff k i, insert-IsMap k v m h.1)

  pub delete-IsMap : (k : K) (m : Assoc K V) → IsMap m → IsMap (delete k m)
  unfolding lookup delete
  delete-IsMap k [] h = tt
  delete-IsMap k ((i, w) ∷ m) h = ground (arith, lookup-delete k i m, delete-IsMap k m h.1)

  pub retain-IsMap : (p : K → V → Bool) (m : Assoc K V) → IsMap m → IsMap (retain p m)
  unfolding lookup retain
  retain-IsMap p [] h = tt
  retain-IsMap p ((i, w) ∷ m) h = ground (arith, lookup-retain p i m h.1, retain-IsMap p m h.1)

  pub length-delete :
      (k : K) (m : Assoc K V)
      → IsMap m
      → ((lookup k m ≡ none) × (length (delete k m) ≡ length m))
        ⊎ ((lookup k m ≢ none) × (length (delete k m) + 1 ≡ length m))
  unfolding lookup delete
  length-delete k [] u = inl (refl, refl)
  length-delete k ((j, v) ∷ m) u = ground (arith, equal_iff j k, length-delete k m u.1)

  -- Where an entry of a changed map comes from.
  pub insert_origin :
      (k : K) (v : V) (m : Assoc K V) (j : K) (w : V)
      → lookup j (insert k v m) ≡ some w
      → ((k ≡ j) × (v ≡ w)) ⊎ (lookup j m ≡ some w)
  insert_origin k v m j w h = ground (arith, lookup-insert k j v m, equal_iff k j)

  pub retain_origin :
      (p : K → V → Bool) (m : Assoc K V) (j : K) (w : V)
      → IsMap m
      → lookup j (retain p m) ≡ some w
      → lookup j m ≡ some w
  retain_origin p m j w u h = ground (arith, lookup-retain p j m u)

  pub delete_origin :
      (k : K) (m : Assoc K V) (j : K) (w : V) → lookup j (delete k m) ≡ some w → lookup j m ≡ some w
  delete_origin k m j w h = ground (arith, lookup-delete k j m, equal_iff k j)
