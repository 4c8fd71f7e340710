-- ===== src/Authz/Set/Granted.antt =====
-- What a set made of names allows, and that it comes back from its sorted names.
use meshp.Prelude.{◌&&◌, ◌||◌, List, [], ◌∷◌, ◌≡◌, refl, ◌∙◌, arith, String, map}
use meshp.Prelude.Equality.{equal_iff, string_eq}
use meshp.Prelude.Assoc.{Assoc, lookup, insert, lookup-insert}
use meshp.Prelude.Keyed.{elem}
use meshp.Prelude.Members.{elem-sort_by}
use meshp.Prelude.Order.{string_lt}
use meshp.Authz.Catalogue.{Permission, known}
use meshp.Authz.Set.{new_set, add_known, allows, sorted, is_present}

add_known_lem :
    (p : Permission) (names : List String) (have : Assoc Permission (Unit {0}))
    → is_present (lookup p (add_known names have))
      ≡ (is_present (lookup p have) || (elem p names && known p))
unfolding add_known elem
add_known_lem p [] have = ground arith
add_known_lem p (n ∷ names) have = ground (
  arith,
  equal_iff n p,
  lookup-insert n p tt have,
  add_known_lem p names (insert n tt have),
  add_known_lem p names have,
)

-- A set made of names allows a permission exactly if it is one of the names and in the catalogue.
pub allows-new_set :
    (names : List String) (p : Permission) → allows (new_set names) p ≡ (elem p names && known p)
unfolding allows new_set lookup
allows-new_set names p = add_known_lem p names []

elem-keys :
    (p : Permission) (have : Assoc Permission (Unit {0}))
    → elem p (map (λ e. e.0) have) ≡ is_present (lookup p have)
unfolding elem lookup
elem-keys p [] = refl
elem-keys p ((k, v) ∷ have) = ground (arith, elem-keys p have)

elem-sorted :
    (names : List String) (p : Permission)
    → elem p (sorted (new_set names)) ≡ allows (new_set names) p
unfolding sorted new_set allows
elem-sorted names p =
    elem-sort_by string_lt p (map (λ e. e.0) (add_known names []))
    ∙ elem-keys p (add_known names [])

-- The sorted names of a set that was made of names make a set that allows the same.
pub new_set-sorted :
    (names : List String) (p : Permission)
    → allows (new_set (sorted (new_set names))) p ≡ allows (new_set names) p
new_set-sorted names p =
    ground (
      arith,
      allows-new_set (sorted (new_set names)) p,
      elem-sorted names p,
      allows-new_set names p,
    )
