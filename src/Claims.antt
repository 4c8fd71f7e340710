-- ===== src/Claims.antt =====
-- internal/tunnel/claims.go: what each membership of a device says it carries. The registry is its
-- map; the mutex makes each method one step. Methods on a nil registry do nothing and are left out.
pub mod Collision
use meshp.Prelude.{Bool, true, false, List, [], ◌∷◌, Option, none, some, String, if◌then◌else◌}
use meshp.Prelude.Equality.{equal, string_eq}
use meshp.Prelude.Assoc.{Assoc, lookup, insert, delete}
use meshp.Prelude.Keyed.{elem}
use meshp.Prelude.Order.{string_lt, sort_by}
use meshp.Netip.{Prefix, prefix_eq}

abbrev pub Claims : Type 0
Claims = Assoc String (List Prefix)

abbrev pub new_claims : Claims
new_claims = []

unfoldable pub declare : String → List Prefix → Claims → Claims
declare owner [] c = delete owner c
declare owner (p ∷ ps) c = insert owner (p ∷ ps) c

abbrev pub forget : String → Claims → Claims
forget owner c = delete owner c

-- The loop of `Contested` over the map.
unfoldable pub others : String → Prefix → Claims → List String
others owner prefix [] = []
others owner prefix ((other, prefixes) ∷ c) =
    let rest = others owner prefix c in
    if equal other owner then rest else if elem prefix prefixes then other ∷ rest else rest

unfoldable pub contested : String → Prefix → Claims → List String
unfolding others
contested owner prefix c = sort_by string_lt (others owner prefix c)
