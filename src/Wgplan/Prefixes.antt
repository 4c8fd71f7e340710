-- ===== src/Wgplan/Prefixes.antt =====
-- internal/wgplan/wgplan.go: sets of prefixes, and the operations that turn one into another.
use meshp.Prelude.{Bool, none, some, List, [], ◌∷◌, ◌++◌, if◌then◌else◌, ◌==◌}
use meshp.Prelude.Assoc.{lookup}
use meshp.Prelude.Keyed.{elem}
use meshp.Prelude.Order.{sort_by, string_lt}
use meshp.Netip.{Prefix, prefix_eq}
use meshp.Wgplan.Types.{Texts, Peer, Interface, Op}

-- The first loop of `sortPrefixes`: each prefix once. A Go set is the list of its elements.
unfoldable pub once : List Prefix → List Prefix → List Prefix
once seen [] = []
once seen (p ∷ ps) =
    let rest = once (if elem p seen then seen else p ∷ seen) ps in
    if elem p seen then rest else p ∷ rest

abbrev pub by_text : Texts → Prefix → Prefix → Bool
by_text t p q = string_lt (t.prefix_text p) (t.prefix_text q)

unfoldable pub sort_prefixes : Texts → List Prefix → List Prefix
sort_prefixes t ps = sort_by (by_text t) (once [] ps)

-- One loop of `addPrefixOps`: an operation for each prefix that the other side does not have.
unfoldable pub ops_for_missing : List Prefix → (Prefix → Op) → List Prefix → List Op
ops_for_missing other kind [] = []
ops_for_missing other kind (p ∷ ps) =
    let rest = ops_for_missing other kind ps in if elem p other then rest else kind p ∷ rest

unfoldable pub prefix_ops :
    Texts → List Prefix → List Prefix → (Prefix → Op) → (Prefix → Op) → List Op
prefix_ops t have want remove_kind add_kind =
    ops_for_missing want remove_kind (sort_prefixes t have)
    ++ ops_for_missing have add_kind (sort_prefixes t want)

-- The inner loop of `wantRoutes`.
unfoldable pub routes_for : Interface → List Prefix → List Prefix
routes_for want [] = []
routes_for want (p ∷ ps) =
    let rest = routes_for want ps in
    if p.bits == 0
    then rest
    else elim (lookup p want.mapped) [ some mapped ↦ mapped ∷ rest | none ↦ p ∷ rest ]

unfoldable pub routes_of : Interface → List Peer → List Prefix
routes_of want [] = []
routes_of want (p ∷ ps) = routes_for want p.allowed_ips ++ routes_of want ps

abbrev pub want_routes : Interface → List Prefix
want_routes want = routes_of want want.peers
