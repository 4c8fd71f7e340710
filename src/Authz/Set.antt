-- ===== src/Authz/Set.antt =====
-- internal/authz/authz.go: a set of permissions.
pub mod Granted
use Prim.Native.String.{len, slice}
use meshp.Prelude.{
  ◌-◌, Bool, true, false, not, ◌&&◌, List, [], ◌∷◌, ◌++◌, Option, none, some, String, leb, ◌==◌,
  if◌then◌else◌, length, map,
}
use meshp.Prelude.Equality.{equal, string_eq}
use meshp.Prelude.Assoc.{Assoc, lookup, insert}
use meshp.Prelude.Order.{string_lt, sort_by}
use meshp.Prelude.Sorting.{filter}
use meshp.Authz.Catalogue.{
  Permission, Entry, catalogue, known, is_read, network_devices_revoke,
  network_enrollment_tokens_write, network_routes_failover, network_dns_write, network_acl_write,
  network_egress_write, network_routes_write, organization_networks_create,
  organization_devices_forget,
}

-- `have` is a map to the empty struct.
pub record Set : Type 0 where
  pub all : Bool
  pub have : Assoc Permission (Unit {0})

abbrev pub all_permissions : Set
all_permissions = record { all = true; have = [] }

-- The loop of `NewSet`.
unfoldable pub add_known : List String → Assoc Permission (Unit {0}) → Assoc Permission (Unit {0})
add_known [] have = have
add_known (name ∷ names) have = add_known names (if known name then insert name tt have else have)

unfoldable pub new_set : List String → Set
unfolding add_known
new_set names = record { all = false; have = add_known names [] }

abbrev pub is_present : Option (Unit {0}) → Bool
is_present none = false
is_present (some _) = true

unfoldable pub allows : Set → Permission → Bool
allows s p = if s.all then true else is_present (lookup p s.have)

abbrev pub unlimited : Set → Bool
unlimited s = s.all

unfoldable pub empty : Set → Bool
empty s = not s.all && length s.have == 0

unfoldable pub sorted : Set → List String
sorted s = sort_by string_lt (map (λ e. e.0) s.have)
