-- ===== src/Tests/Authz.antt =====
-- The roles at concrete permissions.
use meshp.Prelude.{◌&&◌, not, List, [], ◌∷◌, ◌≡◌, String}
use meshp.Prelude.Equality.{string_eq}
use meshp.Prelude.Keyed.{elem}
use meshp.Authz.Catalogue.{known, organization_roles_bind}
use meshp.Authz.Set.{new_set, allows}
use meshp.Authz.Builtin.{administrator_permissions}
use meshp.Authz.Builtin.Roles.{allows-administrator, reserved}

allows-administrator_example :
    allows (new_set administrator_permissions) organization_roles_bind
    ≡ (known organization_roles_bind && not (elem organization_roles_bind reserved))
allows-administrator_example = allows-administrator organization_roles_bind

abbrev asked : List String
asked = "network.read" ∷ "network.magic" ∷ "network.acl.write" ∷ []
