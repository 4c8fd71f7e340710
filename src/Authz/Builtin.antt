-- ===== src/Authz/Builtin.antt =====
-- internal/authz/builtin.go: the roles that every organisation has.
pub mod Roles
use Prim.Native.String.{len, slice}
use meshp.Prelude.{
  ◌-◌, Bool, true, false, not, ◌&&◌, List, [], ◌∷◌, ◌++◌, Option, none, some, String, leb, ◌==◌,
  if◌then◌else◌, length, map,
}
use meshp.Prelude.Equality.{equal, string_eq}
use meshp.Prelude.Assoc.{Assoc, lookup, insert}
use meshp.Prelude.Order.{string_lt, sort_by}
use meshp.Prelude.Sorting.{filter}
use meshp.Authz.Catalogue.{
  Permission, Entry, catalogue, known, is_read, network_devices_revoke,
  network_enrollment_tokens_write, network_routes_failover, network_dns_write, network_acl_write,
  network_egress_write, network_routes_write, organization_networks_create,
  organization_devices_forget,
}

pub record Builtin : Type 0 where
  pub slug : String
  pub name : String
  pub description : String
  pub permissions : List Permission

abbrev pub role_reader : String
role_reader = "reader"

abbrev pub role_operator : String
role_operator = "operator"

abbrev pub role_administrator : String
role_administrator = "administrator"

abbrev pub role_owner : String
role_owner = "owner"

abbrev pub names : List Entry → List Permission
names [] = []
names (e ∷ es) = e.name ∷ names es

abbrev pub reader_permissions : List Permission
reader_permissions = filter is_read (names catalogue)

abbrev pub operator_permissions : List Permission
operator_permissions =
    reader_permissions
    ++ network_devices_revoke ∷ network_enrollment_tokens_write ∷ network_routes_failover ∷ []

abbrev pub administrator_permissions : List Permission
administrator_permissions =
    operator_permissions
    ++ network_dns_write ∷ network_acl_write ∷ network_egress_write ∷ network_routes_write
      ∷ organization_networks_create ∷ organization_devices_forget ∷ []

abbrev pub owner_permissions : List Permission
owner_permissions = names catalogue

abbrev pub builtins : List Builtin
builtins =
    record {
      slug = role_reader;
      name = "Reader";
      description =
          "Sees everything this control plane shows, including who else has an account, and changes nothing.";
      permissions = reader_permissions;
    }
    ∷ record {
      slug = role_operator;
      name = "Operator";
      description =
          "Adds and removes devices, and moves traffic between advertisers. Cannot change the access policy, DNS, or which routes exist.";
      permissions = operator_permissions;
    }
    ∷ record {
      slug = role_administrator;
      name = "Administrator";
      description =
          "Configures networks completely. Cannot create accounts, grant roles, or revoke anybody else's credentials.";
      permissions = administrator_permissions;
    }
    ∷ record {
      slug = role_owner;
      name = "Owner";
      description = "Everything, including deciding who may act.";
      permissions = owner_permissions;
    }
    ∷ []

-- The loop of `IsBuiltinSlug`.
unfoldable pub has_slug : String → List Builtin → Bool
has_slug slug [] = false
has_slug slug (b ∷ bs) = let rest = has_slug slug bs in if equal b.slug slug then true else rest

abbrev pub is_builtin_slug : String → Bool
is_builtin_slug slug = has_slug slug builtins
