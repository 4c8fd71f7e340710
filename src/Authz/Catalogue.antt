-- ===== src/Authz/Catalogue.antt =====
-- internal/authz/authz.go: the actions that may be allowed. Texts are native strings, compared by
-- their bytes as in Go.
use Prim.Native.String.{len, slice}
use meshp.Prelude.{◌-◌, Bool, true, false, ◌&&◌, List, [], ◌∷◌, String, leb, if◌then◌else◌}
use meshp.Prelude.Equality.{equal, string_eq}

abbrev pub Permission : Type 0
Permission = String

abbrev pub network_read : Permission
network_read = "network.read"

abbrev pub network_audit_read : Permission
network_audit_read = "network.audit.read"

abbrev pub network_devices_read : Permission
network_devices_read = "network.devices.read"

abbrev pub network_devices_revoke : Permission
network_devices_revoke = "network.devices.revoke"

abbrev pub network_enrollment_tokens_read : Permission
network_enrollment_tokens_read = "network.enrollment_tokens.read"

abbrev pub network_enrollment_tokens_write : Permission
network_enrollment_tokens_write = "network.enrollment_tokens.write"

abbrev pub network_dns_read : Permission
network_dns_read = "network.dns.read"

abbrev pub network_dns_write : Permission
network_dns_write = "network.dns.write"

abbrev pub network_acl_read : Permission
network_acl_read = "network.acl.read"

abbrev pub network_acl_write : Permission
network_acl_write = "network.acl.write"

abbrev pub network_egress_read : Permission
network_egress_read = "network.egress.read"

abbrev pub network_egress_write : Permission
network_egress_write = "network.egress.write"

abbrev pub network_routes_read : Permission
network_routes_read = "network.routes.read"

abbrev pub network_routes_write : Permission
network_routes_write = "network.routes.write"

abbrev pub network_routes_failover : Permission
network_routes_failover = "network.routes.failover"

abbrev pub organization_networks_read : Permission
organization_networks_read = "organization.networks.read"

abbrev pub organization_networks_create : Permission
organization_networks_create = "organization.networks.create"

abbrev pub organization_users_read : Permission
organization_users_read = "organization.users.read"

abbrev pub organization_users_write : Permission
organization_users_write = "organization.users.write"

abbrev pub organization_roles_read : Permission
organization_roles_read = "organization.roles.read"

abbrev pub organization_tokens_read : Permission
organization_tokens_read = "organization.tokens.read"

abbrev pub organization_tokens_write : Permission
organization_tokens_write = "organization.tokens.write"

abbrev pub organization_roles_bind : Permission
organization_roles_bind = "organization.roles.bind"

abbrev pub organization_devices_forget : Permission
organization_devices_forget = "organization.devices.forget"

pub record Entry : Type 0 where
  pub name : Permission
  pub description : String

abbrev entry : Permission → String → Entry
entry name description = record { name = name; description = description }

abbrev pub catalogue : List Entry
catalogue =
    entry network_read "See a network: its devices, their addresses, and what is wrong"
    ∷ entry network_audit_read "Read a network's audit trail"
    ∷ entry network_devices_read "List the devices enrolled in a network"
    ∷ entry network_devices_revoke "Remove a device from a network"
    ∷ entry network_enrollment_tokens_read "List a network's enrolment tokens"
    ∷ entry network_enrollment_tokens_write "Mint and revoke enrolment tokens"
    ∷ entry network_dns_read "Read a network's DNS records"
    ∷ entry network_dns_write "Add and remove DNS records"
    ∷ entry network_acl_read "Read a network's access policy and its history"
    ∷ entry network_acl_write "Publish a new access policy"
    ∷ entry network_egress_read "Read whether a network fails closed on egress"
    ∷ entry network_egress_write "Change whether a network fails closed on egress"
    ∷ entry network_routes_read "Read a network's route groups and who advertises them"
    ∷ entry network_routes_write "Create and remove route groups and advertisers"
    ∷ entry network_routes_failover "Choose which advertiser carries a route"
    ∷ entry organization_networks_read "List the networks in an organisation"
    ∷ entry organization_networks_create "Create a network"
    ∷ entry organization_users_read "List the people in an organisation"
    ∷ entry organization_users_write "Create, suspend, delete people and set their passwords"
    ∷ entry organization_roles_read "Read the roles an organisation has and who holds them"
    ∷ entry organization_tokens_read "List the API tokens in an organisation and whose they are"
    ∷ entry organization_tokens_write "Revoke somebody else's API token"
    ∷ entry organization_roles_bind "Grant and remove roles"
    ∷ entry organization_devices_forget "Erase a device and its keys from every network permanently"
    ∷ []

-- The loop of `Known`.
unfoldable pub named : String → List Entry → Bool
named name [] = false
named name (e ∷ es) = let rest = named name es in if equal e.name name then true else rest

unfoldable pub known : String → Bool
unfolding named
known name = named name catalogue

-- `strings.HasSuffix`
abbrev pub has_suffix : String → String → Bool
has_suffix s t = leb (len t) (len s) && equal (slice s (len s - len t) (len s)) t

abbrev pub is_read : Permission → Bool
is_read p = has_suffix p ".read"
