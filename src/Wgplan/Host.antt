-- ===== src/Wgplan/Host.antt =====
-- The interface of one membership, as the operations of a plan are meant to change it: WireGuard
-- gives an allowed address to the peer configured last, a setting that a configuration does not
-- name stays as it is, and there is no route for a link that is down.
use meshp.Prelude.{
  Bool, true, false, not, ◌&&◌, Option, none, some, List, [], ◌∷◌, map, String, if◌then◌else◌,
}
use meshp.Prelude.Int.{ℤ, pos, int_lt, int_same}
use meshp.Prelude.Equality.{Eq, equal, string_eq}
use meshp.Prelude.Assoc.{Assoc, lookup, insert, delete}
use meshp.Prelude.Keyed.{elem}
use meshp.Prelude.Sorting.{filter}
use meshp.Netip.{Prefix, prefix_eq}
use meshp.Wgplan.Types.{
  Peer, Observed, Op, create_device, bring_up, destroy_device, set_device, remove_peer, set_peer,
  remove_address, add_address, remove_route, add_route,
}

-- internal/wglink/peer.go: what peerConfig sets of a wgtypes.PeerConfig, none for a nil pointer.
pub record PeerConfig : Type 0 where
  pub public_key : String
  pub allowed_ips : List Prefix
  pub endpoint : Option String
  pub preshared_key : Option String
  pub keepalive : Option ℤ

unfoldable pub peer_config : Peer → PeerConfig
peer_config p = record {
  public_key = p.public_key;
  allowed_ips = p.allowed_ips;
  endpoint = if equal p.endpoint "" then none else some p.endpoint;
  preshared_key = if equal p.preshared_key "" then none else some p.preshared_key;
  keepalive = if int_lt (pos 0) p.keepalive_seconds then some p.keepalive_seconds else none;
}

-- A peer that the interface has just been told of.
abbrev pub fresh : String → Peer
fresh key = record {
  public_key = key;
  allowed_ips = [];
  endpoint = "";
  relayed = false;
  preshared_key = "";
  keepalive_seconds = pos 0;
  has_handshake = false;
  handshake_age = pos 0;
}

abbrev pub or_old {ℓ} : {A : Type ℓ} → Option A → A → A
or_old none old = old
or_old (some new) old = new

-- A configuration that replaces the allowed addresses, as setPeer asks.
unfoldable pub configured : PeerConfig → Peer → Peer
configured c p = record p {
  public_key = c.public_key;
  allowed_ips = c.allowed_ips;
  endpoint = or_old c.endpoint p.endpoint;
  preshared_key = or_old c.preshared_key p.preshared_key;
  keepalive_seconds = or_old c.keepalive p.keepalive_seconds;
}

-- The interface of one membership.
pub record Host : Type 0 where
  pub is_there : Bool
  pub up : Bool
  pub private_key : String
  pub listen_port : ℤ
  pub mtu : ℤ
  pub addresses : List Prefix
  pub peers : Assoc String Peer
  pub routes : List Prefix

abbrev pub no_host : Host
no_host = record {
  is_there = false;
  up = false;
  private_key = "";
  listen_port = pos 0;
  mtu = pos 0;
  addresses = [];
  peers = [];
  routes = [];
}

-- What is left to a peer when others are given some prefixes.
unfoldable pub without_prefixes : List Prefix → Peer → Peer
without_prefixes taken p = record p { allowed_ips = filter (λ q. not (elem q taken)) p.allowed_ips }

unfoldable pub all_without : List Prefix → Assoc String Peer → Assoc String Peer
all_without taken [] = []
all_without taken ((k, p) ∷ m) = (k, without_prefixes taken p) ∷ all_without taken m

unfoldable pub configure : PeerConfig → Assoc String Peer → Assoc String Peer
configure c m =
    insert c.public_key (configured c (or_old (lookup c.public_key m) (fresh c.public_key)))
      (all_without c.allowed_ips m)

abbrev pub taken_out {ℓ} : {K : Type ℓ} ⦃e : Eq K⦄ → K → List K → List K
taken_out p ps = filter (λ q. not (equal q p)) ps

abbrev pub put_in {ℓ} : {K : Type ℓ} ⦃e : Eq K⦄ → K → List K → List K
put_in p ps = if elem p ps then ps else p ∷ ps

-- What the operating system chooses by itself: the MTU of a new interface, and the port of one that
-- is brought up without any.
pub record Choices : Type 0 where
  pub fresh_mtu : ℤ
  pub chosen_port : Host → ℤ

abbrev pub port_up : Choices → Host → ℤ
port_up os h = if int_same h.listen_port (pos 0) then os.chosen_port h else h.listen_port

abbrev pub when {ℓ} : {A : Type ℓ} → Bool → A → Option A
when true a = some a
when false a = none

-- One operation; none is an error, at which Apply stops.
unfoldable pub execute : Choices → Op → Host → Option Host
execute os create_device h =
    when (not h.is_there) (record no_host { is_there = true; mtu = os.fresh_mtu })
execute os (set_device d) h = when h.is_there (record h {
  private_key = d.private_key;
  listen_port = if int_same d.listen_port (pos 0) then h.listen_port else d.listen_port;
  mtu = if int_lt (pos 0) d.mtu then d.mtu else h.mtu;
})
execute os (remove_peer k) h = when h.is_there (record h { peers = delete k h.peers })
execute os (set_peer p) h = when h.is_there (record h { peers = configure (peer_config p) h.peers })
execute os (remove_address p) h =
    some (if h.is_there then record h { addresses = taken_out p h.addresses } else h)
execute os (add_address p) h = when h.is_there (record h { addresses = put_in p h.addresses })
execute os (remove_route p) h =
    some (if h.is_there then record h { routes = taken_out p h.routes } else h)
execute os (add_route p) h = when (h.is_there && h.up) (record h { routes = put_in p h.routes })
execute os bring_up h = when h.is_there (record h { up = true; listen_port = port_up os h })
execute os destroy_device h = some (if h.is_there then no_host else h)

abbrev pub and_then {ℓ} : {A : Type ℓ} → Option A → (A → Option A) → Option A
and_then none f = none
and_then (some a) f = f a

unfoldable pub run : Choices → List Op → Host → Option Host
run os [] h = some h
run os (op ∷ ops) h = and_then (execute os op h) (run os ops)

-- Observe of internal/wglink/wglink_linux.go, from what it reads of the interface.
unfoldable pub observe : Host → Observed
observe h = record {
  is_there = h.is_there;
  up = h.up;
  private_key = h.private_key;
  listen_port = h.listen_port;
  mtu = h.mtu;
  addresses = h.addresses;
  peers = map (λ x. x.1) h.peers;
  routes = h.routes;
}
