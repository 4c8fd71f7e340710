-- ===== src/Wgplan/Types.antt =====
-- internal/wgplan/wgplan.go: what a plan is made from, and its operations. A key is its text. A
-- duration is a number of nanoseconds.
use meshp.Prelude.{Bool, List, Option, String}
use meshp.Prelude.Int.{ℤ}
use meshp.Prelude.Assoc.{Assoc}
use meshp.Netip.{Addr, Prefix}

-- What Go's net/netip makes of texts: `Prefix.String`, by which prefixes are sorted, and the
-- address that `ParseAddrPort` reads, if it succeeds. Nothing is assumed of either.
pub record Texts : Type 0 where
  pub prefix_text : Prefix → String
  pub parse_addr_port : String → Option Addr

pub record Peer : Type 0 where
  pub public_key : String
  pub allowed_ips : List Prefix
  pub endpoint : String
  pub relayed : Bool
  pub preshared_key : String
  pub keepalive_seconds : ℤ
  pub has_handshake : Bool
  pub handshake_age : ℤ

pub record Interface : Type 0 where
  pub name : String
  pub private_key : String
  pub listen_port : ℤ
  pub mtu : ℤ
  pub addresses : List Prefix
  pub peers : List Peer
  pub mapped : Assoc Prefix Prefix

pub record Observed : Type 0 where
  pub is_there : Bool  -- `Exists`
  pub up : Bool
  pub private_key : String
  pub listen_port : ℤ
  pub mtu : ℤ
  pub addresses : List Prefix
  pub peers : List Peer
  pub routes : List Prefix

pub record Device : Type 0 where
  pub private_key : String
  pub listen_port : ℤ
  pub mtu : ℤ

-- `Op`: a constructor for each `OpKind`, with the field that is set for it. Of the peer of a
-- RemovePeer only the key is meaningful.
pub data Op : Type 0 where
  create_device bring_up destroy_device : Op
  set_device : Device → Op
  remove_peer : String → Op
  set_peer : Peer → Op
  remove_address add_address remove_route add_route : Prefix → Op
