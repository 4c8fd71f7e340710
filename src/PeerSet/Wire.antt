-- ===== src/PeerSet/Wire.antt =====
-- The messages of the control channel, as far as internal/peerset looks into them: the generated
-- protobuf types stay abstract, with the key of a peer, the id of a route group, and `proto.Equal`,
-- of which it is assumed that it holds of equal messages only. `proto.CloneOf` gives an equal
-- message, and values cannot be changed here, so that a clone is the message itself.
use native.Mathlib.Omega.{arith}
use meshp.Prelude.{◌≡◌, ◌↔◌, Bool, true, false, Option, none, some, String}
use meshp.Prelude.Equality.{Eq, equal, equal_iff}

pub record Wire : Type 1 where
  pub Peer : Type 0
  pub Tunnel : Type 0
  pub Relays : Type 0
  pub Filter : Type 0
  pub Dns : Type 0
  pub Group : Type 0
  pub Advertised : Type 0
  pub public_key : Peer → String
  pub route_group_id : Group → String
  pub peer_eq : Eq Peer
  pub tunnel_eq : Eq Tunnel
  pub relays_eq : Eq Relays
  pub filter_eq : Eq Filter
  pub dns_eq : Eq Dns
  pub group_eq : Eq Group
  pub advertised_eq : Eq Advertised

-- `proto.Equal` of two pointers that may be nil.
abbrev pub same_message : {A : Type 0} ⦃e : Eq A⦄ → Option A → Option A → Bool
same_message none none = true
same_message (some a) (some b) = equal a b
same_message _ _ = false

pub same_message_iff :
    {A : Type 0} ⦃e : Eq A⦄ (a b : Option A) → (same_message a b ≡ true) ↔ (a ≡ b)
same_message_iff none none = ground arith
same_message_iff none (some b) = ground arith
same_message_iff (some a) none = ground arith
same_message_iff (some a) (some b) = ground (arith, equal_iff a b)
