-- ===== src/Tests/PeerSet.antt =====
-- Sets of peers over messages that are texts.
use meshp.Prelude.{◌≡◌, ◌↔◌, refl, arith, none, some, [], ◌∷◌, String}
use meshp.Prelude.Equality.{string_eq}
use meshp.Prelude.Assoc.{lookup}
use meshp.PeerSet.Wire.{Wire}
use meshp.PeerSet.Defs.{Set, StateDelta, new_set, apply, diff}
use meshp.PeerSet.Fold.{IsSound, apply-IsSound}
use meshp.PeerSet.Snapshot.{snapshot_keeps_tunnel}
use meshp.PeerSet.Convergence.{diff_converges}

-- A message is a text, which is its own key.
abbrev texts : Wire
texts = record {
  Peer = String;
  Tunnel = String;
  Relays = String;
  Filter = String;
  Dns = String;
  Group = String;
  Advertised = String;
  public_key = λ p. p;
  route_group_id = λ g. g;
  peer_eq = string_eq;
  tunnel_eq = string_eq;
  relays_eq = string_eq;
  filter_eq = string_eq;
  dns_eq = string_eq;
  group_eq = string_eq;
  advertised_eq = string_eq;
}

abbrev empty : Set texts
empty = new_set texts

abbrev snapshot : StateDelta texts
snapshot = record {
  from_version = 0;
  to_version = 4;
  upsert_peers = "b" ∷ "a" ∷ [];
  remove_peer_keys = "b" ∷ [];
  tunnel = some "t";
  relays = none;
  filter = some "f";
  dns = none;
  route_groups = "g" ∷ [];
  removed_route_group_ids = [];
  advertised = none;
}

empty-IsSound : IsSound texts empty
unfolding lookup
empty-IsSound = record {
  peers_map = tt;
  peers_keyed = λ k v h. cc;
  groups_map = tt;
  groups_keyed = λ k v h. cc;
}

abbrev told : Set texts
told = apply texts (some snapshot) empty

told-IsSound : IsSound texts told
told-IsSound = apply-IsSound texts (some snapshot) empty empty-IsSound

abbrev bare : StateDelta texts
bare = record snapshot { tunnel = none }

abbrev tunnelled : Set texts
tunnelled = record empty { tunnel = some "old" }

snapshot_keeps_tunnel_example :
    (apply texts (some bare) empty ≡ apply texts (some bare) tunnelled)
    ↔ (empty.tunnel ≡ tunnelled.tunnel)
snapshot_keeps_tunnel_example = snapshot_keeps_tunnel texts bare empty tunnelled refl refl

abbrev change : StateDelta texts
change = record snapshot {
  from_version = 4;
  to_version = 5;
  upsert_peers = (diff texts empty told).0;
  remove_peer_keys = (diff texts empty told).1;
}

diff_converges_example : lookup "a" (apply texts (some change) empty).peers ≡ lookup "a" told.peers
diff_converges_example =
    diff_converges texts change empty told "a" empty-IsSound told-IsSound (omega arith) refl refl
