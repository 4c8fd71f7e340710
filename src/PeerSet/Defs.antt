-- ===== src/PeerSet/Defs.antt =====
-- internal/peerset/peerset.go: `Set` and its methods.
use meshp.Prelude.{
  ℕ, Bool, true, false, not, ◌&&◌, Option, none, some, List, [], ◌∷◌, map, String, ◌==◌,
  if◌then◌else◌, length,
}
use meshp.Prelude.Equality.{Eq, string_eq}
use meshp.Prelude.Assoc.{Assoc, lookup}
use meshp.Prelude.Keyed.{delete_all, upsert_all, or_keep}
use meshp.Prelude.Order.{string_lt, sort_by, entry_before}
use meshp.PeerSet.Wire.{Wire, same_message}

module _ {V : Type 0} where
  -- The values in the order of their keys.
  unfoldable pub sorted_values : Assoc String V → List V
  sorted_values m = map (λ x. x.1) (sort_by (entry_before string_lt) m)

  unfoldable pub sorted_keys : Assoc String V → List String
  sorted_keys m = map (λ x. x.0) (sort_by (entry_before string_lt) m)

  abbrev pub has : String → Assoc String V → Bool
  has k m = elim (lookup k m) [ none ↦ false | some v ↦ true ]

-- The loops of `Equal` over a map: each entry has an equal one in the other.
unfoldable pub all_in : {V : Type 0} ⦃e : Eq V⦄ → Assoc String V → Assoc String V → Bool
all_in [] other = true
all_in ((k, v) ∷ m) other = same_message (some v) (lookup k other) && all_in m other

module _ (w : Wire) where
  open w use {
    Peer, Tunnel, Relays, Filter, Dns, Group, Advertised, public_key, route_group_id, peer_eq,
    group_eq, tunnel_eq, relays_eq, filter_eq, dns_eq, advertised_eq,
  }

  pub record Set : Type 0 where
    pub peers : Assoc String Peer
    pub version : ℕ
    pub tunnel : Option Tunnel
    pub relays : Option Relays
    pub filter : Option Filter
    pub dns : Option Dns
    pub route_groups : Assoc String Group
    pub advertised : Option Advertised

  pub record StateDelta : Type 0 where
    pub from_version : ℕ
    pub to_version : ℕ
    pub upsert_peers : List Peer
    pub remove_peer_keys : List String
    pub tunnel : Option Tunnel
    pub relays : Option Relays
    pub filter : Option Filter
    pub dns : Option Dns
    pub route_groups : List Group
    pub removed_route_group_ids : List String
    pub advertised : Option Advertised

  abbrev pub new_set : Set
  new_set = record {
    peers = [];
    version = 0;
    tunnel = none;
    relays = none;
    filter = none;
    dns = none;
    route_groups = [];
    advertised = none;
  }

  -- A snapshot starts from nothing but the tunnel.
  unfoldable pub cleared : Set → Set
  cleared s = record s {
    peers = [];
    relays = none;
    filter = none;
    dns = none;
    route_groups = [];
    advertised = none;
  }

  -- The rest of `Apply`: removals before upserts, and absent fields left alone.
  unfoldable pub fold : StateDelta → Set → Set
  fold d s = record {
    peers = upsert_all public_key d.upsert_peers (delete_all d.remove_peer_keys s.peers);
    version = d.to_version;
    tunnel = or_keep d.tunnel s.tunnel;
    relays = or_keep d.relays s.relays;
    filter = or_keep d.filter s.filter;
    dns = or_keep d.dns s.dns;
    route_groups =
        upsert_all route_group_id d.route_groups
          (delete_all d.removed_route_group_ids s.route_groups);
    advertised = or_keep d.advertised s.advertised;
  }

  unfoldable pub apply : Option StateDelta → Set → Set
  unfolding cleared fold
  apply none s = s
  apply (some d) s = fold d (if d.from_version == 0 then cleared s else s)

  -- `Clone`, whose copies are the messages themselves.
  unfoldable pub clone : Set → Set
  clone s = record {
    peers = s.peers;
    version = s.version;
    tunnel = s.tunnel;
    relays = s.relays;
    filter = s.filter;
    dns = s.dns;
    route_groups = s.route_groups;
    advertised = s.advertised;
  }

  abbrev pub list_peers : Set → List Peer
  list_peers s = sorted_values s.peers

  abbrev pub list_route_groups : Set → List Group
  list_route_groups s = sorted_values s.route_groups

  abbrev pub keys : Set → List String
  keys s = sorted_keys s.peers

  -- `Equal` of two sets that are not nil; it does not look at the versions.
  unfoldable pub same_set : Set → Set → Bool
  same_set s t =
      length s.peers == length t.peers
      && (same_message ⦃e = tunnel_eq⦄ s.tunnel t.tunnel
          && (same_message ⦃e = relays_eq⦄ s.relays t.relays
              && (same_message ⦃e = dns_eq⦄ s.dns t.dns
                  && (same_message ⦃e = filter_eq⦄ s.filter t.filter
                      && (same_message ⦃e = advertised_eq⦄ s.advertised t.advertised
                          && (length s.route_groups == length t.route_groups
                              && (all_in ⦃e = group_eq⦄ s.route_groups t.route_groups
                                  && all_in ⦃e = peer_eq⦄ s.peers t.peers)))))))

  -- The test of the first loop of `Diff`: a peer that is missing or differs.
  abbrev pub outdated : Set → Peer → Bool
  outdated s p = not (same_message ⦃e = peer_eq⦄ (lookup (public_key p) s.peers) (some p))

  unfoldable pub keep_outdated : Set → List Peer → List Peer
  keep_outdated s [] = []
  keep_outdated s (p ∷ ps) =
      let rest = keep_outdated s ps in if outdated s p then p ∷ rest else rest

  unfoldable pub keep_unwanted : Set → List String → List String
  keep_unwanted want [] = []
  keep_unwanted want (k ∷ ks) =
      let rest = keep_unwanted want ks in if has k want.peers then rest else k ∷ rest

  -- The peers to add and the keys to remove.
  unfoldable pub diff : Set → Set → List Peer × List String
  unfolding keep_outdated keep_unwanted
  diff s want = (keep_outdated s (list_peers want), keep_unwanted want (keys s))
