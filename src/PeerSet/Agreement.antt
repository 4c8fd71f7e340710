-- ===== src/PeerSet/Agreement.antt =====
-- `Equal` compares contents: it holds exactly of sets with the same peers, groups and configuration.
use meshp.Prelude.{
  ◌≡◌, ◌⊎◌, ◌↔◌, inr, refl, arith, Bool, true, ◌&&◌, none, some, [], ◌∷◌, String, length, ==_iff,
}
use meshp.Prelude.Equality.{Eq, string_eq, equal_iff, equal_refl}
use meshp.Prelude.Assoc.{Assoc, IsMap, lookup, delete, lookup-delete, length-delete, delete-IsMap}
use meshp.PeerSet.Wire.{Wire, same_message_iff}
use meshp.PeerSet.Defs.{Set, all_in, same_set}
use meshp.PeerSet.Fold.{IsSound}

module _ {V : Type 0} ⦃e : Eq V⦄ where
  all_in-delete :
      (k : String) (m other : Assoc String V)
      → lookup k m ≡ none
      → all_in m other ≡ true
      → all_in m (delete k other) ≡ true
  unfolding all_in lookup
  all_in-delete k [] other gone h = refl
  all_in-delete k ((j, v) ∷ m) other gone h =
      ground (arith, all_in-delete k m other, lookup-delete k j other, equal_iff j k, equal_iff k j)

  all_in_first :
      (k : String) (v : V) (m other : Assoc String V)
      → all_in ((k, v) ∷ m) other ≡ true
      → (lookup k other ≡ some v) × (all_in m other ≡ true)
  unfolding all_in
  all_in_first k v m other h = ground (arith, same_message_iff (some v) (lookup k other))

  -- Two maps of one size, each entry of the first in the second, hold the same.
  all_in_sound :
      (m other : Assoc String V)
      → IsMap m
      → IsMap other
      → length m ≡ length other
      → all_in m other ≡ true
      → (j : String) → lookup j m ≡ lookup j other
  unfolding all_in lookup
  all_in_sound [] [] u u' n h j = refl
  all_in_sound [] (x ∷ other) u u' n h j = absurd (omega arith)
  all_in_sound ((k, v) ∷ m) other u u' n h j =
      let (there, rest) = all_in_first k v m other h in
      let smaller : length m ≡ length (delete k other) = ground (arith, length-delete k other u') in
      let tail =
        all_in_sound m (delete k other) u.1 (delete-IsMap k other u') smaller
          (all_in-delete k m other u.0 rest) j in
      ground (arith, tail, lookup-delete k j other, equal_iff k j)

  all_in_complete :
      (m other : Assoc String V)
      → IsMap m
      → ((j : String) → (lookup j m ≡ none) ⊎ (lookup j m ≡ lookup j other))
      → all_in m other ≡ true
  unfolding all_in lookup
  all_in_complete [] other u h = refl
  all_in_complete ((k, v) ∷ m) other u h =
      let here : lookup k other ≡ some v = ground (arith, h k, equal_refl k) in
      let rest = all_in_complete m other u.1 (λ j. ground (arith, h j, equal_iff k j)) in
      ground (arith, same_message_iff (some v) (lookup k other))

  -- Maps that hold the same have one size.
  same_length :
      (m other : Assoc String V)
      → IsMap m
      → IsMap other
      → ((j : String) → lookup j m ≡ lookup j other)
      → length m ≡ length other
  unfolding lookup
  same_length [] [] u u' h = refl
  same_length [] ((k, v) ∷ other) u u' h = absurd (ground (arith, h k, equal_refl k))
  same_length ((k, v) ∷ m) other u u' h =
      let tail =
        same_length m (delete k other) u.1 (delete-IsMap k other u')
          (λ j. ground (arith, h j, lookup-delete k j other, equal_iff k j)) in
      ground (arith, tail, length-delete k other u', h k, equal_refl k)

abbrev SameEntries : {V : Type 0} → Assoc String V → Assoc String V → Type 0
SameEntries m other = (j : String) → lookup j m ≡ lookup j other

same_map :
    {V : Type 0} ⦃e : Eq V⦄ (m other : Assoc String V)
    → IsMap m
    → IsMap other
    → ((length m ≡ length other) × (all_in m other ≡ true)) ↔ SameEntries m other
same_map m other u u' = (
  λ h. all_in_sound m other u u' h.0 h.1,
  λ h. (same_length m other u u' h, all_in_complete m other u (λ j. inr (h j))),
)

all_nine :
    (a b c d e f g h i : Bool)
    → ((a && (b && (c && (d && (e && (f && (g && (h && i)))))))) ≡ true) ↔ (
        (a ≡ true)
        × (b ≡ true)
        × (c ≡ true)
        × (d ≡ true)
        × (e ≡ true)
        × (f ≡ true)
        × (g ≡ true)
        × (h ≡ true)
        × (i ≡ true))
all_nine a b c d e f g h i = ground arith

module _ (w : Wire) where
  open w use {tunnel_eq, relays_eq, filter_eq, dns_eq, group_eq, peer_eq, advertised_eq}

  -- The same peers and route groups, key by key, and the same configuration.
  pub record SameContents (s t : Set w) : Type 0 where
    pub peers : (k : String) → lookup k s.peers ≡ lookup k t.peers
    pub route_groups : (k : String) → lookup k s.route_groups ≡ lookup k t.route_groups
    pub tunnel : s.tunnel ≡ t.tunnel
    pub relays : s.relays ≡ t.relays
    pub filter : s.filter ≡ t.filter
    pub dns : s.dns ≡ t.dns
    pub advertised : s.advertised ≡ t.advertised

  -- What the tests of `Equal` say together.
  abbrev Tests : Set w → Set w → Type 0
  Tests s t =
      ((length s.peers ≡ length t.peers) × (all_in ⦃e = peer_eq⦄ s.peers t.peers ≡ true))
      × ((length s.route_groups ≡ length t.route_groups)
          × (all_in ⦃e = group_eq⦄ s.route_groups t.route_groups ≡ true))
      × (s.tunnel ≡ t.tunnel)
      × (s.relays ≡ t.relays)
      × (s.filter ≡ t.filter)
      × (s.dns ≡ t.dns)
      × (s.advertised ≡ t.advertised)

  Tests-iff : (s t : Set w) → (same_set w s t ≡ true) ↔ Tests s t
  unfolding same_set
  Tests-iff s t =
      let peers = ==_iff (length s.peers) (length t.peers) in
      let groups = ==_iff (length s.route_groups) (length t.route_groups) in
      let tunnel = same_message_iff ⦃e = tunnel_eq⦄ s.tunnel t.tunnel in
      let relays = same_message_iff ⦃e = relays_eq⦄ s.relays t.relays in
      let filter = same_message_iff ⦃e = filter_eq⦄ s.filter t.filter in
      let dns = same_message_iff ⦃e = dns_eq⦄ s.dns t.dns in
      let advertised = same_message_iff ⦃e = advertised_eq⦄ s.advertised t.advertised in
      let tests = all_nine _ _ _ _ _ _ _ _ _ in
      (
        λ h.
            let p = tests.0 h in
            (
              (peers.0 p.0, p.8),
              (groups.0 p.6, p.7),
              tunnel.0 p.1,
              relays.0 p.2,
              filter.0 p.4,
              dns.0 p.3,
              advertised.0 p.5,
            ),
        λ q. tests.1 (
          peers.1 q.0.0,
          tunnel.1 q.2,
          relays.1 q.3,
          dns.1 q.5,
          filter.1 q.4,
          advertised.1 q.6,
          groups.1 q.1.0,
          q.1.1,
          q.0.1,
        ),
      )

  -- `Equal` holds of two sets exactly when they hold the same peers, the same route groups and the
  -- same configuration, whatever their versions are.
  pub same_set_iff :
      (s t : Set w) → IsSound w s → IsSound w t → (same_set w s t ≡ true) ↔ SameContents s t
  same_set_iff s t v v' =
      let peers = same_map ⦃e = peer_eq⦄ s.peers t.peers v.peers_map v'.peers_map in
      let groups =
        same_map ⦃e = group_eq⦄ s.route_groups t.route_groups v.groups_map v'.groups_map in
      (
        λ h.
            let p = (Tests-iff s t).0 h in
            record {
              peers = peers.0 p.0;
              route_groups = groups.0 p.1;
              tunnel = p.2;
              relays = p.3;
              filter = p.4;
              dns = p.5;
              advertised = p.6;
            },
        λ h. (Tests-iff s t).1 (
          peers.1 h.peers,
          groups.1 h.route_groups,
          h.tunnel,
          h.relays,
          h.filter,
          h.dns,
          h.advertised,
        ),
      )
