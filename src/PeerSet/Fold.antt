-- ===== src/PeerSet/Fold.antt =====
-- What a delta makes of the map of peers, key by key.
use meshp.Prelude.{
  ◌≡◌, inl, inr, arith, Bool-cases, Option, none, some, [], String, if◌then◌else◌, ◌==◌, ◌||◌,
}
use meshp.Prelude.Equality.{string_eq}
use meshp.Prelude.Assoc.{IsMap, lookup}
use meshp.Prelude.Keyed.{
  elem, last_for, IsKeyed, or_keep, upsert_all-IsMap, delete_all-IsMap, fold-IsKeyed, fold_view,
}
use meshp.PeerSet.Wire.{Wire}
use meshp.PeerSet.Defs.{Set, StateDelta, fold, apply, cleared}

module _ (w : Wire) where
  open w use {public_key, route_group_id}

  -- At most one peer and one route group to a key, each at the key that it has.
  pub record IsSound (s : Set w) : Type 0 where
    pub peers_map : IsMap s.peers
    pub peers_keyed : IsKeyed public_key s.peers
    pub groups_map : IsMap s.route_groups
    pub groups_keyed : IsKeyed route_group_id s.route_groups

  fold-IsSound : (d : StateDelta w) (s : Set w) → IsSound s → IsSound (fold w d s)
  unfolding fold
  fold-IsSound d s v = record {
    peers_map =
        upsert_all-IsMap public_key d.upsert_peers _
          (delete_all-IsMap d.remove_peer_keys s.peers v.peers_map);
    peers_keyed = fold-IsKeyed public_key d.remove_peer_keys d.upsert_peers s.peers v.peers_keyed;
    groups_map =
        upsert_all-IsMap route_group_id d.route_groups _
          (delete_all-IsMap d.removed_route_group_ids s.route_groups v.groups_map);
    groups_keyed =
        fold-IsKeyed route_group_id d.removed_route_group_ids d.route_groups s.route_groups
          v.groups_keyed;
  }

  cleared-IsSound : (s : Set w) → IsSound (cleared w s)
  unfolding cleared lookup
  cleared-IsSound s = record {
    peers_map = tt;
    peers_keyed = λ k v h. cc;
    groups_map = tt;
    groups_keyed = λ k v h. cc;
  }

  -- Every delta and every snapshot leaves each peer and each route group once, at its own key.
  pub apply-IsSound : (d : Option (StateDelta w)) (s : Set w) → IsSound s → IsSound (apply w d s)
  unfolding apply
  apply-IsSound none s v = v
  apply-IsSound (some d) s v = elim (Bool-cases (d.from_version == 0)) [
    | inl whole ↦ rw whole (fold-IsSound d (cleared w s) (cleared-IsSound s))
    | inr change ↦ rw change (fold-IsSound d s v)
  ]

  -- Whatever a delta holds, a peer is afterwards the last one that it upserts under the key, also
  -- where it removes the key too; else it is gone if the delta removes it or is a snapshot, and is
  -- unchanged in all other cases. The same holds of the route groups.
  pub apply_views :
      (d : StateDelta w) (s : Set w) (k : String)
      → (lookup k (apply w (some d) s).peers
          ≡ or_keep
              (last_for public_key k d.upsert_peers)
              (if elem k d.remove_peer_keys || d.from_version == 0 then none else lookup k s.peers))
        × (lookup k (apply w (some d) s).route_groups
            ≡ or_keep (last_for route_group_id k d.route_groups) (
                if elem k d.removed_route_group_ids || d.from_version == 0
                then none
                else lookup k s.route_groups))
  unfolding apply lookup
  apply_views d s k = elim (Bool-cases (d.from_version == 0)) [
    | inl whole ↦ rw whole (
      ground (arith, fold_view public_key d.remove_peer_keys d.upsert_peers [] k),
      ground (arith, fold_view route_group_id d.removed_route_group_ids d.route_groups [] k),
    )
    | inr change ↦ rw change (
      ground (arith, fold_view public_key d.remove_peer_keys d.upsert_peers s.peers k),
      ground (
        arith,
        fold_view route_group_id d.removed_route_group_ids d.route_groups s.route_groups k,
      ),
    )
  ]
