-- ===== src/PeerSet/Convergence.antt =====
-- A difference, sent as a delta and folded in, leads to the wanted peers.
use meshp.Prelude.{
  ◌≡◌, ◌≢◌, inl, inr, refl, sym, ap, ◌∙◌, arith, Bool, Option-cases, true, false, Option, none,
  some, [], ◌∷◌, map, String, if◌then◌else◌,
}
use meshp.Prelude.Equality.{string_eq, equal_iff, equal_refl}
use meshp.Prelude.Assoc.{Assoc, IsMap, lookup}
use meshp.Prelude.Order.{string_lt, sort_by, entry_before, sort-IsMap}
use meshp.PeerSet.Wire.{Wire, same_message_iff}
use meshp.PeerSet.Defs.{
  Set, StateDelta, has, apply, sorted_values, sorted_keys, outdated, keep_outdated, keep_unwanted,
  diff,
}
use meshp.Prelude.Keyed.{or_keep, elem, last_for, IsKeyed}
use meshp.PeerSet.Fold.{IsSound, apply_views}

module _ (w : Wire) where
  open w use {Peer, public_key, peer_eq}

  abbrev is_there : Option Peer → Bool
  is_there none = false
  is_there (some p) = true

  abbrev when_outdated : Set w → Option Peer → Option Peer
  when_outdated s none = none
  when_outdated s (some p) = if outdated w s p then some p else none

  tail-IsKeyed :
      (k : String) (p : Peer) (m : Assoc String Peer)
      → IsMap ((k, p) ∷ m)
      → IsKeyed public_key ((k, p) ∷ m)
      → (public_key p ≡ k) × IsKeyed public_key m
  unfolding lookup
  tail-IsKeyed k p m u h =
      (h k p (rw (equal_refl k)), λ j q e. h j q (ground (arith, equal_iff k j)))

  -- The peers that are listed as outdated are those, and at their keys.
  last_outdated :
      (s : Set w) (m : Assoc String Peer) (k : String)
      → IsMap m
      → IsKeyed public_key m
      → last_for public_key k (keep_outdated w s (map (λ x. x.1) m)) ≡ when_outdated s (lookup k m)
  unfolding lookup last_for keep_outdated
  last_outdated s [] k u h = refl
  last_outdated s ((j, p) ∷ m) k u h =
      let (own, rest) = tail-IsKeyed j p m u h in
      ground (arith, last_outdated s m k u.1 rest, equal_iff j k)

  elem_unwanted :
      (want : Set w) (m : Assoc String Peer) (k : String)
      → elem k (keep_unwanted w want (map (λ x. x.0) m))
        ≡ (if has k want.peers then false else has k m)
  unfolding lookup elem keep_unwanted
  elem_unwanted want [] k = ground arith
  elem_unwanted want ((j, p) ∷ m) k = ground (arith, elem_unwanted want m k, equal_iff j k)

  added :
      (s want : Set w) (k : String)
      → IsMap want.peers
      → IsKeyed public_key want.peers
      → last_for public_key k (diff w s want).0 ≡ when_outdated s (lookup k want.peers)
  unfolding diff sorted_values
  added s want k u h =
      let (u', same) = sort-IsMap string_lt want.peers u in
      last_outdated s (sort_by (entry_before string_lt) want.peers) k u'
        (λ j p e. h j p (sym (same j) ∙ e))
      ∙ ap (when_outdated s) (same k)

  removed :
      (s want : Set w) (k : String)
      → IsMap s.peers
      → elem k (diff w s want).1 ≡ (if has k want.peers then false else has k s.peers)
  unfolding diff sorted_keys
  removed s want k u =
      elem_unwanted want (sort_by (entry_before string_lt) s.peers) k
      ∙ ap (λ o. if has k want.peers then false else is_there o)
          ((sort-IsMap string_lt s.peers u).1 k)

  settles :
      (s want : Set w) (k : String)
      → (added' : Option Peer) → (removed' : Bool) → added' ≡ when_outdated s (lookup k want.peers)
      → removed' ≡ (if has k want.peers then false else has k s.peers)
      → IsKeyed public_key want.peers
      → or_keep added' (if removed' then none else lookup k s.peers) ≡ lookup k want.peers
  settles s want k added' removed' ea er h = elim (Option-cases (lookup k want.peers)) [
    | inl gone ↦ ground arith
    | inr (p, there) ↦ ground (
      arith,
      h k p there,
      same_message_iff ⦃e = peer_eq⦄ (lookup (public_key p) s.peers) (some p),
    )
  ]

  -- A delta that carries the difference between two sets, to upsert and to remove, takes the first
  -- one to the peers of the second, key by key.
  pub diff_converges :
      (d : StateDelta w) (s want : Set w) (k : String)
      → IsSound w s
      → IsSound w want
      → d.from_version ≢ 0
      → d.upsert_peers ≡ (diff w s want).0
      → d.remove_peer_keys ≡ (diff w s want).1
      → lookup k (apply w (some d) s).peers ≡ lookup k want.peers
  diff_converges d s want k v v' change up down = ground (
    arith,
    (apply_views w d s k).0,
    added s want k v'.peers_map v'.peers_keyed,
    removed s want k v.peers_map,
    settles s want k (last_for public_key k (diff w s want).0) (elem k (diff w s want).1)
        (added s want k v'.peers_map v'.peers_keyed) (removed s want k v.peers_map) v'.peers_keyed,
  )
