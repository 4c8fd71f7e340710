-- ===== src/Wgplan/Reach.antt =====
-- Where a plan takes the interface that it was made for.
use meshp.Prelude.{
  ◌≡◌, ◌≢◌, ◌⊎◌, refl, sym, ap, ◌∙◌, arith, Bool-cases, true, inl, inr, Option, Option-cases, none,
  some, List, [], ◌∷◌, map, String,
}
use meshp.Prelude.Equality.{equal, equal_iff, string_eq}
use meshp.Prelude.Assoc.{Assoc, IsMap, lookup}
use meshp.Prelude.Keyed.{or_keep, IsKeyed, lookup-upsert_all, upsert_all-IsMap, last_for-values}
use meshp.Prelude.Order.{string_lt, sort-IsMap}
use meshp.Netip.{prefix_eq}
use meshp.Wgplan.Types.{Texts, Peer, Interface}
use meshp.Wgplan.Peers.{index_peers, sorted_peers, remove_ops, set_ops, ops_for_peer}
use meshp.Wgplan.Plan.{peer_ops}
use meshp.Wgplan.Host.{Host, no_host, observe}
use meshp.Wgplan.Track.{OnPeers, track, track_all, track_all-append}
use meshp.Wgplan.Touch.{Apart}
use meshp.Wgplan.Settle.{
  Fits, set_ops_settle, set_ops_absent, AsFound-self, OnPeers-append, OnPeers-ops_for_peer,
}
use meshp.Wgplan.Becomes.{becomes}

-- What an interface is like that is reported: a peer once, at its key, and nothing at all of an
-- interface that is not there.
pub record IsHost (h : Host) : Type 0 where
  pub peers_map : IsMap h.peers
  pub peers_keyed : IsKeyed (λ (p : Peer). p.public_key) h.peers
  pub there_or_empty : (h.is_there ≡ true) ⊎ (h ≡ no_host)

pub observed_peers :
    (h : Host) (k : String) → IsHost h → lookup k (index_peers (observe h).peers) ≡ lookup k h.peers
unfolding observe lookup
observed_peers h k v =
    lookup-upsert_all (λ (p : Peer). p.public_key) (map (λ x. x.1) h.peers) [] k
    ∙ (or_none _ ∙ last_for-values (λ (p : Peer). p.public_key) h.peers k v.peers_map v.peers_keyed)
  where
    or_none : (o : Option Peer) → or_keep o none ≡ o
    or_none none = refl
    or_none (some p) = refl

pub remove_ops-OnPeers : (want m : Assoc String Peer) → OnPeers (remove_ops want m)
unfolding remove_ops
remove_ops-OnPeers want [] = tt
remove_ops-OnPeers want ((k, p) ∷ m) = elim (Option-cases (lookup k want)) [
  | inl gone ↦ rw gone (refl, remove_ops-OnPeers want m)
  | inr (d, stays) ↦ rw stays (remove_ops-OnPeers want m)
]

pub set_ops-OnPeers : (t : Texts) (have es : Assoc String Peer) → OnPeers (set_ops t have es)
unfolding set_ops
set_ops-OnPeers t have [] = tt
set_ops-OnPeers t have ((k, d) ∷ es) =
    OnPeers-append (ops_for_peer t k (lookup k have) d) (set_ops t have es)
      (OnPeers-ops_for_peer t k (lookup k have) d) (set_ops-OnPeers t have es)

-- Removing what is not wanted leaves a wanted peer alone, and no other.
removed_wanted :
    (k : String) (want m : Assoc String Peer) (d : Peer) (o : Option Peer)
    → lookup k want ≡ some d
    → track_all k (remove_ops want m) o ≡ o
unfolding track_all track remove_ops
removed_wanted k want [] d o w = refl
removed_wanted k want ((j, p) ∷ m) d o w = elim (Option-cases (lookup j want)) [
  | inr (e, stays) ↦ rw stays (removed_wanted k want m d o w)
  | inl gone ↦ elim (Bool-cases (equal j k)) [
    | inl same ↦ absurd (cc ((equal_iff j k).0 same, gone, w))
    | inr other ↦ ground (arith, removed_wanted k want m d o w)
  ]
]

removed_absent :
    (k : String) (want m : Assoc String Peer) → track_all k (remove_ops want m) none ≡ none
unfolding track_all track remove_ops
removed_absent k want [] = refl
removed_absent k want ((j, p) ∷ m) = elim (Option-cases (lookup j want)) [
  | inr (e, stays) ↦ rw stays (removed_absent k want m)
  | inl gone ↦ elim (Bool-cases (equal j k)) [
    | inl same ↦ ground (arith, removed_absent k want m)
    | inr other ↦ ground (arith, removed_absent k want m)
  ]
]

removed_unwanted :
    (k : String) (want m : Assoc String Peer) (o : Option Peer)
    → lookup k want ≡ none
    → (o ≡ none) ⊎ ((p : Peer) × (lookup k m ≡ some p))
    → track_all k (remove_ops want m) o ≡ none
unfolding lookup remove_ops track_all track
removed_unwanted k want [] o w (inl gone) = gone
removed_unwanted k want [] o w (inr (p, there)) = absurd (cc there)
removed_unwanted k want ((j, q) ∷ m) o w how = elim (Bool-cases (equal j k)) [
  | inl same ↦
      let here : j ≡ k = (equal_iff j k).0 same in
      let gone : lookup j want ≡ none = ap (λ i. lookup i want) here ∙ w in
      ground (arith, removed_absent k want m)
  | inr other ↦
      let rest : (o ≡ none) ⊎ ((p : Peer) × (lookup k m ≡ some p)) = elim how [
        | inl e ↦ inl e
        | inr (p, l) ↦ inr (p, rw other at l)
      ] in
      elim (Option-cases (lookup j want)) [
        | inr (e, stays) ↦ rw stays (removed_unwanted k want m o w rest)
        | inl gone ↦ ground (arith, removed_unwanted k want m o w rest)
      ]
]

-- The wanted peers, by key, as the loop walks them.
abbrev pub wanted : Interface → String → Option Peer
wanted want k = lookup k (index_peers want.peers)

-- What is found of a peer, and what is wanted of it, say what becomes of it.
abbrev pub outcome : Texts → Option Peer → Option Peer → Option Peer
outcome t have none = none
outcome t have (some d) = some (becomes t have d)

pub index_peers-IsMap : (ps : List Peer) → IsMap (index_peers ps)
index_peers-IsMap ps = upsert_all-IsMap (λ (p : Peer). p.public_key) ps [] tt

none_or_there : (o l : Option Peer) → o ≡ l → (o ≡ none) ⊎ ((p : Peer) × (l ≡ some p))
none_or_there o none e = inl e
none_or_there o (some p) e = inr (p, refl)

module _ (t : Texts) (want have : Assoc String Peer) (k : String) where
  -- All operations on peers, at one key.
  pub track-peer_ops :
      (o : Option Peer)
      → IsMap have
      → IsMap want
      → ((j : String) (e : Peer) → lookup j want ≡ some e → e.public_key ≡ j)
      → ((i j : String) (d e : Peer)
          → lookup i want ≡ some d
          → lookup j want ≡ some e
          → i ≢ j
          → Apart d.allowed_ips e.allowed_ips)
      → o ≡ lookup k have
      → track_all k (peer_ops t have want) o ≡ outcome t (lookup k have) (lookup k want)
  unfolding peer_ops
  track-peer_ops o u w keyed apart same =
      let (w', sorted) = sort-IsMap string_lt want w in
      let (u', sorted_have) = sort-IsMap string_lt have u in
      let removes = remove_ops want (sorted_peers have) in
      let sets = set_ops t have (sorted_peers want) in
      track_all-append k removes sets o ∙ elim (Option-cases (lookup k want)) [
        | inl unwanted ↦
            ap (track_all k sets) (
              removed_unwanted k want (sorted_peers have) o unwanted
                (none_or_there o (lookup k (sorted_peers have)) (same ∙ sym (sorted_have k))))
            ∙ (set_ops_absent t k have (sorted_peers want) w'
                  (λ j e l. keyed j e (sym (sorted j) ∙ l)) (sorted k ∙ unwanted)
                ∙ rw unwanted)
        | inr (d, it) ↦
            let fits : Fits t k d (sorted_peers want) = record {
              is_map = w';
              keyed = λ j e l. keyed j e (sym (sorted j) ∙ l);
              apart = λ j e l ne. apart k j d e it (sym (sorted j) ∙ l) (λ s. ne (sym s));
            } in
            ap (track_all k sets) (removed_wanted k want (sorted_peers have) d o it)
            ∙ (set_ops_settle t k have (sorted_peers want) d o fits (sorted k ∙ it)
                  (rw same (AsFound-self t (lookup k have)), inr same)
                ∙ rw it)
      ]
