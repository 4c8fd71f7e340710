-- ===== src/Wgplan/Realize.antt =====
-- What a plan makes of an interface is what is wanted of it.
use meshp.Prelude.{
  ◌⊎◌, ◌≡◌, ◌≢◌, refl, sym, ap, ◌∙◌, Bool-cases, true, inl, inr, Option, Option-cases, none, some,
  [], All, String,
}
use meshp.Prelude.Int.{pos, int_same}
use meshp.Prelude.Equality.{string_eq}
use meshp.Prelude.Assoc.{lookup}
use meshp.Prelude.Keyed.{elem, or_keep, last_for, last_for_key, last_for-All, lookup-upsert_all}
use meshp.Netip.{Prefix, prefix_eq}
use meshp.Wgplan.Types.{Texts, Peer, Interface}
use meshp.Wgplan.Prefixes.{want_routes}
use meshp.Wgplan.Peers.{index_peers}
use meshp.Wgplan.Host.{Choices, Host, observe}
use meshp.Wgplan.Track.{lookup-peers_after, peers_after-IsMap, track_all_keyed}
use meshp.Wgplan.Touch.{Apart}
use meshp.Wgplan.Becomes.{becomes}
use meshp.Wgplan.Valid.{IsValid, claims-Clear}
use meshp.Wgplan.Reach.{IsHost, observed_peers, wanted, outcome, index_peers-IsMap, track-peer_ops}
use meshp.Wgplan.Converge.{reached, its_peer_ops, peer_ops-OnPeers}
use meshp.Wgplan.Wanted.{Settable, IsRight}
use meshp.Wgplan.Rightly.{becomes-IsRight}

-- The peer that an interface has at a key, beside the one that is wanted there: none where none is
-- wanted, and otherwise one with what is wanted.
abbrev pub PeerRight : Texts → Option Peer → Option Peer → Option Peer → Type 0
PeerRight t found none o = o ≡ none
PeerRight t found (some d) o =
    (p : Peer) × (o ≡ some p) × (p.public_key ≡ d.public_key) × IsRight t found d p

-- The interface `h` has become what is wanted.
pub record Realizes (t : Texts) (want : Interface) (h h' : Host) : Type 0 where
  pub is_there : h'.is_there ≡ true
  pub up : h'.up ≡ true
  pub private_key : h'.private_key ≡ want.private_key
  pub port : (h'.listen_port ≡ want.listen_port) ⊎ (int_same want.listen_port (pos 0) ≡ true)
  pub mtu : h'.mtu ≡ want.mtu
  pub addresses : (x : Prefix) → elem x h'.addresses ≡ elem x want.addresses
  pub routes : (x : Prefix) → elem x h'.routes ≡ elem x (want_routes want)
  pub peers : (k : String) → PeerRight t (lookup k h.peers) (wanted want k) (lookup k h'.peers)

wanted_last :
    (want : Interface) (k : String)
    → wanted want k ≡ last_for (λ (p : Peer). p.public_key) k want.peers
wanted_last want k =
    lookup-upsert_all (λ (p : Peer). p.public_key) want.peers [] k ∙ unfold lookup in or_none _
  where
    or_none : (o : Option Peer) → or_keep o none ≡ o
    or_none none = refl
    or_none (some p) = refl

wanted_keyed :
    (want : Interface) (k : String) (d : Peer) → wanted want k ≡ some d → d.public_key ≡ k
wanted_keyed want k d e =
    last_for_key (λ (p : Peer). p.public_key) k want.peers d (sym (wanted_last want k) ∙ e)

pub wanted_All {κ} :
    (P : Peer → Type κ) (want : Interface) (k : String) (d : Peer)
    → All P want.peers
    → wanted want k ≡ some d
    → P d
wanted_All P want k d all e =
    last_for-All P (λ (p : Peer). p.public_key) k want.peers d all (sym (wanted_last want k) ∙ e)

module _ (os : Choices) (t : Texts) (want : Interface) (h : Host) (v : IsValid t want)
    (u : IsHost h) where
  wanted-Apart :
      (i j : String) (d e : Peer)
      → wanted want i ≡ some d
      → wanted want j ≡ some e
      → i ≢ j
      → Apart d.allowed_ips e.allowed_ips
  wanted-Apart i j d e wd we ne x ex =
      let hd = wanted_All _ want i d v.peers wd in
      let he = wanted_All _ want j e v.peers we in
      let keys : d.public_key ≢ e.public_key =
        λ same. ne (sym (wanted_keyed want i d wd) ∙ (same ∙ wanted_keyed want j e we)) in
      elim (Bool-cases (elem x e.allowed_ips)) [
        | inr out ↦ out
        | inl both ↦
            absurd
              ((claims-Clear t want d e x x _ v.claimed hd.0 he.0 v.no_theft keys ex both).0 refl)
      ]

  -- What the plan leaves at a key.
  pub reached_peer :
      (k : String)
      → lookup k (reached os t want h).peers ≡ outcome t (lookup k h.peers) (wanted want k)
  reached_peer k =
      lookup-peers_after k (its_peer_ops os t want h) h.peers (peer_ops-OnPeers os t want h)
      ∙ (track-peer_ops t (index_peers want.peers) (index_peers (observe h).peers) k
            (lookup k h.peers) (index_peers-IsMap (observe h).peers) (index_peers-IsMap want.peers)
            (wanted_keyed want) wanted-Apart (sym (observed_peers h k u))
          ∙ ap (λ o. outcome t o (wanted want k)) (observed_peers h k u))

  pub reached-IsHost : IsHost (reached os t want h)
  reached-IsHost = record {
    peers_map = peers_after-IsMap (its_peer_ops os t want h) h.peers u.peers_map;
    peers_keyed = λ k p l.
        track_all_keyed k (its_peer_ops os t want h) (lookup k h.peers) (u.peers_keyed k) p (
          sym
            (lookup-peers_after k (its_peer_ops os t want h) h.peers (peer_ops-OnPeers os t want h))
          ∙ l);
    there_or_empty = inl refl;
  }

  pub reached_right :
      ((k : String) (d : Peer) → wanted want k ≡ some d → Settable (lookup k h.peers) d)
      → (k : String)
      → PeerRight t (lookup k h.peers) (wanted want k) (lookup k (reached os t want h).peers)
  reached_right settable k = elim (Option-cases (wanted want k)) [
    | inl unwanted ↦ rw unwanted (reached_peer k ∙ rw unwanted)
    | inr (d, it) ↦
        let p = becomes t (lookup k h.peers) d in
        let there : lookup k (reached os t want h).peers ≡ some p = reached_peer k ∙ rw it in
        rw it (
          p,
          there,
          same_key k d p there it,
          becomes-IsRight t (lookup k h.peers) d (wanted_All _ want k d v.peers it).1
              (settable k d it),
        )
  ]
    where
      same_key :
          (k : String) (d p : Peer)
          → lookup k (reached os t want h).peers ≡ some p
          → wanted want k ≡ some d
          → p.public_key ≡ d.public_key
      same_key k d p l it = reached-IsHost.peers_keyed k p l ∙ sym (wanted_keyed want k d it)
