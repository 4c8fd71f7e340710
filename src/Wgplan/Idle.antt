-- ===== src/Wgplan/Idle.antt =====
-- An interface that has what is wanted: there is nothing left to do.
use meshp.Prelude.{
  ◌≡◌, ◌⊎◌, refl, sym, ◌∙◌, Bool, true, false, not, ◌&&◌, inl, inr, Option, Option-cases, some, [],
  ◌∷◌, String,
}
use meshp.Prelude.Int.{pos, int_same}
use meshp.Prelude.Equality.{equal_refl, string_eq}
use meshp.Prelude.Assoc.{Assoc, IsMap, lookup}
use meshp.Prelude.Order.{string_lt, sort-IsMap}
use meshp.Netip.{prefix_eq}
use meshp.Wgplan.Types.{
  Texts, Peer, Interface, remove_address, add_address, remove_route, add_route,
}
use meshp.Wgplan.Prefixes.{want_routes}
use meshp.Wgplan.Peers.{index_peers, sorted_peers, remove_ops, set_ops}
use meshp.Wgplan.Plan.{port_wrong, device_ops, peer_ops, plan}
use meshp.Wgplan.Host.{Host, observe}
use meshp.Wgplan.Running.{prefix_ops_none}
use meshp.Wgplan.Becomes.{keeps}
use meshp.Wgplan.Settle.{kept_none, at_head, further}
use meshp.Wgplan.Reach.{IsHost, observed_peers, wanted, index_peers-IsMap}
use meshp.Wgplan.Wanted.{int_same_refl}
use meshp.Wgplan.Realize.{PeerRight, Realizes}

-- There is nothing to remove where all is wanted, and nothing to set where all is kept.
nothing_to_remove :
    (want m : Assoc String Peer)
    → IsMap m
    → ((k : String) (p : Peer) → lookup k m ≡ some p → (d : Peer) × (lookup k want ≡ some d))
    → remove_ops want m ≡ []
unfolding remove_ops
nothing_to_remove want [] w all = refl
nothing_to_remove want ((k, p) ∷ m) w all =
    let (d, it) = all k p (at_head k p m) in
    rw it (nothing_to_remove want m w.1 (λ i q l. all i q (further k i p q m w.0 l)))

nothing_to_set :
    (t : Texts) (have es : Assoc String Peer)
    → IsMap es
    → ((k : String) (d : Peer)
        → lookup k es ≡ some d
        → (p : Peer) × (lookup k have ≡ some p) × (keeps t (some p) d ≡ true))
    → set_ops t have es ≡ []
unfolding set_ops
nothing_to_set t have [] w all = refl
nothing_to_set t have ((k, d) ∷ es) w all =
    let (p, there, kept) = all k d (at_head k d es) in
    rw (there, kept_none t p d k kept)
      (nothing_to_set t have es w.1 (λ i e l. all i e (further k i d e es w.0 l)))

and_not : (a : Bool) → (a && false) ≡ false
and_not true = refl
and_not false = refl

module _ (t : Texts) (want : Interface) (g : Host) where
  no_device_ops :
      g.is_there ≡ true
      → g.private_key ≡ want.private_key
      → (g.listen_port ≡ want.listen_port) ⊎ (int_same want.listen_port (pos 0) ≡ true)
      → g.mtu ≡ want.mtu
      → device_ops want (observe g) ≡ []
  unfolding device_ops observe
  no_device_ops there key port mtu =
      let right = port_right port in
      rw (there, key, equal_refl want.private_key, right, mtu, int_same_refl want.mtu)
    where
      port_right :
          (g.listen_port ≡ want.listen_port) ⊎ (int_same want.listen_port (pos 0) ≡ true)
          → port_wrong want (observe g) ≡ false
      port_right (inl same) =
          rw (same, int_same_refl want.listen_port)
            (and_not (not (int_same want.listen_port (pos 0))))
      port_right (inr any) = rw any

  peer_stays :
      (found : Option Peer) (d : Peer)
      → (o : Option Peer) → PeerRight t found (some d) o
      → (p : Peer) × (o ≡ some p) × (keeps t (some p) d ≡ true)
  peer_stays found d o (p, there, keyed, right) = (p, there, right.left_alone)

  is_wanted :
      (h : Host) (k : String) (p : Peer)
      → PeerRight t (lookup k h.peers) (wanted want k) (lookup k g.peers)
      → lookup k g.peers ≡ some p
      → (d : Peer) × (lookup k (index_peers want.peers) ≡ some d)
  is_wanted h k p right there = elim (Option-cases (wanted want k)) [
    | inr found ↦ found
    | inl gone ↦ absurd (cc (rw gone at right, there))
  ]

  no_peer_ops :
      (h : Host)
      → IsHost g
      → ((k : String) → PeerRight t (lookup k h.peers) (wanted want k) (lookup k g.peers))
      → peer_ops t (index_peers (observe g).peers) (index_peers want.peers) ≡ []
  unfolding peer_ops
  no_peer_ops h v right =
      let have = index_peers (observe g).peers in
      let (had, same_had) = sort-IsMap string_lt have (index_peers-IsMap (observe g).peers) in
      let (w, same) =
        sort-IsMap string_lt (index_peers want.peers) (index_peers-IsMap want.peers) in
      let removes = nothing_to_remove (index_peers want.peers) (sorted_peers have) had (λ k p l.
        is_wanted h k p (right k) (sym (observed_peers g k v) ∙ (sym (same_had k) ∙ l))) in
      let sets =
        nothing_to_set t have (sorted_peers (index_peers want.peers)) w
          (λ k d l. found k d (sym (same k) ∙ l)) in
      rw (removes, sets)
    where
      found :
          (k : String) (d : Peer)
          → wanted want k ≡ some d
          → (p : Peer) × (lookup k (index_peers (observe g).peers) ≡ some p)
            × (keeps t (some p) d ≡ true)
      found k d it =
          let (p, there, stays) =
            peer_stays (lookup k h.peers) d (lookup k g.peers) (rw it at (right k)) in
          (p, observed_peers g k v ∙ there, stays)

  -- An interface with what is wanted gets no operations.
  pub no_ops : (h : Host) → IsHost g → Realizes t want h g → plan t want (observe g) ≡ []
  unfolding plan
  no_ops h v r =
      let device = no_device_ops r.is_there r.private_key r.port r.mtu in
      let peers = no_peer_ops h v r.peers in
      let addresses =
        prefix_ops_none t (observe g).addresses want.addresses remove_address add_address
          (unfold observe in r.addresses) in
      let routes =
        prefix_ops_none t (observe g).routes (want_routes want) remove_route add_route
          (unfold observe in r.routes) in
      let there : (observe g).is_there ≡ true = unfold observe in r.is_there in
      let up : (observe g).up ≡ true = unfold observe in r.up in
      rw (device, peers, addresses, routes, there, up)
