-- ===== src/Wgplan/Becomes.antt =====
-- What a wanted peer becomes.
use meshp.Prelude.{
  ◌≡◌, refl, sym, ap, ◌∙◌, arith, Bool, Bool-cases, true, false, not, ◌&&◌, inl, inr, Option, none,
  some, String, if◌then◌else◌,
}
use meshp.Prelude.Equality.{equal, equal_refl, string_eq}
use meshp.Prelude.Keyed.{elem}
use meshp.Netip.{Prefix, prefix_eq}
use meshp.Wgplan.Types.{Texts, Peer}
use meshp.Wgplan.Prefixes.{sort_prefixes}
use meshp.Wgplan.Running.{elem-sort_prefixes}
use meshp.Wgplan.Peers.{
  same_prefixes, same_apart_from_endpoint, keep_observed_endpoint, offered, resolve_peer,
  must_clear, ops_for_peer,
}
use meshp.Wgplan.Host.{peer_config, configured, fresh}
use meshp.Wgplan.Track.{track, track_all}
use meshp.Wgplan.Touch.{same_prefixes_eq, and_both, and_false, offered_keeps, AsFound}

module _ (t : Texts) where
  -- Nothing is written for the peer.
  unfoldable pub keeps : Option Peer → Peer → Bool
  keeps none d = false
  keeps (some c) d = not (must_clear t c d) && not (resolve_peer t c d).0

  -- What a wanted peer becomes.
  unfoldable pub becomes : Option Peer → Peer → Peer
  becomes none d = configured (peer_config d) (fresh d.public_key)
  becomes (some c) d =
      if must_clear t c d
      then configured (peer_config d) (fresh d.public_key)
      else if (resolve_peer t c d).0
      then configured (peer_config (offered t c d)) c
      else c

  resolved : (c d : Peer) → (resolve_peer t c d).1 ≡ offered t c d
  unfolding resolve_peer
  resolved c d = elim (Bool-cases (same_apart_from_endpoint t c d)) [
    | inl h ↦
        elim (Bool-cases
          (not (keep_observed_endpoint t c d) && not (equal c.endpoint d.endpoint))) [
            | inl w ↦ rw (h, w)
            | inr w ↦ rw (h, w)
          ]
    | inr h ↦ rw h
  ]

  -- The peer's own operations do what the plan is for, wherever they stand in it.
  pub track_own :
      (k : String) (cur o : Option Peer) (d : Peer)
      → d.public_key ≡ k
      → keeps cur d ≡ false
      → AsFound t cur o
      → track_all k (ops_for_peer t k cur d) o ≡ some (becomes cur d)
  unfolding track_all track ops_for_peer keeps becomes configured
  track_own k none o d key w h = rw (h, key, equal_refl k)
  track_own k (some c) o d key w (l, e) = elim (Bool-cases (must_clear t c d)) [
    | inl clear ↦ rw (clear, e, key, equal_refl k)
    | inr stays ↦ elim (Bool-cases (resolve_peer t c d).0) [
      | inl write ↦
          let its_key : (offered t c d).public_key ≡ k = (offered_keeps t c d).0 ∙ key in
          rw (stays, write, resolved c d, e, its_key, equal_refl k)
      | inr rest ↦ absurd (cc (rw (stays, rest) at w))
    ]
  ]

  pub becomes_allowed :
      (cur : Option Peer) (d : Peer)
      → keeps cur d ≡ false
      → (becomes cur d).allowed_ips ≡ d.allowed_ips
  unfolding keeps becomes configured peer_config
  becomes_allowed none d w = refl
  becomes_allowed (some c) d w = elim (Bool-cases (must_clear t c d)) [
    | inl clear ↦ rw clear
    | inr stays ↦ elim (Bool-cases (resolve_peer t c d).0) [
      | inl write ↦ rw (stays, write) (offered_keeps t c d).1
      | inr rest ↦ absurd (cc (rw (stays, rest) at w))
    ]
  ]

  pub becomes_kept : (c d : Peer) → keeps (some c) d ≡ true → becomes (some c) d ≡ c
  unfolding keeps becomes
  becomes_kept c d w = ground arith

  all_same :
      (c d : Peer)
      → keeps (some c) d ≡ true
      → same_prefixes (sort_prefixes t c.allowed_ips) (sort_prefixes t d.allowed_ips) ≡ true
  unfolding keeps resolve_peer same_apart_from_endpoint
  all_same c d w = elim (Bool-cases (same_apart_from_endpoint t c d)) [
    | inl h ↦ (and_both _ _ (and_both (equal c.preshared_key d.preshared_key) _ h).1).1
    | inr h ↦ absurd (cc (rw h at w, and_false (not (must_clear t c d))))
  ]

  -- A peer that is left alone has the addresses that it should have.
  pub kept_allowed :
      (c d : Peer) (x : Prefix)
      → keeps (some c) d ≡ true
      → elem x c.allowed_ips ≡ elem x d.allowed_ips
  kept_allowed c d x w =
      sym (elem-sort_prefixes t x c.allowed_ips)
      ∙ (ap (elem x) (
            same_prefixes_eq (sort_prefixes t c.allowed_ips) (sort_prefixes t d.allowed_ips)
              (all_same c d w))
          ∙ elem-sort_prefixes t x d.allowed_ips)
