-- ===== src/Wgplan/Rightly.antt =====
-- A peer that was set is right, and is left alone from then on.
use meshp.Prelude.{
  ◌≡◌, ◌≢◌, ◌⊎◌, refl, arith, Bool, Bool-cases, true, false, not, ◌&&◌, inl, inr, Option, none,
  some,
}
use meshp.Prelude.Int.{pos, int_lt}
use meshp.Prelude.Equality.{equal, equal_iff, equal_refl, string_eq}
use meshp.Netip.{prefix_eq}
use meshp.Wgplan.Types.{Texts, Peer}
use meshp.Wgplan.Prefixes.{sort_prefixes}
use meshp.Wgplan.Peers.{
  same_apart_from_endpoint, keep_observed_endpoint, offered, resolve_peer, must_clear,
}
use meshp.Wgplan.Host.{peer_config, configured, fresh}
use meshp.Wgplan.Converge.{int_same_eq}
use meshp.Wgplan.Checked.{IsServed}
use meshp.Wgplan.Touch.{and_both}
use meshp.Wgplan.Becomes.{keeps, becomes, kept_allowed}
use meshp.Wgplan.Wanted.{
  Settable, IsRight, same_prefixes_refl, int_same_refl, written_int, written_text,
}

module _ (t : Texts) where
  apart_same :
      (p d : Peer)
      → p.preshared_key ≡ d.preshared_key
      → p.keepalive_seconds ≡ d.keepalive_seconds
      → p.allowed_ips ≡ d.allowed_ips
      → same_apart_from_endpoint t p d ≡ true
  unfolding same_apart_from_endpoint
  apart_same p d psk keepalive ips = rw (
    psk,
    keepalive,
    ips,
    equal_refl d.preshared_key,
    int_same_refl d.keepalive_seconds,
    same_prefixes_refl (sort_prefixes t d.allowed_ips),
  )

  keeps_right :
      (p d : Peer)
      → same_apart_from_endpoint t p d ≡ true
      → (p.endpoint ≡ d.endpoint) ⊎ (keep_observed_endpoint t p d ≡ true)
      → must_clear t p d ≡ false
      → keeps t (some p) d ≡ true
  unfolding keeps resolve_peer
  keeps_right p d same (inl there) stays =
      let equal_ends = (equal_iff p.endpoint d.endpoint).1 there in
      rw (stays, same, equal_ends, and_not_true (not (keep_observed_endpoint t p d)))
    where
      and_not_true : (a : Bool) → (a && false) ≡ false
      and_not_true true = refl
      and_not_true false = refl
  keeps_right p d same (inr kept) stays = rw (stays, same, kept)

  -- Only a peer that is relayed points at a loopback address.
  served_stays : (p d : Peer) → IsServed t d → p.endpoint ≡ d.endpoint → must_clear t p d ≡ false
  served_stays p d (served, marked) there =
      rw (there, ← marked) (own_relay d.relayed (equal d.endpoint ""))
    where
      own_relay : (a b : Bool) → (a && (not a && b)) ≡ false
      own_relay true b = refl
      own_relay false b = refl

  no_loopback : (c d : Peer) → keep_observed_endpoint t c d ≡ true → must_clear t c d ≡ false
  unfolding keep_observed_endpoint
  no_loopback c d kept = ground arith

  -- An endpoint that is not kept is replaced by one.
  has_endpoint :
      (c d : Peer)
      → IsServed t d
      → must_clear t c d ≡ false
      → keep_observed_endpoint t c d ≡ false
      → d.endpoint ≢ ""
  unfolding keep_observed_endpoint
  has_endpoint c d (served, marked) stays replaced empty =
      let none_there = (equal_iff d.endpoint "").1 empty in ground arith

  -- A peer that is told all there is to it, from nothing.
  fresh-IsRight :
      (d : Peer)
      → IsServed t d
      → int_lt d.keepalive_seconds (pos 0) ≡ false
      → IsRight t none d (configured (peer_config d) (fresh d.public_key))
  unfolding configured peer_config
  fresh-IsRight d served ok_keepalive =
      let p = configured (peer_config d) (fresh d.public_key) in
      let psk = written_text d.preshared_key "" (inr refl) in
      let keepalive = written_int d.keepalive_seconds (pos 0) ok_keepalive (inr refl) in
      let there = written_text d.endpoint "" (inr refl) in
      record {
        allowed = λ x. refl;
        preshared = psk;
        keepalive = keepalive;
        endpoint = there;
        left_alone =
            keeps_right p d (apart_same p d psk keepalive refl) (inl there)
              (served_stays p d served there);
      }

  -- The endpoint that is there is kept, as is the reason to keep it.
  keeping-IsRight :
      (c d : Peer)
      → Settable (some c) d
      → keep_observed_endpoint t c d ≡ true
      → IsRight t (some c) d (configured (peer_config (record d { endpoint = "" })) c)
  unfolding configured peer_config keep_observed_endpoint
  keeping-IsRight c d (nonneg, psk_ok, ka_ok) kept =
      let p = configured (peer_config (record d { endpoint = "" })) c in
      let psk = written_text d.preshared_key c.preshared_key psk_ok in
      let keepalive = written_int d.keepalive_seconds c.keepalive_seconds nonneg ka_ok in
      record {
        allowed = λ x. refl;
        preshared = psk;
        keepalive = keepalive;
        endpoint = inr (kept, refl);
        left_alone =
            keeps_right p d (apart_same p d psk keepalive refl) (inr kept) (no_loopback c d kept);
      }

  replacing-IsRight :
      (c d : Peer)
      → IsServed t d
      → Settable (some c) d
      → must_clear t c d ≡ false
      → keep_observed_endpoint t c d ≡ false
      → IsRight t (some c) d (configured (peer_config d) c)
  unfolding configured peer_config
  replacing-IsRight c d served (nonneg, psk_ok, ka_ok) stays replaced =
      let p = configured (peer_config d) c in
      let psk = written_text d.preshared_key c.preshared_key psk_ok in
      let keepalive = written_int d.keepalive_seconds c.keepalive_seconds nonneg ka_ok in
      let there =
        written_text d.endpoint c.endpoint (inl (has_endpoint c d served stays replaced)) in
      record {
        allowed = λ x. refl;
        preshared = psk;
        keepalive = keepalive;
        endpoint = inl there;
        left_alone =
            keeps_right p d (apart_same p d psk keepalive refl) (inl there)
              (served_stays p d served there);
      }

  pub written-IsRight :
      (c d : Peer)
      → IsServed t d
      → Settable (some c) d
      → must_clear t c d ≡ false
      → IsRight t (some c) d (configured (peer_config (offered t c d)) c)
  written-IsRight c d served settable stays = elim (Bool-cases (keep_observed_endpoint t c d)) [
    | inl kept ↦ rw kept (keeping-IsRight c d settable kept)
    | inr replaced ↦ rw replaced (replacing-IsRight c d served settable stays replaced)
  ]

  -- Why nothing is written.
  kept_reason :
      (c d : Peer)
      → keeps t (some c) d ≡ true
      → (same_apart_from_endpoint t c d ≡ true)
        × ((keep_observed_endpoint t c d ≡ true) ⊎ (equal c.endpoint d.endpoint ≡ true))
  unfolding keeps resolve_peer
  kept_reason c d w = ground arith

  pub kept-IsRight : (c d : Peer) → keeps t (some c) d ≡ true → IsRight t (some c) d c
  unfolding same_apart_from_endpoint
  kept-IsRight c d w =
      let (same, why) = kept_reason c d w in
      let (psk, others) = and_both (equal c.preshared_key d.preshared_key) _ same in
      record {
        allowed = λ x. kept_allowed t c d x w;
        preshared = (equal_iff c.preshared_key d.preshared_key).0 psk;
        keepalive = int_same_eq c.keepalive_seconds d.keepalive_seconds (and_both _ _ others).0;
        endpoint = elim why [
          | inl kept ↦ inr (kept, refl)
          | inr there ↦ inl ((equal_iff c.endpoint d.endpoint).0 there)
        ];
        left_alone = w;
      }

  -- Whatever was found, what becomes of a wanted peer is right.
  pub becomes-IsRight :
      (cur : Option Peer) (d : Peer)
      → IsServed t d
      → Settable cur d
      → IsRight t cur d (becomes t cur d)
  unfolding becomes
  becomes-IsRight none d served settable = fresh-IsRight d served settable
  becomes-IsRight (some c) d served settable = elim (Bool-cases (must_clear t c d)) [
    | inl clear ↦ rw clear (as_if_found c d (fresh-IsRight d served settable.0))
    | inr stays ↦ elim (Bool-cases (resolve_peer t c d).0) [
      | inl write ↦ rw (stays, write) (written-IsRight c d served settable stays)
      | inr rest ↦ rw (stays, rest) (kept-IsRight c d (unfold keeps in rw (stays, rest)))
    ]
  ]
    where
      as_if_found : (c d : Peer) {p : Peer} → IsRight t none d p → IsRight t (some c) d p
      as_if_found c d r = record {
        allowed = r.allowed;
        preshared = r.preshared;
        keepalive = r.keepalive;
        endpoint = inl r.endpoint;
        left_alone = r.left_alone;
      }
