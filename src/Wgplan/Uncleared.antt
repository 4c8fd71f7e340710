-- ===== src/Wgplan/Uncleared.antt =====
-- internal/wglink/peer.go: what a configuration without a preshared key or a keepalive does not do.
use meshp.Prelude.{
  ◌≡◌, ◌≢◌, ◌⊎◌, refl, sym, ap, ◌∙◌, arith, Bool, Bool-cases, true, false, not, ◌&&◌, inl, inr,
  some, List, [], ◌∷◌, ◌++◌, String, if◌then◌else◌,
}
use meshp.Prelude.Int.{ℤ, pos, negsuc, int_lt, int_same}
use meshp.Prelude.Equality.{equal, equal_iff, equal_ne, string_eq}
use meshp.Prelude.Assoc.{Assoc, lookup}
use meshp.Prelude.Order.{string_lt, sort-IsMap}
use meshp.Prelude.Result.{ok}
use meshp.Wgplan.Types.{Texts, Peer, Interface, Op, create_device, set_peer}
use meshp.Wgplan.Peers.{
  index_peers, sorted_peers, remove_ops, set_ops, is_loopback, same_apart_from_endpoint, offered,
  keep_observed_endpoint, resolve_peer, must_clear, ops_for_peer,
}
use meshp.Wgplan.Plan.{device_ops, peer_ops, plan}
use meshp.Wgplan.Validate.{plan_for}
use meshp.Wgplan.Host.{Choices, Host, peer_config, configured, run, observe}
use meshp.Wgplan.Becomes.{becomes}
use meshp.Wgplan.Valid.{validate-IsValid}
use meshp.Wgplan.Reach.{IsHost, wanted, observed_peers, index_peers-IsMap}
use meshp.Wgplan.Converge.{reached, run-plan}
use meshp.Wgplan.Realize.{reached-IsHost, reached_peer}
use meshp.Wgplan.Contract.{planned}

-- What is there and is no longer wanted: a keepalive, or a preshared key.
abbrev pub Dropped : Peer → Peer → Type 0
Dropped c d =
    ((d.keepalive_seconds ≡ pos 0) × (int_lt (pos 0) c.keepalive_seconds ≡ true))
    ⊎ ((d.preshared_key ≡ "") × (c.preshared_key ≢ ""))

positive_not_zero : (a : ℤ) → int_lt (pos 0) a ≡ true → int_same a (pos 0) ≡ false
positive_not_zero (pos a) h = ground arith
positive_not_zero (negsuc a) h = refl

append_nothing {ℓ} : {A : Type ℓ} (xs ys : List A) → xs ++ ys ≡ [] → (xs ≡ []) × (ys ≡ [])
append_nothing [] ys e = (refl, e)
append_nothing (x ∷ xs) ys e = absurd (cc e)

module _ (t : Texts) where
  offered_settings :
      (c d : Peer)
      → ((offered t c d).keepalive_seconds ≡ d.keepalive_seconds)
        × ((offered t c d).preshared_key ≡ d.preshared_key)
  offered_settings c d = elim (Bool-cases (keep_observed_endpoint t c d)) [
    | inl kept ↦ rw kept (refl, refl)
    | inr not_kept ↦ rw not_kept (refl, refl)
  ]

  Dropped-differ : (c d : Peer) → Dropped c d → same_apart_from_endpoint t c d ≡ false
  unfolding same_apart_from_endpoint
  Dropped-differ c d (inl (none_wanted, there)) =
      rw (none_wanted, positive_not_zero c.keepalive_seconds there)
        (neither_way (equal c.preshared_key d.preshared_key))
    where
      neither_way : (a : Bool) → (a && false) ≡ false
      neither_way true = refl
      neither_way false = refl
  Dropped-differ c d (inr (none_wanted, there)) =
      rw (none_wanted, equal_ne c.preshared_key "" there)

  -- What is written leaves it there.
  written-Dropped :
      (c d : Peer) → Dropped c d → Dropped (configured (peer_config (offered t c d)) c) d
  unfolding configured peer_config
  written-Dropped c d (inl (none_wanted, there)) =
      let off : (offered t c d).keepalive_seconds ≡ pos 0 =
        (offered_settings c d).0 ∙ none_wanted in
      inl (none_wanted, rw off there)
  written-Dropped c d (inr (none_wanted, there)) =
      let off : (offered t c d).preshared_key ≡ "" = (offered_settings c d).1 ∙ none_wanted in
      inr (none_wanted, rw off there)

  -- Its endpoint is no reason to remove it first.
  Dropped-not_cleared :
      (c d : Peer)
      → must_clear t c d ≡ false
      → must_clear t (configured (peer_config (offered t c d)) c) d ≡ false
  unfolding configured peer_config
  Dropped-not_cleared c d stays = elim (Bool-cases (keep_observed_endpoint t c d)) [
    | inl kept ↦ rw kept stays
    | inr replaced ↦ elim (Bool-cases (equal d.endpoint "")) [
      | inl empty ↦ rw (replaced, empty) (rw empty at stays)
      | inr filled ↦ rw (replaced, filled) (unset d.relayed (is_loopback t d.endpoint))
    ]
  ]
    where
      unset : (a b : Bool) → (b && (not a && false)) ≡ false
      unset true true = refl
      unset true false = refl
      unset false true = refl
      unset false false = refl

  Dropped-written :
      (c d : Peer)
      → Dropped c d
      → must_clear t c d ≡ false
      → (k : String) → ops_for_peer t k (some c) d ≡ set_peer (offered t c d) ∷ []
  unfolding ops_for_peer resolve_peer
  Dropped-written c d gone stays k = rw (stays, Dropped-differ c d gone)

  becomes_written :
      (c d : Peer)
      → Dropped c d
      → must_clear t c d ≡ false
      → becomes t (some c) d ≡ configured (peer_config (offered t c d)) c
  unfolding becomes resolve_peer
  becomes_written c d gone stays = rw (stays, Dropped-differ c d gone)

  -- A plan with nothing to do has nothing to do for any wanted peer.
  set_ops_nothing :
      (have es : Assoc String Peer) (k : String) (d : Peer)
      → set_ops t have es ≡ []
      → lookup k es ≡ some d
      → ops_for_peer t k (lookup k have) d ≡ []
  unfolding set_ops lookup
  set_ops_nothing have [] k d e l = absurd (cc l)
  set_ops_nothing have ((j, f) ∷ es) k d e l =
      let (first, rest) =
        append_nothing (ops_for_peer t j (lookup j have) f) (set_ops t have es) e in
      elim (Bool-cases (equal j k)) [
        | inl here ↦
            let same : j ≡ k = (equal_iff j k).0 here in
            let it : f ≡ d = cc (rw here at l) in
            ap (λ i. ops_for_peer t i (lookup i have) d) (sym same)
            ∙ (ap (ops_for_peer t j (lookup j have)) (sym it) ∙ first)
        | inr other ↦ set_ops_nothing have es k d rest (rw other at l)
      ]

  plan_nothing :
      (want : Interface) (h : Host) (k : String) (d : Peer)
      → IsHost h
      → plan t want (observe h) ≡ []
      → wanted want k ≡ some d
      → ops_for_peer t k (lookup k h.peers) d ≡ []
  unfolding plan peer_ops
  plan_nothing want h k d u e it =
      let have = index_peers (observe h).peers in
      let for_peers = peer_ops t have (index_peers want.peers) in
      let device = device_ops want (observe h) in
      let create = if (observe h).is_there then [] else create_device ∷ [] in
      let (removes, sets) =
        append_nothing (remove_ops (index_peers want.peers) (sorted_peers have)) _
          (third create device for_peers _ e) in
      let (w, same) =
        sort-IsMap string_lt (index_peers want.peers) (index_peers-IsMap want.peers) in
      ap (λ o. ops_for_peer t k o d) (sym (observed_peers h k u))
      ∙ set_ops_nothing have (sorted_peers (index_peers want.peers)) k d sets (same k ∙ it)
    where
      third : (ws xs ys zs : List Op) → ws ++ (xs ++ (ys ++ zs)) ≡ [] → ys ≡ []
      third ws xs ys zs none_left =
          (append_nothing ys zs
            (append_nothing xs (ys ++ zs) (append_nothing ws (xs ++ (ys ++ zs)) none_left).1).1).0

  -- When a preshared key or a keepalive of a peer that is there is no longer wanted, and the peer is
  -- not removed first, the plan runs through on the interface as its operations and peerConfig are
  -- meant to change it, and leaves the key or the keepalive in place; and the next plan is not empty.
  pub plan-Dropped :
      (os : Choices)
      → (want : Interface) (h : Host) (ops : List Op) (k : String) (c d : Peer) → IsHost h
      → plan_for t want (observe h) ≡ ok ops
      → wanted want k ≡ some d
      → lookup k h.peers ≡ some c
      → Dropped c d
      → must_clear t c d ≡ false
      → (h' : Host) × (run os ops h ≡ some h')
        × ((p : Peer) × (lookup k h'.peers ≡ some p) × Dropped p d)
        × (plan t want (observe h') ≢ [])
  plan-Dropped os want h ops k c d u e it there gone stays =
      let (valid, made) = planned os t want h ops e in
      let v = validate-IsValid t want valid in
      let p = configured (peer_config (offered t c d)) c in
      let left : lookup k (reached os t want h).peers ≡ some p =
        reached_peer os t want h v u k
        ∙ rw (there, it) (ap (λ (q : Peer). some q) (becomes_written c d gone stays)) in
      let still = written-Dropped c d gone in
      (
        reached os t want h,
        ap (λ l. run os l h) (sym made) ∙ run-plan os t want h u v.mtu_positive,
        (p, left, still),
        λ idle. cc (
          sym (Dropped-written p d still (Dropped-not_cleared c d stays) k),
          ap (λ o. ops_for_peer t k o d) (sym left),
          plan_nothing want (reached os t want h) k d (reached-IsHost os t want h v u) idle it,
        ),
      )
