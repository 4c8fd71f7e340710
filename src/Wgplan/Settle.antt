-- ===== src/Wgplan/Settle.antt =====
-- What the loop over the wanted peers makes of one of them, whatever it does to the others.
use meshp.Prelude.{
  ◌≡◌, ◌≢◌, ◌⊎◌, refl, sym, ap, ◌∙◌, arith, Bool-cases, true, false, inl, inr, Option, none, some,
  List, [], ◌∷◌, ◌++◌, String,
}
use meshp.Prelude.Equality.{equal, equal_iff, equal_refl, ne_of_equal, string_eq}
use meshp.Prelude.Assoc.{Assoc, IsMap, lookup}
use meshp.Prelude.Keyed.{elem}
use meshp.Netip.{Prefix, prefix_eq}
use meshp.Wgplan.Types.{Texts, Peer, Op}
use meshp.Wgplan.Peers.{resolve_peer, must_clear, ops_for_peer, set_ops}
use meshp.Wgplan.Track.{OnPeers, track_all, track_all-append}
use meshp.Wgplan.Touch.{
  Apart, gone_both, there_further, first_there, ops_for_peer-Shapes, track-Apart, track_absent,
  AsFound, AsFound-other,
}
use meshp.Wgplan.Becomes.{keeps, becomes, track_own, becomes_allowed, becomes_kept, kept_allowed}

module _ (t : Texts) where
  -- Each peer that is to be set has its own key, and shares no prefix with the one at the key.
  pub record Fits (k : String) (d : Peer) (es : Assoc String Peer) : Type 0 where
    pub is_map : IsMap es
    pub keyed : (j : String) (e : Peer) → lookup j es ≡ some e → e.public_key ≡ j
    pub apart :
        (j : String) (e : Peer) → lookup j es ≡ some e → j ≢ k → Apart d.allowed_ips e.allowed_ips

  Fits-tail :
      (k j : String) (d e : Peer) (es : Assoc String Peer) → Fits k d ((j, e) ∷ es) → Fits k d es
  unfolding lookup
  Fits-tail k j d e es f = record {
    is_map = f.is_map.1;
    keyed = λ i p h. f.keyed i p (ground (arith, equal_iff j i, f.is_map));
    apart = λ i p h ne. f.apart i p (ground (arith, equal_iff j i, f.is_map)) ne;
  }

  Fits-head :
      (k j : String) (d e : Peer) (es : Assoc String Peer)
      → Fits k d ((j, e) ∷ es)
      → lookup j ((j, e) ∷ es) ≡ some e
  unfolding lookup
  Fits-head k j d e es f = rw (equal_refl j)

  -- No operation for another peer touches one that has the addresses it should have.
  all_apart :
      (k : String) (have es : Assoc String Peer) (d p : Peer)
      → Fits k d es
      → lookup k es ≡ none
      → ((x : Prefix) → elem x p.allowed_ips ≡ elem x d.allowed_ips)
      → track_all k (set_ops t have es) (some p) ≡ some p
  unfolding set_ops lookup
  all_apart k have [] d p f gone same = unfold track_all in refl
  all_apart k have ((j, e) ∷ es) d p f gone same =
      let (ne, rest) = gone_both k j e es gone in
      let head = Fits-head k j d e es f in
      track_all-append k (ops_for_peer t j (lookup j have) e) (set_ops t have es) (some p)
      ∙ (ap (track_all k (set_ops t have es)) (
            track-Apart t k j (lookup j have) e p ne (f.keyed j e head)
              (λ x h. f.apart j e head ne x (sym (same x) ∙ h)))
          ∙ all_apart k have es d p (Fits-tail k j d e es f) rest same)

  pub kept_none :
      (c d : Peer) (k : String) → keeps t (some c) d ≡ true → ops_for_peer t k (some c) d ≡ []
  unfolding keeps ops_for_peer
  kept_none c d k w = elim (Bool-cases (must_clear t c d)) [
    | inl clear ↦ absurd (cc (rw clear at w))
    | inr stays ↦ elim (Bool-cases (resolve_peer t c d).0) [
      | inl write ↦ absurd (cc (rw (stays, write) at w))
      | inr rest ↦ rw (stays, rest)
    ]
  ]

  -- If nothing is written for a peer, it is there.
  kept_there :
      (cur : Option Peer) (d : Peer)
      → (keeps t cur d ≡ false) ⊎ ((c : Peer) × (cur ≡ some c) × (keeps t (some c) d ≡ true))
  kept_there none d = unfold keeps in inl refl
  kept_there (some c) d = elim (Bool-cases (keeps t (some c) d)) [
    | inl yes_it_is ↦ inr (c, refl, yes_it_is)
    | inr it_is_not ↦ inl it_is_not
  ]

  -- As it was found up to its addresses, or in all where nothing is written.
  abbrev Found : Option Peer → Peer → Option Peer → Type 0
  Found cur d o = AsFound t cur o × ((keeps t cur d ≡ false) ⊎ (o ≡ cur))

  Found-other :
      (k j : String) (have cur : Option Peer) (d e : Peer) (o : Option Peer)
      → j ≢ k
      → e.public_key ≡ j
      → Apart d.allowed_ips e.allowed_ips
      → Found cur d o
      → Found cur d (track_all k (ops_for_peer t j have e) o)
  Found-other k j have cur d e o ne key apart (found, how) = (
    AsFound-other t k j have e cur o ne key found,
    elim how [
      | inl w ↦ inl w
      | inr same ↦ elim (kept_there cur d) [
        | inl w ↦ inl w
        | inr (c, is, w) ↦ inr (
            rw (same, is)
              (track-Apart t k j have e c ne key
                (λ x h. apart x (sym (kept_allowed t c d x w) ∙ h))))
      ]
    ],
  )

  at_own :
      (k : String) (have es : Assoc String Peer) (d : Peer) (o : Option Peer)
      → Fits k d es
      → lookup k es ≡ none
      → d.public_key ≡ k
      → Found (lookup k have) d o
      → track_all k (ops_for_peer t k (lookup k have) d ++ set_ops t have es) o
        ≡ some (becomes t (lookup k have) d)
  unfolding track_all
  at_own k have es d o f gone key (found, how) =
      let own = ops_for_peer t k (lookup k have) d in
      track_all-append k own (set_ops t have es) o ∙ elim (kept_there (lookup k have) d) [
        | inl w ↦
            ap (track_all k (set_ops t have es)) (track_own t k (lookup k have) o d key w found)
            ∙ all_apart k have es d (becomes t (lookup k have) d) f gone
                (λ x. ap (elem x) (becomes_allowed t (lookup k have) d w))
        | inr (c, is, w) ↦ elim how [
          | inl never ↦ absurd (cc (never, ap (λ u. keeps t u d) is, w))
          | inr same ↦
              rw (same, is, kept_none c d k w, becomes_kept t c d w)
                (all_apart k have es d c f gone (λ x. kept_allowed t c d x w))
        ]
      ]

  -- The whole loop at the key of a wanted peer.
  pub set_ops_settle :
      (k : String) (have es : Assoc String Peer) (d : Peer) (o : Option Peer)
      → Fits k d es
      → lookup k es ≡ some d
      → Found (lookup k have) d o
      → track_all k (set_ops t have es) o ≡ some (becomes t (lookup k have) d)
  unfolding set_ops lookup
  set_ops_settle k have [] d o f there found = absurd (cc there)
  set_ops_settle k have ((j, e) ∷ es) d o f there found = elim (Bool-cases (equal j k)) [
    | inl here ↦
        let same_key : j ≡ k = (equal_iff j k).0 here in
        let same_peer : e ≡ d = first_there k j e d es there same_key in
        let tail = Fits-tail k j d e es f in
        rw (same_key, same_peer)
          (at_own k have es d o tail (rw same_key at f.is_map.0)
            (rw (same_key, same_peer) at (f.keyed j e (Fits-head k j d e es f))) found)
    | inr other ↦
        let ne : j ≢ k = ne_of_equal j k other in
        let rest : lookup k es ≡ some d = there_further k j e d es there ne in
        let head = Fits-head k j d e es f in
        let own = ops_for_peer t j (lookup j have) e in
        track_all-append k own (set_ops t have es) o
        ∙ set_ops_settle k have es d (track_all k own o) (Fits-tail k j d e es f) rest (
            Found-other k j (lookup j have) (lookup k have) d e o ne (f.keyed j e head)
              (f.apart j e head ne) found)
  ]

pub OnPeers-append : (xs ys : List Op) → OnPeers xs → OnPeers ys → OnPeers (xs ++ ys)
OnPeers-append [] ys h k = k
OnPeers-append (x ∷ xs) ys h k = (h.0, OnPeers-append xs ys h.1 k)

pub OnPeers-ops_for_peer :
    (t : Texts) (k : String) (cur : Option Peer) (d : Peer) → OnPeers (ops_for_peer t k cur d)
OnPeers-ops_for_peer t k cur d = elim (ops_for_peer-Shapes t k cur d) [
  | inl none_at_all ↦ rw none_at_all tt
  | inr (p, pk, ips, how) ↦ elim how [
    | inl set ↦ rw set (refl, tt)
    | inr both ↦ rw both (refl, (refl, tt))
  ]
]

pub at_head : (j : String) (e : Peer) (es : Assoc String Peer) → lookup j ((j, e) ∷ es) ≡ some e
unfolding lookup
at_head j e es = rw (equal_refl j)

pub further :
    (j i : String) (e p : Peer) (es : Assoc String Peer)
    → lookup j es ≡ none
    → lookup i es ≡ some p
    → lookup i ((j, e) ∷ es) ≡ some p
unfolding lookup
further j i e p es gone l = ground (arith, equal_iff j i)

-- A peer that is not wanted is not brought back.
pub set_ops_absent :
    (t : Texts) (k : String) (have es : Assoc String Peer)
    → IsMap es
    → ((j : String) (e : Peer) → lookup j es ≡ some e → e.public_key ≡ j)
    → lookup k es ≡ none
    → track_all k (set_ops t have es) none ≡ none
unfolding set_ops
set_ops_absent t k have [] u keyed gone = unfold track_all in refl
set_ops_absent t k have ((j, e) ∷ es) u keyed gone =
    let (ne, rest) = gone_both k j e es gone in
    track_all-append k (ops_for_peer t j (lookup j have) e) (set_ops t have es) none
    ∙ (ap (track_all k (set_ops t have es))
          (track_absent t k j (lookup j have) e ne (keyed j e (at_head j e es)))
        ∙ set_ops_absent t k have es u.1 (λ i p l. keyed i p (further j i e p es u.0 l)) rest)

-- A peer is as it was found before anything is done.
pub AsFound-self : (t : Texts) (o : Option Peer) → AsFound t o o
AsFound-self t none = refl
AsFound-self t (some c) = (c.allowed_ips, refl)
