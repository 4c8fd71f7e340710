-- ===== src/Wgplan/Touch.antt =====
-- What the operations for one peer do to the others.
use meshp.Prelude.{
  ◌≡◌, ◌≢◌, ◌⊎◌, refl, ap, ◌∙◌, arith, Bool, Bool-cases, true, false, not, ◌&&◌, inl, inr, Option,
  none, some, List, [], ◌∷◌, String,
}
use mathlib.Core.Option
use meshp.Prelude.Equality.{Eq, equal, equal_iff, equal_refl, equal_ne, string_eq}
use meshp.Prelude.Assoc.{Assoc, lookup}
use meshp.Prelude.Keyed.{elem}
use meshp.Prelude.Sorting.{filter}
use meshp.Netip.{Prefix, prefix_eq}
use meshp.Wgplan.Types.{Texts, Peer, Op, remove_peer, set_peer}
use meshp.Wgplan.Peers.{
  same_prefixes, keep_observed_endpoint, offered, resolve_peer, must_clear, ops_for_peer,
}
use meshp.Wgplan.Host.{without_prefixes}
use meshp.Wgplan.Track.{track, track_all}

-- No prefix is in both.
abbrev pub Apart : List Prefix → List Prefix → Type 0
Apart ps qs = (x : Prefix) → elem x ps ≡ true → elem x qs ≡ false

pub filter_all {ℓ} :
    {K : Type ℓ} ⦃e : Eq K⦄ (keep : K → Bool) (l : List K)
    → ((x : K) → elem x l ≡ true → keep x ≡ true)
    → filter keep l ≡ l
unfolding filter elem
filter_all keep [] all = refl
filter_all keep (x ∷ l) all =
    rw (all x (rw (equal_refl x)), filter_all keep l (λ y h. all y (ground arith)))

without_prefixes_none :
    (taken : List Prefix) (p : Peer) → Apart p.allowed_ips taken → without_prefixes taken p ≡ p
unfolding without_prefixes
without_prefixes_none taken p apart =
    ap (λ l. record p { allowed_ips = l })
      (filter_all (λ q. not (elem q taken)) p.allowed_ips (λ x h. rw (apart x h)))

pub same_prefixes_eq : (ps qs : List Prefix) → same_prefixes ps qs ≡ true → ps ≡ qs
same_prefixes_eq [] [] h = refl
same_prefixes_eq [] (q ∷ qs) h = absurd (cc h)
same_prefixes_eq (p ∷ ps) [] h = absurd (cc h)
same_prefixes_eq (p ∷ ps) (q ∷ qs) h = elim (Bool-cases (equal p q)) [
  | inl same ↦
      let first : p ≡ q = (equal_iff p q).0 same in
      let others : ps ≡ qs = same_prefixes_eq ps qs (rw same at h) in cc (first, others)
  | inr differ ↦ absurd (cc (rw differ at h))
]

pub and_both : (a b : Bool) → (a && b) ≡ true → (a ≡ true) × (b ≡ true)
and_both true true h = (refl, refl)
and_both true false h = absurd (cc h)
and_both false b h = absurd (cc h)

pub and_false : (a : Bool) → (a && false) ≡ false
and_false true = refl
and_false false = refl

pub gone_both :
    (k j : String) (e : Peer) (es : Assoc String Peer)
    → lookup k ((j, e) ∷ es) ≡ none
    → (j ≢ k) × (lookup k es ≡ none)
unfolding lookup
gone_both k j e es gone = ground (arith, equal_iff j k)

pub there_further :
    (k j : String) (e d : Peer) (es : Assoc String Peer)
    → lookup k ((j, e) ∷ es) ≡ some d
    → j ≢ k
    → lookup k es ≡ some d
unfolding lookup
there_further k j e d es there ne = ground (arith, equal_iff j k)

pub first_there :
    (k j : String) (e d : Peer) (es : Assoc String Peer)
    → lookup k ((j, e) ∷ es) ≡ some d
    → j ≡ k
    → e ≡ d
unfolding lookup
first_there k j e d es there same = ground (arith, equal_iff j k)

module _ (t : Texts) where
  -- What is written keeps the key and the addresses.
  pub offered_keeps :
      (c d : Peer)
      → ((offered t c d).public_key ≡ d.public_key) × ((offered t c d).allowed_ips ≡ d.allowed_ips)
  offered_keeps c d = elim (Bool-cases (keep_observed_endpoint t c d)) [
    | inl h ↦ rw h (refl, refl)
    | inr h ↦ rw h (refl, refl)
  ]

  -- The operations for a peer either are none, or set it, or remove it and set it.
  abbrev Shapes : String → Peer → List Op → Type 0
  Shapes j d ops =
      (ops ≡ [])
      ⊎ ((p : Peer) × (p.public_key ≡ d.public_key)
          × (p.allowed_ips ≡ d.allowed_ips)
          × ((ops ≡ set_peer p ∷ []) ⊎ (ops ≡ remove_peer j ∷ set_peer p ∷ [])))

  pub ops_for_peer-Shapes :
      (j : String) (cur : Option Peer) (d : Peer) → Shapes j d (ops_for_peer t j cur d)
  unfolding ops_for_peer resolve_peer
  ops_for_peer-Shapes j none d = inr (d, refl, refl, inl refl)
  ops_for_peer-Shapes j (some c) d =
      let (key, ips) = offered_keeps c d in
      elim (Bool-cases (must_clear t c d)) [
        | inl h ↦ inr (d, refl, refl, inr (rw h))
        | inr h ↦ elim (Bool-cases (resolve_peer t c d).0) [
          | inl w ↦ inr (offered t c d, key, ips, inl (ground arith))
          | inr w ↦ inl (ground arith)
        ]
      ]

  -- The operations for another peer, at a key.
  track_other :
      (k j : String) (cur : Option Peer) (d : Peer) (o : Option Peer)
      → j ≢ k
      → d.public_key ≡ j
      → (track_all k (ops_for_peer t j cur d) o ≡ o)
        ⊎ (track_all k (ops_for_peer t j cur d) o ≡ Option.map (without_prefixes d.allowed_ips) o)
  unfolding track_all track
  track_other k j cur d o ne key = elim (ops_for_peer-Shapes j cur d) [
    | inl none_at_all ↦ inl (rw none_at_all)
    | inr (p, pk, ips, how) ↦ elim how [
      | inl set ↦ inr (rw (set, pk, key, equal_ne j k ne, ips))
      | inr both ↦ inr (rw (both, pk, key, equal_ne j k ne, ips))
    ]
  ]

  -- A peer that shares no prefix with another one does not see it change.
  pub track-Apart :
      (k j : String) (cur : Option Peer) (d o : Peer)
      → j ≢ k
      → d.public_key ≡ j
      → Apart o.allowed_ips d.allowed_ips
      → track_all k (ops_for_peer t j cur d) (some o) ≡ some o
  track-Apart k j cur d o ne key apart = elim (track_other k j cur d (some o) ne key) [
    | inl same ↦ same
    | inr less ↦ less ∙ ap (λ (p : Peer). some p) (without_prefixes_none d.allowed_ips o apart)
  ]

  pub track_absent :
      (k j : String) (cur : Option Peer) (d : Peer)
      → j ≢ k
      → d.public_key ≡ j
      → track_all k (ops_for_peer t j cur d) none ≡ none
  track_absent k j cur d ne key = elim (track_other k j cur d none ne key) [
    | inl same ↦ same
    | inr less ↦ less
  ]

  -- The peer at the key is as it was found, up to its addresses.
  abbrev pub AsFound : Option Peer → Option Peer → Type 0
  AsFound none o = o ≡ none
  AsFound (some c) o = (l : List Prefix) × (o ≡ some (record c { allowed_ips = l }))

  AsFound-without :
      (taken : List Prefix) (cur o : Option Peer)
      → AsFound cur o
      → AsFound cur (Option.map (without_prefixes taken) o)
  unfolding without_prefixes
  AsFound-without taken none o h = rw h
  AsFound-without taken (some c) o (l, e) = (filter (λ q. not (elem q taken)) l, rw e)

  pub AsFound-other :
      (k j : String) (have : Option Peer) (d : Peer) (cur o : Option Peer)
      → j ≢ k
      → d.public_key ≡ j
      → AsFound cur o
      → AsFound cur (track_all k (ops_for_peer t j have d) o)
  AsFound-other k j have d cur o ne key h = elim (track_other k j have d o ne key) [
    | inl same ↦ rw same h
    | inr less ↦ rw less (AsFound-without d.allowed_ips cur o h)
  ]
