-- ===== src/Acl/Meaning.antt =====
-- What the selectors of a rule mean, apart from how they are compiled.
use meshp.Prelude.{
  ◌≡◌, ◌≢◌, ◌⊎◌, ◌↔◌, inl, inr, refl, ◌∙◌, arith, Bool, Bool-cases, true, false, ◌&&◌, Option-cases,
  none, some, List, [], ◌∷◌, String,
}
use meshp.Prelude.Equality.{Eq, equal, equal_iff, string_eq}
use meshp.Prelude.Keyed.{elem}
use meshp.Prelude.Members.{any_is}
use meshp.Netip.{Addr, Prefix, addr_eq, prefix_eq, masked, unmap, bit_len, overlaps}
use meshp.Acl.Document.{Reading, parse_prefix, prefix_of}
use meshp.Acl.Compile.{Device, matches}
use meshp.Acl.Names.{called, names}

-- An element has a property.
abbrev pub Some {ℓ} : {A : Type ℓ} → (A → Type 0) → List A → Type 0
Some P [] = ⊥
Some P (x ∷ xs) = P x ⊎ Some P xs

pub any_is-Some {ℓ} :
    {A : Type ℓ} (test : A → Bool) (P : A → Type 0)
    → ((x : A) → (test x ≡ true) ↔ P x)
    → (xs : List A) → (any_is test xs ≡ true) ↔ Some P xs
unfolding any_is
any_is-Some test P each [] = (λ e. absurd (cc e), λ e. absurd e)
any_is-Some test P each (x ∷ xs) = ground (arith, each x, any_is-Some test P each xs)

pub elem-Some :
    {A : Type 0} ⦃e : Eq A⦄ (k : A) (xs : List A) → (elem k xs ≡ true) ↔ Some (λ x. x ≡ k) xs
unfolding elem
elem-Some k [] = (λ e. absurd (cc e), λ e. absurd e)
elem-Some k (x ∷ xs) = ground (arith, equal_iff x k, elem-Some k xs)

Some-none {ℓ} : {A : Type ℓ} (P : A → Type 0) → ((x : A) → ¬ P x) → (xs : List A) → ¬ Some P xs
Some-none P each [] none_there = absurd none_there
Some-none P each (x ∷ xs) (inl here) = each x here
Some-none P each (x ∷ xs) (inr later) = Some-none P each xs later

pub and_iff :
    (a b : Bool) (P Q : Type 0) → ((a ≡ true) ↔ P) → ((b ≡ true) ↔ Q) → ((a && b) ≡ true) ↔ (P × Q)
and_iff true b P Q p q = (λ h. (p.0 refl, q.0 h), λ h. q.1 h.1)
and_iff false b P Q p q = (λ h. absurd (cc h), λ h. absurd (cc (p.1 h.0)))

module _ (t : Reading) where
  -- A text is read as a prefix: one in CIDR notation, without the bits of its hosts, or an address.
  abbrev pub IsPrefix : String → Prefix → Type 0
  IsPrefix s p =
      ((q : Prefix) × (t.has_slash s ≡ true) × (t.parse_cidr s ≡ some q) × (p ≡ masked q))
      ⊎ ((a : Addr) × (t.has_slash s ≡ false)
          × (t.parse_addr s ≡ some a)
          × (p ≡ record { addr = unmap a; bits = bit_len (unmap a) }))

  -- A device has an address by that name.
  abbrev pub Called : String → Device → Type 0
  Called s d = Some (λ (p : Prefix). t.prefix_text p ≡ s) d.addresses

  -- A selector picks a device: every one, those with a tag, or those with an address in a prefix.
  pub data Picks (d : Device) (s : String) : Type 0 where
    everyone : s ≡ "*" → Picks d s
    tagged : {tag : String} → t.cut_tag s ≡ some tag → Some (λ x. x ≡ tag) d.tags → Picks d s
    placed :
        {p : Prefix}
        → t.cut_tag s ≡ none
        → IsPrefix s p
        → Some (λ q. overlaps p q ≡ true) d.addresses
        → Picks d s

  -- What a selector stands for in a filter: a prefix for itself, and any other for the addresses
  -- of the devices that it picks.
  pub data Stands (peers : List Device) (s selector : String) : Type 0 where
    itself :
        {p : Prefix}
        → selector ≢ "*"
        → t.cut_tag selector ≡ none
        → IsPrefix selector p
        → t.prefix_text p ≡ s
        → Stands peers s selector
    members :
        (selector ≡ "*") ⊎ ((tag : String) × (t.cut_tag selector ≡ some tag))
        → Some (λ peer. Picks peer selector × Called s peer) peers
        → Stands peers s selector

  parse_prefix-IsPrefix : (s : String) (p : Prefix) → parse_prefix t s ≡ some p → IsPrefix s p
  unfolding parse_prefix
  parse_prefix-IsPrefix s p e = elim (Bool-cases (t.has_slash s)) [
    | inl slash ↦ elim (Option-cases (t.parse_cidr s)) [
      | inl gone ↦ absurd (cc (rw (slash, gone) at e))
      | inr (q, read) ↦
          let made : some (masked q) ≡ some p = rw (slash, read) at e in
          inl (q, slash, read, cc made)
    ]
    | inr plain ↦ elim (Option-cases (t.parse_addr s)) [
      | inl gone ↦ absurd (cc (rw (plain, gone) at e))
      | inr (a, read) ↦
          let made : some (record { addr = unmap a; bits = bit_len (unmap a) }) ≡ some p =
            rw (plain, read) at e in
          inr (a, plain, read, cc made)
    ]
  ]

  IsPrefix-parse_prefix : (s : String) (p : Prefix) → IsPrefix s p → parse_prefix t s ≡ some p
  unfolding parse_prefix
  IsPrefix-parse_prefix s p (inl (q, slash, read, made)) = rw (slash, read, made)
  IsPrefix-parse_prefix s p (inr (a, plain, read, made)) = rw (plain, read, made)

  prefix_of-plain :
      (s : String) → equal s "*" ≡ false → t.cut_tag s ≡ none → prefix_of t s ≡ parse_prefix t s
  unfolding prefix_of
  prefix_of-plain s other untagged = rw (other, untagged)

  placed-Some :
      (p : Prefix) (ps : List Prefix)
      → (any_is (overlaps p) ps ≡ true) ↔ Some (λ q. overlaps p q ≡ true) ps
  placed-Some p ps = any_is-Some (overlaps p) (λ q. overlaps p q ≡ true) (λ q. (λ h. h, λ h. h)) ps

  matches-Picks : (d : Device) (s : String) → matches t d s ≡ true → Picks d s
  unfolding matches
  matches-Picks d s h = elim (Bool-cases (equal s "*")) [
    | inl all ↦ everyone ((equal_iff s "*").0 all)
    | inr other ↦ elim (Option-cases (t.cut_tag s)) [
      | inr (tag, cut) ↦ tagged cut ((elem-Some tag d.tags).0 (rw (other, cut) at h))
      | inl untagged ↦ elim (Option-cases (parse_prefix t s)) [
        | inl gone ↦
            absurd (cc (rw (other, untagged, prefix_of-plain s other untagged ∙ gone) at h))
        | inr (p, read) ↦ placed untagged (parse_prefix-IsPrefix s p read) (
            (placed-Some p d.addresses).0
              (rw (other, untagged, prefix_of-plain s other untagged ∙ read) at h))
      ]
    ]
  ]

  Picks-matches : (d : Device) (s : String) → Picks d s → matches t d s ≡ true
  unfolding matches
  Picks-matches d s (everyone all) = rw ((equal_iff s "*").1 all)
  Picks-matches d s (tagged {tag = tag} cut has) = elim (Bool-cases (equal s "*")) [
    | inl all ↦ rw all
    | inr other ↦ rw (other, cut, (elem-Some tag d.tags).1 has)
  ]
  Picks-matches d s (placed {p = p} untagged read near) = elim (Bool-cases (equal s "*")) [
    | inl all ↦ rw all
    | inr other ↦ rw (
      other,
      untagged,
      prefix_of-plain s other untagged ∙ IsPrefix-parse_prefix s p read,
      (placed-Some p d.addresses).1 near,
    )
  ]

  pub picked_iff :
      (d : Device) (ss : List String) → (any_is (matches t d) ss ≡ true) ↔ Some (Picks d) ss
  picked_iff d ss =
      any_is-Some (matches t d) (Picks d) (λ s. (matches-Picks d s, Picks-matches d s)) ss

  called_list :
      (s : String) (ps : List Prefix)
      → (called t s ps ≡ true) ↔ Some (λ (p : Prefix). t.prefix_text p ≡ s) ps
  unfolding elem
  called_list s [] = (λ e. absurd (cc e), λ e. absurd e)
  called_list s (p ∷ ps) = ground (arith, equal_iff (t.prefix_text p) s, called_list s ps)

  pub called_iff : (s : String) (d : Device) → (called t s d.addresses ≡ true) ↔ Called s d
  called_iff s d = called_list s d.addresses

  -- A selector that is no prefix and has no tag picks nobody.
  Picks-none :
      (d : Device) (s : String)
      → equal s "*" ≡ false
      → t.cut_tag s ≡ none
      → parse_prefix t s ≡ none
      → ¬ Picks d s
  Picks-none d s other untagged gone (everyone all) = cc ((equal_iff s "*").1 all, other)
  Picks-none d s other untagged gone (tagged cut has) = cc (cut, untagged)
  Picks-none d s other untagged gone (placed {p = p} u read near) =
      cc (IsPrefix-parse_prefix s p read, gone)

  members_iff :
      (peers : List Device) (s selector : String)
      → (any_is (λ peer. matches t peer selector && called t s peer.addresses) peers ≡ true)
        ↔ Some (λ peer. Picks peer selector × Called s peer) peers
  members_iff peers s selector =
      any_is-Some (λ peer. matches t peer selector && called t s peer.addresses)
        (λ peer. Picks peer selector × Called s peer)
        (λ peer.
          and_iff (matches t peer selector) (called t s peer.addresses) (Picks peer selector)
            (Called s peer) (matches-Picks peer selector, Picks-matches peer selector)
            (called_iff s peer))
        peers

  names-Stands :
      (peers : List Device) (s selector : String)
      → names t peers s selector ≡ true
      → Stands peers s selector
  unfolding names prefix_of matches any_is
  names-Stands peers s selector h = elim (Bool-cases (equal selector "*")) [
    | inl all ↦
        members (inl ((equal_iff selector "*").0 all))
          ((members_iff peers s selector).0 (rw all at h))
    | inr other ↦ elim (Option-cases (t.cut_tag selector)) [
      | inr (tag, cut) ↦
          members (inr (tag, cut)) ((members_iff peers s selector).0 (rw (other, cut) at h))
      | inl untagged ↦ elim (Option-cases (parse_prefix t selector)) [
        | inl gone ↦ absurd (
            Some-none _ (λ peer both. Picks-none peer selector other untagged gone both.0) peers
              ((members_iff peers s selector).0 (rw (other, untagged, gone) at h)))
        | inr (p, read) ↦
            itself (λ all. cc ((equal_iff selector "*").1 all, other)) untagged
              (parse_prefix-IsPrefix selector p read)
              ((equal_iff (t.prefix_text p) s).0 (rw (other, untagged, read) at h))
      ]
    ]
  ]

  Stands-names :
      (peers : List Device) (s selector : String)
      → Stands peers s selector
      → names t peers s selector ≡ true
  unfolding names prefix_of
  Stands-names peers s selector (itself {p = p} other untagged read named) =
      let no_star : equal selector "*" ≡ false = ground (arith, equal_iff selector "*", other) in
      rw (no_star, untagged, IsPrefix-parse_prefix selector p read)
        ((equal_iff (t.prefix_text p) s).1 named)
  Stands-names peers s selector (members (inl all) found) =
      rw ((equal_iff selector "*").1 all) ((members_iff peers s selector).1 found)
  Stands-names peers s selector (members (inr (tag, cut)) found) =
      elim (Bool-cases (equal selector "*")) [
        | inl all ↦ rw all ((members_iff peers s selector).1 found)
        | inr other ↦ rw (other, cut) ((members_iff peers s selector).1 found)
      ]

  pub named_iff :
      (peers : List Device) (s : String) (ss : List String)
      → (any_is (names t peers s) ss ≡ true) ↔ Some (Stands peers s) ss
  named_iff peers s ss =
      any_is-Some (names t peers s) (Stands peers s)
        (λ x. (names-Stands peers s x, Stands-names peers s x)) ss
