-- ===== src/Acl/Names.antt =====
-- The texts that selectors come down to.
use meshp.Prelude.{
  ◌≡◌, ◌≢◌, refl, sym, ap, ◌∙◌, arith, Bool, Bool-cases, true, false, ◌&&◌, ◌||◌, inl, inr, Option,
  Option-cases, none, some, List, [], ◌∷◌, map, String,
}
use meshp.Prelude.Equality.{equal, equal_iff, equal_refl, equal_ne, string_eq}
use meshp.Prelude.Keyed.{elem}
use meshp.Prelude.Members.{any_is}
use meshp.Prelude.Order.{insert_by, sort_by}
use meshp.Netip.{Prefix, prefix_eq}
use meshp.Acl.Document.{Reading, prefix_of}
use meshp.Acl.Compile.{
  Device, matches, put, put_all, put_matching, put_named, texts_after, sorted_prefixes, resolve,
  prefix_before,
}

module _ (t : Reading) where
  -- What a prefix is called in a filter.
  abbrev pub called : String → List Prefix → Bool
  called s ps = elem s (map t.prefix_text ps)

  -- A selector stands for a prefix by that name, or picks a device with such an address.
  abbrev pub named_as : List Device → String → String → Option Prefix → Bool
  named_as peers s selector (some p) = equal (t.prefix_text p) s
  named_as peers s selector none =
      any_is (λ peer. matches t peer selector && called s peer.addresses) peers

  unfoldable pub names : List Device → String → String → Bool
  names peers s selector = named_as peers s selector (prefix_of t selector)

  called-elem :
      (s : String) (p : Prefix) (l : List Prefix)
      → elem p l ≡ true
      → t.prefix_text p ≡ s
      → called s l ≡ true
  unfolding elem
  called-elem s p [] there same = absurd (cc there)
  called-elem s p (q ∷ l) there same = elim (Bool-cases (equal q p)) [
    | inl here ↦
        let first : t.prefix_text q ≡ s = ap t.prefix_text ((equal_iff q p).0 here) ∙ same in
        rw (first, equal_refl s)
    | inr other ↦ let later = called-elem s p l (rw other at there) same in ground arith
  ]

  called-put :
      (s : String) (p : Prefix) (l : List Prefix)
      → called s (put p l) ≡ (equal (t.prefix_text p) s || called s l)
  unfolding elem
  called-put s p l = elim (Bool-cases (elem p l)) [
    | inr out ↦ rw out (ground arith)
    | inl in_it ↦ elim (Bool-cases (equal (t.prefix_text p) s)) [
      | inl same ↦
          rw (in_it, same) (called-elem s p l in_it ((equal_iff (t.prefix_text p) s).0 same))
      | inr other ↦ rw (in_it, other)
    ]
  ]

  called-put_all :
      (s : String) (ps l : List Prefix) → called s (put_all ps l) ≡ (called s ps || called s l)
  unfolding put_all elem
  called-put_all s [] l = refl
  called-put_all s (p ∷ ps) l = ground (arith, called-put_all s ps (put p l), called-put s p l)

  called-put_matching :
      (s selector : String) (peers : List Device) (l : List Prefix)
      → called s (put_matching t selector peers l)
        ≡ (any_is (λ peer. matches t peer selector && called s peer.addresses) peers || called s l)
  unfolding put_matching any_is
  called-put_matching s selector [] l = refl
  called-put_matching s selector (peer ∷ peers) l = elim (Bool-cases (matches t peer selector)) [
    | inl picked ↦
        rw
          (
            picked,
            called-put_matching s selector peers (put_all peer.addresses l),
            called-put_all s peer.addresses l,
          )
          (swap (any_is (λ peer. matches t peer selector && called s peer.addresses) peers)
            (called s peer.addresses) (called s l))
    | inr passed ↦ rw (passed, called-put_matching s selector peers l)
  ]
    where
      swap : (a b c : Bool) → (a || (b || c)) ≡ ((b || a) || c)
      swap a b c = ground arith

  names-none :
      (s selector : String) (peers : List Device)
      → prefix_of t selector ≡ none
      → names peers s selector
        ≡ any_is (λ peer. matches t peer selector && called s peer.addresses) peers
  unfolding names
  names-none s selector peers e = ap (named_as peers s selector) e

  names-some :
      (s selector : String) (peers : List Device) (p : Prefix)
      → prefix_of t selector ≡ some p
      → names peers s selector ≡ equal (t.prefix_text p) s
  unfolding names
  names-some s selector peers p e = ap (named_as peers s selector) e

  called-put_named :
      (s : String) (selectors : List String) (peers : List Device) (l : List Prefix)
      → called s (put_named t selectors peers l) ≡ (any_is (names peers s) selectors || called s l)
  unfolding put_named any_is
  called-put_named s [] peers l = refl
  called-put_named s (selector ∷ selectors) peers l = elim (Option-cases (prefix_of t selector)) [
    | inr (p, it) ↦
        let one = names-some s selector peers p it in
        rw (it, called-put_named s selectors peers (put p l), called-put s p l, one)
          (swap (any_is (names peers s) selectors) (equal (t.prefix_text p) s) (called s l))
    | inl none_there ↦
        let one = names-none s selector peers none_there in
        rw
          (
            none_there,
            called-put_named s selectors peers (put_matching t selector peers l),
            called-put_matching s selector peers l,
            one,
          )
          (swap (any_is (names peers s) selectors)
            (any_is (λ peer. matches t peer selector && called s peer.addresses) peers)
            (called s l))
  ]
    where
      swap : (a b c : Bool) → (a || (b || c)) ≡ ((b || a) || c)
      swap a b c = ground arith

  called-insert_by :
      (s : String) (p : Prefix) (l : List Prefix)
      → called s (insert_by prefix_before p l) ≡ (equal (t.prefix_text p) s || called s l)
  unfolding insert_by elem
  called-insert_by s p [] = ground arith
  called-insert_by s p (q ∷ l) = ground (arith, called-insert_by s p l)

  called-sort_by : (s : String) (l : List Prefix) → called s (sort_by prefix_before l) ≡ called s l
  unfolding sort_by elem
  called-sort_by s [] = refl
  called-sort_by s (p ∷ l) =
      ground (arith, called-insert_by s p (sort_by prefix_before l), called-sort_by s l)

  -- Leaving out a text equal to the last one leaves out no other.
  elem-texts_after :
      (s last : String) (l : List Prefix) → s ≢ last → elem s (texts_after t last l) ≡ called s l
  unfolding texts_after elem
  elem-texts_after s last [] ne = refl
  elem-texts_after s last (p ∷ l) ne = elim (Bool-cases (equal (t.prefix_text p) s)) [
    | inl same ↦
        let it : t.prefix_text p ≡ s = (equal_iff (t.prefix_text p) s).0 same in
        rw (it, equal_ne s last ne, equal_refl s)
    | inr other ↦
        let rest =
          elem-texts_after s (t.prefix_text p) l
            (λ e. cc ((equal_iff (t.prefix_text p) s).1 (sym e), other)) in
        elim (Bool-cases (equal (t.prefix_text p) last)) [
          | inl again ↦ rw (again, other, rest)
          | inr new ↦ rw (new, other, rest)
        ]
  ]

  pub elem-sorted_prefixes :
      (s : String) (l : List Prefix) → s ≢ "" → elem s (sorted_prefixes t l) ≡ called s l
  unfolding sorted_prefixes
  elem-sorted_prefixes s l ne =
      elem-texts_after s "" (sort_by prefix_before l) ne ∙ called-sort_by s l

  -- `resolve` lists exactly what its selectors name.
  pub elem-resolve :
      (s : String) (selectors : List String) (peers : List Device)
      → s ≢ ""
      → elem s (resolve t selectors peers) ≡ any_is (names peers s) selectors
  unfolding resolve elem
  elem-resolve s selectors peers ne =
      elem-sorted_prefixes s (put_named t selectors peers []) ne
      ∙ (called-put_named s selectors peers [] ∙ or_nothing (any_is (names peers s) selectors))
    where
      or_nothing : (a : Bool) → (a || false) ≡ a
      or_nothing true = refl
      or_nothing false = refl
