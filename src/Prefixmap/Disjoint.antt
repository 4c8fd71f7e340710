-- ===== src/Prefixmap/Disjoint.antt =====
-- What `Allocate` returns shares no address with a reserved range, and stays in its block.
use native.Mathlib.Nat.{mul_comm, div-div-eq-div-mul}
use meshp.Prelude.{
  ℕ, ◌+◌, ◌-◌, ◌/◌, ◌^◌, ◌≤◌, ◌<◌, ◌≡◌, inl, inr, refl, ap, sym, ◌∙◌, arith, Bool, true, false,
  Option, some, List, [], ◌∷◌, Bool-cases, le→leb,
}
use meshp.Prelude.Result.{Result, ok, err}
use meshp.Prelude.Equality.{Eq, equal_iff}
use meshp.Prelude.Keyed.{elem}
use meshp.Prelude.Members.{any_is}
use meshp.Netip.{Addr, Prefix, bit_len, same_family, span, is_valid, contains, overlaps, prefix_eq}
use meshp.Prefixmap.{MapError, Reserved, overlaps_any, allocate}
use meshp.Prefixmap.Slots.{pow_add, slots, slot, IsAddr, slot-contains}
use meshp.Prefixmap.Lowest.{allocate-Answers, mappable, mappable_lem, taken_by}

contains_lem :
    (p : Prefix) (a : Addr)
    → contains p a ≡ true
    → (same_family p.addr.is4 a.is4 ≡ true) × (a.value / span p ≡ p.addr.value / span p)
unfolding contains
contains_lem p a h = ground arith

contains_from :
    (p : Prefix) (a : Addr)
    → same_family p.addr.is4 a.is4 ≡ true
    → a.value / span p ≡ p.addr.value / span p
    → contains p a ≡ true
unfolding contains
contains_from p a f h = ground (arith, h)

same_bit_len : (a b : Addr) → same_family a.is4 b.is4 ≡ true → bit_len a ≡ bit_len b
same_bit_len a b h = ground arith

-- A wider prefix of the same family cuts by a multiple.
wider_div :
    (p q : Prefix) (v : ℕ)
    → same_family p.addr.is4 q.addr.is4 ≡ true
    → p.bits ≤ q.bits
    → q.bits ≤ bit_len q.addr
    → v / span p ≡ v / span q / 2 ^ (q.bits - p.bits)
wider_div p q v f w l =
    let e : bit_len p.addr - p.bits ≡ (q.bits - p.bits) + (bit_len q.addr - q.bits) =
      omega (arith, same_bit_len p.addr q.addr f, w, l) in
    ap (λ t. v / t)
      (ap (λ t. 2 ^ t) e
        ∙ pow_add (q.bits - p.bits) (bit_len q.addr - q.bits)
        ∙ mul_comm (2 ^ (q.bits - p.bits)) (span q))
    ∙ sym (div-div-eq-div-mul v (span q) (2 ^ (q.bits - p.bits)))

family_trans :
    (a b c : Bool) → same_family a b ≡ true → same_family b c ≡ true → same_family a c ≡ true
family_trans a b c h g = ground arith

family_sym : (a b : Bool) → same_family a b ≡ true → same_family b a ≡ true
family_sym a b h = ground arith

-- Of two prefixes with an address in common the wider one contains the other's.
contains_common :
    (p q : Prefix) (a : Addr)
    → contains p a ≡ true
    → contains q a ≡ true
    → p.bits ≤ q.bits
    → q.bits ≤ bit_len q.addr
    → contains p q.addr ≡ true
contains_common p q a h g w l =
    let one = contains_lem p a h in
    let two = contains_lem q a g in
    let f = family_trans p.addr.is4 a.is4 q.addr.is4 one.0 (family_sym q.addr.is4 a.is4 two.0) in
    contains_from p q.addr f (
      wider_div p q q.addr.value f w l
      ∙ ap (λ t. t / 2 ^ (q.bits - p.bits)) (sym two.1)
      ∙ sym (wider_div p q a.value f w l)
      ∙ one.1)

-- And a prefix inside another has only addresses of it.
contains_inside :
    (p q : Prefix) (a : Addr)
    → contains p q.addr ≡ true
    → contains q a ≡ true
    → p.bits ≤ q.bits
    → q.bits ≤ bit_len q.addr
    → contains p a ≡ true
contains_inside p q a h g w l =
    let one = contains_lem p q.addr h in
    let two = contains_lem q a g in
    contains_from p a (family_trans p.addr.is4 q.addr.is4 a.is4 one.0 two.0) (
      wider_div p q a.value one.0 w l
      ∙ ap (λ t. t / 2 ^ (q.bits - p.bits)) two.1
      ∙ sym (wider_div p q q.addr.value one.0 w l)
      ∙ one.1)

-- Two valid prefixes with an address in common overlap, whichever is named first.
common-overlaps :
    (p q : Prefix) (a : Addr)
    → is_valid p ≡ true
    → is_valid q ≡ true
    → contains p a ≡ true
    → contains q a ≡ true
    → overlaps p q ≡ true
unfolding overlaps
common-overlaps p q a vp vq h g =
    ground (arith, contains_common p q a h g, contains_common q p a g h)

any_is-elem {ℓ} :
    {K : Type ℓ} ⦃e : Eq K⦄ (test : K → Bool) (r : K) (rs : List K)
    → elem r rs ≡ true
    → test r ≡ true
    → any_is test rs ≡ true
unfolding elem any_is
any_is-elem test r [] h t = absurd (cc h)
any_is-elem test r (q ∷ rs) h t = ground (arith, equal_iff q r, any_is-elem test r rs)

valid_fits : (p : Prefix) → is_valid p ≡ true → p.bits ≤ bit_len p.addr
valid_fits p h = ground arith

-- A valid range that shares an address with a candidate makes it taken.
shared-taken :
    (candidate r : Prefix) (reserved : Reserved) (a : Addr)
    → elem r reserved ≡ true
    → is_valid r ≡ true
    → is_valid candidate ≡ true
    → contains candidate a ≡ true
    → contains r a ≡ true
    → taken_by reserved candidate ≡ true
unfolding overlaps_any
shared-taken candidate r reserved a listed vr vc h g =
    let f =
      family_trans r.addr.is4 a.is4 candidate.addr.is4 (contains_lem r a g).0
        (family_sym candidate.addr.is4 a.is4 (contains_lem candidate a h).0) in
    any_is-elem _ r reserved listed (rw (vr, f, common-overlaps r candidate a vr vc g h) refl)

err_not_ok :
    {why : MapError} {p : Prefix}
    → ◌≡◌ {A = Option (Result MapError Prefix)} (some (err why)) (some (ok p))
    → ⊥
err_not_ok h = cc h

same_ok :
    {p q : Prefix} → ◌≡◌ {A = Option (Result MapError Prefix)} (some (ok p)) (some (ok q)) → p ≡ q
same_ok h = cc h

answer_slot :
    (fuel : ℕ) (block prefix : Prefix) (reserved : Reserved) (p : Prefix)
    → IsAddr block.addr
    → slots block prefix.bits < fuel
    → allocate fuel block prefix reserved ≡ some (ok p)
    → (j : ℕ) × (j < slots block prefix.bits)
      × (p ≡ slot block prefix.bits j)
      × (taken_by reserved p ≡ false)
      × (mappable block prefix ≡ true)
answer_slot fuel block prefix reserved p a h e =
    elim (allocate-Answers fuel block prefix reserved a h) [
      | inl (bad, r) ↦ absurd (err_not_ok (sym r ∙ e))
      | inr (good, inl (j, top, r, free, lower)) ↦
          let made : p ≡ slot block prefix.bits j = same_ok (sym e ∙ r) in
          (j, top, made, ap (taken_by reserved) made ∙ free, good)
      | inr (good, inr (r, all)) ↦ absurd (err_not_ok (sym r ∙ e))
    ]

-- The range that `Allocate` returns has the size of the prefix. Its addresses are in the block, and
-- none of them is in a valid range of the reserved ones.
pub allocate-IsFree :
    (fuel : ℕ) (block prefix : Prefix) (reserved : Reserved) (p r : Prefix) (a : Addr)
    → IsAddr block.addr
    → slots block prefix.bits < fuel
    → allocate fuel block prefix reserved ≡ some (ok p)
    → elem r reserved ≡ true
    → is_valid r ≡ true
    → contains p a ≡ true
    → (p.bits ≡ prefix.bits) × (contains block a ≡ true) × (contains r a ≡ false)
allocate-IsFree fuel block prefix reserved p r a fits h e listed vr inside =
    let got = answer_slot fuel block prefix reserved p fits h e in
    let sized = mappable_lem block prefix got.4 in
    let bits : p.bits ≡ prefix.bits = ap (λ q. q.bits) got.2 in
    let here : contains block p.addr ≡ true =
      ap (λ q. contains block q.addr) got.2
      ∙ slot-contains block prefix.bits sized.0 sized.1 fits got.0 got.1 in
    let long : p.bits ≤ bit_len p.addr =
      omega (arith, sized.1, bits, ap (λ q. bit_len q.addr) got.2) in
    (
      bits,
      contains_inside block p a here inside (omega (arith, sized.0, bits)) long,
      elim (Bool-cases (contains r a)) [
        | inr out ↦ out
        | inl both ↦ absurd (
            cc (
              sym got.3
              ∙ shared-taken p r reserved a listed vr (le→leb p.bits (bit_len p.addr) long) inside
                  both))
      ],
    )
