-- ===== src/Wgplan/Valid.antt =====
-- What a configuration is like that `Validate` lets through.
use meshp.Prelude.{
  ℕ, ◌-◌, ◌/◌, ◌^◌, ◌≡◌, ◌≢◌, ◌⊎◌, sym, ap, ◌∙◌, arith, Bool, Bool-cases, true, false, not, ◌&&◌,
  ◌||◌, inl, inr, some, List, [], ◌∷◌, ◌++◌, map, All, String, ◌==◌,
}
use meshp.Prelude.Int.{pos, int_lt}
use meshp.Prelude.Equality.{Eq, equal, equal_iff, equal_ne, string_eq}
use meshp.Prelude.Assoc.{Assoc, lookup}
use meshp.Prelude.Keyed.{elem}
use meshp.Prelude.Members.{elem-sort_by}
use meshp.Prelude.Result.{ok}
use meshp.Netip.{Addr, Prefix, addr_eq, prefix_eq, overlaps, contains, same_family}
use meshp.Wgplan.Types.{Texts, Peer, Interface}
use meshp.Wgplan.Prefixes.{by_text}
use meshp.Wgplan.Validate.{is_host, steals, steals_any, any_theft, claimed_prefixes, validate}
use meshp.Wgplan.Checked.{check_ok, Holds, IsServed, check_peers_ok}
use meshp.Prelude.Result.{seq_ok, bind_ok}

-- A claimed prefix is among the prefixes that the last loops walk.
elem-keys {ℓ κ} :
    {K : Type ℓ} ⦃e : Eq K⦄ {V : Type κ} (x : K) (m : Assoc K V) (v : V)
    → lookup x m ≡ some v
    → elem x (map (λ y. y.0) m) ≡ true
unfolding lookup elem
elem-keys x [] v h = absurd (cc h)
elem-keys x ((k, w) ∷ m) v h = ground (arith, elem-keys x m v)

or_neither : (a b : Bool) → (a || b) ≡ false → (a ≡ false) × (b ≡ false)
or_neither a b f = ground arith

steals_one :
    (claimed : Assoc Prefix String) (p q : Prefix) (l : List Prefix)
    → steals_any claimed p l ≡ false
    → elem q l ≡ true
    → steals claimed p q ≡ false
unfolding steals_any elem
steals_one claimed p q [] h there = absurd (cc there)
steals_one claimed p q (r ∷ l) h there = elim (Bool-cases (equal r q)) [
  | inl here ↦ ap (steals claimed p) (sym ((equal_iff r q).0 here)) ∙ (or_neither _ _ h).0
  | inr other ↦ steals_one claimed p q l (or_neither _ _ h).1 (rw other at there)
]

any_theft_none :
    (claimed : Assoc Prefix String) (p q : Prefix) (l : List Prefix)
    → any_theft claimed l ≡ false
    → elem p l ≡ true
    → elem q l ≡ true
    → p ≢ q
    → (steals claimed p q ≡ false) ⊎ (steals claimed q p ≡ false)
unfolding any_theft elem
any_theft_none claimed p q [] h a b ne = absurd (cc a)
any_theft_none claimed p q (r ∷ l) h a b ne =
    let (here, later) = or_neither _ _ h in
    elim (Bool-cases (equal r p)) [
      | inl is_p ↦
          let first : r ≡ p = (equal_iff r p).0 is_p in
          inl (
            ap (λ z. steals claimed z q) (sym first)
            ∙ steals_one claimed r q l here
                (rw (equal_ne r q (λ same. ne (sym first ∙ same))) at b))
      | inr not_p ↦ elim (Bool-cases (equal r q)) [
        | inl is_q ↦
            let first : r ≡ q = (equal_iff r q).0 is_q in
            inr (
              ap (λ z. steals claimed z p) (sym first)
              ∙ steals_one claimed r p l here (rw not_p at a))
        | inr not_q ↦ any_theft_none claimed p q l later (rw not_p at a) (rw not_q at b) ne
      ]
    ]

contains_same_bits : (p q : Prefix) → p.bits ≡ q.bits → contains q p.addr ≡ contains p q.addr
unfolding contains
contains_same_bits p q h = elim (Bool-cases p.addr.is4) [
  | inl a ↦ elim (Bool-cases q.addr.is4) [
    | inl b ↦
        rw (a, b, h)
          (same_test (p.addr.value / 2 ^ (32 - q.bits)) (q.addr.value / 2 ^ (32 - q.bits)))
    | inr b ↦ rw (a, b)
  ]
  | inr a ↦ elim (Bool-cases q.addr.is4) [
    | inl b ↦ rw (a, b)
    | inr b ↦
        rw (a, b, h)
          (same_test (p.addr.value / 2 ^ (128 - q.bits)) (q.addr.value / 2 ^ (128 - q.bits)))
  ]
]
  where
    same_test : (m n : ℕ) → (m == n) ≡ (n == m)
    same_test m n = ground arith

overlaps_sym : (p q : Prefix) → overlaps p q ≡ overlaps q p
unfolding overlaps
overlaps_sym p q = ground (arith, contains_same_bits p q)

-- One of two prefixes is a default route and the other is not, or they do not overlap.
abbrev pub Clear : Prefix → Prefix → Type 0
Clear p q = (same_family (p.bits == 0) (q.bits == 0) ≡ false) ⊎ (overlaps p q ≡ false)

and_either : (a b : Bool) → (a && b) ≡ false → (a ≡ false) ⊎ (b ≡ false)
and_either a b f = ground arith

no_theft-Clear :
    (claimed : Assoc Prefix String) (p q : Prefix) (a b : String)
    → lookup p claimed ≡ some a
    → lookup q claimed ≡ some b
    → a ≢ b
    → steals claimed p q ≡ false
    → Clear p q
unfolding steals
no_theft-Clear claimed p q a b la lb ne h = and_either _ _ (rw (la, lb, equal_ne a b ne) at h)

-- What `Validate` has found out when it returns no error: who claimed what, and that nobody steals.
pub record IsValid (t : Texts) (want : Interface) : Type 0 where
  pub mtu_positive : int_lt (pos 0) want.mtu ≡ true
  pub claimed : Assoc Prefix String
  pub peers :
      All (λ p. Holds (map (λ q. q.addr) want.addresses) claimed p × IsServed t p) want.peers
  pub no_theft : any_theft claimed (claimed_prefixes t claimed) ≡ false

pub validate-IsValid : (t : Texts) (want : Interface) → validate t want ≡ ok tt → IsValid t want
unfolding validate
validate-IsValid t want h =
    let (singly, jointly) = seq_ok _ _ tt h in
    let (upto_3, addresses) = seq_ok _ _ tt singly in
    let (upto_2, some_address) = seq_ok _ _ tt upto_3 in
    let (upto_1, mtu) = seq_ok _ _ tt upto_2 in
    let (claimed, loop, thefts) = bind_ok _ _ tt jointly in
    record {
      mtu_positive = positive (int_lt (pos 0) want.mtu) (check_ok _ _ mtu);
      claimed = claimed;
      peers = (check_peers_ok t (map (λ q. q.addr) want.addresses) [] want.peers [] claimed loop).0;
      no_theft = check_ok _ _ thefts;
    }
  where
    positive : (b : Bool) → not b ≡ false → b ≡ true
    positive b f = ground arith

-- One of the elements of a list.
abbrev pub Listed {ℓ} : {A : Type ℓ} → A → List A → Type ℓ
Listed {A = A} a l = (front : List A) × (back : List A) × (l ≡ front ++ a ∷ back)

pub All-Listed {ℓ κ} :
    {A : Type ℓ} (P : A → Type κ) (l front back : List A) (a : A)
    → l ≡ front ++ a ∷ back
    → All P l
    → P a
All-Listed P l [] back a e all = (rw e at all).0
All-Listed P [] (b ∷ front) back a e all = absurd (cc e)
All-Listed P (c ∷ l) (b ∷ front) back a e all = All-Listed P l front back a (cc e) all.1

Clear-sym : (p q : Prefix) → Clear p q → Clear q p
Clear-sym p q (inl f) = inl (flip (p.bits == 0) (q.bits == 0) f)
  where
    flip : (a b : Bool) → same_family a b ≡ false → same_family b a ≡ false
    flip a b f = ground arith
Clear-sym p q (inr o) = inr (overlaps_sym q p ∙ o)

pub claims-Clear :
    (t : Texts) (want : Interface) (p q : Peer) (x y : Prefix) (own : List Addr)
    (claimed : Assoc Prefix String)
    → Holds own claimed p
    → Holds own claimed q
    → any_theft claimed (claimed_prefixes t claimed) ≡ false
    → p.public_key ≢ q.public_key
    → elem x p.allowed_ips ≡ true
    → elem y q.allowed_ips ≡ true
    → (x ≢ y) × Clear x y
claims-Clear t want p q x y own claimed hp hq no_theft ne ex ey =
    let (cx, fx) = hp x ex in
    let (cy, fy) = hq y ey in
    let differ : x ≢ y = λ same. ne (one_holder cx cy same) in
    let walked = λ (z : Prefix) (k : String) (l : lookup z claimed ≡ some k).
      elem-sort_by (by_text t) z (map (λ v. v.0) claimed) ∙ elem-keys z claimed k l in
    (
      differ,
      elim (any_theft_none claimed x y (claimed_prefixes t claimed) no_theft (walked x _ cx)
          (walked y _ cy) differ) [
            | inl h ↦ no_theft-Clear claimed x y _ _ cx cy ne h
            | inr h ↦ Clear-sym y x (no_theft-Clear claimed y x _ _ cy cx (λ s. ne (sym s)) h)
          ],
    )
  where
    one_holder :
        lookup x claimed ≡ some p.public_key
        → lookup y claimed ≡ some q.public_key
        → x ≡ y
        → p.public_key ≡ q.public_key
    one_holder a b same = cc

-- In a configuration that `Validate` lets through, two peers with different keys never have a
-- prefix in common, and their prefixes do not overlap either, unless one is a default route and
-- the other is not; and no peer claims an address of the device as a host prefix.
pub validate_separates :
    (t : Texts) (want : Interface) (p q : Peer) (x y : Prefix)
    → validate t want ≡ ok tt
    → Listed p want.peers
    → Listed q want.peers
    → p.public_key ≢ q.public_key
    → elem x p.allowed_ips ≡ true
    → elem y q.allowed_ips ≡ true
    → (x ≢ y) × Clear x y × ((elem x.addr (map (λ a. a.addr) want.addresses) && is_host x) ≡ false)
validate_separates t want p q x y h (front, back, e) (front', back', e') ne ex ey =
    let v = validate-IsValid t want h in
    let hp = All-Listed _ want.peers front back p e v.peers in
    let hq = All-Listed _ want.peers front' back' q e' v.peers in
    let (differ, clear) = claims-Clear t want p q x y _ v.claimed hp.0 hq.0 v.no_theft ne ex ey in
    (differ, clear, (hp.0 x ex).1)
