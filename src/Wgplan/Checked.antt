-- ===== src/Wgplan/Checked.antt =====
-- What the checks of `Validate` have found out when they succeed.
use meshp.Prelude.{
  ◌≡◌, refl, sym, ap, ◌∙◌, arith, Bool, Bool-cases, true, false, not, ◌&&◌, inl, inr, Option, none,
  some, List, [], ◌∷◌, All, String,
}
use meshp.Prelude.Equality.{Eq, equal, equal_iff, equal_refl, string_eq}
use meshp.Prelude.Assoc.{Assoc, lookup, insert, lookup-insert}
use meshp.Prelude.Keyed.{elem}
use meshp.Prelude.Result.{bind_ok, seq_ok, ok_same, Result, ok}
use meshp.Netip.{Addr, Prefix, addr_eq, prefix_eq}
use meshp.Wgplan.Types.{Texts, Peer}
use meshp.Wgplan.Peers.{is_loopback}
use meshp.Wgplan.Validate.{
  PlanError, check, claim, is_host, check_prefixes, check_peer, check_peers,
}

pub check_ok : (bad : Bool) (why : PlanError) → check bad why ≡ ok tt → bad ≡ false
check_ok true why h = absurd (cc h)
check_ok false why h = refl

claim_ok {ℓ} :
    {A : Type ℓ} (o : Option String) (rest : Result PlanError A) (v : A)
    → claim o rest ≡ ok v
    → (o ≡ none) × (rest ≡ ok v)
claim_ok none rest v h = (refl, h)
claim_ok (some other) rest v h = absurd (cc h)

insert_other {ℓ κ} :
    {K : Type ℓ} ⦃e : Eq K⦄ {V : Type κ} (p x : K) (v w : V) (m : Assoc K V)
    → lookup p m ≡ none
    → lookup x m ≡ some w
    → lookup x (insert p v m) ≡ some w
insert_other p x v w m gone there = lookup-insert p x v m ∙ elim (Bool-cases (equal p x)) [
  | inl same ↦ absurd (cc ((equal_iff p x).0 same, gone, there))
  | inr other ↦ rw other there
]

insert_own {ℓ κ} :
    {K : Type ℓ} ⦃e : Eq K⦄ {V : Type κ} (p : K) (v : V) (m : Assoc K V)
    → lookup p (insert p v m) ≡ some v
insert_own p v m = lookup-insert p p v m ∙ rw (equal_refl p)

-- What was claimed stays claimed.
check_prefixes_keep :
    (own : List Addr) (key w : String) (ps : List Prefix) (c c' : Assoc Prefix String) (x : Prefix)
    → check_prefixes own key ps c ≡ ok c'
    → lookup x c ≡ some w
    → lookup x c' ≡ some w
unfolding check_prefixes
check_prefixes_keep own key w [] c c' x h l = ap (lookup x) (sym (ok_same c c' h)) ∙ l
check_prefixes_keep own key w (p ∷ ps) c c' x h l =
    let (before, later) = seq_ok _ _ c' h in
    let (free, rest) = claim_ok _ _ c' later in
    check_prefixes_keep own key w ps (insert p key c) c' x rest (insert_other p x key w c free l)

check_prefixes_claim :
    (own : List Addr) (key : String) (ps : List Prefix) (c c' : Assoc Prefix String) (x : Prefix)
    → check_prefixes own key ps c ≡ ok c'
    → elem x ps ≡ true
    → (lookup x c' ≡ some key) × ((elem x.addr own && is_host x) ≡ false)
unfolding check_prefixes elem
check_prefixes_claim own key [] c c' x h l = absurd (cc l)
check_prefixes_claim own key (p ∷ ps) c c' x h l =
    let (before, later) = seq_ok _ _ c' h in
    let (free, rest) = claim_ok _ _ c' later in
    elim (Bool-cases (equal p x)) [
      | inl here ↦
          let same : p ≡ x = (equal_iff p x).0 here in
          (
            check_prefixes_keep own key key ps (insert p key c) c' x rest
                (ap (λ z. lookup z (insert p key c)) (sym same) ∙ insert_own p key c),
            ap (λ (z : Prefix). elem z.addr own && is_host z) (sym same)
                ∙ check_ok _ _ (seq_ok _ _ tt before).1,
          )
      | inr other ↦ check_prefixes_claim own key ps (insert p key c) c' x rest (rw other at l)
    ]

-- The peer's prefixes are claimed for it, and none of them is an address of the device.
abbrev pub Holds : List Addr → Assoc Prefix String → Peer → Type 0
Holds own claimed p =
    (x : Prefix)
    → elem x p.allowed_ips ≡ true
    → (lookup x claimed ≡ some p.public_key) × ((elem x.addr own && is_host x) ≡ false)

-- A relayed peer has an endpoint, and exactly the relayed ones point at a loopback address.
abbrev pub IsServed : Texts → Peer → Type 0
IsServed t p = ((p.relayed && equal p.endpoint "") ≡ false) × (p.relayed ≡ is_loopback t p.endpoint)

module _ (t : Texts) where
  check_peer_ok : (p : Peer) → check_peer t p ≡ ok tt → IsServed t p
  unfolding check_peer
  check_peer_ok p h =
      let (first_three, some_ips) = seq_ok _ _ tt h in
      let (first_two, unmarked) = seq_ok _ _ tt first_three in
      let (nowhere, elsewhere) = seq_ok _ _ tt first_two in
      (
        check_ok _ _ nowhere,
        agree p.relayed (is_loopback t p.endpoint) (check_ok _ _ elsewhere) (check_ok _ _ unmarked),
      )
    where
      agree : (a b : Bool) → (a && not b) ≡ false → (not a && b) ≡ false → a ≡ b
      agree a b f g = ground arith

  pub check_peers_ok :
      (own : List Addr) (seen : List String) (ps : List Peer) (c c' : Assoc Prefix String)
      → check_peers t own seen ps c ≡ ok c'
      → All (λ p. Holds own c' p × IsServed t p) ps
        × ((x : Prefix) (w : String) → lookup x c ≡ some w → lookup x c' ≡ some w)
  unfolding check_peers
  check_peers_ok own seen [] c c' h = (tt, λ x w l. ap (lookup x) (sym (ok_same c c' h)) ∙ l)
  check_peers_ok own seen (p ∷ ps) c c' h =
      let (own_checks, loop) = seq_ok _ _ c' h in
      let (b, claimed, rest) = bind_ok _ _ c' loop in
      let (all, keep) = check_peers_ok own (p.public_key ∷ seen) ps b c' rest in
      (
        (
          (
            λ x l.
                let (holds, foreign) =
                  check_prefixes_claim own p.public_key p.allowed_ips c b x claimed l in
                (keep x p.public_key holds, foreign),
            check_peer_ok p (seq_ok _ _ tt own_checks).1,
          ),
          all,
        ),
        λ x w l. keep x w (check_prefixes_keep own p.public_key w p.allowed_ips c b x claimed l),
      )
