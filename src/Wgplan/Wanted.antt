-- ===== src/Wgplan/Wanted.antt =====
-- When a peer is as it should be, and what a configuration writes of it.
use meshp.Prelude.{
  zero, suc, ◌≡◌, ◌≢◌, ◌⊎◌, refl, sym, ◌∙◌, arith, Bool-cases, true, false, inl, inr, Option, none,
  some, List, [], ◌∷◌, String, if◌then◌else◌,
}
use meshp.Prelude.Int.{ℤ, pos, negsuc, int_lt, int_same}
use meshp.Prelude.Equality.{equal, equal_iff, equal_refl, string_eq}
use meshp.Prelude.Keyed.{elem}
use meshp.Netip.{Prefix, prefix_eq}
use meshp.Wgplan.Types.{Texts, Peer}
use meshp.Wgplan.Peers.{same_prefixes, keep_observed_endpoint}
use meshp.Wgplan.Host.{or_old}
use meshp.Wgplan.Becomes.{keeps}

-- The configuration of the peer can be written: its keepalive is not negative, and neither its
-- preshared key nor its keepalive is to be cleared, which a nil in a PeerConfig does not do.
abbrev pub Settable : Option Peer → Peer → Type 0
Settable none d = int_lt d.keepalive_seconds (pos 0) ≡ false
Settable (some c) d =
    (int_lt d.keepalive_seconds (pos 0) ≡ false)
    × ((d.preshared_key ≢ "") ⊎ (c.preshared_key ≡ ""))
    × ((int_lt (pos 0) d.keepalive_seconds ≡ true) ⊎ (c.keepalive_seconds ≡ pos 0))

-- The endpoint is the wanted one, or one that was found to work better.
abbrev pub EndpointRight : Texts → Option Peer → Peer → Peer → Type 0
EndpointRight t none d p = p.endpoint ≡ d.endpoint
EndpointRight t (some c) d p =
    (p.endpoint ≡ d.endpoint) ⊎ ((keep_observed_endpoint t c d ≡ true) × (p.endpoint ≡ c.endpoint))

-- What is wanted of the peer, and the plan has nothing more to do with it.
pub record IsRight (t : Texts) (cur : Option Peer) (d p : Peer) : Type 0 where
  pub allowed : (x : Prefix) → elem x p.allowed_ips ≡ elem x d.allowed_ips
  pub preshared : p.preshared_key ≡ d.preshared_key
  pub keepalive : p.keepalive_seconds ≡ d.keepalive_seconds
  pub endpoint : EndpointRight t cur d p
  pub left_alone : keeps t (some p) d ≡ true

pub same_prefixes_refl : (l : List Prefix) → same_prefixes l l ≡ true
same_prefixes_refl [] = refl
same_prefixes_refl (p ∷ l) = rw (equal_refl p, same_prefixes_refl l)

pub int_same_refl : (a : ℤ) → int_same a a ≡ true
int_same_refl (pos a) = ground arith
int_same_refl (negsuc a) = ground arith

-- What is written of a number that is not negative, and not to be cleared.
pub written_int :
    (a old : ℤ)
    → int_lt a (pos 0) ≡ false
    → (int_lt (pos 0) a ≡ true) ⊎ (old ≡ pos 0)
    → or_old (if int_lt (pos 0) a then some a else none) old ≡ a
written_int a old h (inl positive) = rw positive
written_int (pos zero) old h (inr e) = e
written_int (pos (suc a)) old h (inr e) = ground arith
written_int (negsuc a) old h (inr e) = absurd (cc h)

-- And of a text that is not to be cleared.
pub written_text :
    (s old : String) → (s ≢ "") ⊎ (old ≡ "") → or_old (if equal s "" then none else some s) old ≡ s
written_text s old how = elim (Bool-cases (equal s "")) [
  | inr e ↦ rw e
  | inl e ↦
      let empty : s ≡ "" = (equal_iff s "").0 e in
      elim how [ inl filled ↦ absurd (filled empty) | inr gone ↦ rw e (gone ∙ sym empty) ]
]
