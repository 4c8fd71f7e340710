-- ===== src/Dns/Zones/Bare.antt =====
-- From which network a bare label is answered.
use mathlib.Core.Path.{subst}
use meshp.Prelude.{
  ℕ, ◌+◌, ◌≡◌, ◌⊎◌, inl, inr, refl, ap, sym, ◌∙◌, arith, Bool, true, false, List, [], ◌∷◌, ◌++◌,
  none, some, String, if◌then◌else◌, length, length-append, Bool-cases,
}
use meshp.Prelude.Equality.{equal, equal_iff, bytes_eq, string_eq, nat_eq}
use meshp.Prelude.Assoc.{lookup, IsMap}
use meshp.Netip.{Addr}
use meshp.Dns.Zones.{Text, Host, Zone, Zones, success, dot, matches_in, matches_all, choose, bare}

-- A host of that name stands in a list of hosts, with these addresses.
abbrev pub Has : Text → List Addr → List Host → Type 0
Has name addrs hosts =
    (before : List Host) × (host : Host) × (after : List Host) × (hosts ≡ before ++ host ∷ after)
    × (host.name ≡ name)
    × (host.addrs ≡ addrs)

-- Over one more host.
pub Has-cons :
    (name : Text) (addrs : List Addr) (host : Host) (hosts : List Host)
    → Has name addrs hosts
    → Has name addrs (host ∷ hosts)
Has-cons name addrs host hosts (before, found, after, e, n, a) =
    (host ∷ before, found, after, ap (λ hs. host ∷ hs) e, n, a)

matches_in-Has :
    (label suffix : Text) (hosts : List Host) (one : Text × List Addr)
    (more : List (Text × List Addr))
    → matches_in label suffix hosts ≡ one ∷ more
    → Has label one.1 hosts
unfolding matches_in
matches_in-Has label suffix [] one more h = absurd (cc h)
matches_in-Has label suffix (host ∷ hosts) one more h = elim (Bool-cases (equal host.name label)) [
  | inl e ↦
      ([], host, hosts, refl, (equal_iff host.name label).0 e, here (equal host.name label) e h)
  | inr e ↦
      Has-cons label one.1 host hosts
        (matches_in-Has label suffix hosts one more (behind (equal host.name label) e h))
]
  where
    here :
        (t : Bool)
        → t ≡ true
        → (if t
            then (label ++ dot ∷ suffix, host.addrs) ∷ matches_in label suffix hosts
            else matches_in label suffix hosts)
          ≡ one ∷ more
        → host.addrs ≡ one.1
    here true e g = cc g
    here false e g = absurd (cc e)

    behind :
        (t : Bool)
        → t ≡ false
        → (if t
            then (label ++ dot ∷ suffix, host.addrs) ∷ matches_in label suffix hosts
            else matches_in label suffix hosts)
          ≡ one ∷ more
        → matches_in label suffix hosts ≡ one ∷ more
    behind true e g = absurd (cc e)
    behind false e g = g

split_one :
    (xs ys : List (Text × List Addr)) (one : Text × List Addr)
    → xs ++ ys ≡ one ∷ []
    → ((xs ≡ []) × (ys ≡ one ∷ [])) ⊎ (xs ≡ one ∷ [])
split_one [] ys one h = inl (refl, h)
split_one (x ∷ []) ys one h = inr (ap (λ w. w ∷ []) (cc h))
split_one (x ∷ y ∷ xs) ys one h = absurd (cc h)

pub behind_entry :
    (o : String) (zone : Zone) (z : Zones) (owner : String) (found : Zone)
    → lookup o z ≡ none
    → lookup owner z ≡ some found
    → lookup owner ((o, zone) ∷ z) ≡ some found
unfolding lookup
behind_entry o zone z owner found n h = ground (arith, equal_iff o owner)

pub front_entry : (o : String) (zone : Zone) (z : Zones) → lookup o ((o, zone) ∷ z) ≡ some zone
unfolding lookup
front_entry o zone z = ground (arith, equal_iff o o)

matches_all-Has :
    (label : Text) (z : Zones) (one : Text × List Addr)
    → IsMap z
    → matches_all label z ≡ one ∷ []
    → (owner : String) × (zone : Zone) × (lookup owner z ≡ some zone) × Has label one.1 zone.hosts
unfolding matches_all
matches_all-Has label [] one u h = absurd (cc h)
matches_all-Has label ((o, zone) ∷ z) one u h =
    elim (split_one (matches_in label zone.suffix zone.hosts) (matches_all label z) one h) [
      | inl (none_here, there) ↦
          let found = matches_all-Has label z one u.1 there in
          (found.0, found.1, behind_entry o zone z found.0 found.1 u.0 found.2, found.3)
      | inr here ↦
          (o, zone, front_entry o zone z, matches_in-Has label zone.suffix zone.hosts one [] here)
    ]

-- How many hosts of a list, and of all zones, have a name.
abbrev pub count_hosts : Text → List Host → ℕ
count_hosts label [] = 0
count_hosts label (host ∷ hosts) =
    if equal host.name label then 1 + count_hosts label hosts else count_hosts label hosts

abbrev pub count_all : Text → Zones → ℕ
count_all label [] = 0
count_all label ((owner, zone) ∷ z) = count_hosts label zone.hosts + count_all label z

length-matches_in :
    (label suffix : Text) (hosts : List Host)
    → length (matches_in label suffix hosts) ≡ count_hosts label hosts
unfolding matches_in
length-matches_in label suffix [] = refl
length-matches_in label suffix (host ∷ hosts) = ground (arith, length-matches_in label suffix hosts)

length-matches_all : (label : Text) (z : Zones) → length (matches_all label z) ≡ count_all label z
unfolding matches_all
length-matches_all label [] = refl
length-matches_all label ((owner, zone) ∷ z) = omega (
  arith,
  length-append (matches_in label zone.suffix zone.hosts) (matches_all label z),
  length-matches_in label zone.suffix zone.hosts,
  length-matches_all label z,
)

choose_success :
    (ms : List (Text × List Addr))
    → (choose ms).code ≡ success
    → (one : Text × List Addr) × (ms ≡ one ∷ []) × ((choose ms).addrs ≡ one.1)
unfolding choose
choose_success [] k = absurd (cc k)
choose_success (one ∷ []) k = (one, refl, refl)
choose_success (one ∷ two ∷ more) k = absurd (cc k)

-- A bare label is answered only if one host of all the networks has that name, and then with the
-- addresses of that host.
pub bare_success :
    (label : Text) (z : Zones)
    → IsMap z
    → (bare label z).code ≡ success
    → (count_all label z ≡ 1)
      × ((owner : String) × (zone : Zone) × (lookup owner z ≡ some zone)
          × Has label (bare label z).addrs zone.hosts)
unfolding bare
bare_success label z u k =
    let got = choose_success (matches_all label z) k in
    let found = matches_all-Has label z got.0 u got.1 in
    (
      sym (length-matches_all label z) ∙ ap length got.1,
      (found.0, found.1, found.2, subst (λ a. Has label a found.1.hosts) (sym got.2) found.3),
    )
