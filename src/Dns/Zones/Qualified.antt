-- ===== src/Dns/Zones/Qualified.antt =====
-- From which network a name with a suffix is answered.
use mathlib.Core.Path.{subst}
use meshp.Prelude.{
  ℕ, ◌≡◌, ◌⊎◌, inl, inr, refl, ap, sym, ◌∙◌, Bool, true, false, ◌||◌, List, [], ◌∷◌, ◌++◌, Option,
  none, some, String, ◌==◌, if◌then◌else◌, length, Bool-cases, Option-cases,
}
use meshp.Prelude.Equality.{equal, equal_iff, bytes_eq, string_eq, nat_eq}
use meshp.Prelude.Assoc.{lookup, IsMap}
use meshp.Prelude.Keyed.{elem}
use meshp.Dns.Zones.{
  Text, Host, Zone, Zones, success, nx_domain, dot, cut_suffix, cons_option, failed, answered,
  find_host, in_zone, qualified,
}
use meshp.Dns.Zones.Bare.{Has, Has-cons, behind_entry, front_entry}

cut_step :
    (c : ℕ) (cs suffix label : Text) (t : Bool) (rest : Option Text)
    → equal (c ∷ cs) suffix ≡ t
    → (if t then some [] else cons_option c rest) ≡ some label
    → ((c ∷ cs ≡ suffix) × (label ≡ []))
      ⊎ ((label' : Text) × (rest ≡ some label') × (label ≡ c ∷ label'))
cut_step c cs suffix label true rest e h = inl ((equal_iff (c ∷ cs) suffix).0 e, cc h)
cut_step c cs suffix label false none e h = absurd (cc h)
cut_step c cs suffix label false (some l) e h = inr (l, refl, cc h)

cut_suffix_lem : (s suffix label : Text) → cut_suffix s suffix ≡ some label → s ≡ label ++ suffix
unfolding cut_suffix
cut_suffix_lem [] [] label h = ap (λ l. l ++ []) (cut_nil label h)
  where
    cut_nil : (l : Text) → ◌≡◌ {A = Option Text} (some []) (some l) → [] ≡ l
    cut_nil l e = cc e
cut_suffix_lem [] (y ∷ ys) label h = absurd (cc h)
cut_suffix_lem (c ∷ cs) suffix label h =
    elim (cut_step c cs suffix label (equal (c ∷ cs) suffix) (cut_suffix cs suffix) refl h) [
      | inl (same, none_left) ↦ same ∙ ap (λ l. l ++ suffix) (sym none_left)
      | inr (l, cut, made) ↦
          ap (λ r. c ∷ r) (cut_suffix_lem cs suffix l cut) ∙ ap (λ l. l ++ suffix) (sym made)
    ]

find_host-Has :
    (label : Text) (hosts : List Host)
    → (find_host label hosts).code ≡ success
    → Has label (find_host label hosts).addrs hosts
unfolding find_host
find_host-Has label [] k = absurd (cc k)
find_host-Has label (host ∷ hosts) k = elim (Bool-cases (equal host.name label)) [
  | inl e ↦ rw (find_host, e) ([], host, hosts, refl, (equal_iff host.name label).0 e, refl)
  | inr e ↦
      rw (find_host, e)
        (Has-cons label _ host hosts
          (find_host-Has label hosts (later (equal host.name label) e k)))
]
  where
    later :
        (t : Bool)
        → t ≡ false
        → (if t then answered host.addrs else find_host label hosts).code ≡ success
        → (find_host label hosts).code ≡ success
    later true e k = absurd (cc e)
    later false e k = k

in_zone-Has :
    (label : Text) (zone : Zone)
    → (in_zone label zone).code ≡ success
    → (elem dot label ≡ false) × Has label (in_zone label zone).addrs zone.hosts
unfolding in_zone
in_zone-Has label zone k = by_test (length label == 0) (elem dot label) k
  where
    by_test :
        (t u : Bool)
        → (if t || u then failed nx_domain else find_host label zone.hosts).code ≡ success
        → (u ≡ false)
          × Has label
              (if t || u then failed nx_domain else find_host label zone.hosts).addrs
              zone.hosts
    by_test true u k = absurd (cc k)
    by_test false true k = absurd (cc k)
    by_test false false k = (refl, find_host-Has label zone.hosts k)

-- The first zone whose suffix the name has decides.
qualified_step :
    (name : Text) (owner : String) (zone : Zone) (z : Zones) (cut : Option Text)
    → cut_suffix name (dot ∷ zone.suffix) ≡ cut
    → qualified name ((owner, zone) ∷ z)
      ≡ elim cut [ none ↦ qualified name z | some label ↦ in_zone label zone ]
unfolding qualified
qualified_step name owner zone z cut e =
    ap (λ c. (elim c [ none ↦ qualified name z | some label ↦ in_zone label zone ])) e

refused_empty : (name : Text) → (qualified name []).code ≡ success → ⊥
unfolding qualified
refused_empty name k = cc k

-- A name with a dot in it is answered only from a network whose suffix it ends with, and then with
-- the addresses of the host that the one label in front of the suffix names.
pub qualified_success :
    (name : Text) (z : Zones)
    → IsMap z
    → (qualified name z).code ≡ success
    → (owner : String) × (zone : Zone) × (label : Text) × (lookup owner z ≡ some zone)
      × (name ≡ label ++ dot ∷ zone.suffix)
      × (elem dot label ≡ false)
      × Has label (qualified name z).addrs zone.hosts
qualified_success name [] u k = absurd (refused_empty name k)
qualified_success name ((o, zone) ∷ z) u k =
    elim (Option-cases (cut_suffix name (dot ∷ zone.suffix))) [
      | inl e ↦
          let same = qualified_step name o zone z none e in
          let rest = qualified_success name z u.1 (ap (λ r. r.code) (sym same) ∙ k) in
          (
            rest.0,
            rest.1,
            rest.2,
            behind_entry o zone z rest.0 rest.1 u.0 rest.3,
            rest.4,
            rest.5,
            subst (λ r. Has rest.2 r.addrs rest.1.hosts) (sym same) rest.6,
          )
      | inr (label, e) ↦
          let same = qualified_step name o zone z (some label) e in
          let found = in_zone-Has label zone (ap (λ r. r.code) (sym same) ∙ k) in
          (
            o,
            zone,
            label,
            front_entry o zone z,
            cut_suffix_lem name (dot ∷ zone.suffix) label e,
            found.0,
            subst (λ r. Has label r.addrs zone.hosts) (sym same) found.1,
          )
    ]
