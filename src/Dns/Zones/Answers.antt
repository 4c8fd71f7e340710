-- ===== src/Dns/Zones/Answers.antt =====
-- From which network an answer comes.
use meshp.Prelude.{
  ◌≡◌, ◌⊎◌, inl, inr, refl, Bool, true, false, [], ◌∷◌, ◌++◌, some, String, ◌==◌, if◌then◌else◌,
  length,
}
use meshp.Prelude.Equality.{bytes_eq, string_eq, nat_eq}
use meshp.Prelude.Assoc.{lookup, IsMap}
use meshp.Prelude.Keyed.{elem}
use meshp.Dns.Zones.{
  Text, Zone, Zones, success, nx_domain, dot, cut_suffix, failed, qualified, bare, resolve, or_same,
}
use meshp.Dns.Zones.Bare.{Has, count_all, bare_success}
use meshp.Dns.Zones.Qualified.{qualified_success}

-- The name that `Lookup` goes by: without a last dot, in small letters.
abbrev pub asked_name : (Text → Text) → Text → Text
asked_name to_lower asked = to_lower (or_same asked (cut_suffix asked (dot ∷ [])))

-- An answer of `Lookup` has the addresses of a host of one of the networks. Either the name is that
-- host's with the suffix of its network, or it is that host's alone, and no other host of any
-- network has it.
pub resolve_success :
    (to_lower : Text → Text) (asked : Text) (z : Zones)
    → IsMap z
    → (resolve to_lower asked z).code ≡ success
    → (owner : String) × (zone : Zone) × (label : Text) × (lookup owner z ≡ some zone)
      × Has label (resolve to_lower asked z).addrs zone.hosts
      × ((asked_name to_lower asked ≡ label ++ dot ∷ zone.suffix)
          ⊎ ((asked_name to_lower asked ≡ label) × (count_all label z ≡ 1)))
unfolding resolve
resolve_success to_lower asked z u k =
    by_test (length (asked_name to_lower asked) == 0) (elem dot (asked_name to_lower asked)) k
  where
    name : Text
    name = asked_name to_lower asked

    by_test :
        (t d : Bool)
        → (if t then failed nx_domain else if d then qualified name z else bare name z).code
          ≡ success
        → (owner : String) × (zone : Zone) × (label : Text) × (lookup owner z ≡ some zone)
          × Has label
              (if t then failed nx_domain else if d then qualified name z else bare name z).addrs
              zone.hosts
          × ((name ≡ label ++ dot ∷ zone.suffix) ⊎ ((name ≡ label) × (count_all label z ≡ 1)))
    by_test true d k = absurd (cc k)
    by_test false true k =
        let got = qualified_success name z u k in (got.0, got.1, got.2, got.3, got.6, inl got.4)
    by_test false false k =
        let got = bare_success name z u k in
        (got.1.0, got.1.1, name, got.1.2, got.1.3, inr (refl, got.0))
