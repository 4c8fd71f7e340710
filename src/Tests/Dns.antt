-- ===== src/Tests/Dns.antt =====
-- Labels at concrete names.
use meshp.Prelude.{ℕ, ◌≡◌, ◌⊎◌, refl, true, List, [], ◌∷◌, replicate, ◌++◌}
use meshp.Dns.Label.{label, squash, trim_left, trim_right, valid_label, suffixed}
use meshp.Prelude.{String, some}
use meshp.Prelude.Equality.{bytes_eq, string_eq, nat_eq}
use meshp.Prelude.Assoc.{lookup, IsMap}
use meshp.Prelude.Keyed.{elem}
use meshp.Dns.Zones.{
  Zone, Zones, success, nx_domain, resolve, qualified, bare, matches_all, matches_in, choose,
  cut_suffix, in_zone, find_host, dot,
}
use meshp.Dns.Zones.Bare.{Has, count_all}
use meshp.Dns.Zones.Answers.{resolve_success, asked_name}
use meshp.Dns.Label.Valid.{label-valid_label}

-- "my pc", in small letters already.
abbrev shown : List ℕ
shown = 109 ∷ 121 ∷ 32 ∷ 112 ∷ 99 ∷ []

my_pc : label (λ s. s) shown ≡ 109 ∷ 121 ∷ 45 ∷ 112 ∷ 99 ∷ []
unfolding label squash trim_left trim_right
my_pc = refl

-- A name of no letter or digit.
no_label : label (λ s. s) (32 ∷ 33 ∷ []) ≡ []
unfolding label squash trim_left trim_right
no_label = refl

label-valid_label_example :
    (label (λ s. s) shown ≡ []) ⊎ (valid_label (label (λ s. s) shown) ≡ true)
label-valid_label_example = label-valid_label (λ s. s) shown

-- A base of 63 bytes gives way to its suffix.
cut_for_suffix : suffixed (λ n. 50 ∷ []) (replicate 63 97) 2 ≡ replicate 61 97 ++ 45 ∷ 50 ∷ []
unfolding suffixed trim_right
cut_for_suffix = refl

abbrev acme : Zone
acme = record {
  suffix = 97 ∷ [];
  hosts = record { name = 112 ∷ 99 ∷ []; addrs = record { is4 = true; value = 7 } ∷ [] } ∷ [];
}

-- A network whose suffix ends with that of another one.
abbrev inner : Zone
inner = record {
  suffix = 98 ∷ 46 ∷ 97 ∷ [];
  hosts = record { name = 112 ∷ 99 ∷ []; addrs = record { is4 = true; value = 8 } ∷ [] } ∷ [];
}

abbrev zones : Zones
zones = ("wg0", acme) ∷ []

-- "pc" is answered from the one network.
pc_found : (resolve (λ s. s) (112 ∷ 99 ∷ []) zones).code ≡ success
unfolding resolve cut_suffix bare matches_all matches_in choose elem
pc_found = refl

zones-IsMap : IsMap zones
unfolding lookup
zones-IsMap = (refl, tt)

resolve_success_example :
    (owner : String) × (zone : Zone) × (label : List ℕ) × (lookup owner zones ≡ some zone)
    × Has label (resolve (λ s. s) (112 ∷ 99 ∷ []) zones).addrs zone.hosts
    × ((asked_name (λ s. s) (112 ∷ 99 ∷ []) ≡ label ++ dot ∷ zone.suffix)
        ⊎ ((asked_name (λ s. s) (112 ∷ 99 ∷ []) ≡ label) × (count_all label zones ≡ 1)))
resolve_success_example = resolve_success (λ s. s) (112 ∷ 99 ∷ []) zones zones-IsMap pc_found

-- "pc.b.a" by the order of the walk: there is no such name, or there is.
outer_first :
    (qualified (112 ∷ 99 ∷ 46 ∷ 98 ∷ 46 ∷ 97 ∷ []) (("wg0", acme) ∷ ("wg1", inner) ∷ [])).code
    ≡ nx_domain
unfolding qualified cut_suffix in_zone elem
outer_first = refl

inner_first :
    (qualified (112 ∷ 99 ∷ 46 ∷ 98 ∷ 46 ∷ 97 ∷ []) (("wg1", inner) ∷ ("wg0", acme) ∷ [])).code
    ≡ success
unfolding qualified cut_suffix in_zone elem find_host
inner_first = refl
