-- ===== src/Dns/Zones.antt =====
-- internal/dns/zones.go: the names that a device answers for, over all its networks. Texts are lists
-- of bytes, `strings.ToLower` is a parameter. The registry is its map, walked in the order of its
-- list; the lock makes each method one step. Methods on a nil registry are left out.
pub mod Bare
pub mod Qualified
pub mod Answers
use meshp.Prelude.{
  ℕ, Bool, true, false, ◌||◌, List, [], ◌∷◌, ◌++◌, Option, none, some, String, ◌==◌, ltb,
  if◌then◌else◌, length, map,
}
use meshp.Prelude.Equality.{equal, bytes_eq, string_eq, nat_eq}
use meshp.Prelude.Assoc.{Assoc, lookup, insert, delete}
use meshp.Prelude.Keyed.{elem}
use meshp.Prelude.Order.{sort_by}
use meshp.Netip.{Addr}

abbrev pub Text : Type 0
Text = List ℕ

abbrev pub default_ttl : ℕ
default_ttl = 60

pub record Host : Type 0 where
  pub name : Text
  pub addrs : List Addr

pub record Zone : Type 0 where
  pub suffix : Text
  pub hosts : List Host

abbrev pub Zones : Type 0
Zones = Assoc String Zone

-- The codes of the wire format that a lookup gives.
pub data RCode : Type 0 where
  success nx_domain refused : RCode

pub record Resolution : Type 0 where
  pub addrs : List Addr
  pub code : RCode
  pub ambiguous : List Text

unfoldable pub replace : String → Zone → Zones → Zones
replace owner zone z =
    if length zone.suffix == 0 || length zone.hosts == 0
    then delete owner z
    else insert owner zone z

abbrev pub forget : String → Zones → Zones
forget owner z = delete owner z

-- Go's `<` on strings compares bytes.
unfoldable pub bytes_lt : Text → Text → Bool
bytes_lt xs [] = false
bytes_lt [] (y ∷ ys) = true
bytes_lt (x ∷ xs) (y ∷ ys) = let rest = bytes_lt xs ys in if x == y then rest else ltb x y

unfoldable pub suffixes : Zones → List Text
unfolding bytes_lt
suffixes z = sort_by bytes_lt (map (λ e. e.1.suffix) z)

abbrev pub dot : ℕ
dot = 46

abbrev pub cons_option : ℕ → Option Text → Option Text
cons_option c none = none
cons_option c (some cs) = some (c ∷ cs)

-- strings.CutSuffix, none where the suffix is not there
unfoldable pub cut_suffix : Text → Text → Option Text
cut_suffix [] suffix = if equal [] suffix then some [] else none
cut_suffix (c ∷ cs) suffix =
    let rest = cut_suffix cs suffix in if equal (c ∷ cs) suffix then some [] else cons_option c rest

abbrev pub or_same : Text → Option Text → Text
or_same name none = name
or_same name (some cut) = cut

abbrev pub failed : RCode → Resolution
failed code = record { addrs = []; code = code; ambiguous = [] }

abbrev pub answered : List Addr → Resolution
answered addrs = record { addrs = addrs; code = success; ambiguous = [] }

-- The loop over the hosts of a zone.
unfoldable pub find_host : Text → List Host → Resolution
find_host label [] = failed nx_domain
find_host label (host ∷ hosts) =
    let rest = find_host label hosts in if equal host.name label then answered host.addrs else rest

-- What the zone of the suffix says of a label.
unfoldable pub in_zone : Text → Zone → Resolution
unfolding find_host
in_zone label zone =
    if length label == 0 || elem dot label then failed nx_domain else find_host label zone.hosts

unfoldable pub qualified : Text → Zones → Resolution
unfolding cut_suffix in_zone
qualified name [] = failed refused
qualified name ((owner, zone) ∷ z) = elim (cut_suffix name (dot ∷ zone.suffix)) [
  | none ↦ qualified name z
  | some label ↦ in_zone label zone
]

-- The loops of `bareLocked`: each match with its qualified name, in the order in which it is found.
unfoldable pub matches_in : Text → Text → List Host → List (Text × List Addr)
matches_in label suffix [] = []
matches_in label suffix (host ∷ hosts) =
    let rest = matches_in label suffix hosts in
    if equal host.name label then (label ++ dot ∷ suffix, host.addrs) ∷ rest else rest

unfoldable pub matches_all : Text → Zones → List (Text × List Addr)
unfolding matches_in
matches_all label [] = []
matches_all label ((owner, zone) ∷ z) =
    matches_in label zone.suffix zone.hosts ++ matches_all label z

unfoldable pub choose : List (Text × List Addr) → Resolution
unfolding bytes_lt
choose [] = failed nx_domain
choose (one ∷ []) = answered one.1
choose (one ∷ two ∷ more) = record {
  addrs = [];
  code = refused;
  ambiguous = sort_by bytes_lt (map (λ m. m.0) (one ∷ two ∷ more));
}

unfoldable pub bare : Text → Zones → Resolution
unfolding matches_all choose
bare label z = choose (matches_all label z)

unfoldable pub resolve : (Text → Text) → Text → Zones → Resolution
unfolding qualified bare cut_suffix
resolve to_lower asked z =
    let name = to_lower (or_same asked (cut_suffix asked (dot ∷ []))) in
    if length name == 0
    then failed nx_domain
    else if elem dot name
    then qualified name z
    else bare name z
