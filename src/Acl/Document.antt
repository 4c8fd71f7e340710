-- ===== src/Acl/Document.antt =====
-- internal/acl/document.go: the policy document and its validation.
use meshp.Prelude.{
  ℕ, ◌-◌, ◌%◌, ◌^◌, Bool, true, false, not, ◌&&◌, ◌||◌, Option, none, some, List, [], ◌∷◌, ◌++◌,
  String, if◌then◌else◌, ◌==◌, ltb,
}
use meshp.Prelude.Int.{ℤ, pos, negsuc, int_lt, int_same}
use meshp.Prelude.Equality.{equal, string_eq}
use meshp.Prelude.Order.{sort_by}
use meshp.Prelude.Result.{Result, ok, err, ◌>>=◌, ◌>>◌}
use meshp.Netip.{Addr, Prefix, bit_len, masked, unmap}

-- What Go's strings, strconv and net/netip make of texts. Nothing is assumed of any of them.
pub record Reading : Type 0 where
  pub cut_tag : String → Option String  -- CutPrefix by "tag:"
  pub has_slash : String → Bool  -- Contains "/"
  pub parse_cidr : String → Option Prefix  -- ParsePrefix
  pub parse_addr : String → Option Addr  -- ParseAddr
  pub prefix_text : Prefix → String  -- Prefix.String
  pub trim_space : String → String
  pub to_lower : String → String
  pub cut_dash : String → String × Option String  -- Cut at "-"
  pub atoi : String → Option ℤ
  pub itoa : ℕ → String
  pub join_dash : String → String → String  -- + "-" +

pub record Rule : Type 0 where
  pub src : List String
  pub dst : List String
  pub protocol : String
  pub ports : List String

pub record Document : Type 0 where
  pub version : ℤ
  pub rules : List Rule

pub data PolicyError : Type 0 where
  unreadable wrong_version no_source no_destination empty_selector no_tag not_a_selector :
      PolicyError
  unknown_protocol ports_without_protocol not_a_number outside_range ends_first : PolicyError
  no_addresses : PolicyError

-- `Version`
abbrev pub supported : ℤ
supported = pos 1

abbrev pub refuse : Bool → PolicyError → Result PolicyError (Unit {0})
refuse bad e = if bad then err e else ok tt

abbrev pub is_everything : String → Bool
is_everything s = equal s "*"

abbrev pub is_none {ℓ} : {A : Type ℓ} → Option A → Bool
is_none none = true
is_none (some a) = false

abbrev pub no_items {ℓ} : {A : Type ℓ} → List A → Bool
no_items [] = true
no_items (x ∷ xs) = false

-- `PortRange`
pub record PortRange : Type 0 where
  pub from : ℕ
  pub to : ℕ

-- uint16(n)
abbrev pub uint16 : ℤ → ℕ
uint16 (pos n) = n % 2 ^ 16
uint16 (negsuc n) = 65535 - n % 2 ^ 16

-- The order in which ranges are sorted.
abbrev pub range_before : PortRange → PortRange → Bool
range_before p q = if p.from == q.from then ltb p.to q.to else ltb p.from q.from

abbrev pub ordered_range : ℕ → ℕ → Result PolicyError PortRange
ordered_range lo hi = if ltb hi lo then err ends_first else ok (record { from = lo; to = hi })

module _ (t : Reading) where
  unfoldable pub parse_prefix : String → Option Prefix
  parse_prefix s = if t.has_slash s then cidr (t.parse_cidr s) else single (t.parse_addr s)
    where
      cidr : Option Prefix → Option Prefix
      cidr none = none
      cidr (some p) = some (masked p)

      single : Option Addr → Option Prefix
      single none = none
      single (some a) = some (record { addr = unmap a; bits = bit_len (unmap a) })

  -- `Selector.Prefix`
  unfoldable pub prefix_of : String → Option Prefix
  prefix_of s =
      if is_everything s
      then none
      else elim (t.cut_tag s) [ some tag ↦ none | none ↦ parse_prefix s ]

  -- `Selector.validate`
  unfoldable pub check_selector : String → Result PolicyError (Unit {0})
  check_selector s =
      refuse (equal s "") empty_selector
      >> (if is_everything s then ok tt else elim (t.cut_tag s) [
        | some tag ↦ refuse (equal tag "") no_tag
        | none ↦ refuse (is_none (prefix_of s)) not_a_selector
      ])

  unfoldable pub check_selectors : List String → Result PolicyError (Unit {0})
  check_selectors [] = ok tt
  check_selectors (s ∷ rest) = check_selector s >> check_selectors rest

  -- `Rule.protocol`
  unfoldable pub protocol_of : Rule → Result PolicyError String
  protocol_of r =
      let p = t.to_lower (t.trim_space r.protocol) in
      if equal p "" || equal p "any"
      then ok "any"
      else if equal p "tcp"
      then ok "tcp"
      else if equal p "udp"
      then ok "udp"
      else if equal p "icmp"
      then ok "icmp"
      else err unknown_protocol

  unfoldable pub canonical_protocol : Rule → String
  canonical_protocol r = or_any (protocol_of r)
    where
      or_any : Result PolicyError String → String
      or_any (err e) = "any"
      or_any (ok p) = p

  unfoldable pub parse_port : String → Result PolicyError ℕ
  parse_port s = in_range (t.atoi (t.trim_space s))
    where
      in_range : Option ℤ → Result PolicyError ℕ
      in_range none = err not_a_number
      in_range (some n) =
          if int_lt n (pos 1) || int_lt (pos 65535) n then err outside_range else ok (uint16 n)

  abbrev pub upper_port : Option String → ℕ → Result PolicyError ℕ
  upper_port none lo = ok lo
  upper_port (some text) lo = parse_port text

  -- The body of the loop of PortRanges.
  unfoldable pub parse_range : String → Result PolicyError PortRange
  parse_range spec =
      let (from, to) = t.cut_dash (t.trim_space spec) in
      parse_port from >>= λ lo. upper_port to lo >>= λ hi. ordered_range lo hi

  unfoldable pub parse_ranges : List String → Result PolicyError (List PortRange)
  parse_ranges [] = ok []
  parse_ranges (spec ∷ specs) =
      parse_range spec >>= λ range. parse_ranges specs >>= λ rest. ok (range ∷ rest)

  unfoldable pub port_ranges : Rule → Result PolicyError (List PortRange)
  port_ranges r = parse_ranges r.ports >>= λ ranges. ok (sort_by range_before ranges)

  -- `Rule.validate`
  unfoldable pub check_rule : Rule → Result PolicyError (Unit {0})
  check_rule r =
      refuse (no_items r.src) no_source
      >> refuse (no_items r.dst) no_destination
      >> check_selectors (r.src ++ r.dst)
      >> (protocol_of r >>= λ proto.
          refuse (not (no_items r.ports) && (not (equal proto "tcp") && not (equal proto "udp")))
            ports_without_protocol)
      >> (port_ranges r >>= λ ranges. ok tt)

  unfoldable pub check_rules : List Rule → Result PolicyError (Unit {0})
  check_rules [] = ok tt
  check_rules (r ∷ rest) = check_rule r >> check_rules rest

  -- `Document.Validate`
  unfoldable pub check_document : Document → Result PolicyError (Unit {0})
  check_document d =
      refuse (not (int_same d.version supported)) wrong_version >> check_rules d.rules

  -- `Parse`, of what the JSON decoder makes of the text.
  unfoldable pub parse_policy : Option Document → Result PolicyError Document
  parse_policy none = err unreadable
  parse_policy (some d) = check_document d >> ok d
