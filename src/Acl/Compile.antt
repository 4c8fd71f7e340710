-- ===== src/Acl/Compile.antt =====
-- internal/acl/compile.go: the filter of one device.
use meshp.Prelude.{
  Bool, true, false, not, ◌&&◌, none, some, List, [], ◌∷◌, ◌++◌, map, String, if◌then◌else◌, ◌==◌,
  ltb,
}
use meshp.Prelude.Equality.{equal, string_eq}
use meshp.Prelude.Keyed.{elem}
use meshp.Prelude.Members.{any_is}
use meshp.Prelude.Order.{sort_by}
use meshp.Prelude.Result.{Result, ok, ◌>>=◌, ◌>>◌}
use meshp.Netip.{Prefix, addr_eq, prefix_eq, addr_lt, overlaps}
use meshp.Acl.Document.{
  Reading, Rule, Document, PolicyError, no_addresses, PortRange, refuse, no_items, is_everything,
  prefix_of, canonical_protocol, port_ranges, check_document,
}

-- `Device`, with tags from the control plane's own record.
pub record Device : Type 0 where
  pub key : String
  pub addresses : List Prefix
  pub tags : List String

-- `PacketFilter_Rule` and `PacketFilter`. Every rule that is made allows.
pub record FilterRule : Type 0 where
  pub src_prefixes : List String
  pub dst_prefixes : List String
  pub protocol : String
  pub ports : List String
  pub allow : Bool

pub record PacketFilter : Type 0 where
  pub default_deny : Bool
  pub inbound : List FilterRule
  pub outbound : List FilterRule

abbrev pub has_tag : Device → String → Bool
has_tag d tag = elem tag d.tags

abbrev pub prefix_before : Prefix → Prefix → Bool
prefix_before p q = if not (equal p.addr q.addr) then addr_lt p.addr q.addr else ltb p.bits q.bits

abbrev pub put : Prefix → List Prefix → List Prefix
put p seen = if elem p seen then seen else p ∷ seen

unfoldable pub put_all : List Prefix → List Prefix → List Prefix
put_all [] seen = seen
put_all (p ∷ ps) seen = put_all ps (put p seen)

module _ (t : Reading) where
  unfoldable pub matches : Device → String → Bool
  matches d s = if is_everything s then true else elim (t.cut_tag s) [
    | some tag ↦ has_tag d tag
    | none ↦ elim (prefix_of t s) [ some p ↦ any_is (overlaps p) d.addresses | none ↦ false ]
  ]

  abbrev pub matches_any : Device → List String → Bool
  matches_any d selectors = any_is (matches d) selectors

  -- The loop over the peers in `resolve`.
  unfoldable pub put_matching : String → List Device → List Prefix → List Prefix
  put_matching s [] seen = seen
  put_matching s (peer ∷ peers) seen =
      put_matching s peers (if matches peer s then put_all peer.addresses seen else seen)

  -- And the one over the selectors.
  unfoldable pub put_named : List String → List Device → List Prefix → List Prefix
  put_named [] peers seen = seen
  put_named (s ∷ selectors) peers seen =
      put_named selectors peers
        (elim (prefix_of t s) [ some p ↦ put p seen | none ↦ put_matching s peers seen ])

  -- The loop of `sortedPrefixes`, which leaves out a text equal to the last.
  unfoldable pub texts_after : String → List Prefix → List String
  texts_after last [] = []
  texts_after last (p ∷ ps) =
      let rest = texts_after (t.prefix_text p) ps in
      if equal (t.prefix_text p) last then rest else t.prefix_text p ∷ rest

  unfoldable pub sorted_prefixes : List Prefix → List String
  sorted_prefixes ps = texts_after "" (sort_by prefix_before ps)

  unfoldable pub resolve : List String → List Device → List String
  resolve selectors peers = sorted_prefixes (put_named selectors peers [])

  -- `PortRange.String`
  unfoldable pub range_text : PortRange → String
  range_text r = if r.from == r.to then t.itoa r.from else t.join_dash (t.itoa r.from) (t.itoa r.to)

  unfoldable pub render_ports : List PortRange → List String
  render_ports ranges = map range_text ranges

  -- The rule that the loop adds to a direction, if any.
  unfoldable pub rule_for :
      Bool → List String → List String → List String → String → List PortRange → List FilterRule
  rule_for picked others sources destinations proto ranges =
      if picked && not (no_items others)
      then record {
        src_prefixes = sources;
        dst_prefixes = destinations;
        protocol = proto;
        ports = render_ports ranges;
        allow = true;
      }
        ∷ []
      else []

  -- The loop over the rules.
  unfoldable pub compile_rules :
      Device
      → List String
      → List Device
      → List Rule
      → Result PolicyError (List FilterRule × List FilterRule)
  compile_rules self own peers [] = ok ([], [])
  compile_rules self own peers (r ∷ rules) = port_ranges t r >>= λ ranges.
      compile_rules self own peers rules >>= λ rest.
      let sources = resolve r.src peers in
      let destinations = resolve r.dst peers in
      ok (
        rule_for (matches_any self r.dst) sources sources own (canonical_protocol t r) ranges
            ++ rest.0,
        rule_for (matches_any self r.src) destinations own destinations (canonical_protocol t r)
              ranges
            ++ rest.1,
      )

  unfoldable pub compile : Document → Device → List Device → Result PolicyError PacketFilter
  compile doc self peers =
      let own = sorted_prefixes self.addresses in
      check_document t doc
      >> refuse (no_items own) no_addresses
      >> (compile_rules self own peers doc.rules >>= λ rules.
          ok (record { default_deny = true; inbound = rules.0; outbound = rules.1 }))
