-- ===== src/Acl/Ports.antt =====
-- The ports of a rule, and what a validated document spares the compiler.
use meshp.Prelude.{
  ℕ, ◌≡◌, ◌≤◌, refl, arith, Bool-cases, false, not, ◌||◌, inl, inr, Option, Option-cases, none,
  some, List, [], ◌∷◌, All, String, ltb,
}
use mathlib.Core.Path.{subst}
use meshp.Prelude.Int.{ℤ, pos, negsuc, int_lt, int_same}
use meshp.Prelude.Order.{sort_by}
use meshp.Prelude.Sorting.{sort_by-All}
use meshp.Prelude.Result.{ok, bind_ok, seq_ok, then_ok, ok_same, ◌>>=◌, ◌>>◌}
use meshp.Acl.Document.{
  Reading, upper_port, ordered_range, Rule, Document, no_addresses, wrong_version, supported,
  PortRange, range_before, refuse, no_items, uint16, parse_port, parse_range, parse_ranges,
  port_ranges, check_rule, check_rules, check_document,
}
use meshp.Acl.Compile.{Device, FilterRule, PacketFilter, sorted_prefixes, compile_rules, compile}

-- A port from 1 on, of 16 bits.
abbrev pub IsPort : ℕ → Type 0
IsPort n = (1 ≤ n) × (n ≤ 65535)

abbrev pub IsRange : PortRange → Type 0
IsRange r = IsPort r.from × IsPort r.to × (r.from ≤ r.to)

module _ (t : Reading) where
  checked-IsPort :
      (n : ℤ) (m : ℕ) → (int_lt n (pos 1) || int_lt (pos 65535) n) ≡ false → uint16 n ≡ m → IsPort m
  checked-IsPort (pos n) m h e = (ground (arith, h), ground (arith, h))
  checked-IsPort (negsuc n) m h e = absurd (cc h)

  parse_port-IsPort : (s : String) (n : ℕ) → parse_port t s ≡ ok n → IsPort n
  unfolding parse_port
  parse_port-IsPort s n h = elim (Option-cases (t.atoi (t.trim_space s))) [
    | inl gone ↦ absurd (cc (rw gone at h))
    | inr (v, read) ↦ elim (Bool-cases (int_lt v (pos 1) || int_lt (pos 65535) v)) [
      | inl outside ↦ absurd (cc (rw (read, outside) at h))
      | inr inside ↦ checked-IsPort v n inside (ok_same (uint16 v) n (rw (read, inside) at h))
    ]
  ]

  upper-IsPort : (o : Option String) (lo hi : ℕ) → IsPort lo → upper_port t o lo ≡ ok hi → IsPort hi
  upper-IsPort none lo hi is h = subst (λ n. IsPort n) (ok_same lo hi h) is
  upper-IsPort (some text) lo hi is h = parse_port-IsPort text hi h

  ordered-IsRange :
      (lo hi : ℕ) (r : PortRange) → IsPort lo → IsPort hi → ordered_range lo hi ≡ ok r → IsRange r
  ordered-IsRange lo hi r low high h = elim (Bool-cases (ltb hi lo)) [
    | inl backwards ↦ absurd (cc (rw backwards at h))
    | inr ordered ↦
        let made = ok_same (record { from = lo; to = hi }) r (rw ordered at h) in
        subst (λ q. IsRange q) made (low, high, ground arith)
  ]

  parse_range-IsRange : (spec : String) (r : PortRange) → parse_range t spec ≡ ok r → IsRange r
  unfolding parse_range
  parse_range-IsRange spec r h =
      let (from, to) = t.cut_dash (t.trim_space spec) in
      let (lo, low, h1) =
        bind_ok (parse_port t from) (λ n. upper_port t to n >>= λ hi. ordered_range n hi) r h in
      let (hi, high, h2) = bind_ok (upper_port t to lo) (λ n. ordered_range lo n) r h1 in
      let is_port = parse_port-IsPort from lo low in
      ordered-IsRange lo hi r is_port (upper-IsPort to lo hi is_port high) h2

  parse_ranges-IsRange :
      (specs : List String) (rs : List PortRange) → parse_ranges t specs ≡ ok rs → All IsRange rs
  unfolding parse_ranges
  parse_ranges-IsRange [] rs h = subst (λ l. All IsRange l) (ok_same [] rs h) tt
  parse_ranges-IsRange (spec ∷ specs) rs h =
      let (r, first, h1) = bind_ok (parse_range t spec) _ rs h in
      let (rest, others, h2) = bind_ok (parse_ranges t specs) _ rs h1 in
      let made = ok_same (r ∷ rest) rs h2 in
      subst (λ l. All IsRange l) made
        (parse_range-IsRange spec r first, parse_ranges-IsRange specs rest others)

  -- The ranges that are read for a rule all lie within 1 to 65535, and none ends before it begins.
  pub port_ranges-IsRange :
      (r : Rule) (rs : List PortRange) → port_ranges t r ≡ ok rs → All IsRange rs
  unfolding port_ranges
  port_ranges-IsRange r rs h =
      let (read, parsed, sorted) = bind_ok (parse_ranges t r.ports) _ rs h in
      subst (λ l. All IsRange l) (ok_same (sort_by range_before read) rs sorted)
        (sort_by-All range_before IsRange read (parse_ranges-IsRange r.ports read parsed))

  checked_ports :
      (r : Rule) → check_rule t r ≡ ok tt → (rs : List PortRange) × (port_ranges t r ≡ ok rs)
  unfolding check_rule
  checked_ports r h =
      let (rs, read, _) = bind_ok (port_ranges t r) (λ ranges. ok tt) tt (seq_ok _ _ tt h).1 in
      (rs, read)

  compiles_rules :
      (self : Device) (own : List String) (peers : List Device) (rules : List Rule)
      → check_rules t rules ≡ ok tt
      → (made : List FilterRule × List FilterRule) × (compile_rules t self own peers rules
          ≡ ok made)
  unfolding compile_rules check_rules
  compiles_rules self own peers [] h = (([], []), refl)
  compiles_rules self own peers (r ∷ rules) h =
      let (one, others) = seq_ok (check_rule t r) (check_rules t rules) tt h in
      let (rs, read) = checked_ports r one in
      let (made, compiled) = compiles_rules self own peers rules others in
      then_ok (port_ranges t r) _ rs read
        (then_ok (compile_rules t self own peers rules) _ made compiled (_, refl))

  -- For a document that validates and a device with an address there is a filter: no rule of it fails
  -- when it is compiled.
  pub compile_total :
      (doc : Document) (self : Device) (peers : List Device)
      → check_document t doc ≡ ok tt
      → no_items (sorted_prefixes t self.addresses) ≡ false
      → (f : PacketFilter) × (compile t doc self peers ≡ ok f)
  unfolding compile check_document
  compile_total doc self peers valid some_there =
      let own = sorted_prefixes t self.addresses in
      let rules_valid =
        (seq_ok (refuse (not (int_same doc.version supported)) wrong_version)
          (check_rules t doc.rules) tt valid).1 in
      let (made, compiled) = compiles_rules self own peers doc.rules rules_valid in
      then_ok (check_document t doc >> refuse (no_items own) no_addresses) _ tt
        (rw (valid, some_there))
        (then_ok (compile_rules t self own peers doc.rules) _ made compiled (_, refl))
