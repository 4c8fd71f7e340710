-- ===== src/Acl/Permission.antt =====
-- What a compiled filter permits, and when there is none.
use meshp.Prelude.{
  ◌≡◌, ◌≢◌, refl, sym, ap, ◌∙◌, arith, Bool, true, false, ◌&&◌, ◌||◌, List, [], ◌∷◌, String,
}
use meshp.Prelude.Equality.{string_eq}
use meshp.Prelude.Keyed.{elem}
use meshp.Prelude.Members.{any_is, any_is-append}
use meshp.Prelude.Result.{Result, ok, err, bind_ok, ok_same, ◌>>◌}
use meshp.Acl.Document.{
  Reading, Rule, Document, PolicyError, no_addresses, PortRange, refuse, no_items,
  canonical_protocol, port_ranges, check_document,
}
use meshp.Acl.Compile.{
  Device, FilterRule, PacketFilter, matches_any, sorted_prefixes, resolve, render_ports, rule_for,
  compile_rules, compile,
}
use meshp.Acl.Names.{called, names, elem-sorted_prefixes, elem-resolve}

-- A rule of a filter that lets something through from `from` to `to`, by a protocol and ports of
-- which a test holds.
abbrev pub lets : String → String → (String → List String → Bool) → FilterRule → Bool
lets from to test f =
    (elem from f.src_prefixes && elem to f.dst_prefixes) && (f.allow && test f.protocol f.ports)

module _ (t : Reading) where
  abbrev pub shown : Result PolicyError (List PortRange) → List String
  shown (err e) = []
  shown (ok ranges) = render_ports t ranges

  -- The ports of a rule, as a filter has them.
  abbrev pub ports_of : Rule → List String
  ports_of r = shown (port_ranges t r)

  rule_for-inbound :
      (from to : String) (test : String → List String → Bool) (picked : Bool)
      (sources own : List String) (proto : String) (ranges : List PortRange)
      → any_is (lets from to test) (rule_for t picked sources sources own proto ranges)
        ≡ (picked && (elem from sources && (elem to own && test proto (render_ports t ranges))))
  unfolding any_is rule_for elem
  rule_for-inbound from to test false sources own proto ranges = refl
  rule_for-inbound from to test true [] own proto ranges = refl
  rule_for-inbound from to test true (s ∷ sources) own proto ranges =
      flat (elem from (s ∷ sources)) (elem to own) (test proto (render_ports t ranges))
    where
      flat : (a b c : Bool) → (((a && b) && (true && c)) || false) ≡ (a && (b && c))
      flat a b c = ground arith

  rule_for-outbound :
      (from to : String) (test : String → List String → Bool) (picked : Bool)
      (destinations own : List String) (proto : String) (ranges : List PortRange)
      → any_is (lets from to test) (rule_for t picked destinations own destinations proto ranges)
        ≡ (picked
            && (elem to destinations && (elem from own && test proto (render_ports t ranges))))
  unfolding any_is rule_for elem
  rule_for-outbound from to test false destinations own proto ranges = refl
  rule_for-outbound from to test true [] own proto ranges = ground arith
  rule_for-outbound from to test true (s ∷ destinations) own proto ranges =
      flat (elem from own) (elem to (s ∷ destinations)) (test proto (render_ports t ranges))
    where
      flat : (a b c : Bool) → (((a && b) && (true && c)) || false) ≡ (b && (a && c))
      flat a b c = ground arith

  module _ (from to : String) (test : String → List String → Bool) (self : Device)
      (peers : List Device) where
    -- A rule of the policy permits traffic to the device.
    abbrev pub permits_in : Rule → Bool
    permits_in r =
        matches_any t self r.dst
        && (any_is (names t peers from) r.src
            && (called t to self.addresses && test (canonical_protocol t r) (ports_of r)))

    -- And traffic from it.
    abbrev pub permits_out : Rule → Bool
    permits_out r =
        matches_any t self r.src
        && (any_is (names t peers to) r.dst
            && (called t from self.addresses && test (canonical_protocol t r) (ports_of r)))

    added_in :
        (r : Rule) (ranges : List PortRange)
        → from ≢ ""
        → to ≢ ""
        → port_ranges t r ≡ ok ranges
        → any_is (lets from to test) (
            rule_for t
              (matches_any t self r.dst)
              (resolve t r.src peers)
              (resolve t r.src peers)
              (sorted_prefixes t self.addresses)
              (canonical_protocol t r)
              ranges)
          ≡ permits_in r
    added_in r ranges nf nt ported =
        rule_for-inbound from to test (matches_any t self r.dst) (resolve t r.src peers)
          (sorted_prefixes t self.addresses) (canonical_protocol t r) ranges
        ∙ rw (
          elem-resolve t from r.src peers nf,
          elem-sorted_prefixes t to self.addresses nt,
          ported,
        )

    added_out :
        (r : Rule) (ranges : List PortRange)
        → from ≢ ""
        → to ≢ ""
        → port_ranges t r ≡ ok ranges
        → any_is (lets from to test) (
            rule_for t
              (matches_any t self r.src)
              (resolve t r.dst peers)
              (sorted_prefixes t self.addresses)
              (resolve t r.dst peers)
              (canonical_protocol t r)
              ranges)
          ≡ permits_out r
    added_out r ranges nf nt ported =
        rule_for-outbound from to test (matches_any t self r.src) (resolve t r.dst peers)
          (sorted_prefixes t self.addresses) (canonical_protocol t r) ranges
        ∙ rw (
          elem-resolve t to r.dst peers nt,
          elem-sorted_prefixes t from self.addresses nf,
          ported,
        )

    compile_rules_exact :
        (rules : List Rule) (made : List FilterRule × List FilterRule)
        → from ≢ ""
        → to ≢ ""
        → compile_rules t self (sorted_prefixes t self.addresses) peers rules ≡ ok made
        → (any_is (lets from to test) made.0 ≡ any_is permits_in rules)
          × (any_is (lets from to test) made.1 ≡ any_is permits_out rules)
    unfolding compile_rules any_is
    compile_rules_exact [] made nf nt h =
        let e : ([], []) ≡ made = cc h in
        (
          ap (λ p. any_is (lets from to test) p.0) (sym e),
          ap (λ p. any_is (lets from to test) p.1) (sym e),
        )
    compile_rules_exact (r ∷ rules) made nf nt h =
        let (ranges, ported, h1) = bind_ok (port_ranges t r) _ _ h in
        let (rest, compiled, h2) =
          bind_ok (compile_rules t self (sorted_prefixes t self.addresses) peers rules) _ _ h1 in
        let (rest_in, rest_out) = compile_rules_exact rules rest nf nt compiled in
        let e = ok_same _ made h2 in
        (
          ap (λ p. any_is (lets from to test) p.0) (sym e)
              ∙ (any_is-append (lets from to test) _ rest.0
                  ∙ rw (added_in r ranges nf nt ported, rest_in)),
          ap (λ p. any_is (lets from to test) p.1) (sym e)
              ∙ (any_is-append (lets from to test) _ rest.1
                  ∙ rw (added_out r ranges nf nt ported, rest_out)),
        )

    -- The same of the tests that the code makes.
    pub compile_permits :
        (doc : Document) (f : PacketFilter)
        → from ≢ ""
        → to ≢ ""
        → compile t doc self peers ≡ ok f
        → (f.default_deny ≡ true)
          × (any_is (lets from to test) f.inbound ≡ any_is permits_in doc.rules)
          × (any_is (lets from to test) f.outbound ≡ any_is permits_out doc.rules)
    unfolding compile
    compile_permits doc f nf nt h =
        let (_, guarded, h1) =
          bind_ok
            (check_document t doc
              >> refuse (no_items (sorted_prefixes t self.addresses)) no_addresses)
            _ f h in
        let (made, compiled, h2) =
          bind_ok (compile_rules t self (sorted_prefixes t self.addresses) peers doc.rules) _ f
            h1 in
        let (ins, outs) = compile_rules_exact doc.rules made nf nt compiled in
        let e = ok_same _ f h2 in
        (
          ap (λ (g : PacketFilter). g.default_deny) (sym e),
          ap (λ (g : PacketFilter). any_is (lets from to test) g.inbound) (sym e) ∙ ins,
          ap (λ (g : PacketFilter). any_is (lets from to test) g.outbound) (sym e) ∙ outs,
        )
