-- ===== src/Acl/Exact.antt =====
-- That a compiled filter permits what the policy means.
use meshp.Prelude.{◌≡◌, ◌≢◌, ◌↔◌, arith, Bool, true, ◌&&◌, Option, List, [], ◌∷◌, All, String}
use meshp.Prelude.Equality.{equal, string_eq}
use meshp.Prelude.Members.{any_is}
use meshp.Prelude.Result.{ok, bind_ok, ◌>>◌}
use meshp.Acl.Document.{
  Reading, Rule, Document, no_addresses, PortRange, refuse, no_items, port_ranges, check_document,
}
use meshp.Acl.Compile.{Device, FilterRule, PacketFilter, sorted_prefixes, compile_rules, compile}
use meshp.Acl.Meaning.{Some, Picks, Stands, Called, picked_iff, named_iff, called_iff}
use meshp.Acl.Protocol.{IsProtocol, canonical_protocol-IsProtocol}
use meshp.Acl.Texts.{has_ports, HasPorts, ports_iff}
use meshp.Acl.Permission.{lets, ports_of, permits_in, permits_out, compile_permits}

all_five :
    (a b c d e : Bool) (A B C D E : Type 0)
    → ((a ≡ true) ↔ A)
    → ((b ≡ true) ↔ B)
    → ((c ≡ true) ↔ C)
    → ((d ≡ true) ↔ D)
    → ((e ≡ true) ↔ E)
    → ((a && (b && (c && (d && e)))) ≡ true) ↔ (A × B × C × D × E)
all_five a b c d e A B C D E p q r s u = ground (arith, p, q, r, s, u)

any_is-on {ℓ} :
    {A : Type ℓ} (test : A → Bool) (Good P : A → Type 0)
    → ((x : A) → Good x → (test x ≡ true) ↔ P x)
    → (xs : List A) → All Good xs
    → (any_is test xs ≡ true) ↔ Some P xs
unfolding any_is
any_is-on test Good P each [] good = (λ e. absurd (cc e), λ e. absurd e)
any_is-on test Good P each (x ∷ xs) good =
    ground (arith, each x good.0, any_is-on test Good P each xs good.1)

module _ (t : Reading) where
  -- The ports of a rule are read.
  abbrev Ported : Rule → Type 0
  Ported r = (ranges : List PortRange) × (port_ranges t r ≡ ok ranges)

  compile_rules-Ported :
      (self : Device) (own : List String) (peers : List Device) (rules : List Rule)
      (made : List FilterRule × List FilterRule)
      → compile_rules t self own peers rules ≡ ok made
      → All Ported rules
  unfolding compile_rules
  compile_rules-Ported self own peers [] made h = tt
  compile_rules-Ported self own peers (r ∷ rules) made h =
      let (ranges, ported, h1) = bind_ok (port_ranges t r) _ _ h in
      let (rest, compiled, h2) = bind_ok (compile_rules t self own peers rules) _ _ h1 in
      ((ranges, ported), compile_rules-Ported self own peers rules rest compiled)

  compile-Ported :
      (doc : Document) (self : Device) (peers : List Device) (f : PacketFilter)
      → compile t doc self peers ≡ ok f
      → All Ported doc.rules
  unfolding compile
  compile-Ported doc self peers f h =
      let (_, guarded, h1) =
        bind_ok
          (check_document t doc
            >> refuse (no_items (sorted_prefixes t self.addresses)) no_addresses)
          _ f h in
      let (made, compiled, h2) =
        bind_ok (compile_rules t self (sorted_prefixes t self.addresses) peers doc.rules) _ f h1 in
      compile_rules-Ported self (sorted_prefixes t self.addresses) peers doc.rules made compiled

  ports_of-HasPorts :
      (o : Option String) (r : Rule)
      → Ported r
      → (has_ports t o (ports_of t r) ≡ true) ↔ HasPorts t o r
  ports_of-HasPorts o r (ranges, e) = rw e (ports_iff t o r ranges e)

  module _ (from to proto : String) (port : Option String) (self : Device)
      (peers : List Device) where
    -- A rule of a filter lets through traffic by a protocol and a text of ports, or by any port.
    abbrev pub lets_by : FilterRule → Bool
    lets_by = lets from to (λ p ranges. equal p proto && has_ports t port ranges)

    -- A rule of the policy, read by itself, permits traffic to the device.
    abbrev pub PermitsIn : Rule → Type 0
    PermitsIn r =
        Some (Picks t self) r.dst
        × Some (Stands t peers from) r.src
        × Called t to self
        × IsProtocol t r proto
        × HasPorts t port r

    -- And traffic from it.
    abbrev pub PermitsOut : Rule → Type 0
    PermitsOut r =
        Some (Picks t self) r.src
        × Some (Stands t peers to) r.dst
        × Called t from self
        × IsProtocol t r proto
        × HasPorts t port r

    in_iff :
        (r : Rule)
        → Ported r
        → (permits_in t from to (λ p ranges. equal p proto && has_ports t port ranges) self peers r
            ≡ true)
          ↔ PermitsIn r
    in_iff r ported =
        all_five _ _ _ _ _ _ _ _ _ _ (picked_iff t self r.dst) (named_iff t peers from r.src)
          (called_iff t to self) (canonical_protocol-IsProtocol t r proto)
          (ports_of-HasPorts port r ported)

    out_iff :
        (r : Rule)
        → Ported r
        → (permits_out t from to (λ p ranges. equal p proto && has_ports t port ranges) self peers r
            ≡ true)
          ↔ PermitsOut r
    out_iff r ported =
        all_five _ _ _ _ _ _ _ _ _ _ (picked_iff t self r.src) (named_iff t peers to r.dst)
          (called_iff t from self) (canonical_protocol-IsProtocol t r proto)
          (ports_of-HasPorts port r ported)

    -- A filter that is compiled denies by default. A rule of it lets something in from an address or
    -- prefix `from` to an address `to`, by a protocol and a text of ports, or by any port, exactly
    -- when a rule of the policy picks the device as a destination, has a source that stands for
    -- `from`, names the protocol, and has an entry of those ports, or no entry, and `to` is an
    -- address of the device; and a rule lets something out exactly when one picks the device as a
    -- source and has a destination that stands for `to`. A selector picks a device by `*`, by a tag
    -- that the device has, or by a prefix that overlaps one of its addresses; it stands for the
    -- prefix that it is, or for the addresses of the devices that it picks.
    pub compile_exact :
        (doc : Document) (f : PacketFilter)
        → from ≢ ""
        → to ≢ ""
        → compile t doc self peers ≡ ok f
        → (f.default_deny ≡ true)
          × ((any_is lets_by f.inbound ≡ true) ↔ Some PermitsIn doc.rules)
          × ((any_is lets_by f.outbound ≡ true) ↔ Some PermitsOut doc.rules)
    compile_exact doc f nf nt h =
        let ported = compile-Ported doc self peers f h in
        let (denies, ins, outs) =
          compile_permits t from to (λ p ranges. equal p proto && has_ports t port ranges) self
            peers doc f nf nt h in
        (
          denies,
          rw ins (any_is-on _ Ported PermitsIn in_iff doc.rules ported),
          rw outs (any_is-on _ Ported PermitsOut out_iff doc.rules ported),
        )
