-- ===== src/Tests/Acl.antt =====
-- A policy that lets the web server reach the database by ssh.
use meshp.Prelude.{
  ℕ, ◌≡◌, ◌↔◌, refl, true, false, some, none, [], ◌∷◌, All, String, if◌then◌else◌, ◌==◌,
}
use meshp.Prelude.Int.{pos}
use meshp.Prelude.Equality.{equal, ne_of_equal, string_eq}
use meshp.Prelude.Keyed.{elem}
use meshp.Prelude.Members.{any_is}
use meshp.Prelude.Order.{sort_by}
use meshp.Prelude.Result.{ok}
use meshp.Netip.{addr_eq, prefix_eq}
use meshp.Acl.Document.{
  Reading, Rule, Document, no_items, prefix_of, check_selector, check_selectors, protocol_of,
  canonical_protocol, parse_port, parse_range, parse_ranges, port_ranges, check_rule, check_rules,
  check_document,
}
use meshp.Acl.Compile.{
  Device, PacketFilter, put_all, matches, put_matching, put_named, texts_after, sorted_prefixes,
  resolve, range_text, render_ports, rule_for, compile_rules, compile,
}
use meshp.Acl.Meaning.{Some}
use meshp.Acl.Exact.{lets_by, PermitsIn, PermitsOut, compile_exact}
use meshp.Acl.Ports.{IsRange, port_ranges-IsRange, compile_total}

abbrev reading : Reading
reading = record {
  cut_tag =
      λ s. if equal s "tag:web" then some "web" else if equal s "tag:db" then some "db" else none;
  has_slash = λ s. false;
  parse_cidr = λ s. none;
  parse_addr = λ s. none;
  prefix_text = λ p. if p.addr.value == 1 then "10.0.0.1/32" else "10.0.0.2/32";
  trim_space = λ s. s;
  to_lower = λ s. s;
  cut_dash = λ s. (s, none);
  atoi = λ s. if equal s "22" then some (pos 22) else none;
  itoa = λ n. "22";
  join_dash = λ a b. a;
}

abbrev device : String → ℕ → String → Device
device key n tag = record {
  key = key;
  addresses = record { addr = record { is4 = true; value = n }; bits = 32 } ∷ [];
  tags = tag ∷ [];
}

abbrev web : Device
web = device "w" 1 "web"

abbrev database : Device
database = device "d" 2 "db"

abbrev ssh : Rule
ssh = record { src = "tag:web" ∷ []; dst = "tag:db" ∷ []; protocol = "tcp"; ports = "22" ∷ [] }

abbrev policy : Document
policy = record { version = pos 1; rules = ssh ∷ [] }

abbrev database_filter : PacketFilter
database_filter = record {
  default_deny = true;
  inbound =
      record {
        src_prefixes = "10.0.0.1/32" ∷ [];
        dst_prefixes = "10.0.0.2/32" ∷ [];
        protocol = "tcp";
        ports = "22" ∷ [];
        allow = true;
      }
      ∷ [];
  outbound = [];
}

ssh_ranges : port_ranges reading ssh ≡ ok (record { from = 22; to = 22 } ∷ [])
unfolding port_ranges parse_ranges parse_range parse_port sort_by
ssh_ranges = refl

valid_policy : check_document reading policy ≡ ok tt
unfolding check_document check_rules check_rule check_selectors check_selector protocol_of
    port_ranges parse_ranges parse_range parse_port sort_by
valid_policy = refl

compiled : compile reading policy database (web ∷ []) ≡ ok database_filter
unfolding compile compile_rules rule_for check_document check_rules check_rule check_selectors
    check_selector protocol_of canonical_protocol port_ranges parse_ranges parse_range parse_port
    sort_by resolve put_named put_matching put_all matches prefix_of any_is elem sorted_prefixes
    texts_after render_ports range_text
compiled = refl

compile_exact_example :
    (database_filter.default_deny ≡ true)
    × ((any_is
            (lets_by reading "10.0.0.1/32" "10.0.0.2/32" "tcp" (some "22") database (web ∷ []))
            database_filter.inbound
          ≡ true)
        ↔ Some
            (PermitsIn reading "10.0.0.1/32" "10.0.0.2/32" "tcp" (some "22") database (web ∷ []))
            policy.rules)
    × ((any_is
            (lets_by reading "10.0.0.1/32" "10.0.0.2/32" "tcp" (some "22") database (web ∷ []))
            database_filter.outbound
          ≡ true)
        ↔ Some
            (PermitsOut reading "10.0.0.1/32" "10.0.0.2/32" "tcp" (some "22") database (web ∷ []))
            policy.rules)
compile_exact_example =
    compile_exact reading "10.0.0.1/32" "10.0.0.2/32" "tcp" (some "22") database (web ∷ []) policy
      database_filter (ne_of_equal "10.0.0.1/32" "" refl) (ne_of_equal "10.0.0.2/32" "" refl)
      compiled

port_ranges-IsRange_example : All IsRange (record { from = 22; to = 22 } ∷ [])
port_ranges-IsRange_example =
    port_ranges-IsRange reading ssh (record { from = 22; to = 22 } ∷ []) ssh_ranges

has_address : no_items (sorted_prefixes reading database.addresses) ≡ false
unfolding sorted_prefixes texts_after sort_by
has_address = refl

compile_total_example : (f : PacketFilter) × (compile reading policy database (web ∷ []) ≡ ok f)
compile_total_example = compile_total reading policy database (web ∷ []) valid_policy has_address
