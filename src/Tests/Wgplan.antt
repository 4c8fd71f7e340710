-- ===== src/Tests/Wgplan.antt =====
-- Plans for an interface with two peers, one of them relayed, and a third that goes away.
use meshp.Prelude.{
  ◌++◌, ℕ, ◌+◌, ◌≡◌, ◌≢◌, refl, arith, true, false, ◌&&◌, inl, none, some, List, [], ◌∷◌, map,
  String, if◌then◌else◌, ◌==◌,
}
use meshp.Prelude.Int.{pos}
use meshp.Prelude.Equality.{equal, equal_iff, ne_of_equal, string_eq}
use meshp.Prelude.Assoc.{lookup, insert}
use meshp.Prelude.Keyed.{elem, upsert_all}
use meshp.Prelude.Order.{sort_by, string_lt}
use meshp.Prelude.Result.{ok}
use meshp.Netip.{Addr, Prefix, addr_eq, prefix_eq, overlaps, contains, is_loopback_addr}
use meshp.Wgplan.Types.{Texts, Peer, Interface, Op, destroy_device}
use meshp.Wgplan.Peers.{must_clear, is_loopback}
use meshp.Wgplan.Plan.{plan, teardown}
use meshp.Wgplan.Validate.{
  validate, is_host, plan_for, check_addresses, check_prefixes, check_peer, check_peers, any_theft,
  steals, steals_any,
}
use meshp.Wgplan.Host.{Choices, Host, no_host, run, observe}
use meshp.Wgplan.Valid.{Clear, validate_separates}
use meshp.Wgplan.Reach.{IsHost, wanted}
use meshp.Wgplan.Withdraw.{teardown_withdraws}
use meshp.Wgplan.Uncleared.{Dropped, plan-Dropped}

abbrev system : Choices
system = record { fresh_mtu = pos 1420; chosen_port = λ h. pos 51820 }

abbrev v4 : ℕ → Addr
v4 n = record { is4 = true; value = n }

-- Addresses of 10.0.0.0/24.
abbrev host_prefix : ℕ → Prefix
host_prefix n = record { addr = v4 (167772160 + n); bits = 32 }

-- Prefixes are sorted alike here. The relay's socket is 127.0.0.1:7.
abbrev texts : Texts
texts = record {
  prefix_text = λ p. if p.bits == 32 then "host" else "net";
  parse_addr_port = λ s. if equal s "relay" then some (v4 2130706433) else none;
}

abbrev peer : String → List Prefix → String → Peer
peer key ips endpoint = record {
  public_key = key;
  allowed_ips = ips;
  endpoint = endpoint;
  relayed = equal endpoint "relay";
  preshared_key = "";
  keepalive_seconds = pos 25;
  has_handshake = false;
  handshake_age = pos 0;
}

abbrev first : Peer
first = peer "a" (host_prefix 1 ∷ record { addr = v4 0; bits = 0 } ∷ []) "there"

abbrev second : Peer
second = peer "b" (host_prefix 2 ∷ []) "relay"

abbrev third : Peer
third = peer "c" (host_prefix 3 ∷ []) ""

abbrev want : Interface
want = record {
  name = "meshp0";
  private_key = "secret";
  listen_port = pos 0;
  mtu = pos 1420;
  addresses = host_prefix 9 ∷ [];
  peers = first ∷ second ∷ [];
  mapped = [];
}

abbrev found : Host
found = record {
  is_there = true;
  up = false;
  private_key = "old";
  listen_port = pos 51820;
  mtu = pos 1420;
  addresses = host_prefix 8 ∷ [];
  peers = ("c", third) ∷ ("b", record second { allowed_ips = host_prefix 1 ∷ [] }) ∷ [];
  routes = host_prefix 3 ∷ [];
}

valid : validate texts want ≡ ok tt
unfolding validate check_addresses check_prefixes check_peer check_peers any_theft steals steals_any
    elem overlaps contains lookup insert sort_by is_loopback is_loopback_addr string_lt
valid = refl

-- What is planned for a valid configuration.
valid_plan :
    (i : Interface) (h : Host)
    → validate texts i ≡ ok tt
    → plan_for texts i (observe h) ≡ ok (plan texts i (observe h))
unfolding plan_for
valid_plan i h v = rw v

validate_separates_example :
    (host_prefix 1 ≢ host_prefix 2)
    × Clear (host_prefix 1) (host_prefix 2)
    × ((elem (v4 167772161) (map (λ a. a.addr) want.addresses) && is_host (host_prefix 1)) ≡ false)
unfolding elem
validate_separates_example =
    validate_separates texts want first second (host_prefix 1) (host_prefix 2) valid
      ([], second ∷ [], refl) (first ∷ [], [], refl) (ne_of_equal "a" "b" refl) refl refl

-- The first peer, whose keepalive is no longer wanted.
abbrev quiet : Peer
quiet = record first { keepalive_seconds = pos 0 }

abbrev without_keepalive : Interface
without_keepalive = record want { peers = quiet ∷ second ∷ [] }

abbrev kept_alive : Host
kept_alive = record found { peers = ("a", first) ∷ [] }

quiet_valid : validate texts without_keepalive ≡ ok tt
unfolding validate check_addresses check_prefixes check_peer check_peers any_theft steals steals_any
    elem overlaps contains lookup insert sort_by is_loopback is_loopback_addr string_lt
quiet_valid = refl

kept_alive-IsHost : IsHost kept_alive
unfolding lookup
kept_alive-IsHost = record {
  peers_map = (refl, tt);
  peers_keyed = λ k p l. ground (arith, equal_iff "a" k);
  there_or_empty = inl refl;
}

quiet-wanted : wanted without_keepalive "a" ≡ some quiet
unfolding lookup upsert_all insert
quiet-wanted = refl

first_there : lookup "a" kept_alive.peers ≡ some first
unfolding lookup
first_there = refl

not_relayed : must_clear texts first quiet ≡ false
unfolding is_loopback
not_relayed = refl

plan-Dropped_example :
    (h' : Host) × (run system (plan texts without_keepalive (observe kept_alive)) kept_alive
      ≡ some h')
    × ((p : Peer) × (lookup "a" h'.peers ≡ some p) × Dropped p quiet)
    × (plan texts without_keepalive (observe h') ≢ [])
plan-Dropped_example =
    plan-Dropped texts system without_keepalive kept_alive
      (plan texts without_keepalive (observe kept_alive)) "a" first quiet kept_alive-IsHost
      (valid_plan without_keepalive kept_alive quiet_valid) quiet-wanted first_there
      (inl (refl, refl)) not_relayed

teardown_withdraws_example :
    (front : List Op) × (teardown texts (observe found) ≡ front ++ destroy_device ∷ [])
    × ((h' : Host) × (run system front found ≡ some h')
        × (h'.is_there ≡ true)
        × ((p : Prefix) → (elem p h'.routes ≡ false) × (elem p h'.addresses ≡ false)))
    × (run system (teardown texts (observe found)) found ≡ some no_host)
    × (teardown texts (observe no_host) ≡ [])
teardown_withdraws_example = teardown_withdraws system texts found refl
