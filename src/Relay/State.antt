-- ===== src/Relay/State.antt =====
-- internal/relay/relay.go, the state of a relay: its sessions, its counters and what configures it.
-- Instants and durations are numbers.
use meshp.Prelude.{
  ℕ, ◌+◌, ◌*◌, ◌%◌, ◌^◌, true, ◌&&◌, List, [], Option, none, some, ◌==◌, ◌≡◌, ◌↔◌, arith,
}
use meshp.Prelude.Int.{ℤ, positive_or}
use meshp.Prelude.Equality.{Eq, equal, equal_iff, bytes_eq}
use meshp.Prelude.Assoc.{Assoc}
use meshp.Netip.{Addr, addr_eq}
use meshp.Relay.Frame.{Frame}

-- `[32]byte`
abbrev pub Key : Type 0
Key = List ℕ

pub record AddrPort : Type 0 where
  pub ip : Addr
  pub port : ℕ

pub same_addr_port_iff : (a b : AddrPort) → ((equal a.ip b.ip && a.port == b.port) ≡ true) ↔ (a ≡ b)
same_addr_port_iff a b = ground (arith, equal_iff a.ip b.ip)

instance abbrev pub addr_port_eq : Eq AddrPort
addr_port_eq = record {
  same = λ a b. equal a.ip b.ip && a.port == b.port;
  decides = same_addr_port_iff;
}

-- A text as its bytes.
abbrev pub Text : Type 0
Text = List ℕ

-- What a token grants, or none for an error, whose text is only logged. The implementation reads
-- the clock, so that it is given the instant.
pub record Authenticator : Type 0 where
  pub authenticate : ℕ → List ℕ → Option (Key × Text)

pub record Out : Type 0 where
  pub via : ℕ
  pub to : AddrPort
  pub frame : Frame

pub record Session : Type 0 where
  pub key : Key
  pub network : Text
  pub addr : AddrPort
  pub via : ℕ
  pub last_seen : ℕ

pub record Stats : Type 0 where
  pub sessions : ℕ
  pub hello_accepted : ℕ
  pub hello_refused : ℕ
  pub forwarded : ℕ
  pub dropped_no_session : ℕ
  pub dropped_wrong_addr : ℕ
  pub dropped_no_peer : ℕ
  pub dropped_other_net : ℕ
  pub dropped_undecodable : ℕ
  pub expired : ℕ

-- `print` is the `String` of an address with its port, a method of the standard library.
pub record Server : Type 0 where
  pub auth : Authenticator
  pub print : AddrPort → Text
  pub idle : ℕ
  pub self_key : Key
  pub by_key : Assoc Key Session
  pub stats : Stats

pub record Config : Type 0 where
  pub auth : Option Authenticator
  pub self_key : Key
  pub idle : ℤ

-- Five minutes, in nanoseconds.
abbrev pub default_idle : ℕ
default_idle = 5 * 60 * 1000000000

abbrev pub no_stats : Stats
no_stats = record {
  sessions = 0;
  hello_accepted = 0;
  hello_refused = 0;
  forwarded = 0;
  dropped_no_session = 0;
  dropped_wrong_addr = 0;
  dropped_no_peer = 0;
  dropped_other_net = 0;
  dropped_undecodable = 0;
  expired = 0;
}

-- `New`, which refuses a configuration without an authenticator.
unfoldable pub new : (AddrPort → Text) → Config → Option Server
new print cfg = elim cfg.auth [
  | none ↦ none
  | some auth ↦ some (record {
    auth = auth;
    print = print;
    idle = positive_or default_idle cfg.idle;
    self_key = cfg.self_key;
    by_key = [];
    stats = no_stats;
  })
]

-- A counter is a uint64.
abbrev pub add_count : ℕ → ℕ → ℕ
add_count n more = (n + more) % 2 ^ 64

abbrev pub count_hello_refused : Server → Server
count_hello_refused s = record s {
  stats = record (s.stats) { hello_refused = add_count s.stats.hello_refused 1 };
}

abbrev pub count_no_session : Server → Server
count_no_session s = record s {
  stats = record (s.stats) { dropped_no_session = add_count s.stats.dropped_no_session 1 };
}

abbrev pub count_no_peer : Server → Server
count_no_peer s = record s {
  stats = record (s.stats) { dropped_no_peer = add_count s.stats.dropped_no_peer 1 };
}

abbrev pub count_other_net : Server → Server
count_other_net s = record s {
  stats = record (s.stats) { dropped_other_net = add_count s.stats.dropped_other_net 1 };
}

abbrev pub count_forwarded : Server → Server
count_forwarded s = record s {
  stats = record (s.stats) { forwarded = add_count s.stats.forwarded 1 };
}
