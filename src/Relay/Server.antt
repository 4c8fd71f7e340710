-- ===== src/Relay/Server.antt =====
-- internal/relay/relay.go: the relay that forwards packets between devices. A datagram becomes
-- the datagrams to send and the next state of the relay. The authenticator is a field of the
-- server, as in the code. The clock is an argument, read once in a call; instants and durations
-- are numbers. The table of sessions is a Go map, whose walk has no order that the code can rely
-- on: here it is walked in the order of its list, and `Run` of the child Sessions lets that order
-- change between two calls. Log lines are left out. Texts are their bytes.
pub mod Sessions
pub mod Outcome
pub mod Bounds
pub mod Forwarding
pub mod Moves
pub mod Idle
pub mod Delivery
pub mod Encodes
use meshp.Prelude.{
  ℕ, ◌+◌, ◌-◌, ◌*◌, ◌%◌, ◌^◌, Bool, true, false, ◌&&◌, not, List, [], ◌∷◌, Option, none, some, ltb,
  ◌==◌, if◌then◌else◌, length, String, ◌≡◌, ◌↔◌, arith,
}
use meshp.Prelude.Int.{ℤ, positive_or}
use meshp.Prelude.Result.{Result, ok, err}
use meshp.Prelude.Equality.{Eq, equal, equal_iff, bytes_eq, string_eq}
use meshp.Prelude.Assoc.{Assoc, lookup, insert, retain}
use meshp.Netip.{Addr, addr_eq, unmap}
use meshp.Relay.State.{
  Key, AddrPort, addr_port_eq, Text, Authenticator, Out, Session, Stats, Server, Config,
  default_idle, no_stats, new, add_count, count_hello_refused, count_no_session, count_no_peer,
  count_other_net, count_forwarded,
}
use meshp.Relay.Frame.{
  Frame, decode, header_len, type_hello, type_welcome, type_refused, type_send, type_recv,
  type_ping, type_pong,
}

-- The payload of a refusal, "refused".
abbrev pub refused_text : List ℕ
refused_text = 114 ∷ 101 ∷ 102 ∷ 117 ∷ 115 ∷ 101 ∷ 100 ∷ []

abbrev pub refusal : Server → ℕ → AddrPort → Out
refusal s via to = record {
  via = via;
  to = to;
  frame = record { kind = type_refused; key = s.self_key; payload = refused_text };
}

unfoldable pub refuse : Server → ℕ → AddrPort → ℕ → List Out
refuse s via to arrived =
    if ltb arrived (header_len + length refused_text) then [] else refusal s via to ∷ []

-- What a hello whose token grants its key leaves in the table.
abbrev pub admit : Server → ℕ → AddrPort → ℕ → Key → Text → Server
admit s via from now key network = record s {
  by_key =
      insert key (record { key = key; network = network; addr = from; via = via; last_seen = now })
        s.by_key;
  stats = record (s.stats) { hello_accepted = add_count s.stats.hello_accepted 1 };
}

-- The address that a welcome reports is unmapped.
abbrev pub welcome : Server → ℕ → AddrPort → Out
welcome s via from = record {
  via = via;
  to = from;
  frame = record {
    kind = type_welcome;
    key = s.self_key;
    payload = s.print (record { ip = unmap from.ip; port = from.port });
  };
}

unfoldable pub hello : Server → ℕ → AddrPort → Frame → ℕ → List Out × Server
unfolding refuse
hello s via from frame now =
    let arrived = header_len + length frame.payload in
    elim (s.auth.authenticate now frame.payload) [
      | none ↦ (refuse s via from arrived, count_hello_refused s)
      | some grant ↦
          if equal grant.0 frame.key
          then (welcome s via from ∷ [], admit s via from now grant.0 grant.1)
          else (refuse s via from arrived, count_hello_refused s)
    ]

-- The loop over the table: the first session at the address decides. It comes with its key in the
-- table, through which the code changes it in place.
unfoldable pub sender_at : ℕ → AddrPort → ℕ → Assoc Key Session → Option (Key × Session)
sender_at idle from now [] = none
sender_at idle from now ((k, sess) ∷ rest) =
    let found = sender_at idle from now rest in
    if equal sess.addr from
    then (if ltb idle (now - sess.last_seen) then none else some (k, sess))
    else found

-- sender.LastSeen = now
abbrev pub touch : Server → Key × Session → ℕ → Server
touch s sender now = record s {
  by_key = insert sender.0 (record (sender.1) { last_seen = now }) s.by_key;
}

-- The packet on its way to a session, under the key of its sender.
abbrev pub delivery : Session → Session → List ℕ → Out
delivery sender dest packet = record {
  via = dest.via;
  to = dest.addr;
  frame = record { kind = type_recv; key = sender.key; payload = packet };
}

-- `forward` behind the search for the sender, whose session the code has touched.
unfoldable pub deliver : Server → Session → Frame → List Out × Server
deliver s sender frame = elim (lookup frame.key s.by_key) [
  | none ↦ ([], count_no_peer s)
  | some dest ↦
      if equal dest.network sender.network
      then (delivery sender dest frame.payload ∷ [], count_forwarded s)
      else ([], count_other_net s)
]

unfoldable pub forward : Server → AddrPort → Frame → ℕ → List Out × Server
unfolding sender_at deliver
forward s from frame now = elim (sender_at s.idle from now s.by_key) [
  | none ↦ ([], count_no_session s)
  | some sender ↦ deliver (touch s sender now) sender.1 frame
]

abbrev pub pong : Server → ℕ → AddrPort → List ℕ → Out
pong s via from payload = record {
  via = via;
  to = from;
  frame = record { kind = type_pong; key = s.self_key; payload = payload };
}

unfoldable pub ping : Server → ℕ → AddrPort → Frame → ℕ → List Out × Server
unfolding sender_at
ping s via from frame now = elim (sender_at s.idle from now s.by_key) [
  | none ↦ ([], count_no_session s)
  | some sender ↦ (pong s via from frame.payload ∷ [], touch s sender now)
]

-- The `switch` on the type of a frame.
unfoldable pub dispatch : Server → ℕ → AddrPort → Frame → ℕ → List Out × Server
unfolding hello forward ping
dispatch s via from frame now =
    if frame.kind == type_hello
    then hello s via from frame now
    else if frame.kind == type_send
    then forward s from frame now
    else if frame.kind == type_ping
    then ping s via from frame now
    else ([], s)

unfoldable pub handle : Server → ℕ → AddrPort → List ℕ → ℕ → List Out × Server
unfolding dispatch decode
handle s via from datagram now = elim (decode datagram) [
  | err why ↦ (
    [],
    record s {
      stats = record (s.stats) { dropped_undecodable = add_count s.stats.dropped_undecodable 1 };
    },
  )
  | ok frame ↦ dispatch s via from frame now
]

-- Whether a session was last heard before the cutoff, now - idle.
abbrev pub stale : ℕ → ℕ → Session → Bool
stale idle now sess = ltb (sess.last_seen + idle) now

-- How many sessions went, and what is left.
unfoldable pub expire : Server → ℕ → ℕ × Server
expire s now =
    let kept = retain (λ k sess. not (stale s.idle now sess)) s.by_key in
    let gone = length s.by_key - length kept in
    (
      gone,
      record s {
        by_key = kept;
        stats = record (s.stats) { expired = add_count s.stats.expired gone };
      },
    )

-- `Stats`
abbrev pub stats_of : Server → Stats
stats_of s = record (s.stats) { sessions = length s.by_key }

-- `Session`
abbrev pub session : Server → Key → Option Session
session s key = lookup key s.by_key
