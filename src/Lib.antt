-- ===== src/Lib.antt =====
-- A verification library for meshp, a self-hosted private network over WireGuard. The control
-- plane tells each device's agent the state it wants (peers, relays, filters, route groups), the
-- agent folds it in, brings its WireGuard interface to it and picks its gateways by its own
-- probes, and relays carry packets between devices that cannot reach each other.
--
-- The parts, and where they are modelled:
--
-- Relay (internal/relayproto/relayproto.go). `Frame` is the struct Frame, with the key and the
-- payload as lists of bytes; `validate`, `encode` and `decode` are Frame.Validate, Frame.Encode
-- and Decode. A buffer is a list of bytes, and what Encode does not write stays in it.
--
-- Relay, the server (internal/relay/relay.go). State is the struct Server with its sessions, its
-- counters and what configures it, Server its methods: Handle takes a datagram to the datagrams
-- to send and the next state. The mutex makes every call one step. The clock is read once in a
-- call. Outcome is what Handle does, as a relation from which the theorems on single calls
-- follow; Sessions has the steps of a relay, among them a walk over its map in another order, and
-- the states that New leads to. An authenticator is a function of the instant and the token.
--
-- Relay, the tokens (internal/relaytoken/relaytoken.go, and issuerAuth of
-- cmd/meshp-relay/main.go). Token has Issue, Verify and the text of a network id. Ed25519 is a
-- record of its two functions; the theorems name what they need of them: that a signature
-- verifies, or that nothing verifies but what was issued. Network joins the tokens with the
-- server.
--
-- Challenge (internal/challenge/challenge.go). New, Issue, Verify and Parse over parameters for
-- HMAC, HKDF, the random bytes and base64; Stream is what the MAC is computed over.
--
-- Prefixmap (internal/prefixmap/prefixmap.go) over Netip. Allocate with its iterator over the
-- ranges of a block; Slots counts the ranges of one size, Lowest is what Allocate answers by
-- them. Its loop runs on fuel, and a fuel above the number of ranges is shown to be enough.
-- Colliding is not modelled.
--
-- Authz (internal/authz/authz.go and builtin.go). Catalogue is the list of permissions, Set the
-- sets of them, Builtin the roles that every organisation has.
--
-- Health (internal/health/health.go). Signals is Report and its verdict, Monitor the state
-- machine with Observe, Tick, Snapshot and Restore, each a function from the monitor and the
-- clock's reading to the monitor and the transition it returns; Run is a sequence of those calls.
-- The mutex, which each method holds from start to end, makes every call one step.
--
-- RouteProbe (internal/routeprobe/routeprobe.go and report.go). Assignment is what the control
-- plane sends, Chooser the Chooser with its map of group states and Current, Observe, Forget and
-- its kin, Reports the queue of verdicts that wait to be sent. Its messages are those of
-- proto/meshp/v1/control.proto, as far as the code reads them.
--
-- PeerSet (internal/peerset/peerset.go). Set and Apply, which folds in a delta or a snapshot,
-- with Diff, Equal and the readers. The contents of a message stay abstract: Wire is a record of
-- their types, with the key of a peer, the id of a route group and proto.Equal, which holds of
-- equal messages only.
--
-- Routes (internal/routes/select.go). Select, which ranks the advertisers of a group for a
-- device. Its output is the list of candidates that the agent's Chooser works through; the health
-- it reads is the state that the Monitor of Health keeps. Scores stands for SHA-256 and for the
-- arithmetic of floats, of which nothing is assumed.
--
-- Ipam (internal/ipam/ipam.go) over Netip. Allocator is the struct and every method of it. Netip
-- is what the program uses of Go's net/netip: an address is its number and its family, without a
-- zone. New is New with its counts of addresses, of which lastAddr is read on the number of an
-- address instead of its bytes; IsPool says what it builds, Calls is a sequence of calls.
--
-- Wgplan (internal/wgplan/wgplan.go). Types has the interface that is wanted, the one observed
-- and the operations; Prefixes and Peers the functions that compare them; Plan is For behind its
-- validation, with Teardown, and Validate is Interface.Validate with For itself. Link is Apply
-- and ApplyPlan of internal/wglink (wglink_linux.go, wglink.go, peer.go) over Kernel, a record of
-- the calls of rtnetlink and wgctrl, of which nothing is assumed. Host is the interface as each
-- operation is meant to change it, alone, and Choices what the system chooses by itself, the MTU
-- of a new interface and a port where none is asked for; the theorems on plans follow them on
-- Host. What a kernel does besides is not modelled: Linux drops the IPv4 routes of a device with
-- its last IPv4 address, and refuses an MTU or a keepalive out of its range. Other platforms
-- than Linux are not modelled, keys and endpoints are taken to parse, prefixes to have no bits
-- beyond their length, and nobody else changes the interface between an observation and the end
-- of its plan.
--
-- Acl (internal/acl/document.go and compile.go). Document is the policy with Validate and
-- PortRanges, Compile the filter of one device with the resolution of its selectors. Reading is a
-- record of what Go's strings, strconv and net/netip make of texts, of which nothing is assumed;
-- the JSON decoder gives Parse a document or nothing. Names follows the texts that a selector
-- adds, Meaning and Protocol say what selectors and protocols mean by themselves, Permission what
-- a policy permits, and Ports which ports a rule has.
--
-- Dns (internal/dns/label.go and zones.go). Label is ValidLabel, Label and Suffixed, over lists
-- of characters; Zones the registry of names with Lookup. The wire format is not modelled.
--
-- Claims (internal/tunnel/claims.go). The registry of the prefixes that each membership carries,
-- as the map that it is.
--
-- Prelude holds what the parts share: tests on numbers, maps as association lists with the laws
-- of their operations and of folds into them, equality as an interface, sorting, and results that
-- may be errors. Tests has concrete runs and each theorem at an input that meets its hypotheses.
--
-- Bounds and conventions. Time is a number of nanoseconds, and the instant 0 is Go's zero time;
-- in the relay, its tokens and the challenges it is a number of nanoseconds after 1970. Counters
-- and durations are natural numbers; the code never counts far enough for an int64 to wrap, but
-- for the uint64 counters of the relay, whose wrap-around is written out. Priority and weight are
-- integers, since the code tests their signs. Apart from the ranges of Prefixmap, the only loop
-- that is not over a list is the sweep of Allocate in Ipam, which runs over a count of steps: the
-- size of the prefix, or 2^20 where the size does not fit an int64, as in the code; the theorem
-- on its errors shows that the size is enough, and is not about the prefixes of 2^20 steps. A Go map is a list of entries with distinct keys,
-- and no result depends on their order but the search for a sender in the relay and for the zone
-- of a qualified name; sort.Slice is an insertion sort, which agrees with it where no two
-- elements are equivalent.
--
-- Not modelled: the database and its generated queries, gRPC and HTTP, sockets, the bindings of
-- the operating systems, cryptography, generated protobuf code, and the commands but for
-- issuerAuth. They are I/O around the parts above, or code that is not the repository's own.
-- Error texts and logs are left out; an error is its kind.
pub mod Prelude
pub mod Relay
pub mod Health
pub mod Tests
pub mod RouteProbe
pub mod PeerSet
pub mod Netip
pub mod Challenge
pub mod Prefixmap
pub mod Authz
pub mod Dns
pub mod Claims
pub mod Ipam
pub mod Routes
pub mod Acl
pub mod Wgplan
