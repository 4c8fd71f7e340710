-- ===== src/Wgplan/Peers.antt =====
-- internal/wgplan/wgplan.go: which peers are removed, added and rewritten.
use meshp.Prelude.{
  Bool, true, false, not, ◌&&◌, Option, none, some, List, [], ◌∷◌, ◌++◌, String, if◌then◌else◌,
}
use meshp.Prelude.Int.{ℤ, pos, int_lt, int_same}
use meshp.Prelude.Equality.{equal, string_eq}
use meshp.Prelude.Assoc.{Assoc, lookup}
use meshp.Prelude.Keyed.{upsert_all}
use meshp.Prelude.Order.{sort_by, string_lt, entry_before}
use meshp.Netip.{Addr, Prefix, prefix_eq, is_loopback_addr}
use meshp.Wgplan.Types.{Texts, Peer, Op, remove_peer, set_peer}
use meshp.Wgplan.Prefixes.{sort_prefixes}

-- 180 seconds
abbrev pub endpoint_grace : ℤ
endpoint_grace = pos 180000000000

abbrev pub index_peers : List Peer → Assoc String Peer
index_peers ps = upsert_all (λ p. p.public_key) ps []

abbrev pub sorted_peers : Assoc String Peer → Assoc String Peer
sorted_peers m = sort_by (entry_before string_lt) m

-- The last part of `isLoopback`.
abbrev pub parsed_loopback : Option Addr → Bool
parsed_loopback none = false
parsed_loopback (some a) = is_loopback_addr a

-- The comparison of two sorted slices.
abbrev pub same_prefixes : List Prefix → List Prefix → Bool
same_prefixes [] [] = true
same_prefixes (p ∷ ps) (q ∷ qs) = equal p q && same_prefixes ps qs
same_prefixes _ _ = false

module _ (t : Texts) where
  unfoldable pub is_loopback : String → Bool
  is_loopback endpoint =
      if equal endpoint "" then false else parsed_loopback (t.parse_addr_port endpoint)

  unfoldable pub same_apart_from_endpoint : Peer → Peer → Bool
  same_apart_from_endpoint have want =
      equal have.preshared_key want.preshared_key
      && (int_same have.keepalive_seconds want.keepalive_seconds
          && same_prefixes (sort_prefixes t have.allowed_ips) (sort_prefixes t want.allowed_ips))

  unfoldable pub keep_observed_endpoint : Peer → Peer → Bool
  keep_observed_endpoint have want =
      if want.relayed
      then false
      else if is_loopback have.endpoint
      then false
      else if equal want.endpoint ""
      then true
      else if equal have.endpoint ""
      then false
      else if equal have.endpoint want.endpoint
      then false
      else have.has_handshake && not (int_lt endpoint_grace have.handshake_age)

  abbrev pub offered : Peer → Peer → Peer
  offered have want =
      if keep_observed_endpoint have want then record want { endpoint = "" } else want

  -- Whether an existing peer is rewritten, and with what.
  unfoldable pub resolve_peer : Peer → Peer → Bool × Peer
  resolve_peer have want =
      if not (same_apart_from_endpoint have want)
      then (true, offered have want)
      else if not (keep_observed_endpoint have want) && not (equal have.endpoint want.endpoint)
      then (true, offered have want)
      else (false, offered have want)

  -- Relaying stops, and there is no endpoint to put in place of the loopback socket.
  abbrev pub must_clear : Peer → Peer → Bool
  must_clear current desired =
      is_loopback current.endpoint && (not desired.relayed && equal desired.endpoint "")

  -- The body of the loop over the wanted peers.
  unfoldable pub ops_for_peer : String → Option Peer → Peer → List Op
  ops_for_peer key none desired = set_peer desired ∷ []
  ops_for_peer key (some current) desired =
      if must_clear current desired
      then remove_peer key ∷ set_peer desired ∷ []
      else let (write, peer) = resolve_peer current desired in
        if write then set_peer peer ∷ [] else []

  unfoldable pub set_ops : Assoc String Peer → Assoc String Peer → List Op
  set_ops have [] = []
  set_ops have ((key, desired) ∷ rest) =
      ops_for_peer key (lookup key have) desired ++ set_ops have rest

abbrev pub unless_wanted : String → Option Peer → List Op → List Op
unless_wanted key none rest = remove_peer key ∷ rest
unless_wanted key (some desired) rest = rest

-- The loop over the peers that are there.
unfoldable pub remove_ops : Assoc String Peer → Assoc String Peer → List Op
remove_ops want [] = []
remove_ops want ((key, current) ∷ rest) = unless_wanted key (lookup key want) (remove_ops want rest)
