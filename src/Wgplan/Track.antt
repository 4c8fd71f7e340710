-- ===== src/Wgplan/Track.antt =====
-- What the operations on peers make of the peer at one key.
use meshp.Prelude.{
  ◌≡◌, refl, ap, ◌∙◌, arith, Bool, Bool-cases, true, false, inl, inr, Option, none, some, List, [],
  ◌∷◌, ◌++◌, All, String, if◌then◌else◌,
}
use mathlib.Core.Option
use meshp.Prelude.Equality.{equal, equal_iff, string_eq}
use meshp.Prelude.Assoc.{
  Assoc, IsMap, lookup, delete, lookup-insert, lookup-delete, insert-IsMap, delete-IsMap,
}
use meshp.Netip.{Prefix}
use meshp.Wgplan.Types.{
  Peer, Op, create_device, bring_up, destroy_device, set_device, remove_peer, set_peer,
  remove_address, add_address, remove_route, add_route,
}
use meshp.Wgplan.Host.{
  Choices, Host, peer_config, configured, fresh, or_old, without_prefixes, all_without, configure,
  execute, run,
}

abbrev pub is_peer_op : Op → Bool
is_peer_op (remove_peer k) = true
is_peer_op (set_peer p) = true
is_peer_op _ = false

abbrev pub OnPeers : List Op → Type 0
OnPeers ops = All (λ op. is_peer_op op ≡ true) ops

abbrev peer_change : Op → Assoc String Peer → Assoc String Peer
peer_change (remove_peer k) m = delete k m
peer_change (set_peer p) m = configure (peer_config p) m
peer_change _ m = m

unfoldable pub peers_after : List Op → Assoc String Peer → Assoc String Peer
peers_after [] m = m
peers_after (op ∷ ops) m = peers_after ops (peer_change op m)

execute-peer_change :
    (os : Choices)
    → (op : Op) (h : Host) → is_peer_op op ≡ true
    → h.is_there ≡ true
    → execute os op h ≡ some (record h { peers = peer_change op h.peers })
unfolding execute
execute-peer_change os (remove_peer k) h p e = ground arith
execute-peer_change os (set_peer q) h p e = ground arith
execute-peer_change os create_device h p e = absurd (cc p)
execute-peer_change os bring_up h p e = absurd (cc p)
execute-peer_change os destroy_device h p e = absurd (cc p)
execute-peer_change os (set_device d) h p e = absurd (cc p)
execute-peer_change os (remove_address q) h p e = absurd (cc p)
execute-peer_change os (add_address q) h p e = absurd (cc p)
execute-peer_change os (remove_route q) h p e = absurd (cc p)
execute-peer_change os (add_route q) h p e = absurd (cc p)

pub run-OnPeers :
    (os : Choices)
    → (ops : List Op) (h : Host) → OnPeers ops
    → h.is_there ≡ true
    → run os ops h ≡ some (record h { peers = peers_after ops h.peers })
unfolding run peers_after
run-OnPeers os [] h all e = refl
run-OnPeers os (op ∷ ops) h all e =
    rw (execute-peer_change os op h all.0 e)
      (run-OnPeers os ops (record h { peers = peer_change op h.peers }) all.1 e)

lookup-all_without :
    (taken : List Prefix) (k : String) (m : Assoc String Peer)
    → lookup k (all_without taken m) ≡ Option.map (without_prefixes taken) (lookup k m)
unfolding lookup all_without
lookup-all_without taken k [] = refl
lookup-all_without taken k ((j, p) ∷ m) = ground (arith, lookup-all_without taken k m)

-- One operation at one key.
unfoldable pub track : String → Op → Option Peer → Option Peer
track k (remove_peer j) o = if equal j k then none else o
track k (set_peer p) o =
    if equal p.public_key k
    then some (configured (peer_config p) (or_old o (fresh p.public_key)))
    else Option.map (without_prefixes p.allowed_ips) o
track k _ o = o

unfoldable pub track_all : String → List Op → Option Peer → Option Peer
track_all k [] o = o
track_all k (op ∷ ops) o = track_all k ops (track k op o)

lookup-peer_change :
    (k : String) (op : Op) (m : Assoc String Peer)
    → is_peer_op op ≡ true
    → lookup k (peer_change op m) ≡ track k op (lookup k m)
unfolding track configure peer_config
lookup-peer_change k (remove_peer j) m h = lookup-delete j k m
lookup-peer_change k (set_peer p) m h =
    lookup-insert p.public_key k
      (configured (peer_config p) (or_old (lookup p.public_key m) (fresh p.public_key)))
      (all_without p.allowed_ips m)
    ∙ elim (Bool-cases (equal p.public_key k)) [
      | inl h ↦ let same : p.public_key ≡ k = (equal_iff p.public_key k).0 h in rw (h, same)
      | inr h ↦ rw (h, lookup-all_without p.allowed_ips k m)
    ]
lookup-peer_change k create_device m h = refl
lookup-peer_change k bring_up m h = refl
lookup-peer_change k destroy_device m h = refl
lookup-peer_change k (set_device d) m h = refl
lookup-peer_change k (remove_address q) m h = refl
lookup-peer_change k (add_address q) m h = refl
lookup-peer_change k (remove_route q) m h = refl
lookup-peer_change k (add_route q) m h = refl

pub lookup-peers_after :
    (k : String) (ops : List Op) (m : Assoc String Peer)
    → OnPeers ops
    → lookup k (peers_after ops m) ≡ track_all k ops (lookup k m)
unfolding peers_after track_all
lookup-peers_after k [] m all = refl
lookup-peers_after k (op ∷ ops) m all =
    lookup-peers_after k ops (peer_change op m) all.1
    ∙ ap (track_all k ops) (lookup-peer_change k op m all.0)

pub track_all-append :
    (k : String) (xs ys : List Op) (o : Option Peer)
    → track_all k (xs ++ ys) o ≡ track_all k ys (track_all k xs o)
unfolding track_all
track_all-append k [] ys o = refl
track_all-append k (op ∷ xs) ys o = track_all-append k xs ys (track k op o)

all_without-IsMap :
    (taken : List Prefix) (m : Assoc String Peer) → IsMap m → IsMap (all_without taken m)
unfolding all_without
all_without-IsMap taken [] u = tt
all_without-IsMap taken ((k, p) ∷ m) u =
    (rw (lookup-all_without taken k m, u.0), all_without-IsMap taken m u.1)

peer_change-IsMap : (op : Op) (m : Assoc String Peer) → IsMap m → IsMap (peer_change op m)
unfolding configure peer_config
peer_change-IsMap (remove_peer k) m u = delete-IsMap k m u
peer_change-IsMap (set_peer p) m u =
    insert-IsMap p.public_key _ (all_without p.allowed_ips m) (all_without-IsMap p.allowed_ips m u)
peer_change-IsMap create_device m u = u
peer_change-IsMap bring_up m u = u
peer_change-IsMap destroy_device m u = u
peer_change-IsMap (set_device d) m u = u
peer_change-IsMap (remove_address q) m u = u
peer_change-IsMap (add_address q) m u = u
peer_change-IsMap (remove_route q) m u = u
peer_change-IsMap (add_route q) m u = u

pub peers_after-IsMap :
    (ops : List Op) (m : Assoc String Peer) → IsMap m → IsMap (peers_after ops m)
unfolding peers_after
peers_after-IsMap [] m u = u
peers_after-IsMap (op ∷ ops) m u =
    peers_after-IsMap ops (peer_change op m) (peer_change-IsMap op m u)

-- A peer keeps the key under which it is tracked.
track_keyed :
    (k : String) (op : Op) (o : Option Peer)
    → ((p : Peer) → o ≡ some p → p.public_key ≡ k)
    → (q : Peer) → track k op o ≡ some q
    → q.public_key ≡ k
unfolding track configured peer_config without_prefixes
track_keyed k (remove_peer j) o h q e = ground (arith, h q)
track_keyed k (set_peer p) none h q e = ground (arith, equal_iff p.public_key k)
track_keyed k (set_peer p) (some c) h q e = ground (arith, equal_iff p.public_key k, h c refl)
track_keyed k create_device o h q e = h q e
track_keyed k bring_up o h q e = h q e
track_keyed k destroy_device o h q e = h q e
track_keyed k (set_device d) o h q e = h q e
track_keyed k (remove_address r) o h q e = h q e
track_keyed k (add_address r) o h q e = h q e
track_keyed k (remove_route r) o h q e = h q e
track_keyed k (add_route r) o h q e = h q e

pub track_all_keyed :
    (k : String) (ops : List Op) (o : Option Peer)
    → ((p : Peer) → o ≡ some p → p.public_key ≡ k)
    → (q : Peer) → track_all k ops o ≡ some q
    → q.public_key ≡ k
unfolding track_all
track_all_keyed k [] o h q e = h q e
track_all_keyed k (op ∷ ops) o h q e =
    track_all_keyed k ops (track k op o) (track_keyed k op o h) q e
