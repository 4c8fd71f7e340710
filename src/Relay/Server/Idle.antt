-- ===== src/Relay/Server/Idle.antt =====
-- What the timer of a relay forgets.
use meshp.Prelude.{
  ℕ, ◌+◌, ◌≤◌, ◌≡◌, arith, [], ◌∷◌, none, some, if◌then◌else◌, not, ltb, length, Bool,
}
use meshp.Prelude.Equality.{equal_iff, bytes_eq}
use meshp.Prelude.Assoc.{Assoc, lookup, retain, IsMap, lookup-retain}
use meshp.Relay.State.{Server, AddrPort, Session, Key, addr_port_eq}
use meshp.Relay.Server.{expire, sender_at, stale}

length-retain : (p : Key → Session → Bool) (m : Assoc Key Session) → length (retain p m) ≤ length m
unfolding retain
length-retain p [] = omega arith
length-retain p ((k, v) ∷ m) = ground (arith, length-retain p m)

-- A search that finds a sender finds the same one among the sessions that stay.
sender_at-retain :
    (idle : ℕ) (from : AddrPort) (now : ℕ) (m : Assoc Key Session) (x : Key × Session)
    → sender_at idle from now m ≡ some x
    → sender_at idle from now (retain (λ k v. not (stale idle now v)) m) ≡ some x
unfolding sender_at retain
sender_at-retain idle from now [] x h = h
sender_at-retain idle from now ((k, v) ∷ m) x h =
    ground (arith, equal_iff v.addr from, sender_at-retain idle from now m x)

-- The timer takes the sessions last heard of before `now - idle` and no others, says how many
-- went, and takes none that a frame from its address could still use.
pub expire_lem :
    (s : Server) (now : ℕ) (k : Key) (from : AddrPort) (x : Key × Session)
    → IsMap s.by_key
    → sender_at s.idle from now s.by_key ≡ some x
    → (lookup k (expire s now).1.by_key ≡ elim (lookup k s.by_key) [
      | none ↦ none
      | some v ↦ if ltb (v.last_seen + s.idle) now then none else some v
    ])
      × ((expire s now).0 + length (expire s now).1.by_key ≡ length s.by_key)
      × (sender_at s.idle from now (expire s now).1.by_key ≡ some x)
unfolding expire
expire_lem s now k from x u h = (
  ground (arith, lookup-retain (λ j v. not (stale s.idle now v)) k s.by_key u),
  omega (arith, length-retain (λ j v. not (stale s.idle now v)) s.by_key),
  sender_at-retain s.idle from now s.by_key x h,
)
