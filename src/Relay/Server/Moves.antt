-- ===== src/Relay/Server/Moves.antt =====
-- What can change where a key is reached.
use meshp.Prelude.{ℕ, ◌≡◌, refl, ◌⊎◌, inl, inr, List, some, sym, ap, ◌∙◌}
use meshp.Prelude.Equality.{bytes_eq}
use meshp.Prelude.Assoc.{lookup, IsMap, insert_origin}
use meshp.Relay.Frame.{Frame, parse, type_hello}
use meshp.Relay.State.{Server, AddrPort, Out, Session, Key}
use meshp.Relay.Server.{handle, touch, sender_at}
use meshp.Relay.Server.Outcome.{
  Permitted, ignores, strays, snubs, refuses, admits, misses, drops, delivers, answers,
  handle-Permitted,
}
use meshp.Relay.Server.Sessions.{sender_at-lookup, touch_origin}

-- A session as before, but for the time, which only a frame from its own address renews.
abbrev pub IsKept : Server → AddrPort → ℕ → Key → Session → Type 0
IsKept s from now k v =
    (old : Session) × (lookup k s.by_key ≡ some old)
    × (v.key ≡ old.key)
    × (v.network ≡ old.network)
    × (v.addr ≡ old.addr)
    × (v.via ≡ old.via)
    × ((v.last_seen ≡ old.last_seen) ⊎ ((old.addr ≡ from) × (v.last_seen ≡ now)))

-- A session that a hello with a granted token has just made.
abbrev pub IsMade : Server → ℕ → AddrPort → Frame → ℕ → Key → Session → Type 0
IsMade s via from frame now k v =
    (frame.kind ≡ type_hello)
    × (k ≡ frame.key)
    × (s.auth.authenticate now frame.payload ≡ some (k, v.network))
    × (v ≡ record { key = k; network = v.network; addr = from; via = via; last_seen = now })

touched-IsKept :
    (s : Server) (from : AddrPort) (now : ℕ) (x : Key × Session) (k : Key) (v : Session)
    → IsMap s.by_key
    → sender_at s.idle from now s.by_key ≡ some x
    → lookup k (touch s x now).by_key ≡ some v
    → IsKept s from now k v
touched-IsKept s from now x k v u g h =
    let found = sender_at-lookup s.idle from now s.by_key x u g in
    let was = touch_origin s x now k v found.0 h in
    (
      was.0,
      was.1,
      was.2,
      was.3,
      was.4,
      was.5,
      elim was.6 [ inl same ↦ inl same | inr (e, o, t) ↦ inr (ap (λ q. q.addr) o ∙ found.1, t) ],
    )

Permitted-IsKept :
    (s : Server) (via : ℕ) (from : AddrPort) (frame : Frame) (now : ℕ) (r : List Out × Server)
    (k : Key) (v : Session)
    → IsMap s.by_key
    → Permitted s via from frame now r
    → lookup k r.1.by_key ≡ some v
    → IsKept s from now k v ⊎ IsMade s via from frame now k v
Permitted-IsKept s via from frame now _ k v u (ignores c d p) h =
    inl (v, h, refl, refl, refl, refl, inl refl)
Permitted-IsKept s via from frame now _ k v u (strays c g) h =
    inl (v, h, refl, refl, refl, refl, inl refl)
Permitted-IsKept s via from frame now _ k v u (snubs c d l) h =
    inl (v, h, refl, refl, refl, refl, inl refl)
Permitted-IsKept s via from frame now _ k v u (misses {sender = x} c g d) h =
    inl (touched-IsKept s from now x k v u g h)
Permitted-IsKept s via from frame now _ k v u (refuses c d l) h =
    inl (v, h, refl, refl, refl, refl, inl refl)
Permitted-IsKept s via from frame now _ k v u (admits {network = n} c g) h =
    elim (insert_origin frame.key _ s.by_key k v h) [
      | inl (same, made) ↦
          inr (c, sym same, rw (sym same, sym made) g, rw (sym same, sym made) refl)
      | inr old ↦ inl (v, old, refl, refl, refl, refl, inl refl)
    ]
Permitted-IsKept s via from frame now _ k v u (drops {sender = x} c g d e) h =
    inl (touched-IsKept s from now x k v u g h)
Permitted-IsKept s via from frame now _ k v u (delivers {sender = x} kind g d n) h =
    inl (touched-IsKept s from now x k v u g h)
Permitted-IsKept s via from frame now _ k v u (answers {sender = x} c g) h =
    inl (touched-IsKept s from now x k v u g h)

-- A session in the table after a datagram was there before, with the same network, address and
-- socket, or the datagram was a hello for its key whose token the authenticator accepted: the
-- session then has the network of the token, and the address and the socket of the hello.
pub handle-IsKept :
    (s : Server) (via : ℕ) (from : AddrPort) (datagram : List ℕ) (now : ℕ) (k : Key) (v : Session)
    → IsMap s.by_key
    → lookup k (handle s via from datagram now).1.by_key ≡ some v
    → IsKept s from now k v ⊎ IsMade s via from (parse datagram) now k v
handle-IsKept s via from datagram now k v u h = elim (handle-Permitted s via from datagram now) [
  | inl (why, bad, r) ↦ inl (v, rw r at h, refl, refl, refl, refl, inl refl)
  | inr (good, p) ↦
      Permitted-IsKept s via from (parse datagram) now (handle s via from datagram now) k v u p h
]
