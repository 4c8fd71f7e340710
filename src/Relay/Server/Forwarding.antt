-- ===== src/Relay/Server/Forwarding.antt =====
-- Between which sessions a relay carries packets.
use meshp.Prelude.{inl, inr, ℕ, ◌-◌, ◌≤◌, ◌≡◌, refl, arith, List, ◌∷◌, some, sym, ◌∙◌}
use meshp.Prelude.Equality.{bytes_eq}
use meshp.Prelude.Assoc.{lookup, IsMap}
use meshp.Relay.Frame.{Frame, parse, type_recv}
use meshp.Relay.State.{Server, AddrPort, Out, Session, Key}
use meshp.Relay.Server.{handle}
use meshp.Relay.Server.Outcome.{
  Permitted, ignores, strays, snubs, refuses, admits, misses, drops, delivers, answers,
  handle-Permitted,
}
use meshp.Relay.Server.Sessions.{sender_at-lookup, touch_origin}

-- The packet of a frame goes from one session of the table to another of the same network: the
-- sender's is at the address that the frame came from and is not idle, the other one is that of
-- the key in the frame.
abbrev pub IsCarried : Server → AddrPort → Frame → ℕ → Out → Type 0
IsCarried s from frame now out =
    (k : Key) × (sender : Session) × (dest : Session) × (lookup k s.by_key ≡ some sender)
    × (sender.addr ≡ from)
    × (now - sender.last_seen ≤ s.idle)
    × (lookup frame.key s.by_key ≡ some dest)
    × (dest.network ≡ sender.network)
    × (out.to ≡ dest.addr)
    × (out.via ≡ dest.via)
    × (out.frame.key ≡ sender.key)
    × (out.frame.payload ≡ frame.payload)

head_same : (a b : Out) (xs ys : List Out) → a ∷ xs ≡ b ∷ ys → a ≡ b
head_same a b xs ys e = cc e

Permitted-IsCarried :
    (s : Server) (via : ℕ) (from : AddrPort) (frame : Frame) (now : ℕ) (r : List Out × Server)
    (out : Out) (rest : List Out)
    → IsMap s.by_key
    → Permitted s via from frame now r
    → r.0 ≡ out ∷ rest
    → out.frame.kind ≡ type_recv
    → IsCarried s from frame now out
Permitted-IsCarried s via from frame now _ out rest u (ignores h t p) e k = absurd (cc e)
Permitted-IsCarried s via from frame now _ out rest u (refuses c d h) e k = absurd (ground arith)
Permitted-IsCarried s via from frame now _ out rest u (admits c h) e k = absurd (ground arith)
Permitted-IsCarried s via from frame now _ out rest u (drops c h g d) e k = absurd (cc e)
Permitted-IsCarried s via from frame now _ out rest u (strays c h) e k = absurd (cc e)
Permitted-IsCarried s via from frame now _ out rest u (snubs c d l) e k = absurd (cc e)
Permitted-IsCarried s via from frame now _ out rest u (misses c h g) e k = absurd (cc e)
Permitted-IsCarried s via from frame now _ out rest u (delivers {sender = x} {dest = d} kind h g n)
      e k =
    let found = sender_at-lookup s.idle from now s.by_key x u h in
    let to = touch_origin s x now frame.key d found.0 g in
    let made = head_same _ _ _ _ e in
    rw (sym made)
      (x.0, x.1, to.0, found.0, found.1, found.2, to.1, sym to.3 ∙ n, to.4, to.5, refl, refl)
Permitted-IsCarried s via from frame now _ out rest u (answers c h) e k = absurd (ground arith)

-- What a relay passes on, in a table with one session at most to a key, it carries between two
-- sessions of one network, out of the socket that the receiver uses and under the sender's key.
pub handle-IsCarried :
    (s : Server) (via : ℕ) (from : AddrPort) (datagram : List ℕ) (now : ℕ) (out : Out)
    (rest : List Out)
    → IsMap s.by_key
    → (handle s via from datagram now).0 ≡ out ∷ rest
    → out.frame.kind ≡ type_recv
    → IsCarried s from (parse datagram) now out
handle-IsCarried s via from datagram now out rest u e k =
    elim (handle-Permitted s via from datagram now) [
      | inl (why, bad, r) ↦ absurd (cc (r, e))
      | inr (good, p) ↦
          Permitted-IsCarried s via from (parse datagram) now (handle s via from datagram now) out
            rest u p e k
    ]
