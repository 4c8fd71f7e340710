-- ===== src/Relay/Server/Bounds.antt =====
-- The sizes of what a relay sends.
use meshp.Prelude.{
  ℕ, ◌+◌, ◌≤◌, ◌≡◌, ◌⊎◌, inl, inr, some, arith, List, All, length, length-drop, sym,
}
use meshp.Prelude.Result.{ok, Result-cases}
use meshp.Relay.Frame.{Frame, decode, parse, header_len}
use meshp.Relay.State.{Server, AddrPort, Text, Out}
use meshp.Relay.Server.{handle, dispatch}
use meshp.Relay.Server.Outcome.{
  Permitted, ignores, strays, snubs, refuses, admits, misses, drops, delivers, answers,
  dispatch-Permitted,
}

pub decode-length :
    (datagram : List ℕ) (frame : Frame)
    → decode datagram ≡ ok frame
    → (frame ≡ parse datagram) × (header_len + length (parse datagram).payload ≡ length datagram)
unfolding decode parse
decode-length datagram frame h = ground (arith, length-drop 33 datagram)

abbrev pub Fits : ℕ → Out → Type 0
Fits n out = header_len + length out.frame.payload ≤ n

-- The authenticator accepts a hello's token for the key that the hello names.
abbrev pub IsGranted : Server → Frame → ℕ → Type 0
IsGranted s frame now =
    (network : Text) × (s.auth.authenticate now frame.payload ≡ some (frame.key, network))

-- At most one datagram, no larger than what came, or the welcome to a granted hello.
abbrev pub IsMeasured : Server → Frame → ℕ → ℕ → List Out → Type 0
IsMeasured s frame now arrived outs =
    (length outs ≤ 1) × All (λ out. Fits arrived out ⊎ IsGranted s frame now) outs

Permitted-IsMeasured :
    (s : Server) (via : ℕ) (from : AddrPort) (frame : Frame) (now : ℕ) (r : List Out × Server)
    → Permitted s via from frame now r
    → IsMeasured s frame now (header_len + length frame.payload) r.0
Permitted-IsMeasured s via from frame now _ (ignores h t p) = (omega arith, tt)
Permitted-IsMeasured s via from frame now _ (strays k h) = (omega arith, tt)
Permitted-IsMeasured s via from frame now _ (snubs k d l) = (omega arith, tt)
Permitted-IsMeasured s via from frame now _ (misses k h g) = (omega arith, tt)
Permitted-IsMeasured s via from frame now _ (refuses k d h) =
    (omega arith, (inl (omega (arith, h)), tt))
Permitted-IsMeasured s via from frame now _ (admits {network = n} k h) =
    (omega arith, (inr (n, h), tt))
Permitted-IsMeasured s via from frame now _ (drops k h g e) = (omega arith, tt)
Permitted-IsMeasured s via from frame now _ (delivers k h g e) =
    (omega arith, (inl (omega arith), tt))
Permitted-IsMeasured s via from frame now _ (answers k h) = (omega arith, (inl (omega arith), tt))

-- A datagram makes the relay send one datagram at most. It is not larger than what came, unless
-- the authenticator accepts what came as a token for the key in its header.
pub handle-IsMeasured :
    (s : Server) (via : ℕ) (from : AddrPort) (datagram : List ℕ) (now : ℕ)
    → IsMeasured s (parse datagram) now (length datagram) (handle s via from datagram now).0
unfolding handle
handle-IsMeasured s via from datagram now = elim (Result-cases (decode datagram)) [
  | inl (why, e) ↦ rw (handle, e) (omega arith, tt)
  | inr (frame, e) ↦
      let sized = decode-length datagram frame e in
      rw (handle, e, sized.0, sym sized.1)
        (Permitted-IsMeasured s via from (parse datagram) now
          (dispatch s via from (parse datagram) now)
          (dispatch-Permitted s via from (parse datagram) now))
]
