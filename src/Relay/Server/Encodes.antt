-- ===== src/Relay/Server/Encodes.antt =====
-- That what a relay sends can be encoded: cmd/meshp-relay/main.go drops an answer that cannot.
use meshp.Prelude.{ℕ, ◌+◌, ◌≤◌, ◌≡◌, refl, arith, ◌⊎◌, List, [], ◌∷◌, All, length, inl, inr}
use meshp.Prelude.Result.{ok, Result-cases}
use meshp.Relay.Frame.{
  Frame, decode, parse, encode, write, validate, header_len, max_payload, type_send, type_recv,
  type_pong, type_welcome, type_refused,
}
use meshp.Relay.Frame.RoundTrip.{encode-valid}
use meshp.Relay.State.{Key, AddrPort, Out, Server}
use meshp.Relay.Server.{handle, dispatch}
use meshp.Relay.Server.Bounds.{decode-length}
use meshp.Relay.Server.Outcome.{
  Permitted, ignores, strays, snubs, refuses, admits, misses, drops, delivers, answers,
  dispatch-Permitted,
}

-- A frame of a type that a relay sends, whose payload is no longer than allowed.
sized_valid :
    (kind : ℕ) (key payload : List ℕ)
    → (kind ≡ type_welcome) ⊎ ((kind ≡ type_refused) ⊎ (kind ≡ type_pong))
    → length payload ≤ max_payload
    → validate (record { kind = kind; key = key; payload = payload }) ≡ ok tt
unfolding validate
sized_valid kind key payload k h = ground (arith, k, h)

valid_size : (f : Frame) → validate f ≡ ok tt → length f.payload ≤ max_payload
unfolding validate
valid_size f h = ground arith

passed_valid :
    (f : Frame) (key : Key)
    → f.kind ≡ type_send
    → validate f ≡ ok tt
    → validate (record { kind = type_recv; key = key; payload = f.payload }) ≡ ok tt
unfolding validate
passed_valid f key k v = ground arith

Permitted-valid :
    (s : Server) (via : ℕ) (from : AddrPort) (frame : Frame) (now : ℕ) (r : List Out × Server)
    → ((a : AddrPort) → length (s.print a) ≤ max_payload)
    → validate frame ≡ ok tt
    → Permitted s via from frame now r
    → All (λ out. validate out.frame ≡ ok tt) r.0
Permitted-valid s via from frame now _ short v (ignores h t p) = tt
Permitted-valid s via from frame now _ short v (strays k h) = tt
Permitted-valid s via from frame now _ short v (snubs k d l) = tt
Permitted-valid s via from frame now _ short v (misses k h g) = tt
Permitted-valid s via from frame now _ short v (refuses k d h) =
    (sized_valid type_refused s.self_key _ (inr (inl refl)) (omega arith), tt)
Permitted-valid s via from frame now _ short v (admits k h) =
    (sized_valid type_welcome s.self_key _ (inl refl) (short _), tt)
Permitted-valid s via from frame now _ short v (drops k h g e) = tt
Permitted-valid s via from frame now _ short v (delivers {sender = x} kind h g n) =
    (passed_valid frame x.1.key kind v, tt)
Permitted-valid s via from frame now _ short v (answers k h) =
    (sized_valid type_pong s.self_key frame.payload (inr (inr refl)) (valid_size frame v), tt)

decode-valid_frame :
    (datagram : List ℕ) (frame : Frame)
    → decode datagram ≡ ok frame
    → validate (parse datagram) ≡ ok tt
unfolding decode
decode-valid_frame datagram frame h = elim (Result-cases (validate (parse datagram))) [
  | inl (why, e) ↦ absurd (ground (arith, h, e))
  | inr (u, e) ↦ e
]

encode-All :
    (buf : List ℕ) (outs : List Out)
    → header_len + max_payload ≤ length buf
    → All (λ out. validate out.frame ≡ ok tt) outs
    → All
        (λ out.
          encode out.frame buf ≡ ok (header_len + length out.frame.payload, write out.frame buf))
        outs
encode-All buf [] h v = tt
encode-All buf (out ∷ outs) h v = (
  encode-valid out.frame buf v.0 (omega (arith, h, valid_size out.frame v.0)),
  encode-All buf outs h v.1,
)

-- Into a buffer as large as the relay's, whatever the relay sends for a datagram can be encoded,
-- provided that the text of an address with its port fits in a payload.
pub handle-encodes :
    (s : Server) (via : ℕ) (from : AddrPort) (datagram : List ℕ) (now : ℕ) (buf : List ℕ)
    → ((a : AddrPort) → length (s.print a) ≤ max_payload)
    → header_len + max_payload ≤ length buf
    → All
        (λ out.
          encode out.frame buf ≡ ok (header_len + length out.frame.payload, write out.frame buf))
        (handle s via from datagram now).0
unfolding handle
handle-encodes s via from datagram now buf short room = elim (Result-cases (decode datagram)) [
  | inl (why, e) ↦ rw (handle, e) tt
  | inr (frame, e) ↦
      rw (handle, e, (decode-length datagram frame e).0)
        (encode-All buf _ room (
          Permitted-valid s via from (parse datagram) now (dispatch s via from (parse datagram) now)
            short (decode-valid_frame datagram frame e)
            (dispatch-Permitted s via from (parse datagram) now)))
]
