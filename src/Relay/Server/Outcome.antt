-- ===== src/Relay/Server/Outcome.antt =====
-- What a relay does with a datagram, as a relation, and that `Handle` does it.
use meshp.Prelude.{
  ℕ, ◌+◌, ◌<◌, ◌≤◌, ◌≡◌, ◌≢◌, ◌⊎◌, refl, arith, List, [], ◌∷◌, length, none, some, ◌==◌, ltb, ap,
  ◌∙◌, inl, inr, Option-cases, Bool-cases,
}
use meshp.Prelude.Result.{ok, err, Result-cases}
use meshp.Prelude.Equality.{equal, equal_iff, bytes_eq, string_eq}
use meshp.Prelude.Assoc.{lookup, insert}
use meshp.Netip.{unmap}
use meshp.Relay.Frame.{
  Frame, FrameError, decode, parse, header_len, type_hello, type_send, type_ping, type_refused,
  type_welcome, type_recv, type_pong,
}
use meshp.Relay.State.{
  Server, AddrPort, Text, Out, Session, Key, add_count, count_hello_refused, count_no_session,
  count_no_peer, count_other_net, count_forwarded,
}
use meshp.Relay.Server.{
  handle, dispatch, hello, forward, deliver, ping, refuse, sender_at, touch, refused_text,
}

-- A datagram, from its parts.
abbrev message : ℕ → AddrPort → ℕ → Key → List ℕ → Out
message via to kind key payload = record {
  via = via;
  to = to;
  frame = record { kind = kind; key = key; payload = payload };
}

-- The server with a session in its table.
abbrev stored : Server → Key → Session → Server
stored s k v = record s { by_key = insert k v s.by_key }

-- The server that has heard from a session.
abbrev heard : Server → Key × Session → ℕ → Server
heard s sender now = stored s sender.0 (record (sender.1) { last_seen = now })

-- The authenticator does not give the payload of a hello the key that the hello names.
abbrev pub IsRefused : Server → Frame → ℕ → Type 0
IsRefused s frame now =
    (network : Text) → s.auth.authenticate now frame.payload ≢ some (frame.key, network)

-- The nine outcomes for a frame that arrives through the socket `via`, with the counter that each
-- moves. A frame has the first where its kind is none that a device may send.
pub data Permitted (s : Server) (via : ℕ) (from : AddrPort) (frame : Frame) (now : ℕ)
    : List Out × Server → Type 0 where
  ignores :
      frame.kind ≢ type_hello
      → frame.kind ≢ type_send
      → frame.kind ≢ type_ping
      → Permitted s via from frame now ([], s)
  strays :
      (frame.kind ≡ type_send) ⊎ (frame.kind ≡ type_ping)
      → sender_at s.idle from now s.by_key ≡ none
      → Permitted s via from frame now ([], count_no_session s)
  snubs :
      frame.kind ≡ type_hello
      → IsRefused s frame now
      → length frame.payload < 7
      → Permitted s via from frame now ([], count_hello_refused s)
  refuses :
      frame.kind ≡ type_hello
      → IsRefused s frame now
      → 7 ≤ length frame.payload
      → Permitted s via from frame now
          (message via from type_refused s.self_key refused_text ∷ [], count_hello_refused s)
  admits :
      {network : Text}
      → frame.kind ≡ type_hello
      → s.auth.authenticate now frame.payload ≡ some (frame.key, network)
      → Permitted s via from frame now (
        message via from type_welcome s.self_key
              (s.print (record { ip = unmap from.ip; port = from.port }))
            ∷ [],
        stored
            (record s {
              stats = record (s.stats) { hello_accepted = add_count s.stats.hello_accepted 1 };
            })
            frame.key
            (record {
              key = frame.key;
              network = network;
              addr = from;
              via = via;
              last_seen = now;
            }),
      )
  misses :
      {sender : Key × Session}
      → frame.kind ≡ type_send
      → sender_at s.idle from now s.by_key ≡ some sender
      → lookup frame.key (heard s sender now).by_key ≡ none
      → Permitted s via from frame now ([], count_no_peer (heard s sender now))
  drops :
      {sender : Key × Session} {dest : Session}
      → frame.kind ≡ type_send
      → sender_at s.idle from now s.by_key ≡ some sender
      → lookup frame.key (heard s sender now).by_key ≡ some dest
      → dest.network ≢ sender.1.network
      → Permitted s via from frame now ([], count_other_net (heard s sender now))
  delivers :
      {sender : Key × Session} {dest : Session}
      → frame.kind ≡ type_send
      → sender_at s.idle from now s.by_key ≡ some sender
      → lookup frame.key (heard s sender now).by_key ≡ some dest
      → dest.network ≡ sender.1.network
      → Permitted s via from frame now (
        message dest.via dest.addr type_recv sender.1.key frame.payload ∷ [],
        count_forwarded (heard s sender now),
      )
  answers :
      {sender : Key × Session}
      → frame.kind ≡ type_ping
      → sender_at s.idle from now s.by_key ≡ some sender
      → Permitted s via from frame now
          (message via from type_pong s.self_key frame.payload ∷ [], heard s sender now)

refuse-Permitted :
    (s : Server) (via : ℕ) (from : AddrPort) (frame : Frame) (now : ℕ)
    → frame.kind ≡ type_hello
    → IsRefused s frame now
    → Permitted s via from frame now
        (refuse s via from (header_len + length frame.payload), count_hello_refused s)
unfolding refuse
refuse-Permitted s via from frame now k denied =
    elim (Bool-cases (ltb (header_len + length frame.payload) (header_len + length refused_text))) [
      | inl e ↦ rw e (snubs k denied (ground arith))
      | inr e ↦ rw e (refuses k denied (ground arith))
    ]

decode-parse :
    (datagram : List ℕ) (frame : Frame) → decode datagram ≡ ok frame → frame ≡ parse datagram
unfolding decode
decode-parse datagram frame h = ground arith

hello-Permitted :
    (s : Server) (via : ℕ) (from : AddrPort) (frame : Frame) (now : ℕ)
    → frame.kind ≡ type_hello
    → Permitted s via from frame now (hello s via from frame now)
unfolding hello
hello-Permitted s via from frame now k =
    elim (Option-cases (s.auth.authenticate now frame.payload)) [
      | inl e ↦
          rw (hello, e)
            (refuse-Permitted s via from frame now k (λ network h. ground (arith, e, h)))
      | inr ((key, network), e) ↦ elim (Bool-cases (equal key frame.key)) [
        | inl same ↦
            rw (hello, e, same, (equal_iff key frame.key).0 same)
              (admits k (e ∙ ap (λ k. some (k, network)) ((equal_iff key frame.key).0 same)))
        | inr other ↦
            rw (hello, e, other)
              (refuse-Permitted s via from frame now k
                (λ network h. ground (arith, e, h, other, equal_iff key frame.key)))
      ]
    ]

deliver-Permitted :
    (s : Server) (via : ℕ) (from : AddrPort) (frame : Frame) (now : ℕ) (sender : Key × Session)
    → frame.kind ≡ type_send
    → sender_at s.idle from now s.by_key ≡ some sender
    → Permitted s via from frame now (deliver (touch s sender now) sender.1 frame)
unfolding deliver
deliver-Permitted s via from frame now sender k found =
    elim (Option-cases (lookup frame.key (touch s sender now).by_key)) [
      | inl e ↦ rw (deliver, e) (misses k found e)
      | inr (dest, e) ↦ elim (Bool-cases (equal dest.network sender.1.network)) [
        | inl same ↦
            rw (deliver, e, same)
              (delivers k found e ((equal_iff dest.network sender.1.network).0 same))
        | inr other ↦
            rw (deliver, e, other)
              (drops k found e
                (λ same. ground (arith, other, (equal_iff dest.network sender.1.network).1 same)))
      ]
    ]

forward-Permitted :
    (s : Server) (via : ℕ) (from : AddrPort) (frame : Frame) (now : ℕ)
    → frame.kind ≡ type_send
    → Permitted s via from frame now (forward s from frame now)
unfolding forward
forward-Permitted s via from frame now k =
    elim (Option-cases (sender_at s.idle from now s.by_key)) [
      | inl e ↦ rw (forward, e) (strays (inl k) e)
      | inr (sender, e) ↦ rw (forward, e) (deliver-Permitted s via from frame now sender k e)
    ]

ping-Permitted :
    (s : Server) (via : ℕ) (from : AddrPort) (frame : Frame) (now : ℕ)
    → frame.kind ≡ type_ping
    → Permitted s via from frame now (ping s via from frame now)
unfolding ping
ping-Permitted s via from frame now k = elim (Option-cases (sender_at s.idle from now s.by_key)) [
  | inl e ↦ rw (ping, e) (strays (inr k) e)
  | inr (sender, e) ↦ rw (ping, e) (answers k e)
]

pub dispatch-Permitted :
    (s : Server) (via : ℕ) (from : AddrPort) (frame : Frame) (now : ℕ)
    → Permitted s via from frame now (dispatch s via from frame now)
unfolding dispatch
dispatch-Permitted s via from frame now = elim (Bool-cases (frame.kind == type_hello)) [
  | inl e ↦ rw (dispatch, e) (hello-Permitted s via from frame now (ground arith))
  | inr a ↦ elim (Bool-cases (frame.kind == type_send)) [
    | inl e ↦ rw (dispatch, a, e) (forward-Permitted s via from frame now (ground arith))
    | inr b ↦ elim (Bool-cases (frame.kind == type_ping)) [
      | inl e ↦ rw (dispatch, a, b, e) (ping-Permitted s via from frame now (ground arith))
      | inr c ↦
          rw (dispatch, a, b, c)
            (ignores (λ k. ground arith) (λ k. ground arith) (λ k. ground arith))
    ]
  ]
]

-- A datagram that does not decode is counted and nothing else happens.
abbrev pub IsUndecoded : Server → List ℕ → List Out × Server → Type 0
IsUndecoded s datagram r =
    (why : FrameError) × (decode datagram ≡ err why)
    × (r ≡ (
      [],
      record s {
        stats = record (s.stats) { dropped_undecodable = add_count s.stats.dropped_undecodable 1 };
      },
    ))

pub handle-Permitted :
    (s : Server) (via : ℕ) (from : AddrPort) (datagram : List ℕ) (now : ℕ)
    → IsUndecoded s datagram (handle s via from datagram now)
      ⊎ ((decode datagram ≡ ok (parse datagram))
          × Permitted s via from (parse datagram) now (handle s via from datagram now))
unfolding handle
handle-Permitted s via from datagram now = elim (Result-cases (decode datagram)) [
  | inl (why, e) ↦ inl (why, e, rw (handle, e) refl)
  | inr (frame, e) ↦
      let same = decode-parse datagram frame e in
      inr
        (e ∙ ap ok same, rw (handle, e, same) (dispatch-Permitted s via from (parse datagram) now))
]
