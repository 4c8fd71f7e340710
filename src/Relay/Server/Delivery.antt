-- ===== src/Relay/Server/Delivery.antt =====
-- A packet from one agent to another, over the wire on both sides.
use meshp.Prelude.{
  ℕ, ◌+◌, ◌-◌, ◌≤◌, ◌≡◌, refl, ap, ◌∙◌, arith, List, [], ◌∷◌, none, some, length, take, inl, inr,
  Bool-cases,
}
use meshp.Prelude.Result.{ok}
use meshp.Prelude.Equality.{equal, equal_iff, bytes_eq, string_eq, equal_refl, ne_of_equal}
use meshp.Prelude.Assoc.{Assoc, lookup, IsMap, lookup-insert}
use meshp.Relay.Frame.{Frame, decode, encode, validate, header_len, key_len, type_send, type_recv}
use meshp.Relay.Frame.RoundTrip.{decode-encode}
use meshp.Relay.State.{Server, AddrPort, Out, Session, Key, addr_port_eq}
use meshp.Relay.Server.{handle, dispatch, forward, deliver, sender_at, touch, delivery}

-- The session of a key is the only one at its address.
abbrev pub IsAlone : Assoc Key Session → Key → AddrPort → Type 0
IsAlone m k from = (j : Key) (v : Session) → lookup j m ≡ some v → v.addr ≡ from → j ≡ k

behind :
    (j : Key) (w : Session) (m : Assoc Key Session) (i : Key) (z : Session)
    → lookup j m ≡ none
    → lookup i m ≡ some z
    → lookup i ((j, w) ∷ m) ≡ some z
unfolding lookup
behind j w m i z n h = ground (arith, equal_iff j i)

front : (j : Key) (w : Session) (m : Assoc Key Session) → lookup j ((j, w) ∷ m) ≡ some w
unfolding lookup
front j w m = ground (arith, equal_refl j)

later :
    (j : Key) (w : Session) (m : Assoc Key Session) (i : Key) (z : Session)
    → lookup i ((j, w) ∷ m) ≡ some z
    → ¬ (w ≡ z)
    → lookup i m ≡ some z
unfolding lookup
later j w m i z h n = ground (arith, equal_iff j i)

sender_at-alone :
    (idle : ℕ) (from : AddrPort) (now : ℕ) (m : Assoc Key Session) (k : Key) (v : Session)
    → IsMap m
    → lookup k m ≡ some v
    → v.addr ≡ from
    → now - v.last_seen ≤ idle
    → IsAlone m k from
    → sender_at idle from now m ≡ some (k, v)
unfolding sender_at lookup
sender_at-alone idle from now [] k v u h a l alone = absurd (cc h)
sender_at-alone idle from now ((j, w) ∷ m) k v u h a l alone =
    elim (Bool-cases (equal w.addr from)) [
      | inl e ↦
          let same = alone j w (front j w m) ((equal_iff w.addr from).0 e) in
          ground (arith, equal_iff j k, same)
      | inr e ↦
          let other = ne_of_equal w.addr from e in
          let tail : lookup k m ≡ some v =
            later j w m k v h (λ q. other (ap (λ o. o.addr) q ∙ a)) in
          let rest =
            sender_at-alone idle from now m k v u.1 tail a l
              (λ i z hz az. alone i z (behind j w m i z u.0 hz) az) in
          rw e rest
    ]

-- The session that a search in the touched table gives has the same address, socket and network.
touched :
    (s : Server) (k : Key) (a : Session) (now : ℕ) (j : Key) (b : Session)
    → lookup k s.by_key ≡ some a
    → lookup j s.by_key ≡ some b
    → (c : Session) × (lookup j (touch s (k, a) now).by_key ≡ some c)
      × (c.network ≡ b.network)
      × (c.addr ≡ b.addr)
      × (c.via ≡ b.via)
touched s k a now j b h g = elim (Bool-cases (equal k j)) [
  | inl e ↦
      let same : a ≡ b = ground (arith, equal_iff k j, h, g) in
      (
        record a { last_seen = now },
        lookup-insert k j (record a { last_seen = now }) s.by_key ∙ rw e refl,
        ap (λ q. q.network) same,
        ap (λ q. q.addr) same,
        ap (λ q. q.via) same,
      )
  | inr e ↦
      (b, lookup-insert k j (record a { last_seen = now }) s.by_key ∙ rw e g, refl, refl, refl)
]

forward_sends :
    (s : Server) (from : AddrPort) (f : Frame) (now : ℕ) (k : Key) (a b : Session)
    → sender_at s.idle from now s.by_key ≡ some (k, a)
    → lookup k s.by_key ≡ some a
    → lookup f.key s.by_key ≡ some b
    → b.network ≡ a.network
    → (forward s from f now).0 ≡ delivery a b f.payload ∷ []
unfolding forward deliver
forward_sends s from f now k a b found h g n =
    let to = touched s k a now f.key b h g in
    rw (forward, found, deliver, to.1, (equal_iff to.0.network a.network).1 (to.2 ∙ n))
      (λ i.
        record {
          via = to.4 i;
          to = to.3 i;
          frame = record { kind = type_recv; key = a.key; payload = f.payload };
        }
        ∷ [])

handle_sends :
    (s : Server) (via : ℕ) (from : AddrPort) (datagram : List ℕ) (f : Frame) (now : ℕ)
    → decode datagram ≡ ok f
    → f.kind ≡ type_send
    → handle s via from datagram now ≡ forward s from f now
unfolding handle dispatch
handle_sends s via from datagram f now d k = rw (handle, d, dispatch, k) refl

recv_valid :
    (f : Frame)
    → validate f ≡ ok tt
    → f.kind ≡ type_send
    → (k : Key) → validate (record { kind = type_recv; key = k; payload = f.payload }) ≡ ok tt
unfolding validate
recv_valid f v e k = ground arith

-- Two agents have sessions on one network, the sender's is alive and the only one at its address.
-- Then a valid send frame, encoded by the sender, makes the relay send one datagram, to the
-- address of the receiver and out of the receiver's socket; encoded and decoded again, it is the
-- same packet under the key of the sender.
pub handle-delivers :
    (s : Server) (via : ℕ) (now : ℕ) (k : Key) (a b : Session) (f : Frame) (here there : List ℕ)
    → IsMap s.by_key
    → lookup k s.by_key ≡ some a
    → now - a.last_seen ≤ s.idle
    → IsAlone s.by_key k a.addr
    → length a.key ≡ key_len
    → lookup f.key s.by_key ≡ some b
    → b.network ≡ a.network
    → f.kind ≡ type_send
    → length f.key ≡ key_len
    → validate f ≡ ok tt
    → header_len + length f.payload ≤ length here
    → header_len + length f.payload ≤ length there
    → (n : ℕ) × (sent : List ℕ) × (m : ℕ) × (passed : List ℕ) × (out : Out) × (encode f here
        ≡ ok (n, sent))
      × ((handle s via a.addr (take n sent) now).0 ≡ out ∷ [])
      × (out.to ≡ b.addr)
      × (out.via ≡ b.via)
      × (encode out.frame there ≡ ok (m, passed))
      × (decode (take m passed)
          ≡ ok (record { kind = type_recv; key = a.key; payload = f.payload }))
handle-delivers s via now k a b f here there u h live alone ak g net kind fk v room1 room2 =
    let sent = decode-encode f here fk v room1 in
    let out = delivery a b f.payload in
    let passed = decode-encode out.frame there ak (recv_valid f v kind a.key) room2 in
    (
      sent.0,
      sent.1,
      passed.0,
      passed.1,
      out,
      sent.2,
      ap (λ r. r.0) (handle_sends s via a.addr (take sent.0 sent.1) f now sent.3 kind)
          ∙ forward_sends s a.addr f now k a b
              (sender_at-alone s.idle a.addr now s.by_key k a u h refl live alone) h g net,
      refl,
      refl,
      passed.2,
      passed.3,
    )
