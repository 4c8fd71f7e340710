-- ===== src/Tests/Relay.antt =====
-- Relay frames at concrete bytes.
use meshp.Prelude.{ℕ, ◌≡◌, refl, List, [], ◌∷◌, arith, length, take, drop, replicate}
use meshp.Prelude.Result.{ok}
use meshp.Relay.Frame.{Frame, validate, encode, decode, type_send, key_len, parse}
use meshp.Relay.Frame.RoundTrip.{decode-encode, encode-decode}

abbrev packet : Frame
packet = record { kind = type_send; key = replicate 32 7; payload = 1 ∷ 2 ∷ 3 ∷ [] }

abbrev buffer : List ℕ
buffer = replicate 40 0

packet_valid : validate packet ≡ ok tt
unfolding validate
packet_valid = refl

decode-encode_example :
    (n : ℕ) × (buf : List ℕ) × (encode packet buffer ≡ ok (n, buf))
    × (decode (take n buf) ≡ ok packet)
    × (drop n buf ≡ drop n buffer)
    × (length buf ≡ length buffer)
decode-encode_example = decode-encode packet buffer refl packet_valid (omega arith)

abbrev datagram : List ℕ
datagram = type_send ∷ replicate 34 7

abbrev received : Frame
received = record { kind = type_send; key = replicate 32 7; payload = 7 ∷ 7 ∷ [] }

datagram_decodes : decode datagram ≡ ok received
unfolding decode validate parse
datagram_decodes = refl

encode-decode_example :
    (encode received (replicate 35 0) ≡ ok (length datagram, datagram))
    × (length received.key ≡ key_len)
encode-decode_example = encode-decode datagram (replicate 35 0) received datagram_decodes refl
