-- ===== src/Relay/Frame.antt =====
-- internal/relayproto/relayproto.go: one UDP datagram between an agent and a relay is a type
-- byte, a 32-byte key and a payload. Bytes are numbers; a buffer is the list of its bytes, so
-- that the aliasing of a decoded payload with the buffer is not visible here.
pub mod RoundTrip
use meshp.Prelude.{
  ℕ, ◌+◌, ◌-◌, Bool, true, false, ◌&&◌, ◌||◌, List, [], ◌∷◌, ◌++◌, ltb, leb, ◌==◌, if◌then◌else◌,
  length, take, drop,
}
use meshp.Prelude.Result.{Result, ok, err, ◌>>=◌, ◌>>◌}

abbrev pub key_len : ℕ
key_len = 32

abbrev pub header_len : ℕ
header_len = 1 + key_len

abbrev pub max_payload : ℕ
max_payload = 1500 - 40 - 8 - header_len

abbrev pub relayed_tunnel_mtu : ℕ
relayed_tunnel_mtu = max_payload - 32

-- `Type` is a uint8, so a frame can hold a value that is none of these.
abbrev pub type_hello : ℕ
type_hello = 1

abbrev pub type_welcome : ℕ
type_welcome = 2

abbrev pub type_refused : ℕ
type_refused = 3

abbrev pub type_send : ℕ
type_send = 4

abbrev pub type_recv : ℕ
type_recv = 5

abbrev pub type_ping : ℕ
type_ping = 6

abbrev pub type_pong : ℕ
type_pong = 7

unfoldable pub valid : ℕ → Bool
valid t = leb type_hello t && leb t type_pong

pub data FrameError : Type 0 where
  short : ℕ → FrameError
  unknown_type : ℕ → FrameError
  too_large : ℕ → FrameError
  empty_payload : ℕ → FrameError
  small_buffer : ℕ → ℕ → FrameError

pub record Frame : Type 0 where
  pub kind : ℕ
  pub key : List ℕ  -- the array [32]byte
  pub payload : List ℕ

-- The types of the `switch` in `Validate`.
unfoldable pub needs_payload : ℕ → Bool
needs_payload t = t == type_hello || (t == type_send || t == type_recv)

unfoldable pub validate : Frame → Result FrameError (Unit {0})
unfolding valid needs_payload
validate f =
    if valid f.kind
    then if ltb max_payload (length f.payload)
      then err (too_large (length f.payload))
      else if needs_payload f.kind && length f.payload == 0
      then err (empty_payload f.kind)
      else ok tt
    else err (unknown_type f.kind)

-- Go's `copy`: as many bytes as both hold.
unfoldable pub copy : List ℕ → List ℕ → List ℕ
copy [] src = []
copy (d ∷ dst) [] = d ∷ dst
copy (d ∷ dst) (s ∷ src) = s ∷ copy dst src

-- What the three writes leave in `dst`, which is not shorter than a header there.
unfoldable pub write : Frame → List ℕ → List ℕ
unfolding copy
write f dst =
    f.kind ∷ (copy (take key_len (drop 1 dst)) f.key ++ copy (drop header_len dst) f.payload)

-- The count of bytes written, and `dst` after the call.
unfoldable pub encode : Frame → List ℕ → Result FrameError (ℕ × List ℕ)
encode f dst = do
  validate f
  let need = header_len + length f.payload
  if ltb (length dst) need then err (small_buffer (length dst) need) else ok (need, write f dst)

-- `buf[0]`, read only behind the length test.
unfoldable pub first : List ℕ → ℕ
first [] = 0
first (b ∷ bs) = b

unfoldable pub parse : List ℕ → Frame
unfolding first
parse buf = record {
  kind = first buf;
  key = take key_len (drop 1 buf);
  payload = drop header_len buf;
}

unfoldable pub decode : List ℕ → Result FrameError Frame
decode buf =
    if ltb (length buf) header_len
    then err (short (length buf))
    else do validate (parse buf); ok (parse buf)
