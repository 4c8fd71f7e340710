-- ===== src/Relay/Frame/RoundTrip.antt =====
-- Encoding and decoding of relay frames are inverse to one another.
use mathlib.Core.Path.{ap₂}
use mathlib.Core.List.{append-nil, append_assoc}
use meshp.Prelude.{
  ℕ, zero, suc, ◌+◌, ◌≤◌, ◌<◌, ◌≡◌, refl, ap, ◌∙◌, sym, List, [], ◌∷◌, ◌++◌, arith, ltb, ◌↔◌,
  if◌then◌else◌, length, take, drop, length-append, take-append_length, drop-append_length,
  take-append-drop, length-take, length-drop, drop-drop,
}
use meshp.Prelude.Result.{Result, ok, err, ◌>>◌}
use meshp.Relay.Frame.{
  Frame, key_len, header_len, validate, copy, write, encode, decode, parse, first, max_payload,
  relayed_tunnel_mtu, small_buffer, type_send, FrameError,
}

-- A whole source that fits replaces the front of the destination.
copy-eq : (dst src : List ℕ) → length src ≤ length dst → copy dst src ≡ src ++ drop (length src) dst
unfolding copy
copy-eq [] [] h = refl
copy-eq [] (s ∷ src) h = absurd (omega arith)
copy-eq (d ∷ dst) [] h = refl
copy-eq (d ∷ dst) (s ∷ src) h = ap (λ r. s ∷ r) (copy-eq dst src (omega arith))

drop-length : (xs : List ℕ) (n : ℕ) → length xs ≤ n → drop n xs ≡ []
drop-length [] zero h = refl
drop-length [] (suc n) h = refl
drop-length (x ∷ xs) zero h = absurd (omega arith)
drop-length (x ∷ xs) (suc n) h = drop-length xs n (omega arith)

abbrev need : Frame → ℕ
need f = header_len + length f.payload

-- The bytes of a frame.
abbrev image : Frame → List ℕ
image f = f.kind ∷ (f.key ++ f.payload)

module _ (f : Frame) (sized : length f.key ≡ key_len) where
  length-image : length (image f) ≡ need f
  length-image = omega (arith, length-append f.key f.payload)

  key_written :
      (dst : List ℕ) → need f ≤ length dst → copy (take key_len (drop 1 dst)) f.key ≡ f.key
  key_written dst h =
      copy-eq (take key_len (drop 1 dst)) f.key
        (omega (arith, length-take 32 (drop 1 dst), length-drop 1 dst))
      ∙ ap (λ r. f.key ++ r)
          (drop-length (take key_len (drop 1 dst)) (length f.key)
            (omega (arith, length-take 32 (drop 1 dst))))
      ∙ append-nil f.key

  payload_written :
      (dst : List ℕ)
      → need f ≤ length dst
      → copy (drop header_len dst) f.payload ≡ f.payload ++ drop (need f) dst
  payload_written dst h =
      copy-eq (drop header_len dst) f.payload (omega (arith, length-drop 33 dst))
      ∙ ap (λ r. f.payload ++ r) (drop-drop header_len (length f.payload) (need f) dst refl)

  write-eq : (dst : List ℕ) → need f ≤ length dst → write f dst ≡ image f ++ drop (need f) dst
  unfolding write
  write-eq dst h =
      ap₂ (λ k p. f.kind ∷ (k ++ p)) (key_written dst h) (payload_written dst h)
      ∙ ap (λ r. f.kind ∷ r) (sym (append_assoc f.key f.payload (drop (need f) dst)))

parse-image : (f : Frame) → length f.key ≡ key_len → parse (image f) ≡ f
unfolding parse
parse-image f sized = λ i. record {
  kind = f.kind;
  key = take-append_length f.key f.payload 32 sized i;
  payload = drop-append_length f.key f.payload 32 sized i;
}

pub encode-valid :
    (f : Frame) (dst : List ℕ)
    → validate f ≡ ok tt
    → need f ≤ length dst
    → encode f dst ≡ ok (need f, write f dst)
unfolding encode
encode-valid f dst v h = ground arith

decode-valid :
    (buf : List ℕ)
    → header_len ≤ length buf
    → validate (parse buf) ≡ ok tt
    → decode buf ≡ ok (parse buf)
unfolding decode
decode-valid buf h v = ground arith

decode-image : (f : Frame) → length f.key ≡ key_len → validate f ≡ ok tt → decode (image f) ≡ ok f
decode-image f sized v =
    decode-valid (image f) (omega (arith, length-image f sized))
      (ap validate (parse-image f sized) ∙ v)
    ∙ ap ok (parse-image f sized)

-- A valid frame with a 32-byte key, encoded into a buffer with room for it, decodes from the
-- count of bytes that the call returns; the buffer keeps its length and the bytes behind.
pub decode-encode :
    (f : Frame) (dst : List ℕ)
    → length f.key ≡ key_len
    → validate f ≡ ok tt
    → header_len + length f.payload ≤ length dst
    → (n : ℕ) × (buf : List ℕ) × (encode f dst ≡ ok (n, buf))
      × (decode (take n buf) ≡ ok f)
      × (drop n buf ≡ drop n dst)
      × (length buf ≡ length dst)
decode-encode f dst sized v h = (
  need f,
  write f dst,
  encode-valid f dst v h,
  rw
      (
        write-eq f sized dst h,
        take-append_length (image f) (drop (need f) dst) (need f) (length-image f sized),
      )
      (decode-image f sized v),
  rw (write-eq f sized dst h)
      (drop-append_length (image f) (drop (need f) dst) (need f) (length-image f sized)),
  rw (write-eq f sized dst h) (
      omega (
        arith,
        length-append (image f) (drop (need f) dst),
        length-image f sized,
        length-drop (need f) dst,
      )),
)

validated :
    {A : Type 0} (m : Result FrameError (Unit {0})) (k : Result FrameError A) {a : A}
    → (m >> k) ≡ ok a
    → (m ≡ ok tt) × (k ≡ ok a)
validated (ok u) k h = (refl, h)
validated (err e) k h = absurd (cc)

decode-eq-ok :
    (buf : List ℕ) (f : Frame)
    → decode buf ≡ ok f
    → (header_len ≤ length buf) × (parse buf ≡ f) × (validate f ≡ ok tt)
unfolding decode
decode-eq-ok buf f h = ground (arith, validated (validate (parse buf)) (ok (parse buf)))

image-parse : (buf : List ℕ) → header_len ≤ length buf → image (parse buf) ≡ buf
unfolding parse first
image-parse [] h = absurd (omega arith)
image-parse (b ∷ bs) h = ap (λ r. b ∷ r) (take-append-drop 32 bs)

parse_sized : (buf : List ℕ) → header_len ≤ length buf → length (parse buf).key ≡ key_len
unfolding parse
parse_sized buf h = omega (arith, length-take 32 (drop 1 buf), length-drop 1 buf)

-- A datagram that decodes is, byte for byte, what its frame encodes to; the frame has a 32-byte
-- key.
pub encode-decode :
    (buf dst : List ℕ) (f : Frame)
    → decode buf ≡ ok f
    → length dst ≡ length buf
    → (encode f dst ≡ ok (length buf, buf)) × (length f.key ≡ key_len)
encode-decode buf dst f h e =
    let (long, parsed, v) = decode-eq-ok buf f h in
    let imaged : image f ≡ buf = ap image (sym parsed) ∙ image-parse buf long in
    let sized : length f.key ≡ key_len = rw (← parsed) (parse_sized buf long) in
    let count : need f ≡ length buf = sym (length-image f sized) ∙ ap length imaged in
    let rest : drop (need f) dst ≡ [] = drop-length dst (need f) (omega arith) in
    let written : write f dst ≡ buf =
      write-eq f sized dst (omega arith) ∙ ap₂ (λ a b. a ++ b) imaged rest ∙ append-nil buf in
    (encode-valid f dst v (omega arith) ∙ ap₂ (λ n b. ok (n, b)) count written, sized)

valid_fits : (f : Frame) → validate f ≡ ok tt → length f.payload ≤ max_payload
unfolding validate
valid_fits f v = ground arith

send_valid :
    (f : Frame)
    → f.kind ≡ type_send
    → validate f ≡ ok tt
    → (0 < length f.payload) × (length f.payload ≤ relayed_tunnel_mtu + 32)
unfolding validate
send_valid f send v = ground arith

send_accepted :
    (f : Frame)
    → f.kind ≡ type_send
    → 0 < length f.payload
    → length f.payload ≤ relayed_tunnel_mtu + 32
    → validate f ≡ ok tt
unfolding validate
send_accepted f send some_bytes fits = ground arith

encode-eq-ok :
    (f : Frame) (dst : List ℕ) {n : ℕ} {buf : List ℕ}
    → encode f dst ≡ ok (n, buf)
    → (validate f ≡ ok tt) × (n ≡ need f) × (need f ≤ length dst)
unfolding encode
encode-eq-ok f dst h =
    let (v, k) =
      validated (validate f)
        (if ltb (length dst) (need f)
          then err (small_buffer (length dst) (need f))
          else ok (need f, write f dst))
        h in
    (v, ground arith, ground arith)

-- What `encode` writes fits a 1500-byte path behind an IPv6 and a UDP header.
pub encode_fits_path :
    (f : Frame) (dst : List ℕ) {n : ℕ} {buf : List ℕ}
    → encode f dst ≡ ok (n, buf)
    → 40 + 8 + n ≤ 1500
encode_fits_path f dst h = let (v, e, room) = encode-eq-ok f dst h in omega (arith, valid_fits f v)

-- A send frame may be sent exactly when it carries a packet that is no larger than what a tunnel
-- of the relayed MTU makes with WireGuard's own 32 bytes.
pub send_valid_iff :
    (f : Frame)
    → f.kind ≡ type_send
    → (validate f ≡ ok tt) ↔ ((0 < length f.payload) × (length f.payload ≤ relayed_tunnel_mtu + 32))
send_valid_iff f send = (send_valid f send, λ b. send_accepted f send b.0 b.1)
