-- ===== src/Challenge/Issued.antt =====
-- Which challenges verify, and for which bindings.
use mathlib.Core.Path.{ap₂}
use mathlib.Core.List.{append_assoc}
use meshp.Prelude.{
  ℕ, ◌+◌, ◌*◌, ◌/◌, ◌^◌, ◌<◌, ◌≡◌, refl, ap, sym, ◌∙◌, arith, true, List, [], ◌∷◌, ◌++◌, All,
  length, ltb, if◌then◌else◌, none, some, take, drop, length-append, take-append_length,
  drop-append_length, take-append-drop, length-take,
}
use meshp.Prelude.Int.{pos}
use meshp.Prelude.Result.{ok, err}
use meshp.Prelude.Equality.{equal_iff, bytes_eq}
use meshp.Prelude.BigEndian.{put, get, length-put, get-put}
use meshp.Prelude.Instants.{second, to_unix, to_int64, before, to_int64-to_unix}
use meshp.Challenge.{
  Hmac, Challenger, Challenge, nonce_len, expiry_len, mac_len, len, mac, stream, issue, verify,
  empty_from, header_of, tag_of, expiry_of, expired,
}
use meshp.Challenge.Stream.{IsShort, stream_injective}

-- What a challenge that verifies has passed.
verify_ok :
    (hmac : Hmac) (c : Challenger) (ch : List ℕ) (bindings : List (List ℕ)) (now : ℕ)
    → verify hmac c ch bindings now ≡ ok tt
    → (length ch ≡ len)
      × (tag_of ch ≡ mac hmac c (header_of ch) bindings)
      × (before now (expiry_of ch) ≡ true)
unfolding verify
verify_ok hmac c ch bindings now h =
    ground (arith, equal_iff (tag_of ch) (mac hmac c (header_of ch) bindings))

-- Whoever presents the same tag twice, for bindings whose lengths fit in a uint32 and where the
-- MAC of the two streams does not collide, presents the same challenge for the same bindings.
pub verify-tag :
    (hmac : Hmac) (c : Challenger) (a b : List ℕ) (xs ys : List (List ℕ)) (now later : ℕ)
    → (mac hmac c (header_of a) xs ≡ mac hmac c (header_of b) ys
        → stream (header_of a) xs ≡ stream (header_of b) ys)
    → length xs < 2 ^ 32
    → length ys < 2 ^ 32
    → All IsShort xs
    → All IsShort ys
    → verify hmac c a xs now ≡ ok tt
    → verify hmac c b ys later ≡ ok tt
    → tag_of a ≡ tag_of b
    → (a ≡ b) × (xs ≡ ys)
verify-tag hmac c a b xs ys now later collides m n sx sy h g e =
    let one = verify_ok hmac c a xs now h in
    let two = verify_ok hmac c b ys later g in
    let same =
      stream_injective (header_of a) (header_of b) xs ys (omega (arith, length-take 24 a))
        (omega (arith, length-take 24 b)) m n sx sy (collides (sym one.1 ∙ e ∙ two.1)) in
    (sym (take-append-drop 24 a) ∙ ap₂ (λ p q. p ++ q) same.0 e ∙ take-append-drop 24 b, same.1)

abbrev pub NonEmpty : List ℕ → Type 0
NonEmpty b = 0 < length b

empty_from-none : (i : ℕ) (bs : List (List ℕ)) → All NonEmpty bs → empty_from i bs ≡ none
unfolding empty_from
empty_from-none i [] h = refl
empty_from-none i (b ∷ bs) h = ground (arith, empty_from-none (i + 1) bs h.1)

verify_timed :
    (hmac : Hmac) (c : Challenger) (ch : List ℕ) (bindings : List (List ℕ)) (now : ℕ)
    → length ch ≡ len
    → tag_of ch ≡ mac hmac c (header_of ch) bindings
    → verify hmac c ch bindings now
      ≡ (if before now (expiry_of ch) then ok tt else err (expired (expiry_of ch)))
unfolding verify
verify_timed hmac c ch bindings now l t =
    ground (arith, l, equal_iff (tag_of ch) (mac hmac c (header_of ch) bindings), t)

issue-some :
    (hmac : Hmac) (c : Challenger) (nonce : List ℕ) (now : ℕ) (bindings : List (List ℕ))
    → 0 < length bindings
    → All NonEmpty bindings
    → issue hmac c (some nonce) now bindings ≡ (
        let header = nonce ++ put expiry_len (to_unix (now + c.ttl)) in
        ok (record { bytes = header ++ mac hmac c header bindings; expires_at = now + c.ttl }))
unfolding issue
issue-some hmac c nonce now bindings p q = ground (arith, p, empty_from-none 0 bindings q)

-- A challenge that is issued for bindings, at least one and none of them empty, with a nonce of 16
-- bytes and a MAC of 32, verifies for them before the whole second in which it expires, and is
-- refused as expired from then on.
pub verify-issue_timed :
    (hmac : Hmac) (c : Challenger) (nonce : List ℕ) (now later : ℕ) (bindings : List (List ℕ))
    → ((k m : List ℕ) → length (hmac k m) ≡ mac_len)
    → length nonce ≡ nonce_len
    → 0 < length bindings
    → All NonEmpty bindings
    → (now + c.ttl) / second < 2 ^ 63
    → (ch : Challenge) × (issue hmac c (some nonce) now bindings ≡ ok ch)
      × (length ch.bytes ≡ len)
      × (verify hmac c ch.bytes bindings later ≡ (
          if ltb later (ch.expires_at / second * second)
          then ok tt
          else err (expired (pos (ch.expires_at / second)))))
verify-issue_timed hmac c nonce now later bindings sized n p q h =
    let unix = to_unix (now + c.ttl) in
    let header = nonce ++ put expiry_len unix in
    let tag = mac hmac c header bindings in
    let bytes = header ++ tag in
    let ch : Challenge = record { bytes = bytes; expires_at = now + c.ttl } in
    let long : length header ≡ 24 =
      omega (arith, n, length-append nonce (put 8 unix), length-put 8 unix) in
    let whole : length bytes ≡ len =
      omega (arith, long, length-append header tag, sized c.key (stream header bindings)) in
    let front : header_of bytes ≡ header = take-append_length header tag 24 long in
    let back : tag_of bytes ≡ tag = drop-append_length header tag 24 long in
    let eight : take expiry_len (drop nonce_len bytes) ≡ put expiry_len unix =
      ap (λ r. take 8 (drop 16 r)) (append_assoc nonce (put 8 unix) tag)
      ∙ ap (λ r. take 8 r) (drop-append_length nonce (put 8 unix ++ tag) 16 n)
      ∙ take-append_length (put 8 unix) tag 8 (length-put 8 unix) in
    let expiry : expiry_of bytes ≡ pos ((now + c.ttl) / second) =
      ap (λ r. to_int64 (get r)) eight
      ∙ ap to_int64 (get-put 8 unix (omega arith))
      ∙ to_int64-to_unix (now + c.ttl) h in
    (
      ch,
      issue-some hmac c nonce now bindings p q,
      whole,
      verify_timed hmac c bytes bindings later whole
            (back ∙ ap (λ r. mac hmac c r bindings) (sym front))
          ∙ ap (λ x. if before later x then ok tt else err (expired x)) expiry,
    )
