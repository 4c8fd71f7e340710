-- ===== src/Challenge.antt =====
-- internal/challenge/challenge.go: nonces that carry their own validity, for a device to sign. HMAC,
-- HKDF, the random bytes and base64 are parameters. The clock is an argument. The hash is fed in
-- writes; here the writes are one stream.
pub mod Stream
pub mod Issued
use meshp.Prelude.{
  ℕ, ◌+◌, ◌*◌, ◌%◌, ◌^◌, Bool, true, false, ◌||◌, not, List, [], ◌∷◌, ◌++◌, Option, none, some, ltb,
  ◌==◌, if◌then◌else◌, length, take, drop,
}
use meshp.Prelude.Int.{ℤ, positive_or}
use meshp.Prelude.Result.{Result, ok, err}
use meshp.Prelude.Equality.{equal, bytes_eq}
use meshp.Prelude.BigEndian.{put, get}
use meshp.Prelude.Instants.{to_unix, to_int64, before}

abbrev pub nonce_len : ℕ
nonce_len = 16

abbrev pub expiry_len : ℕ
expiry_len = 8

abbrev pub mac_len : ℕ
mac_len = 32

abbrev pub len : ℕ
len = nonce_len + expiry_len + mac_len

-- Five minutes, in nanoseconds.
abbrev pub default_ttl : ℕ
default_ttl = 5 * 60 * 1000000000

pub data ChallengeError : Type 0 where
  short_secret : ℕ → ChallengeError
  no_purpose : ChallengeError
  no_key : ChallengeError
  no_binding : ChallengeError
  empty_binding : ℕ → ChallengeError
  no_nonce : ChallengeError
  invalid : ChallengeError
  expired : ℤ → ChallengeError

-- HMAC with SHA-256 of a key and a message.
abbrev pub Hmac : Type 0
Hmac = List ℕ → List ℕ → List ℕ

-- HKDF of a secret for a purpose, or none for its error.
abbrev pub Hkdf : Type 0
Hkdf = List ℕ → List ℕ → Option (List ℕ)

pub record Challenger : Type 0 where
  pub key : List ℕ
  pub ttl : ℕ

pub record Challenge : Type 0 where
  pub bytes : List ℕ
  pub expires_at : ℕ

unfoldable pub new : Hkdf → List ℕ → List ℕ → ℤ → Result ChallengeError Challenger
new hkdf master purpose ttl =
    if ltb (length master) 16
    then err (short_secret (length master))
    else if length purpose == 0
    then err no_purpose
    else elim (hkdf master purpose) [
      | none ↦ err no_key
      | some key ↦ ok (record { key = key; ttl = positive_or default_ttl ttl })
    ]

-- `writeLengthPrefixed`, before what is written next. The length is a uint32.
unfoldable pub write_length_prefixed : List ℕ → List ℕ → List ℕ
write_length_prefixed b rest = put 4 (length b % 2 ^ 32) ++ (b ++ rest)

unfoldable pub write_all : List (List ℕ) → List ℕ
unfolding write_length_prefixed
write_all [] = []
write_all (b ∷ bs) = write_length_prefixed b (write_all bs)

-- All that `mac` writes.
unfoldable pub stream : List ℕ → List (List ℕ) → List ℕ
unfolding write_length_prefixed write_all
stream header bindings =
    write_length_prefixed header (put 4 (length bindings % 2 ^ 32) ++ write_all bindings)

abbrev pub mac : Hmac → Challenger → List ℕ → List (List ℕ) → List ℕ
mac hmac c header bindings = hmac c.key (stream header bindings)

-- The first empty binding, counted from `i`.
unfoldable pub empty_from : ℕ → List (List ℕ) → Option ℕ
empty_from i [] = none
empty_from i (b ∷ bs) = let rest = empty_from (i + 1) bs in if length b == 0 then some i else rest

-- `Issue` at the instant `now`, where the random source gives a nonce or fails.
unfoldable pub issue :
    Hmac → Challenger → Option (List ℕ) → ℕ → List (List ℕ) → Result ChallengeError Challenge
unfolding empty_from
issue hmac c random now bindings =
    if length bindings == 0 then err no_binding else elim (empty_from 0 bindings) [
      | some i ↦ err (empty_binding i)
      | none ↦ elim random [
        | none ↦ err no_nonce
        | some nonce ↦
            let header = nonce ++ put expiry_len (to_unix (now + c.ttl)) in
            ok (record { bytes = header ++ mac hmac c header bindings; expires_at = now + c.ttl })
      ]
    ]

abbrev pub header_of : List ℕ → List ℕ
header_of ch = take (nonce_len + expiry_len) ch

abbrev pub tag_of : List ℕ → List ℕ
tag_of ch = drop (nonce_len + expiry_len) ch

-- The expiry that the bytes from the nonce on say; `Uint64` reads eight of them.
abbrev pub expiry_of : List ℕ → ℤ
expiry_of ch = to_int64 (get (take expiry_len (drop nonce_len ch)))

unfoldable pub verify :
    Hmac → Challenger → List ℕ → List (List ℕ) → ℕ → Result ChallengeError (Unit {0})
verify hmac c ch bindings now =
    if not (length ch == len)
    then err invalid
    else if not (equal (tag_of ch) (mac hmac c (header_of ch) bindings))
    then err invalid
    else if not (before now (expiry_of ch))
    then err (expired (expiry_of ch))
    else ok tt

-- `Parse`, given what base64 decodes.
unfoldable pub parse : (List ℕ → Option (List ℕ)) → List ℕ → Result ChallengeError (List ℕ)
parse base64 encoded = elim (base64 encoded) [
  | none ↦ err invalid
  | some raw ↦ if length raw == len then ok raw else err invalid
]
