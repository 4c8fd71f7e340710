-- ===== src/Relay/Token.antt =====
-- internal/relaytoken/relaytoken.go: the capability that a relay checks before it forwards, and
-- the authenticator of cmd/meshp-relay/main.go that reads it. Ed25519 is a parameter. An instant
-- is its nanoseconds after 1970, where `none` is the zero `time.Time`; the arithmetic of instants
-- does not overflow. The array types of the source, [32]byte and [16]byte, are lists of that
-- length. The text form, which is base64, is left out.
pub mod Hex
pub mod Issued
pub mod Network
use meshp.Prelude.{
  ℕ, ◌+◌, ◌-◌, ◌*◌, ◌/◌, ◌%◌, ◌^◌, Bool, true, false, not, List, [], ◌∷◌, ◌++◌, Option, none, some,
  ltb, ◌==◌, if◌then◌else◌, length, take, drop,
}
use meshp.Prelude.Int.{ℤ, pos, negsuc}
use meshp.Prelude.Result.{Result, ok, err, ◌>>=◌, ◌>>◌}
use meshp.Prelude.BigEndian.{put, get}
use meshp.Prelude.Instants.{second, to_unix, to_int64, after}
use meshp.Relay.Frame.{key_len, first}
use meshp.Relay.State.{Authenticator, Key, Text}

abbrev pub version : ℕ
version = 1

-- 30 minutes, in nanoseconds.
abbrev pub default_ttl : ℕ
default_ttl = 30 * 60 * 1000000000

abbrev pub version_len : ℕ
version_len = 1

abbrev pub network_id_len : ℕ
network_id_len = 16

abbrev pub expiry_len : ℕ
expiry_len = 8

abbrev pub signed_len : ℕ
signed_len = version_len + key_len + network_id_len + expiry_len

-- The sizes of crypto/ed25519.
abbrev pub signature_size : ℕ
signature_size = 64

abbrev pub private_key_size : ℕ
private_key_size = 64

abbrev pub public_key_size : ℕ
public_key_size = 32

abbrev pub size : ℕ
size = signed_len + signature_size

pub data TokenError : Type 0 where
  signing_key_size : ℕ → TokenError
  no_expiry : TokenError
  wrong_key_size : ℕ → TokenError
  malformed : ℕ → TokenError
  unsupported : ℕ → TokenError
  bad_signature : TokenError
  expired : ℤ → ℕ → TokenError

-- `expires_at` is in seconds.
pub record Grant : Type 0 where
  pub key : Key
  pub network_id : List ℕ
  pub expires_at : ℤ

-- The two functions of crypto/ed25519.
pub record Ed25519 : Type 0 where
  pub sign : List ℕ → List ℕ → List ℕ
  pub check : List ℕ → List ℕ → List ℕ → Bool

-- The bytes that are signed.
unfoldable pub signed_part : Key → List ℕ → ℕ → List ℕ
signed_part key network_id unix = version ∷ (key ++ (network_id ++ put expiry_len unix))

unfoldable pub issue : Ed25519 → List ℕ → Key → List ℕ → Option ℕ → Result TokenError (List ℕ)
unfolding signed_part
issue e signer key network_id expires_at =
    if length signer == private_key_size
    then elim expires_at [
      | none ↦ err no_expiry
      | some t ↦
          let signed = signed_part key network_id (to_unix t) in ok (signed ++ e.sign signer signed)
    ]
    else err (signing_key_size (length signer))

-- What the bytes behind the version say.
unfoldable pub read_grant : List ℕ → Grant
read_grant token = record {
  key = take key_len (drop version_len token);
  network_id = take network_id_len (drop (version_len + key_len) token);
  expires_at =
      to_int64 (get (take expiry_len (drop (version_len + key_len + network_id_len) token)));
}

unfoldable pub verify : Ed25519 → List ℕ → List ℕ → ℕ → Result TokenError Grant
unfolding read_grant first
verify e public token now =
    if not (length public == public_key_size)
    then err (wrong_key_size (length public))
    else if not (length token == size)
    then err (malformed (length token))
    else if not (first token == version)
    then err (unsupported (first token))
    else if not (e.check public (take signed_len token) (drop signed_len token))
    then err bad_signature
    else let grant = read_grant token in
      if after now grant.expires_at then err (expired grant.expires_at now) else ok grant

-- %x of a byte and of bytes
abbrev pub hex_digit : ℕ → ℕ
hex_digit n = if ltb n 10 then 48 + n else 87 + n

unfoldable pub hex : List ℕ → Text
hex [] = []
hex (b ∷ bs) = hex_digit (b / 16) ∷ hex_digit (b % 16) ∷ hex bs

-- `Network`: the id as the text of a UUID, its groups joined by `-`.
unfoldable pub network_text : List ℕ → Text
unfolding hex
network_text b =
    let last = 45 ∷ hex (take 6 (drop 10 b)) in
    let fourth = 45 ∷ (hex (take 2 (drop 8 b)) ++ last) in
    let third = 45 ∷ (hex (take 2 (drop 6 b)) ++ fourth) in
    let second_group = 45 ∷ (hex (take 2 (drop 4 b)) ++ third) in hex (take 4 b) ++ second_group

-- What `issuerAuth` answers for a token that has been verified.
unfoldable pub answer : Result TokenError Grant → Option (Key × Text)
unfolding network_text
answer (err why) = none
answer (ok grant) = some (grant.key, network_text grant.network_id)

-- `issuerAuth`
abbrev pub issuer_auth : Ed25519 → List ℕ → Authenticator
issuer_auth e public = record { authenticate = λ now token. answer (verify e public token now) }
