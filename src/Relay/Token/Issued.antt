-- ===== src/Relay/Token/Issued.antt =====
-- What a token that verifies grants.
use mathlib.Core.Path.{ap₂}
use mathlib.Core.List.{append_assoc}
use meshp.Prelude.{
  ℕ, ◌+◌, ◌*◌, ◌/◌, ◌^◌, ◌<◌, ◌≡◌, refl, ap, sym, ◌∙◌, arith, true, false, List, ◌∷◌, ◌++◌, some,
  length, ltb, if◌then◌else◌, take, drop, length-append, take-append_length, drop-append_length,
  take-append-drop, drop-drop,
}
use meshp.Prelude.Int.{pos}
use meshp.Prelude.Result.{ok, err}
use meshp.Prelude.BigEndian.{put, get, length-put, get-put}
use meshp.Relay.Frame.{key_len, first}
use meshp.Relay.State.{Key}
use meshp.Relay.Token.{
  Ed25519, Grant, version, network_id_len, expiry_len, signed_len, size, signature_size,
  private_key_size, public_key_size, signed_part, issue, read_grant, verify, expired,
}
use meshp.Prelude.Instants.{second, to_unix, to_int64, after}

drop-past : (xs ys : List ℕ) (n k : ℕ) → length xs ≡ n → drop (n + k) (xs ++ ys) ≡ drop k ys
drop-past xs ys n k h =
    sym (drop-drop n k (n + k) (xs ++ ys) refl) ∙ ap (λ r. drop k r) (drop-append_length xs ys n h)

-- The fields stand where `Verify` reads them.
read_grant-parts :
    (v : ℕ) (key id ex rest : List ℕ)
    → length key ≡ key_len
    → length id ≡ network_id_len
    → length ex ≡ expiry_len
    → read_grant (v ∷ (key ++ (id ++ (ex ++ rest))))
      ≡ record { key = key; network_id = id; expires_at = to_int64 (get ex) }
unfolding read_grant
read_grant-parts v key id ex rest k n x = λ i. record {
  key = take-append_length key (id ++ (ex ++ rest)) 32 k i;
  network_id =
      (ap (λ r. take 16 r) (drop-append_length key (id ++ (ex ++ rest)) 32 k)
          ∙ take-append_length id (ex ++ rest) 16 n)
        i;
  expires_at =
      ap (λ r. to_int64 (get r))
        (ap (λ r. take 8 r)
            (drop-past key (id ++ (ex ++ rest)) 32 16 k ∙ drop-append_length id (ex ++ rest) 16 n)
          ∙ take-append_length ex rest 8 x)
        i;
}

module _ (key id : List ℕ) (k : length key ≡ key_len) (n : length id ≡ network_id_len) where
  shape :
      (unix : ℕ) (rest : List ℕ)
      → signed_part key id unix ++ rest ≡ version ∷ (key ++ (id ++ (put expiry_len unix ++ rest)))
  unfolding signed_part
  shape unix rest =
      ap (λ r. version ∷ r)
        (append_assoc key (id ++ put expiry_len unix) rest
          ∙ ap (λ r. key ++ r) (append_assoc id (put expiry_len unix) rest))

  length-signed_part : (unix : ℕ) → length (signed_part key id unix) ≡ signed_len
  unfolding signed_part
  length-signed_part unix = omega (
    arith,
    k,
    n,
    length-append key (id ++ put expiry_len unix),
    length-append id (put expiry_len unix),
    length-put 8 unix,
  )

  read_grant-signed_part :
      (unix : ℕ) (rest : List ℕ)
      → unix < 2 ^ 64
      → read_grant (signed_part key id unix ++ rest)
        ≡ record { key = key; network_id = id; expires_at = to_int64 unix }
  read_grant-signed_part unix rest h =
      ap read_grant (shape unix rest)
      ∙ read_grant-parts version key id (put expiry_len unix) rest k n (length-put 8 unix)
      ∙ ap (λ m. record { key = key; network_id = id; expires_at = to_int64 m }) (get-put 8 unix h)

-- What a token that verifies has passed.
verify_ok :
    (e : Ed25519) (public token : List ℕ) (now : ℕ) (grant : Grant)
    → verify e public token now ≡ ok grant
    → (e.check public (take signed_len token) (drop signed_len token) ≡ true)
      × (grant ≡ read_grant token)
      × (after now grant.expires_at ≡ false)
unfolding verify
verify_ok e public token now grant h = ground arith

-- What passes every check but that of the clock is granted until it expires.
verify_timed :
    (e : Ed25519) (public token : List ℕ) (now : ℕ)
    → length public ≡ public_key_size
    → length token ≡ size
    → first token ≡ version
    → e.check public (take signed_len token) (drop signed_len token) ≡ true
    → verify e public token now ≡ (
        if after now (read_grant token).expires_at
        then err (expired (read_grant token).expires_at now)
        else ok (read_grant token))
unfolding verify
verify_timed e public token now p l f c = ground (arith, p, l, f, c)

first-signed_part :
    (key id : List ℕ) (unix : ℕ) (rest : List ℕ) → first (signed_part key id unix ++ rest) ≡ version
unfolding first signed_part
first-signed_part key id unix rest = refl

-- A token that `issue` makes for a key and a network with an expiry `t` verifies under the public
-- key of the signer up to the instant at which the second of `t` starts, and grants that key on
-- that network until then; past that instant, also within the second, it is refused as expired.
-- The signatures of Ed25519 verify and are 64 bytes.
pub verify-issue :
    (e : Ed25519) (signer public key id : List ℕ) (t now : ℕ)
    → ((m : List ℕ) → e.check public m (e.sign signer m) ≡ true)
    → ((m : List ℕ) → length (e.sign signer m) ≡ signature_size)
    → length signer ≡ private_key_size
    → length public ≡ public_key_size
    → length key ≡ key_len
    → length id ≡ network_id_len
    → t / second < 2 ^ 63
    → (token : List ℕ) × (issue e signer key id (some t) ≡ ok token)
      × (length token ≡ size)
      × (verify e public token now ≡ (
          if ltb (t / second * second) now
          then err (expired (pos (t / second)) now)
          else ok (record { key = key; network_id = id; expires_at = pos (t / second) })))
unfolding issue
verify-issue e signer public key id t now checks sized s p k n h =
    let part = signed_part key id (to_unix t) in
    let token = part ++ e.sign signer part in
    let long : length part ≡ signed_len = length-signed_part key id k n (to_unix t) in
    let long_token : length token ≡ size =
      omega (arith, length-append part (e.sign signer part), long, sized part) in
    let front = take-append_length part (e.sign signer part) signed_len long in
    let back = drop-append_length part (e.sign signer part) signed_len long in
    let grant = read_grant-signed_part key id k n (to_unix t) (e.sign signer part) (omega arith) in
    let seconds : to_int64 (to_unix t) ≡ pos (t / second) = ground arith in
    let all : read_grant token
        ≡ record { key = key; network_id = id; expires_at = pos (t / second) } =
      grant ∙ ap (λ x. record { key = key; network_id = id; expires_at = x }) seconds in
    (
      token,
      rw s refl,
      long_token,
      verify_timed e public token now p long_token
            (first-signed_part key id (to_unix t) (e.sign signer part))
            (ap₂ (λ m sig. e.check public m sig) front back ∙ checks part)
          ∙ ap (λ g. if after now g.expires_at then err (expired g.expires_at now) else ok g) all,
    )

-- Suppose that a message verifies under a public key only if it is what `issue` signs for a key, a
-- network and an expiry that were issued. Then a token that verifies grants a key, a network
-- and an expiry that were issued, and is not past that expiry.
pub verify-issued :
    (e : Ed25519) (public : List ℕ) (Issued : Key → List ℕ → ℕ → Type 0)
    → ((m sig : List ℕ)
        → e.check public m sig ≡ true
        → (key : Key) × (id : List ℕ) × (unix : ℕ) × Issued key id unix
          × (length key ≡ key_len)
          × (length id ≡ network_id_len)
          × (unix < 2 ^ 64)
          × (m ≡ signed_part key id unix))
    → (token : List ℕ) (now : ℕ) (grant : Grant) → verify e public token now ≡ ok grant
    → (unix : ℕ) × Issued grant.key grant.network_id unix
      × (grant.expires_at ≡ to_int64 unix)
      × (after now grant.expires_at ≡ false)
verify-issued e public Issued only token now grant h =
    let passed = verify_ok e public token now grant h in
    let made = only (take signed_len token) (drop signed_len token) passed.0 in
    let read : grant ≡ record { key = made.0; network_id = made.1; expires_at = to_int64 made.2 } =
      passed.1
      ∙ ap read_grant
          (sym (take-append-drop signed_len token) ∙ ap (λ m. m ++ drop signed_len token) made.7)
      ∙ read_grant-signed_part made.0 made.1 made.4 made.5 made.2 (drop signed_len token) made.6 in
    (made.2, rw read made.3, ap (λ g. g.expires_at) read, passed.2)
