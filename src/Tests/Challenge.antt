-- ===== src/Tests/Challenge.antt =====
-- A challenge at concrete bytes.
use meshp.Prelude.{
  ℕ, ◌*◌, ◌/◌, ◌≡◌, refl, arith, List, [], ◌∷◌, ◌++◌, length, replicate, some, ltb, if◌then◌else◌,
}
use meshp.Prelude.Int.{pos}
use meshp.Prelude.Result.{ok, err}
use meshp.Prelude.Instants.{second}
use meshp.Challenge.{
  Hmac, Challenger, Challenge, issue, verify, stream, write_length_prefixed, write_all, expired,
  len,
}
use meshp.Challenge.Issued.{verify-tag, verify-issue_timed}

-- A MAC that is the number of bytes, and zeros.
abbrev count_bytes : Hmac
count_bytes k m = length m ∷ replicate 31 0

abbrev challenger : Challenger
challenger = record { key = replicate 32 1; ttl = 300000000000 }

abbrev nonce : List ℕ
nonce = replicate 16 3

abbrev bindings : List (List ℕ)
bindings = (1 ∷ 2 ∷ []) ∷ (3 ∷ []) ∷ []

verify-issue_timed_example :
    (ch : Challenge) × (issue count_bytes challenger (some nonce) 5000000000 bindings ≡ ok ch)
    × (length ch.bytes ≡ len)
    × (verify count_bytes challenger ch.bytes bindings 7000000000 ≡ (
        if ltb 7000000000 (ch.expires_at / second * second)
        then ok tt
        else err (expired (pos (ch.expires_at / second)))))
verify-issue_timed_example =
    verify-issue_timed count_bytes challenger nonce 5000000000 7000000000 bindings (λ k m. refl)
      refl (omega arith) (omega arith, (omega arith, tt)) (omega arith)

-- The challenge itself: a nonce, the second 305, and the length of the 43 bytes that are hashed.
abbrev issued : List ℕ
issued = nonce ++ 0 ∷ 0 ∷ 0 ∷ 0 ∷ 0 ∷ 0 ∷ 1 ∷ 49 ∷ 43 ∷ replicate 31 0

issued_verifies : verify count_bytes challenger issued bindings 7000000000 ≡ ok tt
unfolding verify stream write_length_prefixed write_all
issued_verifies = refl

verify-tag_example : (issued ≡ issued) × (bindings ≡ bindings)
verify-tag_example =
    verify-tag count_bytes challenger issued issued bindings bindings 7000000000 7000000000
      (λ e. refl) (omega arith) (omega arith) (omega arith, (omega arith, tt))
      (omega arith, (omega arith, tt)) issued_verifies issued_verifies refl
