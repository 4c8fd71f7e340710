-- ===== src/Relay/Token/Network.antt =====
-- The networks of a relay whose authenticator reads tokens.
use meshp.Prelude.{ℕ, ◌^◌, ◌<◌, ◌≡◌, refl, sym, ◌∙◌, arith, true, List, ◌∷◌, some, length}
use meshp.Prelude.Result.{Result, ok, err}
use meshp.Prelude.Equality.{bytes_eq}
use meshp.Relay.Frame.{key_len, parse, type_recv}
use meshp.Relay.State.{Server, AddrPort, Out, Key, Text, Config}
use meshp.Relay.Server.{handle}
use meshp.Relay.Server.Sessions.{Reached, Reached-IsTable, Grants}
use meshp.Relay.Server.Forwarding.{handle-IsCarried}
use meshp.Relay.Token.{
  Ed25519, Grant, network_id_len, signed_part, verify, network_text, issuer_auth, answer,
  TokenError,
}
use meshp.Relay.Token.Issued.{verify-issued}
use meshp.Relay.Token.Hex.{IsBytes, network_text_injective}

-- A key was issued for a network, with some expiry.
abbrev pub IsIssued : (Key → List ℕ → ℕ → Type 0) → Key → List ℕ → Type 0
IsIssued Issued key id = (unix : ℕ) × Issued key id unix

answer-some :
    (r : Result TokenError Grant) (key : Key) (network : Text)
    → answer r ≡ some (key, network)
    → (grant : Grant) × (r ≡ ok grant)
      × (key ≡ grant.key)
      × (network ≡ network_text grant.network_id)
unfolding answer
answer-some (err why) key network h = absurd (cc h)
answer-some (ok grant) key network h = (grant, refl, ground (arith, h), ground (arith, h))

module _ (e : Ed25519) (public : List ℕ) (Issued : Key → List ℕ → ℕ → Type 0)
    (only : (m sig : List ℕ)
      → e.check public m sig ≡ true
      → (key : Key) × (id : List ℕ) × (unix : ℕ) × Issued key id unix
        × (length key ≡ key_len)
        × (length id ≡ network_id_len)
        × (unix < 2 ^ 64)
        × (m ≡ signed_part key id unix))
    (sized : (key : Key) (id : List ℕ) (unix : ℕ)
      → Issued key id unix
      → (length id ≡ network_id_len) × IsBytes id) where
  granted-IsIssued :
      (key : Key) (network : Text)
      → Grants (issuer_auth e public) key network
      → (id : List ℕ) × IsIssued Issued key id × (network ≡ network_text id)
  granted-IsIssued key network (now, token, h) =
      let got = answer-some (verify e public token now) key network h in
      let made = verify-issued e public Issued only token now got.0 got.1 in
      (got.0.network_id, (made.0, rw got.2 made.1), got.3)

  -- Suppose that a message verifies under the public key of a relay only if it is what `issue`
  -- signs for a key, a network id of 16 bytes and an expiry that were issued. Whatever the relay
  -- passes on, in any state that it reaches from `New` with `issuerAuth`, it passes from a key that
  -- was issued for some network id to a key that was issued for the same one.
  pub carried-SameNetwork :
      (print : AddrPort → Text) (cfg : Config) (s : Server)
      → cfg.auth ≡ some (issuer_auth e public)
      → Reached print cfg s
      → (via : ℕ) (from : AddrPort) (datagram : List ℕ) (now : ℕ) (out : Out) (rest : List Out)
      → (handle s via from datagram now).0 ≡ out ∷ rest
      → out.frame.kind ≡ type_recv
      → (id : List ℕ) × IsIssued Issued out.frame.key id × IsIssued Issued (parse datagram).key id
  carried-SameNetwork print cfg s c reached via from datagram now out rest h k =
      let table = (Reached-IsTable print cfg (issuer_auth e public) s c reached).1 in
      let carried = handle-IsCarried s via from datagram now out rest table.0 h k in
      let source = table.1 carried.0 carried.1 carried.3 in
      let target = table.1 (parse datagram).key carried.2 carried.6 in
      let a = granted-IsIssued carried.0 carried.1.network source.1 in
      let b = granted-IsIssued (parse datagram).key carried.2.network target.1 in
      let one = sized carried.0 a.0 a.1.0 a.1.1 in
      let two = sized (parse datagram).key b.0 b.1.0 b.1.1 in
      let same : a.0 ≡ b.0 =
        network_text_injective a.0 b.0 one.0 two.0 one.1 two.1 (sym a.2 ∙ sym carried.7 ∙ b.2) in
      (a.0, rw (carried.10 ∙ source.0) a.1, rw same b.1)
