-- ===== src/Tests/RelayToken.antt =====
-- Tokens of one issuer, and a relay that reads them.
use meshp.Prelude.{
  ℕ, ◌/◌, ◌^◌, ◌<◌, ◌≡◌, refl, ◌⊎◌, inl, inr, arith, true, ◌||◌, List, [], ◌∷◌, ◌++◌, some, length,
  replicate, take, ltb, if◌then◌else◌, ◌*◌,
}
use meshp.Prelude.Int.{pos}
use meshp.Prelude.Result.{ok, err}
use meshp.Prelude.Equality.{equal, equal_iff, bytes_eq}
use meshp.Prelude.Assoc.{lookup, insert}
use meshp.Relay.Frame.{decode, validate, parse, key_len, type_hello, type_send, type_recv, first}
use meshp.Relay.State.{Key, Out, Server, Config, new, no_stats}
use meshp.Relay.Server.{handle, dispatch, hello, forward, deliver, sender_at}
use meshp.Relay.Server.Sessions.{Reached, starts, goes_on, arrives}
use meshp.Relay.Token.{
  Ed25519, Grant, network_id_len, size, signed_part, issue, read_grant, verify, expired, hex,
  network_text, answer, issuer_auth,
}
use meshp.Prelude.Instants.{second}
use meshp.Relay.Token.Issued.{verify-issue}
use meshp.Relay.Token.Hex.{IsBytes}
use meshp.Relay.Token.Network.{IsIssued, carried-SameNetwork}
use meshp.Tests.RelayServer.{alice, bob, here, there, print}

abbrev seal : List ℕ
seal = replicate 64 7

abbrev net : List ℕ
net = replicate 16 171

-- A scheme in which every message has the same signature.
abbrev stamp : Ed25519
stamp = record { sign = λ k m. seal; check = λ public m sig. true }

abbrev public : List ℕ
public = replicate 32 5

verify-issue_example :
    (token : List ℕ) × (issue stamp seal alice net (some 5000000000) ≡ ok token)
    × (length token ≡ size)
    × (verify stamp public token 4000000000 ≡ (
        if ltb (5000000000 / second * second) 4000000000
        then err (expired (pos (5000000000 / second)) 4000000000)
        else ok (record { key = alice; network_id = net; expires_at = pos (5000000000 / second) })))
verify-issue_example =
    verify-issue stamp seal public alice net 5000000000 4000000000 (λ m. refl) (λ m. refl) refl refl
      refl refl (omega arith)

-- Three dozen years past 1970, in seconds.
abbrev expiry : ℕ
expiry = 1136073600

-- The messages of two issued tokens.
unfoldable message : Key → List ℕ
unfolding signed_part
message k = signed_part k net expiry

-- A scheme that accepts no other message.
abbrev strict : Ed25519
strict = record {
  sign = λ k m. seal;
  check = λ public m sig. equal m (message alice) || equal m (message bob);
}

abbrev Issued : Key → List ℕ → ℕ → Type 0
Issued k id unix = ((k ≡ alice) ⊎ (k ≡ bob)) × (id ≡ net) × (unix ≡ expiry)

which :
    (m sig : List ℕ) → strict.check public m sig ≡ true → (m ≡ message alice) ⊎ (m ≡ message bob)
which m sig h = ground (arith, equal_iff m (message alice), equal_iff m (message bob))

only :
    (m sig : List ℕ)
    → strict.check public m sig ≡ true
    → (key : Key) × (id : List ℕ) × (unix : ℕ) × Issued key id unix
      × (length key ≡ key_len)
      × (length id ≡ network_id_len)
      × (unix < 2 ^ 64)
      × (m ≡ signed_part key id unix)
unfolding message
only m sig h = elim (which m sig h) [
  | inl e ↦ (alice, net, expiry, (inl refl, refl, refl), refl, refl, omega arith, e)
  | inr e ↦ (bob, net, expiry, (inr refl, refl, refl), refl, refl, omega arith, e)
]

abbrev token_of : Key → List ℕ
token_of k = signed_part k net expiry ++ seal

abbrev granted : Grant
granted = record { key = alice; network_id = net; expires_at = pos expiry }

alice_verifies : verify strict public (token_of alice) 1000 ≡ ok granted
unfolding message signed_part verify read_grant first
alice_verifies = refl

net-IsBytes : IsBytes net
net-IsBytes = ground arith

sized :
    (key : Key) (id : List ℕ) (unix : ℕ)
    → Issued key id unix
    → (length id ≡ network_id_len) × IsBytes id
sized key id unix i = rw i.1 (refl, net-IsBytes)

abbrev config : Config
config = record {
  auth = some (issuer_auth strict public);
  self_key = replicate 32 9;
  idle = pos 100;
}

abbrev empty : Server
empty = record {
  auth = issuer_auth strict public;
  print = print;
  idle = 100;
  self_key = replicate 32 9;
  by_key = [];
  stats = no_stats;
}

abbrev hello_of : Key → List ℕ
hello_of k = type_hello ∷ (k ++ token_of k)

abbrev one : Server
one = (handle empty 0 here (hello_of alice) 5).1

abbrev two : Server
two = (handle one 3 there (hello_of bob) 6).1

two-Reached : Reached print config two
unfolding new
two-Reached =
    goes_on (goes_on (starts refl) (arrives 0 here (hello_of alice) 5))
      (arrives 3 there (hello_of bob) 6)

abbrev datagram : List ℕ
datagram = type_send ∷ (bob ++ 42 ∷ 43 ∷ [])

abbrev passed_on : Out
passed_on = record {
  via = 3;
  to = there;
  frame = record { kind = type_recv; key = alice; payload = 42 ∷ 43 ∷ [] };
}

two_sends : (handle two 0 here datagram 7).0 ≡ passed_on ∷ []
unfolding handle decode validate parse first dispatch hello insert forward sender_at deliver lookup
    verify read_grant answer signed_part message
two_sends = refl

carried-SameNetwork_example :
    (id : List ℕ) × IsIssued Issued alice id × IsIssued Issued (parse datagram).key id
carried-SameNetwork_example =
    carried-SameNetwork strict public Issued only sized print config two refl two-Reached 0 here
      datagram 7 passed_on [] two_sends refl

-- The text of an id, "abababab-abab-abab-abab-abababababab".
net_text : take 9 (network_text net) ≡ 97 ∷ 98 ∷ 97 ∷ 98 ∷ 97 ∷ 98 ∷ 97 ∷ 98 ∷ 45 ∷ []
unfolding network_text hex
net_text = refl
