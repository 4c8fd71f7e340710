-- ===== src/Tests/RelayServer.antt =====
-- A relay with two agents of one network.
use meshp.Prelude.{
  ℕ, ◌+◌, ◌≤◌, ◌≡◌, refl, sym, ap, ◌∙◌, ◌⊎◌, arith, true, List, [], ◌∷◌, ◌++◌, none, some, All,
  length, replicate, take, if◌then◌else◌, ◌-◌,
}
use meshp.Prelude.Int.{pos}
use meshp.Prelude.Result.{ok}
use meshp.Prelude.Equality.{equal, equal_iff, bytes_eq}
use meshp.Prelude.Assoc.{IsMap, lookup, insert}
use meshp.Relay.Frame.{
  Frame, decode, encode, write, max_payload, validate, parse, header_len, type_hello, type_send,
  type_recv, first,
}
use meshp.Relay.State.{
  Key, AddrPort, Text, Authenticator, Out, Session, Server, Config, new, no_stats,
}
use meshp.Relay.Server.{handle, dispatch, hello, forward, deliver, sender_at}
use meshp.Relay.Server.Bounds.{IsMeasured, handle-IsMeasured}
use meshp.Relay.Server.Sessions.{Reached, starts, goes_on, arrives, IsTable, Reached-IsTable}
use meshp.Relay.Server.Moves.{IsKept, IsMade, handle-IsKept}
use meshp.Relay.Server.Delivery.{IsAlone, handle-delivers}
use meshp.Relay.Server.Encodes.{handle-encodes}

abbrev pub alice : Key
alice = replicate 32 1

abbrev pub bob : Key
bob = replicate 32 2

abbrev home : Text
home = 104 ∷ 111 ∷ 109 ∷ 101 ∷ []

-- A token is the first byte of the key that it grants.
abbrev door : Authenticator
door = record {
  authenticate = λ now token.
      if equal token (1 ∷ [])
      then some (alice, home)
      else if equal token (2 ∷ [])
      then some (bob, home)
      else none;
}

abbrev pub here : AddrPort
here = record { ip = record { is4 = true; value = 10 }; port = 1000 }

abbrev pub there : AddrPort
there = record { ip = record { is4 = true; value = 20 }; port = 2000 }

abbrev pub print : AddrPort → Text
print a = replicate 14 48

abbrev config : Config
config = record { auth = some door; self_key = replicate 32 9; idle = pos 100 }

abbrev empty : Server
empty = record {
  auth = door;
  print = print;
  idle = 100;
  self_key = replicate 32 9;
  by_key = [];
  stats = no_stats;
}

abbrev hello_of : ℕ → List ℕ
hello_of n = type_hello ∷ (replicate 32 n ++ n ∷ [])

abbrev one : Server
one = (handle empty 0 here (hello_of 1) 5).1

abbrev two : Server
two = (handle one 3 there (hello_of 2) 6).1

abbrev of_alice : Session
of_alice = record { key = alice; network = home; addr = here; via = 0; last_seen = 5 }

abbrev of_bob : Session
of_bob = record { key = bob; network = home; addr = there; via = 3; last_seen = 6 }

abbrev greeting : Frame
greeting = record { kind = type_send; key = bob; payload = 42 ∷ 43 ∷ [] }

abbrev datagram : List ℕ
datagram = type_send ∷ (bob ++ 42 ∷ 43 ∷ [])

abbrev passed_on : Out
passed_on = record {
  via = 3;
  to = there;
  frame = record { kind = type_recv; key = alice; payload = 42 ∷ 43 ∷ [] };
}

two-Reached : Reached print config two
unfolding new
two-Reached =
    goes_on (goes_on (starts refl) (arrives 0 here (hello_of 1) 5)) (arrives 3 there (hello_of 2) 6)

two_table : two.by_key ≡ (alice, of_alice) ∷ (bob, of_bob) ∷ []
unfolding handle decode validate parse first dispatch hello insert
two_table = refl

two_sends : (handle two 0 here datagram 7).0 ≡ passed_on ∷ []
unfolding handle decode validate parse first dispatch hello insert forward sender_at deliver lookup
two_sends = refl

two_IsMap : IsMap two.by_key
unfolding handle decode validate parse first dispatch hello insert lookup
two_IsMap = (refl, (refl, tt))

handle-IsMeasured_example :
    IsMeasured two (parse datagram) 7 (length datagram) (handle two 0 here datagram 7).0
handle-IsMeasured_example = handle-IsMeasured two 0 here datagram 7

Reached-IsTable_example : (two.auth ≡ door) × IsTable door two.by_key
Reached-IsTable_example = Reached-IsTable print config door two refl two-Reached

abbrev renewed : Session
renewed = record of_alice { last_seen = 7 }

alice-renewed : lookup alice (handle two 0 here datagram 7).1.by_key ≡ some renewed
unfolding handle decode validate parse first dispatch hello insert forward sender_at deliver lookup
alice-renewed = refl

handle-IsKept_example :
    IsKept two here 7 alice renewed ⊎ IsMade two 0 here (parse datagram) 7 alice renewed
handle-IsKept_example = handle-IsKept two 0 here datagram 7 alice renewed two_IsMap alice-renewed

bob_found : sender_at two.idle there 106 two.by_key ≡ some (bob, of_bob)
unfolding handle decode validate parse first dispatch hello insert sender_at
bob_found = refl

first_of_two :
    (k l : Key) (a b : Session) (j : Key) (v : Session)
    → lookup j ((k, a) ∷ (l, b) ∷ []) ≡ some v
    → b.addr.port ≡ 2000
    → v.addr.port ≡ 1000
    → j ≡ k
unfolding lookup
first_of_two k l a b j v h p q = ground (arith, equal_iff k j, equal_iff l j)

alice-IsAlone : IsAlone two.by_key alice here
alice-IsAlone j v h e =
    first_of_two alice bob of_alice of_bob j v (sym (ap (λ m. lookup j m) two_table) ∙ h) refl
      (ap (λ a. a.port) e)

alice_live : 7 - of_alice.last_seen ≤ two.idle
unfolding handle decode validate parse first dispatch hello insert
alice_live = omega arith

alice_there : lookup alice two.by_key ≡ some of_alice
unfolding handle decode validate parse first dispatch hello insert lookup
alice_there = refl

bob_there : lookup bob two.by_key ≡ some of_bob
unfolding handle decode validate parse first dispatch hello insert lookup
bob_there = refl

greeting_valid : validate greeting ≡ ok tt
unfolding validate
greeting_valid = refl

handle-delivers_example :
    (n : ℕ) × (sent : List ℕ) × (m : ℕ) × (passed : List ℕ) × (out : Out) × (encode greeting
        (replicate 40 0)
      ≡ ok (n, sent))
    × ((handle two 0 here (take n sent) 7).0 ≡ out ∷ [])
    × (out.to ≡ there)
    × (out.via ≡ 3)
    × (encode out.frame (replicate 40 0) ≡ ok (m, passed))
    × (decode (take m passed)
        ≡ ok (record { kind = type_recv; key = alice; payload = greeting.payload }))
handle-delivers_example =
    handle-delivers two 0 7 alice of_alice of_bob greeting (replicate 40 0) (replicate 40 0)
      two_IsMap alice_there alice_live alice-IsAlone refl bob_there refl refl refl greeting_valid
      (omega arith) (omega arith)

print_short : (a : AddrPort) → length (two.print a) ≤ max_payload
unfolding handle validate parse
print_short a = omega arith

handle-encodes_example :
    All
      (λ out.
        encode out.frame (replicate 1452 0)
        ≡ ok (header_len + length out.frame.payload, write out.frame (replicate 1452 0)))
      (handle two 0 here datagram 7).0
handle-encodes_example =
    handle-encodes two 0 here datagram 7 (replicate 1452 0) print_short (omega arith)

-- A second agent behind the address of a session that is still in the table: what it sends counts
-- as the other one's.
abbrev shared : Server
shared = (handle one 0 here (hello_of 2) 6).1

shared_sender : sender_at shared.idle here 7 shared.by_key ≡ some (alice, of_alice)
unfolding handle decode validate parse first dispatch hello insert sender_at
shared_sender = refl

-- And where the other one is idle, what it sends is dropped.
abbrev later : Server
later = (handle one 0 here (hello_of 2) 200).1

later_dropped : sender_at later.idle here 201 later.by_key ≡ none
unfolding handle decode validate parse first dispatch hello insert sender_at
later_dropped = refl
