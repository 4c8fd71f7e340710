-- ===== src/Relay/Server/Sessions.antt =====
-- The table of a relay's sessions over all that can happen to it.
use mathlib.Core.Path.{subst}
use meshp.Prelude.{ℕ, ◌-◌, ◌⊎◌, ◌≤◌, ◌≡◌, refl, arith, List, [], ◌∷◌, some, ◌∙◌, inl, inr, sym}
use meshp.Prelude.Equality.{equal_iff, bytes_eq}
use meshp.Prelude.Assoc.{
  Assoc, lookup, insert, delete, IsMap, insert-IsMap, delete-IsMap, retain-IsMap, insert_origin,
  retain_origin, delete_origin,
}
use meshp.Netip.{addr_eq}
use meshp.Relay.Frame.{Frame, parse}
use meshp.Relay.State.{
  Server, AddrPort, Text, Out, Session, Key, Config, Authenticator, addr_port_eq, new,
}
use meshp.Relay.Server.{handle, expire, sender_at, touch}
use meshp.Relay.Server.Outcome.{
  Permitted, ignores, strays, snubs, refuses, admits, misses, drops, delivers, answers,
  handle-Permitted,
}

-- What the loop finds stands in the table, at the address, and is not idle.
pub sender_at-lookup :
    (idle : ℕ) (from : AddrPort) (now : ℕ) (m : Assoc Key Session) (sender : Key × Session)
    → IsMap m
    → sender_at idle from now m ≡ some sender
    → (lookup sender.0 m ≡ some sender.1)
      × (sender.1.addr ≡ from)
      × (now - sender.1.last_seen ≤ idle)
unfolding sender_at lookup
sender_at-lookup idle from now [] sender u h = absurd (cc h)
sender_at-lookup idle from now ((k, v) ∷ m) sender u h = ground (
  arith,
  equal_iff v.addr from,
  equal_iff k sender.0,
  equal_iff k k,
  sender_at-lookup idle from now m sender u.1,
)

-- Where a session of the touched table comes from: only the time differs.
pub touch_origin :
    (s : Server) (sender : Key × Session) (now : ℕ) (k : Key) (v : Session)
    → lookup sender.0 s.by_key ≡ some sender.1
    → lookup k (touch s sender now).by_key ≡ some v
    → (old : Session) × (lookup k s.by_key ≡ some old)
      × (v.key ≡ old.key)
      × (v.network ≡ old.network)
      × (v.addr ≡ old.addr)
      × (v.via ≡ old.via)
      × ((v.last_seen ≡ old.last_seen) ⊎ ((k ≡ sender.0) × (old ≡ sender.1) × (v.last_seen ≡ now)))
touch_origin s sender now k v found h = elim (insert_origin sender.0 _ s.by_key k v h) [
  | inl (same, made) ↦
      rw (sym same, sym made) (sender.1, found, refl, refl, refl, refl, inr (refl, refl, refl))
  | inr old ↦ (v, old, refl, refl, refl, refl, inl refl)
]

-- Some token that the authenticator accepts grants a key on a network.
abbrev pub Grants : Authenticator → Key → Text → Type 0
Grants auth k network =
    (at : ℕ) × (token : List ℕ) × (auth.authenticate at token ≡ some (k, network))

-- Each session is under its own key, and was granted.
abbrev pub IsTable : Authenticator → Assoc Key Session → Type 0
IsTable auth m =
    IsMap m
    × ((k : Key) (v : Session) → lookup k m ≡ some v → (v.key ≡ k) × Grants auth k v.network)

insert-IsTable :
    (auth : Authenticator) (k : Key) (v : Session) (m : Assoc Key Session)
    → v.key ≡ k
    → Grants auth k v.network
    → IsTable auth m
    → IsTable auth (insert k v m)
insert-IsTable auth k v m own g t = (
  insert-IsMap k v m t.0,
  λ j w e. elim (insert_origin k v m j w e) [
    | inl (kj, vw) ↦ rw (sym kj, sym vw) (own, g)
    | inr old ↦ t.1 j w old
  ],
)

touch-IsTable :
    (s : Server) (sender : Key × Session) (now : ℕ) (auth : Authenticator)
    → lookup sender.0 s.by_key ≡ some sender.1
    → IsTable auth s.by_key
    → IsTable auth (touch s sender now).by_key
touch-IsTable s sender now auth found t =
    let old = t.1 sender.0 sender.1 found in
    insert-IsTable auth sender.0 (record (sender.1) { last_seen = now }) s.by_key old.0 old.1 t

Permitted-IsTable :
    (s : Server) (via : ℕ) (from : AddrPort) (frame : Frame) (now : ℕ) (r : List Out × Server)
    → Permitted s via from frame now r
    → IsTable s.auth s.by_key
    → (r.1.auth ≡ s.auth) × IsTable s.auth r.1.by_key
Permitted-IsTable s via from frame now _ (ignores h d p) t = (refl, t)
Permitted-IsTable s via from frame now _ (strays k h) t = (refl, t)
Permitted-IsTable s via from frame now _ (snubs k d l) t = (refl, t)
Permitted-IsTable s via from frame now _ (refuses k d h) t = (refl, t)
Permitted-IsTable s via from frame now _ (admits {network = n} k h) t =
    (refl, insert-IsTable s.auth frame.key _ s.by_key refl (now, frame.payload, h) t)
Permitted-IsTable s via from frame now _ (drops {sender = x} k h g e) t =
    (refl, touch-IsTable s x now s.auth (sender_at-lookup s.idle from now s.by_key x t.0 h).0 t)
Permitted-IsTable s via from frame now _ (delivers {sender = x} k h g e) t =
    (refl, touch-IsTable s x now s.auth (sender_at-lookup s.idle from now s.by_key x t.0 h).0 t)
Permitted-IsTable s via from frame now _ (misses {sender = x} k h g) t =
    (refl, touch-IsTable s x now s.auth (sender_at-lookup s.idle from now s.by_key x t.0 h).0 t)
Permitted-IsTable s via from frame now _ (answers {sender = x} k h) t =
    (refl, touch-IsTable s x now s.auth (sender_at-lookup s.idle from now s.by_key x t.0 h).0 t)

-- What happens to a relay: a datagram, the timer, or a walk over the table in another order. Moving
-- one entry to the end, as often as needed, gives every order.
pub data Next : Server → Server → Type 0 where
  arrives :
      {s : Server} (via : ℕ) (from : AddrPort) (datagram : List ℕ) (now : ℕ)
      → Next s (handle s via from datagram now).1
  expires : {s : Server} (now : ℕ) → Next s (expire s now).1
  rearranges :
      {s : Server} (k : Key) (v : Session)
      → lookup k s.by_key ≡ some v
      → Next s (record s { by_key = insert k v (delete k s.by_key) })

pub data Reached (print : AddrPort → List ℕ) (cfg : Config) : Server → Type 0 where
  starts : {s : Server} → new print cfg ≡ some s → Reached print cfg s
  goes_on : {s next : Server} → Reached print cfg s → Next s next → Reached print cfg next

expire-auth : (s : Server) (now : ℕ) → (expire s now).1.auth ≡ s.auth
unfolding expire
expire-auth s now = refl

expire-IsTable :
    (auth : Authenticator) (s : Server) (now : ℕ)
    → IsTable auth s.by_key
    → IsTable auth (expire s now).1.by_key
unfolding expire
expire-IsTable auth s now t =
    (retain-IsMap _ s.by_key t.0, λ k v e. t.1 k v (retain_origin _ s.by_key k v t.0 e))

delete-IsTable :
    (auth : Authenticator) (k : Key) (m : Assoc Key Session)
    → IsTable auth m
    → IsTable auth (delete k m)
delete-IsTable auth k m t = (delete-IsMap k m t.0, λ j v e. t.1 j v (delete_origin k m j v e))

Next-IsTable :
    (s next : Server)
    → Next s next
    → IsTable s.auth s.by_key
    → (next.auth ≡ s.auth) × IsTable s.auth next.by_key
Next-IsTable s _ (arrives via from datagram now) t =
    elim (handle-Permitted s via from datagram now) [
      | inl (why, bad, r) ↦ rw r (refl, t)
      | inr (good, p) ↦
          Permitted-IsTable s via from (parse datagram) now (handle s via from datagram now) p t
    ]
Next-IsTable s _ (expires now) t = (expire-auth s now, expire-IsTable s.auth s now t)
Next-IsTable s _ (rearranges k v h) t = (
  refl,
  insert-IsTable s.auth k v (delete k s.by_key) (t.1 k v h).0 (t.1 k v h).1
      (delete-IsTable s.auth k s.by_key t),
)

empty-IsTable : (auth : Authenticator) → IsTable auth []
unfolding lookup
empty-IsTable auth = (tt, λ k v e. absurd (cc e))

new_lem :
    (print : AddrPort → List ℕ) (cfg : Config) (auth : Authenticator) (s : Server)
    → cfg.auth ≡ some auth
    → new print cfg ≡ some s
    → (s.auth ≡ auth) × (s.by_key ≡ [])
unfolding new
new_lem print cfg auth s c h = ground arith

-- In a relay that has come from `New` by datagrams, by its timer and by walks in any order, a key
-- has one session at most, the session is under its own key, and some token grants that key on
-- the session's network; the authenticator is the configured one.
pub Reached-IsTable :
    (print : AddrPort → List ℕ) (cfg : Config) (auth : Authenticator) (s : Server)
    → cfg.auth ≡ some auth
    → Reached print cfg s
    → (s.auth ≡ auth) × IsTable auth s.by_key
Reached-IsTable print cfg auth s c (starts h) =
    let made = new_lem print cfg auth s c h in
    (made.0, subst (λ m. IsTable auth m) (sym made.1) (empty-IsTable auth))
Reached-IsTable print cfg auth s c (goes_on {s = mid} before step) =
    let earlier = Reached-IsTable print cfg auth mid c before in
    let now =
      Next-IsTable mid s step (subst (λ a. IsTable a mid.by_key) (sym earlier.0) earlier.1) in
    (now.0 ∙ earlier.0, subst (λ a. IsTable a s.by_key) earlier.0 now.1)
