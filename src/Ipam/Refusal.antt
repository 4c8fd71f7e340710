-- ===== src/Ipam/Refusal.antt =====
-- The errors of `Allocate` in a pool that `New` has built, after any calls.
use meshp.Prelude.{
  ◌<◌, ◌≡◌, ◌⊎◌, inl, inr, refl, sym, ap, ◌∙◌, arith, ℕ, Bool, true, false, Option, none, some,
  List, [], ◌∷◌, String, ltb,
}
use meshp.Prelude.Result.{ok, err, Result-cases}
use meshp.Prelude.Assoc.{lookup}
use meshp.Netip.{Addr, Prefix, addr_eq, span}
use meshp.Ipam.Allocator.{
  Allocator, Entry, IpamError, exhausted, all_quarantined, reclaim_at, sweep, or_cap, allocated_by,
  allocate, allocate_specific, release, restore, restored, read_entries,
}
use meshp.Ipam.Pool.{InPool}
use meshp.Ipam.Allocation.{Taken, Cooling, allocate_refusal}
use meshp.Ipam.Calls.{Call, give, pin, free, tidy, load, call, calls, IsSane, calls-IsSane}
use meshp.Ipam.New.{PoolConfig, new_pool, host_bits, count_addrs, new_pool-built, new_pool-IsPool}

-- The prefix and the size are the same.
abbrev Same : Allocator → Allocator → Type 0
Same a b = (b.size ≡ a.size) × (b.prefix ≡ a.prefix)

granted-Same :
    (a : Allocator) (holder : String) (found : Option Addr × Bool)
    → Same a (allocated_by a holder found).1
unfolding allocated_by
granted-Same a holder (some x, saw) = (refl, refl)
granted-Same a holder (none, true) = (refl, refl)
granted-Same a holder (none, false) = (refl, refl)

give-Same : (a : Allocator) (holder : String) (now : ℕ) → Same a (allocate a holder now).1
unfolding allocate reclaim_at
give-Same a holder now =
    let b = reclaim_at a now in granted-Same b holder (sweep b now (or_cap b.size) b.cursor false)

pin-Same :
    (a : Allocator) (addr : Addr) (holder : String) (now : ℕ)
    → Same a (allocate_specific a addr holder now).1
unfolding allocate_specific reclaim_at
pin-Same a addr holder now = ground arith

free-Same : (a : Allocator) (addr : Addr) (now : ℕ) → Same a (release a addr now).1
unfolding release
free-Same a addr now = ground arith

load-Same : (a : Allocator) (es : List Entry) (now : ℕ) → Same a (restore a es now).1
unfolding restore restored reclaim_at
load-Same a es now = elim (Result-cases (read_entries a es [] [])) [
  | inl (why, e) ↦ rw (restore, e) (refl, refl)
  | inr (maps, e) ↦ rw (restore, e) (refl, refl)
]

call-Same : (a : Allocator) (c : Call) → Same a (call a c)
unfolding call
call-Same a (give holder now) = give-Same a holder now
call-Same a (pin addr holder now) = pin-Same a addr holder now
call-Same a (free addr now) = free-Same a addr now
call-Same a (tidy now) = unfold reclaim_at in (refl, refl)
call-Same a (load es now) = load-Same a es now

calls-Same : (a : Allocator) (cs : List Call) → Same a (calls a cs)
unfolding calls
calls-Same a [] = (refl, refl)
calls-Same a (c ∷ cs) =
    let one = call-Same a c in
    let rest = calls-Same (call a c) cs in (rest.0 ∙ one.0, rest.1 ∙ one.1)

new_pool-IsSane : (cfg : PoolConfig) (a : Allocator) → new_pool cfg ≡ ok a → IsSane a (λ x. ⊥)
unfolding lookup
new_pool-IsSane cfg a h =
    let (kept, made) = new_pool-built cfg a h in
    record { pool = (new_pool-IsPool cfg a h).0; owned = λ x. inl (rw made refl) }

counted :
    (size : Option ℕ) (p : Prefix)
    → host_bits p < 63
    → size ≡ count_addrs (host_bits p)
    → size ≡ some (span p)
counted size p few e = let fits : ltb (host_bits p) 63 ≡ true = ground arith in e ∙ rw fits refl

-- In an allocator that `New` has built for a prefix of fewer than 63 bits for hosts, whatever calls
-- were made of it, an error of `Allocate` is the truth: every address of the prefix is reserved or
-- held when it says that the pool is exhausted; when it says that all are quarantined, each is
-- reserved, held or quarantined, and one is quarantined indeed.
pub new_refusal :
    (cfg : PoolConfig) (a a' : Allocator) (cs : List Call) (holder : String) (now : ℕ)
    (why : IpamError) (y : Addr)
    → new_pool cfg ≡ ok a
    → host_bits a.prefix < 63
    → InPool (calls a cs) y
    → allocate (calls a cs) holder now ≡ (err why, a')
    → ((why ≡ exhausted) × Taken (calls a cs) y)
      ⊎ ((why ≡ all_quarantined)
          × (Taken (calls a cs) y ⊎ Cooling (calls a cs) y now)
          × ((z : Addr) × InPool (calls a cs) z × Cooling (calls a cs) z now))
new_refusal cfg a a' cs holder now why y h few inside e =
    let pool = (calls-IsSane (λ x. ⊥) a cs (new_pool-IsSane cfg a h)).pool in
    let (sized, same) = calls-Same a cs in
    let size = counted a.size a.prefix few (new_pool-IsPool cfg a h).1 in
    allocate_refusal (calls a cs) a' holder now why y pool
      (sized ∙ (size ∙ ap (λ p. some (span p)) (sym same))) inside e
