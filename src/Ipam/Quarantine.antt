-- ===== src/Ipam/Quarantine.antt =====
-- What `Release` does to an address, and how long it keeps it from being given out again.
use meshp.Prelude.{
  ℕ, ◌+◌, ◌<◌, ◌≡◌, ◌≢◌, ◌⊎◌, refl, arith, Bool, true, false, Option, none, some, List, [], ◌∷◌,
  All, String, ltb, if◌then◌else◌,
}
use meshp.Prelude.Result.{ok}
use meshp.Prelude.Equality.{equal, equal_refl, equal_iff}
use meshp.Prelude.Assoc.{IsMap, lookup, lookup-insert, lookup-delete, lookup-retain}
use meshp.Netip.{Addr, addr_eq, unmap}
use meshp.Ipam.Allocator.{
  Allocator, not_allocated, cooling, reclaim_at, sweep, or_cap, allocated_by, allocate,
  allocate_specific, release, holder_of,
}
use meshp.Ipam.Pool.{IsPool}
use meshp.Ipam.Sweep.{sweep-Free}
use meshp.Ipam.Allocation.{allocate_fresh, reclaim-IsPool, unclaimed}
use meshp.Ipam.Invariant.{allocate-IsPool, allocate_specific-IsPool, release-IsPool}
use meshp.Ipam.Calls.{Call, give, pin, free, tidy, load, call, calls}

-- What is quarantined after a release.
released :
    (a a' : Allocator) (addr : Addr) (t : ℕ)
    → release a addr t ≡ (none, a')
    → 0 < a.quarantine
    → (lookup (unmap addr) a'.allocated ≡ none)
      × (lookup (unmap addr) a'.quarantined ≡ some (t + a.quarantine))
unfolding release
released a a' addr t e on = ground (
  arith,
  lookup-delete (unmap addr) (unmap addr) a.allocated,
  lookup-insert (unmap addr) (unmap addr) (t + a.quarantine) a.quarantined,
  equal_refl (unmap addr),
)

-- A pinned address that is quarantined is refused.
refuses_cold :
    (a : Allocator) (x : Addr) (holder : String) (now until : ℕ)
    → IsMap a.quarantined
    → lookup (unmap x) a.quarantined ≡ some until
    → now < until
    → (allocate_specific a x holder now).0 ≢ none
unfolding allocate_specific reclaim_at
refuses_cold a x holder now until u e lt =
    ground (arith, lookup-retain (λ y i. ltb now i) (unmap x) a.quarantined u)

-- Nobody holds the address, and it is quarantined until an instant.
abbrev Resting : Allocator → Addr → ℕ → Type 0
Resting a x until = (lookup x a.allocated ≡ none) × (lookup x a.quarantined ≡ some until)

-- The call is made before an instant, and is not `Restore`, which replaces what is stored.
abbrev pub IsBefore : ℕ → Call → Type 0
IsBefore until (give holder now) = now < until
IsBefore until (pin addr holder now) = now < until
IsBefore until (free addr now) = now < until
IsBefore until (tidy now) = now < until
IsBefore until (load es now) = ⊥

gives_warm :
    (a : Allocator) (y x : Addr) (now until : ℕ)
    → lookup x a.quarantined ≡ some until
    → now < until
    → cooling (lookup y a.quarantined) now ≡ false
    → y ≢ x
gives_warm a y x now until e lt warm same =
    let read : ltb now until ≡ false = rw (same, e) at warm in ground arith

tidy-Resting :
    (a : Allocator) (x : Addr) (until now : ℕ)
    → IsPool a
    → now < until
    → Resting a x until
    → Resting (reclaim_at a now) x until
unfolding reclaim_at
tidy-Resting a x until now v lt r =
    (r.0, ground (arith, r.1, lookup-retain (λ y i. ltb now i) x a.quarantined v.cold_map))

granted-Resting :
    (a : Allocator) (holder : String) (found : Option Addr × Bool) (x : Addr) (until : ℕ)
    → Resting a x until
    → ((y : Addr) → found.0 ≡ some y → y ≢ x)
    → Resting (allocated_by a holder found).1 x until
unfolding allocated_by
granted-Resting a holder (some y, saw) x until r other =
    (ground (arith, r.0, other y refl, lookup-insert y x holder a.allocated, equal_iff y x), r.1)
granted-Resting a holder (none, true) x until r other = r
granted-Resting a holder (none, false) x until r other = r

give-Resting :
    (a : Allocator) (holder : String) (x : Addr) (until now : ℕ)
    → IsPool a
    → now < until
    → Resting a x until
    → Resting (allocate a holder now).1 x until
unfolding allocate
give-Resting a holder x until now v lt r =
    let b = reclaim_at a now in
    let w = reclaim-IsPool a now v in
    let rests = tidy-Resting a x until now v lt r in
    granted-Resting b holder (sweep b now (or_cap b.size) b.cursor false) x until rests (λ y found.
      let is_free = (sweep-Free b now w (or_cap b.size) b.cursor y false w.inside found).0 in
      gives_warm b y x now until rests.1 lt (unclaimed b y now is_free).2)

pin-Resting :
    (a : Allocator) (addr : Addr) (holder : String) (x : Addr) (until now : ℕ)
    → IsPool a
    → now < until
    → Resting a x until
    → Resting (allocate_specific a addr holder now).1 x until
unfolding allocate_specific
pin-Resting a addr holder x until now v lt r =
    let b = reclaim_at a now in
    let rests = tidy-Resting a x until now v lt r in
    ground (
      arith,
      rests.0,
      rests.1,
      lookup-insert (unmap addr) x holder b.allocated,
      lookup-delete (unmap addr) x b.quarantined,
      equal_iff (unmap addr) x,
    )

free-Resting :
    (a : Allocator) (addr x : Addr) (until now : ℕ)
    → Resting a x until
    → Resting (release a addr now).1 x until
unfolding release
free-Resting a addr x until now r = ground (
  arith,
  r.0,
  r.1,
  lookup-delete (unmap addr) x a.allocated,
  lookup-insert (unmap addr) x (now + a.quarantine) a.quarantined,
  equal_iff (unmap addr) x,
)

calls-Resting :
    (a : Allocator) (cs : List Call) (x : Addr) (until : ℕ)
    → IsPool a
    → All (IsBefore until) cs
    → Resting a x until
    → IsPool (calls a cs) × Resting (calls a cs) x until
unfolding calls call
calls-Resting a [] x until v before r = (v, r)
calls-Resting a (give holder now ∷ cs) x until v before r =
    calls-Resting (allocate a holder now).1 cs x until (allocate-IsPool a holder now v) before.1
      (give-Resting a holder x until now v before.0 r)
calls-Resting a (pin addr holder now ∷ cs) x until v before r =
    calls-Resting (allocate_specific a addr holder now).1 cs x until
      (allocate_specific-IsPool a addr holder now v) before.1
      (pin-Resting a addr holder x until now v before.0 r)
calls-Resting a (free addr now ∷ cs) x until v before r =
    calls-Resting (release a addr now).1 cs x until (release-IsPool a addr now v) before.1
      (free-Resting a addr x until now r)
calls-Resting a (tidy now ∷ cs) x until v before r =
    calls-Resting (reclaim_at a now) cs x until (reclaim-IsPool a now v) before.1
      (tidy-Resting a x until now v before.0 r)
calls-Resting a (load es now ∷ cs) x until v before r = absurd before.0

-- In an allocator of a pool with a quarantine, a released address is out of reach until its
-- quarantine ends, whatever calls but `Restore` are made until then, to whichever holders and in
-- whatever order their readings of the clock are: `Allocate` does not give it out and
-- `AllocateSpecific` refuses it.
pub release_cools :
    (a a' : Allocator) (addr : Addr) (cs : List Call) (holder : String) (t now : ℕ)
    → IsPool a
    → release a addr t ≡ (none, a')
    → 0 < a.quarantine
    → All (IsBefore (t + a.quarantine)) cs
    → now < t + a.quarantine
    → ((allocate (calls a' cs) holder now).0 ≢ ok (unmap addr))
      × ((allocate_specific (calls a' cs) addr holder now).0 ≢ none)
release_cools a a' addr cs holder t now v e on early before =
    let until = t + a.quarantine in
    let w : IsPool a' = rw e at (release-IsPool a addr t v) in
    let b = calls a' cs in
    let (pool, rests) =
      calls-Resting a' cs (unmap addr) until w early (released a a' addr t e on) in
    (
      λ given.
          let fresh =
            allocate_fresh b (allocate b holder now).1 holder now (unmap addr) addr pool
              (λ i. (given i, (allocate b holder now).1)) in
          gives_warm b (unmap addr) (unmap addr) now until rests.1 before fresh.3 refl,
      refuses_cold b addr holder now until pool.cold_map rests.1 before,
    )

-- `Release` refuses exactly the addresses that nobody holds, and then changes nothing; otherwise
-- that address loses its holder and every other keeps its own.
pub release_lem :
    (a : Allocator) (addr other : Addr) (t : ℕ)
    → ((holder_of a addr ≡ none) × (release a addr t ≡ (some not_allocated, a)))
      ⊎ ((holder_of a addr ≢ none)
          × ((release a addr t).0 ≡ none)
          × (holder_of (release a addr t).1 other
              ≡ (if equal (unmap addr) (unmap other) then none else holder_of a other)))
unfolding release holder_of
release_lem a addr other t = ground (arith, lookup-delete (unmap addr) (unmap other) a.allocated)
