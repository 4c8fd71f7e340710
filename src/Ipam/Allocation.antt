-- ===== src/Ipam/Allocation.antt =====
-- What `Allocate` hands out, and what its two errors mean.
use meshp.Prelude.{
  ℕ, ◌+◌, ◌≤◌, ◌<◌, ◌≡◌, ◌≢◌, ◌⊎◌, inl, inr, refl, arith, Bool, Bool-cases, true, false, Option,
  none, some, String, if◌then◌else◌, ltb,
}
use meshp.Prelude.Result.{ok, err}
use meshp.Prelude.Equality.{equal}
use meshp.Prelude.Assoc.{IsMap, lookup, lookup-insert, lookup-retain, retain-IsMap}
use meshp.Netip.{Addr, addr_eq, span}
use meshp.Ipam.Allocator.{
  Allocator, IpamError, exhausted, all_quarantined, cooling, is_taken, is_allocatable, reclaim_at,
  sweep, take_it, allocate, allocated_by, or_cap,
}
use meshp.Ipam.Pool.{InPool, IsPool}
use meshp.Ipam.Sweep.{Free, Busy, Passed, sweep-Free, sweep-none, sweep_cold}

-- Reserved by the pool, or held by somebody.
abbrev pub Taken : Allocator → Addr → Type 0
Taken a x = (lookup x a.reserved ≢ none) ⊎ (lookup x a.allocated ≢ none)

-- Released, and not yet for long enough.
abbrev pub Cooling : Allocator → Addr → ℕ → Type 0
Cooling a x now = (until : ℕ) × (lookup x a.quarantined ≡ some until) × (now < until)

pub lookup-reclaim :
    (a : Allocator) (x : Addr) (now : ℕ)
    → IsMap a.quarantined
    → lookup x (reclaim_at a now).quarantined
      ≡ (if cooling (lookup x a.quarantined) now then lookup x a.quarantined else none)
unfolding reclaim_at
lookup-reclaim a x now u =
    ground (arith, lookup-retain (λ y until. ltb now until) x a.quarantined u)

pub reclaim-IsPool : (a : Allocator) (now : ℕ) → IsPool a → IsPool (reclaim_at a now)
unfolding reclaim_at
reclaim-IsPool a now v = record {
  one_family = v.one_family;
  ordered = v.ordered;
  base = v.base;
  aligned = v.aligned;
  end = v.end;
  inside = v.inside;
  cold_map = retain-IsMap (λ x until. ltb now until) a.quarantined v.cold_map;
}

-- Reclaiming frees only what may be given out anyway.
is_allocatable-reclaim :
    (a : Allocator) (x : Addr) (now : ℕ)
    → IsMap a.quarantined
    → is_allocatable (reclaim_at a now) x now ≡ is_allocatable a x now
unfolding is_allocatable is_taken reclaim_at
is_allocatable-reclaim a x now u =
    ground (arith, lookup-retain (λ y until. ltb now until) x a.quarantined u)

pub unclaimed :
    (a : Allocator) (x : Addr) (now : ℕ)
    → Free a now x
    → (lookup x a.reserved ≡ none)
      × (lookup x a.allocated ≡ none)
      × (cooling (lookup x a.quarantined) now ≡ false)
unfolding is_allocatable is_taken
unclaimed a x now f = ground arith

claimed :
    (a : Allocator) (x : Addr) (now : ℕ)
    → Busy a now x
    → (is_allocatable a x now).1 ≡ false
    → Taken a x
unfolding is_allocatable is_taken
claimed a x now b w = ground arith

held_back :
    (a : Allocator) (x : Addr) (now : ℕ) → (is_allocatable a x now).1 ≡ true → Cooling a x now
unfolding is_allocatable is_taken
held_back a x now c = ground arith

-- One reading of the two results of a sweep.
given :
    (a : Allocator) (holder : String) (found : Option Addr × Bool) (x : Addr) (a' : Allocator)
    → allocated_by a holder found ≡ (ok x, a')
    → (found.0 ≡ some x) × (a' ≡ take_it a holder x)
unfolding allocated_by
given a holder (some y, saw) x a' e = (cc, cc)
given a holder (none, true) x a' e = absurd (cc)
given a holder (none, false) x a' e = absurd (cc)

refused :
    (a : Allocator) (holder : String) (found : Option Addr × Bool) (why : IpamError)
    (a' : Allocator)
    → allocated_by a holder found ≡ (err why, a')
    → ((found ≡ (none, true)) × (why ≡ all_quarantined))
      ⊎ ((found ≡ (none, false)) × (why ≡ exhausted))
unfolding allocated_by
refused a holder (some y, saw) why a' e = absurd (cc)
refused a holder (none, true) why a' e = inl (refl, cc)
refused a holder (none, false) why a' e = inr (refl, cc)

-- In an allocator of a pool, an address that `Allocate` hands out is one of the prefix that is
-- neither reserved, nor held by anyone, nor quarantined for any longer; it then belongs to the
-- holder who asked, and no other allocation is touched.
pub allocate_fresh :
    (a a' : Allocator) (holder : String) (now : ℕ) (x j : Addr)
    → IsPool a
    → allocate a holder now ≡ (ok x, a')
    → InPool a x
      × (lookup x a.reserved ≡ none)
      × (lookup x a.allocated ≡ none)
      × (cooling (lookup x a.quarantined) now ≡ false)
      × (lookup j a'.allocated ≡ (if equal x j then some holder else lookup j a.allocated))
unfolding allocate reclaim_at
allocate_fresh a a' holder now x j v e =
    let b = reclaim_at a now in
    let (found, after) = given b holder (sweep b now (or_cap b.size) b.cursor false) x a' e in
    let w = reclaim-IsPool a now v in
    let (free, inside) = sweep-Free b now w (or_cap b.size) b.cursor x false w.inside found in
    let (r, l, c) = unclaimed a x now (rw (← is_allocatable-reclaim a x now v.cold_map) free) in
    (inside, r, l, c, rw (after, lookup-insert x j holder a.allocated))

module _ (a : Allocator) (now : ℕ) (v : IsPool a) where
  claimed_or_held_back : (y : Addr) → Busy (reclaim_at a now) now y → Taken a y ⊎ Cooling a y now
  claimed_or_held_back y busy =
      let same = is_allocatable-reclaim a y now v.cold_map in
      elim (Bool-cases (is_allocatable a y now).1) [
        | inl cold ↦ inr (held_back a y now cold)
        | inr warm ↦ inl (claimed a y now (rw same at busy) warm)
      ]

  -- The steps that the size allows pass every address of the prefix.
  enough_steps : a.size ≡ some (span a.prefix) → a.last.value + 1 ≤ a.first.value + or_cap a.size
  enough_steps size = rw size (omega (arith, v.end))

  a_cold_one :
      sweep (reclaim_at a now) now (or_cap a.size) a.cursor false ≡ (none, true)
      → (z : Addr) × InPool a z × Cooling a z now
  unfolding reclaim_at
  a_cold_one swept =
      let b = reclaim_at a now in
      elim (sweep_cold b now (reclaim-IsPool a now v) (or_cap a.size) a.cursor false v.inside
        swept) [
          | inl never ↦ absurd (cc never)
          | inr (z, inside, cold) ↦ (
            z,
            inside,
            held_back a z now (rw (is_allocatable-reclaim a z now v.cold_map) at cold),
          )
        ]

  warm_only : (y : Addr) → Passed (reclaim_at a now) now y false → Taken a y
  warm_only y (busy, whether) =
      let same = is_allocatable-reclaim a y now v.cold_map in
      elim whether [
        | inl never ↦ absurd (cc never)
        | inr warm ↦ claimed a y now (rw same at busy) (rw same at warm)
      ]

-- In an allocator of a pool that holds the size of its prefix, an error of `Allocate` is the
-- truth: every address of the prefix is reserved or held when it says that the pool is exhausted;
-- when it says that all are quarantined, each is reserved, held or quarantined, and one is
-- quarantined indeed.
pub allocate_refusal :
    (a a' : Allocator) (holder : String) (now : ℕ) (why : IpamError) (y : Addr)
    → IsPool a
    → a.size ≡ some (span a.prefix)
    → InPool a y
    → allocate a holder now ≡ (err why, a')
    → ((why ≡ exhausted) × Taken a y)
      ⊎ ((why ≡ all_quarantined)
          × (Taken a y ⊎ Cooling a y now)
          × ((z : Addr) × InPool a z × Cooling a z now))
unfolding allocate reclaim_at
allocate_refusal a a' holder now why y v size inside e =
    let b = reclaim_at a now in
    let w = reclaim-IsPool a now v in
    let enough = enough_steps a now v size in
    elim (refused b holder (sweep b now (or_cap b.size) b.cursor false) why a' e) [
      | inl (swept, is) ↦
          let (busy, whether) =
            sweep-none b now w (or_cap b.size) b.cursor y false true w.inside inside swept enough in
          inr (is, claimed_or_held_back a now v y busy, a_cold_one a now v swept)
      | inr (swept, is) ↦ inl (
        is,
        warm_only a now v y (
            sweep-none b now w (or_cap b.size) b.cursor y false false w.inside inside swept enough),
      )
    ]
