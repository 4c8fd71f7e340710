-- ===== src/Ipam/Allocator.antt =====
-- internal/ipam/ipam.go: `Allocator` and its methods, each of which holds the lock for its whole
-- length and is given the clock's reading. Instants and durations are nanoseconds, the instant 0
-- is Go's zero time, and a quarantine of 0 is one that is switched off.
use meshp.Prelude.{
  ℕ, zero, suc, ◌+◌, ◌-◌, ◌^◌, Bool, true, false, not, ◌||◌, Option, none, some, List, [], ◌∷◌, map,
  String, ltb, ◌==◌, if◌then◌else◌, length,
}
use mathlib.Core.Option
use meshp.Prelude.Int.{ℤ, sub_ℕ}
use meshp.Prelude.Result.{Result, ok, err}
use meshp.Prelude.Assoc.{Assoc, lookup, insert, delete, retain}
use meshp.Prelude.Order.{sort_by, entry_before}
use meshp.Netip.{Addr, Prefix, addr_eq, addr_lt, unmap, next_addr, contains}

pub data IpamError : Type 0 where
  exhausted all_quarantined out_of_range already_allocated not_allocated reserved quarantined :
      IpamError

pub record Entry : Type 0 where
  pub addr : Addr
  pub holder : String
  pub released_at : ℕ  -- 0 for an active allocation

pub record Allocator : Type 0 where
  pub prefix : Prefix
  pub quarantine : ℕ
  pub first : Addr
  pub last : Addr
  pub size : Option ℕ  -- none for the -1 of a prefix that is too large to count
  pub usable : Option ℕ
  pub reserved : Assoc Addr (Unit {0})
  pub allocated : Assoc Addr String
  pub quarantined : Assoc Addr ℕ  -- the instant at which it becomes free
  pub cursor : Addr

abbrev pub present {ℓ} : {V : Type ℓ} → Option V → Bool
present none = false
present (some v) = true

-- `until, ok := a.quarantined[addr]; ok && now.Before(until)`
abbrev pub cooling : Option ℕ → ℕ → Bool
cooling none now = false
cooling (some until) now = ltb now until

unfoldable pub reclaim_at : Allocator → ℕ → Allocator
reclaim_at a now = record a { quarantined = retain (λ x until. ltb now until) a.quarantined }

-- The allocator, and how many addresses became free.
unfoldable pub reclaim : Allocator → ℕ → Allocator × ℕ
unfolding reclaim_at
reclaim a now = (reclaim_at a now, length a.quarantined - length (reclaim_at a now).quarantined)

-- One address on, from the end of the prefix back to its start.
unfoldable pub next : Allocator → Addr → Addr
next a x = if addr_lt x a.last then next_addr x else a.first

unfoldable pub is_taken : Allocator → Addr → Bool
is_taken a x = present (lookup x a.reserved) || present (lookup x a.allocated)

-- `isAllocatableLocked`, and whether it saw a quarantined address.
unfoldable pub is_allocatable : Allocator → Addr → ℕ → Bool × Bool
unfolding is_taken
is_allocatable a x now =
    if is_taken a x
    then (false, false)
    else if cooling (lookup x a.quarantined) now
    then (false, true)
    else (true, false)

-- The loop of `Allocate`, over the steps that are left.
unfoldable pub sweep : Allocator → ℕ → ℕ → Addr → Bool → Option Addr × Bool
sweep a now zero x saw = (none, saw)
sweep a now (suc steps) x saw =
    let (free, seen) = is_allocatable a x now in
    let rest = sweep a now steps (next a x) (saw || seen) in if free then (some x, saw) else rest

abbrev pub or_cap : Option ℕ → ℕ
or_cap none = 2 ^ 20
or_cap (some n) = n

abbrev pub take_it : Allocator → String → Addr → Allocator
take_it a holder x = record a { allocated = insert x holder a.allocated; cursor = next a x }

unfoldable pub allocated_by :
    Allocator → String → Option Addr × Bool → Result IpamError Addr × Allocator
allocated_by a holder (some x, saw) = (ok x, take_it a holder x)
allocated_by a holder (none, true) = (err all_quarantined, a)
allocated_by a holder (none, false) = (err exhausted, a)

unfoldable pub allocate : Allocator → String → ℕ → Result IpamError Addr × Allocator
unfolding allocated_by
allocate a holder now =
    let a' = reclaim_at a now in
    allocated_by a' holder (sweep a' now (or_cap a'.size) a'.cursor false)

unfoldable pub allocate_specific : Allocator → Addr → String → ℕ → Option IpamError × Allocator
unfolding reclaim_at
allocate_specific a addr holder now =
    let x = unmap addr in
    let a' = reclaim_at a now in
    if not (contains a'.prefix x)
    then (some out_of_range, a')
    else if present (lookup x a'.reserved)
    then (some reserved, a')
    else if present (lookup x a'.allocated)
    then (some already_allocated, a')
    else if cooling (lookup x a'.quarantined) now
    then (some quarantined, a')
    else (
      none,
      record a' { quarantined = delete x a'.quarantined; allocated = insert x holder a'.allocated },
    )

unfoldable pub release : Allocator → Addr → ℕ → Option IpamError × Allocator
release a addr now =
    let x = unmap addr in
    if present (lookup x a.allocated)
    then (
      none,
      record a {
        allocated = delete x a.allocated;
        quarantined =
            if ltb 0 a.quarantine
            then insert x (now + a.quarantine) a.quarantined
            else a.quarantined;
      },
    )
    else (some not_allocated, a)

unfoldable pub holder_of : Allocator → Addr → Option String
holder_of a addr = lookup (unmap addr) a.allocated

-- The loop of `Restore` over the entries, with the two maps that it builds.
unfoldable pub read_entries :
    Allocator
    → List Entry
    → Assoc Addr String
    → Assoc Addr ℕ
    → Result IpamError (Assoc Addr String × Assoc Addr ℕ)
read_entries a [] live cold = ok (live, cold)
read_entries a (e ∷ es) live cold =
    let x = unmap e.addr in
    let live' = if e.released_at == 0 then insert x e.holder live else live in
    let cold' =
      if e.released_at == 0
      then cold
      else if ltb 0 a.quarantine
      then insert x (e.released_at + a.quarantine) cold
      else cold in
    let rest = read_entries a es live' cold' in
    if contains a.prefix x then rest else err out_of_range

-- The highest of the live addresses, if there is one.
unfoldable pub highest : Assoc Addr String → Option Addr → Option Addr
highest [] best = best
highest ((x, holder) ∷ m) none = highest m (some x)
highest ((x, holder) ∷ m) (some best) = highest m (some (if addr_lt best x then x else best))

abbrev pub resume : Allocator → Option Addr → Addr
resume a none = a.first
resume a (some x) = next a x

unfoldable pub restored :
    Allocator
    → ℕ
    → Result IpamError (Assoc Addr String × Assoc Addr ℕ)
    → Option IpamError × Allocator
restored a now (err e) = (some e, a)
restored a now (ok (live, cold)) = (
  none,
  reclaim_at
      (record a { allocated = live; quarantined = cold; cursor = resume a (highest live none) })
      now,
)

unfoldable pub restore : Allocator → List Entry → ℕ → Option IpamError × Allocator
unfolding restored
restore a entries now = restored a now (read_entries a entries [] [])

-- The live allocations in the order of their addresses.
unfoldable pub snapshot : Allocator → List Entry
snapshot a =
    map (λ x. record { addr = x.0; holder = x.1; released_at = 0 })
      (sort_by (entry_before addr_lt) a.allocated)

pub record Stats : Type 0 where
  pub allocated : ℕ
  pub quarantined : ℕ
  pub usable : Option ℕ
  pub free : Option ℤ  -- none for -1

unfoldable pub stats : Allocator → ℕ → Stats
unfolding reclaim_at
stats a now =
    let cold = length (reclaim_at a now).quarantined in
    record {
      allocated = length a.allocated;
      quarantined = cold;
      usable = a.usable;
      free = Option.map (λ n. sub_ℕ n (length a.allocated + cold)) a.usable;
    }
