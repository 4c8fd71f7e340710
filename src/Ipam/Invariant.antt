-- ===== src/Ipam/Invariant.antt =====
-- Every call leaves the allocator of a pool one of the same pool.
use meshp.Prelude.{
  ℕ, ◌+◌, ◌≡◌, inl, inr, refl, Bool, Bool-cases, true, false, Option, none, some, String, ltb,
  if◌then◌else◌,
}
use meshp.Prelude.Assoc.{Assoc, IsMap, lookup, insert, delete, insert-IsMap, delete-IsMap}
use meshp.Netip.{Addr, addr_eq, unmap}
use meshp.Ipam.Allocator.{
  Allocator, IpamError, present, reclaim_at, sweep, or_cap, take_it, allocated_by, allocate,
  allocate_specific, release,
}
use meshp.Ipam.Pool.{InPool, IsPool, next-InPool}
use meshp.Ipam.Sweep.{sweep-Free}
use meshp.Ipam.Allocation.{reclaim-IsPool}

-- Only the maps differ.
remap-IsPool :
    (a : Allocator) (live : Assoc Addr String) (cold : Assoc Addr ℕ)
    → IsPool a
    → IsMap cold
    → IsPool (record a { allocated = live; quarantined = cold })
remap-IsPool a live cold v u = record {
  one_family = v.one_family;
  ordered = v.ordered;
  base = v.base;
  aligned = v.aligned;
  end = v.end;
  inside = v.inside;
  cold_map = u;
}

take_it-IsPool :
    (a : Allocator) (holder : String) (x : Addr)
    → IsPool a
    → InPool a x
    → IsPool (take_it a holder x)
take_it-IsPool a holder x v h = record {
  one_family = v.one_family;
  ordered = v.ordered;
  base = v.base;
  aligned = v.aligned;
  end = v.end;
  inside = next-InPool a x v h;
  cold_map = v.cold_map;
}

granted-IsPool :
    (a : Allocator) (holder : String) (found : Option Addr × Bool)
    → IsPool a
    → ((x : Addr) → found.0 ≡ some x → InPool a x)
    → IsPool (allocated_by a holder found).1
unfolding allocated_by
granted-IsPool a holder (some x, saw) v inside = take_it-IsPool a holder x v (inside x refl)
granted-IsPool a holder (none, true) v inside = v
granted-IsPool a holder (none, false) v inside = v

pub allocate-IsPool :
    (a : Allocator) (holder : String) (now : ℕ) → IsPool a → IsPool (allocate a holder now).1
unfolding allocate
allocate-IsPool a holder now v =
    let b = reclaim_at a now in
    let w = reclaim-IsPool a now v in
    granted-IsPool b holder (sweep b now (or_cap b.size) b.cursor false) w
      (λ x found. (sweep-Free b now w (or_cap b.size) b.cursor x false w.inside found).1)

pub release-IsPool : (a : Allocator) (addr : Addr) (t : ℕ) → IsPool a → IsPool (release a addr t).1
unfolding release
release-IsPool a addr t v = elim (Bool-cases (present (lookup (unmap addr) a.allocated))) [
  | inl held ↦ elim (Bool-cases (ltb 0 a.quarantine)) [
    | inl on ↦
        rw (held, on)
          (remap-IsPool a (delete (unmap addr) a.allocated)
            (insert (unmap addr) (t + a.quarantine) a.quarantined) v
            (insert-IsMap (unmap addr) (t + a.quarantine) a.quarantined v.cold_map))
    | inr off ↦
        rw (held, off) (remap-IsPool a (delete (unmap addr) a.allocated) a.quarantined v v.cold_map)
  ]
  | inr free ↦ rw free v
]

refuse_or :
    (b : Bool) (why : Option IpamError) (a : Allocator) (rest : Option IpamError × Allocator)
    → IsPool a
    → IsPool rest.1
    → IsPool (if b then (why, a) else rest).1
refuse_or true why a rest v w = v
refuse_or false why a rest v w = w

pub allocate_specific-IsPool :
    (a : Allocator) (addr : Addr) (holder : String) (now : ℕ)
    → IsPool a
    → IsPool (allocate_specific a addr holder now).1
unfolding allocate_specific
allocate_specific-IsPool a addr holder now v =
    let w = reclaim-IsPool a now v in
    let taken =
      remap-IsPool (reclaim_at a now) (insert (unmap addr) holder a.allocated)
        (delete (unmap addr) (reclaim_at a now).quarantined) w
        (delete-IsMap (unmap addr) (reclaim_at a now).quarantined w.cold_map) in
    search (refuse_or, w, taken)
