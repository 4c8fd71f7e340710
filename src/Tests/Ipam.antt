-- ===== src/Tests/Ipam.antt =====
-- A pool of eight addresses, 10.0.0.0/29, with 10.0.0.1 reserved by the operator.
use meshp.Prelude.{
  ℕ, ◌+◌, ◌≡◌, ◌≢◌, ◌⊎◌, inl, refl, arith, true, false, none, some, [], List, ◌∷◌, if◌then◌else◌,
}
use meshp.Prelude.Result.{ok, err}
use meshp.Prelude.Int.{pos}
use meshp.Prelude.Equality.{equal}
use meshp.Prelude.Assoc.{lookup, retain, insert, delete}
use meshp.Netip.{Addr, addr_eq, addr_lt, unmap}
use meshp.Ipam.Allocator.{
  Allocator, Entry, exhausted, all_quarantined, cooling, allocate, allocate_specific, release,
  reclaim_at, sweep, is_allocatable, is_taken, next, allocated_by,
}
use meshp.Ipam.Pool.{InPool, IsPool}
use meshp.Ipam.Allocation.{Taken, Cooling, allocate_fresh}
use meshp.Ipam.Calls.{Call, give, pin, free, tidy, load, call, calls, Loaded, IsSane, calls-IsSane}
use meshp.Ipam.New.{PoolConfig, new_pool, reserve, built}
use meshp.Ipam.Refusal.{new_refusal}
use meshp.Ipam.Quarantine.{release_cools}

abbrev at : ℕ → Addr
at i = record { is4 = true; value = 167772160 + i }

abbrev pool : Allocator
pool = record {
  prefix = record { addr = at 0; bits = 29 };
  quarantine = 100;
  first = at 0;
  last = at 7;
  size = some 8;
  usable = some 5;
  reserved = (at 0, tt) ∷ (at 7, tt) ∷ (at 1, tt) ∷ [];
  allocated = (at 2, "ann") ∷ [];
  quarantined = (at 3, 50) ∷ [];
  cursor = at 2;
}

pool-IsPool : IsPool pool
unfolding lookup
pool-IsPool = record {
  one_family = refl;
  ordered = omega arith;
  base = refl;
  aligned = refl;
  end = refl;
  inside = (refl, omega arith, omega arith);
  cold_map = (refl, tt);
}

-- The pool once "bob" has 10.0.0.4.
abbrev after : Allocator
after = (allocate pool "bob" 20).1

gives_4 : allocate pool "bob" 20 ≡ (ok (at 4), after)
unfolding allocate sweep reclaim_at is_allocatable is_taken lookup next addr_lt retain
gives_4 = refl

allocate_fresh_example :
    InPool pool (at 4)
    × (lookup (at 4) pool.reserved ≡ none)
    × (lookup (at 4) pool.allocated ≡ none)
    × (cooling (lookup (at 4) pool.quarantined) 20 ≡ false)
    × (lookup (at 2) after.allocated
        ≡ (if equal (at 4) (at 2) then some "bob" else lookup (at 2) pool.allocated))
allocate_fresh_example = allocate_fresh pool after "bob" 20 (at 4) (at 2) pool-IsPool gives_4

-- A pool in which only the quarantined address is left.
abbrev full : Allocator
full = record pool {
  allocated = (at 2, "ann") ∷ (at 4, "bob") ∷ (at 5, "cid") ∷ (at 6, "dan") ∷ [];
}

full-IsPool : IsPool full
unfolding lookup
full-IsPool = record {
  one_family = refl;
  ordered = omega arith;
  base = refl;
  aligned = refl;
  end = refl;
  inside = (refl, omega arith, omega arith);
  cold_map = (refl, tt);
}

refuses_eve : allocate full "eve" 20 ≡ (err all_quarantined, reclaim_at full 20)
unfolding allocate sweep reclaim_at is_allocatable is_taken lookup next addr_lt retain
refuses_eve = refl

-- 10.0.0.0/30, of which two addresses are to be given out.
abbrev small : PoolConfig
small = record { prefix = record { addr = at 2; bits = 30 }; quarantine = pos 100; reserved = [] }

abbrev small_pool : Allocator
small_pool = built small (record { addr = at 0; bits = 30 }) ((at 0, tt) ∷ (at 3, tt) ∷ [])

small-new : new_pool small ≡ ok small_pool
unfolding new_pool reserve insert
small-new = refl

-- Both are given out, and one comes back.
abbrev turns : List Call
turns = give "ann" 5 ∷ give "bob" 6 ∷ free (at 1) 10 ∷ []

turned : allocate (calls small_pool turns) "eve" 20 ≡ (err all_quarantined, calls small_pool turns)
unfolding calls call allocate sweep reclaim_at is_allocatable is_taken lookup next addr_lt retain
    release unmap insert delete allocated_by
turned = refl

at_2-InPool : InPool (calls small_pool turns) (at 2)
unfolding calls call allocate sweep reclaim_at is_allocatable is_taken lookup next addr_lt retain
    release unmap insert delete allocated_by
at_2-InPool = (refl, omega arith, omega arith)

new_refusal_example :
    ((all_quarantined ≡ exhausted) × Taken (calls small_pool turns) (at 2))
    ⊎ ((all_quarantined ≡ all_quarantined)
        × (Taken (calls small_pool turns) (at 2) ⊎ Cooling (calls small_pool turns) (at 2) 20)
        × ((z : Addr) × InPool (calls small_pool turns) z × Cooling (calls small_pool turns) z 20))
new_refusal_example =
    new_refusal small small_pool (calls small_pool turns) turns "eve" 20 all_quarantined (at 2)
      small-new (omega arith) at_2-InPool turned

-- What happens before the quarantine of 10.0.0.2 ends: a client comes, and one goes.
abbrev busy : List Call
busy = give "bob" 20 ∷ pin (at 6) "cid" 30 ∷ free (at 6) 40 ∷ tidy 50 ∷ []

release_cools_example :
    ((allocate (calls (release pool (at 2) 10).1 busy) "dan" 60).0 ≢ ok (unmap (at 2)))
    × ((allocate_specific (calls (release pool (at 2) 10).1 busy) (at 2) "dan" 60).0 ≢ none)
unfolding release lookup unmap insert delete
release_cools_example =
    release_cools pool (release pool (at 2) 10).1 (at 2) busy "dan" 10 60 pool-IsPool refl
      (omega arith) (omega arith, (omega arith, (omega arith, (omega arith, tt)))) (omega arith)

new-IsSane : IsSane (record pool { allocated = [] }) (λ x. ⊥)
unfolding lookup
new-IsSane = record {
  pool = record {
    one_family = refl;
    ordered = omega arith;
    base = refl;
    aligned = refl;
    end = refl;
    inside = (refl, omega arith, omega arith);
    cold_map = (refl, tt);
  };
  owned = λ x. inl refl;
}

abbrev stored : List Entry
stored =
    record { addr = at 5; holder = "ann"; released_at = 0 }
    ∷ record { addr = at 6; holder = "bob"; released_at = 40 }
    ∷ []

abbrev history : List Call
history =
    give "ann" 5
    ∷ pin (at 6) "bob" 7
    ∷ free (at 2) 9
    ∷ tidy 60
    ∷ load stored 61
    ∷ give "cid" 62
    ∷ []

calls-IsSane_example :
    IsSane (calls (record pool { allocated = [] }) history) (λ x. ⊥ ⊎ Loaded history x)
calls-IsSane_example = calls-IsSane (λ x. ⊥) (record pool { allocated = [] }) history new-IsSane
