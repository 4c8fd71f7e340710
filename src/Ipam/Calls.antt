-- ===== src/Ipam/Calls.antt =====
-- Any sequence of calls of an allocator, each with the clock's reading.
use meshp.Prelude.{
  ℕ, ◌≡◌, ◌⊎◌, inl, inr, refl, arith, Bool, true, false, Option, none, some, List, [], ◌∷◌, String,
}
use meshp.Prelude.Equality.{equal_iff}
use meshp.Prelude.Assoc.{lookup, lookup-insert, lookup-delete}
use meshp.Netip.{Addr, addr_eq, unmap}
use meshp.Ipam.Allocator.{
  Allocator, Entry, reclaim_at, sweep, or_cap, take_it, allocated_by, allocate, allocate_specific,
  release, restore,
}
use meshp.Ipam.Pool.{InPool, IsPool, contains-InPool}
use meshp.Ipam.Allocation.{reclaim-IsPool, unclaimed}
use meshp.Ipam.Sweep.{sweep-Free}
use meshp.Ipam.Invariant.{allocate-IsPool, allocate_specific-IsPool, release-IsPool}
use meshp.Ipam.Loading.{Listed, restore-cases}

pub data Call : Type 0 where
  give : String → ℕ → Call
  pin : Addr → String → ℕ → Call
  free : Addr → ℕ → Call
  tidy : ℕ → Call
  load : List Entry → ℕ → Call

unfoldable pub call : Allocator → Call → Allocator
call a (give holder now) = (allocate a holder now).1
call a (pin addr holder now) = (allocate_specific a addr holder now).1
call a (free addr now) = (release a addr now).1
call a (tidy now) = reclaim_at a now
call a (load es now) = (restore a es now).1

unfoldable pub calls : Allocator → List Call → Allocator
calls a [] = a
calls a (c ∷ cs) = calls (call a c) cs

-- A `Restore` among the calls reads an entry that names the address as live.
abbrev pub Loaded : List Call → Addr → Type 0
Loaded [] x = ⊥
Loaded (load es now ∷ cs) x = Listed es x ⊎ Loaded cs x
Loaded (give holder now ∷ cs) x = Loaded cs x
Loaded (pin addr holder now ∷ cs) x = Loaded cs x
Loaded (free addr now ∷ cs) x = Loaded cs x
Loaded (tidy now ∷ cs) x = Loaded cs x

-- Where somebody holds an address, it is one of the prefix, and is not reserved or was read.
abbrev pub Owned : Allocator → (Addr → Type 0) → Addr → Type 0
Owned a Read x =
    (lookup x a.allocated ≡ none) ⊎ (InPool a x × ((lookup x a.reserved ≡ none) ⊎ Read x))

-- A pool in which every address that is held may be.
pub record IsSane (a : Allocator) (Read : Addr → Type 0) : Type 0 where
  pub pool : IsPool a
  pub owned : (x : Addr) → Owned a Read x

module _ (Read : Addr → Type 0) where
  pin-Owned :
      (a : Allocator) (addr x : Addr) (holder : String) (now : ℕ)
      → IsSane a Read
      → Owned (allocate_specific a addr holder now).1 Read x
  unfolding allocate_specific reclaim_at
  pin-Owned a addr x holder now s = ground (
    arith,
    lookup-insert (unmap addr) x holder a.allocated,
    s.owned x,
    contains-InPool a (unmap addr) s.pool,
    equal_iff (unmap addr) x,
  )

  free-Owned :
      (a : Allocator) (addr x : Addr) (now : ℕ)
      → IsSane a Read
      → Owned (release a addr now).1 Read x
  unfolding release
  free-Owned a addr x now s = ground (arith, lookup-delete (unmap addr) x a.allocated, s.owned x)

  taken-Owned :
      (a : Allocator) (holder : String) (x y : Addr)
      → Owned a Read x
      → InPool a y
      → lookup y a.reserved ≡ none
      → Owned (take_it a holder y) Read x
  taken-Owned a holder x y own inside r =
      ground (arith, lookup-insert y x holder a.allocated, equal_iff y x)

  granted-Owned :
      (a : Allocator) (holder : String) (found : Option Addr × Bool) (x : Addr)
      → Owned a Read x
      → ((y : Addr) → found.0 ≡ some y → InPool a y × (lookup y a.reserved ≡ none))
      → Owned (allocated_by a holder found).1 Read x
  unfolding allocated_by
  granted-Owned a holder (some y, saw) x own may =
      taken-Owned a holder x y own (may y refl).0 (may y refl).1
  granted-Owned a holder (none, true) x own may = own
  granted-Owned a holder (none, false) x own may = own

  give-Owned :
      (a : Allocator) (holder : String) (now : ℕ) (x : Addr)
      → IsSane a Read
      → Owned (allocate a holder now).1 Read x
  unfolding allocate reclaim_at
  give-Owned a holder now x s =
      let b = reclaim_at a now in
      let w = reclaim-IsPool a now s.pool in
      granted-Owned b holder (sweep b now (or_cap b.size) b.cursor false) x (s.owned x) (λ y found.
        let (is_free, inside) =
          sweep-Free b now w (or_cap b.size) b.cursor y false w.inside found in
        (inside, (unclaimed b y now is_free).0))

  widened :
      (a : Allocator) (More : Addr → Type 0)
      → ((x : Addr) → Read x → More x)
      → IsSane a Read
      → IsSane a More
  widened a More more s = record {
    pool = s.pool;
    owned = λ x. elim (s.owned x) [
      | inl nobody ↦ inl nobody
      | inr (inside, inl clear) ↦ inr (inside, inl clear)
      | inr (inside, inr named) ↦ inr (inside, inr (more x named))
    ];
  }

  load-IsSane :
      (a : Allocator) (es : List Entry) (now : ℕ)
      → IsSane a Read
      → IsSane (restore a es now).1 (λ x. Read x ⊎ Listed es x)
  load-IsSane a es now s = elim (restore-cases a es now s.pool) [
    | inl same ↦ rw same (widened a (λ x. Read x ⊎ Listed es x) (λ x named. inl named) s)
    | inr (pool, holders) ↦ record {
      pool = pool;
      owned = λ x. elim (holders x) [
        | inl nobody ↦ inl nobody
        | inr (inside, listed) ↦ inr (inside, inr (inr listed))
      ];
    }
  ]

-- From an allocator of a pool in which whoever holds an address holds one of the prefix that is
-- not reserved, or one of `Read`, every sequence of calls, those of `Restore` included, leads to
-- another one, in which an entry that a `Restore` read as live may be held as well: the bounds, the
-- cursor and the quarantine stay those of a pool, and every address that is held is one of the
-- prefix, which is not reserved unless it is one of `Read` or was restored from such an entry.
pub calls-IsSane :
    (Read : Addr → Type 0) (a : Allocator) (cs : List Call)
    → IsSane a Read
    → IsSane (calls a cs) (λ x. Read x ⊎ Loaded cs x)
unfolding calls call
calls-IsSane Read a [] s = widened Read a (λ x. Read x ⊎ ⊥) (λ x named. inl named) s
calls-IsSane Read a (give holder now ∷ cs) s =
    calls-IsSane Read (allocate a holder now).1 cs (record {
      pool = allocate-IsPool a holder now s.pool;
      owned = λ x. give-Owned Read a holder now x s;
    })
calls-IsSane Read a (pin addr holder now ∷ cs) s =
    calls-IsSane Read (allocate_specific a addr holder now).1 cs (record {
      pool = allocate_specific-IsPool a addr holder now s.pool;
      owned = λ x. pin-Owned Read a addr x holder now s;
    })
calls-IsSane Read a (free addr now ∷ cs) s = calls-IsSane Read (release a addr now).1 cs (record {
  pool = release-IsPool a addr now s.pool;
  owned = λ x. free-Owned Read a addr x now s;
})
calls-IsSane Read a (tidy now ∷ cs) s =
    calls-IsSane Read (reclaim_at a now) cs
      (record { pool = reclaim-IsPool a now s.pool; owned = λ x. unfold reclaim_at in s.owned x })
calls-IsSane Read a (load es now ∷ cs) s =
    widened (λ x. (Read x ⊎ Listed es x) ⊎ Loaded cs x) (calls (restore a es now).1 cs)
      (λ x. Read x ⊎ (Listed es x ⊎ Loaded cs x))
      (λ x named. elim named [
        | inl (inl before) ↦ inl before
        | inl (inr listed) ↦ inr (inl listed)
        | inr later ↦ inr (inr later)
      ])
      (calls-IsSane (λ x. Read x ⊎ Listed es x) (restore a es now).1 cs
        (load-IsSane Read a es now s))
