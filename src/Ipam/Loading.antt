-- ===== src/Ipam/Loading.antt =====
-- That `Restore` leaves the allocator of a pool one of the same pool, and whom it leaves holding.
use meshp.Prelude.{
  ℕ, ◌+◌, ◌≡◌, ◌⊎◌, inl, inr, refl, arith, Bool-cases, ◌==◌, Option, none, some, List, [], ◌∷◌,
  String, All, ltb, if◌then◌else◌, Option-cases,
}
use meshp.Prelude.Result.{ok, Result-cases}
use meshp.Prelude.Equality.{equal, equal_iff}
use meshp.Prelude.Assoc.{Assoc, IsMap, lookup, insert, lookup-insert, insert-IsMap}
use meshp.Netip.{Addr, addr_eq, addr_lt, unmap, contains}
use meshp.Ipam.Allocator.{
  Allocator, Entry, read_entries, restore, restored, reclaim_at, highest, resume,
}
use meshp.Ipam.Pool.{InPool, IsPool, next-InPool, contains-InPool}
use meshp.Ipam.Allocation.{reclaim-IsPool}

-- An entry of the list names the address as live.
abbrev pub Listed : List Entry → Addr → Type 0
Listed [] x = ⊥
Listed (e ∷ es) x = ((e.released_at ≡ 0) × (unmap e.addr ≡ x)) ⊎ Listed es x

-- Every key of a map of holders lies in the pool.
abbrev Inside : Allocator → Assoc Addr String → Type 0
Inside a m = All (λ e. InPool a e.0) m

insert-Inside :
    (a : Allocator) (x : Addr) (holder : String) (m : Assoc Addr String)
    → InPool a x
    → Inside a m
    → Inside a (insert x holder m)
unfolding insert
insert-Inside a x holder [] h i = (h, tt)
insert-Inside a x holder ((k, v) ∷ m) h i = elim (Bool-cases (equal k x)) [
  | inl same ↦ rw same i
  | inr other ↦ rw other (i.0, insert-Inside a x holder m h i.1)
]

-- What the loop over the entries makes: maps of the pool, with holders from the list.
record IsRead (a : Allocator) (es : List Entry) (live : Assoc Addr String)
    (out : Assoc Addr String × Assoc Addr ℕ) : Type 0 where
  pub inside : Inside a out.0
  pub cold_map : IsMap out.1
  pub holders : (x : Addr) → (lookup x out.0 ≡ lookup x live) ⊎ Listed es x

read_entries-IsRead :
    (a : Allocator) (es : List Entry) (live : Assoc Addr String) (cold : Assoc Addr ℕ)
    (out : Assoc Addr String × Assoc Addr ℕ)
    → IsPool a
    → Inside a live
    → IsMap cold
    → read_entries a es live cold ≡ ok out
    → IsRead a es live out
unfolding read_entries
read_entries-IsRead a [] live cold out v i u e =
    let same : (live, cold) ≡ out = cc e in
    rw (← same) (record { inside = i; cold_map = u; holders = λ x. inl refl })
read_entries-IsRead a (e ∷ es) live cold out v i u h =
    elim (Bool-cases (contains a.prefix (unmap e.addr))) [
      | inr away ↦ absurd (ground (arith, away, h))
      | inl inside ↦ elim (Bool-cases (e.released_at == 0)) [
        | inl now_live ↦
            let r =
              read_entries-IsRead a es (insert (unmap e.addr) e.holder live) cold out v
                (insert-Inside a (unmap e.addr) e.holder live
                  (contains-InPool a (unmap e.addr) v inside) i)
                u (rw (inside, now_live) at h) in
            record {
              inside = r.inside;
              cold_map = r.cold_map;
              holders = λ x. ground (
                arith,
                r.holders x,
                lookup-insert (unmap e.addr) x e.holder live,
                equal_iff (unmap e.addr) x,
              );
            }
        | inr past ↦
            let cold' =
              if ltb 0 a.quarantine
              then insert (unmap e.addr) (e.released_at + a.quarantine) cold
              else cold in
            let w : IsMap cold' = elim (Bool-cases (ltb 0 a.quarantine)) [
              | inl on ↦ rw on (insert-IsMap (unmap e.addr) (e.released_at + a.quarantine) cold u)
              | inr off ↦ rw off u
            ] in
            let r = read_entries-IsRead a es live cold' out v i w (rw (inside, past) at h) in
            record {
              inside = r.inside;
              cold_map = r.cold_map;
              holders = λ x. elim (r.holders x) [ inl same ↦ inl same | inr l ↦ inr (inr l) ];
            }
      ]
    ]

highest-InPool :
    (a : Allocator) (m : Assoc Addr String) (best : Option Addr) (x : Addr)
    → Inside a m
    → ((y : Addr) → best ≡ some y → InPool a y)
    → highest m best ≡ some x
    → InPool a x
unfolding highest
highest-InPool a [] best x i h e = h x e
highest-InPool a ((k, v) ∷ m) none x i h e =
    highest-InPool a m (some k) x i.1 (λ y s. let same : k ≡ y = cc s in rw (← same) i.0) e
highest-InPool a ((k, v) ∷ m) (some b) x i h e =
    highest-InPool a m (some (if addr_lt b k then k else b)) x i.1
      (λ y s. elim (Bool-cases (addr_lt b k)) [
        | inl over ↦ let same : k ≡ y = cc (rw over at s) in rw (← same) i.0
        | inr under ↦ let same : b ≡ y = cc (rw under at s) in rw (← same) (h b refl)
      ])
      e

Inside-lookup :
    (a : Allocator) (m : Assoc Addr String) (x : Addr)
    → Inside a m
    → (lookup x m ≡ none) ⊎ InPool a x
unfolding lookup
Inside-lookup a [] x i = inl refl
Inside-lookup a ((k, v) ∷ m) x i = elim (Bool-cases (equal k x)) [
  | inl same ↦ inr (rw (← (equal_iff k x).0 same) i.0)
  | inr other ↦ rw other (Inside-lookup a m x i.1)
]

resume-InPool :
    (a : Allocator) (m : Assoc Addr String)
    → IsPool a
    → Inside a m
    → InPool a (resume a (highest m none))
resume-InPool a m v i = elim (Option-cases (highest m none)) [
  | inl e ↦ rw e (refl, omega arith, omega (arith, v.ordered))
  | inr (x, e) ↦ rw e (next-InPool a x v (highest-InPool a m none x i (λ y s. absurd (cc s)) e))
]

-- The allocator that `Restore` leaves, before it forgets the addresses that are free again.
abbrev loaded : Allocator → Assoc Addr String → Assoc Addr ℕ → Allocator
loaded a live cold = record a {
  allocated = live;
  quarantined = cold;
  cursor = resume a (highest live none);
}

loaded-IsPool :
    (a : Allocator) (live : Assoc Addr String) (cold : Assoc Addr ℕ)
    → IsPool a
    → Inside a live
    → IsMap cold
    → IsPool (loaded a live cold)
loaded-IsPool a live cold v i u = record {
  one_family = v.one_family;
  ordered = v.ordered;
  base = v.base;
  aligned = v.aligned;
  end = v.end;
  inside = resume-InPool a live v i;
  cold_map = u;
}

-- `Restore` changes nothing, or it leaves an allocator of the pool in which whoever holds an
-- address holds one of the prefix that an entry names as live.
pub restore-cases :
    (a : Allocator) (es : List Entry) (now : ℕ)
    → IsPool a
    → ((restore a es now).1 ≡ a)
      ⊎ (IsPool (restore a es now).1
          × ((x : Addr)
              → (lookup x (restore a es now).1.allocated ≡ none)
                ⊎ (InPool (restore a es now).1 x × Listed es x)))
unfolding restore restored reclaim_at lookup
restore-cases a es now v = elim (Result-cases (read_entries a es [] [])) [
  | inl (why, e) ↦ inl (rw (restore, e) refl)
  | inr ((live, cold), e) ↦
      let r = read_entries-IsRead a es [] [] (live, cold) v tt tt e in
      inr (
        rw (restore, e)
          (
            reclaim-IsPool (loaded a live cold) now
                (loaded-IsPool a live cold v r.inside r.cold_map),
            λ x. elim (r.holders x) [
              | inl nobody ↦ inl nobody
              | inr listed ↦ elim (Inside-lookup a live x r.inside) [
                | inl nobody ↦ inl nobody
                | inr inside ↦ inr (inside, listed)
              ]
            ],
          ))
]
