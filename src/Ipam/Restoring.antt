-- ===== src/Ipam/Restoring.antt =====
-- What `Restore` makes of the stored entries.
use meshp.Prelude.{
  ℕ, ◌+◌, ◌≡◌, ◌⊎◌, inl, inr, refl, arith, Bool, Bool-cases, true, false, ◌&&◌, ◌==◌, Option, none,
  some, List, [], ◌∷◌, String, ltb, if◌then◌else◌,
}
use meshp.Prelude.Result.{ok, err}
use meshp.Prelude.Equality.{equal}
use meshp.Prelude.Assoc.{Assoc, lookup, insert, lookup-insert}
use meshp.Netip.{Addr, addr_eq, unmap, contains}
use meshp.Ipam.Allocator.{
  Allocator, out_of_range, Entry, read_entries, restore, restored, reclaim_at,
}

-- Every entry lies in the prefix.
abbrev pub all_inside : Allocator → List Entry → Bool
all_inside a [] = true
all_inside a (e ∷ es) = contains a.prefix (unmap e.addr) && all_inside a es

-- The holder of an address in the last of the entries that name it as live.
abbrev pub last_live : List Entry → Addr → Option String → Option String
last_live [] x before = before
last_live (e ∷ es) x before =
    last_live es x (if e.released_at == 0 && equal (unmap e.addr) x then some e.holder else before)

read_lem :
    (a : Allocator) (x : Addr) (es : List Entry) (live : Assoc Addr String) (cold : Assoc Addr ℕ)
    → ((all_inside a es ≡ false) × (read_entries a es live cold ≡ err out_of_range))
      ⊎ ((all_inside a es ≡ true)
          × ((live' : Assoc Addr String) × (cold' : Assoc Addr ℕ) × (read_entries a es live cold
                ≡ ok (live', cold'))
              × (lookup x live' ≡ last_live es x (lookup x live))))
unfolding read_entries
read_lem a x [] live cold = inr (refl, (live, cold, refl, refl))
read_lem a x (e ∷ es) live cold = elim (Bool-cases (contains a.prefix (unmap e.addr))) [
  | inr out ↦ inl (ground arith, ground arith)
  | inl inside ↦ elim (Bool-cases (e.released_at == 0)) [
    | inl now_live ↦
        rw (inside, now_live)
          (rw (lookup-insert (unmap e.addr) x e.holder live) at
            (read_lem a x es (insert (unmap e.addr) e.holder live) cold))
    | inr past ↦
        rw (inside, past)
          (read_lem a x es live (
            if ltb 0 a.quarantine
            then insert (unmap e.addr) (e.released_at + a.quarantine) cold
            else cold))
  ]
]

-- `Restore` refuses a list with an entry outside the prefix and then changes nothing; otherwise it
-- succeeds, and an address is held by whoever the last live entry for it names, and by nobody
-- where there is none, whatever the allocator held before.
pub restore_lem :
    (a : Allocator) (es : List Entry) (now : ℕ) (x : Addr)
    → ((all_inside a es ≡ false) × (restore a es now ≡ (some out_of_range, a)))
      ⊎ ((all_inside a es ≡ true)
          × ((restore a es now).0 ≡ none)
          × (lookup x (restore a es now).1.allocated ≡ last_live es x none))
unfolding restore restored reclaim_at lookup
restore_lem a es now x = elim (read_lem a x es [] []) [
  | inl (out, e) ↦ inl (out, rw e)
  | inr (inside, (live, cold, e, same)) ↦ inr (inside, rw e, rw e same)
]
