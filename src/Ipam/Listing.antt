-- ===== src/Ipam/Listing.antt =====
-- What `Snapshot` lists.
use meshp.Prelude.{◌≡◌, refl, ◌∙◌, arith, Bool, false, [], ◌∷◌, map, length, All, String}
use meshp.Prelude.Assoc.{Assoc}
use meshp.Prelude.Order.{sort_by, entry_before}
use meshp.Prelude.Sorting.{filter, StrictOrder, IsSorted, sort_by-IsSorted, length-filter-sort_by}
use meshp.Netip.{Addr, addr_lt}
use meshp.Ipam.Allocator.{Allocator, Entry, snapshot}

by_address : StrictOrder (entry_before {K = Addr} {V = String} addr_lt)
unfolding addr_lt
by_address = record { one_way = λ x y h. ground arith; apart = λ x y z h k. ground arith }

-- The entry of an allocation.
abbrev pub live_entry : Addr × String → Entry
live_entry x = record { addr = x.0; holder = x.1; released_at = 0 }

abbrev pub earlier : Entry → Entry → Bool
earlier d e = addr_lt d.addr e.addr

map-All :
    (x : Addr × String) (m : Assoc Addr String)
    → All (λ y. entry_before addr_lt y x ≡ false) m
    → All (λ e. earlier e (live_entry x) ≡ false) (map live_entry m)
map-All x [] all = tt
map-All x (y ∷ m) all = (all.0, map-All x m all.1)

map-IsSorted :
    (m : Assoc Addr String)
    → IsSorted (entry_before addr_lt) m
    → IsSorted earlier (map live_entry m)
map-IsSorted [] s = tt
map-IsSorted (x ∷ m) s = (map-All x m s.0, map-IsSorted m s.1)

filter-map-length :
    (p : Entry → Bool) (m : Assoc Addr String)
    → length (filter p (map live_entry m)) ≡ length (filter (λ x. p (live_entry x)) m)
unfolding filter
filter-map-length p [] = refl
filter-map-length p (x ∷ m) = ground (arith, filter-map-length p m)

-- `Snapshot` lists the live allocations in the order of their addresses, and nothing else: whatever
-- the test, as many entries pass it as allocations do.
pub snapshot-IsSorted :
    (a : Allocator) (p : Entry → Bool)
    → IsSorted earlier (snapshot a)
      × (length (filter p (snapshot a)) ≡ length (filter (λ x. p (live_entry x)) a.allocated))
unfolding snapshot
snapshot-IsSorted a p = (
  map-IsSorted (sort_by (entry_before addr_lt) a.allocated)
      (sort_by-IsSorted (entry_before addr_lt) by_address a.allocated),
  filter-map-length p (sort_by (entry_before addr_lt) a.allocated)
      ∙ length-filter-sort_by (entry_before addr_lt) (λ x. p (live_entry x)) a.allocated,
)
