-- ===== src/Tests/Prefixmap.antt =====
-- Ranges for a prefix out of 100.64.0.0/30, so that its numbers are small.
use meshp.Prelude.{ℕ, ◌<◌, ◌≡◌, refl, arith, true, false, List, [], ◌∷◌, some}
use meshp.Prelude.Result.{ok, err}
use meshp.Prelude.Keyed.{elem}
use meshp.Prelude.Members.{any_is}
use meshp.Netip.{Addr, Prefix, contains, overlaps, prefix_eq}
use meshp.Prefixmap.{allocate, scan, advance, last_of, set_low, overlaps_any, exhausted, unmappable}
use meshp.Prefixmap.Slots.{slots, IsAddr}
use meshp.Prefixmap.Lowest.{Answers, allocate-Answers}
use meshp.Prefixmap.Disjoint.{allocate-IsFree}

abbrev v4 : ℕ → Addr
v4 n = record { is4 = true; value = n }

abbrev prefix_of : ℕ → ℕ → Prefix
prefix_of n bits = record { addr = v4 n; bits = bits }

abbrev block : Prefix
block = prefix_of 1681915904 30

abbrev single : Prefix
single = prefix_of 3232235777 32

abbrev taken : List Prefix
taken = prefix_of 1681915904 31 ∷ []

block_IsAddr : IsAddr block.addr
block_IsAddr = omega arith

fuel_enough : slots block single.bits < 5
fuel_enough = omega arith

allocate-Answers_example : Answers block single taken (allocate 5 block single taken)
allocate-Answers_example = allocate-Answers 5 block single taken block_IsAddr fuel_enough

third : allocate 5 block single taken ≡ some (ok (prefix_of 1681915906 32))
unfolding allocate scan advance last_of set_low overlaps_any overlaps any_is contains
third = refl

full : allocate 5 block single (prefix_of 1681915904 24 ∷ []) ≡ some (err exhausted)
unfolding allocate scan advance last_of set_low overlaps_any overlaps any_is contains
full = refl

default_route : allocate 5 block (prefix_of 0 0) [] ≡ some (err unmappable)
unfolding allocate
default_route = refl

listed : elem (prefix_of 1681915904 31) taken ≡ true
unfolding elem
listed = refl

inside : contains (prefix_of 1681915906 32) (v4 1681915906) ≡ true
unfolding contains
inside = refl

allocate-IsFree_example :
    (32 ≡ single.bits)
    × (contains block (v4 1681915906) ≡ true)
    × (contains (prefix_of 1681915904 31) (v4 1681915906) ≡ false)
allocate-IsFree_example =
    allocate-IsFree 5 block single taken (prefix_of 1681915906 32) (prefix_of 1681915904 31)
      (v4 1681915906) block_IsAddr fuel_enough third listed refl inside
