-- ===== src/Ipam/Pool.antt =====
-- What an allocator that `New` has built is like, and what every call keeps.
use meshp.Prelude.{◌+◌, ◌*◌, ◌/◌, ◌≤◌, ◌≡◌, arith, true}
use meshp.Prelude.Assoc.{IsMap}
use meshp.Netip.{Addr, addr_eq, addr_lt, contains, span}
use meshp.Ipam.Allocator.{Allocator, next}

-- The address is one of the prefix.
abbrev pub InPool : Allocator → Addr → Type 0
InPool a x = (x.is4 ≡ a.first.is4) × (a.first.value ≤ x.value) × (x.value ≤ a.last.value)

-- The bounds are those of the prefix, the size is the count of its addresses or is unknown, the
-- cursor lies inside, and the quarantine is a map.
pub record IsPool (a : Allocator) : Type 0 where
  pub one_family : a.last.is4 ≡ a.first.is4
  pub ordered : a.first.value ≤ a.last.value
  pub base : a.prefix.addr ≡ a.first
  pub aligned : a.first.value ≡ a.first.value / span a.prefix * span a.prefix
  pub end : a.last.value + 1 ≡ a.first.value + span a.prefix
  pub inside : InPool a a.cursor
  pub cold_map : IsMap a.quarantined

pub next-InPool : (a : Allocator) (x : Addr) → IsPool a → InPool a x → InPool a (next a x)
unfolding next addr_lt
next-InPool a x v h = ground arith

-- What the prefix contains lies between the first address and the last.
pub contains-InPool :
    (a : Allocator) (x : Addr) → IsPool a → contains a.prefix x ≡ true → InPool a x
unfolding contains
contains-InPool a x v h = grind arith
