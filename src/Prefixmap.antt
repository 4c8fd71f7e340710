-- ===== src/Prefixmap.antt =====
-- internal/prefixmap/prefixmap.go: which range a prefix of a customer is reached by where two
-- networks of a device carry the same prefix. The iterator over candidates and the loop that it
-- feeds are one recursion on fuel, which gives `none` where the fuel runs out.
pub mod Slots
pub mod Lowest
pub mod Disjoint
use meshp.Prelude.{
  ℕ, zero, suc, ◌+◌, ◌-◌, ◌*◌, ◌/◌, ◌%◌, ◌^◌, Bool, true, false, not, ◌&&◌, ◌||◌, List, [], ◌∷◌,
  Option, none, some, ltb, ◌==◌, if◌then◌else◌, map,
}
use meshp.Prelude.Result.{Result, ok, err}
use meshp.Prelude.Members.{any_is}
use meshp.Netip.{Addr, Prefix, same_family, bit_len, masked, span, contains, is_valid, overlaps}

pub data MapError : Type 0 where
  unmappable : MapError
  exhausted : MapError

abbrev pub Reserved : Type 0
Reserved = List Prefix

-- bytes[i/8] |= 1 << (7 - i%8), for the bit that weighs 2 ^ k.
abbrev pub set_bit : ℕ → ℕ → ℕ
set_bit k value = if (value / 2 ^ k) % 2 == 0 then value + 2 ^ k else value

-- The loop that sets the `k` lowest bits, the highest of them first.
unfoldable pub set_low : ℕ → ℕ → ℕ
set_low zero value = value
set_low (suc k) value = set_low k (set_bit k value)

unfoldable pub last_of : Prefix → Addr
unfolding set_low
last_of p = record (p.addr) { value = set_low (bit_len p.addr - p.bits) p.addr.value }

-- The first address of the next range, or none where the address space ends.
unfoldable pub advance : Addr → ℕ → Option Addr
unfolding last_of
advance addr bits =
    let last = last_of (record { addr = addr; bits = bits }) in
    if last.value + 1 == 2 ^ bit_len addr
    then none
    else some (record last { value = last.value + 1 })

unfoldable pub overlaps_any : Prefix → Reserved → Bool
overlaps_any candidate reserved =
    any_is
      (λ r.
        is_valid r
        && (same_family r.addr.is4 candidate.addr.is4
            && (overlaps r candidate || overlaps candidate r)))
      reserved

-- The candidates from an address on, and the first that is not taken. `some none`: there is none.
unfoldable pub scan : (Prefix → Bool) → Prefix → ℕ → ℕ → Addr → Option (Option Prefix)
scan taken block bits zero addr = none
scan taken block bits (suc fuel) addr = elim (contains block addr) [
  | false ↦ some none
  | true ↦ elim (taken (record { addr = addr; bits = bits })) [
    | false ↦ some (some (record { addr = addr; bits = bits }))
    | true ↦ elim (advance addr bits) [
      | none ↦ some none
      | some next ↦ scan taken block bits fuel next
    ]
  ]
]

abbrev pub found_or : Option (Option Prefix) → Option (Result MapError Prefix)
found_or none = none
found_or (some none) = some (err exhausted)
found_or (some (some p)) = some (ok p)

unfoldable pub allocate : ℕ → Prefix → Prefix → Reserved → Option (Result MapError Prefix)
unfolding scan
allocate fuel block prefix reserved =
    if not (is_valid block && is_valid prefix)
    then some (err unmappable)
    else if not (same_family block.addr.is4 prefix.addr.is4)
    then some (err unmappable)
    else if prefix.bits == 0
    then some (err unmappable)
    else if ltb prefix.bits block.bits
    then some (err unmappable)
    else found_or (
        scan (λ candidate. overlaps_any candidate reserved) block prefix.bits fuel
          (masked block).addr)
