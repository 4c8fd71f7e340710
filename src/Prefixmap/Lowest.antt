-- ===== src/Prefixmap/Lowest.antt =====
-- What `Allocate` returns, on every branch, and that its search ends.
use mathlib.Core.Path.{subst}
use native.Mathlib.Nat.{zero-mul}
use meshp.Prelude.{
  ℕ, zero, suc, ◌+◌, ◌*◌, ◌/◌, ◌≤◌, ◌<◌, ◌≡◌, ◌⊎◌, inl, inr, refl, ap, sym, ◌∙◌, arith, Bool, true,
  false, not, ◌&&◌, ◌==◌, Option, none, some, Bool-cases, leb,
}
use meshp.Prelude.Result.{Result, ok, err}
use meshp.Netip.{Addr, Prefix, bit_len, same_family, masked, span, is_valid, contains}
use meshp.Prefixmap.{
  MapError, Reserved, unmappable, exhausted, overlaps_any, scan, found_or, allocate, advance,
}
use meshp.Prefixmap.Slots.{
  unit, slots, slot_addr, slot, IsAddr, slot-contains, slot-outside, advance-slot,
}

-- The outcome of a search from slot `i` on: the first slot that is not taken, or that all are.
abbrev pub Searched : (Prefix → Bool) → Prefix → ℕ → ℕ → Option (Option Prefix) → Type 0
Searched taken block bits i r =
    ((j : ℕ) × (i ≤ j)
      × (j < slots block bits)
      × (r ≡ some (some (slot block bits j)))
      × (taken (slot block bits j) ≡ false)
      × ((k : ℕ) → i ≤ k → k < j → taken (slot block bits k) ≡ true))
    ⊎ ((r ≡ some none)
        × ((k : ℕ) → i ≤ k → k < slots block bits → taken (slot block bits k) ≡ true))

scan_free :
    (taken : Prefix → Bool) (block : Prefix) (bits fuel : ℕ) (addr : Addr)
    → contains block addr ≡ true
    → taken (record { addr = addr; bits = bits }) ≡ false
    → scan taken block bits (suc fuel) addr ≡ some (some (record { addr = addr; bits = bits }))
unfolding scan
scan_free taken block bits fuel addr c t = rw (scan, c, t) refl

scan_end :
    (taken : Prefix → Bool) (block : Prefix) (bits fuel : ℕ) (addr : Addr)
    → contains block addr ≡ true
    → taken (record { addr = addr; bits = bits }) ≡ true
    → advance addr bits ≡ none
    → scan taken block bits (suc fuel) addr ≡ some none
unfolding scan
scan_end taken block bits fuel addr c t a = rw (scan, c, t, a) refl

scan_next :
    (taken : Prefix → Bool) (block : Prefix) (bits fuel : ℕ) (addr next : Addr)
    → contains block addr ≡ true
    → taken (record { addr = addr; bits = bits }) ≡ true
    → advance addr bits ≡ some next
    → scan taken block bits (suc fuel) addr ≡ scan taken block bits fuel next
unfolding scan
scan_next taken block bits fuel addr next c t a = rw (scan, c, t, a) refl

scan_outside :
    (taken : Prefix → Bool) (block : Prefix) (bits fuel : ℕ) (addr : Addr)
    → contains block addr ≡ false
    → scan taken block bits (suc fuel) addr ≡ some none
unfolding scan
scan_outside taken block bits fuel addr c = rw (scan, c) refl

here_or_on : (i k : ℕ) → i ≤ k → (k ≡ i) ⊎ (i + 1 ≤ k)
here_or_on i k h = ground (arith, h)

-- One slot that is taken before a search that is over.
searched_after :
    (taken : Prefix → Bool) (block : Prefix) (bits i : ℕ) (r : Option (Option Prefix))
    → taken (slot block bits i) ≡ true
    → Searched taken block bits (i + 1) r
    → Searched taken block bits i r
searched_after taken block bits i r t (inl (j, l, h, e, f, before)) = inl (
  j,
  omega (arith, l),
  h,
  e,
  f,
  λ k p q. elim (here_or_on i k p) [
    | inl k_is_i ↦ ap (λ n. taken (slot block bits n)) k_is_i ∙ t
    | inr on ↦ before k on q
  ],
)
searched_after taken block bits i r t (inr (e, all)) = inr (
  e,
  λ k p q. elim (here_or_on i k p) [
    | inl k_is_i ↦ ap (λ n. taken (slot block bits n)) k_is_i ∙ t
    | inr on ↦ all k on q
  ],
)

module _ (taken : Prefix → Bool) (block : Prefix) (bits : ℕ) (wide : block.bits ≤ bits)
    (fits : bits ≤ bit_len block.addr) (addr_fits : IsAddr block.addr) where
  after :
      (left i fuel : ℕ)
      → contains block (slot_addr block bits i) ≡ true
      → taken (slot block bits i) ≡ true
      → i < slots block bits
      → Searched taken block bits
          (i + 1)
          (scan taken block bits fuel (slot_addr block bits (i + 1)))
      → Searched taken block bits
          (i + 1)
          (scan taken block bits (suc fuel) (slot_addr block bits i))
  after left i fuel c t inside rest = elim (advance-slot block bits wide fits addr_fits i inside) [
    | inl on ↦
        subst (λ r. Searched taken block bits (i + 1) r)
          (sym (
            scan_next taken block bits fuel (slot_addr block bits i) (slot_addr block bits (i + 1))
              c t on))
          rest
    | inr (stop, last) ↦ inr (
      scan_end taken block bits fuel (slot_addr block bits i) c t stop,
      λ k p q. absurd (omega (arith, p, q, last)),
    )
  ]

  pub scan-Searched :
      (left i fuel : ℕ)
      → i + left ≡ slots block bits
      → left < fuel
      → Searched taken block bits i (scan taken block bits fuel (slot_addr block bits i))
  scan-Searched left i zero e h = absurd (omega (arith, h))
  scan-Searched zero i (suc fuel) e h =
      let last : i ≡ slots block bits = omega (arith, e) in
      inr (
        ap (λ n. scan taken block bits (suc fuel) (slot_addr block bits n)) last
            ∙ scan_outside taken block bits fuel (slot_addr block bits (slots block bits))
                (slot-outside block bits wide fits addr_fits),
        λ k p q. absurd (omega (arith, p, q, last)),
      )
  scan-Searched (suc left) i (suc fuel) e h =
      let inside : i < slots block bits = omega (arith, e) in
      let here = slot-contains block bits wide fits addr_fits i inside in
      elim (Bool-cases (taken (slot block bits i))) [
        | inl t ↦ searched_after taken block bits i _ t (
            after left i fuel here t inside
              (scan-Searched left (i + 1) fuel (omega (arith, e)) (omega (arith, h))))
        | inr f ↦ inl (
          i,
          omega arith,
          inside,
          scan_free taken block bits fuel (slot_addr block bits i) here f,
          f,
          λ k p q. absurd (omega (arith, p, q)),
        )
      ]

-- The checks of `Allocate` before its search.
abbrev pub mappable : Prefix → Prefix → Bool
mappable block prefix =
    is_valid block
    && (is_valid prefix
        && (same_family block.addr.is4 prefix.addr.is4
            && (not (prefix.bits == 0) && leb block.bits prefix.bits)))

abbrev pub taken_by : Reserved → Prefix → Bool
taken_by reserved candidate = overlaps_any candidate reserved

allocate_refused :
    (fuel : ℕ) (block prefix : Prefix) (reserved : Reserved)
    → mappable block prefix ≡ false
    → allocate fuel block prefix reserved ≡ some (err unmappable)
unfolding allocate
allocate_refused fuel block prefix reserved h = ground arith

masked-slot : (block : Prefix) (bits : ℕ) → (masked block).addr ≡ slot_addr block bits 0
masked-slot block bits = λ i. record (block.addr) { value = (e i) }
  where
    e :
        block.addr.value / span block * span block
        ≡ block.addr.value / span block * span block + 0 * unit block bits
    e = omega (arith, zero-mul (unit block bits))

allocate_starts :
    (fuel : ℕ) (block prefix : Prefix) (reserved : Reserved)
    → mappable block prefix ≡ true
    → allocate fuel block prefix reserved
      ≡ found_or (scan (taken_by reserved) block prefix.bits fuel (masked block).addr)
unfolding allocate
allocate_starts fuel block prefix reserved h = ground arith

allocate_searches :
    (fuel : ℕ) (block prefix : Prefix) (reserved : Reserved)
    → mappable block prefix ≡ true
    → allocate fuel block prefix reserved
      ≡ found_or (scan (taken_by reserved) block prefix.bits fuel (slot_addr block prefix.bits 0))
allocate_searches fuel block prefix reserved h =
    allocate_starts fuel block prefix reserved h
    ∙ ap (λ a. found_or (scan (taken_by reserved) block prefix.bits fuel a))
        (masked-slot block prefix.bits)

pub mappable_lem :
    (block prefix : Prefix)
    → mappable block prefix ≡ true
    → (block.bits ≤ prefix.bits) × (prefix.bits ≤ bit_len block.addr)
mappable_lem block prefix h = ground arith

-- What `Allocate` promises, by slots of the block of the size of the prefix: an error where the
-- prefix cannot be mapped, else the lowest slot that no reserved range overlaps, else that the
-- block is exhausted.
abbrev pub Answers : Prefix → Prefix → Reserved → Option (Result MapError Prefix) → Type 0
Answers block prefix reserved r =
    ((mappable block prefix ≡ false) × (r ≡ some (err unmappable)))
    ⊎ ((mappable block prefix ≡ true)
        × (((j : ℕ) × (j < slots block prefix.bits)
              × (r ≡ some (ok (slot block prefix.bits j)))
              × (taken_by reserved (slot block prefix.bits j) ≡ false)
              × ((k : ℕ) → k < j → taken_by reserved (slot block prefix.bits k) ≡ true))
            ⊎ ((r ≡ some (err exhausted))
                × ((k : ℕ)
                    → k < slots block prefix.bits
                    → taken_by reserved (slot block prefix.bits k) ≡ true))))

-- With more fuel than the block has slots of the size of the prefix, `Allocate` returns, and what
-- it returns is as promised: an error for a prefix that cannot be mapped, else the lowest slot that
-- no reserved range overlaps, or that the block is exhausted where there is none.
pub allocate-Answers :
    (fuel : ℕ) (block prefix : Prefix) (reserved : Reserved)
    → IsAddr block.addr
    → slots block prefix.bits < fuel
    → Answers block prefix reserved (allocate fuel block prefix reserved)
allocate-Answers fuel block prefix reserved a h = elim (Bool-cases (mappable block prefix)) [
  | inr bad ↦ inl (bad, allocate_refused fuel block prefix reserved bad)
  | inl good ↦
      let sized = mappable_lem block prefix good in
      let made = allocate_searches fuel block prefix reserved good in
      inr (
        good,
        elim (scan-Searched (taken_by reserved) block prefix.bits sized.0 sized.1 a
            (slots block prefix.bits) 0 fuel (omega arith) h) [
              | inl (j, low, top, e, free, lower) ↦
                  inl (j, top, made ∙ ap found_or e, free, λ k q. lower k (omega arith) q)
              | inr (e, all) ↦ inr (made ∙ ap found_or e, λ k q. all k (omega arith) q)
            ],
      )
]
