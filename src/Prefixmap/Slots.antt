-- ===== src/Prefixmap/Slots.antt =====
-- The aligned ranges of a block, by their number.
use mathlib.Core.Path.{subst}
use native.Mathlib.Nat.{
  mul_assoc, mul_comm, add-mul, pow-succ', mul-div_cancel, mul-add-div_right, mul-div-mul_right,
  div-eq_of_lt, div_self, one-le-pow, mul-le-mul_right, div-lt_iff_lt-mul, one-mul,
  le_of_mul-le-mul_right,
}
use meshp.Prelude.{
  ℕ, zero, suc, ◌+◌, ◌-◌, ◌*◌, ◌/◌, ◌%◌, ◌^◌, ◌≤◌, ◌<◌, ◌≡◌, ◌⊎◌, inl, inr, refl, ap, sym, ◌∙◌,
  arith, true, false, ◌==◌, none, some, if◌then◌else◌, Bool-cases, ==_iff,
}
use meshp.Netip.{Addr, Prefix, bit_len, span, contains}
use meshp.Prefixmap.{set_bit, set_low, last_of, advance}

pub pow_add : (a b : ℕ) → 2 ^ (a + b) ≡ 2 ^ a * 2 ^ b
pow_add zero b = let e : 0 + b ≡ b = omega arith in ap (λ t. 2 ^ t) e ∙ sym (one-mul (2 ^ b))
pow_add (suc a) b =
    let e : suc a + b ≡ suc (a + b) = omega arith in
    ap (λ t. 2 ^ t) e
    ∙ pow-succ' 2 (a + b)
    ∙ ap (λ t. 2 * t) (pow_add a b)
    ∙ sym (mul_assoc 2 (2 ^ a) (2 ^ b))
    ∙ ap (λ t. t * 2 ^ b) (sym (pow-succ' 2 a))

pub pow_pos : (k : ℕ) → 0 < 2 ^ k
pow_pos k = omega (arith, one-le-pow k 2 (omega arith))

doubled : (m k : ℕ) → m * 2 ^ suc k ≡ 2 * m * 2 ^ k
doubled m k =
    ap (λ t. m * t) (pow-succ' 2 k)
    ∙ sym (mul_assoc m 2 (2 ^ k))
    ∙ ap (λ t. t * 2 ^ k) (mul_comm m 2)

-- Setting the low bits of a multiple of 2 ^ k goes to the end of its range.
set_bit-multiple : (k m : ℕ) → set_bit k (2 * m * 2 ^ k) ≡ (2 * m + 1) * 2 ^ k
set_bit-multiple k m =
    let e : 2 * m * 2 ^ k / 2 ^ k ≡ 2 * m = mul-div_cancel (2 * m) (pow_pos k) in
    let even : ((2 * m) % 2 == 0) ≡ true = ground arith in
    rw (e, even) (sym (add-mul (2 * m) 1 (2 ^ k) ∙ ap (λ t. 2 * m * 2 ^ k + t) (one-mul (2 ^ k))))

pub set_low-multiple : (k m : ℕ) → set_low k (m * 2 ^ k) + 1 ≡ (m + 1) * 2 ^ k
unfolding set_low
set_low-multiple zero m = omega arith
set_low-multiple (suc k) m =
    let next : 2 * m + 1 + 1 ≡ 2 * (m + 1) = omega arith in
    ap (λ t. set_low k (set_bit k t) + 1) (doubled m k)
    ∙ ap (λ t. set_low k t + 1) (set_bit-multiple k m)
    ∙ set_low-multiple k (2 * m + 1)
    ∙ ap (λ t. t * 2 ^ k) next
    ∙ sym (doubled (m + 1) k)

abbrev pub unit : Prefix → ℕ → ℕ
unit block bits = 2 ^ (bit_len block.addr - bits)

-- How many ranges of a size the block has.
abbrev pub slots : Prefix → ℕ → ℕ
slots block bits = 2 ^ (bits - block.bits)

abbrev pub slot_addr : Prefix → ℕ → ℕ → Addr
slot_addr block bits i = record (block.addr) {
  value = block.addr.value / span block * span block + i * unit block bits;
}

abbrev pub slot : Prefix → ℕ → ℕ → Prefix
slot block bits i = record { addr = slot_addr block bits i; bits = bits }

-- An address fits its family.
abbrev pub IsAddr : Addr → Type 0
IsAddr a = a.value < 2 ^ bit_len a

contains_same :
    (p : Prefix) (v : ℕ)
    → v / span p ≡ p.addr.value / span p
    → contains p (record (p.addr) { value = v }) ≡ true
unfolding contains
contains_same p v h = ground (arith, h)

contains_other :
    (p : Prefix) (v : ℕ)
    → v / span p ≡ p.addr.value / span p + 1
    → contains p (record (p.addr) { value = v }) ≡ false
unfolding contains
contains_other p v h = ground (arith, h)

advance-some :
    (a : Addr) (bits next : ℕ)
    → set_low (bit_len a - bits) a.value + 1 ≡ next
    → advance a bits ≡ (if next == 2 ^ bit_len a then none else some (record a { value = next }))
unfolding advance last_of
advance-some a bits next h = rw h refl

module _ (block : Prefix) (bits : ℕ) (wide : block.bits ≤ bits) (fits : bits ≤ bit_len block.addr)
    (addr_fits : IsAddr block.addr) where
  pub span-slots : span block ≡ slots block bits * unit block bits
  span-slots =
      let e : bit_len block.addr - block.bits ≡ (bits - block.bits) + (bit_len block.addr - bits) =
        omega (arith, wide, fits) in
      ap (λ t. 2 ^ t) e ∙ pow_add (bits - block.bits) (bit_len block.addr - bits)

  -- A slot's address as a multiple of the unit.
  pub slot-multiple :
      (i : ℕ)
      → (slot_addr block bits i).value
        ≡ (block.addr.value / span block * slots block bits + i) * unit block bits
  slot-multiple i =
      let q = block.addr.value / span block in
      ap (λ t. q * t + i * unit block bits) span-slots
      ∙ ap (λ t. t + i * unit block bits) (sym (mul_assoc q (slots block bits) (unit block bits)))
      ∙ sym (add-mul (q * slots block bits) i (unit block bits))

  -- Which block of that span a slot is in.
  slot-quotient :
      (i : ℕ)
      → (slot_addr block bits i).value / span block
        ≡ block.addr.value / span block + i / slots block bits
  slot-quotient i =
      let q = block.addr.value / span block in
      let k = slots block bits in
      let u = unit block bits in
      ap (λ t. t / span block) (slot-multiple i)
      ∙ ap (λ t. (q * k + i) * u / t) span-slots
      ∙ mul-div-mul_right (q * k + i) k (pow_pos (bit_len block.addr - bits))
      ∙ mul-add-div_right (pow_pos (bits - block.bits)) q i

  pub slot-contains :
      (i : ℕ) → i < slots block bits → contains block (slot_addr block bits i) ≡ true
  slot-contains i h =
      contains_same block (slot_addr block bits i).value
        (omega (arith, slot-quotient i, div-eq_of_lt h))

  pub slot-outside : contains block (slot_addr block bits (slots block bits)) ≡ false
  slot-outside =
      contains_other block (slot_addr block bits (slots block bits)).value
        (omega (arith, slot-quotient (slots block bits), div_self (pow_pos (bits - block.bits))))

  -- The whole block ends where the address space does, or before.
  block_end : block.addr.value / span block * span block + span block ≤ 2 ^ bit_len block.addr
  block_end =
      let q = block.addr.value / span block in
      let e : bit_len block.addr ≡ block.bits + (bit_len block.addr - block.bits) =
        omega (arith, wide, fits) in
      let whole : 2 ^ bit_len block.addr ≡ 2 ^ block.bits * span block =
        ap (λ t. 2 ^ t) e ∙ pow_add block.bits (bit_len block.addr - block.bits) in
      let inside : q < 2 ^ block.bits =
        (div-lt_iff_lt-mul (pow_pos (bit_len block.addr - block.bits))).1
          (subst (λ t. block.addr.value < t) whole addr_fits) in
      omega (
        arith,
        whole,
        add-mul q 1 (span block),
        one-mul (span block),
        mul-le-mul_right {m = q + 1} {n = 2 ^ block.bits} (span block) (omega (arith, inside)),
      )

  -- The end of a slot is the start of the next.
  slot_end :
      (i : ℕ)
      → set_low (bit_len block.addr - bits) (slot_addr block bits i).value + 1
        ≡ (slot_addr block bits (i + 1)).value
  slot_end i =
      let m = block.addr.value / span block * slots block bits in
      let e : m + i + 1 ≡ m + (i + 1) = omega arith in
      ap (λ t. set_low (bit_len block.addr - bits) t + 1) (slot-multiple i)
      ∙ set_low-multiple (bit_len block.addr - bits) (m + i)
      ∙ ap (λ t. t * unit block bits) e
      ∙ sym (slot-multiple (i + 1))

  last_slot :
      (i : ℕ)
      → i < slots block bits
      → (slot_addr block bits (i + 1)).value ≡ 2 ^ bit_len block.addr
      → i + 1 ≡ slots block bits
  last_slot i h e =
      let reach : slots block bits * unit block bits ≤ (i + 1) * unit block bits =
        omega (arith, e, block_end, span-slots) in
      omega (arith, h, le_of_mul-le-mul_right reach (pow_pos (bit_len block.addr - bits)))

  -- The slot after one, or the end of the address space.
  pub advance-slot :
      (i : ℕ)
      → i < slots block bits
      → (advance (slot_addr block bits i) bits ≡ some (slot_addr block bits (i + 1)))
        ⊎ ((advance (slot_addr block bits i) bits ≡ none) × (i + 1 ≡ slots block bits))
  advance-slot i h =
      let next = (slot_addr block bits (i + 1)).value in
      let made = advance-some (slot_addr block bits i) bits next (slot_end i) in
      elim (Bool-cases (next == 2 ^ bit_len block.addr)) [
        | inl e ↦ inr (made ∙ rw e refl, last_slot i h ((==_iff next (2 ^ bit_len block.addr)).0 e))
        | inr e ↦ inl (made ∙ rw e refl)
      ]
