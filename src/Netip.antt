-- ===== src/Netip.antt =====
-- Go's net/netip, as far as the program uses it. An address is its number and its family, an
-- IPv6 address has no zone, and a prefix is valid where its bits fit the family.
use meshp.Prelude.{
  ℕ, ◌+◌, ◌-◌, ◌*◌, ◌/◌, ◌%◌, ◌^◌, ◌≡◌, ◌↔◌, arith, Bool, true, false, ◌&&◌, ◌==◌, ltb, leb,
  if◌then◌else◌,
}
use meshp.Prelude.Equality.{Eq}

pub record Addr : Type 0 where
  pub is4 : Bool
  pub value : ℕ

pub record Prefix : Type 0 where
  pub addr : Addr
  pub bits : ℕ

abbrev pub same_family : Bool → Bool → Bool
same_family true b = b
same_family false true = false
same_family false false = true

pub same_addr_iff :
    (a b : Addr) → ((same_family a.is4 b.is4 && a.value == b.value) ≡ true) ↔ (a ≡ b)
same_addr_iff a b = ground arith

instance abbrev pub addr_eq : Eq Addr
addr_eq = record {
  same = λ a b. same_family a.is4 b.is4 && a.value == b.value;
  decides = same_addr_iff;
}

-- `BitLen`
abbrev pub bit_len : Addr → ℕ
bit_len a = if a.is4 then 32 else 128

-- `Compare`: by the length, then by the number.
unfoldable pub addr_lt : Addr → Addr → Bool
addr_lt a b = if same_family a.is4 b.is4 then ltb a.value b.value else a.is4

-- `Unmap`: an IPv4 address in its IPv6 form, ::ffff:a.b.c.d, becomes the IPv4 address.
unfoldable pub unmap : Addr → Addr
unmap a =
    if a.is4
    then a
    else if a.value / 2 ^ 32 == 0xffff
    then record { is4 = true; value = a.value % 2 ^ 32 }
    else a

-- `Masked` of a valid prefix: its lowest address, with its bits.
abbrev pub masked : Prefix → Prefix
masked p =
    let unit = 2 ^ (bit_len p.addr - p.bits) in
    record p { addr = record (p.addr) { value = p.addr.value / unit * unit } }

-- `Next`, where it is not the last address of its family.
abbrev pub next_addr : Addr → Addr
next_addr a = record a { value = a.value + 1 }

-- How many addresses a prefix spans.
abbrev pub span : Prefix → ℕ
span p = 2 ^ (bit_len p.addr - p.bits)

-- `Contains` of a valid prefix.
unfoldable pub contains : Prefix → Addr → Bool
contains p a = same_family p.addr.is4 a.is4 && (a.value / span p) == (p.addr.value / span p)

-- `IsLoopback`, of an IPv4 address in its IPv6 form too.
unfoldable pub is_loopback_addr : Addr → Bool
unfolding unmap
is_loopback_addr a = let b = unmap a in if b.is4 then (b.value / 2 ^ 24) == 127 else b.value == 1

-- `IsValid`
abbrev pub is_valid : Prefix → Bool
is_valid p = leb p.bits (bit_len p.addr)

-- `Overlaps` of two valid prefixes: they agree on the bits of the wider one.
unfoldable pub overlaps : Prefix → Prefix → Bool
overlaps p q =
    is_valid p
    && (is_valid q && (if ltb p.bits q.bits then contains p q.addr else contains q p.addr))

pub same_prefix_iff :
    (p q : Prefix) → ((addr_eq.same p.addr q.addr && p.bits == q.bits) ≡ true) ↔ (p ≡ q)
same_prefix_iff p q = ground arith

instance abbrev pub prefix_eq : Eq Prefix
prefix_eq = record {
  same = λ p q. addr_eq.same p.addr q.addr && p.bits == q.bits;
  decides = same_prefix_iff;
}
