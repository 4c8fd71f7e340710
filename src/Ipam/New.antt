-- ===== src/Ipam/New.antt =====
-- internal/ipam/ipam.go: `New`, and that it builds a pool.
use meshp.Prelude.{
  ℕ, ◌+◌, ◌-◌, ◌*◌, ◌/◌, ◌^◌, ◌<◌, ◌≡◌, refl, sym, ap, arith, Bool, Bool-cases, false, not, ◌==◌,
  Option, none, some, List, [], ◌∷◌, length, ltb, leb, if◌then◌else◌, inl, inr,
}
use mathlib.Core.Option
use native.Mathlib.Nat.{mul-div_cancel, one-le-pow}
use meshp.Prelude.Int.{ℤ, pos, negsuc}
use meshp.Prelude.Result.{Result, ok, err, ok_same, bind_ok, ◌>>=◌}
use meshp.Prelude.Assoc.{Assoc, insert}
use meshp.Netip.{Addr, Prefix, addr_eq, masked, unmap, contains, span, bit_len, is_valid}
use meshp.Ipam.Allocator.{Allocator}
use meshp.Ipam.Pool.{IsPool}

-- `Config`; a negative quarantine switches it off.
pub record PoolConfig : Type 0 where
  pub prefix : Prefix
  pub quarantine : ℤ
  pub reserved : List Addr

pub data NewError : Type 0 where
  bad_prefix none_allocatable : NewError
  outside : Addr → NewError

-- DefaultQuarantine, 15 minutes.
abbrev pub default_quarantine : ℕ
default_quarantine = 900000000000

abbrev pub quarantine_of : ℤ → ℕ
quarantine_of (pos n) = if n == 0 then default_quarantine else n
quarantine_of (negsuc n) = 0

-- The highest address of a masked prefix: every bit of the host is set.
abbrev pub last_addr : Prefix → Addr
last_addr p = record (p.addr) { value = p.addr.value + (span p - 1) }

abbrev pub host_bits : Prefix → ℕ
host_bits p = bit_len p.addr - p.bits

-- none for the -1 of a count that does not fit an int64.
abbrev pub count_addrs : ℕ → Option ℕ
count_addrs bits = if ltb bits 63 then some (2 ^ bits) else none

abbrev pub count_usable : ℕ → ℕ → Option ℕ
count_usable bits reserved = Option.map (λ total. total - reserved) (count_addrs bits)

-- The addresses that the standards reserve.
abbrev pub structural : Prefix → Assoc Addr (Unit {0})
structural p =
    if p.addr.is4
    then (if leb 2 (host_bits p) then insert (last_addr p) tt (insert p.addr tt []) else [])
    else (if leb 1 (host_bits p) then insert p.addr tt [] else [])

-- The loop over the reserved addresses of the configuration.
unfoldable pub reserve :
    Prefix → List Addr → Assoc Addr (Unit {0}) → Result NewError (Assoc Addr (Unit {0}))
reserve p [] kept = ok kept
reserve p (r ∷ rs) kept =
    let rest = reserve p rs (insert (unmap r) tt kept) in
    if contains p (unmap r) then rest else err (outside (unmap r))

abbrev pub is_zero : Option ℕ → Bool
is_zero none = false
is_zero (some n) = n == 0

abbrev pub built : PoolConfig → Prefix → Assoc Addr (Unit {0}) → Allocator
built cfg p kept = record {
  prefix = p;
  quarantine = quarantine_of cfg.quarantine;
  first = p.addr;
  last = last_addr p;
  size = count_addrs (host_bits p);
  usable = count_usable (host_bits p) (length kept);
  reserved = kept;
  allocated = [];
  quarantined = [];
  cursor = p.addr;
}

unfoldable pub new_pool : PoolConfig → Result NewError Allocator
new_pool cfg =
    if not (is_valid cfg.prefix)
    then err bad_prefix
    else let p = masked cfg.prefix in
      reserve p (cfg.reserved) (structural p) >>= λ kept.
      if is_zero (count_usable (host_bits p) (length kept))
      then err none_allocatable
      else ok (built cfg p kept)

-- What `New` returns was built from the masked prefix.
pub new_pool-built :
    (cfg : PoolConfig) (a : Allocator)
    → new_pool cfg ≡ ok a
    → (kept : Assoc Addr (Unit {0})) × (a ≡ built cfg (masked cfg.prefix) kept)
unfolding new_pool
new_pool-built cfg a h = elim (Bool-cases (is_valid cfg.prefix)) [
  | inr bad ↦ absurd (cc (rw bad at h))
  | inl good ↦
      let p = masked cfg.prefix in
      let (kept, made, h1) = bind_ok (reserve p cfg.reserved (structural p)) _ a (rw good at h) in
      elim (Bool-cases (is_zero (count_usable (host_bits p) (length kept)))) [
        | inl full ↦ absurd (cc (rw full at h1))
        | inr room ↦ (kept, sym (ok_same (built cfg p kept) a (rw room at h1)))
      ]
]

built-IsPool :
    (cfg : PoolConfig) (kept : Assoc Addr (Unit {0})) → IsPool (built cfg (masked cfg.prefix) kept)
built-IsPool cfg kept =
    let k = bit_len cfg.prefix.addr - cfg.prefix.bits in
    let size : 0 < 2 ^ k = omega (arith, one-le-pow k 2 (omega arith)) in
    record {
      one_family = refl;
      ordered = omega arith;
      base = refl;
      aligned = ap (λ n. n * 2 ^ k) (sym (mul-div_cancel (cfg.prefix.addr.value / 2 ^ k) size));
      end = omega (arith, size);
      inside = (refl, omega arith, omega arith);
      cold_map = tt;
    }

-- What `New` builds is a pool, whose size is the count of its addresses or unknown.
pub new_pool-IsPool :
    (cfg : PoolConfig) (a : Allocator)
    → new_pool cfg ≡ ok a
    → IsPool a × (a.size ≡ count_addrs (host_bits a.prefix))
new_pool-IsPool cfg a h =
    let (kept, made) = new_pool-built cfg a h in rw made (built-IsPool cfg kept, refl)
