-- ===== src/Ipam/Sweep.antt =====
-- The sweep of `Allocate`: what it finds is free, and enough steps see the whole pool.
use meshp.Prelude.{
  ℕ, zero, suc, ◌+◌, ◌≤◌, ◌<◌, ◌≡◌, ◌⊎◌, inl, inr, ap, arith, Bool, Bool-cases, true, false, ◌||◌,
  Option, none, some,
}
use native.Mathlib.Decide.{ℕ_discrete, dec_lt}
use meshp.Netip.{Addr, addr_lt}
use meshp.Ipam.Allocator.{Allocator, next, is_allocatable, sweep}
use meshp.Ipam.Pool.{InPool, IsPool, next-InPool}

abbrev pub Free : Allocator → ℕ → Addr → Type 0
Free a now x = (is_allocatable a x now).0 ≡ true

abbrev pub Busy : Allocator → ℕ → Addr → Type 0
Busy a now x = (is_allocatable a x now).0 ≡ false

-- An address that a sweep went past: it is busy, and if it is quarantined the sweep says so.
abbrev pub Passed : Allocator → ℕ → Addr → Bool → Type 0
Passed a now x out = Busy a now x × ((out ≡ true) ⊎ ((is_allocatable a x now).1 ≡ false))

or_true : (b : Bool) → (b || true) ≡ true
or_true b = ground arith

module _ (a : Allocator) (now : ℕ) where
  stops_here :
      (steps : ℕ) (x : Addr) (saw : Bool)
      → Free a now x
      → (sweep a now (suc steps) x saw).0 ≡ some x
  unfolding sweep
  stops_here steps x saw free = rw free

  goes_past :
      (steps : ℕ) (x : Addr) (saw : Bool)
      → Busy a now x
      → sweep a now (suc steps) x saw
        ≡ sweep a now steps (next a x) (saw || (is_allocatable a x now).1)
  unfolding sweep
  goes_past steps x saw busy = rw busy

  went_past :
      (steps : ℕ) (x : Addr) (saw out : Bool)
      → sweep a now (suc steps) x saw ≡ (none, out)
      → Busy a now x
        × (sweep a now steps (next a x) (saw || (is_allocatable a x now).1) ≡ (none, out))
  went_past steps x saw out e = elim (Bool-cases (is_allocatable a x now).0) [
    | inl free ↦ absurd (cc (stops_here steps x saw free, ap (λ (p : Option Addr × Bool). p.0) e))
    | inr busy ↦ (busy, rw (goes_past steps x saw busy) at e)
  ]

  -- A quarantined address that was seen is not forgotten.
  sweep_saw :
      (steps : ℕ) (x : Addr) (out : Bool) → sweep a now steps x true ≡ (none, out) → out ≡ true
  sweep_saw zero x out e = unfold sweep in ground arith
  sweep_saw (suc steps) x out e = sweep_saw steps (next a x) out (went_past steps x true out e).1

next_inside :
    (a : Allocator) (x : Addr)
    → IsPool a
    → InPool a x
    → x.value < a.last.value
    → (next a x).value ≡ x.value + 1
unfolding next addr_lt
next_inside a x v h lt = ground arith

next_end :
    (a : Allocator) (x : Addr)
    → IsPool a
    → InPool a x
    → x.value ≡ a.last.value
    → (next a x).value ≡ a.first.value
unfolding next addr_lt
next_end a x v h e = ground arith

same_addr : (a : Allocator) (x y : Addr) → InPool a x → InPool a y → x.value ≡ y.value → x ≡ y
same_addr a x y h k e = ground arith

module _ (a : Allocator) (now : ℕ) (v : IsPool a) where
  pub sweep-Free :
      (steps : ℕ) (x y : Addr) (saw : Bool)
      → InPool a x
      → (sweep a now steps x saw).0 ≡ some y
      → Free a now y × InPool a y
  unfolding sweep
  sweep-Free zero x y saw h e = absurd (cc)
  sweep-Free (suc steps) x y saw h e = elim (Bool-cases (is_allocatable a x now).0) [
    | inl free ↦
        let same : x ≡ y = cc (stops_here a now steps x saw free) in
        (rw (← same) free, rw (← same) h)
    | inr busy ↦
        sweep-Free steps (next a x) y (saw || (is_allocatable a x now).1) (next-InPool a x v h)
          (rw busy at e)
  ]

  passed :
      (steps : ℕ) (x : Addr) (saw out : Bool)
      → Busy a now x
      → sweep a now steps (next a x) (saw || (is_allocatable a x now).1) ≡ (none, out)
      → Passed a now x out
  passed steps x saw out busy rest = elim (Bool-cases (is_allocatable a x now).1) [
    | inl cold ↦ (busy, inl (sweep_saw a now steps (next a x) out (rw (cold, or_true saw) at rest)))
    | inr warm ↦ (busy, inr warm)
  ]

  -- Up to the end of the prefix.
  ahead :
      (steps : ℕ) (x y : Addr) (saw out : Bool)
      → InPool a x
      → InPool a y
      → sweep a now steps x saw ≡ (none, out)
      → x.value ≤ y.value
      → y.value < x.value + steps
      → Passed a now y out
  ahead zero x y saw out h k e le lt = absurd (omega arith)
  ahead (suc steps) x y saw out h k e le lt =
      let (busy, rest) = went_past a now steps x saw out e in
      elim (ℕ_discrete x.value y.value) [
        | yes here ↦ rw (same_addr a x y h k here) at (passed steps x saw out busy rest)
        | no further ↦
            ahead steps (next a x) y (saw || (is_allocatable a x now).1) out (next-InPool a x v h) k
              rest (omega (arith, next_inside a x v h (omega arith)))
              (omega (arith, next_inside a x v h (omega arith)))
      ]

  -- On from the start of the prefix, once its end is passed.
  around :
      (steps : ℕ) (x y : Addr) (saw out : Bool)
      → InPool a x
      → InPool a y
      → sweep a now steps x saw ≡ (none, out)
      → y.value < x.value
      → (a.last.value + 1) + y.value < a.first.value + x.value + steps
      → Passed a now y out
  around zero x y saw out h k e lt far = absurd (omega arith)
  around (suc steps) x y saw out h k e lt far =
      let (busy, rest) = went_past a now steps x saw out e in
      let inside = next-InPool a x v h in
      elim (ℕ_discrete x.value a.last.value) [
        | yes here ↦
            ahead steps (next a x) y (saw || (is_allocatable a x now).1) out inside k rest
              (omega (arith, next_end a x v h here)) (omega (arith, next_end a x v h here))
        | no further ↦
            around steps (next a x) y (saw || (is_allocatable a x now).1) out inside k rest
              (omega (arith, next_inside a x v h (omega arith)))
              (omega (arith, next_inside a x v h (omega arith)))
      ]

  -- As many steps as the prefix has addresses see them all.
  pub sweep-none :
      (steps : ℕ) (x y : Addr) (saw out : Bool)
      → InPool a x
      → InPool a y
      → sweep a now steps x saw ≡ (none, out)
      → a.last.value + 1 ≤ a.first.value + steps
      → Passed a now y out
  sweep-none steps x y saw out h k e enough = elim (dec_lt y.value x.value) [
    | yes behind ↦ around steps x y saw out h k e behind (omega arith)
    | no before ↦ ahead steps x y saw out h k e (omega arith) (omega arith)
  ]

  -- A sweep that says so went past a quarantined address.
  pub sweep_cold :
      (steps : ℕ) (x : Addr) (saw : Bool)
      → InPool a x
      → sweep a now steps x saw ≡ (none, true)
      → (saw ≡ true) ⊎ ((y : Addr) × InPool a y × ((is_allocatable a y now).1 ≡ true))
  sweep_cold zero x saw h e = unfold sweep in inl (ap (λ (p : Option Addr × Bool). p.1) e)
  sweep_cold (suc steps) x saw h e =
      elim (sweep_cold steps (next a x) (saw || (is_allocatable a x now).1) (next-InPool a x v h)
        (went_past a now steps x saw true e).1) [
          | inr found ↦ inr found
          | inl seen ↦ elim (Bool-cases (is_allocatable a x now).1) [
            | inl cold ↦ inr (x, h, cold)
            | inr warm ↦ inl (ground arith)
          ]
        ]
