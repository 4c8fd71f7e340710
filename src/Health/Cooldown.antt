-- ===== src/Health/Cooldown.antt =====
-- Invariant 10: however an advertiser flaps, its promotions are a cooldown apart.
use meshp.Prelude.{
  ℕ, ◌-◌, ◌≤◌, ◌<◌, ◌≡◌, ◌≢◌, ◌∙◌, inl, inr, Bool-cases, Bool, true, false, arith, List, [], ◌∷◌,
  All,
}
use meshp.Health.Signals.{State, unknown, rank}
use meshp.Health.Monitor.{Monitor, Reason, desired, count, settle}
use meshp.Health.Run.{
  Event, report_at, tick_at, time_of, step, seen, counted, evidence, wanted, step-settle,
  improvement, improved_at,
}
use meshp.Health.Outcomes.{count_keeps, settle-state}

-- Each instant is at least `gap` behind the one before, the first behind `t`.
abbrev pub After : ℕ → ℕ → List ℕ → Type 0
After gap t [] = Unit
After gap t (u ∷ us) = (gap ≤ u - t) × After gap u us

abbrev pub Spaced : ℕ → List ℕ → Type 0
Spaced gap [] = Unit
Spaced gap (t ∷ ts) = After gap t ts

-- What one call does to the record of the last improvement.
record Kept (m m' : Monitor) (improved : Bool) (now : ℕ) : Type 0 where
  policy : m'.policy ≡ m.policy
  dated : improved ≡ true → m'.last_improved ≡ now
  waited :
      improved ≡ true
      → 0 < m.policy.cooldown
      → m.last_improved ≢ 0
      → m.policy.cooldown ≤ now - m.last_improved
  undated : improved ≡ false → m.state ≢ unknown → m'.last_improved ≡ m.last_improved
  known_before : improved ≡ true → m.state ≢ unknown

settle-Kept :
    (m : Monitor) (want : State) (why : Reason) (now : ℕ)
    → Kept m (settle m want why now).0 (improvement (settle m want why now).1) now
unfolding settle improvement rank
settle-Kept m want why now = ground arith

evidence-known : (m : Monitor) (e : Event) → m.state ≢ unknown → (wanted m e).0 ≢ unknown
unfolding wanted evidence desired count
evidence-known m (report_at r now) h = ground arith
evidence-known m (tick_at now) h = ground arith

step-Kept : (m : Monitor) (e : Event) → Kept m (step m e).0 (improvement (step m e).1) (time_of e)
unfolding counted
step-Kept m e = rw step-settle (
    ground (
      arith,
      settle-Kept (counted m e) (wanted m e).0 (wanted m e).1 (time_of e),
      count_keeps (seen e) (time_of e) m,
    ))

step-known : (m : Monitor) (e : Event) → m.state ≢ unknown → (step m e).0.state ≢ unknown
unfolding counted
step-known m e h = rw step-settle (
    ground (
      arith,
      settle-state (counted m e) (wanted m e).0 (wanted m e).1 (time_of e),
      count_keeps (seen e) (time_of e) m,
      evidence-known m e h,
    ))

improvements-After :
    (m : Monitor) (es : List Event) (l : ℕ)
    → All (λ e. 0 < time_of e) es
    → 0 < m.policy.cooldown
    → m.state ≢ unknown
    → m.last_improved ≡ l
    → l ≢ 0
    → After m.policy.cooldown l (improved_at m es)
unfolding improved_at
improvements-After m [] l times on known dated nonzero = tt
improvements-After m (e ∷ es) l times on known dated nonzero =
    let k = step-Kept m e in
    let known' = step-known m e known in
    let rest = λ (l' : ℕ) (d : (step m e).0.last_improved ≡ l') (n : l' ≢ 0).
      rw k.policy at (improvements-After (step m e).0 es l' times.1 (rw k.policy on) known' d n) in
    elim (Bool-cases (improvement (step m e).1)) [
      | inl better ↦
          rw better
            (ground (arith, k.waited better on), rest (time_of e) (k.dated better) (omega arith))
      | inr same ↦ rw same (rest l (k.undated same known ∙ dated) nonzero)
    ]

-- Over any sequence of calls, from any monitor with a cooldown, two improvements that follow one
-- another are at least the cooldown apart, if the clock never shows the zero time.
pub improvements-Spaced :
    (m : Monitor) (es : List Event)
    → All (λ e. 0 < time_of e) es
    → 0 < m.policy.cooldown
    → Spaced m.policy.cooldown (improved_at m es)
unfolding improved_at
improvements-Spaced m [] times on = tt
improvements-Spaced m (e ∷ es) times on =
    let k = step-Kept m e in
    elim (Bool-cases (improvement (step m e).1)) [
      | inl better ↦ rw better (
          rw k.policy at (
            improvements-After (step m e).0 es (time_of e) times.1 (rw k.policy on)
              (step-known m e (k.known_before better)) (k.dated better) (omega arith)))
      | inr same ↦
          rw same (rw k.policy at (improvements-Spaced (step m e).0 es times.1 (rw k.policy on)))
    ]
