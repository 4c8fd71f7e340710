-- ===== src/Health/Streaks.antt =====
-- How much evidence it takes to distrust an advertiser, and how little to trust it again.
use meshp.Prelude.{
  ℕ, suc, ◌+◌, ◌-◌, ◌≤◌, ◌<◌, ◌≡◌, ◌≢◌, ◌⊎◌, true, arith, List, [], ◌∷◌, ◌∙◌, refl, ap, ◌++◌,
}
use meshp.Health.Signals.{
  State, unknown, unhealthy, healthy, Verdict, verdict_none, verdict_ok, verdict_fail,
  verdict_partial, Report, ok, rank, verdict,
}
use meshp.Health.Monitor.{
  Monitor, Reason, desired, count, settle, observe, observe_verdict, transition, silent, Transition,
}
use meshp.Health.Run.{
  Event, report_at, tick_at, time_of, step, run, seen, counted, evidence, wanted, step-settle,
}
use meshp.Health.Outcomes.{count_keeps, settle-state, step-IsFaithful}

-- The failing verdicts in a row at the end, where a call without a verdict does not count.
abbrev pub extend : Verdict → ℕ → ℕ
extend verdict_none n = n
extend verdict_fail n = suc n
extend _ n = 0

abbrev pub fail_streak : ℕ → List Event → ℕ
fail_streak n [] = n
fail_streak n (e ∷ es) = fail_streak (extend (seen e) n) es

count-extend :
    (v : Verdict) (now : ℕ) (m : Monitor)
    → (count v now m).consecutive_fail ≡ extend v m.consecutive_fail
unfolding count
count-extend verdict_none now m = refl
count-extend verdict_ok now m = refl
count-extend verdict_fail now m = omega arith
count-extend verdict_partial now m = refl

settle-consecutive_fail :
    (m : Monitor) (want : State) (why : Reason) (now : ℕ)
    → (settle m want why now).0.consecutive_fail ≤ m.consecutive_fail
unfolding settle
settle-consecutive_fail m want why now = ground arith

step-extend :
    (m : Monitor) (e : Event) → (step m e).0.consecutive_fail ≤ extend (seen e) m.consecutive_fail
unfolding counted
step-extend m e = rw step-settle (
    omega (
      arith,
      settle-consecutive_fail (counted m e) (wanted m e).0 (wanted m e).1 (time_of e),
      count-extend (seen e) (time_of e) m,
    ))

wanted-unhealthy :
    (m : Monitor) (e : Event)
    → m.state ≢ unhealthy
    → (wanted m e).0 ≡ unhealthy
    → (seen e ≡ verdict_fail) × (m.policy.fail_threshold ≤ m.consecutive_fail + 1)
unfolding wanted evidence desired count seen
wanted-unhealthy m (report_at r now) h e = ground arith
wanted-unhealthy m (tick_at now) h e = ground arith

step-unhealthy :
    (m : Monitor) (e : Event)
    → m.state ≢ unhealthy
    → (step m e).0.state ≡ unhealthy
    → (seen e ≡ verdict_fail) × (m.policy.fail_threshold ≤ m.consecutive_fail + 1)
unfolding counted
step-unhealthy m e h u = wanted-unhealthy m e h (
    ground (
      arith,
      settle-state (counted m e) (wanted m e).0 (wanted m e).1 (time_of e),
      ap (λ (p : Monitor × Transition). p.0.state) (step-settle m e),
      count_keeps (seen e) (time_of e) m,
    ))

extend_mono : (v : Verdict) (a b : ℕ) → a ≤ b → extend v a ≤ extend v b
extend_mono verdict_none a b h = h
extend_mono verdict_ok a b h = omega arith
extend_mono verdict_fail a b h = omega arith
extend_mono verdict_partial a b h = omega arith

run-streak :
    (m : Monitor) (n : ℕ) (es : List Event)
    → m.consecutive_fail ≤ n
    → ((run m es).consecutive_fail ≤ fail_streak n es) × ((run m es).policy ≡ m.policy)
unfolding run
run-streak m n [] h = (h, refl)
run-streak m n (e ∷ es) h =
    let bound = extend_mono (seen e) m.consecutive_fail n h in
    let (streak, same) =
      run-streak (step m e).0 (extend (seen e) n) es (omega (arith, step-extend m e)) in
    (streak, same ∙ (step-IsFaithful m e).same_policy)

fail_streak-append :
    (n : ℕ) (es : List Event) (e : Event)
    → fail_streak n (es ++ e ∷ []) ≡ extend (seen e) (fail_streak n es)
fail_streak-append n [] e = refl
fail_streak-append n (d ∷ es) e = fail_streak-append (extend (seen d) n) es e

-- Whatever a monitor went through before, the call that turns it unhealthy brings a failing
-- verdict, and it is the last of at least `fail_threshold` of them in a row, counted with those
-- that the monitor had counted when the calls began.
pub unhealthy_needs_streak :
    (m : Monitor) (es : List Event) (e : Event)
    → (run m es).state ≢ unhealthy
    → (step (run m es) e).0.state ≡ unhealthy
    → (seen e ≡ verdict_fail)
      × (m.policy.fail_threshold ≤ fail_streak m.consecutive_fail (es ++ e ∷ []))
unhealthy_needs_streak m es e h u =
    let (bad, enough) = step-unhealthy (run m es) e h u in
    let (streak, same) = run-streak m m.consecutive_fail es (omega arith) in
    (bad, rw (fail_streak-append, bad) (ground arith))

-- One report in which the clients reach the advertiser and nobody objects makes it healthy at
-- once, except where an improvement of a known state falls within the cooldown and is held back.
pub clients_restore :
    (m : Monitor) (r : Report) (now : ℕ)
    → verdict r ≡ verdict_ok
    → r.client_observed ≡ ok
    → 0 < m.policy.offline_after
    → ((observe m r now).0.state ≡ healthy)
      ⊎ (((observe m r now).0.state ≡ m.state)
          × ((observe m r now).1.suppressed ≡ true)
          × (m.state ≢ unknown)
          × (m.last_improved ≢ 0)
          × (now - m.last_improved < m.policy.cooldown))
unfolding observe observe_verdict count desired transition silent settle rank
clients_restore m r now good clients positive = rw (good, clients) (ground arith)
