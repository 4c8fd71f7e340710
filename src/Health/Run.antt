-- ===== src/Health/Run.antt =====
-- A monitor's life: the calls of `Observe` and `Tick` in their order, with the clock's readings.
use meshp.Prelude.{ℕ, ◌-◌, ◌≡◌, refl, arith, ◌∙◌, Bool, ◌&&◌, List, [], ◌∷◌, if◌then◌else◌, ltb}
use meshp.Health.Signals.{
  Report, Verdict, verdict_none, verdict_ok, verdict_fail, verdict_partial, verdict, State, offline,
  rank,
}
use meshp.Health.Monitor.{
  Monitor, Transition, Reason, nothing_measured, ticked, silent_for, count, desired, silent, settle,
  transition, observe_verdict, observe, tick,
}

pub data Event : Type 0 where
  report_at : Report → ℕ → Event
  tick_at : ℕ → Event

abbrev pub time_of : Event → ℕ
time_of (report_at r now) = now
time_of (tick_at now) = now

unfoldable pub step : Monitor → Event → Monitor × Transition
step m (report_at r now) = observe m r now
step m (tick_at now) = tick m now

-- The verdict of an event, the monitor once it has counted it, and the state it then asks for.
unfoldable pub seen : Event → Verdict
seen (report_at r now) = verdict r
seen (tick_at now) = verdict_none

unfoldable pub counted : Monitor → Event → Monitor
unfolding seen
counted m e = count (seen e) (time_of e) m

abbrev evidence_of : Verdict → Report → Monitor → State × Reason
evidence_of verdict_none r m = (m.state, nothing_measured)
evidence_of v r m = desired v r m

unfoldable pub evidence : Monitor → Event → State × Reason
evidence m (report_at r now) = evidence_of (verdict r) r (count (verdict r) now m)
evidence m (tick_at now) = (m.state, ticked)

unfoldable pub wanted : Monitor → Event → State × Reason
unfolding counted
wanted m e =
    if silent (counted m e) (time_of e)
    then (offline, silent_for (time_of e - (counted m e).last_report))
    else evidence m e

observe-settle :
    (v : Verdict) (r : Report) (m : Monitor) (now : ℕ)
    → observe_verdict v r m now
      ≡ transition
          (count v now m)
          (evidence_of v r (count v now m)).0
          (evidence_of v r (count v now m)).1
          now
unfolding observe_verdict count
observe-settle verdict_none r m now = refl
observe-settle verdict_ok r m now = refl
observe-settle verdict_fail r m now = refl
observe-settle verdict_partial r m now = refl

-- Every call ends in `settle`, on the counted monitor and the state asked for.
pub step-settle :
    (m : Monitor) (e : Event)
    → step m e ≡ settle (counted m e) (wanted m e).0 (wanted m e).1 (time_of e)
unfolding step
step-settle m (tick_at now) =
    unfold tick transition wanted counted evidence seen count in ground arith
step-settle m (report_at r now) =
    unfold observe in
    observe-settle (verdict r) r m now
    ∙ (unfold transition wanted counted evidence seen in ground arith)

unfoldable pub run : Monitor → List Event → Monitor
run m [] = m
run m (e ∷ es) = run (step m e).0 es

-- The improvements of a run: when a state that was known gave way to a better one.
unfoldable pub improvement : Transition → Bool
unfolding rank
improvement t = ltb 0 (rank t.before) && ltb (rank t.before) (rank t.after)

unfoldable pub improved_at : Monitor → List Event → List ℕ
improved_at m [] = []
improved_at m (e ∷ es) =
    let later = improved_at (step m e).0 es in
    if improvement (step m e).1 then time_of e ∷ later else later
