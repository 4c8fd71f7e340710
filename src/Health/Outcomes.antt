-- ===== src/Health/Outcomes.antt =====
-- What a call reports of the monitor that it leaves, on every branch.
use meshp.Prelude.{ℕ, refl, ◌-◌, ◌≤◌, ◌<◌, ◌≡◌, ◌≢◌, ◌⊎◌, ◌↔◌, true, false, arith}
use meshp.Health.Signals.{
  State, offline, Verdict, verdict_none, verdict_ok, verdict_fail, verdict_partial,
}
use meshp.Health.Monitor.{Monitor, Transition, Reason, count, desired, silent, settle}
use meshp.Health.Run.{
  Event, time_of, step, seen, counted, wanted, step-settle, evidence, report_at, tick_at,
}

-- Counting a verdict leaves the policy, the state and the last improvement alone.
pub count_keeps :
    (v : Verdict) (now : ℕ) (m : Monitor)
    → ((count v now m).policy ≡ m.policy)
      × ((count v now m).state ≡ m.state)
      × ((count v now m).last_improved ≡ m.last_improved)
unfolding count
count_keeps verdict_none now m = (refl, refl, refl)
count_keeps verdict_ok now m = (refl, refl, refl)
count_keeps verdict_fail now m = (refl, refl, refl)
count_keeps verdict_partial now m = (refl, refl, refl)

pub record IsFaithful (m m' : Monitor) (t : Transition) : Type 0 where
  pub from_old : t.before ≡ m.state
  pub to_new : t.after ≡ m'.state
  pub changed_iff : (t.changed ≡ true) ↔ (t.before ≢ t.after)
  pub held_back : t.suppressed ≡ true → t.changed ≡ false
  pub same_policy : m'.policy ≡ m.policy

settle-IsFaithful :
    (m : Monitor) (want : State) (why : Reason) (now : ℕ)
    → IsFaithful m (settle m want why now).0 (settle m want why now).1
unfolding settle
settle-IsFaithful m want why now = ground arith

-- Every call reports the state that it found and the state that it leaves, says that it changed
-- exactly when these differ and never of an improvement that it holds back, and keeps the policy.
pub step-IsFaithful : (m : Monitor) (e : Event) → IsFaithful m (step m e).0 (step m e).1
unfolding counted
step-IsFaithful m e = rw step-settle (
    ground (
      arith,
      settle-IsFaithful (counted m e) (wanted m e).0 (wanted m e).1 (time_of e),
      count_keeps (seen e) (time_of e) m,
    ))

settle-offline :
    (m : Monitor) (why : Reason) (now : ℕ) → (settle m offline why now).0.state ≡ offline
unfolding settle
settle-offline m why now = ground arith

-- `settle` leaves the state or takes the one that it is asked for.
pub settle-state :
    (m : Monitor) (want : State) (why : Reason) (now : ℕ)
    → ((settle m want why now).0.state ≡ m.state) ⊎ ((settle m want why now).0.state ≡ want)
unfolding settle
settle-state m want why now = ground arith

count-last_report :
    (v : Verdict) (now : ℕ) (m : Monitor)
    → ((v ≡ verdict_none) → count v now m ≡ m)
      × ((v ≢ verdict_none) → (count v now m).last_report ≡ now)
unfolding count
count-last_report verdict_none now m = (λ _. refl, λ h. absurd (h refl))
count-last_report verdict_ok now m = (λ h. cc, λ _. refl)
count-last_report verdict_fail now m = (λ h. cc, λ _. refl)
count-last_report verdict_partial now m = (λ h. cc, λ _. refl)

evidence-offline : (m : Monitor) (e : Event) → (evidence m e).0 ≡ offline → m.state ≡ offline
unfolding evidence desired count
evidence-offline m (report_at r now) h = ground arith
evidence-offline m (tick_at now) h = h

wanted_silent :
    (m : Monitor) (e : Event)
    → seen e ≡ verdict_none
    → m.last_report ≢ 0
    → m.policy.offline_after ≤ time_of e - m.last_report
    → (wanted m e).0 ≡ offline
unfolding wanted silent
wanted_silent m e quiet heard long =
    rw ((count-last_report (seen e) (time_of e) m).0 quiet) (ground arith)

wanted_heard :
    (m : Monitor) (e : Event)
    → seen e ≢ verdict_none
    → 0 < m.policy.offline_after
    → wanted m e ≡ evidence m e
unfolding wanted silent
wanted_heard m e heard positive =
    ground (
      arith,
      count_keeps (seen e) (time_of e) m,
      (count-last_report (seen e) (time_of e) m).1 heard,
    )

heard_offline :
    (m : Monitor) (e : Event)
    → seen e ≢ verdict_none
    → 0 < m.policy.offline_after
    → (settle (counted m e) (wanted m e).0 (wanted m e).1 (time_of e)).0.state ≡ offline
    → m.state ≡ offline
unfolding counted
heard_offline m e heard positive off = ground (
  arith,
  settle-state (counted m e) (wanted m e).0 (wanted m e).1 (time_of e),
  wanted_heard m e heard positive,
  evidence-offline m e,
  count_keeps (seen e) (time_of e) m,
)

-- A monitor that had a report and has heard nothing for `offline_after` is offline after any call
-- that brings no verdict, whatever its state, its evidence and its cooldown.
pub silence_goes_offline :
    (m : Monitor) (e : Event)
    → seen e ≡ verdict_none
    → m.last_report ≢ 0
    → m.policy.offline_after ≤ time_of e - m.last_report
    → (step m e).0.state ≡ offline
silence_goes_offline m e quiet heard long =
    rw step-settle (rw (wanted_silent m e quiet heard long) (settle-offline (counted m e) _ _))

-- A call that brings a verdict never takes a monitor offline, where no silence of length 0 counts.
pub report_stays_online :
    (m : Monitor) (e : Event)
    → seen e ≢ verdict_none
    → 0 < m.policy.offline_after
    → m.state ≢ offline
    → (step m e).0.state ≢ offline
report_stays_online m e heard positive online off =
    online (heard_offline m e heard positive (rw step-settle at off))
