-- ===== src/Health/Monitor.antt =====
-- internal/health/health.go: the monitor of one route advertiser. It is locked for the whole of
-- each method, so a method is a function from the monitor and the clock's reading to the monitor
-- and the result. Instants and durations are nanoseconds, and the instant 0 is Go's zero
-- `time.Time`. `Sub` stops at 0 where the clock has gone back: it is compared with positive
-- durations only, as a negative one would be. A reason is kept as data instead of its text.
use meshp.Prelude.{
  ℕ, zero, suc, ◌+◌, ◌-◌, ◌*◌, Bool, true, false, not, ◌&&◌, ◌||◌, Option, none, some, ltb, leb,
  ◌==◌, if◌then◌else◌,
}
use meshp.Prelude.Int.{ℤ, pos, negsuc, positive_or}
use meshp.Health.Signals.{
  State, unknown, offline, unhealthy, degraded, healthy, same_state, rank, Report, Verdict,
  verdict_none, verdict_ok, verdict_fail, verdict_partial, verdict, is_ok,
}

-- The policy as an operator gives it.
pub record Policy : Type 0 where
  pub fail_threshold : ℤ
  pub recover_threshold : ℤ
  pub degrade_threshold : ℤ
  pub cooldown : ℤ
  pub offline_after : ℤ

-- The policy that a monitor runs on: `withDefaults` leaves no field negative.
pub record Tuned : Type 0 where
  pub fail_threshold : ℕ
  pub recover_threshold : ℕ
  pub degrade_threshold : ℕ
  pub cooldown : ℕ
  pub offline_after : ℕ

abbrev pub second : ℕ
second = 1_000_000_000

abbrev pub default_policy : Tuned
default_policy = record {
  fail_threshold = 3;
  recover_threshold = 10;
  degrade_threshold = 3;
  cooldown = 300 * second;
  offline_after = 90 * second;
}

-- A negative cooldown switches it off, and 0 asks for the default.
abbrev tuned_cooldown : ℤ → ℕ
tuned_cooldown (pos zero) = default_policy.cooldown
tuned_cooldown (pos (suc n)) = suc n
tuned_cooldown (negsuc n) = 0

unfoldable pub with_defaults : Policy → Tuned
with_defaults p = record {
  fail_threshold = positive_or default_policy.fail_threshold p.fail_threshold;
  recover_threshold = positive_or default_policy.recover_threshold p.recover_threshold;
  degrade_threshold = positive_or default_policy.degrade_threshold p.degrade_threshold;
  cooldown = tuned_cooldown p.cooldown;
  offline_after = positive_or default_policy.offline_after p.offline_after;
}

pub data Reason : Type 0 where
  nothing_measured ticked clients_reach_it insufficient : Reason
  failed_checks disagreeing_checks successful_checks : ℕ → Reason
  silent_for : ℕ → Reason
  held_back : Reason → ℕ → Reason

pub record Transition : Type 0 where
  pub before : State
  pub after : State
  pub changed : Bool
  pub reason : Reason
  pub suppressed : Bool

pub record Monitor : Type 0 where
  pub policy : Tuned
  pub state : State
  pub consecutive_ok : ℕ
  pub consecutive_fail : ℕ
  pub consecutive_partial : ℕ
  pub last_improved : ℕ
  pub last_report : ℕ

unfoldable pub new_monitor : Policy → Monitor
new_monitor p = record {
  policy = with_defaults p;
  state = unknown;
  consecutive_ok = 0;
  consecutive_fail = 0;
  consecutive_partial = 0;
  last_improved = 0;
  last_report = 0;
}

-- A stored state; `none` is the empty string of a record that never had one.
pub record Snapshot : Type 0 where
  pub state : Option State
  pub consecutive_ok : ℕ
  pub consecutive_fail : ℕ
  pub consecutive_partial : ℕ
  pub last_improved_at : ℕ
  pub last_report_at : ℕ

unfoldable pub snapshot : Monitor → Snapshot
snapshot m = record {
  state = some m.state;
  consecutive_ok = m.consecutive_ok;
  consecutive_fail = m.consecutive_fail;
  consecutive_partial = m.consecutive_partial;
  last_improved_at = m.last_improved;
  last_report_at = m.last_report;
}

abbrev or_unknown : Option State → State
or_unknown none = unknown
or_unknown (some s) = s

unfoldable pub restore : Monitor → Snapshot → Monitor
restore m s = record m {
  state = or_unknown s.state;
  consecutive_ok = s.consecutive_ok;
  consecutive_fail = s.consecutive_fail;
  consecutive_partial = s.consecutive_partial;
  last_improved = s.last_improved_at;
  last_report = s.last_report_at;
}

-- The `switch` of `Observe` over the verdict, once `lastReport` is set.
unfoldable pub count : Verdict → ℕ → Monitor → Monitor
count verdict_none now m = m
count verdict_ok now m = record m {
  consecutive_ok = m.consecutive_ok + 1;
  consecutive_fail = 0;
  consecutive_partial = 0;
  last_report = now;
}
count verdict_fail now m = record m {
  consecutive_fail = m.consecutive_fail + 1;
  consecutive_ok = 0;
  consecutive_partial = 0;
  last_report = now;
}
count verdict_partial now m = record m {
  consecutive_partial = m.consecutive_partial + 1;
  consecutive_ok = 0;
  consecutive_fail = 0;
  last_report = now;
}

-- `desiredLocked`: what the evidence points at, with no regard to the cooldown.
unfoldable pub desired : Verdict → Report → Monitor → State × Reason
desired verdict_fail r m =
    if leb m.policy.fail_threshold m.consecutive_fail
    then (unhealthy, failed_checks m.consecutive_fail)
    else (m.state, insufficient)
desired verdict_partial r m =
    if leb m.policy.degrade_threshold m.consecutive_partial
    then (degraded, disagreeing_checks m.consecutive_partial)
    else (m.state, insufficient)
desired verdict_ok r m =
    if is_ok r.client_observed
    then (healthy, clients_reach_it)
    else if leb m.policy.recover_threshold m.consecutive_ok
    then (healthy, successful_checks m.consecutive_ok)
    else (m.state, insufficient)
desired verdict_none r m = (m.state, insufficient)

-- Silence for `OfflineAfter`; a monitor that never had a report is not silent.
unfoldable pub silent : Monitor → ℕ → Bool
silent m now = not (m.last_report == 0) && leb m.policy.offline_after (now - m.last_report)

unfoldable pub improving : State → State → Bool
unfolding rank
improving from want = ltb 0 (rank from) && ltb (rank from) (rank want)

unfoldable pub cooling : Monitor → ℕ → Bool
cooling m now =
    ltb 0 m.policy.cooldown
    && (not (m.last_improved == 0) && ltb (now - m.last_improved) m.policy.cooldown)

-- The end of `transitionLocked`: the state is set, and an offline one resets the counters.
unfoldable pub commit : Monitor → State → ℕ → Monitor
unfolding improving rank
commit m want now = record m {
  state = want;
  last_improved = if improving m.state want || rank m.state == 0 then now else m.last_improved;
  consecutive_ok = if same_state want offline then 0 else m.consecutive_ok;
  consecutive_fail = if same_state want offline then 0 else m.consecutive_fail;
  consecutive_partial = if same_state want offline then 0 else m.consecutive_partial;
}

-- `transitionLocked` below the offline rule.
unfoldable pub settle : Monitor → State → Reason → ℕ → Monitor × Transition
unfolding improving cooling commit
settle m want why now =
    if same_state want m.state
    then (
      m,
      record {
        before = m.state;
        after = m.state;
        changed = false;
        reason = why;
        suppressed = false;
      },
    )
    else if improving m.state want && cooling m now
    then (
      m,
      record {
        before = m.state;
        after = m.state;
        changed = false;
        reason = held_back why (m.policy.cooldown - (now - m.last_improved));
        suppressed = true;
      },
    )
    else (
      commit m want now,
      record { before = m.state; after = want; changed = true; reason = why; suppressed = false },
    )

unfoldable pub transition : Monitor → State → Reason → ℕ → Monitor × Transition
transition m want why now =
    if silent m now
    then settle m offline (silent_for (now - m.last_report)) now
    else settle m want why now

-- `Observe` behind the verdict: with none, neither the counters nor `lastReport` move.
unfoldable pub observe_verdict : Verdict → Report → Monitor → ℕ → Monitor × Transition
observe_verdict verdict_none r m now = transition m m.state nothing_measured now
observe_verdict v r m now =
    let m' = count v now m in let (want, why) = desired v r m' in transition m' want why now

unfoldable pub observe : Monitor → Report → ℕ → Monitor × Transition
observe m r now = observe_verdict (verdict r) r m now

unfoldable pub tick : Monitor → ℕ → Monitor × Transition
tick m now = transition m m.state ticked now
