-- ===== src/Tests/Health.antt =====
-- A monitor with the default policy, through a failure, a recovery and a silence.
use meshp.Prelude.{ℕ, ◌*◌, ◌≤◌, ◌≡◌, refl, List, [], ◌∷◌, ◌++◌, arith}
use meshp.Prelude.Int.{pos}
use meshp.Health.Signals.{healthy, no_signal, ok, fail, Report, verdict_fail, verdict}
use meshp.Health.Monitor.{
  Policy, Monitor, new_monitor, second, observe, tick, observe_verdict, count, desired, transition,
  silent, settle, with_defaults,
}
use meshp.Health.Run.{improvement, Event, report_at, step, run, seen, improved_at}
use meshp.Health.Cooldown.{Spaced, improvements-Spaced}
use meshp.Health.Streaks.{fail_streak, unhealthy_needs_streak}

abbrev unset : Policy
unset = record {
  fail_threshold = pos 0;
  recover_threshold = pos 0;
  degrade_threshold = pos 0;
  cooldown = pos 0;
  offline_after = pos 0;
}

abbrev good : Report
good = record { self_report = ok; control_probe = no_signal; client_observed = ok }

abbrev bad : Report
bad = record { self_report = ok; control_probe = no_signal; client_observed = fail }

abbrev at : ℕ → ℕ
at n = n * second

abbrev fresh : Monitor
fresh = new_monitor unset

abbrev flapping : List Event
flapping =
    report_at good (at 1)
    ∷ report_at bad (at 2)
    ∷ report_at bad (at 3)
    ∷ report_at bad (at 4)
    ∷ report_at good (at 5)
    ∷ report_at good (at 301)
    ∷ []

flapping_improves : improved_at fresh flapping ≡ at 301 ∷ []
unfolding improved_at improvement step observe tick observe_verdict verdict count desired transition
    silent settle new_monitor with_defaults
flapping_improves = refl

abbrev working : Monitor
working = record fresh { state = healthy; last_report = at 10; last_improved = at 5 }

improvements-Spaced_example : Spaced (300 * second) (improved_at fresh flapping)
unfolding new_monitor with_defaults
improvements-Spaced_example = improvements-Spaced fresh flapping (omega arith) (omega arith)

abbrev two_bad : List Event
two_bad = report_at bad (at 1) ∷ report_at bad (at 2) ∷ []

unhealthy_needs_streak_example :
    (seen (report_at bad (at 3)) ≡ verdict_fail)
    × (fresh.policy.fail_threshold ≤ fail_streak 0 (two_bad ++ report_at bad (at 3) ∷ []))
unfolding run step observe tick observe_verdict verdict count desired transition silent settle
    new_monitor with_defaults
unhealthy_needs_streak_example =
    unhealthy_needs_streak fresh two_bad (report_at bad (at 3)) (λ e. cc) refl
