-- ===== src/Health/Signals.antt =====
-- internal/health/health.go: the states of an advertiser, the signals of one round of observation,
-- and the verdict that a report of three signals collapses to.
use meshp.Prelude.{ℕ, ◌+◌, Bool, true, false, ◌&&◌, List, [], ◌∷◌, ◌==◌, if◌then◌else◌}

pub data State : Type 0 where
  unknown offline unhealthy degraded healthy : State

pub State-discrete : Discrete State
State-discrete = hlevel

abbrev pub same_state : State → State → Bool
same_state unknown unknown = true
same_state offline offline = true
same_state unhealthy unhealthy = true
same_state degraded degraded = true
same_state healthy healthy = true
same_state _ _ = false

-- `rank`, raised by one: 0 is the -1 of `StateUnknown`.
unfoldable pub rank : State → ℕ
rank unknown = 0
rank offline = 1
rank unhealthy = 2
rank degraded = 3
rank healthy = 4

unfoldable pub usable : State → Bool
usable healthy = true
usable degraded = true
usable _ = false

pub data Signal : Type 0 where
  no_signal ok fail : Signal

pub record Report : Type 0 where
  pub self_report : Signal
  pub control_probe : Signal
  pub client_observed : Signal

pub data Verdict : Type 0 where
  verdict_none verdict_ok verdict_fail verdict_partial : Verdict

abbrev pub is_ok : Signal → Bool
is_ok ok = true
is_ok _ = false

abbrev pub is_fail : Signal → Bool
is_fail fail = true
is_fail _ = false

-- The loop over the three signals, with the counters of `ok` and of `fail`.
unfoldable pub tally : List Signal → ℕ → ℕ → ℕ × ℕ
tally [] oks fails = (oks, fails)
tally (ok ∷ rest) oks fails = tally rest (oks + 1) fails
tally (fail ∷ rest) oks fails = tally rest oks (fails + 1)
tally (no_signal ∷ rest) oks fails = tally rest oks fails

unfoldable pub judge : ℕ → ℕ → Verdict
judge oks fails =
    if oks == 0 && fails == 0
    then verdict_none
    else if fails == 0
    then verdict_ok
    else if oks == 0
    then verdict_fail
    else verdict_partial

unfoldable pub verdict : Report → Verdict
unfolding tally judge
verdict r =
    if is_fail r.client_observed
    then verdict_fail
    else let (oks, fails) = tally (r.self_report ∷ r.control_probe ∷ r.client_observed ∷ []) 0 0 in
      judge oks fails
