-- ===== src/RouteProbe/Escape.antt =====
-- A run of probe results on one group, and how fast a device leaves a dead advertiser.
use meshp.Prelude.{
  ℕ, ◌+◌, ◌≤◌, ◌<◌, ◌≡◌, ◌≢◌, ap, ◌∙◌, arith, true, false, List, [], ◌∷◌, All, length,
}
use meshp.Prelude.Equality.{string_eq, equal_ne}
use meshp.RouteProbe.Assignment.{Assignment, ProbeResult, limits, may_move}
use meshp.RouteProbe.Chooser.{GroupState, fallback, escape, judge}

-- The results of the probes of one group, each with the clock's reading.
abbrev pub Probes : Type 0
Probes = List (ProbeResult × ℕ)

unfoldable pub judge_all : Assignment → GroupState → Probes → GroupState
judge_all a s [] = s
judge_all a s ((r, now) ∷ rest) = judge_all a (judge a r s now).0 rest

failing_before :
    (a : Assignment) (r : ProbeResult) (s : GroupState) (now : ℕ)
    → may_move a.local_failover ≡ true
    → r.reachable ≡ false
    → s.consecutive_fail + 1 < (limits a.local_failover).fail_threshold
    → ((judge a r s now).0.current_id ≡ s.current_id)
      × ((judge a r s now).0.consecutive_fail ≡ s.consecutive_fail + 1)
unfolding judge escape
failing_before a r s now allowed failing early = ground arith

failing_last :
    (a : Assignment) (r : ProbeResult) (s : GroupState) (now : ℕ)
    → may_move a.local_failover ≡ true
    → r.reachable ≡ false
    → (limits a.local_failover).fail_threshold ≤ s.consecutive_fail + 1
    → fallback a.candidates s.current_id ≢ ""
    → (judge a r s now).0.current_id ≡ fallback a.candidates s.current_id
unfolding judge escape
failing_last a r s now allowed failing enough next =
    ground (arith, equal_ne (fallback a.candidates s.current_id) "" next)

-- However the clock stands and however young the choice is, the failures that are missing to the
-- threshold take the device to the next candidate, if there is one and the policy lets it move.
pub failures_escape :
    (a : Assignment) (s : GroupState) (probes : Probes)
    → may_move a.local_failover ≡ true
    → All (λ p. p.0.reachable ≡ false) probes
    → 0 < length probes
    → s.consecutive_fail + length probes ≡ (limits a.local_failover).fail_threshold
    → fallback a.candidates s.current_id ≢ ""
    → (judge_all a s probes).current_id ≡ fallback a.candidates s.current_id
unfolding judge_all
failures_escape a s [] allowed bad busy count next = absurd (omega arith)
failures_escape a s ((r, now) ∷ []) allowed bad busy count next =
    failing_last a r s now allowed bad.0 (omega arith) next
failures_escape a s ((r, now) ∷ p ∷ rest) allowed bad busy count next =
    let (same, more) = failing_before a r s now allowed bad.0 (omega arith) in
    failures_escape a (judge a r s now).0 (p ∷ rest) allowed bad.1 (omega arith) (omega arith)
      (rw same next)
    ∙ ap (λ id. fallback a.candidates id) same
