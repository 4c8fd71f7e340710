-- ===== src/Tests/RouteProbe.antt =====
-- A device with two advertisers that loses the first one and gets it back.
use meshp.Prelude.{◌≡◌, refl, arith, true, false, none, some, [], ◌∷◌, String, if◌then◌else◌}
use meshp.Prelude.Int.{pos}
use meshp.Prelude.Equality.{equal, string_eq, ne_of_equal}
use meshp.Prelude.Assoc.{lookup, insert}
use meshp.RouteProbe.Assignment.{
  Candidate, Assignment, failover, pinned, ProbeResult, Decision, ReachabilityReport, no_reason,
  stopped_answering, limits, may_move,
}
use meshp.RouteProbe.Reports.{Pending}
use meshp.RouteProbe.Chooser.{
  Chooser, GroupState, new_chooser, current, current_of, choose, observe, fallback,
}
use meshp.RouteProbe.Moves.{Outcome, observe_moves}
use meshp.RouteProbe.Escape.{Probes, judge_all, failures_escape}
use meshp.RouteProbe.Pinned.{pinned_reports_switch}

abbrev primary : Candidate
primary = record { advertiser_id = "primary"; peer_public_key = "k1" }

abbrev backup : Candidate
backup = record { advertiser_id = "backup"; peer_public_key = "k2" }

abbrev group : Assignment
group = record {
  route_group_id = "g";
  mode = failover;
  candidates = primary ∷ backup ∷ [];
  local_failover = none;
}

abbrev lost : ProbeResult
lost = record { reachable = false; rtt = pos 0; failed = "8.8.8.8" ∷ [] }

abbrev good : ProbeResult
good = record { reachable = true; rtt = pos 20_000_000; failed = [] }

abbrev on_primary : GroupState
on_primary = record {
  current_id = "primary";
  consecutive_fail = 0;
  consecutive_ok = 0;
  switched_at = 0;
  preferred_id = "primary";
}

abbrev started : Chooser
started = record { groups = ("g", on_primary) ∷ []; pending = [] }

started_runs : (current new_chooser group 0).1 ≡ started
unfolding current current_of choose lookup insert
started_runs = refl

observe_moves_example :
    (s' : GroupState) × Outcome group lost on_primary s' (observe started group lost 7).0 7
    × ((j : String)
        → lookup j (observe started group lost 7).1.groups
          ≡ (if equal "g" j then some s' else lookup j started.groups))
unfolding lookup
observe_moves_example =
    observe_moves started group lost 7 on_primary refl (ne_of_equal "primary" "" refl)

abbrev three_lost : Probes
three_lost = (lost, 1) ∷ (lost, 2) ∷ (lost, 3) ∷ []

failures_escape_example :
    (judge_all group on_primary three_lost).current_id ≡ fallback group.candidates "primary"
unfolding may_move limits fallback
failures_escape_example =
    failures_escape group on_primary three_lost refl (refl, (refl, (refl, tt))) (omega arith)
      (omega arith) (ne_of_equal "backup" "" refl)

abbrev recovering : GroupState
recovering = record on_primary { current_id = "backup"; consecutive_ok = 8; switched_at = 5 }

abbrev moved : ReachabilityReport
moved = record {
  route_group_id = "g";
  advertiser_id = "backup";
  reachable = false;
  rtt_ms = 0;
  consecutive_failures = 3;
  failed_probe_targets = [];
  switched_from_advertiser_id = "primary";
  switch_reason = stopped_answering;
}

abbrev waiting : Pending
waiting = ("g", moved) ∷ []

abbrev still_there : Decision
still_there = record {
  report = true;
  switched = "";
  reason = no_reason;
  current = "backup";
  consecutive_failures = 0;
}

abbrev failing : GroupState
failing = record on_primary { consecutive_fail = 2 }

abbrev nearly : Chooser
nearly = record { groups = ("g", failing) ∷ []; pending = [] }

abbrev fixed : Assignment
fixed = record group { mode = pinned }

pinned_reports_switch_example :
    ((observe nearly fixed lost 9).0.report ≡ true)
    × ((observe nearly fixed lost 9).0.switched ≡ "primary")
    × ((observe nearly fixed lost 9).0.current ≡ "backup")
    × ((current (observe nearly fixed lost 9).1 fixed 10).0 ≡ some primary)
unfolding lookup may_move limits
pinned_reports_switch_example =
    pinned_reports_switch nearly fixed primary backup [] failing lost 9 10 refl refl refl refl refl
      (ne_of_equal "primary" "" refl) (ne_of_equal "backup" "" refl) refl (omega arith)
