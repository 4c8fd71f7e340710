-- ===== src/RouteProbe/Reports.antt =====
-- internal/routeprobe/report.go: the queue of verdicts for the control plane, at most one to a
-- group, kept as the map `Chooser.pending`.
use meshp.Prelude.{
  ℕ, ◌/◌, ◌%◌, ◌^◌, ◌-◌, not, ◌&&◌, Option, none, some, List, [], ◌∷◌, String, ltb, if◌then◌else◌,
}
use meshp.Prelude.Int.{ℤ, pos, negsuc}
use meshp.Prelude.Equality.{equal, string_eq}
use meshp.Prelude.Assoc.{Assoc, lookup, insert}
use meshp.RouteProbe.Assignment.{ProbeResult, Decision, ReachabilityReport}

abbrev pub Pending : Type 0
Pending = Assoc String ReachabilityReport

abbrev pub max_uint32 : ℕ
max_uint32 = 2 ^ 32 - 1

unfoldable pub millis : ℤ → ℕ
millis (negsuc n) = 0
millis (pos n) = if ltb max_uint32 (n / 1_000_000) then max_uint32 else n / 1_000_000

unfoldable pub report_of : String → Decision → ProbeResult → ReachabilityReport
unfolding millis
report_of id d r = record {
  route_group_id = id;
  advertiser_id = d.current;
  reachable = r.reachable;
  rtt_ms = millis r.rtt;
  consecutive_failures = d.consecutive_failures % 2 ^ 32;
  failed_probe_targets = r.failed;
  switched_from_advertiser_id = d.switched;
  switch_reason = d.reason;
}

-- A switch that has not been sent is carried over to a newer verdict on the same advertiser.
unfoldable pub carry :
    Option ReachabilityReport → Decision → ReachabilityReport → ReachabilityReport
carry none d report = report
carry (some previous) d report =
    if equal d.switched ""
      && (not (equal previous.switched_from_advertiser_id "")
          && equal previous.advertiser_id report.advertiser_id)
    then record report {
      switched_from_advertiser_id = previous.switched_from_advertiser_id;
      switch_reason = previous.switch_reason;
    }
    else report

unfoldable pub record_report : String → Decision → ProbeResult → Pending → Pending
unfolding report_of carry
record_report id d r p = insert id (carry (lookup id p) d (report_of id d r)) p

-- `Requeue`: a group with a newer verdict keeps that. A nil report is skipped.
pub keep_newer : Option ReachabilityReport → ReachabilityReport → Pending → Pending
keep_newer (some newer) report p = p
keep_newer none report p = insert report.route_group_id report p

unfoldable pub requeue : Pending → List (Option ReachabilityReport) → Pending
unfolding keep_newer
requeue p [] = p
requeue p (none ∷ rest) = requeue p rest
requeue p (some report ∷ rest) = requeue (keep_newer (lookup report.route_group_id p) report p) rest
