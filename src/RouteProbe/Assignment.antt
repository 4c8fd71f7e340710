-- ===== src/RouteProbe/Assignment.antt =====
-- The messages that internal/routeprobe reads (proto/meshp/v1/control.proto), with the fields that
-- it reads, and the values that it passes on.
use meshp.Prelude.{ℕ, ◌*◌, Bool, true, Option, none, some, List, String, ◌==◌, if◌then◌else◌}
use meshp.Prelude.Int.{ℤ}

pub record Candidate : Type 0 where
  pub advertiser_id : String
  pub peer_public_key : String

pub record LocalFailover : Type 0 where
  pub enabled : Bool
  pub fail_threshold : ℕ  -- uint32
  pub recover_threshold : ℕ  -- uint32
  pub min_hold_seconds : ℕ  -- uint32

pub data Mode : Type 0 where
  unspecified failover pinned : Mode

pub record Assignment : Type 0 where
  pub route_group_id : String
  pub mode : Mode
  pub candidates : List Candidate
  pub local_failover : Option LocalFailover

-- What a probe of the current candidate found. The round trip is in nanoseconds.
pub record ProbeResult : Type 0 where
  pub reachable : Bool
  pub rtt : ℤ
  pub failed : List String

-- The texts of `Decision.Reason`.
pub data Reason : Type 0 where
  no_reason stays_put stopped_answering answering_again : Reason

pub record Decision : Type 0 where
  pub report : Bool
  pub switched : String
  pub reason : Reason
  pub current : String
  pub consecutive_failures : ℕ

pub record ReachabilityReport : Type 0 where
  pub route_group_id : String
  pub advertiser_id : String
  pub reachable : Bool
  pub rtt_ms : ℕ
  pub consecutive_failures : ℕ
  pub failed_probe_targets : List String
  pub switched_from_advertiser_id : String
  pub switch_reason : Reason

abbrev pub second : ℕ
second = 1_000_000_000

abbrev pub default_fail_threshold : ℕ
default_fail_threshold = 3

abbrev pub default_recover_threshold : ℕ
default_recover_threshold = 10

abbrev pub default_min_hold : ℕ
default_min_hold = 60 * second

abbrev pub or_default : ℕ → ℕ → ℕ
or_default v fallback = if v == 0 then fallback else v

-- The thresholds in force; an absent policy reads as zeroes.
pub record Limits : Type 0 where
  pub fail_threshold : ℕ
  pub recover_threshold : ℕ
  pub min_hold : ℕ

unfoldable pub limits : Option LocalFailover → Limits
limits none = record {
  fail_threshold = default_fail_threshold;
  recover_threshold = default_recover_threshold;
  min_hold = default_min_hold;
}
limits (some p) = record {
  fail_threshold = or_default p.fail_threshold default_fail_threshold;
  recover_threshold = or_default p.recover_threshold default_recover_threshold;
  min_hold = if p.min_hold_seconds == 0 then default_min_hold else p.min_hold_seconds * second;
}

-- An absent policy lets the device move.
unfoldable pub may_move : Option LocalFailover → Bool
may_move none = true
may_move (some p) = p.enabled
