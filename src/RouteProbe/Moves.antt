-- ===== src/RouteProbe/Moves.antt =====
-- When `Observe` moves a device, and where to.
use meshp.Prelude.{
  ℕ, ◌+◌, ◌-◌, ◌≤◌, ◌≡◌, ◌≢◌, ◌⊎◌, inl, inr, arith, Bool-cases, true, false, some, String,
  if◌then◌else◌,
}
use meshp.Prelude.Equality.{equal, string_eq, equal_iff, equal_ne}
use meshp.Prelude.Assoc.{lookup, lookup-insert}
use meshp.RouteProbe.Assignment.{Assignment, ProbeResult, Decision, limits, may_move}
use meshp.RouteProbe.Chooser.{
  Chooser, GroupState, fallback, escape, recover, stay, opening, judge, observe,
}

-- Nothing moved: the choice, the preference and the time of the choice are the old ones.
pub record Stayed (s s' : GroupState) (d : Decision) : Type 0 where
  pub same_choice : s'.current_id ≡ s.current_id
  pub same_time : s'.switched_at ≡ s.switched_at
  pub nothing_left : d.switched ≡ ""

-- On to the next candidate, after enough failures in a row and with no hold.
pub record Escaped (a : Assignment) (r : ProbeResult) (s s' : GroupState) (now : ℕ) : Type 0 where
  pub allowed : may_move a.local_failover ≡ true
  pub failing : r.reachable ≡ false
  pub enough : (limits a.local_failover).fail_threshold ≤ s.consecutive_fail + 1
  pub next_one : s'.current_id ≡ fallback a.candidates s.current_id
  pub there_is_one : s'.current_id ≢ ""
  pub now_dated : s'.switched_at ≡ now

-- Back to the server's preference, after enough good probes in a row and the hold.
pub record Returned (a : Assignment) (r : ProbeResult) (s s' : GroupState) (now : ℕ) : Type 0 where
  pub allowed : may_move a.local_failover ≡ true
  pub answering : r.reachable ≡ true
  pub elsewhere : s.current_id ≢ s.preferred_id
  pub enough : (limits a.local_failover).recover_threshold ≤ s.consecutive_ok + 1
  pub held : (limits a.local_failover).min_hold ≤ now - s.switched_at
  pub home : s'.current_id ≡ s.preferred_id
  pub now_dated : s'.switched_at ≡ now

-- A move names the choice that it leaves, starts the counters anew and is reported.
pub record Announced (s s' : GroupState) (d : Decision) : Type 0 where
  pub left : d.switched ≡ s.current_id
  pub reported : d.report ≡ true
  pub counters : (s'.consecutive_fail ≡ 0) × (s'.consecutive_ok ≡ 0)

pub record Outcome (a : Assignment) (r : ProbeResult) (s s' : GroupState) (d : Decision) (now : ℕ)
    : Type 0 where
  pub names_choice : d.current ≡ s'.current_id
  pub same_preference : s'.preferred_id ≡ s.preferred_id
  pub moved :
      Stayed s s' d
      ⊎ (Announced s s' d × Escaped a r s s' now)
      ⊎ (Announced s s' d × Returned a r s s' now)

escape-Outcome :
    (a : Assignment) (r : ProbeResult) (s : GroupState) (now : ℕ)
    → may_move a.local_failover ≡ true
    → r.reachable ≡ false
    → let (s', d) = escape a.candidates (limits a.local_failover) s (opening s) now in
      Outcome a r s s' d now
unfolding escape
escape-Outcome a r s now allowed failing =
    ground (arith, equal_iff (fallback a.candidates s.current_id) "")

recover-Outcome :
    (a : Assignment) (r : ProbeResult) (s : GroupState) (now : ℕ)
    → may_move a.local_failover ≡ true
    → r.reachable ≡ true
    → let (s', d) = recover (limits a.local_failover) s (opening s) now in Outcome a r s s' d now
unfolding recover
recover-Outcome a r s now allowed answering = ground (arith, equal_iff s.current_id s.preferred_id)

stay-Outcome :
    (a : Assignment) (r : ProbeResult) (s : GroupState) (now : ℕ)
    → let (s', d) = stay (limits a.local_failover) r s (opening s) in Outcome a r s s' d now
unfolding stay
stay-Outcome a r s now = ground arith

pub judge-Outcome :
    (a : Assignment) (r : ProbeResult) (s : GroupState) (now : ℕ)
    → Outcome a r s (judge a r s now).0 (judge a r s now).1 now
unfolding judge
judge-Outcome a r s now = elim (Bool-cases (may_move a.local_failover)) [
  | inl allowed ↦ elim (Bool-cases r.reachable) [
    | inl answering ↦ simp (allowed, answering) (recover-Outcome a r s now allowed answering)
    | inr failing ↦ simp (allowed, failing) (escape-Outcome a r s now allowed failing)
  ]
  | inr fixed ↦ rw fixed (stay-Outcome a r s now)
]

-- Folding a probe result in changes the state of its group only, the decision names the choice
-- that the group then has, and the choice moves in two ways only: on to the next candidate after
-- the threshold of failures, or back to the server's first preference after the threshold of good
-- probes and the minimum hold; neither where the policy says not to move.
pub observe_moves :
    (c : Chooser) (a : Assignment) (r : ProbeResult) (now : ℕ) (s : GroupState)
    → lookup a.route_group_id c.groups ≡ some s
    → s.current_id ≢ ""
    → (s' : GroupState) × Outcome a r s s' (observe c a r now).0 now
      × ((j : String)
          → lookup j (observe c a r now).1.groups
            ≡ (if equal a.route_group_id j then some s' else lookup j c.groups))
unfolding observe
observe_moves c a r now s known chosen = (
  (judge a r s now).0,
  rw (known, equal_ne s.current_id "" chosen) (judge-Outcome a r s now),
  λ j.
      rw (known, equal_ne s.current_id "" chosen)
        (lookup-insert a.route_group_id j (judge a r s now).0 c.groups),
)
