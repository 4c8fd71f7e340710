-- ===== src/RouteProbe/Chooser.antt =====
-- internal/routeprobe/routeprobe.go: `Chooser` and its methods, each of which holds the lock for
-- its whole length and so is a function of the state. Instants are nanoseconds; `Sub` stops at 0
-- where the clock has gone back, and is compared with a positive hold only.
use meshp.Prelude.{
  ℕ, ◌+◌, ◌-◌, Bool, true, false, ◌&&◌, ◌||◌, Option, none, some, List, [], ◌∷◌, map, String, ltb,
  ◌==◌, if◌then◌else◌,
}
use meshp.Prelude.Equality.{equal, string_eq}
use meshp.Prelude.Assoc.{Assoc, lookup, insert, retain}
use meshp.Prelude.Order.{string_lt, sort_by}
use meshp.RouteProbe.Assignment.{
  Candidate, Assignment, Mode, pinned, ProbeResult, no_reason, stays_put, stopped_answering,
  answering_again, Decision, ReachabilityReport, Limits, limits, may_move,
}
use meshp.RouteProbe.Reports.{Pending, record_report}

pub record GroupState : Type 0 where
  pub current_id : String  -- empty before anything has been chosen
  pub consecutive_fail : ℕ
  pub consecutive_ok : ℕ
  pub switched_at : ℕ
  pub preferred_id : String

pub record Chooser : Type 0 where
  pub groups : Assoc String GroupState
  pub pending : Pending

abbrev pub new_chooser : Chooser
new_chooser = record { groups = []; pending = [] }

abbrev pub fresh : GroupState
fresh = record {
  current_id = "";
  consecutive_fail = 0;
  consecutive_ok = 0;
  switched_at = 0;
  preferred_id = "";
}

abbrev pub or_fresh : Option GroupState → GroupState
or_fresh none = fresh
or_fresh (some s) = s

abbrev is_pinned : Mode → Bool
is_pinned pinned = true
is_pinned _ = false

unfoldable pub find : String → List Candidate → Option Candidate
find id [] = none
find id (c ∷ cs) = if equal c.advertiser_id id then some c else find id cs

abbrev pub move_to : GroupState → String → ℕ → GroupState
move_to s id now = record s {
  current_id = id;
  switched_at = now;
  consecutive_fail = 0;
  consecutive_ok = 0;
}

-- `Current` behind the search: the candidate in use, or the first where it is gone.
keep_or_first : Option Candidate → Candidate → GroupState → ℕ → GroupState × Candidate
keep_or_first (some c) first s now = (s, c)
keep_or_first none first s now = (move_to s first.advertiser_id now, first)

-- `Current` on the state of one group, which holds the new preference.
unfoldable pub choose : Mode → Candidate → List Candidate → GroupState → ℕ → GroupState × Candidate
unfolding keep_or_first
choose mode first rest s now =
    if is_pinned mode
    then (record s { current_id = first.advertiser_id }, first)
    else if equal s.current_id ""
    then (record s { current_id = first.advertiser_id; switched_at = now }, first)
    else keep_or_first (find s.current_id (first ∷ rest)) first s now

unfoldable pub current_of : List Candidate → Chooser → Assignment → ℕ → Option Candidate × Chooser
current_of [] c a now = (none, c)
current_of (first ∷ rest) c a now =
    let before = or_fresh (lookup a.route_group_id c.groups) in
    let s = record before { preferred_id = first.advertiser_id } in
    let (s', found) = choose a.mode first rest s now in
    (some found, record c { groups = insert a.route_group_id s' c.groups })

unfoldable pub current : Chooser → Assignment → ℕ → Option Candidate × Chooser
current c a now = current_of a.candidates c a now

abbrev pub head_id : List Candidate → String
head_id [] = ""
head_id (c ∷ cs) = c.advertiser_id

-- The candidate behind the current one, or the empty string.
unfoldable pub fallback : List Candidate → String → String
fallback [] id = ""
fallback (c ∷ cs) id = if equal c.advertiser_id id then head_id cs else fallback cs id

-- `observeLocked` where the policy says not to move: the counters still run.
unfoldable pub stay : Limits → ProbeResult → GroupState → Decision → GroupState × Decision
stay l r s d =
    if r.reachable
    then (record s { consecutive_fail = 0; consecutive_ok = s.consecutive_ok + 1 }, d)
    else let s' = record s { consecutive_ok = 0; consecutive_fail = s.consecutive_fail + 1 } in
      let d' = record d { consecutive_failures = s'.consecutive_fail } in
      (
        s',
        if s'.consecutive_fail == l.fail_threshold
            then record d' { report = true; reason = stays_put }
            else d',
      )

-- A failing probe: on to the next candidate, with no hold.
unfoldable pub escape : List Candidate → Limits → GroupState → Decision → ℕ → GroupState × Decision
escape cs l s d now =
    let s' = record s { consecutive_ok = 0; consecutive_fail = s.consecutive_fail + 1 } in
    let d' = record d { consecutive_failures = s'.consecutive_fail } in
    let next = fallback cs s.current_id in
    if ltb s'.consecutive_fail l.fail_threshold || equal next "" then (s', d') else (
      move_to s' next now,
      record d' {
        switched = s.current_id;
        reason = stopped_answering;
        current = next;
        report = true;
      },
    )

-- A good probe: back to the server's preference, behind the recovery threshold and the hold.
unfoldable pub recover : Limits → GroupState → Decision → ℕ → GroupState × Decision
recover l s d now =
    let s' = record s { consecutive_fail = 0; consecutive_ok = s.consecutive_ok + 1 } in
    if equal s.current_id s.preferred_id
    then (s', d)
    else if ltb s'.consecutive_ok l.recover_threshold
    then (s', d)
    else if ltb (now - s.switched_at) l.min_hold
    then (s', d)
    else (
      move_to s' s.preferred_id now,
      record d {
        switched = s.current_id;
        reason = answering_again;
        current = s.preferred_id;
        report = true;
      },
    )

abbrev pub opening : GroupState → Decision
opening s = record {
  report = s.consecutive_fail == 0 && s.consecutive_ok == 0;
  switched = "";
  reason = no_reason;
  current = s.current_id;
  consecutive_failures = 0;
}

-- `observeLocked` on the state of a group that has chosen.
unfoldable pub judge : Assignment → ProbeResult → GroupState → ℕ → GroupState × Decision
judge a r s now =
    if may_move a.local_failover
    then if r.reachable
      then recover (limits a.local_failover) s (opening s) now
      else escape a.candidates (limits a.local_failover) s (opening s) now
    else stay (limits a.local_failover) r s (opening s)

abbrev pub no_decision : Decision
no_decision = record {
  report = false;
  switched = "";
  reason = no_reason;
  current = "";
  consecutive_failures = 0;
}

-- The `if decision.Report` of `Observe`.
abbrev recorded : Assignment → ProbeResult → Decision → Pending → Pending
recorded a r d p = if d.report then record_report a.route_group_id d r p else p

unfoldable pub observe_state :
    Option GroupState → Chooser → Assignment → ProbeResult → ℕ → Decision × Chooser
observe_state none c a r now = (no_decision, c)
observe_state (some s) c a r now =
    if equal s.current_id ""
    then (no_decision, c)
    else let (s', d) = judge a r s now in
      (
        d,
        record c {
          groups = insert a.route_group_id s' c.groups;
          pending = recorded a r d c.pending;
        },
      )

unfoldable pub observe : Chooser → Assignment → ProbeResult → ℕ → Decision × Chooser
unfolding observe_state
observe c a r now = observe_state (lookup a.route_group_id c.groups) c a r now

unfoldable pub is_assigned : List Assignment → String → Bool
is_assigned [] id = false
is_assigned (a ∷ as') id = if equal a.route_group_id id then true else is_assigned as' id

unfoldable pub forget : Chooser → List Assignment → Chooser
forget c assigned = record {
  groups = retain (λ id s. is_assigned assigned id) c.groups;
  pending = retain (λ id r. is_assigned assigned id) c.pending;
}

-- `Pending`: takes the reports that wait, by group.
unfoldable pub take_pending : Chooser → List ReachabilityReport × Chooser
take_pending c = (
  sort_by (λ r s. string_lt r.route_group_id s.route_group_id) (map (λ x. x.1) c.pending),
  record c { pending = [] },
)
