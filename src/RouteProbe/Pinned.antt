-- ===== src/RouteProbe/Pinned.antt =====
-- A pinned group under failing probes.
use meshp.Prelude.{ℕ, ◌+◌, ◌≤◌, ◌≡◌, ◌≢◌, ◌∙◌, arith, true, false, some, List, ◌∷◌, String}
use meshp.Prelude.Equality.{equal, string_eq, equal_ne, equal_refl}
use meshp.Prelude.Assoc.{lookup}
use meshp.RouteProbe.Assignment.{Assignment, Candidate, pinned, ProbeResult, limits, may_move}
use meshp.RouteProbe.Chooser.{
  Chooser, GroupState, current, current_of, choose, observe, observe_state, judge, escape, fallback,
}

fallback_second :
    (first second : Candidate) (rest : List Candidate)
    → fallback (first ∷ second ∷ rest) first.advertiser_id ≡ second.advertiser_id
unfolding fallback
fallback_second first second rest = rw (equal_refl first.advertiser_id)

judge_switches :
    (a : Assignment) (r : ProbeResult) (s : GroupState) (now : ℕ) (next : String)
    → may_move a.local_failover ≡ true
    → r.reachable ≡ false
    → (limits a.local_failover).fail_threshold ≤ s.consecutive_fail + 1
    → fallback a.candidates s.current_id ≡ next
    → next ≢ ""
    → ((judge a r s now).1.report ≡ true)
      × ((judge a r s now).1.switched ≡ s.current_id)
      × ((judge a r s now).1.current ≡ next)
unfolding judge escape
judge_switches a r s now next allowed bad enough to there = ground (arith, equal_ne next "" there)

current_pinned :
    (c : Chooser) (a : Assignment) (first : Candidate) (rest : List Candidate) (now : ℕ)
    → a.mode ≡ pinned
    → a.candidates ≡ first ∷ rest
    → (current c a now).0 ≡ some first
unfolding current current_of choose
current_pinned c a first rest now mode cands = rw cands (rw mode)

-- `Observe` does not read the mode: in a pinned group that has its first candidate, the failure
-- that reaches the threshold is reported as a switch to the second one, although the next `Current`
-- hands out the first one still.
pub pinned_reports_switch :
    (c : Chooser) (a : Assignment) (first second : Candidate) (rest : List Candidate)
    (s : GroupState) (r : ProbeResult) (now later : ℕ)
    → a.mode ≡ pinned
    → a.candidates ≡ first ∷ second ∷ rest
    → may_move a.local_failover ≡ true
    → lookup a.route_group_id c.groups ≡ some s
    → s.current_id ≡ first.advertiser_id
    → first.advertiser_id ≢ ""
    → second.advertiser_id ≢ ""
    → r.reachable ≡ false
    → (limits a.local_failover).fail_threshold ≤ s.consecutive_fail + 1
    → ((observe c a r now).0.report ≡ true)
      × ((observe c a r now).0.switched ≡ first.advertiser_id)
      × ((observe c a r now).0.current ≡ second.advertiser_id)
      × ((current (observe c a r now).1 a later).0 ≡ some first)
unfolding observe observe_state
pinned_reports_switch c a first second rest s r now later mode cands allowed known here there next
      bad enough =
    let (told, left, to) =
      judge_switches a r s now second.advertiser_id allowed bad enough
        (rw (cands, here) (fallback_second first second rest)) next in
    let set : equal s.current_id "" ≡ false = rw here (equal_ne first.advertiser_id "" there) in
    (
      rw (known, set) told,
      rw (known, set) (left ∙ here),
      rw (known, set) to,
      current_pinned _ a first (second ∷ rest) later mode cands,
    )
