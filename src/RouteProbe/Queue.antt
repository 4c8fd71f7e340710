-- ===== src/RouteProbe/Queue.antt =====
-- The verdicts that wait for the control plane, and what is forgotten.
use meshp.Prelude.{
  ℕ, ◌≡◌, ◌≢◌, refl, ◌∙◌, arith, Bool-cases, Option-cases, inl, inr, Option, none, some, List, [],
  ◌∷◌, String, if◌then◌else◌,
}
use meshp.Prelude.Equality.{equal, string_eq, equal_iff, equal_refl}
use meshp.Prelude.Assoc.{IsMap, lookup, lookup-insert, lookup-retain, insert-IsMap}
use meshp.RouteProbe.Assignment.{Assignment, ProbeResult, Decision, ReachabilityReport, Candidate}
use meshp.RouteProbe.Reports.{Pending, report_of, carry, record_report, requeue, keep_newer}
use meshp.RouteProbe.Chooser.{
  Chooser, is_assigned, forget, current, current_of, observe, observe_state, judge,
}

-- While a device stays where an unsent report says that it moved, newer verdicts that replace the
-- report keep saying so, with its reason, and say what the newer probe found.
pub switch_survives :
    (id : String) (d : Decision) (r : ProbeResult) (p : Pending) (previous : ReachabilityReport)
    → lookup id p ≡ some previous
    → previous.switched_from_advertiser_id ≢ ""
    → previous.advertiser_id ≡ d.current
    → d.switched ≡ ""
    → (newer : ReachabilityReport) × (lookup id (record_report id d r p) ≡ some newer)
      × (newer.switched_from_advertiser_id ≡ previous.switched_from_advertiser_id)
      × (newer.switch_reason ≡ previous.switch_reason)
      × (newer.advertiser_id ≡ d.current)
      × (newer.reachable ≡ r.reachable)
unfolding record_report
switch_survives id d r p previous known moved same still = (
  record (report_of id d r) {
    switched_from_advertiser_id = previous.switched_from_advertiser_id;
    switch_reason = previous.switch_reason;
  },
  ground (
    arith,
    equal_iff d.switched "",
    equal_iff previous.switched_from_advertiser_id "",
    equal_iff previous.advertiser_id d.current,
    equal_refl id,
    lookup-insert id id (carry (lookup id p) d (report_of id d r)) p,
  ),
  refl,
  refl,
  refl,
  refl,
)

-- The first of the reports that is about a group.
unfoldable pub first_for : String → List (Option ReachabilityReport) → Option ReachabilityReport
first_for id [] = none
first_for id (none ∷ rest) = first_for id rest
first_for id (some report ∷ rest) =
    if equal report.route_group_id id then some report else first_for id rest

abbrev pub or_else :
    Option ReachabilityReport → Option ReachabilityReport → Option ReachabilityReport
or_else none o = o
or_else (some r) o = some r

-- Putting reports back never replaces a newer verdict of the group, and otherwise brings back the
-- first one of the group that is handed over.
pub lookup-requeue :
    (p : Pending) (reports : List (Option ReachabilityReport)) (id : String)
    → lookup id (requeue p reports) ≡ or_else (lookup id p) (first_for id reports)
unfolding requeue first_for
lookup-requeue p [] id = ground arith
lookup-requeue p (none ∷ rest) id = lookup-requeue p rest id
lookup-requeue p (some report ∷ rest) id =
    lookup-requeue (keep_newer (lookup report.route_group_id p) report p) rest id
    ∙ ground
        (arith, lookup-insert report.route_group_id id report p, equal_iff report.route_group_id id)

-- Both maps have at most one entry to a group.
pub record IsChooser (c : Chooser) : Type 0 where
  pub groups_map : IsMap c.groups
  pub pending_map : IsMap c.pending

pub observe-IsChooser :
    (c : Chooser) (a : Assignment) (r : ProbeResult) (now : ℕ)
    → IsChooser c
    → IsChooser (observe c a r now).1
unfolding observe observe_state record_report
observe-IsChooser c a r now v = elim (Option-cases (lookup a.route_group_id c.groups)) [
  | inl gone ↦ rw gone v
  | inr (s, known) ↦ rw known (elim (Bool-cases (equal s.current_id "")) [
    | inl unset ↦ rw unset v
    | inr chosen ↦ rw chosen (record {
      groups_map = insert-IsMap a.route_group_id (judge a r s now).0 c.groups v.groups_map;
      pending_map = elim (Bool-cases (judge a r s now).1.report) [
        | inl told ↦ rw told (insert-IsMap a.route_group_id _ c.pending v.pending_map)
        | inr quiet ↦ rw quiet v.pending_map
      ];
    })
  ])
]

pub current-IsChooser :
    (c : Chooser) (a : Assignment) (now : ℕ) → IsChooser c → IsChooser (current c a now).1
unfolding current
current-IsChooser c a now v = go a.candidates
  where
    go : (cs : List Candidate) → IsChooser (current_of cs c a now).1
    go [] = unfold current_of in v
    go (x ∷ cs) =
        unfold current_of in
        record {
          groups_map = insert-IsMap a.route_group_id _ c.groups v.groups_map;
          pending_map = v.pending_map;
        }

-- After `Forget` exactly the assigned groups have the choice and the unsent report that they had.
pub forget_lem :
    (c : Chooser) (assigned : List Assignment) (id : String)
    → IsChooser c
    → (lookup id (forget c assigned).groups
        ≡ (if is_assigned assigned id then lookup id c.groups else none))
      × (lookup id (forget c assigned).pending
          ≡ (if is_assigned assigned id then lookup id c.pending else none))
unfolding forget
forget_lem c assigned id v = (
  ground (arith, lookup-retain (λ k s. is_assigned assigned k) id c.groups v.groups_map),
  ground (arith, lookup-retain (λ k s. is_assigned assigned k) id c.pending v.pending_map),
)
