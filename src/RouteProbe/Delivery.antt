-- ===== src/RouteProbe/Delivery.antt =====
-- Reports that are taken for delivery and handed back.
use meshp.Prelude.{
  ◌≡◌, refl, ap, ◌∙◌, arith, Bool, Bool-cases, inl, inr, Option, none, some, List, [], ◌∷◌, map,
  String, if◌then◌else◌,
}
use meshp.Prelude.Equality.{equal, string_eq, equal_iff, equal_refl}
use meshp.Prelude.Assoc.{IsMap, lookup}
use meshp.Prelude.Keyed.{IsKeyed}
use meshp.Prelude.Order.{insert_by, sort_by, string_lt}
use meshp.RouteProbe.Assignment.{ReachabilityReport}
use meshp.RouteProbe.Reports.{Pending, requeue}
use meshp.RouteProbe.Chooser.{Chooser, take_pending}
use meshp.RouteProbe.Queue.{first_for, or_else, lookup-requeue}

abbrev by_group : ReachabilityReport → ReachabilityReport → Bool
by_group r s = string_lt r.route_group_id s.route_group_id

abbrev first_of : String → List ReachabilityReport → Option ReachabilityReport
first_of id l = first_for id (map (λ r. some r) l)

first_of-insert_by :
    (id : String) (r : ReachabilityReport) (l : List ReachabilityReport)
    → first_of r.route_group_id l ≡ none
    → first_of id (insert_by by_group r l)
      ≡ (if equal r.route_group_id id then some r else first_of id l)
unfolding first_for insert_by
first_of-insert_by id r [] alone = refl
first_of-insert_by id r (x ∷ l) alone = elim (Bool-cases (by_group r x)) [
  | inl first ↦ rw first
  | inr later ↦ rw later (
      ground (
        arith,
        first_of-insert_by id r l,
        equal_iff x.route_group_id id,
        equal_iff r.route_group_id id,
        equal_iff x.route_group_id r.route_group_id,
      ))
]

first_of-sorted :
    (id : String) (m : Pending)
    → IsMap m
    → IsKeyed (λ r. r.route_group_id) m
    → first_of id (sort_by by_group (map (λ x. x.1) m)) ≡ lookup id m
unfolding first_for sort_by lookup
first_of-sorted id [] w keyed = refl
first_of-sorted id ((k, r) ∷ m) w keyed =
    let own : r.route_group_id ≡ k = keyed k r (rw (equal_refl k)) in
    let later : IsKeyed (λ (s : ReachabilityReport). s.route_group_id) m =
      λ j s l. keyed j s (ground (arith, equal_iff k j, w)) in
    let rest = first_of-sorted id m w.1 later in
    let alone = first_of-sorted r.route_group_id m w.1 later ∙ (ap (λ i. lookup i m) own ∙ w.0) in
    first_of-insert_by id r (sort_by by_group (map (λ x. x.1) m)) alone ∙ rw (rest, own)

-- Reports that were taken and could not be delivered are all there again once they are handed back,
-- but for groups with a newer verdict, which keep that.
pub requeue-take_pending :
    (c : Chooser) (newer : Pending) (id : String)
    → IsMap c.pending
    → IsKeyed (λ (r : ReachabilityReport). r.route_group_id) c.pending
    → lookup id (requeue newer (map (λ r. some r) (take_pending c).0))
      ≡ or_else (lookup id newer) (lookup id c.pending)
unfolding take_pending
requeue-take_pending c newer id w keyed =
    lookup-requeue newer (map (λ r. some r) (sort_by by_group (map (λ x. x.1) c.pending))) id
    ∙ ap (or_else (lookup id newer)) (first_of-sorted id c.pending w keyed)
