-- ===== src/RouteProbe/Choice.antt =====
-- What `Current` hands out.
use meshp.Prelude.{
  ℕ, ◌≡◌, ◌≢◌, ◌⊎◌, inl, inr, arith, some, List, [], ◌∷◌, Option-cases, String, if◌then◌else◌,
}
use meshp.Prelude.Equality.{equal, string_eq, equal_iff}
use meshp.Prelude.Assoc.{lookup, lookup-insert}
use meshp.RouteProbe.Assignment.{Candidate, Assignment, Mode, pinned}
use meshp.RouteProbe.Chooser.{Chooser, GroupState, or_fresh, find, choose, current_of, current}

-- The candidate is one of the list.
abbrev pub Offered : Candidate → List Candidate → Type 0
Offered c [] = ⊥
Offered c (x ∷ xs) = (c ≡ x) ⊎ Offered c xs

pub find-Offered :
    (id : String) (cs : List Candidate) (c : Candidate)
    → find id cs ≡ some c
    → Offered c cs × (c.advertiser_id ≡ id)
unfolding find
find-Offered id [] c h = absurd (cc)
find-Offered id (x ∷ xs) c h = ground (arith, equal_iff x.advertiser_id id, find-Offered id xs c)

-- What `Current` leaves of a group's state: it points at an offered candidate, which is the first
-- one or the one that was in use, and the first one if the group is pinned.
pub record Chose (mode : Mode) (first : Candidate) (rest : List Candidate) (s s' : GroupState)
    (c : Candidate) : Type 0 where
  pub offered : Offered c (first ∷ rest)
  pub current : s'.current_id ≡ c.advertiser_id
  pub preferred : s'.preferred_id ≡ s.preferred_id
  pub kept_or_first : (c ≡ first) ⊎ (find s.current_id (first ∷ rest) ≡ some c)
  pub pinned_first : (mode ≢ pinned) ⊎ (c ≡ first)

choose-Chose :
    (mode : Mode) (first : Candidate) (rest : List Candidate) (s : GroupState) (now : ℕ)
    → Chose mode first rest s (choose mode first rest s now).0 (choose mode first rest s now).1
unfolding choose
choose-Chose mode first rest s now = elim (Option-cases (find s.current_id (first ∷ rest))) [
  | inl gone ↦ ground (arith, equal_iff s.current_id "")
  | inr (c, found) ↦
      ground (arith, equal_iff s.current_id "", find-Offered s.current_id (first ∷ rest) c found)
]

abbrev pub state_of : Chooser → String → GroupState
state_of c id = or_fresh (lookup id c.groups)

-- With candidates to choose from, `Current` hands out one of them and records it as the choice of
-- the group, together with the server's first preference. It is the first one or the one that was
-- in use, and the first one in a pinned group; the choices of other groups stay.
pub current_offers :
    (c : Chooser) (a : Assignment) (first : Candidate) (rest : List Candidate) (now : ℕ)
    → a.candidates ≡ first ∷ rest
    → (found : Candidate) × (s' : GroupState) × ((current c a now).0 ≡ some found)
      × Chose a.mode first rest
          (record (state_of c a.route_group_id) { preferred_id = first.advertiser_id })
          s'
          found
      × ((j : String)
          → lookup j (current c a now).1.groups
            ≡ (if equal a.route_group_id j then some s' else lookup j c.groups))
unfolding current current_of
current_offers c a first rest now e =
    let s : GroupState = record (state_of c a.route_group_id) {
      preferred_id = first.advertiser_id;
    } in
    let chosen = choose a.mode first rest s now in
    (
      chosen.1,
      chosen.0,
      rw e,
      choose-Chose a.mode first rest s now,
      λ j. rw e (lookup-insert a.route_group_id j chosen.0 c.groups),
    )
