-- ===== src/Routes/Ranking.antt =====
-- How the candidates of a failover group follow one another.
use meshp.Prelude.{
  ℕ, ◌<◌, ◌≡◌, ◌⊎◌, inl, inr, refl, arith, true, false, Option-cases, some, List, [], ◌∷◌, All, map,
}
use meshp.Prelude.Int.{ℤ, pos, negsuc, int_lt, int_same}
use meshp.Prelude.Order.{sort_by}
use meshp.Prelude.Sorting.{IsSorted, sort_by-All, sort_by-IsSorted}
use meshp.Routes.Select.{
  Scores, failover, Advertiser, Request, Offer, Ranked, before, drains, rank_one, rank_all, by_rank,
  select, health_class,
}
use meshp.Routes.Removal.{order}

-- One may stand in front of the other: it does not drain where the other does not; where both do
-- or both do not, its health is no worse; and where that is equal too, the operator does not
-- prefer the other.
abbrev pub MayLead : Advertiser → Advertiser → Type 0
MayLead a b =
    ((drains a.admin ≡ false) × (drains b.admin ≡ true))
    ⊎ ((drains a.admin ≡ drains b.admin)
        × ((i : ℕ) × (j : ℕ) × (health_class a.health ≡ some i)
            × (health_class b.health ≡ some j)
            × ((i < j) ⊎ ((i ≡ j) × (int_lt b.priority a.priority ≡ false)))))

-- Each element may stand in front of those behind it.
abbrev pub Leads {ℓ κ} : {A : Type ℓ} → (A → A → Type κ) → List A → Type κ
Leads R [] = Unit
Leads R (x ∷ xs) = All (R x) xs × Leads R xs

-- The keys of a rank are those of its advertiser.
abbrev Keyed : Ranked → Type 0
Keyed r =
    (r.is_draining ≡ drains r.candidate.advertiser.admin)
    × (health_class r.candidate.advertiser.health ≡ some r.class)

abbrev LeadsRank : Ranked → Ranked → Type 0
LeadsRank r s = MayLead r.candidate.advertiser s.candidate.advertiser

int_same_lt : (a b : ℤ) → int_same a b ≡ true → int_lt a b ≡ false
int_same_lt (pos a) (pos b) h = ground arith
int_same_lt (pos a) (negsuc b) h = refl
int_same_lt (negsuc a) (pos b) h = absurd (cc h)
int_same_lt (negsuc a) (negsuc b) h = ground arith

-- The first three keys of two ranks.
keys_in_order :
    (r s : Ranked)
    → before s r ≡ false
    → ((r.is_draining ≡ false) × (s.is_draining ≡ true))
      ⊎ ((r.is_draining ≡ s.is_draining)
          × ((r.class < s.class)
              ⊎ ((r.class ≡ s.class)
                  × (int_lt s.candidate.advertiser.priority r.candidate.advertiser.priority
                      ≡ false))))
unfolding before
keys_in_order r s h =
    ground (arith, int_same_lt s.candidate.advertiser.priority r.candidate.advertiser.priority)

not_after : (r s : Ranked) → Keyed r → Keyed s → before s r ≡ false → LeadsRank r s
not_after r s k l h = elim (keys_in_order r s h) [
  | inl (stays, leaves) ↦ inl (cc, cc)
  | inr (same, rest) ↦ inr (cc, (r.class, s.class, k.1, l.1, rest))
]

rank_one-Keyed :
    (lib : Scores) (req : Request) (a : Advertiser) (r : Ranked)
    → rank_one lib req a ≡ some r
    → Keyed r
unfolding rank_one
rank_one-Keyed lib req a r e = elim (Option-cases (health_class a.health)) [
  | inl no_class ↦ ground arith
  | inr (class, has) ↦ ground arith
]

module _ (lib : Scores) (req : Request) where
  rank_all-Keyed : (l : List Advertiser) → All Keyed (rank_all lib req l)
  unfolding rank_all
  rank_all-Keyed [] = tt
  rank_all-Keyed (a ∷ l) = elim (Option-cases (rank_one lib req a)) [
    | inl none_of_it ↦ rw none_of_it (rank_all-Keyed l)
    | inr (r, e) ↦ rw e (rank_one-Keyed lib req a r e, rank_all-Keyed l)
  ]

in_front :
    (r : Ranked) (rs : List Ranked)
    → Keyed r
    → All Keyed rs
    → All (λ s. before s r ≡ false) rs
    → All (λ (c : Offer). MayLead r.candidate.advertiser c.advertiser) (map (λ s. s.candidate) rs)
in_front r [] k all sorted = tt
in_front r (s ∷ rs) k all sorted = (not_after r s k all.0 sorted.0, in_front r rs k all.1 sorted.1)

leads :
    (rs : List Ranked)
    → All Keyed rs
    → IsSorted before rs
    → Leads (λ (c d : Offer). MayLead c.advertiser d.advertiser) (map (λ s. s.candidate) rs)
leads [] all sorted = tt
leads (r ∷ rs) all sorted = (in_front r rs all.0 all.1 sorted.0, leads rs all.1 sorted.1)

-- The candidates of a failover group come in the order of preference: those that stay before those
-- that drain, then the healthy before the degraded before the unknown, and only among those of
-- equal health in the operator's order of priority.
pub select-Leads :
    (lib : Scores) (req : Request)
    → req.mode ≡ failover
    → Leads (λ (c d : Offer). MayLead c.advertiser d.advertiser) (select lib req)
unfolding select by_rank rank_all rank_one
select-Leads lib req f = rw f (
    leads (sort_by before (rank_all lib req req.advertisers))
      (sort_by-All before Keyed (rank_all lib req req.advertisers)
        (rank_all-Keyed lib req req.advertisers))
      (sort_by-IsSorted before order (rank_all lib req req.advertisers)))
