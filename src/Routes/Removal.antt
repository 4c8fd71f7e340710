-- ===== src/Routes/Removal.antt =====
-- Taking an advertiser out of a route group moves nobody but its own devices.
use meshp.Prelude.{
  ◌≡◌, inl, inr, refl, ap, ◌∙◌, sym, arith, Bool, Option-cases, not, some, List, [], ◌∷◌, map,
  String,
}
use meshp.Prelude.Equality.{equal, string_eq}
use meshp.Prelude.Order.{sort_by}
use meshp.Prelude.Sorting.{filter, StrictOrder, filter-sort_by}
use meshp.Routes.Select.{
  Scores, failover, Advertiser, Request, Ranked, before, rank_one, rank_all, by_rank, select,
}
use meshp.Routes.Before.{before_apart, before_one_way}

pub order : StrictOrder before
order = record { one_way = before_one_way; apart = before_apart }

abbrev pub other_than : String → Advertiser → Bool
other_than gone a = not (equal a.id gone)

-- The request with one advertiser taken out of its group.
abbrev pub without : String → Request → Request
without gone req = record req { advertisers = filter (other_than gone) req.advertisers }

module _ (lib : Scores) (gone : String) where
  abbrev keep : Ranked → Bool
  keep r = other_than gone r.candidate.advertiser

  rank_one-advertiser :
      (req : Request) (a : Advertiser) (r : Ranked)
      → rank_one lib req a ≡ some r
      → r.candidate.advertiser ≡ a
  unfolding rank_one
  rank_one-advertiser req a r e = ground arith

  rank_all-filter :
      (req : Request) (l : List Advertiser)
      → rank_all lib req (filter (other_than gone) l) ≡ filter keep (rank_all lib req l)
  unfolding rank_all filter
  rank_all-filter req [] = refl
  rank_all-filter req (a ∷ l) = elim (Option-cases (rank_one lib req a)) [
    | inl none_of_it ↦ ground (arith, rank_all-filter req l)
    | inr (r, e) ↦ ground (arith, rank_one-advertiser req a r e, rank_all-filter req l)
  ]

  map-filter :
      (rs : List Ranked)
      → map (λ r. r.candidate) (filter keep rs)
        ≡ filter (λ c. other_than gone c.advertiser) (map (λ r. r.candidate) rs)
  unfolding filter
  map-filter [] = refl
  map-filter (r ∷ rs) = ground (arith, map-filter rs)

-- Taking an advertiser out of a failover group takes it out of the answer, and leaves every other
-- candidate, its score and their order as they were.
pub removal_moves_no_other :
    (lib : Scores) (req : Request) (gone : String)
    → req.mode ≡ failover
    → select lib (without gone req) ≡ filter (λ c. other_than gone c.advertiser) (select lib req)
unfolding select by_rank rank_all rank_one
removal_moves_no_other lib req gone f = rw f (
    ap (λ rs. map (λ (r : Ranked). r.candidate) (sort_by before rs))
      (rank_all-filter lib gone req req.advertisers)
    ∙ (ap (λ rs. map (λ (r : Ranked). r.candidate) rs)
          (sym (filter-sort_by before order (keep lib gone) (rank_all lib req req.advertisers)))
        ∙ map-filter lib gone (sort_by before (rank_all lib req req.advertisers))))
