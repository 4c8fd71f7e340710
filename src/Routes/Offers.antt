-- ===== src/Routes/Offers.antt =====
-- Whom `Select` offers.
use meshp.Prelude.{
  ◌≡◌, ◌≢◌, ◌⊎◌, inl, inr, refl, ◌∙◌, arith, Bool, Bool-cases, true, false, not, ◌&&◌, Option-cases,
  none, some, List, [], ◌∷◌, map, length, String,
}
use meshp.Prelude.Equality.{equal, equal_iff, string_eq}
use meshp.Prelude.Order.{sort_by}
use meshp.Prelude.Sorting.{filter, length-filter-sort_by}
use meshp.Health.Signals.{State, offline, unhealthy}
use meshp.Routes.Select.{
  Scores, AdminState, enabled, draining, disabled, failover, pinned, Advertiser, Request, Offer,
  Ranked, before, rank_one, rank_all, by_rank, select, keep_pinned, infinity, is_disabled,
}

abbrev failing : State → Bool
failing unhealthy = true
failing offline = true
failing _ = false

abbrev pub in_service : AdminState → Bool → Bool
in_service enabled mine = true
in_service draining mine = mine
in_service disabled mine = false

-- May be offered to the device: not observed to fail, and in service, or draining while the
-- device still uses it.
abbrev pub may_offer : Request → Advertiser → Bool
may_offer req a = not (failing a.health) && in_service a.admin (equal a.id req.current)

module _ (lib : Scores) (req : Request) (p : Advertiser → Bool) where
  rank_one_count :
      (a : Advertiser)
      → ((may_offer req a ≡ false) × (rank_one lib req a ≡ none))
        ⊎ ((may_offer req a ≡ true)
            × ((r : Ranked) × (rank_one lib req a ≡ some r) × (r.candidate.advertiser ≡ a)))
  unfolding rank_one
  rank_one_count a = elim (Option-cases (rank_one lib req a)) [
    | inl e ↦ inl (ground arith, e)
    | inr (r, e) ↦ inr (ground arith, (r, e, ground arith))
  ]

  rank_all_count :
      (l : List Advertiser)
      → length (filter (λ r. p r.candidate.advertiser) (rank_all lib req l))
        ≡ length (filter p (filter (may_offer req) l))
  unfolding rank_all filter
  rank_all_count [] = refl
  rank_all_count (a ∷ l) = elim (rank_one_count a) [
    | inl (out, e) ↦ rw (out, e) (rank_all_count l)
    | inr (offered, (r, e, same)) ↦ ground (arith, rank_all_count l)
  ]

  map_count :
      (rs : List Ranked)
      → length (filter (λ (c : Offer). p c.advertiser) (map (λ r. r.candidate) rs))
        ≡ length (filter (λ r. p r.candidate.advertiser) rs)
  unfolding filter
  map_count [] = refl
  map_count (r ∷ rs) = ground (arith, map_count rs)

-- A failover group offers exactly the advertisers that may be offered, each as often as the group
-- lists it: whatever the test, as many candidates pass it as such advertisers do. No advertiser
-- that is disabled or observed to fail is among them, and one that drains only for its own device.
pub select_offers :
    (lib : Scores) (req : Request) (p : Advertiser → Bool)
    → req.mode ≡ failover
    → length (filter (λ (c : Offer). p c.advertiser) (select lib req))
      ≡ length (filter p (filter (may_offer req) req.advertisers))
unfolding select by_rank rank_all rank_one
select_offers lib req p f = rw f (
    map_count lib req p (sort_by before (rank_all lib req req.advertisers))
    ∙ (length-filter-sort_by before (λ r. p r.candidate.advertiser)
          (rank_all lib req req.advertisers)
        ∙ rank_all_count lib req p req.advertisers))

-- The advertiser that a pinned device keeps.
abbrev pub kept : String → Advertiser → Bool
kept current a = equal a.id current && not (is_disabled a.admin)

keep_pinned_cases :
    (current : String) (l : List Advertiser)
    → ((filter (kept current) l ≡ []) × (keep_pinned current l ≡ none))
      ⊎ ((a : Advertiser) × (others : List Advertiser) × (filter (kept current) l ≡ a ∷ others)
          × (keep_pinned current l ≡ some a))
unfolding keep_pinned filter
keep_pinned_cases current [] = inl (refl, refl)
keep_pinned_cases current (a ∷ l) = elim (Bool-cases (kept current a)) [
  | inl h ↦ inr (a, filter (kept current) l, ground arith, ground arith)
  | inr h ↦ elim (keep_pinned_cases current l) [
    | inl (empty, e) ↦ inl (ground arith, ground arith)
    | inr (b, others, is, e) ↦ inr (b, others, ground arith, ground arith)
  ]
]

-- A device of a pinned group that has an advertiser is offered that one and no other, whatever its
-- health, where the group lists it in service or draining: the first one listed under its ID.
-- Where the group lists none that may be kept, it is offered what a failover group would offer.
pub pinned_keeps :
    (lib : Scores) (req : Request)
    → req.mode ≡ pinned
    → req.current ≢ ""
    → ((a : Advertiser) × (others : List Advertiser) × (filter (kept req.current) req.advertisers
          ≡ a ∷ others)
        × (select lib req ≡ record { advertiser = a; score = infinity } ∷ []))
      ⊎ ((filter (kept req.current) req.advertisers ≡ [])
          × (select lib req ≡ select lib (record req { mode = failover })))
unfolding select by_rank rank_all rank_one
pinned_keeps lib req f has = elim (keep_pinned_cases req.current req.advertisers) [
  | inl (empty, e) ↦ inr (empty, rw f (ground (arith, equal_iff req.current "")))
  | inr (a, others, is, e) ↦ inl (a, others, is, rw f (ground (arith, equal_iff req.current "")))
]
