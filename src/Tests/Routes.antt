-- ===== src/Tests/Routes.antt =====
-- A route group of three advertisers, with scores from the length of what is hashed.
use Prim.Native.String.{len}
use meshp.Prelude.{◌+◌, ◌≡◌, ◌≢◌, refl, [], ◌∷◌, map, length}
use meshp.Prelude.Int.{pos, negsuc}
use meshp.Prelude.Equality.{ne_of_equal, string_eq}
use meshp.Prelude.Order.{sort_by}
use meshp.Prelude.Sorting.{filter}
use meshp.Health.Signals.{healthy, degraded, unhealthy}
use meshp.Routes.Select.{
  Scores, enabled, draining, failover, pinned, Advertiser, Request, Offer, select, drains, by_rank,
  rank_all, rank_one, before,
}
use meshp.Routes.Removal.{other_than, without, removal_moves_no_other}
use meshp.Routes.Ranking.{Leads, MayLead, select-Leads}
use meshp.Routes.Order.{select_ignores_order}
use meshp.Routes.Offers.{may_offer, select_offers}

abbrev lengths : Scores
lengths = record { sum = λ s. len s; quotient = λ weight n. weight + n }

abbrev exit_a : Advertiser
exit_a = record {
  id = "a";
  peer_public_key = "ka";
  priority = pos 10;
  weight = pos 100;
  admin = enabled;
  health = degraded;
  region = "eu";
  city = "Oslo";
  display_name = "A";
}

abbrev exit_b : Advertiser
exit_b = record exit_a { id = "b"; health = healthy; priority = pos 20 }

abbrev exit_c : Advertiser
exit_c = record exit_a { id = "c"; health = healthy; admin = draining; weight = negsuc 0 }

abbrev exit_d : Advertiser
exit_d = record exit_a { id = "d"; health = unhealthy }

abbrev request : Request
request = record {
  device_key = "m1";
  current = "c";
  mode = failover;
  advertisers = exit_a ∷ exit_b ∷ exit_c ∷ exit_d ∷ [];
}

abbrev fixed : Request
fixed = record request { mode = pinned }

in_order : map (λ (c : Offer). c.advertiser.id) (select lengths request) ≡ "b" ∷ "a" ∷ "c" ∷ []
unfolding select by_rank rank_all rank_one before sort_by
in_order = refl

select_offers_example :
    length (filter (λ (c : Offer). drains c.advertiser.admin) (select lengths request))
    ≡ length (filter (λ a. drains a.admin) (filter (may_offer request) request.advertisers))
select_offers_example = select_offers lengths request (λ a. drains a.admin) refl

select-Leads_example :
    Leads (λ (c d : Offer). MayLead c.advertiser d.advertiser) (select lengths request)
select-Leads_example = select-Leads lengths request refl

removal_moves_no_other_example :
    select lengths (without "a" request)
    ≡ filter (λ c. other_than "a" c.advertiser) (select lengths request)
removal_moves_no_other_example = removal_moves_no_other lengths request "a" refl

has_exit : fixed.current ≢ ""
has_exit e = absurd (cc e)

select_ignores_order_example :
    select lengths (record request { advertisers = exit_a ∷ exit_b ∷ exit_c ∷ [] })
    ≡ select lengths (record request { advertisers = exit_a ∷ exit_c ∷ exit_b ∷ [] })
select_ignores_order_example =
    select_ignores_order lengths request (exit_a ∷ []) exit_b exit_c [] (ne_of_equal "b" "c" refl)
