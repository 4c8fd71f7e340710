-- ===== src/Wgplan/Validate.antt =====
-- internal/wgplan/wgplan.go: `Interface.Validate`, and `For`, which it guards.
use meshp.Prelude.{
  Bool, true, false, not, ◌&&◌, ◌||◌, Option, none, some, List, [], ◌∷◌, map, String, if◌then◌else◌,
  ◌==◌,
}
use meshp.Prelude.Int.{pos, int_lt}
use meshp.Prelude.Equality.{equal, string_eq}
use meshp.Prelude.Assoc.{Assoc, lookup, insert}
use meshp.Prelude.Keyed.{elem}
use meshp.Prelude.Order.{sort_by}
use meshp.Prelude.Result.{Result, ok, err, ◌>>=◌, ◌>>◌}
use meshp.Netip.{Addr, Prefix, addr_eq, prefix_eq, bit_len, is_valid, overlaps, same_family}
use meshp.Wgplan.Types.{Texts, Peer, Interface, Observed, Op}
use meshp.Wgplan.Prefixes.{by_text}
use meshp.Wgplan.Peers.{is_loopback}
use meshp.Wgplan.Plan.{plan}

pub data PlanError : Type 0 where
  no_name no_private_key bad_mtu no_addresses invalid_address not_a_host_prefix : PlanError
  no_public_key listed_twice relayed_nowhere relayed_elsewhere loopback_unmarked : PlanError
  no_allowed_ips invalid_allowed_ip own_address both_claim overlapping : PlanError

abbrev pub check : Bool → PlanError → Result PlanError (Unit {0})
check bad e = if bad then err e else ok tt

abbrev pub is_host : Prefix → Bool
is_host p = p.bits == bit_len p.addr

unfoldable pub check_addresses : List Prefix → Result PlanError (Unit {0})
check_addresses [] = ok tt
check_addresses (p ∷ ps) =
    check (not (is_valid p)) invalid_address
    >> check (not (is_host p)) not_a_host_prefix
    >> check_addresses ps

abbrev pub claim {ℓ} : {A : Type ℓ} → Option String → Result PlanError A → Result PlanError A
claim none rest = rest
claim (some other) rest = err both_claim

-- The loop over the allowed IPs of a peer, which adds to who claimed which prefix.
unfoldable pub check_prefixes :
    List Addr → String → List Prefix → Assoc Prefix String → Result PlanError (Assoc Prefix String)
check_prefixes own key [] claimed = ok claimed
check_prefixes own key (p ∷ ps) claimed =
    check (not (is_valid p)) invalid_allowed_ip
    >> check (elem p.addr own && is_host p) own_address
    >> claim (lookup p claimed) (check_prefixes own key ps (insert p key claimed))

abbrev pub is_empty {ℓ} : {A : Type ℓ} → List A → Bool
is_empty [] = true
is_empty (x ∷ xs) = false

abbrev pub is_default : Prefix → Bool
is_default p = p.bits == 0

-- The body of the two loops over the claimed prefixes: they are another's, both are default
-- routes or neither is, and they overlap.
unfoldable pub steals : Assoc Prefix String → Prefix → Prefix → Bool
steals claimed p q =
    not (same_holder (lookup p claimed) (lookup q claimed))
    && (same_family (is_default p) (is_default q) && overlaps p q)
  where
    same_holder : Option String → Option String → Bool
    same_holder (some a) (some b) = equal a b
    same_holder none none = true
    same_holder _ _ = false

unfoldable pub steals_any : Assoc Prefix String → Prefix → List Prefix → Bool
steals_any claimed p [] = false
steals_any claimed p (q ∷ qs) = steals claimed p q || steals_any claimed p qs

unfoldable pub any_theft : Assoc Prefix String → List Prefix → Bool
any_theft claimed [] = false
any_theft claimed (p ∷ ps) = steals_any claimed p ps || any_theft claimed ps

module _ (t : Texts) where
  -- What the loop asks of a peer by itself.
  unfoldable pub check_peer : Peer → Result PlanError (Unit {0})
  check_peer p =
      check (p.relayed && equal p.endpoint "") relayed_nowhere
      >> check (p.relayed && not (is_loopback t p.endpoint)) relayed_elsewhere
      >> check (not p.relayed && is_loopback t p.endpoint) loopback_unmarked
      >> check (is_empty p.allowed_ips) no_allowed_ips

  -- The loop over the peers.
  unfoldable pub check_peers :
      List Addr
      → List String
      → List Peer
      → Assoc Prefix String
      → Result PlanError (Assoc Prefix String)
  check_peers own seen [] claimed = ok claimed
  check_peers own seen (p ∷ ps) claimed =
      check (equal p.public_key "") no_public_key
      >> check (elem p.public_key seen) listed_twice
      >> check_peer p
      >> (check_prefixes own p.public_key p.allowed_ips claimed >>= λ claimed'.
          check_peers own (p.public_key ∷ seen) ps claimed')

  abbrev pub claimed_prefixes : Assoc Prefix String → List Prefix
  claimed_prefixes claimed = sort_by (by_text t) (map (λ x. x.0) claimed)

  unfoldable pub validate : Interface → Result PlanError (Unit {0})
  validate want =
      check (equal want.name "") no_name
      >> check (equal want.private_key "") no_private_key
      >> check (not (int_lt (pos 0) want.mtu)) bad_mtu
      >> check (is_empty want.addresses) no_addresses
      >> check_addresses want.addresses
      >> (check_peers (map (λ p. p.addr) want.addresses) [] want.peers [] >>= λ claimed.
          check (any_theft claimed (claimed_prefixes claimed)) overlapping)

  -- `For`
  unfoldable pub plan_for : Interface → Observed → Result PlanError (List Op)
  plan_for want seen = validate want >> ok (plan t want seen)
