-- ===== src/Wgplan/Withdraw.antt =====
-- `Teardown`: an interface is withdrawn.
use mathlib.Core.List.{append_assoc}
use meshp.Prelude.{
  true, false, not, ◌&&◌, ◌≡◌, refl, sym, ap, ◌∙◌, arith, some, List, [], ◌∷◌, ◌++◌, map,
}
use meshp.Prelude.Equality.{equal_iff}
use meshp.Prelude.Keyed.{elem}
use meshp.Netip.{Prefix, prefix_eq}
use meshp.Wgplan.Types.{Texts, Op, remove_address, remove_route, destroy_device}
use meshp.Wgplan.Prefixes.{sort_prefixes}
use meshp.Wgplan.Plan.{teardown}
use meshp.Wgplan.Host.{Choices, Host, no_host, execute, run, observe, taken_out}
use meshp.Wgplan.Running.{run_both, elem-taken_out, elem-sort_prefixes}

abbrev all_out : List Prefix → List Prefix → List Prefix
all_out [] l = l
all_out (p ∷ ps) l = all_out ps (taken_out p l)

run-all_out :
    (os : Choices)
    → (put : List Prefix → Host) (kind : Prefix → Op) (ps l : List Prefix)
    → ((p : Prefix) (m : List Prefix) → execute os (kind p) (put m) ≡ some (put (taken_out p m)))
    → run os (map kind ps) (put l) ≡ some (put (all_out ps l))
unfolding run
run-all_out os put kind [] l works = refl
run-all_out os put kind (p ∷ ps) l works =
    rw (works p l) (run-all_out os put kind ps (taken_out p l) works)

teardown_there :
    (t : Texts) (h : Host)
    → h.is_there ≡ true
    → teardown t (observe h)
      ≡ map remove_route (sort_prefixes t h.routes)
        ++ (map remove_address (sort_prefixes t h.addresses) ++ destroy_device ∷ [])
unfolding teardown observe
teardown_there t h there = rw there

elem-all_out :
    (x : Prefix) (ps l : List Prefix) → elem x (all_out ps l) ≡ (not (elem x ps) && elem x l)
unfolding elem
elem-all_out x [] l = refl
elem-all_out x (p ∷ ps) l =
    ground
      (arith, elem-all_out x ps (taken_out p l), elem-taken_out x p l, equal_iff x p, equal_iff p x)

none_left :
    (t : Texts) (x : Prefix) (l : List Prefix) → elem x (all_out (sort_prefixes t l) l) ≡ false
none_left t x l = ground (arith, elem-all_out x (sort_prefixes t l) l, elem-sort_prefixes t x l)

-- The operations of `Teardown` but for the last.
abbrev before_destroy : Texts → Host → List Op
before_destroy t h =
    map remove_route (sort_prefixes t h.routes) ++ map remove_address (sort_prefixes t h.addresses)

-- What they leave.
abbrev bare : Texts → Host → Host
bare t h = record h {
  routes = all_out (sort_prefixes t h.routes) h.routes;
  addresses = all_out (sort_prefixes t h.addresses) h.addresses;
}

run-before_destroy :
    (os : Choices)
    → (t : Texts) (h : Host) → h.is_there ≡ true
    → run os (before_destroy t h) h ≡ some (bare t h)
unfolding execute run
run-before_destroy os t h there =
    let routes = sort_prefixes t h.routes in
    let addresses = sort_prefixes t h.addresses in
    let no_routes = record h { routes = all_out routes h.routes } in
    run_both os (map remove_route routes) (map remove_address addresses) h no_routes _
      (run-all_out os (λ l. record h { routes = l }) remove_route routes h.routes (λ p m. rw there))
      (run-all_out os (λ l. record no_routes { addresses = l }) remove_address addresses h.addresses
        (λ p m. rw there))

run_destroy :
    (os : Choices) → (h : Host) → h.is_there ≡ true → run os (destroy_device ∷ []) h ≡ some no_host
unfolding execute run
run_destroy os h there = rw there

-- Invariant 20, on the interface as each operation is meant to change it: for an interface that is
-- there, `Teardown` destroys the device last, the operations before that leave it with no route and
-- no address, and all of them leave nothing of it, for which there is nothing more to withdraw.
pub teardown_withdraws :
    (os : Choices)
    → (t : Texts) (h : Host) → h.is_there ≡ true
    → (front : List Op) × (teardown t (observe h) ≡ front ++ destroy_device ∷ [])
      × ((h' : Host) × (run os front h ≡ some h')
          × (h'.is_there ≡ true)
          × ((p : Prefix) → (elem p h'.routes ≡ false) × (elem p h'.addresses ≡ false)))
      × (run os (teardown t (observe h)) h ≡ some no_host)
      × (teardown t (observe no_host) ≡ [])
unfolding teardown observe
teardown_withdraws os t h there =
    let front = before_destroy t h in
    let ends : teardown t (observe h) ≡ front ++ destroy_device ∷ [] =
      teardown_there t h there
      ∙ sym (
          append_assoc (map remove_route (sort_prefixes t h.routes))
            (map remove_address (sort_prefixes t h.addresses)) (destroy_device ∷ [])) in
    let ran = run-before_destroy os t h there in
    (
      front,
      ends,
      (bare t h, ran, there, λ p. (none_left t p h.routes, none_left t p h.addresses)),
      ap (λ ops. run os ops h) ends
          ∙ run_both os front (destroy_device ∷ []) h (bare t h) _ ran
              (run_destroy os (bare t h) there),
      refl,
    )
