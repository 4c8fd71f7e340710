-- ===== src/Wgplan/Running.antt =====
-- A plan's operations on prefixes, run one after another, and runs put together.
use meshp.Prelude.{
  ◌≡◌, refl, sym, ◌∙◌, arith, Bool, Bool-cases, true, false, not, ◌&&◌, ◌||◌, inl, inr, Option,
  Option-cases, some, List, [], ◌∷◌, ◌++◌, if◌then◌else◌,
}
use meshp.Prelude.Equality.{Eq, equal, equal_iff, equal_refl}
use meshp.Prelude.Keyed.{elem}
use meshp.Prelude.Members.{elem-filter, elem-sort_by}
use meshp.Netip.{Prefix, prefix_eq}
use meshp.Wgplan.Types.{Texts, Op}
use meshp.Wgplan.Prefixes.{once, by_text, sort_prefixes, ops_for_missing, prefix_ops}
use meshp.Wgplan.Host.{Choices, Host, execute, and_then, run, taken_out, put_in}

pub run-append :
    (os : Choices)
    → (xs ys : List Op) (h : Host) → run os (xs ++ ys) h ≡ and_then (run os xs h) (run os ys)
unfolding run
run-append os [] ys h = refl
run-append os (op ∷ xs) ys h = elim (Option-cases (execute os op h)) [
  | inl e ↦ rw e
  | inr (h', e) ↦ rw e (run-append os xs ys h')
]

-- Two runs that succeed make one that does.
pub run_both :
    (os : Choices)
    → (xs ys : List Op) (h h' : Host) (r : Option Host) → run os xs h ≡ some h'
    → run os ys h' ≡ r
    → run os (xs ++ ys) h ≡ r
run_both os xs ys h h' r e f = run-append os xs ys h ∙ rw e f

elem-once :
    (x : Prefix) (seen ps : List Prefix) → elem x (once seen ps) ≡ (not (elem x seen) && elem x ps)
unfolding elem once
elem-once x seen [] = ground arith
elem-once x seen (p ∷ ps) = elim (Bool-cases (elem p seen)) [
  | inl h ↦ ground (arith, equal_iff p x, elem-once x seen ps)
  | inr h ↦ ground (arith, equal_iff p x, elem-once x (p ∷ seen) ps)
]

pub elem-sort_prefixes :
    (t : Texts) (x : Prefix) (ps : List Prefix) → elem x (sort_prefixes t ps) ≡ elem x ps
unfolding sort_prefixes elem
elem-sort_prefixes t x ps =
    elem-sort_by (by_text t) x (once [] ps) ∙ rw (elem-once x [] ps) (ground arith)

module _ {ℓ} {K : Type ℓ} ⦃e : Eq K⦄ where
  -- The effect of a loop of operations on a list.
  abbrev changed : (K → List K → List K) → List K → List K → List K → List K
  changed change other [] l = l
  changed change other (p ∷ ps) l = changed change other ps (if elem p other then l else change p l)

  pub elem-taken_out :
      (x p : K) (l : List K) → elem x (taken_out p l) ≡ (not (equal x p) && elem x l)
  elem-taken_out x p l = elem-filter (λ q. not (equal q p)) x l

  elem-put_in : (x p : K) (l : List K) → elem x (put_in p l) ≡ (equal p x || elem x l)
  unfolding elem
  elem-put_in x p l = elim (Bool-cases (elem p l)) [
    | inl h ↦ ground (arith, equal_iff p x)
    | inr h ↦ ground arith
  ]

  elem-changed_out :
      (x : K) (other ps l : List K)
      → elem x (changed taken_out other ps l) ≡ (elem x l && not (elem x ps && not (elem x other)))
  unfolding elem
  elem-changed_out x other [] l = ground arith
  elem-changed_out x other (p ∷ ps) l = elim (Bool-cases (elem p other)) [
    | inl h ↦ rw h (ground (arith, equal_iff p x, elem-changed_out x other ps l))
    | inr h ↦ rw h (
        ground (
          arith,
          equal_iff p x,
          equal_iff x p,
          elem-changed_out x other ps (taken_out p l),
          elem-taken_out x p l,
        ))
  ]

  elem-changed_in :
      (x : K) (other ps l : List K)
      → elem x (changed put_in other ps l) ≡ (elem x l || (elem x ps && not (elem x other)))
  unfolding elem
  elem-changed_in x other [] l = ground arith
  elem-changed_in x other (p ∷ ps) l = elim (Bool-cases (elem p other)) [
    | inl h ↦ rw h (ground (arith, equal_iff p x, elem-changed_in x other ps l))
    | inr h ↦
        rw h (
          ground (arith, equal_iff p x, elem-changed_in x other ps (put_in p l), elem-put_in x p l))
  ]

-- A list of prefixes that an interface holds, with the operation that changes it.
run_missing :
    (os : Choices)
    → (put : List Prefix → Host) (kind : Prefix → Op) (change : Prefix → List Prefix → List Prefix)
      (other ps l : List Prefix)
    → ((p : Prefix) (m : List Prefix) → execute os (kind p) (put m) ≡ some (put (change p m)))
    → run os (ops_for_missing other kind ps) (put l) ≡ some (put (changed change other ps l))
unfolding run ops_for_missing
run_missing os put kind change other [] l works = refl
run_missing os put kind change other (p ∷ ps) l works = elim (Bool-cases (elem p other)) [
  | inl h ↦ rw h (run_missing os put kind change other ps l works)
  | inr h ↦ rw (h, works p l) (run_missing os put kind change other ps (change p l) works)
]

-- What the operations of `addPrefixOps` make of a list.
unfoldable pub settled : Texts → List Prefix → List Prefix → List Prefix
settled t have want =
    changed put_in have (sort_prefixes t want) (changed taken_out want (sort_prefixes t have) have)

pub elem-settled :
    (t : Texts) (x : Prefix) (have want : List Prefix) → elem x (settled t have want) ≡ elem x want
unfolding settled
elem-settled t x have want =
    let removed = elem-changed_out x want (sort_prefixes t have) have in
    elem-changed_in x have (sort_prefixes t want)
      (changed taken_out want (sort_prefixes t have) have)
    ∙ rw (removed, elem-sort_prefixes t x have, elem-sort_prefixes t x want)
        (by_cases (elem x have) (elem x want))
  where
    by_cases : (a b : Bool) → ((a && not (a && not b)) || (b && not a)) ≡ b
    by_cases true true = refl
    by_cases true false = refl
    by_cases false true = refl
    by_cases false false = refl

pub run-prefix_ops :
    (os : Choices)
    → (t : Texts) (put : List Prefix → Host) (remove_kind add_kind : Prefix → Op)
      (have want : List Prefix)
    → ((p : Prefix) (m : List Prefix)
        → execute os (remove_kind p) (put m) ≡ some (put (taken_out p m)))
    → ((p : Prefix) (m : List Prefix) → execute os (add_kind p) (put m) ≡ some (put (put_in p m)))
    → run os (prefix_ops t have want remove_kind add_kind) (put have)
      ≡ some (put (settled t have want))
unfolding prefix_ops settled
run-prefix_ops os t put remove_kind add_kind have want out into =
    run_both os (ops_for_missing want remove_kind (sort_prefixes t have))
      (ops_for_missing have add_kind (sort_prefixes t want)) (put have)
      (put (changed taken_out want (sort_prefixes t have) have)) _
      (run_missing os put remove_kind taken_out want (sort_prefixes t have) have out)
      (run_missing os put add_kind put_in have (sort_prefixes t want)
        (changed taken_out want (sort_prefixes t have) have) into)

-- Where both sides have the same elements, nothing is left to do.
none_missing :
    (kind : Prefix → Op) (other ps : List Prefix)
    → ((x : Prefix) → elem x ps ≡ true → elem x other ≡ true)
    → ops_for_missing other kind ps ≡ []
unfolding ops_for_missing elem
none_missing kind other [] all = refl
none_missing kind other (p ∷ ps) all =
    rw (all p (rw (equal_refl p)), none_missing kind other ps (λ x h. all x (ground arith)))

pub prefix_ops_none :
    (t : Texts) (have want : List Prefix) (remove_kind add_kind : Prefix → Op)
    → ((x : Prefix) → elem x have ≡ elem x want)
    → prefix_ops t have want remove_kind add_kind ≡ []
unfolding prefix_ops
prefix_ops_none t have want remove_kind add_kind same = rw (
  none_missing remove_kind want (sort_prefixes t have)
      (λ x h. sym (same x) ∙ (sym (elem-sort_prefixes t x have) ∙ h)),
  none_missing add_kind have (sort_prefixes t want)
      (λ x h. same x ∙ (sym (elem-sort_prefixes t x want) ∙ h)),
)
