-- ===== src/Authz/Builtin/Roles.antt =====
-- What each of the built-in roles allows.
use meshp.Prelude.{
  Bool, true, false, ◌&&◌, ◌||◌, not, List, [], ◌∷◌, ◌++◌, ◌≡◌, refl, ap, sym, ◌∙◌, arith,
  if◌then◌else◌, Bool-cases, inl, inr,
}
use meshp.Prelude.Equality.{equal_iff, string_eq}
use meshp.Prelude.Keyed.{elem}
use meshp.Prelude.Members.{elem-append, elem-filter}
use meshp.Prelude.Sorting.{filter}
use meshp.Authz.Catalogue.{
  Permission, Entry, catalogue, known, named, is_read, organization_users_write,
  organization_tokens_write, organization_roles_bind,
}
use meshp.Authz.Set.{new_set, allows}
use meshp.Authz.Set.Granted.{allows-new_set}
use meshp.Authz.Builtin.{
  names, reader_permissions, operator_permissions, administrator_permissions, owner_permissions,
}

elem-names : (p : Permission) (es : List Entry) → elem p (names es) ≡ named p es
unfolding elem named
elem-names p [] = refl
elem-names p (e ∷ es) = ground (arith, elem-names p es)

known-names : (p : Permission) → known p ≡ elem p (names catalogue)
unfolding known
known-names p = sym (elem-names p catalogue)

and_twice : (a b : Bool) → ((a && b) && b) ≡ (b && a)
and_twice a b = ground arith

-- The reader may do exactly what the catalogue has and is a reading.
pub allows-reader :
    (p : Permission) → allows (new_set reader_permissions) p ≡ (known p && is_read p)
allows-reader p =
    allows-new_set reader_permissions p
    ∙ ap (λ b. b && known p) (elem-filter is_read p (names catalogue))
    ∙ ap (λ b. (is_read p && b) && known p) (sym (known-names p))
    ∙ and_twice (is_read p) (known p)

-- A test that every element passes.
abbrev all_pass : (Permission → Bool) → List Permission → Bool
all_pass test [] = true
all_pass test (p ∷ ps) = test p && all_pass test ps

all_pass-elem :
    (test : Permission → Bool) (p : Permission) (ps : List Permission)
    → all_pass test ps ≡ true
    → elem p ps ≡ true
    → test p ≡ true
unfolding elem
all_pass-elem test p [] h e = absurd (cc e)
all_pass-elem test p (q ∷ ps) h e = ground (arith, equal_iff q p, all_pass-elem test p ps)

-- What the administrator lacks.
abbrev pub reserved : List Permission
reserved = organization_users_write ∷ organization_tokens_write ∷ organization_roles_bind ∷ []

agrees : Permission → Bool
unfolding elem
agrees p =
    if elem p reserved
    then not (elem p administrator_permissions)
    else elem p administrator_permissions

administrator_agrees : all_pass agrees (names catalogue) ≡ true
unfolding agrees elem filter
administrator_agrees = refl

agrees_lem :
    (p : Permission) → agrees p ≡ true → elem p administrator_permissions ≡ not (elem p reserved)
unfolding agrees
agrees_lem p h = by_cases (elem p reserved) (elem p administrator_permissions) h
  where
    by_cases : (x y : Bool) → (if x then not y else y) ≡ true → y ≡ not x
    by_cases x y h = ground arith

-- The administrator may do all that is in the catalogue but to manage accounts, to revoke the
-- tokens of others and to bind roles.
pub allows-administrator :
    (p : Permission)
    → allows (new_set administrator_permissions) p ≡ (known p && not (elem p reserved))
allows-administrator p = elim (Bool-cases (known p)) [
  | inl k ↦
      let listed = sym (known-names p) ∙ k in
      let same =
        agrees_lem p (all_pass-elem agrees p (names catalogue) administrator_agrees listed) in
      allows-new_set administrator_permissions p ∙ rw (k, same) (and_true (not (elem p reserved)))
  | inr k ↦
      allows-new_set administrator_permissions p
      ∙ rw k (and_false (elem p administrator_permissions))
]
  where
    and_true : (x : Bool) → (x && true) ≡ x
    and_true x = ground arith

    and_false : (x : Bool) → (x && false) ≡ false
    and_false x = ground arith

-- The owner may do all that is in the catalogue, and nothing else.
pub allows-owner : (p : Permission) → allows (new_set owner_permissions) p ≡ known p
allows-owner p =
    allows-new_set owner_permissions p
    ∙ ap (λ b. b && known p) (sym (known-names p))
    ∙ idem (known p)
  where
    idem : (x : Bool) → (x && x) ≡ x
    idem x = ground arith

abbrev pub implies : Bool → Bool → Bool
implies a b = not a || b

allows-append :
    (xs ys : List Permission) (p : Permission)
    → implies (allows (new_set xs) p) (allows (new_set (xs ++ ys)) p) ≡ true
allows-append xs ys p =
    ap (λ b. implies (allows (new_set xs) p) b)
      (allows-new_set (xs ++ ys) p ∙ ap (λ b. b && known p) (elem-append p xs ys))
    ∙ ap (λ b. implies b ((elem p xs || elem p ys) && known p)) (allows-new_set xs p)
    ∙ more (elem p xs) (elem p ys) (known p)
  where
    more : (x y k : Bool) → implies (x && k) ((x || y) && k) ≡ true
    more x y k = ground arith

-- Each role allows what the one before it does: reader, operator, administrator, owner.
pub roles_nest :
    (p : Permission)
    → (implies (allows (new_set reader_permissions) p) (allows (new_set operator_permissions) p)
        ≡ true)
      × (implies
            (allows (new_set operator_permissions) p)
            (allows (new_set administrator_permissions) p)
          ≡ true)
      × (implies
            (allows (new_set administrator_permissions) p)
            (allows (new_set owner_permissions) p)
          ≡ true)
roles_nest p = (
  allows-append reader_permissions _ p,
  allows-append operator_permissions _ p,
  ap (λ b. implies (allows (new_set administrator_permissions) p) b) (allows-owner p)
      ∙ ap (λ b. implies b (known p)) (allows-administrator p)
      ∙ last (known p) (elem p reserved),
)
  where
    last : (k r : Bool) → implies (k && not r) k ≡ true
    last k r = ground arith
