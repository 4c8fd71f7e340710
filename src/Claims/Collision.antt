-- ===== src/Claims/Collision.antt =====
-- Who is told of a collision.
use meshp.Prelude.{
  Bool, true, false, ◌&&◌, not, List, [], ◌∷◌, Option, none, some, String, if◌then◌else◌, ◌≡◌, refl,
  sym, ◌∙◌, arith, ap,
}
use meshp.Prelude.Equality.{equal, equal_iff, equal_ne, ne_of_equal, equal_refl, string_eq}
use meshp.Prelude.Assoc.{lookup, IsMap, lookup-insert, lookup-delete, insert-IsMap, delete-IsMap}
use meshp.Prelude.Keyed.{elem}
use meshp.Prelude.Members.{elem-sort_by}
use meshp.Prelude.Order.{string_lt}
use meshp.Netip.{Prefix, prefix_eq}
use meshp.Claims.{Claims, declare, others, contested}

-- Whether a membership has declared exactly this prefix.
abbrev pub carries : Option (List Prefix) → Prefix → Bool
carries none p = false
carries (some ps) p = elem p ps

elem-others :
    (b a : String) (p : Prefix) (c : Claims)
    → IsMap c
    → elem b (others a p c) ≡ (not (equal b a) && carries (lookup b c) p)
unfolding others elem lookup
elem-others b a p [] u = ground arith
elem-others b a p ((o, ps) ∷ c) u =
    ground (arith, equal_iff o a, equal_iff o b, equal_iff b a, elem-others b a p c u.1)

pub elem-contested :
    (b a : String) (p : Prefix) (c : Claims)
    → IsMap c
    → elem b (contested a p c) ≡ (not (equal b a) && carries (lookup b c) p)
unfolding contested
elem-contested b a p c u = elem-sort_by string_lt b (others a p c) ∙ elem-others b a p c u

declare-IsMap : (o : String) (ps : List Prefix) (c : Claims) → IsMap c → IsMap (declare o ps c)
unfolding declare
declare-IsMap o [] c u = delete-IsMap o c u
declare-IsMap o (p ∷ ps) c u = insert-IsMap o (p ∷ ps) c u

carries_if :
    (t : Bool) (x y : Option (List Prefix)) (p : Prefix)
    → carries (if t then x else y) p ≡ (if t then carries x p else carries y p)
carries_if true x y p = refl
carries_if false x y p = refl

lookup-declare :
    (o b : String) (ps : List Prefix) (p : Prefix) (c : Claims)
    → carries (lookup b (declare o ps c)) p
      ≡ (if equal o b then elem p ps else carries (lookup b c) p)
unfolding declare elem
lookup-declare o b [] p c = ground (arith, lookup-delete o b c)
lookup-declare o b (q ∷ ps) p c =
    ap (λ r. carries r p) (lookup-insert o b (q ∷ ps) c)
    ∙ carries_if (equal o b) (some (q ∷ ps)) (lookup b c) p

-- After two memberships have said what they carry, each is told of the other one, for a prefix,
-- exactly if that one carries the prefix; what else is declared plays no part.
pub contested_mutual :
    (a b : String) (ps qs : List Prefix) (p : Prefix) (c : Claims)
    → IsMap c
    → equal a b ≡ false
    → (elem b (contested a p (declare b qs (declare a ps c))) ≡ elem p qs)
      × (elem a (contested b p (declare b qs (declare a ps c))) ≡ elem p ps)
contested_mutual a b ps qs p c u ne =
    let first = declare a ps c in
    let both = declare b qs first in
    let shape = declare-IsMap b qs first (declare-IsMap a ps c u) in
    let other = equal_ne b a (λ e. ne_of_equal a b ne (sym e)) in
    (
      elem-contested b a p both shape
          ∙ rw other (lookup-declare b b qs p first ∙ rw (equal_refl b) refl),
      elem-contested a b p both shape
          ∙ rw ne (
              lookup-declare b a qs p first
              ∙ rw other (lookup-declare a a ps p c ∙ rw (equal_refl a) refl)),
    )
