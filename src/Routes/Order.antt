-- ===== src/Routes/Order.antt =====
-- The answer of `Select` does not depend on the order in which the advertisers are listed.
use Prim.Native.Nat.{Ordering, compare as compare_ℕ}
use Prim.Native.Char.{code}
use Prim.Native.String.compare
use Prim.Native.String.{[] as empty, ◌∷◌ as cons}
use text.Mathlib.TextEquality.{codes_equal}
use meshp.Prelude.{
  ◌≡◌, ◌≢◌, ◌⊎◌, inl, inr, refl, ap, ◌∙◌, sym, arith, true, false, Option-cases, some, List, [],
  ◌∷◌, ◌++◌, String,
}
use meshp.Prelude.Int.{ℤ, pos, negsuc, int_lt, int_same}
use meshp.Prelude.Equality.{equal_iff, string_eq}
use meshp.Prelude.Order.{string_lt, is_lt, sort_by, insert_by}
use meshp.Prelude.Sorting.{insert_by-swap}
use meshp.Routes.Select.{
  Scores, Advertiser, Request, Ranked, before, push, rank_one, rank_all, by_rank, select,
  keep_pinned,
}
use meshp.Routes.Removal.{order}

string_total : (x y : String) → string_lt x y ≡ false → string_lt y x ≡ false → x ≡ y
unfolding string_lt
string_total empty empty h k = refl
string_total empty (cons d t) h k = absurd (cc (h, ap is_lt (compare.nil-cons d t)))
string_total (cons c s) empty h k = absurd (cc (k, ap is_lt (compare.nil-cons c s)))
string_total (cons c s) (cons d t) h k =
    let h' = rw (compare.cons-cons c d s t) at h in
    let k' = rw (compare.cons-cons d c t s) at k in
    let heads : compare_ℕ (code c) (code d) ≡ Ordering.eq = ground arith in
    let tails : s ≡ t = string_total s t (ground arith) (ground arith) in
    cc (codes_equal c d heads, tails)

int_total : (a b : ℤ) → int_same a b ≡ false → int_lt a b ≡ false → int_lt b a ≡ true
int_total (pos a) (pos b) h k = ground arith
int_total (pos a) (negsuc b) h k = refl
int_total (negsuc a) (pos b) h k = absurd (cc k)
int_total (negsuc a) (negsuc b) h k = ground arith

int_same_sym : (a b : ℤ) → int_same a b ≡ int_same b a
int_same_sym (pos a) (pos b) = ground arith
int_same_sym (pos a) (negsuc b) = refl
int_same_sym (negsuc a) (pos b) = refl
int_same_sym (negsuc a) (negsuc b) = ground arith

before_total :
    (x y : Ranked)
    → x.candidate.advertiser.id ≢ y.candidate.advertiser.id
    → (before x y ≡ true) ⊎ (before y x ≡ true)
unfolding before
before_total x y apart =
    let a = x.candidate.advertiser in
    let b = y.candidate.advertiser in
    ground (
      arith,
      string_total a.id b.id,
      int_total a.priority b.priority,
      int_same_sym a.priority b.priority,
    )

module _ (lib : Scores) (req : Request) where
  rank_one_id :
      (a : Advertiser) (r : Ranked) → rank_one lib req a ≡ some r → r.candidate.advertiser.id ≡ a.id
  unfolding rank_one
  rank_one_id a r e = ground arith

  pair_either_way :
      (a b : Advertiser) (rest : List Ranked)
      → a.id ≢ b.id
      → sort_by before (push (rank_one lib req a) (push (rank_one lib req b) rest))
        ≡ sort_by before (push (rank_one lib req b) (push (rank_one lib req a) rest))
  unfolding sort_by
  pair_either_way a b rest apart = elim (Option-cases (rank_one lib req a)) [
    | inl e ↦ rw e
    | inr (r, e) ↦ elim (Option-cases (rank_one lib req b)) [
      | inl f ↦ rw f
      | inr (s, f) ↦
          let differ : r.candidate.advertiser.id ≢ s.candidate.advertiser.id =
            λ same. apart (sym (rank_one_id a r e) ∙ (same ∙ rank_one_id b s f)) in
          rw (e, f)
            (insert_by-swap before order r s (sort_by before rest) (before_total r s differ))
    ]
  ]

  sorted_either_way :
      (front : List Advertiser) (a b : Advertiser) (back : List Advertiser)
      → a.id ≢ b.id
      → sort_by before (rank_all lib req (front ++ a ∷ b ∷ back))
        ≡ sort_by before (rank_all lib req (front ++ b ∷ a ∷ back))
  unfolding rank_all sort_by
  sorted_either_way [] a b back apart = pair_either_way a b (rank_all lib req back) apart
  sorted_either_way (f ∷ front) a b back apart = elim (Option-cases (rank_one lib req f)) [
    | inl e ↦ rw e (sorted_either_way front a b back apart)
    | inr (r, e) ↦ rw e (ap (λ l. insert_by before r l) (sorted_either_way front a b back apart))
  ]

kept_either_way :
    (current : String) (front : List Advertiser) (a b : Advertiser) (back : List Advertiser)
    → a.id ≢ b.id
    → keep_pinned current (front ++ a ∷ b ∷ back) ≡ keep_pinned current (front ++ b ∷ a ∷ back)
unfolding keep_pinned
kept_either_way current [] a b back apart =
    ground (arith, equal_iff a.id current, equal_iff b.id current)
kept_either_way current (f ∷ front) a b back apart =
    ground (arith, kept_either_way current front a b back apart)

-- Two advertisers with different IDs that stand side by side in a request may change places: the
-- answer stays the same, in every mode.
pub select_ignores_order :
    (lib : Scores) (req : Request) (front : List Advertiser) (a b : Advertiser)
    (back : List Advertiser)
    → a.id ≢ b.id
    → select lib (record req { advertisers = front ++ a ∷ b ∷ back })
      ≡ select lib (record req { advertisers = front ++ b ∷ a ∷ back })
unfolding select by_rank rank_all rank_one
select_ignores_order lib req front a b back apart = rw (
  kept_either_way req.current front a b back apart,
  sorted_either_way lib req front a b back apart,
)
