-- ===== src/Dns/Label/Valid.antt =====
-- That the labels are valid.
use mathlib.Core.Path.{subst}
use meshp.Prelude.{
  ℕ, zero, suc, ◌+◌, ◌-◌, ◌≤◌, ◌<◌, ◌≡◌, ◌⊎◌, inl, inr, refl, sym, arith, Bool, true, false, not,
  ◌&&◌, ◌||◌, List, [], ◌∷◌, ltb, ◌==◌, if◌then◌else◌, length, take, All, Bool-cases, length-take,
}
use meshp.Dns.Label.{
  max_label, hyphen, plain, valid_from, valid_label, squash, trim_right, trim_left, label,
}

abbrev pub part : ℕ → Bool
part c = plain c || c == hyphen

abbrev pub Parts : List ℕ → Type 0
Parts s = All (λ c. part c ≡ true) s

abbrev pub StartsWell : List ℕ → Type 0
StartsWell [] = Unit
StartsWell (c ∷ cs) = plain c ≡ true

abbrev pub EndsWell : List ℕ → Type 0
EndsWell [] = Unit
EndsWell (c ∷ []) = plain c ≡ true
EndsWell (c ∷ d ∷ ds) = EndsWell (d ∷ ds)

-- The loop of `ValidLabel` behind the first character.
valid_from-Parts :
    (n i : ℕ) (s : List ℕ)
    → 0 < i
    → i + length s ≡ n
    → Parts s
    → EndsWell s
    → valid_from n i s ≡ true
unfolding valid_from
valid_from-Parts n i [] p l a e = refl
valid_from-Parts n i (c ∷ []) p l a e = rw e refl
valid_from-Parts n i (c ∷ d ∷ ds) p l a e =
    let rest = valid_from-Parts n (i + 1) (d ∷ ds) (omega arith) (omega (arith, l)) a.1 e in
    inner c i n (valid_from n (i + 1) (d ∷ ds)) (omega (arith, p)) (omega (arith, l)) a.0 rest
  where
    inner :
        (c i n : ℕ) (rest : Bool)
        → 0 < i
        → i + 1 < n
        → part c ≡ true
        → rest ≡ true
        → (if plain c
            then rest
            else if c == hyphen && (not (i == 0) && not (i == n - 1))
            then rest
            else false)
          ≡ true
    inner c i n rest p q a r = ground (arith, p, q, a, r)

pub valid_label-Parts :
    (s : List ℕ)
    → 0 < length s
    → length s ≤ max_label
    → Parts s
    → StartsWell s
    → EndsWell s
    → valid_label s ≡ true
unfolding valid_label valid_from
valid_label-Parts [] h l a b e = absurd (omega (arith, h))
valid_label-Parts (c ∷ []) h l a b e = rw b refl
valid_label-Parts (c ∷ d ∷ ds) h l a b e =
    let n = length (c ∷ d ∷ ds) in
    let size : (n == 0 || ltb max_label n) ≡ false = ground (arith, l) in
    let rest = valid_from-Parts n 1 (d ∷ ds) (omega arith) (omega arith) a.1 e in
    checked (n == 0 || ltb max_label n) (plain c) (valid_from n 1 (d ∷ ds)) (c == hyphen) size b
      rest
  where
    checked :
        (big good rest dash : Bool)
        → big ≡ false
        → good ≡ true
        → rest ≡ true
        → (if big then false else if good then rest else if dash && false then rest else false)
          ≡ true
    checked big good rest dash h g r = ground (arith, h, g, r)

pub part-plain : (c : ℕ) → plain c ≡ true → part c ≡ true
part-plain c h = ground (arith, h)

squash_cons-Parts :
    (b : Bool) (r : ℕ) (rs : List ℕ)
    → Parts (squash false rs)
    → Parts (squash true rs)
    → Parts (squash b (r ∷ rs))
unfolding squash
squash_cons-Parts b r rs p q = by_cases b (plain r) refl p q
  where
    by_cases :
        (b y : Bool)
        → plain r ≡ y
        → Parts (squash false rs)
        → Parts (squash true rs)
        → Parts (elim y [
          | true ↦ r ∷ squash false rs
          | false ↦ elim b [ true ↦ squash true rs | false ↦ hyphen ∷ squash true rs ]
        ])
    by_cases b true e p q = (part-plain r e, p)
    by_cases true false e p q = q
    by_cases false false e p q = (refl, q)

squash-Parts : (last_hyphen : Bool) (s : List ℕ) → Parts (squash last_hyphen s)
unfolding squash
squash-Parts last_hyphen [] = tt
squash-Parts last_hyphen (r ∷ rs) =
    squash_cons-Parts last_hyphen r rs (squash-Parts false rs) (squash-Parts true rs)

-- What one step of TrimRight gives.
unfoldable pub keep_right : ℕ → List ℕ → List ℕ
keep_right c [] = if c == hyphen then [] else c ∷ []
keep_right c (d ∷ ds) = c ∷ d ∷ ds

pub trim_right-cons : (c : ℕ) (cs : List ℕ) → trim_right (c ∷ cs) ≡ keep_right c (trim_right cs)
unfolding trim_right keep_right
trim_right-cons c cs =
    elim (trim_right cs)
      as (λ r.
        (elim r [ [] ↦ if c == hyphen then [] else c ∷ [] | d ∷ ds ↦ c ∷ d ∷ ds ])
        ≡ keep_right c r) [ [] ↦ refl | d ∷ ds ↦ refl ]

keep_right-Parts : (c : ℕ) (r : List ℕ) → part c ≡ true → Parts r → Parts (keep_right c r)
unfolding keep_right
keep_right-Parts c [] h a = ground (arith, h)
keep_right-Parts c (d ∷ ds) h a = (h, a)

keep_right-EndsWell : (c : ℕ) (r : List ℕ) → part c ≡ true → EndsWell r → EndsWell (keep_right c r)
unfolding keep_right
keep_right-EndsWell c [] h e = ground (arith, h)
keep_right-EndsWell c (d ∷ ds) h e = e

keep_right-StartsWell : (c : ℕ) (r : List ℕ) → plain c ≡ true → StartsWell (keep_right c r)
unfolding keep_right
keep_right-StartsWell c [] h = ground (arith, h)
keep_right-StartsWell c (d ∷ ds) h = h

length-keep_right : (c : ℕ) (r : List ℕ) → length (keep_right c r) ≤ length r + 1
unfolding keep_right
length-keep_right c [] = ground arith
length-keep_right c (d ∷ ds) = omega arith

pub trim_right-Parts : (s : List ℕ) → Parts s → Parts (trim_right s) × EndsWell (trim_right s)
unfolding trim_right
trim_right-Parts [] a = (tt, tt)
trim_right-Parts (c ∷ cs) a =
    let rest = trim_right-Parts cs a.1 in
    let made = trim_right-cons c cs in
    (
      subst (λ r. Parts r) (sym made) (keep_right-Parts c (trim_right cs) a.0 rest.0),
      subst (λ r. EndsWell r) (sym made) (keep_right-EndsWell c (trim_right cs) a.0 rest.1),
    )

trim_right_nil : StartsWell (trim_right [])
unfolding trim_right
trim_right_nil = tt

pub trim_right-StartsWell : (s : List ℕ) → StartsWell s → StartsWell (trim_right s)
trim_right-StartsWell [] a = trim_right_nil
trim_right-StartsWell (c ∷ cs) a =
    subst (λ r. StartsWell r) (sym (trim_right-cons c cs))
      (keep_right-StartsWell c (trim_right cs) a)

pub length-trim_right : (s : List ℕ) → length (trim_right s) ≤ length s
unfolding trim_right
length-trim_right [] = omega arith
length-trim_right (c ∷ cs) =
    subst (λ r. length r ≤ suc (length cs)) (sym (trim_right-cons c cs))
      (omega (arith, length-keep_right c (trim_right cs), length-trim_right cs))

other_plain : (c : ℕ) → part c ≡ true → (c == hyphen) ≡ false → plain c ≡ true
other_plain c h e = ground (arith, h, e)

trim_left-Parts : (s : List ℕ) → Parts s → Parts (trim_left s) × StartsWell (trim_left s)
unfolding trim_left
trim_left-Parts [] a = (tt, tt)
trim_left-Parts (c ∷ cs) a = elim (Bool-cases (c == hyphen)) [
  | inl e ↦ rw (trim_left, e) (trim_left-Parts cs a.1)
  | inr e ↦ rw (trim_left, e) (a, other_plain c a.0 e)
]

length-trim_left : (s : List ℕ) → length (trim_left s) ≤ length s
unfolding trim_left
length-trim_left [] = omega arith
length-trim_left (c ∷ cs) = ground (arith, length-trim_left cs)

pub take-Parts : (n : ℕ) (s : List ℕ) → Parts s → Parts (take n s)
take-Parts zero s a = tt
take-Parts (suc n) [] a = tt
take-Parts (suc n) (c ∷ cs) a = (a.0, take-Parts n cs a.1)

pub take-StartsWell : (n : ℕ) (s : List ℕ) → StartsWell s → StartsWell (take n s)
take-StartsWell zero s a = tt
take-StartsWell (suc n) [] a = tt
take-StartsWell (suc n) (c ∷ cs) a = a

-- What is neither empty nor too long, and begins and ends well, is valid.
valid_or_empty :
    (s : List ℕ)
    → length s ≤ max_label
    → Parts s
    → StartsWell s
    → EndsWell s
    → (s ≡ []) ⊎ (valid_label s ≡ true)
valid_or_empty [] l a b e = inl refl
valid_or_empty (c ∷ cs) l a b e = inr (valid_label-Parts (c ∷ cs) (omega arith) l a b e)

not_ltb : (n : ℕ) → ltb max_label n ≡ false → n ≤ max_label
not_ltb n h = ground arith

-- A text trimmed on both sides and cut to the limit.
cut_valid :
    (s : List ℕ)
    → Parts s
    → StartsWell s
    → (trim_right (take max_label s) ≡ []) ⊎ (valid_label (trim_right (take max_label s)) ≡ true)
cut_valid s a b =
    let front = take max_label s in
    let made = trim_right-Parts front (take-Parts max_label s a) in
    valid_or_empty (trim_right front)
      (omega (arith, length-trim_right front, length-take max_label s)) made.0
      (trim_right-StartsWell front (take-StartsWell max_label s b)) made.1

-- Whatever name is shown, its label is empty or a valid label.
pub label-valid_label :
    (to_lower : List ℕ → List ℕ) (display : List ℕ)
    → (label to_lower display ≡ []) ⊎ (valid_label (label to_lower display) ≡ true)
unfolding label
label-valid_label to_lower display =
    let shown = squash true (to_lower display) in
    let left = trim_left-Parts shown (squash-Parts true (to_lower display)) in
    let out = trim_right (trim_left shown) in
    let made = trim_right-Parts (trim_left shown) left.0 in
    let starts = trim_right-StartsWell (trim_left shown) left.1 in
    elim (Bool-cases (ltb max_label (length out))) [
      | inl e ↦ rw (label, e) (cut_valid out made.0 starts)
      | inr e ↦
          rw (label, e)
            (valid_or_empty out (omega (arith, not_ltb (length out) e)) made.0 starts made.1)
    ]
