-- ===== src/Dns/Label/Suffix.antt =====
-- That a valid label with a number behind it is a valid label.
use mathlib.Core.Path.{subst}
use meshp.Prelude.{
  ℕ, zero, suc, ◌+◌, ◌-◌, ◌≤◌, ◌<◌, ◌≡◌, refl, sym, arith, Bool, true, false, ◌&&◌, ◌||◌, List, [],
  ◌∷◌, ◌++◌, ltb, leb, ◌==◌, if◌then◌else◌, length, take, All, Bool-cases, length-append,
  length-take, inl, inr, leb→le,
}
use meshp.Dns.Label.{max_label, hyphen, plain, valid_from, valid_label, trim_right, suffixed}
use meshp.Dns.Label.Valid.{
  part, Parts, StartsWell, EndsWell, part-plain, keep_right, trim_right-cons, trim_right-Parts,
  trim_right-StartsWell, length-trim_right, take-Parts, take-StartsWell, valid_label-Parts,
}

char_step :
    (c : ℕ) (inside rest : Bool)
    → (if plain c then rest else if c == hyphen && inside then rest else false) ≡ true
    → (part c ≡ true) × (rest ≡ true)
char_step c inside rest h = ground (arith, h)

first_step :
    (big good dash rest : Bool)
    → (if big then false else if good then rest else if dash && false then rest else false) ≡ true
    → (big ≡ false) × (good ≡ true) × (rest ≡ true)
first_step big good dash rest h = ground (arith, h)

size_of_test : (n : ℕ) → (n == 0 || ltb max_label n) ≡ false → (0 < n) × (n ≤ max_label)
size_of_test n h = ground (arith, h)

valid_from-Parts_lem : (n i : ℕ) (s : List ℕ) → valid_from n i s ≡ true → Parts s
unfolding valid_from
valid_from-Parts_lem n i [] h = tt
valid_from-Parts_lem n i (c ∷ cs) h =
    let step = char_step c _ (valid_from n (i + 1) cs) h in
    (step.0, valid_from-Parts_lem n (i + 1) cs step.1)

valid_label_lem :
    (s : List ℕ)
    → valid_label s ≡ true
    → (0 < length s) × (length s ≤ max_label) × Parts s × StartsWell s
unfolding valid_label valid_from
valid_label_lem [] h = absurd (cc h)
valid_label_lem (c ∷ cs) h =
    let n = length (c ∷ cs) in
    let step =
      first_step (n == 0 || ltb max_label n) (plain c) (c == hyphen) (valid_from n 1 cs) h in
    let sized = size_of_test n step.0 in
    (sized.0, sized.1, (part-plain c step.1, valid_from-Parts_lem n 1 cs step.2), step.1)

append-Parts : (xs ys : List ℕ) → Parts xs → Parts ys → Parts (xs ++ ys)
append-Parts [] ys a b = b
append-Parts (x ∷ xs) ys a b = (a.0, append-Parts xs ys a.1 b)

append-StartsWell : (xs ys : List ℕ) → 0 < length xs → StartsWell xs → StartsWell (xs ++ ys)
append-StartsWell [] ys n a = absurd (omega (arith, n))
append-StartsWell (x ∷ xs) ys n a = a

append-EndsWell : (xs ys : List ℕ) → 0 < length ys → EndsWell ys → EndsWell (xs ++ ys)
append-EndsWell [] ys n e = e
append-EndsWell (x ∷ []) [] n e = absurd (omega (arith, n))
append-EndsWell (x ∷ []) (y ∷ ys) n e = e
append-EndsWell (x ∷ z ∷ zs) ys n e = append-EndsWell (z ∷ zs) ys n e

plains-Parts : (s : List ℕ) → All (λ c. plain c ≡ true) s → Parts s × EndsWell s
plains-Parts [] h = (tt, tt)
plains-Parts (c ∷ []) h = ((part-plain c h.0, tt), h.0)
plains-Parts (c ∷ d ∷ ds) h =
    let rest = plains-Parts (d ∷ ds) h.1 in ((part-plain c h.0, rest.0), rest.1)

-- The suffix, whose digits are at least one.
suffix_ends : (ds : List ℕ) → 0 < length ds → EndsWell ds → EndsWell (hyphen ∷ ds)
suffix_ends [] n e = absurd (omega (arith, n))
suffix_ends (d ∷ ds) n e = e

kept_some : (c : ℕ) (r : List ℕ) → plain c ≡ true → 0 < length (keep_right c r)
unfolding keep_right
kept_some c [] h = ground (arith, h)
kept_some c (d ∷ ds) h = omega arith

trimmed_some : (c : ℕ) (cs : List ℕ) → plain c ≡ true → 0 < length (trim_right (c ∷ cs))
trimmed_some c cs h =
    subst (λ r. 0 < length r) (sym (trim_right-cons c cs)) (kept_some c (trim_right cs) h)

-- A base that begins well, cut and trimmed, keeps its first character.
cut_some :
    (k : ℕ) (base : List ℕ)
    → 0 < k
    → 0 < length base
    → StartsWell base
    → 0 < length (trim_right (take k base))
cut_some zero base p n s = absurd (omega (arith, p))
cut_some (suc k) [] p n s = absurd (omega (arith, n))
cut_some (suc k) (c ∷ cs) p n s = trimmed_some c (take k cs) s

joined_valid :
    (front suffix : List ℕ)
    → 0 < length front
    → 0 < length suffix
    → length front + length suffix ≤ max_label
    → Parts front
    → StartsWell front
    → Parts suffix
    → EndsWell suffix
    → valid_label (front ++ suffix) ≡ true
joined_valid front suffix n m l a s b e =
    valid_label-Parts (front ++ suffix) (omega (arith, length-append front suffix, n))
      (omega (arith, length-append front suffix, l)) (append-Parts front suffix a b)
      (append-StartsWell front suffix n s) (append-EndsWell front suffix m e)

-- A valid label with a hyphen and a number behind it, cut where it would be too long, is a valid
-- label. The text of a number is one plain character at least, and fewer than 62.
pub suffixed-valid_label :
    (itoa : ℕ → List ℕ) (base : List ℕ) (n : ℕ)
    → All (λ c. plain c ≡ true) (itoa n)
    → 0 < length (itoa n)
    → length (itoa n) < 62
    → valid_label base ≡ true
    → valid_label (suffixed itoa base n) ≡ true
unfolding suffixed
suffixed-valid_label itoa base n digits some_digit few v =
    let suffix = hyphen ∷ itoa n in
    let b = valid_label_lem base v in
    let d = plains-Parts (itoa n) digits in
    let parts : Parts suffix = (refl, d.0) in
    let ends = suffix_ends (itoa n) some_digit d.1 in
    let k = max_label - length suffix in
    let front = trim_right (take k base) in
    elim (Bool-cases (leb (length base + length suffix) max_label)) [
      | inl e ↦
          rw (suffixed, e)
            (joined_valid base suffix b.0 (omega arith)
              (leb→le (length base + length suffix) max_label e) b.2 b.3 parts ends)
      | inr e ↦
          rw (suffixed, e)
            (joined_valid front suffix (cut_some k base (omega (arith, few)) b.0 b.3) (omega arith)
              (omega (arith, few, length-trim_right (take k base), length-take k base))
              (trim_right-Parts (take k base) (take-Parts k base b.2)).0
              (trim_right-StartsWell (take k base) (take-StartsWell k base b.3)) parts ends)
    ]
