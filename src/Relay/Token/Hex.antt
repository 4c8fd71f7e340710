-- ===== src/Relay/Token/Hex.antt =====
-- The text of a network id tells the id.
use mathlib.Core.Path.{ap₂}
use meshp.Prelude.{
  ℕ, zero, suc, ◌+◌, ◌/◌, ◌%◌, ◌<◌, ◌≡◌, refl, sym, ◌∙◌, arith, List, [], ◌∷◌, ◌++◌, length, take,
  drop, All, length-take, length-drop, take-append-drop, drop-drop, append_injective,
}
use meshp.Prelude.Equality.{bytes_eq}
use meshp.Relay.Token.{network_id_len, hex_digit, hex, network_text}

abbrev pub IsBytes : List ℕ → Type 0
IsBytes bs = All (λ b. b < 256) bs

length-hex : (bs : List ℕ) → length (hex bs) ≡ length bs + length bs
unfolding hex
length-hex [] = omega arith
length-hex (b ∷ bs) = omega (arith, length-hex bs)

digit_injective : (a b : ℕ) → a < 16 → b < 16 → hex_digit a ≡ hex_digit b → a ≡ b
digit_injective a b h g e = ground arith

byte_injective :
    (a b : ℕ)
    → a < 256
    → b < 256
    → hex_digit (a / 16) ≡ hex_digit (b / 16)
    → hex_digit (a % 16) ≡ hex_digit (b % 16)
    → a ≡ b
byte_injective a b h g hi lo = omega (
  arith,
  digit_injective (a / 16) (b / 16) (omega arith) (omega arith) hi,
  digit_injective (a % 16) (b % 16) (omega arith) (omega arith) lo,
)

cons_same : (a b : ℕ) (xs ys : List ℕ) → a ∷ xs ≡ b ∷ ys → (a ≡ b) × (xs ≡ ys)
cons_same a b xs ys e = (cc e, cc e)

hex_injective : (xs ys : List ℕ) → IsBytes xs → IsBytes ys → hex xs ≡ hex ys → xs ≡ ys
unfolding hex
hex_injective [] [] p q e = refl
hex_injective [] (y ∷ ys) p q e = absurd (cc e)
hex_injective (x ∷ xs) [] p q e = absurd (cc e)
hex_injective (x ∷ xs) (y ∷ ys) p q e =
    let hi = cons_same _ _ _ _ e in
    let lo = cons_same _ _ _ _ hi.1 in
    ap₂ (λ b bs. b ∷ bs) (byte_injective x y p.0 q.0 hi.0 lo.0) (hex_injective xs ys p.1 q.1 lo.1)

take-IsBytes : (n : ℕ) (xs : List ℕ) → IsBytes xs → IsBytes (take n xs)
take-IsBytes zero xs h = tt
take-IsBytes (suc n) [] h = tt
take-IsBytes (suc n) (x ∷ xs) h = (h.0, take-IsBytes n xs h.1)

drop-IsBytes : (n : ℕ) (xs : List ℕ) → IsBytes xs → IsBytes (drop n xs)
drop-IsBytes zero xs h = h
drop-IsBytes (suc n) [] h = tt
drop-IsBytes (suc n) (x ∷ xs) h = drop-IsBytes n xs h.1

-- One group of the text.
group :
    (xs ys us vs : List ℕ)
    → IsBytes xs
    → IsBytes ys
    → length xs ≡ length ys
    → hex xs ++ us ≡ hex ys ++ vs
    → (xs ≡ ys) × (us ≡ vs)
group xs ys us vs p q l e =
    let parts =
      append_injective (hex xs) (hex ys) us vs (omega (arith, length-hex xs, length-hex ys, l)) e in
    (hex_injective xs ys p q parts.0, parts.1)

part-IsBytes : (m n : ℕ) (xs : List ℕ) → IsBytes xs → IsBytes (take n (drop m xs))
part-IsBytes m n xs h = take-IsBytes n (drop m xs) (drop-IsBytes m xs h)

length-part :
    (m n : ℕ) (xs ys : List ℕ)
    → length xs ≡ length ys
    → length (take n (drop m xs)) ≡ length (take n (drop m ys))
length-part m n xs ys l = omega (
  arith,
  l,
  length-take n (drop m xs),
  length-take n (drop m ys),
  length-drop m xs,
  length-drop m ys,
)

rejoin :
    (m n k : ℕ) (xs ys : List ℕ)
    → k ≡ m + n
    → take n (drop m xs) ≡ take n (drop m ys)
    → drop k xs ≡ drop k ys
    → drop m xs ≡ drop m ys
rejoin m n k xs ys e front back =
    sym (take-append-drop n (drop m xs))
    ∙ ap₂ (λ a b. a ++ b) front (drop-drop m n k xs e ∙ back ∙ sym (drop-drop m n k ys e))
    ∙ take-append-drop n (drop m ys)

nil_of_length : (xs : List ℕ) → length xs ≡ 0 → xs ≡ []
nil_of_length [] e = refl
nil_of_length (x ∷ xs) e = absurd (omega arith)

-- Two network ids of 16 bytes with the same text are the same id.
pub network_text_injective :
    (a b : List ℕ)
    → length a ≡ network_id_len
    → length b ≡ network_id_len
    → IsBytes a
    → IsBytes b
    → network_text a ≡ network_text b
    → a ≡ b
unfolding network_text
network_text_injective a b l m p q e =
    let same : length a ≡ length b = l ∙ sym m in
    let cut = λ (x n : ℕ) (us vs : List ℕ).
      group (take n (drop x a)) (take n (drop x b)) us vs (part-IsBytes x n a p)
        (part-IsBytes x n b q) (length-part x n a b same) in
    let g0 = cut 0 4 _ _ e in
    let g1 = cut 4 2 _ _ (cons_same _ _ _ _ g0.1).1 in
    let g2 = cut 6 2 _ _ (cons_same _ _ _ _ g1.1).1 in
    let g3 = cut 8 2 _ _ (cons_same _ _ _ _ g2.1).1 in
    let g4 =
      hex_injective (take 6 (drop 10 a)) (take 6 (drop 10 b)) (part-IsBytes 10 6 a p)
        (part-IsBytes 10 6 b q) (cons_same _ _ _ _ g3.1).1 in
    let rest =
      nil_of_length (drop 16 a) (omega (arith, length-drop 16 a, l))
      ∙ sym (nil_of_length (drop 16 b) (omega (arith, length-drop 16 b, m))) in
    rejoin 0 4 4 a b refl g0.0 (
      rejoin 4 2 6 a b refl g1.0 (
        rejoin 6 2 8 a b refl g2.0 (rejoin 8 2 10 a b refl g3.0 (rejoin 10 6 16 a b refl g4 rest))))
