-- ===== src/Challenge/Stream.antt =====
-- What the MAC is computed over tells the header and the bindings.
use mathlib.Core.Path.{ap₂}
use meshp.Prelude.{
  ℕ, ◌%◌, ◌^◌, ◌<◌, ◌≡◌, refl, sym, ◌∙◌, arith, List, [], ◌∷◌, ◌++◌, All, length, append_injective,
}
use meshp.Prelude.BigEndian.{put, length-put, put_injective}
use meshp.Challenge.{write_length_prefixed, write_all, stream}

-- A length that a uint32 holds.
abbrev pub IsShort : List ℕ → Type 0
IsShort b = length b < 2 ^ 32

number_same :
    (n m : ℕ) (us vs : List ℕ)
    → n < 2 ^ 32
    → m < 2 ^ 32
    → put 4 (n % 2 ^ 32) ++ us ≡ put 4 (m % 2 ^ 32) ++ vs
    → (n ≡ m) × (us ≡ vs)
number_same n m us vs h g e =
    let parts =
      append_injective (put 4 (n % 2 ^ 32)) (put 4 (m % 2 ^ 32)) us vs
        (length-put 4 (n % 2 ^ 32) ∙ sym (length-put 4 (m % 2 ^ 32))) e in
    (
      omega (arith, put_injective 4 (n % 2 ^ 32) (m % 2 ^ 32) (omega arith) (omega arith) parts.0),
      parts.1,
    )

write_length_prefixed_injective :
    (a b us vs : List ℕ)
    → IsShort a
    → IsShort b
    → write_length_prefixed a us ≡ write_length_prefixed b vs
    → (a ≡ b) × (us ≡ vs)
unfolding write_length_prefixed
write_length_prefixed_injective a b us vs h g e =
    let sized = number_same (length a) (length b) (a ++ us) (b ++ vs) h g e in
    append_injective a b us vs sized.0 sized.1

write_all_injective :
    (xs ys : List (List ℕ))
    → All IsShort xs
    → All IsShort ys
    → length xs ≡ length ys
    → write_all xs ≡ write_all ys
    → xs ≡ ys
unfolding write_all
write_all_injective [] [] h g l e = refl
write_all_injective [] (y ∷ ys) h g l e = absurd (omega arith)
write_all_injective (x ∷ xs) [] h g l e = absurd (omega arith)
write_all_injective (x ∷ xs) (y ∷ ys) h g l e =
    let parts = write_length_prefixed_injective x y (write_all xs) (write_all ys) h.0 g.0 e in
    ap₂ (λ b bs. b ∷ bs) parts.0 (write_all_injective xs ys h.1 g.1 (omega arith) parts.1)

-- Two headers with their lists of bindings, whose lengths fit in a uint32 each, give the same
-- bytes to the MAC only if they are the same.
pub stream_injective :
    (a b : List ℕ) (xs ys : List (List ℕ))
    → IsShort a
    → IsShort b
    → length xs < 2 ^ 32
    → length ys < 2 ^ 32
    → All IsShort xs
    → All IsShort ys
    → stream a xs ≡ stream b ys
    → (a ≡ b) × (xs ≡ ys)
unfolding stream
stream_injective a b xs ys sa sb m n sx sy e =
    let parts = write_length_prefixed_injective a b _ _ sa sb e in
    let counted = number_same (length xs) (length ys) (write_all xs) (write_all ys) m n parts.1 in
    (parts.0, write_all_injective xs ys sx sy counted.0 counted.1)
