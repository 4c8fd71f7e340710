-- ===== src/Prelude/BigEndian.antt =====
-- encoding/binary's big-endian numbers: `put_onto width n rest` writes `n` before `rest`.
use Prim.Native.Nat.{ℕ, zero, suc, ◌+◌, ◌*◌, ◌/◌, ◌%◌, ◌^◌, ◌<◌}
use mathlib.Core.Path.{◌≡◌, ap, ◌∙◌, sym}
use mathlib.Core.List.{List, [], ◌∷◌}
use native.Mathlib.Omega.{arith}
use meshp.Prelude.Lists.{length}

abbrev pub put_onto : ℕ → ℕ → List ℕ → List ℕ
put_onto zero n rest = rest
put_onto (suc width) n rest = put_onto width (n / 256) (n % 256 ∷ rest)

abbrev pub put : ℕ → ℕ → List ℕ
put width n = put_onto width n []

abbrev pub get_from : ℕ → List ℕ → ℕ
get_from acc [] = acc
get_from acc (b ∷ bs) = get_from (acc * 256 + b) bs

abbrev pub get : List ℕ → ℕ
get = get_from 0

pub length-put_onto :
    (width n : ℕ) (rest : List ℕ) → length (put_onto width n rest) ≡ width + length rest
length-put_onto zero n rest = omega arith
length-put_onto (suc width) n rest = omega (arith, length-put_onto width (n / 256) (n % 256 ∷ rest))

pub length-put : (width n : ℕ) → length (put width n) ≡ width
length-put width n = omega (arith, length-put_onto width n [])

get_from-put_onto :
    (width n : ℕ) (rest : List ℕ)
    → n < 256 ^ width
    → get_from 0 (put_onto width n rest) ≡ get_from n rest
get_from-put_onto zero n rest h = ap (λ k. get_from k rest) (omega arith)
get_from-put_onto (suc width) n rest h =
    get_from-put_onto width (n / 256) (n % 256 ∷ rest) (omega arith)
    ∙ ap (λ k. get_from k rest) (omega arith)

-- What is read is what was written, where it fits.
pub get-put : (width n : ℕ) → n < 256 ^ width → get (put width n) ≡ n
get-put width n h = get_from-put_onto width n [] h

pub put_injective :
    (width n m : ℕ) → n < 256 ^ width → m < 256 ^ width → put width n ≡ put width m → n ≡ m
put_injective width n m h g e = sym (get-put width n h) ∙ ap get e ∙ get-put width m g
