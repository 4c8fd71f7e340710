-- ===== src/Routes/Before.antt =====
-- The comparison of `Select` is a strict weak order.
use Prim.Native.String.compare
use Prim.Native.String.{[] as empty, ◌∷◌ as cons}
use meshp.Prelude.{◌≡◌, ap, arith, true, false, String}
use meshp.Prelude.Order.{string_lt, is_lt}
use meshp.Routes.Select.{Ranked, before}

string_apart :
    (x y z : String) → string_lt x y ≡ true → string_lt z y ≡ false → string_lt x z ≡ true
unfolding string_lt
string_apart empty empty z h k = absurd (cc h)
string_apart empty (cons d t) empty h k = absurd (cc k)
string_apart empty (cons d t) (cons e u) h k = ap is_lt (compare.nil-cons e u)
string_apart (cons c s) empty z h k = absurd (cc (h, ap is_lt (compare.cons-nil c s)))
string_apart (cons c s) (cons d t) empty h k = absurd (cc (k, ap is_lt (compare.nil-cons d t)))
string_apart (cons c s) (cons d t) (cons e u) h k =
    let h' = rw (compare.cons-cons c d s t) at h in
    let k' = rw (compare.cons-cons e d u t) at k in
    rw (compare.cons-cons c e s u) (ground (arith, string_apart s t u))

pub before_apart : (x y z : Ranked) → before x y ≡ true → before z y ≡ false → before x z ≡ true
unfolding before
before_apart x y z h k = ground (
  arith,
  string_apart x.candidate.advertiser.id y.candidate.advertiser.id z.candidate.advertiser.id,
)

string_one_way : (x y : String) → string_lt x y ≡ true → string_lt y x ≡ false
unfolding string_lt
string_one_way empty empty h = absurd (cc h)
string_one_way empty (cons d t) h = ap is_lt (compare.cons-nil d t)
string_one_way (cons c s) empty h = absurd (cc (h, ap is_lt (compare.cons-nil c s)))
string_one_way (cons c s) (cons d t) h =
    let h' = rw (compare.cons-cons c d s t) at h in
    rw (compare.cons-cons d c t s) (ground (arith, string_one_way s t))

pub before_one_way : (x y : Ranked) → before x y ≡ true → before y x ≡ false
unfolding before
before_one_way x y h =
    ground (arith, string_one_way x.candidate.advertiser.id y.candidate.advertiser.id)
