-- ===== src/Prelude/Result.antt =====
-- A value or an error of a type of the caller's: Go's pair of a value and an `error`.
use mathlib.Core.Path.{◌≡◌, refl}
use mathlib.Core.Logic.{◌⊎◌, inl, inr}

pub data Result {ℓ} (E : Type 0) (A : Type ℓ) : Type ℓ where
  err : E → Result E A
  ok : A → Result E A

infixl 5 ◌>>=◌ ◌>>◌
abbrev pub ◌>>=◌ {ℓ κ} :
    {E : Type 0} {A : Type ℓ} {B : Type κ} → Result E A → (A → Result E B) → Result E B
◌>>=◌ (err why) next = err why
◌>>=◌ (ok got) next = next got

-- `if err != nil { return err }` behind a check that gives no value.
abbrev pub ◌>>◌ {ℓ} : {E : Type 0} {B : Type ℓ} → Result E (Unit {0}) → Result E B → Result E B
check >> next = check >>= λ _. next

-- What a chain that succeeds has gone through.
pub bind_ok {ℓ κ} :
    {E : Type 0} {A : Type ℓ} {B : Type κ} (x : Result E A) (f : A → Result E B) (v : B)
    → (x >>= f) ≡ ok v
    → (a : A) × (x ≡ ok a) × (f a ≡ ok v)
bind_ok (err why) f v h = absurd (cc h)
bind_ok (ok a) f v h = (a, refl, h)

pub seq_ok {ℓ} :
    {E : Type 0} {A : Type ℓ} (x : Result E (Unit {0})) (y : Result E A) (v : A)
    → (x >> y) ≡ ok v
    → (x ≡ ok tt) × (y ≡ ok v)
seq_ok (err why) y v h = absurd (cc h)
seq_ok (ok tt) y v h = (refl, h)

pub ok_same {ℓ} : {E : Type 0} {A : Type ℓ} (a b : A) → ◌≡◌ {A = Result E A} (ok a) (ok b) → a ≡ b
ok_same a b h = cc h

-- And a chain whose parts succeed.
pub then_ok {ℓ κ} :
    {E : Type 0} {A : Type ℓ} {B : Type κ} (x : Result E A) (f : A → Result E B) (a : A)
    → x ≡ ok a
    → ((b : B) × (f a ≡ ok b))
    → (b : B) × ((x >>= f) ≡ ok b)
then_ok x f a e (b, g) = (b, rw e g)

pub Result-cases {ℓ} :
    {E : Type 0} {A : Type ℓ} (x : Result E A)
    → ((why : E) × (x ≡ err why)) ⊎ ((a : A) × (x ≡ ok a))
Result-cases (err why) = inl (why, refl)
Result-cases (ok a) = inr (a, refl)
