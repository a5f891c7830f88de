-- ===== src/Prelude/Results.antt =====
-- `error.rs`: the error enum and `Result`, and computations that carry a state past an error.
use mathlib.Core.Path.{◌≡◌, refl, ap}
use mathlib.Core.Option.{Option, none, some}
use mathlib.Core.Logic.{◌⊎◌, inl, inr}
use native.Mathlib.Omega.{arith}

-- `FilumCryptoError`
pub data Error : Type 0 where
  aead invalid_phrase invalid_context invalid_key_length invalid_signature randomness io : Error

pub data Result {ℓ} (A : Type ℓ) : Type ℓ where
  ok : A → Result A
  err : Error → Result A

-- A computation over a state that outlives its errors.
abbrev pub M : Type 0 → Type 0 → Type 0
M S A = S → Result A × S

-- The `?` operator on a pure result.
abbrev pub then_ok {ℓ κ} : {A : Type ℓ} {B : Type κ} → Result A → (A → Result B) → Result B
then_ok (ok a) f = f a
then_ok (err e) f = err e

abbrev pub continue : {S A B : Type 0} → Result A × S → (A → M S B) → Result B × S
continue (ok a, s) f = f a s
continue (err e, s) f = (err e, s)

-- The `?` operator in code that has effects.
infixl 5 ◌>>=◌ ◌>>◌
abbrev pub ◌>>=◌ : {S A B : Type 0} → M S A → (A → M S B) → M S B
◌>>=◌ m f s = continue (m s) f

abbrev pub ◌>>◌ : {S B : Type 0} → M S (Unit {0}) → M S B → M S B
◌>>◌ m k s = continue (m s) (λ _. k)

abbrev pub lift : {S A : Type 0} → Result A → M S A
lift r s = (r, s)

-- `map_err(|_| e)` on a result whose own error is dropped.
abbrev pub map_err {ℓ} : {A : Type ℓ} → Error → Option A → Result A
map_err e (some a) = ok a
map_err e none = err e

pub Result-cases {ℓ} :
    {A : Type ℓ} (r : Result A) → ((a : A) × (r ≡ ok a)) ⊎ ((e : Error) × (r ≡ err e))
Result-cases (ok a) = inl (a, refl)
Result-cases (err e) = inr (e, refl)

pub ok-injective {ℓ} : {A : Type ℓ} {a b : A} → ok a ≡ ok b → a ≡ b
ok-injective {a} e = ap (λ r. elim r [ ok x ↦ x | err _ ↦ a ]) e

-- Inversions of a success.
pub then_ok-eq_ok {ℓ κ} :
    {A : Type ℓ} {B : Type κ} (r : Result A) (f : A → Result B) {b : B}
    → then_ok r f ≡ ok b
    → (a : A) × (r ≡ ok a) × (f a ≡ ok b)
then_ok-eq_ok (ok a) f h = (a, refl, h)
then_ok-eq_ok (err e) f h = cc

pub map_err-eq_ok {ℓ} :
    {A : Type ℓ} (e : Error) (o : Option A) {a : A} → map_err e o ≡ ok a → o ≡ some a
map_err-eq_ok e (some a) h = ground arith
map_err-eq_ok e none h = cc

pub continue-eq_ok :
    {S A B : Type 0} (r : Result A × S) (f : A → M S B) {b : B} {t : S}
    → continue r f ≡ (ok b, t)
    → (a : A) × (s : S) × (r ≡ (ok a, s)) × (f a s ≡ (ok b, t))
continue-eq_ok (ok a, s) f h = (a, s, refl, h)
continue-eq_ok (err e, s) f h = absurd (ground arith)

-- Two continuations that agree on the result of a computation.
pub continue-cong :
    {W A C : Type 0} (x : Result A × W) (f g : A → M W C)
    → ((a : A) (w : W) → x ≡ (ok a, w) → f a w ≡ g a w)
    → continue x f ≡ continue x g
continue-cong (ok a, w) f g h = h a w refl
continue-cong (err e, w) f g h = refl
