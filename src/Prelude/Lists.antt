-- ===== src/Prelude/Lists.antt =====
-- Lists measured and cut by native numbers, under the library's names.
use Prim.Native.Nat.{ℕ, zero, suc, ◌+◌, ◌-◌, ◌≤◌, min}
use mathlib.Core.Path.{◌≡◌, refl, ap, sym, ◌∙◌}
use mathlib.Core.List.{List, [], ◌∷◌, ◌++◌}
use native.Mathlib.Omega.{arith}

module _ {ℓ} {A : Type ℓ} where
  abbrev pub length : List A → ℕ
  length [] = 0
  length (x ∷ xs) = suc (length xs)

  abbrev pub take : ℕ → List A → List A
  take zero xs = []
  take (suc n) [] = []
  take (suc n) (x ∷ xs) = x ∷ take n xs

  abbrev pub drop : ℕ → List A → List A
  drop zero xs = xs
  drop (suc n) [] = []
  drop (suc n) (x ∷ xs) = drop n xs

  abbrev pub replicate : ℕ → A → List A
  replicate zero a = []
  replicate (suc n) a = a ∷ replicate n a

  pub length-append : (xs ys : List A) → length (xs ++ ys) ≡ length xs + length ys
  length-append [] ys = omega arith
  length-append (x ∷ xs) ys = omega (arith, length-append xs ys)

  pub take-append-drop : (n : ℕ) (xs : List A) → take n xs ++ drop n xs ≡ xs
  take-append-drop zero xs = refl
  take-append-drop (suc n) [] = refl
  take-append-drop (suc n) (x ∷ xs) = rw (take-append-drop n xs)

  pub length-take : (n : ℕ) (xs : List A) → length (take n xs) ≡ min n (length xs)
  length-take zero xs = omega arith
  length-take (suc n) [] = omega arith
  length-take (suc n) (x ∷ xs) = omega (arith, length-take n xs)

  pub length-drop : (n : ℕ) (xs : List A) → length (drop n xs) ≡ length xs - n
  length-drop zero xs = omega arith
  length-drop (suc n) [] = omega arith
  length-drop (suc n) (x ∷ xs) = omega (arith, length-drop n xs)

  pub length-replicate : (n : ℕ) (a : A) → length (replicate n a) ≡ n
  length-replicate zero a = refl
  length-replicate (suc n) a = ap suc (length-replicate n a)

module _ {ℓ} {A : Type ℓ} where
  -- Cutting at a length that is known.
  pub take-append_at : (n : ℕ) (xs ys : List A) → length xs ≡ n → take n (xs ++ ys) ≡ xs
  take-append_at zero [] ys h = refl
  take-append_at zero (x ∷ xs) ys h = absurd (omega arith)
  take-append_at (suc n) [] ys h = absurd (omega arith)
  take-append_at (suc n) (x ∷ xs) ys h = rw (take-append_at n xs ys (omega arith))

  pub drop-append_at : (n : ℕ) (xs ys : List A) → length xs ≡ n → drop n (xs ++ ys) ≡ ys
  drop-append_at zero [] ys h = refl
  drop-append_at zero (x ∷ xs) ys h = absurd (omega arith)
  drop-append_at (suc n) [] ys h = absurd (omega arith)
  drop-append_at (suc n) (x ∷ xs) ys h = drop-append_at n xs ys (omega arith)

  pub take_all : (n : ℕ) (xs : List A) → length xs ≤ n → take n xs ≡ xs
  take_all zero [] h = refl
  take_all zero (x ∷ xs) h = absurd (omega arith)
  take_all (suc n) [] h = refl
  take_all (suc n) (x ∷ xs) h = rw (take_all n xs (omega arith))

  pub drop_all : (n : ℕ) (xs : List A) → length xs ≤ n → drop n xs ≡ []
  drop_all zero [] h = refl
  drop_all zero (x ∷ xs) h = absurd (omega arith)
  drop_all (suc n) [] h = refl
  drop_all (suc n) (x ∷ xs) h = drop_all n xs (omega arith)

  pub drop-drop : (m n : ℕ) (xs : List A) → drop m (drop n xs) ≡ drop (n + m) xs
  drop-drop m zero xs = rw (zero_plus m)
    where
      zero_plus : (k : ℕ) → zero + k ≡ k
      zero_plus k = omega arith
  drop-drop m (suc n) [] = drop-nil m ∙ ap (λ k. drop k []) (suc_plus n m)
    where
      suc_plus : (j k : ℕ) → suc (j + k) ≡ suc j + k
      suc_plus j k = omega arith

      drop-nil : (k : ℕ) → drop {A = A} k [] ≡ []
      drop-nil zero = refl
      drop-nil (suc k) = refl
  drop-drop m (suc n) (x ∷ xs) = drop-drop m n xs ∙ ap (λ k. drop k (x ∷ xs)) (suc_plus n m)
    where
      suc_plus : (j k : ℕ) → suc (j + k) ≡ suc j + k
      suc_plus j k = omega arith

  -- Two equal concatenations whose first parts are equally long agree part by part.
  pub append-cancel :
      (xs ys us vs : List A) → length xs ≡ length ys → xs ++ us ≡ ys ++ vs → (xs ≡ ys) × (us ≡ vs)
  append-cancel xs ys us vs h e = (
    sym (take-append_at (length ys) xs us h)
        ∙ ap (take (length ys)) e
        ∙ take-append_at (length ys) ys vs refl,
    sym (drop-append_at (length ys) xs us h)
        ∙ ap (drop (length ys)) e
        ∙ drop-append_at (length ys) ys vs refl,
  )

  pub take-nil : (k : ℕ) → take {A = A} k [] ≡ []
  take-nil zero = refl
  take-nil (suc k) = refl

  -- A first piece, and what is missing of a longer one.
  pub take-append-take :
      (m n : ℕ) (xs : List A)
      → m ≤ n
      → take m xs ++ take (n - length (take m xs)) (drop (length (take m xs)) xs) ≡ take n xs
  take-append-take zero n xs h = ap (λ k. take k xs) (omega arith)
  take-append-take (suc m) zero xs h = absurd (omega arith)
  take-append-take (suc m) (suc n) [] h = take-nil (suc n - 0)
  take-append-take (suc m) (suc n) (x ∷ xs) h =
      let same : suc n - suc (length (take m xs)) ≡ n - length (take m xs) = omega arith in
      rw same (ap (λ k. x ∷ k) (take-append-take m n xs (omega arith)))
