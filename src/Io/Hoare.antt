-- ===== src/Io/Hoare.antt =====
-- What holds after an operation, on success and on an error, and how one state may differ from the
-- state before it.
use mathlib.Core.List.{append-nil, append_assoc}
use filum_crypto.Prelude.{
  Bytes, bytes_eq, bytes_eq→eq, bytes_eq_refl, ◌++◌, [], List, ◌∷◌, Option, none, some, true, false,
  ◌&&◌, Result, ok, err, Error, M, continue, ◌≡◌, ◌≢◌, refl, ap, ◌∙◌, sym, arith, inl, inr,
  Bool-cases,
}
use filum_crypto.External.{Backend}
use filum_crypto.Io.{FilePath, path_eq, name_eq, IoChoice, full, short, fails, dies, update, World}

-- `Q` holds of a result and the state behind it, or `E` of an error and the state behind it.
abbrev pub Post : {W A : Type 0} → Result A × W → (A → W → Type 0) → (Error → W → Type 0) → Type 0
Post (ok a, w) Q E = Q a w
Post (err e, w) Q E = E e w

pub Post-bind :
    {W A C : Type 0} (r : Result A × W) (f : A → M W C) (P : A → W → Type 0) (Q : C → W → Type 0)
    (F E : Error → W → Type 0)
    → Post r P F
    → ((e : Error) (w : W) → F e w → E e w)
    → ((a : A) (w : W) → P a w → Post (f a w) Q E)
    → Post (continue r f) Q E
Post-bind (ok a, w) f P Q F E h k g = g a w h
Post-bind (err e, w) f P Q F E h k g = k e w h

pub Post-mono :
    {W A : Type 0} (r : Result A × W) (P Q : A → W → Type 0) (F E : Error → W → Type 0)
    → Post r P F
    → ((a : A) (w : W) → P a w → Q a w)
    → ((e : Error) (w : W) → F e w → E e w)
    → Post r Q E
Post-mono (ok a, w) P Q F E h g k = g a w h
Post-mono (err e, w) P Q F E h g k = k e w h

pub Post-ok :
    {W A : Type 0} (r : Result A × W) (Q : A → W → Type 0) (E : Error → W → Type 0) {a : A} {w : W}
    → Post r Q E
    → r ≡ (ok a, w)
    → Q a w
Post-ok r Q E h e = rw e at h

pub Post-err :
    {W A : Type 0} (r : Result A × W) (Q : A → W → Type 0) (E : Error → W → Type 0) {e : Error}
    {w : W}
    → Post r Q E
    → r ≡ (err e, w)
    → E e w
Post-err r Q E h e = rw e at h

-- None of the choices to come is a failure.
abbrev pub NoFaults : List IoChoice → Type 0
NoFaults [] = Unit {0}
NoFaults (full ∷ cs) = NoFaults cs
NoFaults (short k ∷ cs) = NoFaults cs
NoFaults (fails k ∷ cs) = ⊥
NoFaults (dies ∷ cs) = ⊥

path_eq→eq_parts :
    (a b : Bytes) (c d : Option Bytes) → (bytes_eq a b && name_eq c d) ≡ true → (a ≡ b) × (c ≡ d)
path_eq→eq_parts a b none none h = (bytes_eq→eq a b (ground arith), refl)
path_eq→eq_parts a b none (some y) h = absurd (ground arith)
path_eq→eq_parts a b (some x) none h = absurd (ground arith)
path_eq→eq_parts a b (some x) (some y) h =
    (bytes_eq→eq a b (ground arith), ap some (bytes_eq→eq x y (ground arith)))

pub path_eq→eq : (p q : FilePath) → path_eq p q ≡ true → p ≡ q
path_eq→eq p q h =
    let (a, b) = path_eq→eq_parts p.parent q.parent p.file_name q.file_name h in
    λ i. record { parent = a i; file_name = b i }

name_eq_refl : (n : Option Bytes) → name_eq n n ≡ true
name_eq_refl none = refl
name_eq_refl (some b) = bytes_eq_refl b

pub path_eq_refl : (p : FilePath) → path_eq p p ≡ true
path_eq_refl p = rw (bytes_eq_refl p.parent) (name_eq_refl p.file_name)

pub path_ne : (p q : FilePath) → p ≢ q → path_eq p q ≡ false
path_ne p q n = elim (Bool-cases (path_eq p q)) [
  | inl t ↦ absurd (n (path_eq→eq p q t))
  | inr f ↦ f
]

pub update_self {ℓ} : {V : Type ℓ} (f : FilePath → V) (p : FilePath) (v : V) → update f p v p ≡ v
update_self files p v = rw (path_eq_refl p)

pub update_other {ℓ} :
    {V : Type ℓ} (f : FilePath → V) (p q : FilePath) (v : V) → q ≢ p → update f p v q ≡ f q
update_other files p q v n = rw (path_ne q p n)

module _ (B : Backend) where
  -- Nothing but choices has changed.
  pub record Keeps (w w' : World B) : Type 0 where
    pub rng : w'.rng ≡ w.rng
    pub files : (q : FilePath) → w'.files q ≡ w.files q
    pub synced : (q : FilePath) → w'.unsynced q ≡ w.unsynced q
    pub buffer : w'.buffer ≡ w.buffer
    pub calm : NoFaults w.choices → NoFaults w'.choices

  -- Nothing but one file and the buffer has changed.
  pub record Touches (p : FilePath) (w w' : World B) : Type 0 where
    pub rng : w'.rng ≡ w.rng
    pub others : (q : FilePath) → q ≢ p → w'.files q ≡ w.files q
    pub others_synced : (q : FilePath) → q ≢ p → w'.unsynced q ≡ w.unsynced q
    pub calm : NoFaults w.choices → NoFaults w'.choices

  -- Bytes have been appended to one file, as it will be when the buffer has been written.
  pub record Writes (p : FilePath) (bytes : Bytes) (w w' : World B) : Type 0 where
    pub touches : Touches p w w'
    pub appended :
        (old : Bytes)
        → w.files p ≡ some old
        → (now : Bytes) × (w'.files p ≡ some now) × (now ++ w'.buffer ≡ (old ++ w.buffer) ++ bytes)

  -- An error that the operating system has caused.
  abbrev pub IoError : World B → Error → Type 0
  IoError w e = (e ≡ Error.io) × (¬ NoFaults w.choices)

  pub Keeps-refl : (w : World B) → Keeps w w
  Keeps-refl w = record {
    rng = refl;
    files = λ q. refl;
    synced = λ q. refl;
    buffer = refl;
    calm = λ h. h;
  }

  pub Keeps-trans : (u v w : World B) → Keeps u v → Keeps v w → Keeps u w
  Keeps-trans u v w a b = record {
    rng = b.rng ∙ a.rng;
    files = λ q. b.files q ∙ a.files q;
    synced = λ q. b.synced q ∙ a.synced q;
    buffer = b.buffer ∙ a.buffer;
    calm = λ h. b.calm (a.calm h);
  }

  pub Touches-trans :
      (p : FilePath) (u v w : World B) → Touches p u v → Touches p v w → Touches p u w
  Touches-trans p u v w a b = record {
    rng = b.rng ∙ a.rng;
    others = λ q n. b.others q n ∙ a.others q n;
    others_synced = λ q n. b.others_synced q n ∙ a.others_synced q n;
    calm = λ h. b.calm (a.calm h);
  }

  pub Touches-Keeps : (p : FilePath) (w w' : World B) → Keeps w w' → Touches p w w'
  Touches-Keeps p w w' k = record {
    rng = k.rng;
    others = λ q _. k.files q;
    others_synced = λ q _. k.synced q;
    calm = k.calm;
  }

  pub Writes-Keeps : (p : FilePath) (w w' : World B) → Keeps w w' → Writes p [] w w'
  Writes-Keeps p w w' k = record {
    touches = Touches-Keeps p w w' k;
    appended = λ old e. (old, k.files p ∙ e, rw k.buffer (sym (append-nil (old ++ w.buffer))));
  }

  pub Writes-trans :
      (p : FilePath) (xs ys : Bytes) (u v w : World B)
      → Writes p xs u v
      → Writes p ys v w
      → Writes p (xs ++ ys) u w
  Writes-trans p xs ys u v w a b = record {
    touches = Touches-trans p u v w a.touches b.touches;
    appended = λ old e.
        let (mid, em, sum) = a.appended old e in
        let (now, en, sum') = b.appended mid em in
        (now, en, sum' ∙ ap (λ k. k ++ ys) sum ∙ append_assoc (old ++ u.buffer) xs ys);
  }
