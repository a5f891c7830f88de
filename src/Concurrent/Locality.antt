-- ===== src/Concurrent/Locality.antt =====
-- What a call reads of the state: its answer and its effect depend on the files that it consults.
use mathlib.Core.Path.{subst}
use filum_crypto.Prelude.{
  Bool, true, false, Bytes, List, if◌then◌else◌, Option, Result, ok, err, ok-injective, M, continue,
  ◌≡◌, refl, ap,
}
use filum_crypto.External.{Backend}
use filum_crypto.Io.{FilePath, IoChoice, path_eq, update, World, Io, on_rng}
use filum_crypto.Io.Laws.{at}

module _ (B : Backend) (R : FilePath → Type 0) where
  -- Two states of a process that differ in no file of `R`.
  pub record Same (w u : World B) : Type 0 where
    pub rng : w.rng ≡ u.rng
    pub buffer : w.buffer ≡ u.buffer
    pub files : (q : FilePath) → R q → w.files q ≡ u.files q

  -- Two outcomes that differ in no file of `R`.
  pub record Alike {A : Type 0} (x y : Result A × World B) : Type 0 where
    pub result : x.0 ≡ y.0
    pub same : Same x.1 y.1
    pub choices : x.1.choices ≡ y.1.choices

  pub Same-at : (w u : World B) (cs : List IoChoice) → Same w u → Same (at B w cs) (at B u cs)
  Same-at w u cs s = record { rng = s.rng; buffer = s.buffer; files = s.files }

  -- The same answer in states that are alike.
  pub answer :
      {A : Type 0} (r : Result A) (cs : List IoChoice) (w u : World B)
      → Same w u
      → Alike (r, at B w cs) (r, at B u cs)
  answer r cs w u s = record { result = refl; same = Same-at w u cs s; choices = refl }

  -- An answer in states that are alike.
  abbrev pub alike :
      {A : Type 0} (r : Result A) (v v' : World B)
      → Same v v'
      → v.choices ≡ v'.choices
      → Alike (r, v) (r, v')
  alike r v v' s c = record { result = refl; same = s; choices = c }

  pub bind-Alike :
      {A C : Type 0} (x y : Result A × World B) (f : A → Io B C)
      → Alike x y
      → ((a : A) (v v' : World B) → Same v v' → v.choices ≡ v'.choices → Alike (f a v) (f a v'))
      → Alike (continue x f) (continue y f)
  bind-Alike (ok a, v) (ok b, v') f h g =
      subst (λ c. Alike (f a v) (f c v')) (ok-injective h.result) (g a v v' h.same h.choices)
  bind-Alike (ok a, v) (err e, v') f h g = absurd (cc h.result)
  bind-Alike (err e, v) (ok b, v') f h g = absurd (cc h.result)
  bind-Alike (err e, v) (err z, v') f h g = record {
    result = cc h.result;
    same = h.same;
    choices = h.choices;
  }

  pub on_rng-Alike :
      {A : Type 0} (m : M B.rng.State A) (w u : World B)
      → Same w u
      → w.choices ≡ u.choices
      → Alike (on_rng B m w) (on_rng B m u)
  on_rng-Alike m w u s c = record {
    result = ap (λ t. (m t).0) s.rng;
    same = record { rng = ap (λ t. (m t).1) s.rng; buffer = s.buffer; files = s.files };
    choices = c;
  }

  if-cong :
      (b : Bool) (x y x' y' : Option Bytes)
      → x ≡ x'
      → y ≡ y'
      → (if b then x else y) ≡ (if b then x' else y')
  if-cong true x y x' y' h k = h
  if-cong false x y x' y' h k = k

  pub update-Same :
      (p : FilePath) (x y : Option Bytes) (f g : FilePath → Option Bytes)
      → x ≡ y
      → ((q : FilePath) → R q → f q ≡ g q)
      → (q : FilePath) → R q
      → update f p x q ≡ update g p y q
  update-Same p x y f g h k q r = if-cong (path_eq q p) x (f q) y (g q) h (k q r)
