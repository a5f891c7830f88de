-- ===== src/Concurrent/Processes.antt =====
-- Any number of processes over one file system, which take turns in any order. A turn is one call. Each
-- process has its own writer, its own draws of randomness and its own schedule of what the system
-- does to it.
use mathlib.Core.Path.{subst}
use filum_crypto.Prelude.{
  ℕ, suc, ◌-◌, Bool, ◌==◌, if◌then◌else◌, Bytes, ◌∷◌, [], List, Result, ◌≡◌, refl, ap, ◌∙◌, arith,
}
use filum_crypto.External.{Backend}
use filum_crypto.Io.{FilePath, IoChoice, Files, World}
use filum_crypto.Concurrent.Program.{perform, Program, stop, call, run}
use filum_crypto.Concurrent.Locality.{Same, Alike}
use filum_crypto.Concurrent.Footprint.{StaysIn, perform-others, perform-Alike}

pub record Process (B : Backend) : Type 0 where
  pub program : Program B (Unit {0})
  pub rng : B.rng.State
  pub buffer : Bytes
  pub choices : List IoChoice

pub record System (B : Backend) : Type 0 where
  pub files : Files
  pub unsynced : FilePath → Bool
  pub process : ℕ → Process B

-- `count i turns` is how often it is the turn of `i`.
abbrev pub count : ℕ → List ℕ → ℕ
count i [] = 0
count i (j ∷ js) = if j == i then suc (count i js) else count i js

abbrev assign {ℓ} : {A : Type ℓ} → (ℕ → A) → ℕ → A → ℕ → A
assign f i a j = if j == i then a else f j

module _ (B : Backend) where
  -- The state as a process has it before it.
  abbrev pub sees : System B → ℕ → World B
  sees s i = record {
    rng = (s.process i).rng;
    files = s.files;
    unsynced = s.unsynced;
    buffer = (s.process i).buffer;
    choices = (s.process i).choices;
  }

  -- The next call of a program, if it has not stopped.
  abbrev pub advance : {A : Type 0} → Program B A → World B → Program B A × World B
  advance (stop r) w = (stop r, w)
  advance (call a f) w = (f (perform B a w).0, (perform B a w).1)

  abbrev pub program_of : System B → ℕ → Program B (Unit {0})
  program_of s i = (s.process i).program

  abbrev pub turn : ℕ → System B → System B
  turn i s =
      let x = advance (program_of s i) (sees s i) in
      record {
        files = x.1.files;
        unsynced = x.1.unsynced;
        process =
            assign s.process i
              (record { program = x.0; rng = x.1.rng; buffer = x.1.buffer; choices = x.1.choices });
      }

  abbrev pub schedule : List ℕ → System B → System B
  schedule [] s = s
  schedule (i ∷ is) s = schedule is (turn i s)

  -- A process that runs to its end with no other between.
  abbrev pub alone : System B → ℕ → Result (Unit {0}) × World B
  alone s i = run B (program_of s i) (sees s i)

  -- How many calls a program makes.
  abbrev pub calls : {A : Type 0} → Program B A → World B → ℕ
  calls (stop r) w = 0
  calls (call a f) w = suc (calls (f (perform B a w).0) (perform B a w).1)

  pub run-advance :
      {A : Type 0} (p : Program B A) (w : World B)
      → run B (advance p w).0 (advance p w).1 ≡ run B p w
  run-advance (stop r) w = refl
  run-advance (call a f) w = refl

  pub calls-advance :
      {A : Type 0} (p : Program B A) (w : World B)
      → calls (advance p w).0 (advance p w).1 ≡ calls p w - 1
  calls-advance (stop r) w = omega arith
  calls-advance (call a f) w = omega arith

  pub calls-stop :
      {A : Type 0} (p : Program B A) (w : World B) → calls p w ≡ 0 → p ≡ stop (run B p w).0
  calls-stop (stop r) w e = refl
  calls-stop (call a f) w e = absurd (omega (arith, e))

  module _ (R W : FilePath → Type 0) {A : Type 0} (P : Result A → B.rng.State → Type 0) where
    pub advance-StaysIn :
        (p : Program B A) (w : World B)
        → StaysIn B R W P p w.rng
        → StaysIn B R W P (advance p w).0 (advance p w).1.rng
    advance-StaysIn (stop r) w h = h
    advance-StaysIn (call a f) w h = h.2 w refl

    pub advance-others :
        (p : Program B A) (w : World B) (q : FilePath)
        → StaysIn B R W P p w.rng
        → ¬ W q
        → (advance p w).1.files q ≡ w.files q
    advance-others (stop r) w q h n = refl
    advance-others (call a f) w q h n = perform-others B a q w (λ c. n (h.1 q c))

    pub calls-Alike :
        (p : Program B A) (w u : World B)
        → StaysIn B R W P p w.rng
        → Same B R w u
        → w.choices ≡ u.choices
        → calls p w ≡ calls p u
    calls-Alike (stop r) w u h s c = refl
    calls-Alike (call a f) w u h s c =
        let x = perform-Alike B R a w u h.0 s c in
        ap suc (
          subst (λ r. calls (f (perform B a w).0) (perform B a w).1 ≡ calls (f r) (perform B a u).1)
            x.result
            (calls-Alike (f (perform B a w).0) (perform B a w).1 (perform B a u).1 (h.2 w refl)
              x.same x.choices))

  pub Alike-trans :
      (R : FilePath → Type 0) {A : Type 0} (x y z : Result A × World B)
      → Alike B R x y
      → Alike B R y z
      → Alike B R x z
  Alike-trans R x y z h k = record {
    result = h.result ∙ k.result;
    same = record {
      rng = h.same.rng ∙ k.same.rng;
      buffer = h.same.buffer ∙ k.same.buffer;
      files = λ q r. h.same.files q r ∙ k.same.files q r;
    };
    choices = h.choices ∙ k.choices;
  }

  pub Alike-eq :
      (R : FilePath → Type 0) {A : Type 0} (x y : Result A × World B) → x ≡ y → Alike B R x y
  Alike-eq R {A} x y e = record {
    result = ap (λ (z : Result A × World B). z.0) e;
    same = record {
      rng = ap (λ (z : Result A × World B). z.1.rng) e;
      buffer = ap (λ (z : Result A × World B). z.1.buffer) e;
      files = λ q r. ap (λ (z : Result A × World B). z.1.files q) e;
    };
    choices = ap (λ (z : Result A × World B). z.1.choices) e;
  }
