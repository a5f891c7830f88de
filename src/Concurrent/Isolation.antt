-- ===== src/Concurrent/Isolation.antt =====
-- Processes that keep away from each other's files.
use mathlib.Core.Path.{subst}
use filum_crypto.Prelude.{
  ℕ, suc, ◌-◌, ◌≤◌, Bool, Bool-cases, ◌⊎◌, inl, inr, ◌==◌, ==_iff, ==_refl, ==_ne, if◌then◌else◌,
  ◌∷◌, [], List, Result, ◌≡◌, ◌≢◌, refl, ap, ◌∙◌, sym, arith,
}
use filum_crypto.External.{Backend}
use filum_crypto.Io.{FilePath, Files, World}
use filum_crypto.Concurrent.Program.{Program, stop, run}
use filum_crypto.Concurrent.Locality.{Same, Alike}
use filum_crypto.Concurrent.Footprint.{StaysIn, run-Alike}
use filum_crypto.Concurrent.Processes.{
  Process, System, count, sees, advance, program_of, turn, schedule, alone, calls, run-advance,
  calls-advance, calls-stop, advance-StaysIn, advance-others, calls-Alike, Alike-trans, Alike-eq,
}

module _ (B : Backend) where
  abbrev pub world_of : Process B → Files → (FilePath → Bool) → World B
  world_of p files unsynced = record {
    rng = p.rng;
    files = files;
    unsynced = unsynced;
    buffer = p.buffer;
    choices = p.choices;
  }

  -- A process as its turn leaves it.
  abbrev pub next_of : System B → ℕ → Process B
  next_of s i =
      let x = advance B (program_of B s i) (sees B s i) in
      record { program = x.0; rng = x.1.rng; buffer = x.1.buffer; choices = x.1.choices }

  pub turn_self : (s : System B) (i : ℕ) → (turn B i s).process i ≡ next_of s i
  turn_self s i = rw (==_refl i)

  pub turn_other : (s : System B) (i j : ℕ) → i ≢ j → (turn B j s).process i ≡ s.process i
  turn_other s i j n = rw (==_ne i j n)

  pub same_or_other : (i j : ℕ) → (i ≡ j) ⊎ (i ≢ j)
  same_or_other i j = elim (Bool-cases (i == j)) [
    | inl t ↦ inl ((==_iff i j).0 t)
    | inr f ↦ inr (λ e. absurd (cc (sym f ∙ (==_iff i j).1 e)))
  ]

  abbrev pub runs : Process B → Files → (FilePath → Bool) → Result (Unit {0}) × World B
  runs p files unsynced = run B p.program (world_of p files unsynced)

  abbrev left : Process B → Files → (FilePath → Bool) → ℕ
  left p files unsynced = calls B p.program (world_of p files unsynced)

  pub turn-alone : (s : System B) (i : ℕ) → alone B (turn B i s) i ≡ alone B s i
  turn-alone s i =
      ap (λ p. runs p (turn B i s).files (turn B i s).unsynced) (turn_self s i)
      ∙ run-advance B (program_of B s i) (sees B s i)

  -- Process `i` consults the files `R i` only and changes the files `W i` only, and no other changes a
  -- file that it consults.
  module _ (R W : ℕ → FilePath → Type 0) (P : ℕ → Result (Unit {0}) → B.rng.State → Type 0)
      (apart : (i j : ℕ) → i ≢ j → (q : FilePath) → R i q → ¬ W j q) where
    abbrev pub Bounded : System B → Type 0
    Bounded s = (i : ℕ) → StaysIn B (R i) (W i) (P i) (program_of B s i) (sees B s i).rng

    abbrev Bound : ℕ → Process B → Type 0
    Bound i p = StaysIn B (R i) (W i) (P i) p.program p.rng

    pub turn-Bounded : (s : System B) (j : ℕ) → Bounded s → Bounded (turn B j s)
    turn-Bounded s j h i = elim (same_or_other i j) [
      | inl e ↦
          subst (λ k. Bound i ((turn B k s).process i)) e
            (subst (Bound i) (sym (turn_self s i))
              (advance-StaysIn B (R i) (W i) (P i) (program_of B s i) (sees B s i) (h i)))
      | inr n ↦ subst (Bound i) (sym (turn_other s i j n)) (h i)
    ]

    -- The turn of another changes nothing that a process sees of its files.
    pub turn-Same :
        (s : System B) (i j : ℕ)
        → Bounded s
        → i ≢ j
        → Same B
            (R i)
            (world_of (s.process i) (turn B j s).files (turn B j s).unsynced)
            (sees B s i)
    turn-Same s i j h n = record {
      rng = refl;
      buffer = refl;
      files = λ q r.
          advance-others B (R j) (W j) (P j) (program_of B s j) (sees B s j) q (h j)
            (apart i j n q r);
    }

    pub turn-Alike :
        (s : System B) (i j : ℕ) → Bounded s → Alike B (R i) (alone B (turn B j s) i) (alone B s i)
    turn-Alike s i j h = elim (same_or_other i j) [
      | inl e ↦
          subst (λ k. Alike B (R i) (alone B (turn B k s) i) (alone B s i)) e
            (Alike-eq B (R i) (alone B (turn B i s) i) (alone B s i) (turn-alone s i))
      | inr n ↦
          subst (λ p. Alike B (R i) (runs p (turn B j s).files (turn B j s).unsynced) (alone B s i))
            (sym (turn_other s i j n))
            (run-Alike B (R i) (W i) (P i) (program_of B s i)
              (world_of (s.process i) (turn B j s).files (turn B j s).unsynced) (sees B s i) (h i)
              (turn-Same s i j h n) refl)
    ]

    left_self :
        (s : System B) (i : ℕ)
        → calls B (program_of B (turn B i s) i) (sees B (turn B i s) i)
          ≡ calls B (program_of B s i) (sees B s i) - 1
    left_self s i =
        ap (λ p. left p (turn B i s).files (turn B i s).unsynced) (turn_self s i)
        ∙ calls-advance B (program_of B s i) (sees B s i)

    left_other :
        (s : System B) (i j : ℕ)
        → Bounded s
        → i ≢ j
        → calls B (program_of B (turn B j s) i) (sees B (turn B j s) i)
          ≡ calls B (program_of B s i) (sees B s i)
    left_other s i j h n =
        ap (λ p. left p (turn B j s).files (turn B j s).unsynced) (turn_other s i j n)
        ∙ calls-Alike B (R i) (W i) (P i) (program_of B s i)
            (world_of (s.process i) (turn B j s).files (turn B j s).unsynced) (sees B s i) (h i)
            (turn-Same s i j h n) refl

    schedule-Alike :
        (s : System B) (i : ℕ) (turns : List ℕ)
        → Bounded s
        → Alike B (R i) (alone B (schedule B turns s) i) (alone B s i)
    schedule-Alike s i [] h = Alike-eq B (R i) (alone B s i) (alone B s i) refl
    schedule-Alike s i (j ∷ js) h =
        Alike-trans B (R i) (alone B (schedule B js (turn B j s)) i) (alone B (turn B j s) i)
          (alone B s i) (schedule-Alike (turn B j s) i js (turn-Bounded s j h)) (turn-Alike s i j h)

    -- Enough turns finish a process.
    schedule-left :
        (s : System B) (i : ℕ) (turns : List ℕ)
        → Bounded s
        → calls B (program_of B s i) (sees B s i) ≤ count i turns
        → calls B (program_of B (schedule B turns s) i) (sees B (schedule B turns s) i) ≡ 0
    schedule-left s i [] h enough = omega (arith, enough)
    schedule-left s i (j ∷ js) h enough = elim (same_or_other i j) [
      | inl e ↦ schedule-left (turn B j s) i js (turn-Bounded s j h) (
          subst (λ k. calls B (program_of B (turn B k s) i) (sees B (turn B k s) i) ≤ count i js) e
            (omega (
              arith,
              left_self s i,
              subst
                  (λ (b : Bool).
                    calls B (program_of B s i) (sees B s i)
                    ≤ (if b then suc (count i js) else count i js))
                  ((==_iff j i).1 (sym e)) enough,
            )))
      | inr n ↦ schedule-left (turn B j s) i js (turn-Bounded s j h) (
          omega (
            arith,
            left_other s i j h n,
            subst
                (λ (b : Bool).
                  calls B (program_of B s i) (sees B s i)
                  ≤ (if b then suc (count i js) else count i js))
                (==_ne j i (λ e. n (sym e))) enough,
          ))
    ]

    -- Whatever the other processes do between its calls, a process that gets enough turns stops with the
    -- result that it has when it runs alone from the start, and with the same contents in every file
    -- that it consults. Enough is the number of calls that it makes alone. Each process consults and
    -- changes files of its own sets only, and no process changes what another consults.
    pub schedule-alone :
        (s : System B) (i : ℕ) (turns : List ℕ) (q : FilePath)
        → Bounded s
        → calls B (program_of B s i) (sees B s i) ≤ count i turns
        → R i q
        → (program_of B (schedule B turns s) i ≡ stop (alone B s i).0)
          × ((schedule B turns s).files q ≡ (alone B s i).1.files q)
    schedule-alone s i turns q h enough r =
        let t = schedule B turns s in
        let x = schedule-Alike s i turns h in
        let e = calls-stop B (program_of B t i) (sees B t i) (schedule-left s i turns h enough) in
        (
          e ∙ ap stop x.result,
          ap (λ (p : Program B (Unit {0})). (run B p (sees B t i)).1.files q) (sym e)
              ∙ x.same.files q r,
        )
