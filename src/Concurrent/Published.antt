-- ===== src/Concurrent/Published.antt =====
-- Several processes of which some publish one file: what the file holds at any time.
use mathlib.Core.Path.{subst}
use filum_crypto.Prelude.{
  ℕ, Bytes, List, ◌∷◌, [], Option, Result, ok, ◌≡◌, ◌≢◌, ◌⊎◌, inl, inr, refl, ap, ◌∙◌, sym,
}
use filum_crypto.External.{Backend}
use filum_crypto.Io.{FilePath, World}
use filum_crypto.Concurrent.Program.{stop, run}
use filum_crypto.Concurrent.Processes.{
  Process, System, sees, advance, program_of, turn, schedule, alone, run-advance, advance-others,
}
use filum_crypto.Concurrent.Isolation.{
  world_of, next_of, turn_self, turn_other, same_or_other, runs, turn-alone, Bounded, turn-Bounded,
  turn-Same, turn-Alike,
}
use filum_crypto.Concurrent.Publishing.{Publishes, advance-Publishes}
use filum_crypto.Concurrent.Agreement.{run-Agree}

module _ (B : Backend) (o : FilePath) (R W : ℕ → FilePath → Type 0)
    (P : ℕ → Result (Unit {0}) → B.rng.State → Type 0)
    (apart : (i j : ℕ) → i ≢ j → (q : FilePath) → R i q → ¬ W j q) where
  -- A process is yet to publish the file, has published it, or has nothing to do with it.
  abbrev Role : ℕ → Process B → Type 0
  Role i p = Publishes B o p.program p.rng ⊎ ((p.program ≡ stop (ok tt)) ⊎ ¬ W i o)

  abbrev Roles : System B → Type 0
  Roles s = (i : ℕ) → Role i (s.process i)

  abbrev Inside : System B → Type 0
  Inside s = Bounded B R W P apart s

  -- The process succeeds alone, and the file then holds this.
  pub record Finishes (s : System B) (i : ℕ) (v : Option Bytes) : Type 0 where
    pub writes_it : W i o
    pub publishes : Publishes B o (program_of B s i) (sees B s i).rng
    pub succeeds : (alone B s i).0 ≡ ok tt
    pub leaves : v ≡ (alone B s i).1.files o

  next-Role : (s : System B) (i : ℕ) → Inside s → Roles s → Role i (next_of B s i)
  next-Role s i h roles = elim (roles i) [
    | inl p ↦
        elim (advance-Publishes B o (R i) (W i) (P i) (program_of B s i) (sees B s i) (h i) p) [
          | inl (e, _) ↦ inr (inl e)
          | inr (p', _) ↦ inl p'
        ]
    | inr (inl e) ↦ inr (inl (ap (λ p. (advance B p (sees B s i)).0) e))
    | inr (inr n) ↦ inr (inr n)
  ]

  turn-Roles : (s : System B) (j : ℕ) → Inside s → Roles s → Roles (turn B j s)
  turn-Roles s j h roles i = elim (same_or_other B i j) [
    | inl e ↦
        subst (λ k. Role i ((turn B k s).process i)) e
          (subst (Role i) (sym (turn_self B s i)) (next-Role s i h roles))
    | inr n ↦ subst (Role i) (sym (turn_other B s i j n)) (roles i)
  ]

  -- The last call of a process that publishes the file.
  finishes :
      (s : System B) (j : ℕ)
      → Publishes B o (program_of B s j) (sees B s j).rng
      → W j o
      → (advance B (program_of B s j) (sees B s j)).0 ≡ stop (ok tt)
      → Finishes s j ((turn B j s).files o)
  finishes s j p w e =
      let x = advance B (program_of B s j) (sees B s j) in
      let done : alone B s j ≡ (ok tt, x.1) =
        sym (run-advance B (program_of B s j) (sees B s j)) ∙ ap (λ m. run B m x.1) e in
      record {
        writes_it = w;
        publishes = p;
        succeeds = ap (λ (y : Result (Unit {0}) × World B). y.0) done;
        leaves = sym (ap (λ (y : Result (Unit {0}) × World B). y.1.files o) done);
      }

  -- A turn leaves the file, or it is the last of a process that succeeds alone.
  turn-output :
      (s : System B) (j : ℕ)
      → Inside s
      → Roles s
      → ((turn B j s).files o ≡ s.files o) ⊎ Finishes s j ((turn B j s).files o)
  turn-output s j h roles = elim (roles j) [
    | inl p ↦
        elim (advance-Publishes B o (R j) (W j) (P j) (program_of B s j) (sees B s j) (h j) p) [
          | inl (e, w) ↦ inr (finishes s j p w e)
          | inr (_, same) ↦ inl same
        ]
    | inr (inl e) ↦ inl (ap (λ m. (advance B m (sees B s j)).1.files o) e)
    | inr (inr n) ↦
        inl (advance-others B (R j) (W j) (P j) (program_of B s j) (sees B s j) o (h j) n)
  ]

  -- A process that finishes from after the turn of another finishes from before it.
  other_back :
      (s : System B) (i j : ℕ) (v : Option Bytes)
      → Inside s
      → i ≢ j
      → Finishes (turn B j s) i v
      → Finishes s i v
  other_back s i j v h n f =
      let e = turn_other B s i j n in
      let u = turn B j s in
      let p : Publishes B o (program_of B s i) (sees B s i).rng =
        subst (λ (p : Process B). Publishes B o p.program p.rng) e f.publishes in
      let now = ap (λ p. runs B p u.files u.unsynced) e in
      let succeeds = ap (λ (y : Result (Unit {0}) × World B). y.0) (sym now) ∙ f.succeeds in
      record {
        writes_it = f.writes_it;
        publishes = p;
        succeeds = sym (turn-Alike B R W P apart s i j h).result ∙ f.succeeds;
        leaves =
            f.leaves
            ∙ ap (λ (y : Result (Unit {0}) × World B). y.1.files o) now
            ∙ run-Agree B o (R i) (W i) (P i) (program_of B s i)
                (world_of B (s.process i) u.files u.unsynced) (sees B s i) (h i) p
                (turn-Same B R W P apart s i j h n) refl succeeds;
      }

  -- A process that finishes from after its own turn finishes from before it.
  self_back :
      (s : System B) (i : ℕ) (v : Option Bytes)
      → Roles s
      → Finishes (turn B i s) i v
      → Finishes s i v
  self_back s i v roles f = record {
    writes_it = f.writes_it;
    publishes = elim (roles i) [
      | inl p ↦ p
      | inr (inl e) ↦ absurd (
          subst (λ m. Publishes B o m (next_of B s i).rng)
            (ap (λ m. (advance B m (sees B s i)).0) e)
            (subst (λ (p : Process B). Publishes B o p.program p.rng) (turn_self B s i)
              f.publishes))
      | inr (inr n) ↦ absurd (n f.writes_it)
    ];
    succeeds = ap (λ (y : Result (Unit {0}) × World B). y.0) (sym (turn-alone B s i)) ∙ f.succeeds;
    leaves = f.leaves ∙ ap (λ (y : Result (Unit {0}) × World B). y.1.files o) (turn-alone B s i);
  }

  back :
      (s : System B) (i j : ℕ) (v : Option Bytes)
      → Inside s
      → Roles s
      → Finishes (turn B j s) i v
      → Finishes s i v
  back s i j v h roles f = elim (same_or_other B i j) [
    | inl e ↦ self_back s i v roles (subst (λ k. Finishes (turn B k s) i v) (sym e) f)
    | inr n ↦ other_back s i j v h n f
  ]

  -- The file is as it was, or as one process that succeeds alone leaves it.
  pub schedule_output :
      (turns : List ℕ) (s : System B)
      → Inside s
      → Roles s
      → ((schedule B turns s).files o ≡ s.files o)
        ⊎ ((i : ℕ) × Finishes s i ((schedule B turns s).files o))
  schedule_output [] s h roles = inl refl
  schedule_output (j ∷ js) s h roles =
      elim (schedule_output js (turn B j s) (turn-Bounded B R W P apart s j h)
        (turn-Roles s j h roles)) [
          | inr (i, f) ↦ inr (i, back s i j _ h roles f)
          | inl e ↦ elim (turn-output s j h roles) [
            | inl k ↦ inl (e ∙ k)
            | inr f ↦ inr (j, subst (Finishes s j) (sym e) f)
          ]
        ]

  -- A process that is yet to publish the file, after a turn of any.
  still :
      (s : System B) (i j : ℕ)
      → Inside s
      → Publishes B o (program_of B s i) (sees B s i).rng
      → Publishes B o (program_of B (turn B j s) i) (sees B (turn B j s) i).rng
        ⊎ Finishes s j ((turn B j s).files o)
  still s i j h p = elim (same_or_other B i j) [
    | inr n ↦
        inl
          (subst (λ (p : Process B). Publishes B o p.program p.rng) (sym (turn_other B s i j n)) p)
    | inl e ↦
        subst
          (λ k.
            Publishes B o (program_of B (turn B k s) i) (sees B (turn B k s) i).rng
            ⊎ Finishes s k ((turn B k s).files o))
          e
          (elim (advance-Publishes B o (R i) (W i) (P i) (program_of B s i) (sees B s i) (h i) p) [
            | inl (stops, w) ↦ inr (finishes s i p w stops)
            | inr (p', _) ↦ inl (
                subst (λ (p : Process B). Publishes B o p.program p.rng) (sym (turn_self B s i)) p')
          ])
  ]

  -- Once a process has published the file, one that succeeds alone has left it.
  pub schedule_published :
      (turns : List ℕ) (s : System B) (i : ℕ)
      → Inside s
      → Roles s
      → Publishes B o (program_of B s i) (sees B s i).rng
      → program_of B (schedule B turns s) i ≡ stop (ok tt)
      → (k : ℕ) × Finishes s k ((schedule B turns s).files o)
  schedule_published [] s i h roles p e = absurd (subst (λ m. Publishes B o m (sees B s i).rng) e p)
  schedule_published (j ∷ js) s i h roles p e =
      let u = turn B j s in
      let h' = turn-Bounded B R W P apart s j h in
      let roles' = turn-Roles s j h roles in
      elim (still s i j h p) [
        | inl p' ↦
            let (k, f) = schedule_published js u i h' roles' p' e in (k, back s k j _ h roles f)
        | inr f ↦ elim (schedule_output js u h' roles') [
          | inl same ↦ (j, subst (Finishes s j) (sym same) f)
          | inr (k, f') ↦ (k, back s k j _ h roles f')
        ]
      ]
