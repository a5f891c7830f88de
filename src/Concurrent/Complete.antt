-- ===== src/Concurrent/Complete.antt =====
-- What the destination of several decryptions holds at any time.
use mathlib.Core.Path.{subst}
use filum_crypto.Prelude.{
  ◌≤◌, ℕ, Bytes, List, some, Result, ok, ◌≡◌, ◌⊎◌, inl, inr, refl, ap, ◌∙◌, sym,
}
use filum_crypto.External.{Backend, IsStream}
use filum_crypto.Blob.{decrypt_chunked}
use filum_crypto.Io.{FilePath, Files, World}
use filum_crypto.File.{decrypt_file_chunked}
use filum_crypto.File.TempPath.{IsTemp}
use filum_crypto.File.Guarantees.{published}
use filum_crypto.Concurrent.Program.{stop}
use filum_crypto.Concurrent.Processes.{System, sees, program_of, schedule, alone, count, calls}
use filum_crypto.Concurrent.Publishing.{Publishes}
use filum_crypto.Concurrent.Destination.{decrypt_program-Publishes}
use filum_crypto.Concurrent.Published.{Finishes, schedule_output, schedule_published}
use filum_crypto.Concurrent.Steps.{Any}
use filum_crypto.Concurrent.Jobs.{
  Job, decrypts, program_for, jobs_alone, outcome, Reads, Writes, Started, Apart, Started-Bounded,
  alone-outcome,
}

module _ (B : Backend) (S : IsStream B.stream) (output : FilePath) where
  -- A decryption to the destination of a file that is there and is not at a temporary path of it.
  pub record DecryptsTo (job : Job) (files : Files) : Type 0 where
    pub input : FilePath
    pub framed : Bytes
    pub key : Bytes
    pub id : Bytes
    pub job_is : job ≡ decrypts input output key id
    pub holds : files input ≡ some framed
    pub temp_free : ¬ IsTemp output input

  -- A job decrypts to the destination, or does not change it.
  abbrev pub Spares : (ℕ → Job) → System B → Type 0
  Spares job s = (i : ℕ) → DecryptsTo (job i) s.files ⊎ ¬ Writes B (job i) (sees B s i).rng output

  Started-Role :
      (job : ℕ → Job) (s : System B)
      → Started B job s
      → Apart B job s
      → Spares job s
      → (i : ℕ)
      → Publishes B output (program_of B s i) (sees B s i).rng
        ⊎ ((program_of B s i ≡ stop (ok tt)) ⊎ ¬ Writes B (job i) (sees B s i).rng output)
  Started-Role job s started apart spares i = elim (spares i) [
    | inr n ↦ inr (inr n)
    | inl d ↦ inl (
        subst (λ p. Publishes B output p (sees B s i).rng)
          (sym (started i ∙ ap (program_for B) d.job_is))
          (decrypt_program-Publishes B d.input output d.key d.id (sees B s i).rng))
  ]

  plaintext :
      (job : ℕ → Job) (s : System B) (turns : List ℕ) (started : Started B job s)
      (apart : Apart B job s) (i : ℕ) (d : DecryptsTo (job i) s.files)
      → Finishes B output
          (λ i. Reads B (job i) (sees B s i).rng)
          (λ i. Writes B (job i) (sees B s i).rng)
          (λ _. Any B)
          apart
          s
          i
          ((schedule B turns s).files output)
      → (msg : Bytes) × (decrypt_chunked B d.framed d.key d.id ≡ ok msg)
        × ((schedule B turns s).files output ≡ some msg)
  plaintext job s turns started apart i d f =
      let w = sees B s i in
      let e : alone B s i ≡ decrypt_file_chunked B d.input output d.key d.id w =
        alone-outcome B job s i started ∙ ap (λ j. outcome B j w) d.job_is in
      let x = decrypt_file_chunked B d.input output d.key d.id w in
      let r : x.0 ≡ ok tt = sym (ap (λ (y : Result (Unit {0}) × World B). y.0) e) ∙ f.succeeds in
      let ((msg, m, file, _), _, _) =
        published B S d.input output d.temp_free d.framed d.key d.id w x.1 d.holds
          (ap (λ (q : Result (Unit {0})). (q, x.1)) r) in
      (msg, m, f.leaves ∙ ap (λ (y : Result (Unit {0}) × World B). y.1.files output) e ∙ file)

  -- Any number of processes, each at the start of its job, take turns in any order. After any
  -- number of turns the destination holds what it held at the start, or the whole plaintext that
  -- `decrypt_chunked` gives for the file that one of the processes decrypts. Each process either
  -- decrypts to the destination a file that is there and is not at a temporary path of it, or
  -- does not change the destination; no process consults a file that another changes; and the
  -- STREAM crate meets its laws.
  pub destination_complete :
      (job : ℕ → Job) (s : System B) (turns : List ℕ)
      → Started B job s
      → Apart B job s
      → Spares job s
      → ((schedule B turns s).files output ≡ s.files output)
        ⊎ ((i : ℕ) × (d : DecryptsTo (job i) s.files) × (msg : Bytes) × (decrypt_chunked B d.framed
                d.key d.id
              ≡ ok msg)
            × ((schedule B turns s).files output ≡ some msg))
  destination_complete job s turns started apart spares =
      elim (schedule_output B output (λ i. Reads B (job i) (sees B s i).rng)
        (λ i. Writes B (job i) (sees B s i).rng) (λ _. Any B) apart turns s
        (Started-Bounded B job s started) (Started-Role job s started apart spares)) [
          | inl same ↦ inl same
          | inr (i, f) ↦ elim (spares i) [
            | inr n ↦ absurd (n f.writes_it)
            | inl d ↦
                let (msg, m, file) = plaintext job s turns started apart i d f in
                inr (i, d, msg, m, file)
          ]
        ]

  -- Where any number of processes begin their jobs: once one that decrypts to the destination has
  -- had as many turns as it makes calls when it runs alone, and `decrypt_file_chunked` succeeds
  -- alone for it, the destination holds the whole plaintext that `decrypt_chunked` gives for the
  -- file that one of the processes decrypts, whatever the order of turns. Each process either
  -- decrypts to the destination a file that is there and is not at a temporary path of it, or
  -- does not change the destination; no process consults a file that another changes; and the
  -- STREAM crate meets its laws.
  pub destination_published :
      (job : ℕ → Job) (s : System B) (turns : List ℕ) (i : ℕ)
      → Started B job s
      → Apart B job s
      → Spares job s
      → (d : DecryptsTo (job i) s.files) → calls B (program_of B s i) (sees B s i) ≤ count i turns
      → (decrypt_file_chunked B d.input output d.key d.id (sees B s i)).0 ≡ ok tt
      → (k : ℕ) × (c : DecryptsTo (job k) s.files) × (msg : Bytes) × (decrypt_chunked B c.framed
            c.key c.id
          ≡ ok msg)
        × ((schedule B turns s).files output ≡ some msg)
  destination_published job s turns i started apart spares d enough succeeds =
      let w = sees B s i in
      let ended =
        (jobs_alone B job s i turns d.input started apart enough
          (subst (λ j. Reads B j w.rng d.input) (sym d.job_is) (inl refl))).0 in
      let (k, f) =
        schedule_published B output (λ i. Reads B (job i) (sees B s i).rng)
          (λ i. Writes B (job i) (sees B s i).rng) (λ _. Any B) apart turns s i
          (Started-Bounded B job s started) (Started-Role job s started apart spares)
          (subst (λ p. Publishes B output p w.rng) (sym (started i ∙ ap (program_for B) d.job_is))
            (decrypt_program-Publishes B d.input output d.key d.id w.rng))
          (ended ∙ ap (λ j. stop (outcome B j w).0) d.job_is ∙ ap stop succeeds) in
      elim (spares k) [
        | inr n ↦ absurd (n f.writes_it)
        | inl c ↦
            let (msg, m, file) = plaintext job s turns started apart k c f in (k, c, msg, m, file)
      ]
