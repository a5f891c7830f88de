-- ===== src/Concurrent/Jobs.antt =====
-- Processes that encrypt and decrypt files at the same time.
use mathlib.Core.Path.{subst}
use filum_crypto.Prelude.{
  ℕ, ◌≤◌, Bytes, Result, ok, List, ◌≡◌, ◌≢◌, ◌⊎◌, inl, inr, refl, ap, ◌∙◌, sym,
}
use filum_crypto.External.{Backend}
use filum_crypto.Io.{FilePath, World, Io}
use filum_crypto.File.{encrypt_file_chunked, decrypt_file_chunked}
use filum_crypto.Concurrent.Program.{Program, stop, run}
use filum_crypto.Concurrent.Codec.{encrypt_program, decrypt_program}
use filum_crypto.Concurrent.Agree.{run-encrypt_program, run-decrypt_program}
use filum_crypto.Concurrent.Footprint.{StaysIn}
use filum_crypto.Concurrent.Processes.{System, count, sees, program_of, schedule, alone, calls}
use filum_crypto.Concurrent.Isolation.{schedule-alone}
use filum_crypto.Concurrent.Steps.{Any, Draws}
use filum_crypto.Concurrent.Reach.{encrypt_program-StaysIn, decrypt_program-StaysIn}

-- What a process was started to do.
pub data Job : Type 0 where
  encrypts decrypts : (input output : FilePath) (key id : Bytes) → Job
  rests : Job

module _ (B : Backend) where
  abbrev pub program_for : Job → Program B (Unit {0})
  program_for (encrypts input output key id) = encrypt_program B input output key id
  program_for (decrypts input output key id) = decrypt_program B input output key id
  program_for rests = stop (ok tt)

  -- The function that a job calls.
  abbrev pub outcome : Job → Io B (Unit {0})
  outcome (encrypts input output key id) = encrypt_file_chunked B input output key id
  outcome (decrypts input output key id) = decrypt_file_chunked B input output key id
  outcome rests = λ w. (ok tt, w)

  -- An encryption consults what it has written, since a file that is gone is not written to.
  abbrev pub Reads : Job → B.rng.State → FilePath → Type 0
  Reads (encrypts input output key id) s q = (q ≡ input) ⊎ (q ≡ output)
  Reads (decrypts input output key id) s q = (q ≡ input) ⊎ Draws B output s q
  Reads rests s q = ⊥

  abbrev pub Writes : Job → B.rng.State → FilePath → Type 0
  Writes (encrypts input output key id) s q = q ≡ output
  Writes (decrypts input output key id) s q = (q ≡ output) ⊎ Draws B output s q
  Writes rests s q = ⊥

  program_for-StaysIn :
      (job : Job) (s : B.rng.State)
      → StaysIn B (Reads job s) (Writes job s) (Any B) (program_for job) s
  program_for-StaysIn (encrypts input output key id) s =
      encrypt_program-StaysIn B (Reads (encrypts input output key id) s)
        (Writes (encrypts input output key id) s) input output (inl refl) (inr refl) refl key id s
  program_for-StaysIn (decrypts input output key id) s =
      decrypt_program-StaysIn B (Reads (decrypts input output key id) s)
        (Writes (decrypts input output key id) s) input output (inl refl) (inl refl) key id s
        (λ tmp d. (inr d, inr d))
  program_for-StaysIn rests s = tt

  run-program_for : (job : Job) (w : World B) → run B (program_for job) w ≡ outcome job w
  run-program_for (encrypts input output key id) w = run-encrypt_program B input output key id w
  run-program_for (decrypts input output key id) w = run-decrypt_program B input output key id w
  run-program_for rests w = refl

  -- Every process is at the start of its job.
  abbrev pub Started : (ℕ → Job) → System B → Type 0
  Started job s = (i : ℕ) → program_of B s i ≡ program_for (job i)

  -- No process consults a file that another changes.
  abbrev pub Apart : (ℕ → Job) → System B → Type 0
  Apart job s =
      (i j : ℕ)
      → i ≢ j
      → (q : FilePath) → Reads (job i) (sees B s i).rng q
      → ¬ Writes (job j) (sees B s j).rng q

  pub Started-Bounded :
      (job : ℕ → Job) (s : System B)
      → Started job s
      → (i : ℕ)
      → StaysIn B
          (Reads (job i) (sees B s i).rng)
          (Writes (job i) (sees B s i).rng)
          (Any B)
          (program_of B s i)
          (sees B s i).rng
  Started-Bounded job s started i =
      subst
        (λ p.
          StaysIn B (Reads (job i) (sees B s i).rng) (Writes (job i) (sees B s i).rng) (Any B) p
            (sees B s i).rng)
        (sym (started i)) (program_for-StaysIn (job i) (sees B s i).rng)

  pub alone-outcome :
      (job : ℕ → Job) (s : System B) (i : ℕ)
      → Started job s
      → alone B s i ≡ outcome (job i) (sees B s i)
  alone-outcome job s i started =
      ap (λ p. run B p (sees B s i)) (started i) ∙ run-program_for (job i) (sees B s i)

  -- Any number of processes, each at the start of an encryption or a decryption of files or at
  -- rest, take turns in any order. A process that has had as many turns as it makes calls when it
  -- runs alone has ended with the result that `encrypt_file_chunked` or `decrypt_file_chunked`
  -- has alone, and every file that it consults has the contents that this leaves: its input, and
  -- the output of an encryption or the temporary file of a decryption. No process consults a file
  -- that another changes.
  pub jobs_alone :
      (job : ℕ → Job) (s : System B) (i : ℕ) (turns : List ℕ) (q : FilePath)
      → Started job s
      → Apart job s
      → calls B (program_of B s i) (sees B s i) ≤ count i turns
      → Reads (job i) (sees B s i).rng q
      → (program_of B (schedule B turns s) i ≡ stop (outcome (job i) (sees B s i)).0)
        × ((schedule B turns s).files q ≡ (outcome (job i) (sees B s i)).1.files q)
  jobs_alone job s i turns q started apart enough r =
      let (stops, leaves) =
        schedule-alone B (λ i. Reads (job i) (sees B s i).rng)
          (λ i. Writes (job i) (sees B s i).rng) (λ _. Any B) apart s i turns q
          (Started-Bounded job s started) enough r in
      let e = alone-outcome job s i started in
      (
        stops ∙ ap (λ (x : Result (Unit {0}) × World B). stop x.0) e,
        leaves ∙ ap (λ (x : Result (Unit {0}) × World B). x.1.files q) e,
      )
