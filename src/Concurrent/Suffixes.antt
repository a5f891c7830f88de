-- ===== src/Concurrent/Suffixes.antt =====
-- Decryptions to one destination, each with its own random suffix.
use mathlib.Core.Path.{subst}
use filum_crypto.Prelude.{
  ℕ, ◌^◌, ◌<◌, Bytes, Option, none, some, some-injective, Result, ok, err, Error, map_err,
  ok-injective, continue, from_be_bytes, ◌≡◌, ◌≢◌, ◌⊎◌, inl, inr, refl, ap, ◌∙◌, sym,
}
use filum_crypto.External.{Backend}
use filum_crypto.Blob.{random}
use filum_crypto.Io.{FilePath}
use filum_crypto.File.{temp_name, sibling_temp_path}
use filum_crypto.File.TempPath.{IsTemp, IsTemp-ne_output, temp_name-injective}
use filum_crypto.Concurrent.Processes.{System, sees}
use filum_crypto.Concurrent.Steps.{suffixed, no_files, Draws}
use filum_crypto.Concurrent.Jobs.{Job, decrypts, rests, Reads, Writes}

module _ (B : Backend) where
  -- The temporary path with the suffix that the random source gives.
  record DrawnPath (output : FilePath) (s : B.rng.State) (tmp : FilePath) : Type 0 where
    pub name : Bytes
    pub bytes : Bytes
    pub named : output.file_name ≡ some name
    pub filled : (B.rng.fill 8 s).0 ≡ some bytes
    pub path : tmp ≡ record output { file_name = some (temp_name name (from_be_bytes bytes)) }

  Draws-DrawnPath :
      (output : FilePath) (s : B.rng.State) (tmp : FilePath)
      → Draws B output s tmp
      → DrawnPath output s tmp
  unfolding sibling_temp_path random
  Draws-DrawnPath output s tmp = by_draw (B.rng.fill 8 s) refl
    where
      by_name :
          (bytes : Bytes)
          → (B.rng.fill 8 s).0 ≡ some bytes
          → (n : Option Bytes) → output.file_name ≡ n
          → elim n as (λ _. Result FilePath) [
            | none ↦ err Error.io
            | some name ↦
                ok (record output { file_name = some (temp_name name (from_be_bytes bytes)) })
          ]
            ≡ ok tmp
          → DrawnPath output s tmp
      by_name bytes f none e d = absurd (cc d)
      by_name bytes f (some name) e d = record {
        name = name;
        bytes = bytes;
        named = e;
        filled = f;
        path = sym (ok-injective d);
      }

      by_draw :
          (x : Option Bytes × B.rng.State)
          → (B.rng.fill 8 s).0 ≡ x.0
          → (continue
              (map_err Error.randomness x.0, record (no_files B s) { rng = x.1 })
              (suffixed B output)).0
            ≡ ok tmp
          → DrawnPath output s tmp
      by_draw (none, t) f d = absurd (cc d)
      by_draw (some bytes, t) f d = by_name bytes f output.file_name refl d

  module _ (output : FilePath) where
    -- A decryption to the destination of another file, which is not at a temporary path of it.
    pub record Decryption (job : Job) : Type 0 where
      pub input : FilePath
      pub key : Bytes
      pub id : Bytes
      pub job_is : job ≡ decrypts input output key id
      pub other_file : input ≢ output
      pub temp_free : ¬ IsTemp output input

    -- The suffix that a process draws is this number of 64 bits.
    abbrev pub HasSuffix : System B → ℕ → ℕ → Type 0
    HasSuffix s i v =
        (v < 2 ^ 64)
        × ((bytes : Bytes)
            → (B.rng.fill 8 (sees B s i).rng).0 ≡ some bytes
            → from_be_bytes bytes ≡ v)

    Draws-IsTemp : (s : B.rng.State) (q : FilePath) → Draws B output s q → IsTemp output q
    Draws-IsTemp s q d =
        let x = Draws-DrawnPath output s q d in
        record { name = x.name; suffix = from_be_bytes x.bytes; named = x.named; path = x.path }

    -- Two processes that draw one path have drawn one suffix.
    Draws-suffix :
        (s : System B) (i j v u : ℕ) (q : FilePath)
        → HasSuffix s i v
        → HasSuffix s j u
        → Draws B output (sees B s i).rng q
        → Draws B output (sees B s j).rng q
        → v ≡ u
    Draws-suffix s i j v u q (hv, ev) (hu, eu) d d' =
        let x = Draws-DrawnPath output (sees B s i).rng q d in
        let y = Draws-DrawnPath output (sees B s j).rng q d' in
        let same : temp_name x.name (from_be_bytes x.bytes)
            ≡ temp_name y.name (from_be_bytes y.bytes) =
          some-injective (ap (λ (p : FilePath). p.file_name) (sym x.path ∙ y.path)) in
        let a = ev x.bytes x.filled in
        let b = eu y.bytes y.filled in
        (temp_name-injective x.name y.name v u hv hu
          (sym (ap (temp_name x.name) a) ∙ same ∙ ap (temp_name y.name) b)).1

    -- Of the processes that decrypt to one destination, none consults a file that another changes,
    -- temporary files included, if no two of them draw the same 64-bit suffix. No input is the
    -- destination or at a temporary path of it, and a process that does not decrypt to it rests.
    pub decrypts_apart :
        (job : ℕ → Job) (s : System B) (suffix : ℕ → ℕ)
        → ((i : ℕ) → (Decryption (job i) × HasSuffix s i (suffix i)) ⊎ (job i ≡ rests))
        → ((i j : ℕ) → i ≢ j → suffix i ≢ suffix j)
        → (i j : ℕ) → i ≢ j
        → (q : FilePath) → Reads B (job i) (sees B s i).rng q
        → ¬ Writes B (job j) (sees B s j).rng q
    decrypts_apart job s suffix jobs differ i j n q r w = elim (jobs i) [
      | inr e ↦ subst (λ x. Reads B x (sees B s i).rng q) e r
      | inl (d, v) ↦ elim (jobs j) [
        | inr e ↦ subst (λ x. Writes B x (sees B s j).rng q) e w
        | inl (d', u) ↦
            keeps_off v u d (subst (λ x. Reads B x (sees B s i).rng q) d.job_is r)
              (subst (λ x. Writes B x (sees B s j).rng q) d'.job_is w)
      ]
    ]
      where
        keeps_off :
            HasSuffix s i (suffix i)
            → HasSuffix s j (suffix j)
            → (d : Decryption (job i)) → (q ≡ d.input) ⊎ Draws B output (sees B s i).rng q
            → (q ≡ output) ⊎ Draws B output (sees B s j).rng q
            → ⊥
        keeps_off v u d (inl e) (inl e') = d.other_file (sym e ∙ e')
        keeps_off v u d (inl e) (inr x) =
            d.temp_free (subst (IsTemp output) e (Draws-IsTemp (sees B s j).rng q x))
        keeps_off v u d (inr x) (inl e) =
            IsTemp-ne_output output q (Draws-IsTemp (sees B s i).rng q x) e
        keeps_off v u d (inr x) (inr y) =
            differ i j n (Draws-suffix s i j (suffix i) (suffix j) q v u x y)
