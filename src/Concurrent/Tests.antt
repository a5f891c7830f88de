-- ===== src/Concurrent/Tests.antt =====
-- Two decryptions of one file to one destination on the concrete backend, which take turns.
use filum_crypto.Prelude.{
  ℕ, zero, suc, ◌+◌, ◌%◌, ◌<◌, ◌≤◌, ◌^◌, Bytes, replicate, some-injective, false, List, ◌++◌, ◌∷◌,
  [], some, none, ok, ◌≡◌, ◌≢◌, ◌⊎◌, inl, inr, refl, ap, ◌∙◌, sym, arith, to_be_bytes,
  from_be_bytes,
}
use filum_crypto.Aad.{blob_segment_aad, blob_wrap_aad}
use filum_crypto.Blob.{random, open_header, unwrap_data_key, decrypt_chunked}
use filum_crypto.Blob.Tests.{key, id, framed}
use filum_crypto.Io.{
  update, open_file, create, read, write_all, flush, sync_all, rename, drop_writer, choose, spill,
  open_found, rename_found, closing, full, short,
}
use filum_crypto.File.{
  read_full_loop, read_full, read_exact, emit_pending, segment_loop, with_cleanup, decrypt_loop,
  temp_name, hex, sibling_temp_path, decrypt_file_chunked,
}
use filum_crypto.File.Tests.{sealed, back, sealed_not-IsTemp, sealed≢back}
use filum_crypto.Toy.{backend, backend-IsBackend}
use filum_crypto.Concurrent.Program.{stop}
use filum_crypto.Concurrent.Codec.{
  read_full_loop_program, read_full_program, read_exact_program, emit_pending_program,
  segment_loop_program, closing_program, with_cleanup_program, decrypt_loop_program, stage_program,
  publish_program, decrypt_program,
}
use filum_crypto.Concurrent.Processes.{Process, System, count, sees, program_of, schedule, calls}
use filum_crypto.Concurrent.Jobs.{
  Job, decrypts, rests, program_for, Writes, Started, Apart, jobs_alone,
}
use filum_crypto.Concurrent.Complete.{
  DecryptsTo, Spares, destination_complete, destination_published,
}
use filum_crypto.Concurrent.Suffixes.{Decryption, HasSuffix, decrypts_apart}

abbrev job : ℕ → Job
job zero = decrypts sealed back key id
job (suc zero) = decrypts sealed back key id
job (suc (suc n)) = rests

-- Each process has its own random state, and the system cuts the reads and writes of the first short.
abbrev process : ℕ → Process backend
process i = record {
  program = program_for backend (job i);
  rng = i;
  buffer = [];
  choices = elim i [ zero ↦ full ∷ short 2 ∷ full ∷ short 3 ∷ [] | suc _ ↦ [] ];
}

abbrev system : System backend
system = record {
  files = update (λ _. none) sealed (some framed);
  unsynced = λ _. false;
  process = process;
}

abbrev turns : List ℕ
turns = 0 ∷ 1 ∷ 0 ∷ 1 ∷ 1 ∷ 0 ∷ (replicate 10 0 ++ replicate 10 1)

started : Started backend job system
started i = refl

-- The calls of the first process.
thirteen_calls : calls backend (program_of backend system 0) (sees backend system 0) ≡ 13
unfolding choose spill open_found rename_found closing open_header decrypt_program
    with_cleanup_program publish_program stage_program decrypt_loop_program segment_loop_program
    emit_pending_program closing_program read_exact_program read_full_program read_full_loop_program
    unwrap_data_key blob_segment_aad blob_wrap_aad to_be_bytes from_be_bytes open_file create
    write_all read flush drop_writer sibling_temp_path random sync_all rename temp_name hex
thirteen_calls = refl

enough : calls backend (program_of backend system 0) (sees backend system 0) ≤ count 0 turns
enough = omega (arith, thirteen_calls)

-- The suffixes of the two decryptions; those of the others, which draw none, are out of range.
abbrev suffix : ℕ → ℕ
suffix zero = 0
suffix (suc zero) = 72340172838076673
suffix (suc (suc n)) = 18446744073709551616 + n

differ : (i j : ℕ) → i ≢ j → suffix i ≢ suffix j
differ zero zero n e = n refl
differ zero (suc zero) n e = omega (arith, e)
differ zero (suc (suc k)) n e = omega (arith, e)
differ (suc zero) zero n e = omega (arith, e)
differ (suc zero) (suc zero) n e = n refl
differ (suc zero) (suc (suc k)) n e = omega (arith, e)
differ (suc (suc k)) zero n e = omega (arith, e)
differ (suc (suc k)) (suc zero) n e = omega (arith, e)
differ (suc (suc k)) (suc (suc l)) n e = n (omega (arith, e))

has_suffix :
    (i : ℕ)
    → (from_be_bytes (replicate 8 (i % 256)) ≡ suffix i)
    → suffix i < 2 ^ 64
    → HasSuffix backend back system i (suffix i)
has_suffix i e h = (h, λ bytes f. ap from_be_bytes (sym (some-injective f)) ∙ e)

first : from_be_bytes (replicate 8 0) ≡ suffix 0
unfolding from_be_bytes
first = refl

second : from_be_bytes (replicate 8 1) ≡ suffix 1
unfolding from_be_bytes
second = refl

decryption : Decryption backend back (decrypts sealed back key id)
decryption = record {
  input = sealed;
  key = key;
  id = id;
  job_is = refl;
  other_file = sealed≢back;
  temp_free = sealed_not-IsTemp;
}

decryptions :
    (i : ℕ)
    → (Decryption backend back (job i) × HasSuffix backend back system i (suffix i))
      ⊎ (job i ≡ rests)
decryptions zero = inl (decryption, has_suffix 0 first (omega arith))
decryptions (suc zero) = inl (decryption, has_suffix 1 second (omega arith))
decryptions (suc (suc n)) = inr refl

decrypts_apart_example : ¬ Writes backend (job 1) 1 sealed
decrypts_apart_example =
    decrypts_apart backend back job system suffix decryptions differ 0 1 (λ e. omega (arith, e))
      sealed (inl refl)

apart : Apart backend job system
apart = decrypts_apart backend back job system suffix decryptions differ

jobs_alone_example :
    (program_of backend (schedule backend turns system) 0
      ≡ stop (decrypt_file_chunked backend sealed back key id (sees backend system 0)).0)
    × ((schedule backend turns system).files sealed
        ≡ (decrypt_file_chunked backend sealed back key id (sees backend system 0)).1.files sealed)
jobs_alone_example = jobs_alone backend job system 0 turns sealed started apart enough (inl refl)

abbrev decrypts_to :
    DecryptsTo backend backend-IsBackend.stream back (decrypts sealed back key id) system.files
decrypts_to = record {
  input = sealed;
  framed = framed;
  key = key;
  id = id;
  job_is = refl;
  holds = refl;
  temp_free = sealed_not-IsTemp;
}

spares : Spares backend backend-IsBackend.stream back job system
spares zero = inl decrypts_to
spares (suc zero) = inl decrypts_to
spares (suc (suc n)) = inr (λ e. e)

destination_complete_example :
    ((schedule backend turns system).files back ≡ system.files back)
    ⊎ ((i : ℕ) × (d : DecryptsTo backend backend-IsBackend.stream back (job i) system.files)
        × (msg : Bytes) × (decrypt_chunked backend d.framed d.key d.id ≡ ok msg)
        × ((schedule backend turns system).files back ≡ some msg))
destination_complete_example =
    destination_complete backend backend-IsBackend.stream back job system turns started apart spares

succeeds : (decrypt_file_chunked backend sealed back key id (sees backend system 0)).0 ≡ ok tt
unfolding choose spill open_found rename_found closing decrypt_file_chunked open_header
    unwrap_data_key blob_segment_aad blob_wrap_aad read_exact to_be_bytes from_be_bytes open_file
    create write_all decrypt_loop segment_loop emit_pending read_full read_full_loop read flush
    drop_writer sibling_temp_path with_cleanup random sync_all rename temp_name hex
succeeds = refl

destination_published_example :
    (k : ℕ) × (c : DecryptsTo backend backend-IsBackend.stream back (job k) system.files)
    × (msg : Bytes) × (decrypt_chunked backend c.framed c.key c.id ≡ ok msg)
    × ((schedule backend turns system).files back ≡ some msg)
destination_published_example =
    destination_published backend backend-IsBackend.stream back job system turns 0 started apart
      spares decrypts_to enough succeeds
