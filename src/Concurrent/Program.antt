-- ===== src/Concurrent/Program.antt =====
-- A function over files as the sequence of calls that it makes, each depending on the answers to those
-- before. A process can be interrupted between any two of them.
use filum_crypto.Prelude.{ℕ, Bytes, Result, ok, err, continue, ◌≡◌, refl, ◌∙◌}
use filum_crypto.External.{Backend}
use filum_crypto.Blob.{Prepared, prepare}
use filum_crypto.Io.{
  FilePath, World, Reader, Io, on_rng, open_file, create, read, write_all, flush, sync_all, rename,
  remove_file, drop_writer,
}
use filum_crypto.File.{sibling_temp_path, rounds}

-- The first two only draw randomness. The last is no call: it gives the rounds of the loop.
pub data Action : Type 0 where
  prepares : (key id : Bytes) → Action
  names : FilePath → Action
  opens creates flushes syncs removes closes : FilePath → Action
  reads : Reader → ℕ → Action
  writes : FilePath → Bytes → Action
  renames : (from to : FilePath) → Action
  measures : ℕ → Reader → Action

module _ (B : Backend) where
  abbrev pub Answer : Action → Type 0
  Answer (prepares key id) = Prepared B
  Answer (names output) = FilePath
  Answer (opens p) = Reader
  Answer (reads r n) = Bytes × Reader
  Answer (measures size r) = ℕ
  Answer (creates p) = Unit {0}
  Answer (flushes p) = Unit {0}
  Answer (syncs p) = Unit {0}
  Answer (removes p) = Unit {0}
  Answer (closes p) = Unit {0}
  Answer (writes p bytes) = Unit {0}
  Answer (renames from to) = Unit {0}

  abbrev pub perform : (a : Action) → Io B (Answer a)
  perform (prepares key id) = on_rng B (prepare B key id)
  perform (names output) = sibling_temp_path B output
  perform (opens p) = open_file B p
  perform (reads r n) = read B r n
  perform (measures size r) = λ w. (ok (rounds B size r w), w)
  perform (creates p) = create B p
  perform (flushes p) = flush B p
  perform (syncs p) = sync_all B p
  perform (removes p) = λ w. (ok tt, remove_file B p w)
  perform (closes p) = λ w. (ok tt, drop_writer B p w)
  perform (writes p bytes) = write_all B p bytes
  perform (renames from to) = rename B from to

  pub data Program (A : Type 0) : Type 0 where
    stop : Result A → Program A
    call : (a : Action) → (Result (Answer a) → Program A) → Program A

  -- One call.
  abbrev pub ask : (a : Action) → Program (Answer a)
  ask a = call a (λ r. stop r)

  -- What follows a program, whether it has succeeded or failed.
  abbrev pub after : {A C : Type 0} → Program A → (Result A → Program C) → Program C
  after (stop r) k = k r
  after (call a f) k = call a (λ r. after (f r) k)

  abbrev pub on_ok : {A C : Type 0} → (A → Program C) → Result A → Program C
  on_ok f (ok a) = f a
  on_ok f (err e) = stop (err e)

  -- The `?` operator.
  abbrev pub chain : {A C : Type 0} → Program A → (A → Program C) → Program C
  chain m f = after m (on_ok f)

  -- A program that nothing interrupts.
  abbrev pub run : {A : Type 0} → Program A → Io B A
  run (stop r) w = (r, w)
  run (call a f) w = run (f (perform a w).0) (perform a w).1

  pub run-after :
      {A C : Type 0} (m : Program A) (k : Result A → Program C) (w : World B)
      → run (after m k) w ≡ run (k (run m w).0) (run m w).1
  run-after (stop r) k w = refl
  run-after (call a f) k w = run-after (f (perform a w).0) k (perform a w).1

  run-on_ok :
      {A C : Type 0} (f : A → Program C) (x : Result A × World B)
      → run (on_ok f x.0) x.1 ≡ continue x (λ a. run (f a))
  run-on_ok f (ok a, w) = refl
  run-on_ok f (err e, w) = refl

  pub run-chain :
      {A C : Type 0} (m : Program A) (f : A → Program C) (w : World B)
      → run (chain m f) w ≡ continue (run m w) (λ a. run (f a))
  run-chain m f w = run-after m (on_ok f) w ∙ run-on_ok f (run m w)

infixl 5 ◌>>=◌ ◌>>◌
abbrev pub ◌>>=◌ : {B : Backend} {A C : Type 0} → Program B A → (A → Program B C) → Program B C
◌>>=◌ {B} m f = chain B m f

abbrev pub ◌>>◌ : {B : Backend} {C : Type 0} → Program B (Unit {0}) → Program B C → Program B C
◌>>◌ {B} m k = chain B m (λ _. k)
