-- ===== src/Io.antt =====
-- The part of the standard library that the file codec uses: paths, `std::fs`, `BufReader` and
-- `BufWriter`. What the operating system decides is a list of choices that is consumed from the
-- front, one for each operation; when it has run out, every operation succeeds in full. A handle
-- reads and writes the file that its path names. Paths are compared as they are written.
-- Where the process is killed, no operation from there on has an effect, so the state that a function
-- returns is the state at its death.
pub mod Hoare
pub mod Laws
pub mod Publish
pub mod Frame
pub mod Growth
use filum_crypto.Prelude.{
  ℕ, zero, suc, ◌+◌, ◌-◌, min, Bytes, bytes_eq, is_empty, length, take, drop, ltb, if◌then◌else◌,
  ◌&&◌, ◌||◌, not, ◌++◌, ◌∷◌, [], List, Option, none, some, Bool, true, false, Result, ok, err,
  Error, M, ◌>>=◌, ◌>>◌, lift, ◌==◌,
}
use filum_crypto.External.{Backend}

-- A `Path` by its parent and its `file_name`, which a root or a path ending in `..` lacks.
pub record FilePath : Type 0 where
  pub parent : Bytes
  pub file_name : Option Bytes

abbrev name_eq : Option Bytes → Option Bytes → Bool
name_eq none none = true
name_eq none (some b) = false
name_eq (some a) none = false
name_eq (some a) (some b) = bytes_eq a b

abbrev pub path_eq : FilePath → FilePath → Bool
path_eq p q = bytes_eq p.parent q.parent && name_eq p.file_name q.file_name

-- An operation succeeds in full, succeeds after a part (a read of `k + 1` bytes at most, a write
-- that leaves the rest in the buffer), or fails after a part; or the process is killed before it.
pub data IoChoice : Type 0 where
  full : IoChoice
  short : ℕ → IoChoice
  fails : ℕ → IoChoice
  dies : IoChoice

abbrev pub Files : Type 0
Files = FilePath → Option Bytes

abbrev pub update {ℓ} : {V : Type ℓ} → (FilePath → V) → FilePath → V → FilePath → V
update f p v q = if path_eq q p then v else f q

-- `buffer` is what the open `BufWriter` holds back; neither codec has two. A file is `unsynced` if
-- bytes of it may not have reached the disk.
pub record World (B : Backend) : Type 0 where
  pub rng : B.rng.State
  pub files : Files
  pub unsynced : FilePath → Bool
  pub buffer : Bytes
  pub choices : List IoChoice

pub record Reader : Type 0 where
  pub path : FilePath
  pub position : ℕ

-- The bytes of an open file.
abbrev pub content : Option Bytes → Bytes
content none = []
content (some bytes) = bytes

abbrev pub append_to : Option Bytes → Bytes → Option Bytes
append_to none bytes = none
append_to (some old) bytes = some (old ++ bytes)

module _ (B : Backend) where
  abbrev pub Io : Type 0 → Type 0
  Io A = M (World B) A

  abbrev pub on_rng : {A : Type 0} → M B.rng.State A → Io A
  on_rng m w = let (r, s) = m w.rng in (r, record w { rng = s })

  abbrev pub next_choice : List IoChoice → IoChoice
  next_choice [] = full
  next_choice (c ∷ cs) = c

  abbrev pub later_choices : List IoChoice → List IoChoice
  later_choices [] = []
  later_choices (dies ∷ cs) = dies ∷ cs
  later_choices (full ∷ cs) = cs
  later_choices (short k ∷ cs) = cs
  later_choices (fails k ∷ cs) = cs

  unfoldable pub choose : Io IoChoice
  choose w = (ok (next_choice w.choices), record w { choices = later_choices w.choices })

  -- The first `k` bytes of the buffer reach the file.
  unfoldable pub spill : FilePath → ℕ → World B → World B
  spill p k w = record w {
    files = update w.files p (append_to (w.files p) (take k w.buffer));
    unsynced = update w.unsynced p (w.unsynced p || not (is_empty (take k w.buffer)));
    buffer = drop k w.buffer;
  }

  abbrev pub spill_all : FilePath → World B → World B
  spill_all p w = spill p (length w.buffer) w

  unfoldable pub open_found : FilePath → Option Bytes → Io Reader
  open_found p none w = (err Error.io, w)
  open_found p (some bytes) w = (ok (record { path = p; position = 0 }), w)

  -- `File::open` with a `BufReader`.
  unfoldable pub open_file : FilePath → Io Reader
  unfolding choose open_found
  open_file p = do
    c ← choose
    λ w. elim c [
      | fails _ ↦ (err Error.io, w)
      | dies ↦ (err Error.io, w)
      | _ ↦ open_found p (w.files p) w
    ]

  -- `File::create` with a `BufWriter`.
  unfoldable pub create : FilePath → Io (Unit {0})
  unfolding choose
  create p = do
    c ← choose
    λ w. elim c [
      | fails _ ↦ (err Error.io, w)
      | dies ↦ (err Error.io, w)
      | _ ↦ (
        ok tt,
        record w {
          files = update w.files p (some []);
          unsynced = update w.unsynced p true;
          buffer = [];
        },
      )
    ]

  -- How much a read of at most `n` bytes asks for.
  abbrev pub ask : IoChoice → ℕ → ℕ
  ask (short k) n = min n (suc k)
  ask _ n = n

  -- `read` into a buffer of `n` bytes; no byte is read at the end of the file only.
  unfoldable pub read : Reader → ℕ → Io (Bytes × Reader)
  unfolding choose
  read r n = do
    c ← choose
    λ w. elim c [
      | fails _ ↦ (err Error.io, w)
      | dies ↦ (err Error.io, w)
      | other ↦
          let bytes = take (ask other n) (drop r.position (content (w.files r.path))) in
          (ok (bytes, record r { position = r.position + length bytes }), w)
    ]

  abbrev pub hold : Bytes → World B → World B
  hold bytes w = record w { buffer = w.buffer ++ bytes }

  unfoldable pub write_all : FilePath → Bytes → Io (Unit {0})
  unfolding choose spill
  write_all p bytes = do
    c ← choose
    λ w. elim c [
      | full ↦ (ok tt, hold bytes w)
      | short k ↦ (ok tt, spill p k (hold bytes w))
      | fails k ↦ (err Error.io, spill p k (hold bytes w))
      | dies ↦ (err Error.io, w)
    ]

  unfoldable pub flush : FilePath → Io (Unit {0})
  unfolding choose spill
  flush p = do
    c ← choose
    λ w. elim c [
      | fails k ↦ (err Error.io, spill p k w)
      | dies ↦ (err Error.io, w)
      | _ ↦ (ok tt, spill_all p w)
    ]

  -- `File::sync_all` on the file of the writer.
  unfoldable pub sync_all : FilePath → Io (Unit {0})
  unfolding choose
  sync_all p = do
    c ← choose
    λ w. elim c [
      | fails _ ↦ (err Error.io, w)
      | dies ↦ (err Error.io, w)
      | _ ↦ (ok tt, record w { unsynced = update w.unsynced p false })
    ]

  unfoldable pub rename_found : FilePath → FilePath → Option Bytes → Io (Unit {0})
  rename_found p q none w = (err Error.io, w)
  rename_found p q (some bytes) w = (
    ok tt,
    record w {
      files = update (update w.files q (some bytes)) p none;
      unsynced = update (update w.unsynced q (w.unsynced p)) p false;
    },
  )

  unfoldable pub rename : FilePath → FilePath → Io (Unit {0})
  unfolding choose rename_found
  rename p q = do
    c ← choose
    λ w. elim c [
      | fails _ ↦ (err Error.io, w)
      | dies ↦ (err Error.io, w)
      | _ ↦ rename_found p q (w.files p) w
    ]

  -- `let _ = remove_file(p)`: an error is dropped.
  unfoldable pub remove_file : FilePath → World B → World B
  unfolding choose
  remove_file p w =
      let w' = record w { choices = later_choices w.choices } in
      elim (next_choice w.choices) [
        | fails _ ↦ w'
        | dies ↦ w'
        | _ ↦ record w' { files = update w.files p none; unsynced = update w.unsynced p false }
      ]

  -- The end of a `BufWriter`'s scope: what it holds is written if that works, and errors are dropped.
  unfoldable pub drop_writer : FilePath → World B → World B
  unfolding spill
  drop_writer p w =
      let w' = record w { choices = later_choices w.choices } in
      elim (next_choice w.choices) [
        | fails k ↦ record (spill p k w') { buffer = [] }
        | dies ↦ record w' { buffer = [] }
        | _ ↦ spill_all p w'
      ]

  unfoldable pub closing : FilePath → Io (Unit {0}) → Io (Unit {0})
  unfolding drop_writer
  closing p body w = let (r, w') = body w in (r, drop_writer p w')
