-- ===== src/Concurrent/Steps.antt =====
-- How the parts of a program stay in given files: a sequence, a branch, a call, and the reads of one file.
use mathlib.Core.Path.{subst}
use filum_crypto.Prelude.{
  ℕ, zero, suc, ◌-◌, Bool, true, false, Bytes, is_empty, length, ltb, ◌==◌, if◌then◌else◌, ◌++◌, [],
  none, some, Result, ok, err, Error, lift, continue, from_be_bytes, ◌≡◌, refl, ap, ◌∙◌, sym,
}
use filum_crypto.External.{Backend}
use filum_crypto.Blob.{random}
use filum_crypto.Io.{FilePath, World, Reader, Io, open_file, read}
use filum_crypto.Io.Hoare.{Post}
use filum_crypto.Io.Laws.{Opened, NotOpened, DidRead, IoFailure, open_file_lem, read_lem}
use filum_crypto.File.{sibling_temp_path, temp_name}
use filum_crypto.Concurrent.Program.{Action, opens, reads, Program, stop, ask, on_ok, chain}
use filum_crypto.Concurrent.Codec.{read_full_loop_program, read_full_program, read_exact_program}
use filum_crypto.Concurrent.Footprint.{Consults, Changes, StaysIn, after-StaysIn}

module _ (B : Backend) where
  abbrev pub suffixed : FilePath → Bytes → Io B FilePath
  suffixed output suffix = lift (elim output.file_name [
    | none ↦ err Error.io
    | some name ↦ ok (record output { file_name = some (temp_name name (from_be_bytes suffix)) })
  ])

  abbrev pub Any : {A : Type 0} → Result A → B.rng.State → Type 0
  Any r t = Unit

  abbrev pub no_files : B.rng.State → World B
  no_files s = record {
    rng = s;
    files = λ _. none;
    unsynced = λ _. false;
    buffer = [];
    choices = [];
  }

  -- What `sibling_temp_path` gives in a random state.
  abbrev pub drawn_path : FilePath → B.rng.State → Result FilePath
  drawn_path output s = (sibling_temp_path B output (no_files s)).0

  pub drawn_path_lem :
      (output : FilePath) (w : World B) → (sibling_temp_path B output w).0 ≡ drawn_path output w.rng
  unfolding sibling_temp_path
  drawn_path_lem output w = by_suffix (random B 8 w.rng) w (no_files w.rng)
    where
      by_suffix :
          (x : Result Bytes × B.rng.State) (w u : World B)
          → (continue (x.0, record w { rng = x.1 }) (suffixed output)).0
            ≡ (continue (x.0, record u { rng = x.1 }) (suffixed output)).0
      by_suffix (ok b, t) w u = refl
      by_suffix (err e, t) w u = refl

  abbrev pub Draws : FilePath → B.rng.State → FilePath → Type 0
  Draws output s tmp = drawn_path output s ≡ ok tmp

  -- A reader on a file, and nothing drawn.
  abbrev pub AtPath : FilePath → B.rng.State → Result (Bytes × Reader) → B.rng.State → Type 0
  AtPath p s (ok (bytes, r)) t = (t ≡ s) × (r.path ≡ p)
  AtPath p s (err e) t = t ≡ s

  abbrev pub OpenedAt : FilePath → B.rng.State → Result Reader → B.rng.State → Type 0
  OpenedAt p s (ok r) t = (t ≡ s) × (r.path ≡ p)
  OpenedAt p s (err e) t = t ≡ s

  abbrev pub DrewPath : FilePath → B.rng.State → Result FilePath → B.rng.State → Type 0
  DrewPath output s (ok tmp) t = Draws output s tmp
  DrewPath output s (err e) t = Unit

  module _ (R W : FilePath → Type 0) where
    abbrev Stays :
        {A : Type 0} → (Result A → B.rng.State → Type 0) → Program B A → B.rng.State → Type 0
    Stays P m s = StaysIn B R W P m s

    pub chain-StaysIn :
        {A C : Type 0} (P : Result A → B.rng.State → Type 0) (Q : Result C → B.rng.State → Type 0)
        (m : Program B A) (f : A → Program B C) (s : B.rng.State)
        → Stays P m s
        → ((a : A) (t : B.rng.State) → P (ok a) t → Stays Q (f a) t)
        → ((e : Error) (t : B.rng.State) → P (err e) t → Q (err e) t)
        → Stays Q (chain B m f) s
    chain-StaysIn {A} {C} P Q m f s h g k = after-StaysIn B R W P Q m (on_ok B f) s h by_result
      where
        by_result : (r : Result A) (t : B.rng.State) → P r t → Stays Q (on_ok B f r) t
        by_result (ok a) t p = g a t p
        by_result (err e) t p = k e t p

    pub stop-StaysIn :
        {A C : Type 0} (Q : Result C → B.rng.State → Type 0) (r : Result A) (f : A → Program B C)
        (s : B.rng.State)
        → ((a : A) → Stays Q (f a) s)
        → ((e : Error) → Q (err e) s)
        → Stays Q (chain B (stop r) f) s
    stop-StaysIn Q (ok a) f s g k = g a
    stop-StaysIn Q (err e) f s g k = k e

    pub if-StaysIn :
        {A : Type 0} (P : Result A → B.rng.State → Type 0) (b : Bool) (m n : Program B A)
        (s : B.rng.State)
        → Stays P m s
        → Stays P n s
        → Stays P (if b then m else n) s
    if-StaysIn P true m n s h k = h
    if-StaysIn P false m n s h k = k

    -- A call whose answer does not matter.
    pub ask-StaysIn :
        (a : Action) (s : B.rng.State)
        → ((q : FilePath) → Consults a q → R q)
        → ((q : FilePath) → Changes a q → W q)
        → Stays Any (ask B a) s
    ask-StaysIn a s h k = (h, k, λ w e. tt)

    pub seq-StaysIn :
        {A : Type 0} (m : Program B (Unit {0})) (n : Program B A) (s : B.rng.State)
        → Stays Any m s
        → ((t : B.rng.State) → Stays Any n t)
        → Stays Any (chain B m (λ _. n)) s
    seq-StaysIn m n s h k = chain-StaysIn Any Any m (λ _. n) s h (λ _ t _. k t) (λ _ _ _. tt)

    abbrev pub on_path : (p : FilePath) (S : FilePath → Type 0) → S p → (q : FilePath) → q ≡ p → S q
    on_path p S h q e = subst S (sym e) h

    module _ (p : FilePath) (s : B.rng.State) (in_R : R p) where
      pub open-StaysIn : (t : B.rng.State) → t ≡ s → Stays (OpenedAt p s) (ask B (opens p)) t
      open-StaysIn t at_s = (
        (λ q e. on_path p R in_R q e),
        (λ q e. absurd e),
        (λ w e. answered w (open_file B p w) (open_file_lem B p w) (e ∙ at_s)),
      )
        where
          answered :
              (w : World B) (x : Result Reader × World B)
              → Post x (Opened B p w) (NotOpened B p w)
              → w.rng ≡ s
              → OpenedAt p s x.0 x.1.rng
          answered w (ok r, u) (k, er, _) e = (k.rng ∙ e, ap (λ y. y.path) er)
          answered w (err z, u) (k, _, _) e = k.rng ∙ e

      read-StaysIn :
          (r : Reader) (n : ℕ) (t : B.rng.State)
          → t ≡ s
          → r.path ≡ p
          → Stays (AtPath p s) (ask B (reads r n)) t
      read-StaysIn r n t at_s at_p = (
        (λ q e. on_path p R in_R q (e ∙ at_p)),
        (λ q e. absurd e),
        (λ w e. answered w (read B r n w) (read_lem B r n w) (e ∙ at_s)),
      )
        where
          answered :
              (w : World B) (x : Result (Bytes × Reader) × World B)
              → Post x (DidRead B r n w) (IoFailure B w)
              → w.rng ≡ s
              → AtPath p s x.0 x.1.rng
          answered w (ok (bytes, r'), u) (k, _, er) e = (k.rng ∙ e, ap (λ y. y.path) er ∙ at_p)
          answered w (err z, u) (k, _) e = k.rng ∙ e

      read_full_loop-StaysIn :
          (fuel : ℕ) (r : Reader) (n : ℕ) (filled : Bytes) (t : B.rng.State)
          → t ≡ s
          → r.path ≡ p
          → Stays (AtPath p s) (read_full_loop_program B fuel r n filled) t
      unfolding read_full_loop_program
      read_full_loop-StaysIn zero r n filled t at_s at_p = (at_s, at_p)
      read_full_loop-StaysIn (suc fuel) r n filled t at_s at_p =
          if-StaysIn (AtPath p s) (ltb (length filled) n) _ (stop (ok (filled, r))) t
            (chain-StaysIn (AtPath p s) (AtPath p s) (ask B (reads r (n - length filled))) _ t
              (read-StaysIn r (n - length filled) t at_s at_p)
              (λ (bytes, r') t' (e, e').
                if-StaysIn (AtPath p s) (is_empty bytes) (stop (ok (filled, r')))
                  (read_full_loop_program B fuel r' n (filled ++ bytes)) t' (e, e')
                  (read_full_loop-StaysIn fuel r' n (filled ++ bytes) t' e e'))
              (λ _ _ e. e))
            (at_s, at_p)

      pub read_full-StaysIn :
          (r : Reader) (n : ℕ) (t : B.rng.State)
          → t ≡ s
          → r.path ≡ p
          → Stays (AtPath p s) (read_full_program B r n) t
      unfolding read_full_program
      read_full-StaysIn r n t at_s at_p = read_full_loop-StaysIn n r n [] t at_s at_p

      pub read_exact-StaysIn :
          (r : Reader) (n : ℕ) (t : B.rng.State)
          → t ≡ s
          → r.path ≡ p
          → Stays (AtPath p s) (read_exact_program B r n) t
      unfolding read_exact_program
      read_exact-StaysIn r n t at_s at_p =
          chain-StaysIn (AtPath p s) (AtPath p s) (read_full_program B r n) _ t
            (read_full-StaysIn r n t at_s at_p)
            (λ (bytes, r') t' (e, e'). whole (length bytes == n) bytes r' t' e e') (λ _ _ e. e)
        where
          whole :
              (b : Bool) (bytes : Bytes) (r' : Reader) (t' : B.rng.State)
              → t' ≡ s
              → r'.path ≡ p
              → AtPath p s (if b then ok (bytes, r') else err Error.io) t'
          whole true bytes r' t' e e' = (e, e')
          whole false bytes r' t' e e' = e
