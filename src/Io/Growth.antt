-- ===== src/Io/Growth.antt =====
-- A file that grows towards known bytes: what each operation on it leaves, also where it fails or the
-- process is killed.
use mathlib.Core.List.{append-nil, append_assoc}
use filum_crypto.Prelude.{
  ℕ, Bytes, length, take, take-append-drop, ◌++◌, ◌∷◌, [], List, some, Result, ok, err, continue,
  ◌≡◌, ap, ◌∙◌, sym,
}
use filum_crypto.External.{Backend}
use filum_crypto.Io.{
  FilePath, World, Io, IoChoice, full, short, fails, dies, spill, hold, write_all, flush,
  drop_writer,
}
use filum_crypto.Io.Hoare.{Post, Keeps, Touches, Writes, IoError}
use filum_crypto.Io.Laws.{at, spill_file, write_all_lem}

module _ (B : Backend) (output : FilePath) where
  -- File and buffer together are these bytes.
  abbrev pub Holding : Bytes → World B → Type 0
  Holding sofar w = (x : Bytes) × (w.files output ≡ some x) × (x ++ w.buffer ≡ sofar)

  -- File and buffer together are the first of these bytes.
  abbrev pub Within : Bytes → World B → Type 0
  Within frame w = (x rest : Bytes) × (w.files output ≡ some x) × ((x ++ w.buffer) ++ rest ≡ frame)

  -- The file is the first of these bytes.
  abbrev pub Starts : Bytes → World B → Type 0
  Starts frame w = (x rest : Bytes) × (w.files output ≡ some x) × (x ++ rest ≡ frame)

  pub Holding-Within :
      (sofar more : Bytes) (w : World B) → Holding sofar w → Within (sofar ++ more) w
  Holding-Within sofar more w (x, e, sum) = (x, more, e, ap (λ k. k ++ more) sum)

  pub Within-more : (frame more : Bytes) (w : World B) → Within frame w → Within (frame ++ more) w
  Within-more frame more w (x, rest, e, sum) =
      (x, rest ++ more, e, sym (append_assoc (x ++ w.buffer) rest more) ∙ ap (λ k. k ++ more) sum)

  pub Within-Starts : (frame : Bytes) (w : World B) → Within frame w → Starts frame w
  Within-Starts frame w (x, rest, e, sum) =
      (x, w.buffer ++ rest, e, sym (append_assoc x w.buffer rest) ∙ sum)

  pub Holding-Keeps :
      (sofar : Bytes) (w u : World B) → Keeps B w u → Holding sofar w → Holding sofar u
  Holding-Keeps sofar w u k (x, e, sum) = (x, k.files output ∙ e, ap (λ b. x ++ b) k.buffer ∙ sum)

  pub Holding-Writes :
      (sofar bytes : Bytes) (w u : World B)
      → Writes B output bytes w u
      → Holding sofar w
      → Holding (sofar ++ bytes) u
  Holding-Writes sofar bytes w u wrote (x, e, sum) =
      let (now, en, total) = wrote.appended x e in (now, en, total ∙ ap (λ k. k ++ bytes) sum)

  spill-Within :
      (k : ℕ) (frame : Bytes) (w : World B) → Within frame w → Within frame (spill B output k w)
  unfolding spill
  spill-Within k frame w (x, rest, e, sum) = (
    x ++ take k w.buffer,
    rest,
    spill_file B output k w x e,
    ap (λ b. b ++ rest) (append_assoc x _ _ ∙ ap (λ d. x ++ d) (take-append-drop k w.buffer)) ∙ sum,
  )

  hold-Within :
      (sofar bytes : Bytes) (w : World B)
      → Holding sofar w
      → Within (sofar ++ bytes) (hold B bytes w)
  hold-Within sofar bytes w (x, e, sum) = (
    x,
    [],
    e,
    append-nil (x ++ (w.buffer ++ bytes))
        ∙ sym (append_assoc x w.buffer bytes)
        ∙ ap (λ k. k ++ bytes) sum,
  )

  pub write_all-Within :
      (sofar bytes : Bytes) (w : World B) (cs : List IoChoice)
      → Holding sofar w
      → Within (sofar ++ bytes) (write_all B output bytes (at B w cs)).1
  unfolding write_all
  write_all-Within sofar bytes w [] h = hold-Within sofar bytes (at B w []) h
  write_all-Within sofar bytes w (full ∷ cs) h = hold-Within sofar bytes (at B w cs) h
  write_all-Within sofar bytes w (short k ∷ cs) h =
      spill-Within k (sofar ++ bytes) (hold B bytes (at B w cs))
        (hold-Within sofar bytes (at B w cs) h)
  write_all-Within sofar bytes w (fails k ∷ cs) h =
      spill-Within k (sofar ++ bytes) (hold B bytes (at B w cs))
        (hold-Within sofar bytes (at B w cs) h)
  write_all-Within sofar bytes w (dies ∷ cs) h = Holding-Within sofar bytes (at B w (dies ∷ cs)) h

  flush-Within :
      (frame : Bytes) (w : World B) (cs : List IoChoice)
      → Within frame w
      → Within frame (flush B output (at B w cs)).1
  unfolding flush
  flush-Within frame w [] h = spill-Within (length w.buffer) frame (at B w []) h
  flush-Within frame w (full ∷ cs) h = spill-Within (length w.buffer) frame (at B w cs) h
  flush-Within frame w (short k ∷ cs) h = spill-Within (length w.buffer) frame (at B w cs) h
  flush-Within frame w (fails k ∷ cs) h = spill-Within k frame (at B w cs) h
  flush-Within frame w (dies ∷ cs) h = h

  pub drop_writer-Starts :
      (frame : Bytes) (w : World B) (cs : List IoChoice)
      → Within frame w
      → Starts frame (drop_writer B output (at B w cs))
  unfolding drop_writer
  drop_writer-Starts frame w [] h =
      Within-Starts frame (spill B output (length w.buffer) (at B w []))
        (spill-Within (length w.buffer) frame (at B w []) h)
  drop_writer-Starts frame w (full ∷ cs) h =
      Within-Starts frame (spill B output (length w.buffer) (at B w cs))
        (spill-Within (length w.buffer) frame (at B w cs) h)
  drop_writer-Starts frame w (short k ∷ cs) h =
      Within-Starts frame (spill B output (length w.buffer) (at B w cs))
        (spill-Within (length w.buffer) frame (at B w cs) h)
  drop_writer-Starts frame w (fails k ∷ cs) h =
      Within-Starts frame (spill B output k (at B w cs)) (spill-Within k frame (at B w cs) h)
  drop_writer-Starts frame w (dies ∷ cs) h = Within-Starts frame (at B w (dies ∷ cs)) h

  -- A write, and what follows it where it succeeds.
  pub write_then :
      {C : Type 0} (sofar bytes more : Bytes) (w : World B) (f : Io B C)
      → Holding sofar w
      → ((u : World B) → Writes B output bytes w u → Within ((sofar ++ bytes) ++ more) (f u).1)
      → Within ((sofar ++ bytes) ++ more) (continue (write_all B output bytes w) (λ _. f)).1
  write_then {C} sofar bytes more w f h g =
      by_result (write_all B output bytes w) (write_all_lem B output bytes w)
        (write_all-Within sofar bytes w w.choices h)
    where
      by_result :
          (x : Result (Unit {0}) × World B)
          → Post x (λ _ u. Writes B output bytes w u) (λ e u. Touches B output w u × IoError B w e)
          → Within (sofar ++ bytes) x.1
          → Within ((sofar ++ bytes) ++ more) (continue {B = C} x (λ _. f)).1
      by_result (ok a, u) wrote _ = g u wrote
      by_result (err e, u) _ left = Within-more (sofar ++ bytes) more u left

  -- A flush behind what has succeeded.
  pub flush_then :
      (frame : Bytes) (x : Result (Unit {0}) × World B)
      → Within frame x.1
      → Within frame (continue x (λ _. flush B output)).1
  flush_then frame (ok a, u) h = flush-Within frame u u.choices h
  flush_then frame (err e, u) h = h
