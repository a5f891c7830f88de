-- ===== src/File/Loop.antt =====
-- The loop of both file functions: one chunk is held back, and the last is known by a short read.
use mathlib.Core.Path.{subst}
use filum_crypto.Prelude.{
  ℕ, zero, suc, ◌+◌, ◌-◌, ◌*◌, ◌≤◌, ◌<◌, Bytes, length, take, drop, length-take, length-drop,
  drop-drop, take_all, ltb, lt→ltb, le→ltb, ◌++◌, [], if◌then◌else◌, Option-cases, inl, inr, ◌⊎◌,
  Option, none, some, Result, ok, err, Error, then_ok, map_err, ◌>>=◌, lift, continue, ◌≡◌, ◌≢◌,
  refl, ap, ◌∙◌, sym, arith,
}
use filum_crypto.External.{Backend}
use filum_crypto.Blob.Segments.{segments}
use filum_crypto.Blob.Segments.Memory.{in_front, in_front-nil}
use filum_crypto.Io.{FilePath, World, Reader, content, write_all}
use filum_crypto.Io.Hoare.{
  Post, Post-bind, Post-mono, NoFaults, Keeps, Touches, Writes, IoError, Keeps-refl, Touches-trans,
  Touches-Keeps, Writes-Keeps, Writes-trans,
}
use filum_crypto.Io.Laws.{write_all_lem, IoFailure}
use filum_crypto.File.{read_full, emit_pending, segment_loop}
use filum_crypto.File.Reading.{ahead, DidReadFull, read_full_lem}

module _ (B : Backend) {St : Type 0} (next : St → Bytes → Bytes → Option (Bytes × St))
    (last : St → Bytes → Bytes → Option Bytes) (size : ℕ) (output : FilePath) (aad : Bytes) where
  -- What is left to be written, with a chunk held back before the text that is still to be read.
  abbrev pub outstanding : Option Bytes → ℕ → St → Bytes → Result Bytes
  outstanding none k st text = segments next last size k st aad text
  outstanding (some prev) k st text =
      then_ok (map_err Error.aead (next st aad prev))
        (λ (out, st'). in_front out (segments next last size k st' aad text))

  -- The bytes of a specification have been written.
  abbrev pub Done : Result Bytes → World B → Unit {0} → World B → Type 0
  Done spec w _ w' = (body : Bytes) × (spec ≡ ok body) × Writes B output body w w'

  -- No other file has been touched, and the error is the system's or the specification's.
  abbrev pub Failed : Result Bytes → World B → Error → World B → Type 0
  Failed spec w e w' = Touches B output w w' × (IoError B w e ⊎ (spec ≡ err e))

  abbrev Emitted : Option Bytes → St → World B → St → World B → Type 0
  Emitted pending st w st' w' =
      (out : Bytes) × Writes B output out w w'
      × ((k : ℕ) (text : Bytes)
          → outstanding pending k st text ≡ in_front out (segments next last size k st' aad text))

  abbrev NotEmitted : Option Bytes → St → World B → Error → World B → Type 0
  NotEmitted pending st w e w' =
      Touches B output w w'
      × (IoError B w e ⊎ ((k : ℕ) (text : Bytes) → outstanding pending k st text ≡ err e))

  emit_pending_lem :
      (pending : Option Bytes) (st : St) (w : World B)
      → Post
          (emit_pending B next last size output aad pending st w)
          (Emitted pending st w)
          (NotEmitted pending st w)
  unfolding emit_pending
  emit_pending_lem none st w =
      ([], Writes-Keeps B output w w (Keeps-refl B w), λ k text. sym (in_front-nil _))
  emit_pending_lem (some prev) st w = elim (Option-cases (next st aad prev)) [
    | inl e ↦ rw (e, Post) (Touches-Keeps B output w w (Keeps-refl B w), inr (λ k text. rw e))
    | inr ((out, st'), e) ↦ rw e (
        Post-bind (write_all B output out w) _ (λ _ w'. Writes B output out w w')
          (Emitted (some prev) st w) (λ x w'. Touches B output w w' × IoError B w x)
          (NotEmitted (some prev) st w) (write_all_lem B output out w)
          (λ x w' fail. (fail.0, inl fail.1)) (λ _ w' wrote. (out, wrote, λ k text. rw e)))
  ]

  write_last_lem :
      (st : St) (text : Bytes) (w : World B)
      → Post
          (continue (map_err Error.aead (last st aad text), w) (λ out. write_all B output out))
          (Done (segments next last size 0 st aad text) w)
          (Failed (segments next last size 0 st aad text) w)
  unfolding segments
  write_last_lem st text w = elim (Option-cases (last st aad text)) [
    | inl e ↦ rw (e, Post) (Touches-Keeps B output w w (Keeps-refl B w), inr refl)
    | inr (out, e) ↦ rw e (
        Post-mono (write_all B output out w) (λ _ w'. Writes B output out w w') _
          (λ x w'. Touches B output w w' × IoError B w x) _ (write_all_lem B output out w)
          (λ _ w' wrote. (out, refl, wrote)) (λ x w' fail. (fail.0, inl fail.1)))
  ]

  -- What comes behind bytes that have been written.
  behind :
      (r : Result (Unit {0}) × World B) (spec spec' : Result Bytes) (out : Bytes) (w u : World B)
      → Writes B output out w u
      → spec ≡ in_front out spec'
      → Post r (Done spec' u) (Failed spec' u)
      → Post r (Done spec w) (Failed spec w)
  behind r spec spec' out w u wrote e post =
      Post-mono r (Done spec' u) (Done spec w) (Failed spec' u) (Failed spec w) post
        (λ _ w' done.
          let (body, eb, wrote') = done in
          (
            out ++ body,
            e ∙ ap (in_front out) eb,
            Writes-trans B output out body w u w' wrote wrote',
          ))
        (λ x w' fail. (
          Touches-trans B output w u w' wrote.touches fail.0,
          elim fail.1 [
            | inl (ex, nf) ↦ inl (ex, λ calm. nf (wrote.touches.calm calm))
            | inr es ↦ inr (e ∙ ap (in_front out) es)
          ],
        ))

  pub keep_fault :
      (w u : World B) (x : Error)
      → (NoFaults w.choices → NoFaults u.choices)
      → IoError B u x
      → IoError B w x
  keep_fault w u x c (e, nf) = (e, λ calm. nf (c calm))

  -- The reader behind a full chunk, in a world where only the output has changed.
  pub ahead_next :
      (r r' : Reader) (chunk : Bytes) (w u v : World B)
      → r.path ≢ output
      → r' ≡ record r { position = r.position + length chunk }
      → length chunk ≡ size
      → Keeps B w u
      → Touches B output u v
      → ahead B r' v ≡ drop size (ahead B r w)
  ahead_next r r' chunk w u v apart er el k t =
      ap (λ (q : Reader). ahead B q v) er
      ∙ ap (λ c. drop (r.position + length chunk) (content c))
          (t.others r.path apart ∙ k.files r.path)
      ∙ sym (drop-drop (length chunk) r.position (content (w.files r.path)))
      ∙ ap (λ j. drop j (ahead B r w)) el

  abbrev Continues : ℕ → ℕ → Reader → St → Bytes → World B → Type 0
  Continues fuel k r st chunk w =
      let spec = outstanding (some chunk) k st (ahead B r w) in
      Post (segment_loop B next last size output aad fuel r st (some chunk) w) (Done spec w)
        (Failed spec w)

  -- A round from its test on: a short chunk is the last, and behind a full one the loop goes on.
  rest_of_round :
      (fuel k : ℕ) (r r' : Reader) (st : St) (chunk : Bytes) (w u v : World B)
      → r.path ≢ output
      → Keeps B w u
      → chunk ≡ take size (ahead B r w)
      → r' ≡ record r { position = r.position + length chunk }
      → Touches B output u v
      → k < suc fuel
      → k * size ≤ length (ahead B r w)
      → length (ahead B r w) < (k + 1) * size
      → ((k' : ℕ)
          → k' < fuel
          → k' * size ≤ length (ahead B r' v)
          → length (ahead B r' v) < (k' + 1) * size
          → Continues fuel k' r' st chunk v)
      → Post
          ((if ltb (length chunk) size
              then (do out ← lift (map_err Error.aead (last st aad chunk)); write_all B output out)
              else segment_loop B next last size output aad fuel r' st (some chunk))
            v)
          (Done (segments next last size k st aad (ahead B r w)) v)
          (Failed (segments next last size k st aad (ahead B r w)) v)
  unfolding segments
  rest_of_round fuel zero r r' st chunk w u v apart kept ec er t hf lo hi ih =
      let all : chunk ≡ ahead B r w = ec ∙ take_all size (ahead B r w) (omega (arith, hi)) in
      let less : length chunk < size = omega (arith, hi, ap (λ (b : Bytes). length b) all) in
      rw (lt→ltb _ _ less, all) (write_last_lem st (ahead B r w) v)
  rest_of_round fuel (suc k) r r' st chunk w u v apart kept ec er t hf lo hi ih =
      let whole : length chunk ≡ size =
        omega (arith, lo, ap (λ (b : Bytes). length b) ec, length-take size (ahead B r w)) in
      let moved = ahead_next r r' chunk w u v apart er whole kept t in
      let left : length (ahead B r' v) ≡ length (ahead B r w) - size =
        ap (λ (b : Bytes). length b) moved ∙ length-drop size (ahead B r w) in
      rw (le→ltb (length chunk) size (omega (arith, whole))) (
        subst
          (λ (spec : Result Bytes).
            Post (segment_loop B next last size output aad fuel r' st (some chunk) v) (Done spec v)
              (Failed spec v))
          (ap (λ d. outstanding (some chunk) k st d) moved
            ∙ ap (λ c. outstanding (some c) k st (drop size (ahead B r w))) ec)
          (ih k (omega arith) (omega (arith, left, lo)) (omega (arith, left, hi))))

  -- With fuel for the chunks that are left, the loop writes the segments of the text ahead, or it
  -- fails as the system or a segment does. It reaches no file but its output.
  pub segment_loop_lem :
      (fuel k : ℕ) (r : Reader) (st : St) (pending : Option Bytes) (w : World B)
      → r.path ≢ output
      → k < fuel
      → k * size ≤ length (ahead B r w)
      → length (ahead B r w) < (k + 1) * size
      → Post
          (segment_loop B next last size output aad fuel r st pending w)
          (Done (outstanding pending k st (ahead B r w)) w)
          (Failed (outstanding pending k st (ahead B r w)) w)
  unfolding segment_loop
  segment_loop_lem zero k r st pending w apart hf lo hi = absurd (omega arith)
  segment_loop_lem (suc fuel) k r st pending w apart hf lo hi =
      let text = ahead B r w in
      let spec = outstanding pending k st text in
      Post-bind (read_full B r size w) _ (DidReadFull B r size w) (Done spec w) (IoFailure B w)
        (Failed spec w) (read_full_lem B r size w)
        (λ x u fail. (Touches-Keeps B output w u fail.0, inl fail.1))
        (λ (chunk, r') u did.
          let (kept, ec, er) = did in
          Post-bind (emit_pending B next last size output aad pending st u) _ (Emitted pending st u)
            (Done spec w) (NotEmitted pending st u) (Failed spec w) (emit_pending_lem pending st u)
            (λ x v fail. (
              Touches-trans B output w u v (Touches-Keeps B output w u kept) fail.0,
              elim fail.1 [ inl f ↦ inl (keep_fault w u x kept.calm f) | inr f ↦ inr (f k text) ],
            ))
            (λ st' v emitted.
              let (out, wrote, es) = emitted in
              let wrote_w =
                Writes-trans B output [] out w u v (Writes-Keeps B output w u kept) wrote in
              behind _ spec (segments next last size k st' aad text) out w v wrote_w (es k text) (
                rest_of_round fuel k r r' st' chunk w u v apart kept ec er wrote.touches hf lo hi
                  (λ k' hf' lo' hi'.
                    segment_loop_lem fuel k' r' st' (some chunk) v
                      (λ e. apart (sym (ap (λ (q : Reader). q.path) er) ∙ e)) hf' lo' hi'))))
