-- ===== src/File/Progress.antt =====
-- How far the loop of both file functions has got wherever it stops.
use mathlib.Core.Path.{subst}
use mathlib.Core.List.{append-nil, append_assoc}
use filum_crypto.Prelude.{
  ℕ, zero, suc, ◌+◌, ◌-◌, ◌*◌, ◌≤◌, ◌<◌, Bytes, length, take, drop, length-take, length-drop,
  take_all, ltb, lt→ltb, le→ltb, ◌++◌, [], if◌then◌else◌, Option, none, some, Result, ok, err,
  Error, then_ok-eq_ok, map_err, map_err-eq_ok, ok-injective, continue, ◌>>=◌, lift, ◌≡◌, ◌≢◌, ap,
  ◌∙◌, sym, arith,
}
use filum_crypto.External.{Backend}
use filum_crypto.Blob.Segments.{segments}
use filum_crypto.Io.{FilePath, World, Reader, Io, write_all}
use filum_crypto.Io.Hoare.{
  Post, Post-bind, Keeps, Touches, Writes, IoError, Keeps-refl, Touches-Keeps,
}
use filum_crypto.Io.Laws.{write_all_lem, IoFailure}
use filum_crypto.Io.Frame.{Post-state, state-Post}
use filum_crypto.Io.Growth.{
  Holding, Within, Holding-Within, Within-more, Holding-Keeps, Holding-Writes, write_all-Within,
}
use filum_crypto.File.{read_full, emit_pending, segment_loop}
use filum_crypto.File.Reading.{ahead, DidReadFull, read_full_lem}
use filum_crypto.File.Loop.{outstanding, ahead_next}

module _ (B : Backend) {St : Type 0} (next : St → Bytes → Bytes → Option (Bytes × St))
    (last : St → Bytes → Bytes → Option Bytes) (size : ℕ) (output : FilePath) (aad : Bytes) where
  abbrev spec : Option Bytes → ℕ → St → Bytes → Result Bytes
  spec pending k st text = outstanding B next last size output aad pending k st text

  -- The chunk held back has been written, and the rest of the text is outstanding.
  abbrev Emitted : ℕ → Bytes → Bytes → Bytes → World B → St → World B → Type 0
  Emitted k text sofar body w st' v =
      (out rest : Bytes) × Holding B output (sofar ++ out) v
      × (segments next last size k st' aad text ≡ ok rest)
      × (sofar ++ body ≡ (sofar ++ out) ++ rest)
      × Touches B output w v

  emit_pending-Within :
      (k : ℕ) (text sofar body : Bytes) (pending : Option Bytes) (st : St) (w : World B)
      → spec pending k st text ≡ ok body
      → Holding B output sofar w
      → Post
          (emit_pending B next last size output aad pending st w)
          (Emitted k text sofar body w)
          (λ _ v. Within B output (sofar ++ body) v)
  unfolding emit_pending
  emit_pending-Within k text sofar body none st w e h = (
    [],
    body,
    rw (append-nil sofar) h,
    e,
    ap (λ d. d ++ body) (sym (append-nil sofar)),
    Touches-Keeps B output w w (Keeps-refl B w),
  )
  emit_pending-Within k text sofar body (some prev) st w e h =
      let ((out, st'), eo, e') = then_ok-eq_ok _ _ e in
      let (rest, er, eb) = then_ok-eq_ok _ _ e' in
      let whole : sofar ++ body ≡ (sofar ++ out) ++ rest =
        ap (λ d. sofar ++ d) (sym (ok-injective eb)) ∙ sym (append_assoc sofar out rest) in
      let made : next st aad prev ≡ some (out, st') = map_err-eq_ok _ _ eo in
      rw made (
        by_result out st' rest er whole (write_all B output out w) (write_all_lem B output out w)
          (write_all-Within B output sofar out w w.choices h))
    where
      by_result :
          (out : Bytes) (st' : St) (rest : Bytes)
          → segments next last size k st' aad text ≡ ok rest
          → sofar ++ body ≡ (sofar ++ out) ++ rest
          → (x : Result (Unit {0}) × World B)
          → Post x (λ _ u. Writes B output out w u) (λ z u. Touches B output w u × IoError B w z)
          → Within B output (sofar ++ out) x.1
          → Post
              (continue x (λ _ u. (ok st', u)))
              (Emitted k text sofar body w)
              (λ _ v. Within B output (sofar ++ body) v)
      by_result out st' rest er whole (ok a, u) wrote _ =
          (out, rest, Holding-Writes B output sofar out w u wrote h, er, whole, wrote.touches)
      by_result out st' rest er whole (err z, u) _ left =
          subst (λ d. Within B output d u) (sym whole)
            (Within-more B output (sofar ++ out) rest u left)

  -- The last chunk.
  write_last-Within :
      (sofar rest text : Bytes) (st : St) (w : World B)
      → segments next last size 0 st aad text ≡ ok rest
      → Holding B output sofar w
      → Within B output
          (sofar ++ rest)
          (continue (map_err Error.aead (last st aad text), w) (λ out. write_all B output out)).1
  unfolding segments
  write_last-Within sofar rest text st w e h =
      let made : last st aad text ≡ some rest = map_err-eq_ok _ _ e in
      rw made (write_all-Within B output sofar rest w w.choices h)

  -- A round from its test on.
  abbrev round : ℕ → Reader → St → Bytes → Io B (Unit {0})
  round fuel r st chunk =
      if ltb (length chunk) size
      then (do out ← lift (map_err Error.aead (last st aad chunk)); write_all B output out)
      else segment_loop B next last size output aad fuel r st (some chunk)

  rest_of_round-Within :
      (fuel k : ℕ) (r r' : Reader) (st : St) (chunk sofar rest : Bytes) (w u v : World B)
      → r.path ≢ output
      → Keeps B w u
      → chunk ≡ take size (ahead B r w)
      → r' ≡ record r { position = r.position + length chunk }
      → Touches B output u v
      → k < suc fuel
      → k * size ≤ length (ahead B r w)
      → length (ahead B r w) < (k + 1) * size
      → segments next last size k st aad (ahead B r w) ≡ ok rest
      → Holding B output sofar v
      → ((k' : ℕ)
          → k' < fuel
          → k' * size ≤ length (ahead B r' v)
          → length (ahead B r' v) < (k' + 1) * size
          → spec (some chunk) k' st (ahead B r' v) ≡ ok rest
          → Within B output
              (sofar ++ rest)
              (segment_loop B next last size output aad fuel r' st (some chunk) v).1)
      → Within B output (sofar ++ rest) (round fuel r' st chunk v).1
  unfolding segments
  rest_of_round-Within fuel zero r r' st chunk sofar rest w u v apart kept ec er t hf lo hi e h ih =
      let all : chunk ≡ ahead B r w = ec ∙ take_all size (ahead B r w) (omega (arith, hi)) in
      let less : length chunk < size = omega (arith, hi, ap (λ (b : Bytes). length b) all) in
      rw (lt→ltb _ _ less, all) (write_last-Within sofar rest (ahead B r w) st v e h)
  rest_of_round-Within fuel (suc k) r r' st chunk sofar rest w u v apart kept ec er t hf lo hi e h
        ih =
      let whole : length chunk ≡ size =
        omega (arith, lo, ap (λ (b : Bytes). length b) ec, length-take size (ahead B r w)) in
      let moved = ahead_next B next last size output aad r r' chunk w u v apart er whole kept t in
      let left : length (ahead B r' v) ≡ length (ahead B r w) - size =
        ap (λ (b : Bytes). length b) moved ∙ length-drop size (ahead B r w) in
      rw (le→ltb (length chunk) size (omega (arith, whole))) (
        ih k (omega arith) (omega (arith, left, lo)) (omega (arith, left, hi)) (
          ap (λ d. spec (some chunk) k st d) moved
          ∙ ap (λ c. spec (some c) k st (drop size (ahead B r w))) ec
          ∙ e))

  -- Wherever the loop stops, it has written the first of the bytes that are outstanding.
  pub segment_loop-Within :
      (fuel k : ℕ) (r : Reader) (st : St) (pending : Option Bytes) (w : World B)
      (sofar body : Bytes)
      → r.path ≢ output
      → k < fuel
      → k * size ≤ length (ahead B r w)
      → length (ahead B r w) < (k + 1) * size
      → spec pending k st (ahead B r w) ≡ ok body
      → Holding B output sofar w
      → Within B output
          (sofar ++ body)
          (segment_loop B next last size output aad fuel r st pending w).1
  unfolding segment_loop
  segment_loop-Within zero k r st pending w sofar body apart hf lo hi e h = absurd (omega arith)
  segment_loop-Within (suc fuel) k r st pending w sofar body apart hf lo hi e h =
      Post-state (Within B output (sofar ++ body))
        (segment_loop B next last size output aad (suc fuel) r st pending w)
        (λ _ v. Within B output (sofar ++ body) v) (λ _ v. Within B output (sofar ++ body) v)
        (Post-bind (read_full B r size w) _ (DidReadFull B r size w)
          (λ _ v. Within B output (sofar ++ body) v) (IoFailure B w)
          (λ _ v. Within B output (sofar ++ body) v) (read_full_lem B r size w)
          (λ x u fail.
            Holding-Within B output sofar body u (Holding-Keeps B output sofar w u fail.0 h))
          (λ (chunk, r') u did.
            let (kept, ec, er) = did in
            Post-bind (emit_pending B next last size output aad pending st u) _
              (Emitted k (ahead B r w) sofar body u) (λ _ v. Within B output (sofar ++ body) v)
              (λ _ v. Within B output (sofar ++ body) v) (λ _ v. Within B output (sofar ++ body) v)
              (emit_pending-Within k (ahead B r w) sofar body pending st u e
                (Holding-Keeps B output sofar w u kept h))
              (λ _ _ p. p)
              (λ st' v emitted.
                let (out, rest, held, es, whole, t) = emitted in
                state-Post (λ x. Within B output (sofar ++ body) x) (round fuel r' st' chunk v)
                  (subst (λ d. Within B output d (round fuel r' st' chunk v).1) (sym whole)
                    (rest_of_round-Within fuel k r r' st' chunk (sofar ++ out) rest w u v apart kept
                      ec er t hf lo hi es held
                      (λ k' a b c d.
                        segment_loop-Within fuel k' r' st' (some chunk) v (sofar ++ out) rest
                          (λ x. apart (sym (ap (λ (y : Reader). y.path) er) ∙ x)) a b c d held))))))
        (λ _ _ p. p) (λ _ _ p. p)
