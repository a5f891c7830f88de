-- ===== src/Concurrent/Buffered.antt =====
-- The calls on the buffer of a writer, in two states that are alike.
use filum_crypto.Prelude.{
  ℕ, Bytes, length, take, drop, ◌++◌, ◌∷◌, [], List, ok, err, Error, ◌≡◌, refl, ap,
}
use filum_crypto.External.{Backend}
use filum_crypto.Io.{
  FilePath, IoChoice, full, short, fails, dies, append_to, World, choose, spill, spill_all, hold,
  write_all, flush, drop_writer,
}
use filum_crypto.Io.Laws.{at}
use filum_crypto.Concurrent.Locality.{Same, Alike, Same-at, answer, alike, update-Same}

module _ (B : Backend) (R : FilePath → Type 0) where
  hold-Same :
      (bytes : Bytes) (v v' : World B) → Same B R v v' → Same B R (hold B bytes v) (hold B bytes v')
  hold-Same bytes v v' s = record {
    rng = s.rng;
    buffer = ap (λ b. b ++ bytes) s.buffer;
    files = s.files;
  }

  spill-Same :
      (p : FilePath) (k k' : ℕ) (v v' : World B)
      → R p
      → k ≡ k'
      → Same B R v v'
      → Same B R (spill B p k v) (spill B p k' v')
  unfolding spill
  spill-Same p k k' v v' r e s = record {
    rng = s.rng;
    buffer = λ i. drop (e i) (s.buffer i);
    files =
        update-Same B R p _ _ v.files v'.files
          (λ i. append_to (s.files p r i) (take (e i) (s.buffer i))) s.files;
  }

  spill_all-Same :
      (p : FilePath) (v v' : World B)
      → R p
      → Same B R v v'
      → Same B R (spill_all B p v) (spill_all B p v')
  spill_all-Same p v v' r s =
      spill-Same p (length v.buffer) (length v'.buffer) v v' r
        (ap (λ (b : Bytes). length b) s.buffer) s

  module _ (w u : World B) (s : Same B R w u) where
    abbrev both : (cs : List IoChoice) → Same B R (at B w cs) (at B u cs)
    both cs = Same-at B R w u cs s

    abbrev fail :
        {A : Type 0} (cs : List IoChoice)
        → Alike B R {A = A} (err Error.io, at B w cs) (err Error.io, at B u cs)
    fail cs = answer B R (err Error.io) cs w u s

    wrote :
        (p : FilePath) (k : ℕ) (bytes : Bytes) (cs : List IoChoice)
        → R p
        → Same B R (spill B p k (hold B bytes (at B w cs))) (spill B p k (hold B bytes (at B u cs)))
    wrote p k bytes cs r =
        spill-Same p k k (hold B bytes (at B w cs)) (hold B bytes (at B u cs)) r refl
          (hold-Same bytes (at B w cs) (at B u cs) (both cs))

    pub write_all-Alike :
        (p : FilePath) (bytes : Bytes) (cs : List IoChoice)
        → R p
        → Alike B R (write_all B p bytes (at B w cs)) (write_all B p bytes (at B u cs))
    unfolding write_all choose spill
    write_all-Alike p bytes [] r =
        alike B R _ _ _ (hold-Same bytes (at B w []) (at B u []) (both [])) refl
    write_all-Alike p bytes (full ∷ cs) r =
        alike B R _ _ _ (hold-Same bytes (at B w cs) (at B u cs) (both cs)) refl
    write_all-Alike p bytes (short k ∷ cs) r = alike B R _ _ _ (wrote p k bytes cs r) refl
    write_all-Alike p bytes (fails k ∷ cs) r = alike B R _ _ _ (wrote p k bytes cs r) refl
    write_all-Alike p bytes (dies ∷ cs) r = fail (dies ∷ cs)

    flushed :
        (p : FilePath) (cs : List IoChoice)
        → R p
        → Same B R (spill_all B p (at B w cs)) (spill_all B p (at B u cs))
    flushed p cs r = spill_all-Same p (at B w cs) (at B u cs) r (both cs)

    spilled :
        (p : FilePath) (k : ℕ) (cs : List IoChoice)
        → R p
        → Same B R (spill B p k (at B w cs)) (spill B p k (at B u cs))
    spilled p k cs r = spill-Same p k k (at B w cs) (at B u cs) r refl (both cs)

    pub flush-Alike :
        (p : FilePath) (cs : List IoChoice)
        → R p
        → Alike B R (flush B p (at B w cs)) (flush B p (at B u cs))
    unfolding flush choose spill
    flush-Alike p [] r = alike B R _ _ _ (flushed p [] r) refl
    flush-Alike p (full ∷ cs) r = alike B R _ _ _ (flushed p cs r) refl
    flush-Alike p (short k ∷ cs) r = alike B R _ _ _ (flushed p cs r) refl
    flush-Alike p (fails k ∷ cs) r = alike B R _ _ _ (spilled p k cs r) refl
    flush-Alike p (dies ∷ cs) r = fail (dies ∷ cs)

    pub drop_writer-Alike :
        (p : FilePath) (cs : List IoChoice)
        → R p
        → Alike B R {A = Unit {0}}
            (ok tt, drop_writer B p (at B w cs))
            (ok tt, drop_writer B p (at B u cs))
    unfolding drop_writer spill
    drop_writer-Alike p [] r = alike B R _ _ _ (flushed p [] r) refl
    drop_writer-Alike p (full ∷ cs) r = alike B R _ _ _ (flushed p cs r) refl
    drop_writer-Alike p (short k ∷ cs) r = alike B R _ _ _ (flushed p cs r) refl
    drop_writer-Alike p (fails k ∷ cs) r =
        let t = spilled p k cs r in
        alike B R _ _ _ (record { rng = t.rng; buffer = refl; files = t.files }) refl
    drop_writer-Alike p (dies ∷ cs) r =
        alike B R _ _ _ (record { rng = s.rng; buffer = refl; files = s.files }) refl
