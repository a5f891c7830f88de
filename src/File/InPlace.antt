-- ===== src/File/InPlace.antt =====
-- `encrypt_file_chunked` with one path for input and output: the writer has emptied the file before
-- the first chunk is read.
use mathlib.Core.Path.{subst}
use filum_crypto.Prelude.{
  ℕ, suc, Bytes, length, drop_all, ◌-◌, take_all, take-nil, lt→ltb, ◌++◌, [], Option, none, some,
  Result, ok, map_err-eq_ok, then_ok-eq_ok, ok-injective, continue-eq_ok, ◌≡◌, refl, ap, ◌∙◌, sym,
  arith, true,
}
use filum_crypto.External.{Backend}
use filum_crypto.Blob.{Prepared, prepare, chunk_size, encrypt_body, encrypt_chunked}
use filum_crypto.Blob.Segments.Memory.{encrypt_body-seal}
use filum_crypto.Blob.Segments.{segments, seal}
use filum_crypto.Io.{
  FilePath, World, update, choose, spill, spill_all, hold, open_file, open_found, create, read,
  write_all, flush, closing, drop_writer,
}
use filum_crypto.Io.Hoare.{update_self}
use filum_crypto.Io.Laws.{at, spill_file}
use filum_crypto.Io.Publish.{drop_writer_lem}
use filum_crypto.File.{
  read_full_loop, read_full, emit_pending, segment_loop, encrypt_loop, encrypt_file_chunked,
}

module _ (B : Backend) where
  opens :
      (p : FilePath) (w : World B) (bytes : Bytes)
      → w.files p ≡ some bytes
      → open_file B p (at B w []) ≡ (ok (record { path = p; position = 0 }), at B w [])
  unfolding open_file open_found choose
  opens p w bytes e = rw e refl

  -- Nothing is read from a file that is empty.
  empty_read :
      (m : ℕ) (p : FilePath) (w : World B)
      → w.files p ≡ some []
      → read_full B (record { path = p; position = 0 }) (suc m) (at B w [])
        ≡ (ok ([], record { path = p; position = 0 }), at B w [])
  unfolding read_full read_full_loop read choose
  empty_read m p w e = rw (lt→ltb 0 (suc m) (omega arith), e, take-nil {A = ℕ} (suc m - 0)) refl

  -- The loop seals the empty text.
  empty_loop :
      {St : Type 0} (next : St → Bytes → Bytes → Option (Bytes × St))
      (last : St → Bytes → Bytes → Option Bytes) (m fuel : ℕ) (p : FilePath) (aad out : Bytes)
      (st : St) (w : World B)
      → w.files p ≡ some []
      → last st aad [] ≡ some out
      → segment_loop B next last
          (suc m)
          p
          aad
          (suc fuel)
          (record { path = p; position = 0 })
          st
          none
          (at B w [])
        ≡ (ok tt, hold B out (at B w []))
  unfolding segment_loop emit_pending write_all choose
  empty_loop next last m fuel p aad out st w e l =
      rw (empty_read m p w e, l, lt→ltb 0 (suc m) (omega arith)) refl

  module _ (p : FilePath) (key id : Bytes) where
    -- The file as `File::create` leaves it, and as the header and the last segment leave it.
    abbrev emptied : World B → World B
    emptied w = record w {
      files = update w.files p (some []);
      unsynced = update w.unsynced p true;
      buffer = [];
    }

    abbrev finished : Bytes → World B → World B
    finished framed w = drop_writer B p (spill_all B p (record (emptied w) { buffer = framed }))

    finished_files : (framed : Bytes) (w : World B) → (finished framed w).files p ≡ some framed
    unfolding spill
    finished_files framed w =
        (drop_writer_lem B p (spill_all B p (record (emptied w) { buffer = framed }))).settled
          (drop_all (length framed) framed (omega arith)) p
        ∙ spill_file B p (length framed) (record (emptied w) { buffer = framed }) []
            (update_self w.files p (some []))
        ∙ ap some (take_all (length framed) framed (omega arith))

    in_place_runs :
        (q : Prepared B) (out : Bytes) (s : B.rng.State) (w : World B)
        → prepare B key id w.rng ≡ (ok q, s)
        → B.stream.encrypt_last q.enc q.seg_aad [] ≡ some out
        → (bytes : Bytes) × (w.files p ≡ some bytes)
        → encrypt_file_chunked B p p key id (at B w [])
          ≡ (ok tt, finished (q.header ++ out) (record (at B w []) { rng = s }))
    unfolding encrypt_file_chunked encrypt_loop create closing flush write_all choose
    in_place_runs q out s w e l (bytes, h) =
        rw
          (
            e,
            opens p (record w { rng = s }) bytes h,
            empty_loop B.stream.encrypt_next B.stream.encrypt_last (chunk_size - 1) _ p q.seg_aad
                out q.enc (record (emptied (record w { rng = s })) { buffer = q.header })
                (update_self w.files p (some [])) l,
          )
          refl

    sealed_empty :
        (q : Prepared B) (framed : Bytes)
        → encrypt_body B [] q.enc q.seg_aad q.header ≡ ok framed
        → (out : Bytes) × (B.stream.encrypt_last q.enc q.seg_aad [] ≡ some out)
          × (q.header ++ out ≡ framed)
    unfolding seal segments
    sealed_empty q framed e =
        let (out, el, eo) =
          then_ok-eq_ok _ _ (sym (encrypt_body-seal B [] q.enc q.seg_aad q.header) ∙ e) in
        (out, map_err-eq_ok _ _ el, ok-injective eo)

    -- Where input and output are one path, `encrypt_file_chunked` reports success and leaves in the
    -- file the frame of the empty text, whatever the file held: the plaintext is lost. The file is
    -- there, every operation of the system succeeds in full, and the empty text can be encrypted.
    pub encrypt_file_chunked_in_place :
        (bytes framed : Bytes) (t : B.rng.State) (w : World B)
        → w.choices ≡ []
        → w.files p ≡ some bytes
        → encrypt_chunked B [] key id w.rng ≡ (ok framed, t)
        → (u : World B) × (encrypt_file_chunked B p p key id w ≡ (ok tt, u))
          × (u.files p ≡ some framed)
    unfolding encrypt_chunked
    encrypt_file_chunked_in_place bytes framed t w h there e =
        let (q, s, ep, eb) = continue-eq_ok (prepare B key id w.rng) _ e in
        let (out, el, ef) =
          sealed_empty q framed (ap (λ (x : Result Bytes × B.rng.State). x.0) eb) in
        let runs = in_place_runs q out s w ep el (bytes, there) in
        (
          finished (q.header ++ out) (record (at B w []) { rng = s }),
          subst
              (λ cs.
                encrypt_file_chunked B p p key id (at B w cs)
                ≡ (ok tt, finished (q.header ++ out) (record (at B w []) { rng = s })))
              (sym h) runs,
          finished_files (q.header ++ out) (record (at B w []) { rng = s }) ∙ ap some ef,
        )
