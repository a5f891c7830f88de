-- ===== src/Concurrent/Agree.antt =====
-- A program that nothing interrupts does what the function does that it is written after.
use filum_crypto.Prelude.{
  continue-cong, ℕ, zero, suc, ◌-◌, ◌+◌, Bool, true, false, Bytes, is_empty, length, ltb,
  if◌then◌else◌, ◌++◌, [], Option, none, some, Result, ok, err, Error, map_err, continue, ◌>>=◌,
  ◌>>◌, lift, ◌≡◌, refl, ap, ◌∙◌,
}
use filum_crypto.External.{Backend}
use filum_crypto.Aad.{blob_segment_aad}
use filum_crypto.Blob.{header_len, chunk_size, chunk_size_of, Prepared, open_header}
use filum_crypto.Io.{
  FilePath, World, Reader, Io, read, write_all, closing, drop_writer, remove_file, flush, sync_all,
  rename, create, open_file,
}
use filum_crypto.File.{
  read_full_loop, read_full, read_exact, emit_pending, segment_loop, rounds, encrypt_loop,
  encrypt_file_chunked, sibling_temp_path, with_cleanup, decrypt_loop, decrypt_file_chunked,
}
use filum_crypto.Concurrent.Program.{
  prepares, names, opens, creates, flushes, syncs, removes, closes, reads, writes, renames, perform,
  Program, stop, call, ask, chain, run, run-after, run-chain,
}
use filum_crypto.Concurrent.Codec.{
  read_full_loop_program, read_full_program, read_exact_program, emit_pending_program,
  segment_loop_program, encrypt_loop_program, closing_program, encrypt_program,
  with_cleanup_program, decrypt_loop_program, stage_program, publish_program, decrypt_program,
}

module _ (B : Backend) where
  abbrev Runs : {A : Type 0} → Program B A → Io B A → Type 0
  Runs p m = (w : World B) → run B p w ≡ m w

  bind-Runs :
      {A C : Type 0} (p : Program B A) (f : A → Program B C) (m : Io B A) (g : A → Io B C)
      → Runs p m
      → ((a : A) → Runs (f a) (g a))
      → Runs (chain B p f) (m >>= g)
  bind-Runs p f m g h k w =
      run-chain B p f w
      ∙ ap (λ x. continue x (λ a. run B (f a))) (h w)
      ∙ continue-cong (m w) (λ a. run B (f a)) g (λ a u _. k a u)

  seq-Runs :
      {C : Type 0} (p : Program B (Unit {0})) (q : Program B C) (m : Io B (Unit {0})) (n : Io B C)
      → Runs p m
      → Runs q n
      → Runs (chain B p (λ _. q)) (m >> n)
  seq-Runs p q m n h k = bind-Runs p (λ _. q) m (λ _. n) h (λ _. k)

  if-Runs :
      {A : Type 0} (b : Bool) (p q : Program B A) (m n : Io B A)
      → Runs p m
      → Runs q n
      → Runs (if b then p else q) (if b then m else n)
  if-Runs true p q m n h k = h
  if-Runs false p q m n h k = k

  read_full_loop-Runs :
      (fuel : ℕ) (r : Reader) (n : ℕ) (filled : Bytes)
      → Runs (read_full_loop_program B fuel r n filled) (read_full_loop B fuel r n filled)
  unfolding read_full_loop_program read_full_loop
  read_full_loop-Runs zero r n filled = λ w. refl
  read_full_loop-Runs (suc fuel) r n filled =
      if-Runs (ltb (length filled) n) _ _ _ _
        (bind-Runs (ask B (reads r (n - length filled))) _ (read B r (n - length filled)) _
          (λ _. refl)
          (λ (bytes, r').
            if-Runs (is_empty bytes) _ _ _ _ (λ _. refl)
              (read_full_loop-Runs fuel r' n (filled ++ bytes))))
        (λ _. refl)

  read_full-Runs : (r : Reader) (n : ℕ) → Runs (read_full_program B r n) (read_full B r n)
  unfolding read_full_program read_full
  read_full-Runs r n = read_full_loop-Runs n r n []

  read_exact-Runs : (r : Reader) (n : ℕ) → Runs (read_exact_program B r n) (read_exact B r n)
  unfolding read_exact_program read_exact
  read_exact-Runs r n =
      bind-Runs (read_full_program B r n) _ (read_full B r n) _ (read_full-Runs r n) (λ _ _. refl)

  module _ {St : Type 0} (next : St → Bytes → Bytes → Option (Bytes × St))
      (last : St → Bytes → Bytes → Option Bytes) (size : ℕ) (output : FilePath) (aad : Bytes) where
    emit_pending-Runs :
        (pending : Option Bytes) (st : St)
        → Runs
            (emit_pending_program B next last size output aad pending st)
            (emit_pending B next last size output aad pending st)
    unfolding emit_pending_program emit_pending
    emit_pending-Runs none st = λ w. refl
    emit_pending-Runs (some prev) st =
        bind-Runs (stop (map_err Error.aead (next st aad prev))) _
          (lift (map_err Error.aead (next st aad prev))) _ (λ _. refl)
          (λ (out, st').
            seq-Runs (ask B (writes output out)) _ (write_all B output out) _ (λ _. refl)
              (λ _. refl))

    segment_loop-Runs :
        (fuel : ℕ) (r : Reader) (st : St) (pending : Option Bytes)
        → Runs
            (segment_loop_program B next last size output aad fuel r st pending)
            (segment_loop B next last size output aad fuel r st pending)
    unfolding segment_loop_program segment_loop
    segment_loop-Runs zero r st pending = λ w. refl
    segment_loop-Runs (suc fuel) r st pending =
        bind-Runs (read_full_program B r size) _ (read_full B r size) _ (read_full-Runs r size)
          (λ (chunk, r').
            bind-Runs (emit_pending_program B next last size output aad pending st) _
              (emit_pending B next last size output aad pending st) _ (emit_pending-Runs pending st)
              (λ st'.
                if-Runs (ltb (length chunk) size) _ _ _ _
                  (bind-Runs (stop (map_err Error.aead (last st' aad chunk))) _
                    (lift (map_err Error.aead (last st' aad chunk))) _ (λ _. refl) (λ out w. refl))
                  (segment_loop-Runs fuel r' st' (some chunk))))

  encrypt_loop-Runs :
      (output : FilePath) (p : Prepared B) (fin : Reader)
      → Runs (encrypt_loop_program B output p fin) (encrypt_loop B output p fin)
  unfolding encrypt_loop_program encrypt_loop
  encrypt_loop-Runs output p fin w =
      segment_loop-Runs B.stream.encrypt_next B.stream.encrypt_last chunk_size output p.seg_aad
        (rounds B chunk_size fin w) fin p.enc none w

  decrypt_loop-Runs :
      (tmp : FilePath) (ct : ℕ) (aad : Bytes) (fin : Reader) (dec : B.stream.Decryptor)
      → Runs (decrypt_loop_program B tmp ct aad fin dec) (decrypt_loop B tmp ct aad fin dec)
  unfolding decrypt_loop_program decrypt_loop
  decrypt_loop-Runs tmp ct aad fin dec w =
      segment_loop-Runs B.stream.decrypt_next B.stream.decrypt_last ct tmp aad (rounds B ct fin w)
        fin dec none w

  closing-Runs :
      (p : FilePath) (body : Program B (Unit {0})) (m : Io B (Unit {0}))
      → Runs body m
      → Runs (closing_program B p body) (closing B p m)
  unfolding closing_program closing
  closing-Runs p body m h w =
      run-after B body (λ r. call (closes p) (λ _. stop r)) w
      ∙ ap (λ (x : Result (Unit {0}) × World B). (x.0, drop_writer B p x.1)) (h w)

  with_cleanup-Runs :
      (tmp : FilePath) (body : Program B (Unit {0})) (m : Io B (Unit {0}))
      → Runs body m
      → Runs (with_cleanup_program B tmp body) (with_cleanup B tmp m)
  unfolding with_cleanup_program with_cleanup
  with_cleanup-Runs tmp body m h w =
      run-after B body _ w ∙ ap (λ x. run B (clean x.0) x.1) (h w) ∙ by_result (m w)
    where
      clean : Result (Unit {0}) → Program B (Unit {0})
      clean r = elim r [ ok _ ↦ stop (ok tt) | err e ↦ call (removes tmp) (λ _. stop (err e)) ]

      by_result :
          (x : Result (Unit {0}) × World B)
          → run B (clean x.0) x.1 ≡ elim x.0 as (λ _. Result (Unit {0}) × World B) [
            | ok _ ↦ (ok tt, x.1)
            | err e ↦ (err e, remove_file B tmp x.1)
          ]
      by_result (ok a, u) = refl
      by_result (err e, u) = refl

  -- Run without interruption, the program of `encrypt_file_chunked` is `encrypt_file_chunked`: the
  -- same result and the same state, for every input and schedule.
  pub run-encrypt_program :
      (input output : FilePath) (key id : Bytes) (w : World B)
      → run B (encrypt_program B input output key id) w
        ≡ encrypt_file_chunked B input output key id w
  unfolding encrypt_program encrypt_file_chunked
  run-encrypt_program input output key id =
      bind-Runs (ask B (prepares key id)) _ (perform B (prepares key id)) _ (λ _. refl)
        (λ p.
          bind-Runs (ask B (opens input)) _ (open_file B input) _ (λ _. refl)
            (λ fin.
              seq-Runs (ask B (creates output)) _ (create B output) _ (λ _. refl)
                (closing-Runs output _ _ (
                  seq-Runs (ask B (writes output p.header)) _ (write_all B output p.header) _
                    (λ _. refl)
                    (seq-Runs (encrypt_loop_program B output p fin) _ (encrypt_loop B output p fin)
                      _ (encrypt_loop-Runs output p fin) (λ _. refl))))))

  module _ (output tmp : FilePath) (ct : ℕ) (aad : Bytes) (fin : Reader)
      (dec : B.stream.Decryptor) where
    abbrev stage : Io B (Unit {0})
    stage = do decrypt_loop B tmp ct aad fin dec; flush B tmp; sync_all B tmp

    abbrev publish : Io B (Unit {0})
    publish = do create B tmp; closing B tmp stage; rename B tmp output

    stage-Runs : Runs (stage_program B tmp ct aad fin dec) stage
    unfolding stage_program
    stage-Runs =
        seq-Runs (decrypt_loop_program B tmp ct aad fin dec) _ (decrypt_loop B tmp ct aad fin dec) _
          (decrypt_loop-Runs tmp ct aad fin dec)
          (seq-Runs (ask B (flushes tmp)) (ask B (syncs tmp)) (flush B tmp) (sync_all B tmp)
            (λ _. refl) (λ _. refl))

    publish-Runs : Runs (publish_program B output tmp ct aad fin dec) publish
    unfolding publish_program
    publish-Runs =
        seq-Runs (ask B (creates tmp)) _ (create B tmp) _ (λ _. refl)
          (seq-Runs (closing_program B tmp (stage_program B tmp ct aad fin dec))
            (ask B (renames tmp output)) (closing B tmp stage) (rename B tmp output)
            (closing-Runs tmp (stage_program B tmp ct aad fin dec) stage stage-Runs) (λ _. refl))

  -- Run without interruption, the program of `decrypt_file_chunked` is `decrypt_file_chunked`: the
  -- same result and the same state, for every input and schedule.
  pub run-decrypt_program :
      (input output : FilePath) (key id : Bytes) (w : World B)
      → run B (decrypt_program B input output key id) w
        ≡ decrypt_file_chunked B input output key id w
  unfolding decrypt_program decrypt_file_chunked
  run-decrypt_program input output key id =
      bind-Runs (stop (blob_segment_aad id)) _ (lift (blob_segment_aad id)) _ (λ _. refl)
        (λ aad.
          bind-Runs (ask B (opens input)) _ (open_file B input) _ (λ _. refl)
            (λ fin.
              bind-Runs (read_exact_program B fin header_len) _ (read_exact B fin header_len) _
                (read_exact-Runs fin header_len)
                (λ (header, fin').
                  bind-Runs (stop (open_header B header key id)) _
                    (lift (open_header B header key id)) _ (λ _. refl)
                    (λ dec.
                      bind-Runs (ask B (names output)) _ (sibling_temp_path B output) _ (λ _. refl)
                        (λ tmp.
                          with_cleanup-Runs tmp
                            (publish_program B output tmp (chunk_size_of header + 16) aad fin' dec)
                            (publish output tmp (chunk_size_of header + 16) aad fin' dec)
                            (publish-Runs output tmp (chunk_size_of header + 16) aad fin' dec))))))
