-- ===== src/Concurrent/Codec.antt =====
-- The two functions of the codec over files, as programs.
use filum_crypto.Prelude.{
  ℕ, zero, suc, ◌+◌, ◌-◌, Bytes, is_empty, length, ltb, ◌==◌, if◌then◌else◌, ◌++◌, [], Option, none,
  some, ok, err, Error, map_err,
}
use filum_crypto.External.{Backend}
use filum_crypto.Aad.{blob_segment_aad}
use filum_crypto.Blob.{header_len, chunk_size, chunk_size_of, Prepared, open_header}
use filum_crypto.Io.{FilePath, Reader}
use filum_crypto.Concurrent.Program.{
  prepares, names, opens, creates, flushes, syncs, removes, closes, reads, writes, renames,
  measures, Program, stop, call, ask, after, ◌>>=◌, ◌>>◌,
}

module _ (B : Backend) where
  -- `read_full`
  unfoldable pub read_full_loop_program : ℕ → Reader → ℕ → Bytes → Program B (Bytes × Reader)
  read_full_loop_program zero r n filled = stop (ok (filled, r))
  read_full_loop_program (suc fuel) r n filled =
      if ltb (length filled) n
      then (do
        (bytes, r') ← ask B (reads r (n - length filled))
        if is_empty bytes
            then stop (ok (filled, r'))
            else read_full_loop_program fuel r' n (filled ++ bytes))
      else stop (ok (filled, r))

  unfoldable pub read_full_program : Reader → ℕ → Program B (Bytes × Reader)
  read_full_program r n = read_full_loop_program n r n []

  unfoldable pub read_exact_program : Reader → ℕ → Program B (Bytes × Reader)
  read_exact_program r n = do
    (bytes, r') ← read_full_program r n
    stop (if length bytes == n then ok (bytes, r') else err Error.io)

  module _ {St : Type 0} (next : St → Bytes → Bytes → Option (Bytes × St))
      (last : St → Bytes → Bytes → Option Bytes) (size : ℕ) (output : FilePath) (aad : Bytes) where
    unfoldable pub emit_pending_program : Option Bytes → St → Program B St
    emit_pending_program none st = stop (ok st)
    emit_pending_program (some prev) st = do
      (out, st') ← stop (map_err Error.aead (next st aad prev))
      ask B (writes output out)
      stop (ok st')

    -- The `loop` of both functions.
    unfoldable pub segment_loop_program : ℕ → Reader → St → Option Bytes → Program B (Unit {0})
    segment_loop_program zero r st pending = stop (err Error.io)
    segment_loop_program (suc fuel) r st pending = do
      (chunk, r') ← read_full_program r size
      st' ← emit_pending_program pending st
      if ltb (length chunk) size
          then (do out ← stop (map_err Error.aead (last st' aad chunk)); ask B (writes output out))
          else segment_loop_program fuel r' st' (some chunk)

  unfoldable pub encrypt_loop_program : FilePath → Prepared B → Reader → Program B (Unit {0})
  encrypt_loop_program output p fin = do
    fuel ← ask B (measures chunk_size fin)
    segment_loop_program B.stream.encrypt_next B.stream.encrypt_last chunk_size output p.seg_aad
        fuel fin p.enc none

  -- The scope of the writer.
  unfoldable pub closing_program : FilePath → Program B (Unit {0}) → Program B (Unit {0})
  closing_program p body = after B body (λ r. call (closes p) (λ _. stop r))

  -- `encrypt_file_chunked`
  unfoldable pub encrypt_program : FilePath → FilePath → Bytes → Bytes → Program B (Unit {0})
  encrypt_program input output wrapping_key blob_id = do
    p ← ask B (prepares wrapping_key blob_id)
    fin ← ask B (opens input)
    ask B (creates output)
    closing_program output (do
      ask B (writes output p.header)
      encrypt_loop_program output p fin
      ask B (flushes output))

  -- The scope of `TempCleanup`.
  unfoldable pub with_cleanup_program : FilePath → Program B (Unit {0}) → Program B (Unit {0})
  with_cleanup_program tmp body =
      after B body
        (λ r. elim r [ ok _ ↦ stop (ok tt) | err e ↦ call (removes tmp) (λ _. stop (err e)) ])

  unfoldable pub decrypt_loop_program :
      FilePath → ℕ → Bytes → Reader → B.stream.Decryptor → Program B (Unit {0})
  decrypt_loop_program tmp ct_chunk seg_aad fin dec = do
    fuel ← ask B (measures ct_chunk fin)
    segment_loop_program B.stream.decrypt_next B.stream.decrypt_last ct_chunk tmp seg_aad fuel fin
        dec none

  -- What `decrypt_file_chunked` writes to the temporary file.
  unfoldable pub stage_program :
      FilePath → ℕ → Bytes → Reader → B.stream.Decryptor → Program B (Unit {0})
  stage_program tmp ct_chunk seg_aad fin dec = do
    decrypt_loop_program tmp ct_chunk seg_aad fin dec
    ask B (flushes tmp)
    ask B (syncs tmp)

  -- `decrypt_file_chunked` from the temporary path on.
  unfoldable pub publish_program :
      FilePath → FilePath → ℕ → Bytes → Reader → B.stream.Decryptor → Program B (Unit {0})
  publish_program output tmp ct_chunk seg_aad fin dec = do
    ask B (creates tmp)
    closing_program tmp (stage_program tmp ct_chunk seg_aad fin dec)
    ask B (renames tmp output)

  -- `decrypt_file_chunked`
  unfoldable pub decrypt_program : FilePath → FilePath → Bytes → Bytes → Program B (Unit {0})
  decrypt_program input output wrapping_key blob_id = do
    seg_aad ← stop (blob_segment_aad blob_id)
    fin ← ask B (opens input)
    (header, fin') ← read_exact_program fin header_len
    dec ← stop (open_header B header wrapping_key blob_id)
    tmp ← ask B (names output)
    with_cleanup_program tmp
        (publish_program output tmp (chunk_size_of header + 16) seg_aad fin' dec)
