-- ===== src/File.antt =====
-- crates/filum-crypto/src/blob.rs, the codec over files.
pub mod Reading
pub mod Loop
pub mod Sealing
pub mod Encrypt
pub mod TempPath
pub mod Frame
pub mod Rollback
pub mod Fuel
pub mod InPlace
pub mod Progress
pub mod Leftover
pub mod Segments
pub mod Decrypt
pub mod Atomic
pub mod Header
pub mod Refusal
pub mod Outcome
pub mod Guarantees
pub mod Integrity
pub mod Tests
use filum_crypto.Prelude.{
  ℕ, zero, suc, ◌+◌, ◌-◌, ◌/◌, ◌%◌, Bytes, bytes_of, is_empty, length, drop, ltb, ◌==◌,
  if◌then◌else◌, ◌++◌, ◌∷◌, [], Option, none, some, Result, ok, err, Error, map_err, M, ◌>>=◌, ◌>>◌,
  lift, from_be_bytes,
}
use filum_crypto.External.{Backend}
use filum_crypto.Aad.{blob_segment_aad}
use filum_crypto.Blob.{
  header_len, chunk_size, chunk_size_of, random, Prepared, prepare, open_header,
}
use filum_crypto.Io.{
  FilePath, World, Reader, Io, on_rng, content, open_file, create, read, write_all, flush, sync_all,
  rename, remove_file, closing,
}

-- A digit of `{:x}`.
abbrev pub hex_digit : ℕ → ℕ
hex_digit d = if ltb d 10 then 48 + d else 87 + d

-- `{:016x}` and the like: the lowest `width` hexadecimal digits of a number.
unfoldable pub hex : ℕ → ℕ → Bytes
hex zero n = []
hex (suc width) n = hex width (n / 16) ++ (hex_digit (n % 16) ∷ [])

-- The name that `sibling_temp_path` gives for a suffix.
unfoldable pub temp_name : Bytes → ℕ → Bytes
unfolding hex
temp_name name suffix = name ++ (b'.' ∷ (hex 16 suffix ++ bytes_of ".part"))

module _ (B : Backend) where
  -- The `while` loop of `read_full`: fuel, reader, size of the buffer, and its filled part. Each
  -- round fills a byte at least, so the size of the buffer is fuel enough.
  unfoldable pub read_full_loop : ℕ → Reader → ℕ → Bytes → Io B (Bytes × Reader)
  read_full_loop zero r n filled = lift (ok (filled, r))
  read_full_loop (suc fuel) r n filled =
      if ltb (length filled) n
      then (do
        (bytes, r') ← read B r (n - length filled)
        if is_empty bytes
            then lift (ok (filled, r'))
            else read_full_loop fuel r' n (filled ++ bytes))
      else lift (ok (filled, r))

  unfoldable pub read_full : Reader → ℕ → Io B (Bytes × Reader)
  unfolding read_full_loop
  read_full r n = read_full_loop n r n []

  -- `Read::read_exact`, which fails at the end of the file.
  unfoldable pub read_exact : Reader → ℕ → Io B (Bytes × Reader)
  read_exact r n = do
    (bytes, r') ← read_full r n
    lift (if length bytes == n then ok (bytes, r') else err Error.io)

  module _ {St : Type 0} (next : St → Bytes → Bytes → Option (Bytes × St))
      (last : St → Bytes → Bytes → Option Bytes) (size : ℕ) (output : FilePath) (aad : Bytes) where
    -- The chunk that is held back, if there is one, goes through `next`.
    unfoldable pub emit_pending : Option Bytes → St → Io B St
    emit_pending none st = lift (ok st)
    emit_pending (some prev) st = do
      (out, st') ← lift (map_err Error.aead (next st aad prev))
      write_all B output out
      lift (ok st')

    -- The `loop` of both functions, over the operations of an encryptor or a decryptor: fuel,
    -- reader, state and the chunk held back. A round that reads a full chunk is followed by
    -- another, so one round more than there are full chunks is fuel enough.
    unfoldable pub segment_loop : ℕ → Reader → St → Option Bytes → Io B (Unit {0})
    unfolding emit_pending
    segment_loop zero r st pending = lift (err Error.io)
    segment_loop (suc fuel) r st pending = do
      (chunk, r') ← read_full r size
      st' ← emit_pending pending st
      if ltb (length chunk) size
          then (do out ← lift (map_err Error.aead (last st' aad chunk)); write_all B output out)
          else segment_loop fuel r' st' (some chunk)

  -- Rounds of the loop over the file that a reader is in.
  abbrev pub rounds : ℕ → Reader → World B → ℕ
  rounds size r w = suc (length (drop r.position (content (w.files r.path))) / size)

  -- The loop of `encrypt_file_chunked` on its input, at the fuel that the input needs.
  unfoldable pub encrypt_loop : FilePath → Prepared B → Reader → Io B (Unit {0})
  unfolding segment_loop
  encrypt_loop output p fin w =
      segment_loop B.stream.encrypt_next B.stream.encrypt_last chunk_size output p.seg_aad
        (rounds chunk_size fin w) fin p.enc none w

  unfoldable pub encrypt_file_chunked : FilePath → FilePath → Bytes → Bytes → Io B (Unit {0})
  encrypt_file_chunked input output wrapping_key blob_id = do
    p ← on_rng B (prepare B wrapping_key blob_id)
    fin ← open_file B input
    create B output
    closing B output (do write_all B output p.header; encrypt_loop output p fin; flush B output)

  -- The random suffix is drawn before the file name is looked at.
  unfoldable pub sibling_temp_path : FilePath → Io B FilePath
  unfolding temp_name
  sibling_temp_path output = do
    suffix ← on_rng B (random B 8)
    lift (elim output.file_name [
      | none ↦ err Error.io
      | some name ↦ ok (record output { file_name = some (temp_name name (from_be_bytes suffix)) })
    ])

  -- `TempCleanup`: its file is removed at the end of the scope, unless the scope succeeded.
  unfoldable pub with_cleanup : FilePath → Io B (Unit {0}) → Io B (Unit {0})
  with_cleanup tmp body w =
      let (r, w') = body w in elim r [ ok _ ↦ (ok tt, w') | err e ↦ (err e, remove_file B tmp w') ]

  unfoldable pub decrypt_loop : FilePath → ℕ → Bytes → Reader → B.stream.Decryptor → Io B (Unit {0})
  unfolding segment_loop
  decrypt_loop tmp ct_chunk seg_aad fin dec w =
      segment_loop B.stream.decrypt_next B.stream.decrypt_last ct_chunk tmp seg_aad
        (rounds ct_chunk fin w) fin dec none w

  unfoldable pub decrypt_file_chunked : FilePath → FilePath → Bytes → Bytes → Io B (Unit {0})
  decrypt_file_chunked input output wrapping_key blob_id = do
    seg_aad ← lift (blob_segment_aad blob_id)
    fin ← open_file B input
    (header, fin') ← read_exact fin header_len
    dec ← lift (open_header B header wrapping_key blob_id)
    tmp ← sibling_temp_path output
    with_cleanup tmp (do
      create B tmp
      closing B tmp (do
        decrypt_loop tmp (chunk_size_of header + 16) seg_aad fin' dec
        flush B tmp
        sync_all B tmp)
      rename B tmp output)
