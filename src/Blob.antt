-- ===== src/Blob.antt =====
-- crates/filum-crypto/src/blob.rs, the codec in memory. `Zeroizing`, capacities and stale buffer
-- contents change no value and are left out; a fixed-size array is a list of that length.
pub mod Tests
pub mod Segments
pub mod Key
pub mod Frame
pub mod Sealed
pub mod RoundTrip
pub mod Total
pub mod Rejects
pub mod Binding
pub mod Integrity
pub mod Bounds
use filum_crypto.Prelude.{
  ℕ, zero, suc, ◌+◌, ◌-◌, ◌*◌, ◌/◌, ◌%◌, ◌^◌, Bytes, length, take, drop, ltb, ◌==◌, if◌then◌else◌,
  ◌||◌, not, ◌++◌, ◌∷◌, [], List, to_be_bytes, from_be_bytes, Result, ok, err, Error, then_ok,
  map_err, M, ◌>>=◌, lift,
}
use filum_crypto.External.{Backend}
use filum_crypto.Aad.{blob_segment_aad, blob_wrap_aad}

abbrev pub version : ℕ
version = 2

abbrev pub wrapped_key_len : ℕ
wrapped_key_len = 60

abbrev pub nonce_prefix_len : ℕ
nonce_prefix_len = 7

abbrev pub header_len : ℕ
header_len = 1 + wrapped_key_len + nonce_prefix_len + 4

abbrev pub chunk_size : ℕ
chunk_size = 1024 * 1024

-- `(CHUNK_SIZE as u32).to_be_bytes()`
abbrev pub chunk_size_be : Bytes
chunk_size_be = to_be_bytes (chunk_size % 2 ^ 32)

-- The byte at offset 0, where the length has been tested.
abbrev pub first_byte : Bytes → ℕ
first_byte [] = 0
first_byte (b ∷ bs) = b

-- Bytes `1..61`, `61..68` and `68..72` of a header.
abbrev pub wrapped_of : Bytes → Bytes
wrapped_of header = take wrapped_key_len (drop 1 header)

abbrev pub nonce_prefix_of : Bytes → Bytes
nonce_prefix_of header = take nonce_prefix_len (drop (1 + wrapped_key_len) header)

abbrev pub chunk_size_of : Bytes → ℕ
chunk_size_of header = from_be_bytes (take 4 (drop (1 + wrapped_key_len + nonce_prefix_len) header))

unfoldable pub write_header : Bytes → Bytes → Bytes → Bytes
write_header out wrapped_key nonce_prefix =
    out ++ (version ∷ (wrapped_key ++ (nonce_prefix ++ chunk_size_be)))

-- `slice::chunks`: pieces of the given size, the last of which may be shorter. The fuel is the
-- length of the slice, since a piece takes a byte at least.
unfoldable pub chunks_from : {A : Type 0} → ℕ → ℕ → List A → List (List A)
chunks_from zero size xs = []
chunks_from (suc fuel) size [] = []
chunks_from (suc fuel) size (x ∷ xs) =
    take size (x ∷ xs) ∷ chunks_from fuel size (drop size (x ∷ xs))

abbrev pub chunks : {A : Type 0} → ℕ → List A → List (List A)
chunks size xs = chunks_from (length xs) size xs

-- The segment data, the encryptor and the header that an encoder has before its loop.
pub record Prepared (B : Backend) : Type 0 where
  pub seg_aad : Bytes
  pub header : Bytes
  pub enc : B.stream.Encryptor

module _ (B : Backend) where
  open B use {aead as gcm, stream, rng}

  -- A buffer of `n` bytes filled by `OsRng`.
  unfoldable pub random : ℕ → M rng.State Bytes
  random n s = let (bytes, t) = rng.fill n s in (map_err Error.randomness bytes, t)

  unfoldable pub wrap_data_key : Bytes → Bytes → Bytes → M rng.State Bytes
  unfolding random
  wrap_data_key data_key wrapping_key aad = do
    wrap_iv ← random 12
    wrapped_key_ct ← lift (map_err Error.aead (gcm.encrypt wrapping_key wrap_iv aad data_key))
    lift (
        if length wrapped_key_ct == wrapped_key_len - 12
        then ok (wrap_iv ++ wrapped_key_ct)
        else err Error.aead)

  unfoldable pub unwrap_data_key : Bytes → Bytes → Bytes → Result Bytes
  unwrap_data_key wrapped wrapping_key aad =
      if not (length wrapped == wrapped_key_len)
      then err Error.aead
      else then_ok
          (map_err Error.aead (gcm.decrypt wrapping_key (take 12 wrapped) aad (drop 12 wrapped)))
          (λ data_key. if length data_key == 32 then ok data_key else err Error.aead)

  -- The loop over `0..full_chunks`: rounds left, index, and the output so far.
  unfoldable pub encrypt_chunks :
      ℕ → ℕ → ℕ → Bytes → stream.Encryptor → Bytes → Bytes → Result (Bytes × stream.Encryptor)
  encrypt_chunks size zero i plaintext enc aad out = ok (out, enc)
  encrypt_chunks size (suc left) i plaintext enc aad out =
      then_ok
        (map_err Error.aead (stream.encrypt_next enc aad (take size (drop (i * size) plaintext))))
        (λ (ct, enc'). encrypt_chunks size left (i + 1) plaintext enc' aad (out ++ ct))

  -- All segments, the last of which holds what the full chunks leave.
  unfoldable pub encrypt_body : Bytes → stream.Encryptor → Bytes → Bytes → Result Bytes
  unfolding encrypt_chunks
  encrypt_body plaintext enc aad out =
      let full_chunks = length plaintext / chunk_size in
      then_ok (encrypt_chunks chunk_size full_chunks 0 plaintext enc aad out) (λ (out', enc').
        then_ok
          (map_err Error.aead
            (stream.encrypt_last enc' aad (drop (full_chunks * chunk_size) plaintext)))
          (λ ct. ok (out' ++ ct)))

  -- The statements that `encrypt_chunked` and `encrypt_file_chunked` have in common. The context is
  -- tested before any randomness is drawn.
  unfoldable pub prepare : Bytes → Bytes → M rng.State (Prepared B)
  prepare wrapping_key blob_id = do
    seg_aad ← lift (blob_segment_aad blob_id)
    data_key ← random 32
    nonce_prefix ← random nonce_prefix_len
    wrap_aad ← lift (blob_wrap_aad blob_id version nonce_prefix chunk_size_be)
    wrapped ← wrap_data_key data_key wrapping_key wrap_aad
    lift (
        ok (record {
          seg_aad = seg_aad;
          header = write_header [] wrapped nonce_prefix;
          enc = stream.encryptor data_key nonce_prefix;
        }))

  unfoldable pub encrypt_chunked : Bytes → Bytes → Bytes → M rng.State Bytes
  encrypt_chunked plaintext wrapping_key blob_id = do
    p ← prepare wrapping_key blob_id
    lift (encrypt_body plaintext p.enc p.seg_aad p.header)

  -- The `while let` loop; a segment is the last if none is behind it.
  unfoldable pub decrypt_segments : List Bytes → stream.Decryptor → Bytes → Bytes → Result Bytes
  decrypt_segments [] dec aad out = ok out
  decrypt_segments (chunk ∷ []) dec aad out =
      then_ok (map_err Error.aead (stream.decrypt_last dec aad chunk)) (λ msg. ok (out ++ msg))
  decrypt_segments (chunk ∷ (next ∷ rest)) dec aad out =
      then_ok (map_err Error.aead (stream.decrypt_next dec aad chunk))
        (λ (msg, dec'). decrypt_segments (next ∷ rest) dec' aad (out ++ msg))

  unfoldable pub decrypt_body : ℕ → Bytes → stream.Decryptor → Bytes → Result Bytes
  unfolding decrypt_segments chunks_from
  decrypt_body ct_chunk body dec aad = elim (chunks ct_chunk body) [
    | [] ↦ err Error.aead
    | chunk ∷ rest ↦ decrypt_segments (chunk ∷ rest) dec aad []
  ]

  -- The statements on a header that `decrypt_chunked` and `decrypt_file_chunked` have in common: the
  -- version and the chunk size are tested before the key is unwrapped.
  unfoldable pub open_header : Bytes → Bytes → Bytes → Result stream.Decryptor
  open_header header wrapping_key blob_id =
      if not (first_byte header == version)
      then err Error.aead
      else if not (chunk_size_of header == chunk_size)
      then err Error.aead
      else then_ok (blob_wrap_aad blob_id version (nonce_prefix_of header) chunk_size_be)
          (λ wrap_aad.
            then_ok (unwrap_data_key (wrapped_of header) wrapping_key wrap_aad)
              (λ data_key. ok (stream.decryptor data_key (nonce_prefix_of header))))

  unfoldable pub decrypt_chunked : Bytes → Bytes → Bytes → Result Bytes
  decrypt_chunked framed wrapping_key blob_id = then_ok (blob_segment_aad blob_id) (λ seg_aad.
      if ltb (length framed) header_len
      then err Error.aead
      else then_ok (open_header framed wrapping_key blob_id)
          (λ dec. decrypt_body (chunk_size_of framed + 16) (drop header_len framed) dec seg_aad))
