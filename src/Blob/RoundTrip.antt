-- ===== src/Blob/RoundTrip.antt =====
-- `decrypt_chunked` undoes `encrypt_chunked`, and encryption succeeds where the crates do.
use filum_crypto.Prelude.{ℕ, ◌+◌, ◌*◌, ◌/◌, ◌≤◌, ◌<◌, Bytes, length, ◌++◌, ◌≡◌, ok, arith}
use filum_crypto.External.{Backend, IsBackend}
use filum_crypto.Blob.{chunk_size, Prepared, encrypt_chunked, decrypt_chunked}
use filum_crypto.Blob.Segments.Memory.{decrypt_body-unseal}
use filum_crypto.Blob.Segments.RoundTrip.{length-seal, unseal-seal}
use filum_crypto.Blob.Key.{unwrap_data_key_accepts}
use filum_crypto.Blob.Frame.{unwrap_header, decrypt_chunked-HasHeader}
use filum_crypto.Blob.Sealed.{
  IsPrepared, Sealed, IsPrepared-HasHeader, encrypt_chunked-Sealed, length-Sealed,
}

module _ (B : Backend) (L : IsBackend B) where
  open B use {stream}

  -- The header of a frame opens under its key and identifier.
  pub unwrap_header-IsPrepared :
      (key id : Bytes) (p : Prepared B)
      → (i : IsPrepared B key id p)
      → unwrap_header B (i.wrap_iv ++ i.wrapped_ct) i.nonce_prefix key id
        ≡ ok (stream.decryptor i.data_key i.nonce_prefix)
  unwrap_header-IsPrepared key id p i = rw (
    i.wrap,
    unwrap_data_key_accepts B i.wrap_iv i.wrapped_ct key i.wrap_aad i.data_key i.iv_length
        i.ct_length i.data_key_length
        (L.aead.decrypt-encrypt key i.wrap_iv i.wrap_aad i.data_key i.encrypted),
  )

  pub Paired-IsPrepared :
      (key id : Bytes) (p : Prepared B)
      → (i : IsPrepared B key id p)
      → L.stream.Paired p.enc (stream.decryptor i.data_key i.nonce_prefix)
  Paired-IsPrepared key id p i = rw i.encryptor (L.stream.paired_start i.data_key i.nonce_prefix)

  full_chunks_fit :
      (n b : ℕ)
      → b ≡ n + 16 * (n / chunk_size + 1)
      → (n / chunk_size * (chunk_size + 16) < b) × (b ≤ (n / chunk_size + 1) * (chunk_size + 16))
  full_chunks_fit n b h = omega arith

  full_chunks_bound : (n : ℕ) → n / chunk_size * chunk_size ≤ n
  full_chunks_bound n = omega arith

  pub decrypt_chunked-Sealed :
      (plaintext key id framed : Bytes)
      → Sealed B plaintext key id framed
      → decrypt_chunked B framed key id ≡ ok plaintext
  decrypt_chunked-Sealed plaintext key id framed s =
      let p = s.prepared in
      let i = s.is_prepared in
      let full = length plaintext / chunk_size in
      let bound = full_chunks_bound (length plaintext) in
      let (lo, hi) =
        full_chunks_fit (length plaintext) (length s.body) (
          length-seal stream L.stream chunk_size full p.enc p.seg_aad plaintext bound s.segments) in
      rw
        (
          s.frame,
          decrypt_chunked-HasHeader B (p.header ++ s.body) _ _ s.body key id
              (IsPrepared-HasHeader B key id s.body p i),
          i.segment,
          unwrap_header-IsPrepared key id p i,
          decrypt_body-unseal B (chunk_size + 16) full s.body _ p.seg_aad (omega arith) lo hi,
        )
        (unseal-seal stream L.stream chunk_size full p.enc _ p.seg_aad plaintext
          (Paired-IsPrepared key id p i) bound s.segments)

  -- What `encrypt_chunked` returns, `decrypt_chunked` takes back to the plaintext, under the same
  -- key and the same blob identifier, if the crates meet their laws.
  pub decrypt_chunked-encrypt_chunked :
      (plaintext key id framed : Bytes) (s t : B.rng.State)
      → encrypt_chunked B plaintext key id s ≡ (ok framed, t)
      → decrypt_chunked B framed key id ≡ ok plaintext
  decrypt_chunked-encrypt_chunked plaintext key id framed s t e =
      decrypt_chunked-Sealed plaintext key id framed
        (encrypt_chunked-Sealed B L.rng plaintext key id s t e)

  -- What `encrypt_chunked` returns is longer than the plaintext by the header of 72 bytes and by a
  -- tag of 16 bytes for each full chunk and for the last segment, if the crates meet their laws.
  pub length-encrypt_chunked :
      (plaintext key id framed : Bytes) (s t : B.rng.State)
      → encrypt_chunked B plaintext key id s ≡ (ok framed, t)
      → length framed ≡ 72 + length plaintext + 16 * (length plaintext / chunk_size + 1)
  length-encrypt_chunked plaintext key id framed s t e =
      length-Sealed B L.stream plaintext key id framed
        (encrypt_chunked-Sealed B L.rng plaintext key id s t e)
