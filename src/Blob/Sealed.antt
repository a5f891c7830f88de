-- ===== src/Blob/Sealed.antt =====
-- What a successful encryption has put into a frame, for both encoders.
use filum_crypto.Prelude.{
  ℕ, ◌+◌, ◌*◌, ◌/◌, ◌≤◌, Bytes, length, length-append, ◌++◌, [], ◌≡◌, ap, ◌∙◌, sym, Result, ok,
  then_ok-eq_ok, ok-injective, continue-eq_ok, lift, some, arith,
}
use filum_crypto.External.{Backend, IsRng, IsStream}
use filum_crypto.Aad.{blob_segment_aad, blob_wrap_aad}
use filum_crypto.Blob.{
  version, chunk_size, chunk_size_be, write_header, random, wrap_data_key, encrypt_body, Prepared,
  prepare, encrypt_chunked,
}
use filum_crypto.Blob.Segments.{seal}
use filum_crypto.Blob.Segments.Memory.{encrypt_body-seal}
use filum_crypto.Blob.Segments.RoundTrip.{length-seal}
use filum_crypto.Blob.Key.{length-random, wrap_data_key_inv}
use filum_crypto.Blob.Frame.{HasHeader, write_header-HasHeader}

-- What `prepare` returns for a wrapping key and a blob identifier.
pub record IsPrepared (B : Backend) (key id : Bytes) (p : Prepared B) : Type 0 where
  pub data_key : Bytes
  pub nonce_prefix : Bytes
  pub wrap_aad : Bytes
  pub wrap_iv : Bytes
  pub wrapped_ct : Bytes
  pub segment : blob_segment_aad id ≡ ok p.seg_aad
  pub wrap : blob_wrap_aad id version nonce_prefix chunk_size_be ≡ ok wrap_aad
  pub data_key_length : length data_key ≡ 32
  pub prefix_length : length nonce_prefix ≡ 7
  pub iv_length : length wrap_iv ≡ 12
  pub ct_length : length wrapped_ct ≡ 48
  pub encrypted : B.aead.encrypt key wrap_iv wrap_aad data_key ≡ some wrapped_ct
  pub encryptor : p.enc ≡ B.stream.encryptor data_key nonce_prefix
  pub header : p.header ≡ write_header [] (wrap_iv ++ wrapped_ct) nonce_prefix

-- A frame that an encryption of `plaintext` under `key` for `id` may write: the header, then the
-- segments.
pub record Sealed (B : Backend) (plaintext key id framed : Bytes) : Type 0 where
  pub prepared : Prepared B
  pub is_prepared : IsPrepared B key id prepared
  pub body : Bytes
  pub segments :
      seal B.stream chunk_size
        (length plaintext / chunk_size)
        prepared.enc
        prepared.seg_aad
        plaintext
      ≡ ok body
  pub frame : framed ≡ prepared.header ++ body

module _ (B : Backend) where
  open B use {rng, stream}

  pub IsPrepared-HasHeader :
      (key id body : Bytes) (p : Prepared B)
      → (i : IsPrepared B key id p)
      → HasHeader (p.header ++ body) (i.wrap_iv ++ i.wrapped_ct) i.nonce_prefix body
  IsPrepared-HasHeader key id body p i = rw i.header (
      write_header-HasHeader (i.wrap_iv ++ i.wrapped_ct) i.nonce_prefix body
        (omega (arith, length-append i.wrap_iv i.wrapped_ct, i.iv_length, i.ct_length))
        i.prefix_length)

  pub prepare-IsPrepared :
      IsRng rng
      → (key id : Bytes) (s t : rng.State) (p : Prepared B) → prepare B key id s ≡ (ok p, t)
      → IsPrepared B key id p
  unfolding prepare
  prepare-IsPrepared R key id s t p e =
      let (seg_aad, s1, e1, f1) = continue-eq_ok (lift (blob_segment_aad id) s) _ e in
      let (data_key, s2, e2, f2) = continue-eq_ok (random B 32 s1) _ f1 in
      let (nonce_prefix, s3, e3, f3) = continue-eq_ok (random B 7 s2) _ f2 in
      let (wrap_aad, s4, e4, f4) =
        continue-eq_ok (lift (blob_wrap_aad id version nonce_prefix chunk_size_be) s3) _ f3 in
      let (wrapped, s5, e5, f5) = continue-eq_ok (wrap_data_key B data_key key wrap_aad s4) _ f4 in
      let (iv, ct, ei, ee, ew, el) = wrap_data_key_inv B data_key key wrap_aad s4 s5 e5 in
      let q = ok-injective (ap (λ (x : Result (Prepared B) × rng.State). x.0) f5) in
      record {
        data_key = data_key;
        nonce_prefix = nonce_prefix;
        wrap_aad = wrap_aad;
        wrap_iv = iv;
        wrapped_ct = ct;
        segment =
            ap (λ (x : Result Bytes × rng.State). x.0) e1 ∙ ap (λ (r : Prepared B). ok r.seg_aad) q;
        wrap = ap (λ (x : Result Bytes × rng.State). x.0) e4;
        data_key_length = length-random B R 32 s1 s2 e2;
        prefix_length = length-random B R 7 s2 s3 e3;
        iv_length = length-random B R 12 s4 s5 ei;
        ct_length = el;
        encrypted = ee;
        encryptor = ap (λ (r : Prepared B). r.enc) (sym q);
        header =
            ap (λ (r : Prepared B). r.header) (sym q) ∙ ap (λ k. write_header [] k nonce_prefix) ew;
      }

  -- Every frame that `encrypt_chunked` returns has the header and the segments of its input.
  pub encrypt_chunked-Sealed :
      IsRng rng
      → (plaintext key id : Bytes) (s t : rng.State) {framed : Bytes}
      → encrypt_chunked B plaintext key id s ≡ (ok framed, t)
      → Sealed B plaintext key id framed
  unfolding encrypt_chunked
  encrypt_chunked-Sealed R plaintext key id s t {framed} e =
      let (p, s1, e1, f1) = continue-eq_ok (prepare B key id s) _ e in
      let whole : encrypt_body B plaintext p.enc p.seg_aad p.header ≡ ok framed =
        ap (λ (x : Result Bytes × rng.State). x.0) f1 in
      let (body, eb, ef) =
        then_ok-eq_ok _ _ (sym (encrypt_body-seal B plaintext p.enc p.seg_aad p.header) ∙ whole) in
      record {
        prepared = p;
        is_prepared = prepare-IsPrepared R key id s s1 p e1;
        body = body;
        segments = eb;
        frame = sym (ok-injective ef);
      }

  full_chunks_bound : (n : ℕ) → n / chunk_size * chunk_size ≤ n
  full_chunks_bound n = omega arith

  -- A frame is longer than its plaintext by the header of 72 bytes and by 16 bytes for each
  -- segment, of which there is one for each full chunk, and the last one.
  pub length-Sealed :
      IsStream stream
      → (plaintext key id framed : Bytes) → Sealed B plaintext key id framed
      → length framed ≡ 72 + length plaintext + 16 * (length plaintext / chunk_size + 1)
  length-Sealed S plaintext key id framed s =
      let h = IsPrepared-HasHeader key id s.body s.prepared s.is_prepared in
      omega (
        arith,
        ap (λ (k : Bytes). length k) s.frame,
        h.total,
        length-seal stream S chunk_size (length plaintext / chunk_size) _ _ plaintext
            (full_chunks_bound (length plaintext)) s.segments,
      )
