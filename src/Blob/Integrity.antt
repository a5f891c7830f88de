-- ===== src/Blob/Integrity.antt =====
-- A frame that opens is the frame that was encrypted.
use mathlib.Core.Bool.{false≢true}
use filum_crypto.Prelude.{
  to_be_bytes, bytes_cases, ℕ, ◌+◌, ◌/◌, ◌≤◌, Bytes, AllBytes, AllBytes-take, AllBytes-drop, length,
  take, drop, length-take, length-drop, take-append-drop, drop-drop, take-append_at, drop-append_at,
  some, to_be_bytes-from_be_bytes, ◌==◌, ==_iff, ◌++◌, ◌∷◌, [], ◌≡◌, ◌≢◌, refl, ap, ◌∙◌, sym, ok,
  then_ok-eq_ok, ◌⊎◌, inl, inr, Bool-cases, arith,
}
use filum_crypto.External.{Backend, IsBackend}
use filum_crypto.Aad.{blob_segment_aad, blob_wrap_aad}
use filum_crypto.Aad.Layout.{IsContext, blob_segment_aad_inv}
use filum_crypto.Blob.{
  write_header, version, header_len, chunk_size, chunk_size_be, first_byte, wrapped_of,
  nonce_prefix_of, chunk_size_of, decrypt_body, encrypt_chunked, decrypt_chunked,
}
use filum_crypto.Blob.Segments.{seal, unseal}
use filum_crypto.Blob.Segments.Memory.{decrypt_body-unseal, decrypt_body-nil}
use filum_crypto.Blob.Segments.Integrity.{SegmentForgery, unseal-intact}
use filum_crypto.Blob.Frame.{header_tail, write_header-append, HasHeader, decrypt_chunked-HasHeader}
use filum_crypto.Blob.Sealed.{Sealed, IsPrepared-HasHeader, encrypt_chunked-Sealed}
use filum_crypto.Blob.RoundTrip.{unwrap_header-IsPrepared, Paired-IsPrepared}
use filum_crypto.Blob.Rejects.{decrypt_chunked_rejects}
use filum_crypto.Blob.Binding.{
  WrapForgery, wrap_nonce_of, wrap_ct_of, decrypt_chunked_inv, accepted-WrapForgery,
}

-- A frame from its fields.
split_header :
    (framed : Bytes)
    → header_len ≤ length framed
    → framed
      ≡ first_byte framed
        ∷ (wrapped_of framed
            ++ (nonce_prefix_of framed ++ (take 4 (drop 68 framed) ++ drop header_len framed)))
split_header [] h = absurd (omega arith)
split_header (b ∷ bs) h =
    ap (λ k. b ∷ k)
      (sym (take-append-drop 60 bs)
        ∙ ap (λ k. take 60 bs ++ k)
            (sym (take-append-drop 7 (drop 60 bs))
              ∙ ap (λ k. take 7 (drop 60 bs) ++ k)
                  (drop-drop 7 60 bs
                    ∙ sym (take-append-drop 4 (drop 67 bs))
                    ∙ ap (λ k. take 4 (drop 67 bs) ++ k) (drop-drop 4 67 bs))))

-- A frame of bytes is determined by what the decoders read in it.
HasHeader-form : (f w p b : Bytes) → AllBytes f → HasHeader f w p b → f ≡ write_header [] w p ++ b
unfolding header_tail
HasHeader-form f w p b bytes h =
    let long : header_len ≤ length f = omega (arith, h.total) in
    let cut : length (take 4 (drop 68 f)) ≡ 4 =
      omega (arith, length-take 4 (drop 68 f), length-drop 68 f, long) in
    let size : take 4 (drop 68 f) ≡ chunk_size_be =
      sym (
        to_be_bytes-from_be_bytes (take 4 (drop 68 f)) cut
          (AllBytes-take 4 (drop 68 f) (AllBytes-drop 68 f bytes)))
      ∙ ap to_be_bytes h.size in
    split_header f long
    ∙ ap
        (λ v.
          v ∷ (wrapped_of f ++ (nonce_prefix_of f ++ (take 4 (drop 68 f) ++ drop header_len f))))
        h.version_byte
    ∙ ap (λ k. version ∷ (k ++ (nonce_prefix_of f ++ (take 4 (drop 68 f) ++ drop header_len f))))
        h.wrapped_key
    ∙ ap (λ k. version ∷ (w ++ (k ++ (take 4 (drop 68 f) ++ drop header_len f)))) h.prefix
    ∙ ap (λ k. version ∷ (w ++ (p ++ (k ++ drop header_len f)))) size
    ∙ ap (λ k. version ∷ (w ++ (p ++ (chunk_size_be ++ k)))) h.rest
    ∙ sym (write_header-append w p b)

-- The decoder accepts a body, under the data key that the header of an encrypted frame carries, that
-- has at some segment what the encryption did not write there: a forgery against STREAM.
pub record BodyForgery (B : Backend) (plaintext key id framed other : Bytes) : Type 0 where
  pub data_key : Bytes
  pub wrap_aad : Bytes
  pub seg_aad : Bytes
  pub count : ℕ
  pub wrap : blob_wrap_aad id version (nonce_prefix_of framed) chunk_size_be ≡ ok wrap_aad
  pub wrapped :
      B.aead.encrypt key (wrap_nonce_of framed) wrap_aad data_key ≡ some (wrap_ct_of framed)
  pub segment : blob_segment_aad id ≡ ok seg_aad
  pub sealed :
      seal B.stream chunk_size
        (length plaintext / chunk_size)
        (B.stream.encryptor data_key (nonce_prefix_of framed))
        seg_aad
        plaintext
      ≡ ok (drop header_len framed)
  pub accepted :
      SegmentForgery B.stream seg_aad chunk_size
        (length plaintext / chunk_size)
        count
        (B.stream.encryptor data_key (nonce_prefix_of framed))
        (B.stream.decryptor data_key (nonce_prefix_of framed))
        plaintext
        (drop header_len other)

module _ (B : Backend) where
  open B use {stream}

  accepted_id :
      (framed key id : Bytes) {msg : Bytes}
      → decrypt_chunked B framed key id ≡ ok msg
      → IsContext id
  unfolding decrypt_chunked
  accepted_id framed key id e =
      let (aad, ea, _) = then_ok-eq_ok (blob_segment_aad id) _ e in (blob_segment_aad_inv id ea).0

  -- What a frame that opens has in its header.
  accepted_header :
      (framed key id : Bytes) {msg : Bytes}
      → decrypt_chunked B framed key id ≡ ok msg
      → HasHeader framed (wrapped_of framed) (nonce_prefix_of framed) (drop header_len framed)
  accepted_header framed key id {msg} e = record {
    version_byte = elim (Bool-cases (first_byte framed == version)) [
      | inl t ↦ (==_iff _ _).0 t
      | inr f ↦ absurd (refused (inl (λ q. false≢true (sym f ∙ (==_iff _ _).1 q))))
    ];
    wrapped_key = refl;
    prefix = refl;
    size = elim (Bool-cases (chunk_size_of framed == chunk_size)) [
      | inl t ↦ (==_iff _ _).0 t
      | inr f ↦ absurd (refused (inr (λ q. false≢true (sym f ∙ (==_iff _ _).1 q))))
    ];
    rest = refl;
    total = omega (arith, (decrypt_chunked_inv B framed key id e).0, length-drop header_len framed);
  }
    where
      refused : ((first_byte framed ≢ version) ⊎ (chunk_size_of framed ≢ chunk_size)) → ⊥
      refused n =
          cc (
            sym (decrypt_chunked_rejects B framed key id (accepted_id framed key id e) (inr n)) ∙ e)

  -- The body of a frame is read as segments, however long it is.
  decrypt_body-segments :
      (body : Bytes) (dec : stream.Decryptor) (aad msg : Bytes)
      → decrypt_body B (chunk_size + 16) body dec aad ≡ ok msg
      → (n : ℕ) × (unseal stream (chunk_size + 16) n dec aad body ≡ ok msg)
  decrypt_body-segments [] dec aad msg e =
      absurd (cc (sym (decrypt_body-nil B (chunk_size + 16) dec aad) ∙ e))
  decrypt_body-segments (b ∷ bs) dec aad msg e = (
    length bs / (chunk_size + 16),
    sym (
          decrypt_body-unseal B (chunk_size + 16) (length bs / (chunk_size + 16)) (b ∷ bs) dec aad
            (omega arith) (omega arith) (omega arith))
        ∙ e,
  )

  -- With the header of an encrypted frame, a body that opens is the one that was encrypted.
  body_intact :
      (L : IsBackend B) (plaintext key id framed other msg : Bytes)
      → Sealed B plaintext key id framed
      → AllBytes other
      → wrapped_of other ≡ wrapped_of framed
      → nonce_prefix_of other ≡ nonce_prefix_of framed
      → decrypt_chunked B other key id ≡ ok msg
      → ((other ≡ framed) × (msg ≡ plaintext)) ⊎ BodyForgery B plaintext key id framed other
  body_intact L plaintext key id framed other msg s bytes same_key same_prefix e =
      let p = s.prepared in
      let i = s.is_prepared in
      let w = i.wrap_iv ++ i.wrapped_ct in
      let hf : HasHeader framed w i.nonce_prefix s.body =
        rw s.frame (IsPrepared-HasHeader B key id s.body p i) in
      let ho = accepted_header other key id e in
      let h : HasHeader other w i.nonce_prefix (drop header_len other) = record {
        version_byte = ho.version_byte;
        wrapped_key = same_key ∙ hf.wrapped_key;
        prefix = same_prefix ∙ hf.prefix;
        size = ho.size;
        rest = refl;
        total = ho.total;
      } in
      let (n, u) =
        decrypt_body-segments (drop header_len other) (stream.decryptor i.data_key i.nonce_prefix)
          p.seg_aad msg
          (rw (i.segment, unwrap_header-IsPrepared B L key id p i) at
            (sym (
                decrypt_chunked-HasHeader B other w i.nonce_prefix (drop header_len other) key id h)
              ∙ e)) in
      elim (unseal-intact stream L.stream p.seg_aad chunk_size (length plaintext / chunk_size) n
        p.enc (stream.decryptor i.data_key i.nonce_prefix) plaintext s.body (drop header_len other)
        msg (Paired-IsPrepared B L key id p i) (omega arith) s.segments u) [
          | inr f ↦ inr (record {
            data_key = i.data_key;
            wrap_aad = i.wrap_aad;
            seg_aad = p.seg_aad;
            count = n;
            wrap = rw hf.prefix i.wrap;
            wrapped =
                rw
                  (
                    hf.wrapped_key,
                    take-append_at 12 i.wrap_iv i.wrapped_ct i.iv_length,
                    drop-append_at 12 i.wrap_iv i.wrapped_ct i.iv_length,
                  )
                  i.encrypted;
            segment = i.segment;
            sealed = rw (hf.prefix, hf.rest, ← i.encryptor) s.segments;
            accepted = rw (hf.prefix, ← i.encryptor) f;
          })
          | inl (eb, em) ↦ inl (
            HasHeader-form other w i.nonce_prefix (drop header_len other) bytes h
                ∙ ap (λ k. write_header [] w i.nonce_prefix ++ k) eb
                ∙ ap (λ k. k ++ s.body) (sym i.header)
                ∙ sym s.frame,
            em,
          )
        ]

-- A frame of bytes that carries the wrapped key of an encrypted frame and opens under some identifier
-- is that very frame, opened for its own identifier and to its own plaintext. The only other outcomes
-- are a forgery against AES-GCM on the wrapped key, or one against the STREAM construction at some
-- segment: an altered one, a body that was cut, or one that was extended. The crates meet their laws.
pub decrypt_chunked-intact :
    (B : Backend) (L : IsBackend B) (plaintext key id framed other id' msg : Bytes)
    (s t : B.rng.State)
    → encrypt_chunked B plaintext key id s ≡ (ok framed, t)
    → AllBytes other
    → wrapped_of other ≡ wrapped_of framed
    → decrypt_chunked B other key id' ≡ ok msg
    → ((other ≡ framed) × (id' ≡ id) × (msg ≡ plaintext))
      ⊎ (WrapForgery B key framed ⊎ BodyForgery B plaintext key id framed other)
decrypt_chunked-intact B L plaintext key id framed other id' msg s t enc bytes same e =
    let sealed = encrypt_chunked-Sealed B L.rng plaintext key id s t enc in
    let forged = λ (moved : (id' ≢ id) ⊎ (nonce_prefix_of other ≢ nonce_prefix_of framed)).
      accepted-WrapForgery B plaintext key id framed other id' sealed same moved e in
    elim (bytes_cases id' id) [
      | inr n ↦ inr (inl (forged (inl n)))
      | inl ids ↦ elim (bytes_cases (nonce_prefix_of other) (nonce_prefix_of framed)) [
        | inr n ↦ inr (inl (forged (inr n)))
        | inl prefixes ↦
            elim (body_intact B L plaintext key id framed other msg sealed bytes same prefixes
              (ap (λ k. decrypt_chunked B other key k) (sym ids) ∙ e)) [
                | inl (eo, em) ↦ inl (eo, ids, em)
                | inr f ↦ inr (inr f)
              ]
      ]
    ]
