-- ===== src/Blob/Binding.antt =====
-- A wrapped key is bound to its blob identifier and its nonce prefix.
use filum_crypto.Prelude.{
  ◌≤◌, Bytes, length, take, drop, length-take, length-drop, take-append_at, drop-append_at, ltb,
  ltb→le, ◌==◌, ◌++◌, ◌≡◌, ◌≢◌, ap, ◌∙◌, sym, ok, err, Error, then_ok-eq_ok, some, ◌⊎◌, inl, inr,
  Bool-cases, Result-cases, arith,
}
use filum_crypto.External.{Backend, IsRng}
use filum_crypto.Aad.{blob_segment_aad, blob_wrap_aad}
use filum_crypto.Aad.Layout.{IsContext}
use filum_crypto.Aad.Injective.{blob_wrap_aad-injective}
use filum_crypto.Blob.{
  version, header_len, chunk_size, chunk_size_be, first_byte, wrapped_of, nonce_prefix_of,
  chunk_size_of, unwrap_data_key, open_header, encrypt_chunked, decrypt_chunked,
}
use filum_crypto.Blob.Key.{unwrap_data_key_inv}
use filum_crypto.Blob.Frame.{HasHeader}
use filum_crypto.Blob.Sealed.{Sealed, IsPrepared-HasHeader, encrypt_chunked-Sealed}
use filum_crypto.Blob.Rejects.{decrypt_chunked-OnlyAead}

-- The nonce and the ciphertext of the wrapped key in a frame.
abbrev pub wrap_nonce_of : Bytes → Bytes
wrap_nonce_of framed = take 12 (wrapped_of framed)

abbrev pub wrap_ct_of : Bytes → Bytes
wrap_ct_of framed = drop 12 (wrapped_of framed)

-- AES-GCM has accepted the wrapped key of a frame, which it made under some associated data, under
-- other associated data: a forgery.
pub record WrapForgery (B : Backend) (key framed : Bytes) : Type 0 where
  pub made_for : Bytes
  pub accepted_for : Bytes
  pub wrapped_msg : Bytes
  pub opened_msg : Bytes
  pub differ : accepted_for ≢ made_for
  pub made :
      B.aead.encrypt key (wrap_nonce_of framed) made_for wrapped_msg ≡ some (wrap_ct_of framed)
  pub accepted :
      B.aead.decrypt key (wrap_nonce_of framed) accepted_for (wrap_ct_of framed) ≡ some opened_msg

module _ (B : Backend) where
  open B use {rng, stream}

  open_header_inv :
      (header key id : Bytes) {dec : stream.Decryptor}
      → open_header B header key id ≡ ok dec
      → (aad data_key : Bytes) × (blob_wrap_aad id version (nonce_prefix_of header) chunk_size_be
          ≡ ok aad)
        × (unwrap_data_key B (wrapped_of header) key aad ≡ ok data_key)
  unfolding open_header
  open_header_inv header key id e = elim (Bool-cases (first_byte header == version)) [
    | inr f ↦ absurd (cc (rw (f, open_header) at e))
    | inl t ↦ elim (Bool-cases (chunk_size_of header == chunk_size)) [
      | inr f ↦ absurd (cc (rw (t, f, open_header) at e))
      | inl u ↦
          let (aad, ea, e') = then_ok-eq_ok _ _ (rw (t, u, open_header) at e) in
          let (data_key, ek, _) = then_ok-eq_ok _ _ e' in (aad, data_key, ea, ek)
    ]
  ]

  pub decrypt_chunked_inv :
      (framed key id : Bytes) {msg : Bytes}
      → decrypt_chunked B framed key id ≡ ok msg
      → (header_len ≤ length framed)
        × (dec : stream.Decryptor) × (open_header B framed key id ≡ ok dec)
  unfolding decrypt_chunked
  decrypt_chunked_inv framed key id e =
      let (aad, _, e') = then_ok-eq_ok (blob_segment_aad id) _ e in
      elim (Bool-cases (ltb (length framed) header_len)) [
        | inl t ↦ absurd (cc (rw t at e'))
        | inr f ↦
            let (dec, eo, _) = then_ok-eq_ok (open_header B framed key id) _ (rw f at e') in
            (ltb→le _ _ f, dec, eo)
      ]

  length-nonce_prefix_of :
      (framed : Bytes) → header_len ≤ length framed → length (nonce_prefix_of framed) ≡ 7
  length-nonce_prefix_of framed h =
      omega (arith, length-take 7 (drop 61 framed), length-drop 61 framed)

  not_moved : {A C : Type 0} {a b : A} {c d : C} → (a ≢ b) ⊎ (c ≢ d) → a ≡ b → c ≡ d → ⊥
  not_moved (inl n) p q = n p
  not_moved (inr n) p q = n q

  -- A wrapped key that another frame carries, or that is read for another identifier, is a forgery
  -- if the decoder accepts it.
  pub accepted-WrapForgery :
      (plaintext key id framed other id' : Bytes) {msg : Bytes}
      → Sealed B plaintext key id framed
      → wrapped_of other ≡ wrapped_of framed
      → (id' ≢ id) ⊎ (nonce_prefix_of other ≢ nonce_prefix_of framed)
      → decrypt_chunked B other key id' ≡ ok msg
      → WrapForgery B key framed
  accepted-WrapForgery plaintext key id framed other id' s same moved e =
      let i = s.is_prepared in
      let h : HasHeader framed (i.wrap_iv ++ i.wrapped_ct) i.nonce_prefix s.body =
        rw s.frame (IsPrepared-HasHeader B key id s.body s.prepared i) in
      let (long, dec, eo) = decrypt_chunked_inv other key id' e in
      let (aad, data_key, ea, ek) = open_header_inv other key id' eo in
      let (_, _, ed) = unwrap_data_key_inv B (wrapped_of other) key aad ek in
      let nonce : wrap_nonce_of framed ≡ i.wrap_iv =
        ap (take 12) h.wrapped_key ∙ take-append_at 12 i.wrap_iv i.wrapped_ct i.iv_length in
      let ct : wrap_ct_of framed ≡ i.wrapped_ct =
        ap (drop 12) h.wrapped_key ∙ drop-append_at 12 i.wrap_iv i.wrapped_ct i.iv_length in
      record {
        made_for = i.wrap_aad;
        accepted_for = aad;
        wrapped_msg = i.data_key;
        opened_msg = data_key;
        differ = λ q.
            let (ids, _, prefixes, _) =
              blob_wrap_aad-injective id' id version version (nonce_prefix_of other) i.nonce_prefix
                chunk_size_be chunk_size_be
                (length-nonce_prefix_of other long ∙ sym i.prefix_length) ea
                (i.wrap ∙ ap ok (sym q)) in
            not_moved moved ids (prefixes ∙ sym h.prefix);
        made = rw (nonce, ct) i.encrypted;
        accepted = rw same at ed;
      }

  -- A frame that carries the wrapped key of an encrypted frame is refused with `Aead` if it is read
  -- for another blob identifier, itself an accepted one, or has another nonce prefix; the only other
  -- outcome is a forgery against AES-GCM on that very wrapped key. The random source fills the
  -- length that it is asked for.
  pub encrypt_chunked_bound :
      IsRng rng
      → (plaintext key id framed other id' : Bytes) (s t : rng.State)
      → encrypt_chunked B plaintext key id s ≡ (ok framed, t)
      → IsContext id'
      → wrapped_of other ≡ wrapped_of framed
      → (id' ≢ id) ⊎ (nonce_prefix_of other ≢ nonce_prefix_of framed)
      → (decrypt_chunked B other key id' ≡ err Error.aead) ⊎ WrapForgery B key framed
  encrypt_chunked_bound R plaintext key id framed other id' s t e c same moved =
      elim (Result-cases (decrypt_chunked B other key id')) [
        | inl (msg, h) ↦ inr (
            accepted-WrapForgery plaintext key id framed other id'
              (encrypt_chunked-Sealed B R plaintext key id s t e) same moved h)
        | inr (x, h) ↦ inl (h ∙ ap err (decrypt_chunked-OnlyAead B other key id' c x h))
      ]
