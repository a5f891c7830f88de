-- ===== src/Blob/Rejects.antt =====
-- What the codec in memory refuses, and with which error.
use filum_crypto.Prelude.{
  ℕ, ◌<◌, Bytes, length, drop, ltb, lt→ltb, ◌==◌, ==_ne, List, [], ◌∷◌, ◌++◌, ◌≡◌, ◌≢◌, refl,
  Result, ok, err, Error, then_ok, ◌⊎◌, inl, inr, Bool-cases, Option-cases, arith,
}
use filum_crypto.External.{Backend}
use filum_crypto.Aad.Layout.{
  IsContext, blob_segment_aad_accepts, blob_segment_aad_refuses, blob_wrap_aad_accepts,
}
use filum_crypto.Blob.{
  version, header_len, chunk_size, first_byte, chunk_size_of, chunk_size_be, nonce_prefix_of,
  wrapped_of, chunks, decrypt_segments, decrypt_body, unwrap_data_key, open_header, prepare,
  encrypt_chunked, decrypt_chunked,
}

-- A result whose only error is `Aead`.
abbrev pub OnlyAead : {A : Type 0} → Result A → Type 0
OnlyAead r = (e : Error) → r ≡ err e → e ≡ Error.aead

module _ (B : Backend) where
  open B use {rng, stream}

  decrypt_segments-OnlyAead :
      (cs : List Bytes) (dec : stream.Decryptor) (aad out : Bytes)
      → OnlyAead (decrypt_segments B cs dec aad out)
  unfolding decrypt_segments
  decrypt_segments-OnlyAead [] dec aad out e h = cc
  decrypt_segments-OnlyAead (c ∷ []) dec aad out e h = ground arith
  decrypt_segments-OnlyAead (c ∷ (c' ∷ cs)) dec aad out e h =
      elim (Option-cases (stream.decrypt_next dec aad c)) [
        | inl n ↦ cc (rw (n, decrypt_segments) at h)
        | inr ((msg, dec'), n) ↦
            decrypt_segments-OnlyAead (c' ∷ cs) dec' aad (out ++ msg) e (rw n at h)
      ]

  decrypt_body-OnlyAead :
      (size : ℕ) (body : Bytes) (dec : stream.Decryptor) (aad : Bytes)
      → OnlyAead (decrypt_body B size body dec aad)
  unfolding decrypt_body
  decrypt_body-OnlyAead size body dec aad e h = by_chunks (chunks size body) h
    where
      by_chunks :
          (cs : List Bytes)
          → (elim cs as (λ _. Result Bytes) [
            | [] ↦ err Error.aead
            | c ∷ rest ↦ decrypt_segments B (c ∷ rest) dec aad []
          ])
            ≡ err e
          → e ≡ Error.aead
      by_chunks [] k = cc
      by_chunks (c ∷ rest) k = decrypt_segments-OnlyAead (c ∷ rest) dec aad [] e k

  unwrap_data_key-OnlyAead :
      (wrapped key aad : Bytes) → OnlyAead (unwrap_data_key B wrapped key aad)
  unfolding unwrap_data_key
  unwrap_data_key-OnlyAead wrapped key aad e h = ground arith

  pub then_ok-OnlyAead :
      {A C : Type 0} (r : Result A) (f : A → Result C)
      → OnlyAead r
      → ((a : A) → r ≡ ok a → OnlyAead (f a))
      → OnlyAead (then_ok r f)
  then_ok-OnlyAead (ok a) f hr hf e h = hf a refl e h
  then_ok-OnlyAead (err x) f hr hf e h = hr e (cc h)

  pub open_header-OnlyAead :
      (header key id : Bytes) → IsContext id → OnlyAead (open_header B header key id)
  unfolding open_header
  open_header-OnlyAead header key id c e h = elim (Bool-cases (first_byte header == version)) [
    | inr f ↦ cc (rw (f, open_header) at h)
    | inl t ↦ elim (Bool-cases (chunk_size_of header == chunk_size)) [
      | inr f ↦ cc (rw (t, f, open_header) at h)
      | inl u ↦
          let opened =
            rw
              (
                t,
                u,
                blob_wrap_aad_accepts id version (nonce_prefix_of header) chunk_size_be c,
                open_header,
              )
              at h in
          then_ok-OnlyAead (unwrap_data_key B (wrapped_of header) key _) _
            (unwrap_data_key-OnlyAead _ key _) (λ _ _ e' k. cc k) e opened
    ]
  ]

  -- `open_header` refuses another version or chunk size, whatever the key and the crates.
  pub open_header_rejects :
      (header key id : Bytes)
      → (first_byte header ≢ version) ⊎ (chunk_size_of header ≢ chunk_size)
      → open_header B header key id ≡ err Error.aead
  unfolding open_header
  open_header_rejects header key id (inl n) = rw (==_ne _ _ n)
  open_header_rejects header key id (inr n) = elim (Bool-cases (first_byte header == version)) [
    | inr f ↦ rw f
    | inl t ↦ rw (t, ==_ne _ _ n)
  ]

  -- `decrypt_chunked` refuses a frame that is shorter than a header, or that has another version or
  -- chunk size, with `Aead`, whatever the key and the crates.
  pub decrypt_chunked_rejects :
      (framed key id : Bytes)
      → IsContext id
      → (length framed < header_len)
        ⊎ ((first_byte framed ≢ version) ⊎ (chunk_size_of framed ≢ chunk_size))
      → decrypt_chunked B framed key id ≡ err Error.aead
  unfolding decrypt_chunked
  decrypt_chunked_rejects framed key id c (inl short) =
      rw (blob_segment_aad_accepts id c, lt→ltb _ _ short)
  decrypt_chunked_rejects framed key id c (inr n) =
      elim (Bool-cases (ltb (length framed) header_len)) [
        | inl t ↦ rw (blob_segment_aad_accepts id c, t)
        | inr f ↦ rw (blob_segment_aad_accepts id c, f, open_header_rejects framed key id n)
      ]

  -- With an accepted identifier the only error of `decrypt_chunked` is `Aead`.
  pub decrypt_chunked-OnlyAead :
      (framed key id : Bytes) → IsContext id → OnlyAead (decrypt_chunked B framed key id)
  unfolding decrypt_chunked
  decrypt_chunked-OnlyAead framed key id c e h =
      elim (Bool-cases (ltb (length framed) header_len)) [
        | inl t ↦ cc (rw (blob_segment_aad_accepts id c, t, decrypt_chunked) at h)
        | inr f ↦
            then_ok-OnlyAead (open_header B framed key id) _ (open_header-OnlyAead framed key id c)
              (λ dec _. decrypt_body-OnlyAead _ (drop header_len framed) dec _) e
              (rw (blob_segment_aad_accepts id c, f, decrypt_chunked) at h)
      ]

  -- With an accepted identifier the only error of `decrypt_chunked` is `Aead`, whatever the frame,
  -- the key and the crates.
  decrypt_chunked-err_aead :
      (framed key id : Bytes) (e : Error)
      → IsContext id
      → decrypt_chunked B framed key id ≡ err e
      → e ≡ Error.aead
  decrypt_chunked-err_aead framed key id e c h = decrypt_chunked-OnlyAead framed key id c e h

  -- An identifier that is empty or too long is refused by both directions with `InvalidContext`,
  -- whatever the other arguments, and before any randomness is drawn.
  chunked_refuses_context :
      (plaintext framed key id : Bytes) (s : rng.State)
      → ¬ IsContext id
      → (encrypt_chunked B plaintext key id s ≡ (err Error.invalid_context, s))
        × (decrypt_chunked B framed key id ≡ err Error.invalid_context)
  unfolding encrypt_chunked prepare decrypt_chunked
  chunked_refuses_context plaintext framed key id s n =
      (rw (blob_segment_aad_refuses id n), rw (blob_segment_aad_refuses id n))
