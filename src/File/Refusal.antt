-- ===== src/File/Refusal.antt =====
-- What `decrypt_file_chunked` does with an input whose header it does not take.
use filum_crypto.Prelude.{
  ◌≤◌, ◌<◌, Bytes, length, take, drop, inl, inr, ◌⊎◌, none, some, Bool-cases, ◌==◌, Result, ok, err,
  Error, ◌≡◌, ◌≢◌, ap, ◌∙◌, sym, arith,
}
use filum_crypto.External.{Backend}
use filum_crypto.Aad.{blob_wrap_aad}
use filum_crypto.Aad.Layout.{IsContext, blob_segment_aad_accepts, blob_wrap_aad_accepts}
use filum_crypto.Blob.{
  version, wrapped_key_len, header_len, chunk_size, chunk_size_be, first_byte, chunk_size_of,
  nonce_prefix_of, wrapped_of, unwrap_data_key, open_header,
}
use filum_crypto.Blob.Rejects.{open_header_rejects}
use filum_crypto.Io.{FilePath, World}
use filum_crypto.Io.Hoare.{Post, NoFaults, Keeps, IoError}
use filum_crypto.File.{decrypt_file_chunked}
use filum_crypto.File.Header.{header_lem}
use filum_crypto.File.Segments.{open_header_of_take}

module _ (B : Backend) (framed key id : Bytes) where
  -- AES-GCM does not open the wrapped key under this key, for this identifier and header.
  abbrev pub KeyRefused : Type 0
  KeyRefused =
      (aad : Bytes)
      → blob_wrap_aad id version (nonce_prefix_of framed) chunk_size_be ≡ ok aad
      → B.aead.decrypt key (take 12 (wrapped_of framed)) aad (drop 12 (wrapped_of framed)) ≡ none

  -- What is wrong with the header, and the error for it.
  pub data BadHeader (e : Error) : Type 0 where
    cut_short : length framed < header_len → e ≡ Error.io → BadHeader e
    other_format :
        header_len ≤ length framed
        → (first_byte framed ≢ version) ⊎ (chunk_size_of framed ≢ chunk_size)
        → e ≡ Error.aead
        → BadHeader e
    other_key : header_len ≤ length framed → KeyRefused → e ≡ Error.aead → BadHeader e

  unwrap_data_key_refuses :
      (wrapped aad : Bytes)
      → B.aead.decrypt key (take 12 wrapped) aad (drop 12 wrapped) ≡ none
      → unwrap_data_key B wrapped key aad ≡ err Error.aead
  unfolding unwrap_data_key
  unwrap_data_key_refuses wrapped aad e = elim (Bool-cases (length wrapped == wrapped_key_len)) [
    | inl t ↦ rw (t, e)
    | inr f ↦ rw f
  ]

  open_header_other_key : IsContext id → KeyRefused → open_header B framed key id ≡ err Error.aead
  unfolding open_header
  open_header_other_key c refuses =
      let accepts = blob_wrap_aad_accepts id version (nonce_prefix_of framed) chunk_size_be c in
      elim (Bool-cases (first_byte framed == version)) [
        | inr f ↦ rw f
        | inl t ↦ elim (Bool-cases (chunk_size_of framed == chunk_size)) [
          | inr f ↦ rw (t, f)
          | inl u ↦
              rw (t, u, accepts, unwrap_data_key_refuses (wrapped_of framed) _ (refuses _ accepts))
        ]
      ]

  open_header_bad :
      (e : Error)
      → IsContext id
      → header_len ≤ length framed
      → BadHeader e
      → (open_header B framed key id ≡ err Error.aead) × (e ≡ Error.aead)
  open_header_bad e c long (cut_short short x) = absurd (omega (arith, long, short))
  open_header_bad e c long (other_format _ n x) = (open_header_rejects B framed key id n, x)
  open_header_bad e c long (other_key _ refuses x) = (open_header_other_key c refuses, x)

  short_error : (e : Error) → length framed < header_len → BadHeader e → e ≡ Error.io
  short_error e short (cut_short _ x) = x
  short_error e short (other_format long _ _) = absurd (omega (arith, long, short))
  short_error e short (other_key long _ _) = absurd (omega (arith, long, short))

  module _ (input output : FilePath) where
    abbrev Refused : Error → World B → Error → World B → Type 0
    Refused e w x u = Keeps B w u × ((x ≡ e) ⊎ IoError B w x)

    refused :
        (e : Error) (w : World B)
        → IsContext id
        → w.files input ≡ some framed
        → BadHeader e
        → Post (decrypt_file_chunked B input output key id w) (λ _ _. ⊥) (Refused e w)
    unfolding decrypt_file_chunked
    refused e w c h bad = rw (blob_segment_aad_accepts id c) (
        header_lem B input framed _ (λ _ _. ⊥) (Refused e w) w h
          (λ x u k reason. (
            k,
            elim reason [
              | inl f ↦ inr f
              | inr (short, io) ↦ inl (io ∙ sym (short_error e short bad))
            ],
          ))
          (λ v k long.
            let (opens, is_aead) = open_header_bad e c long bad in
            rw (open_header_of_take B framed key id, opens, Post) (k, inl (sym is_aead))))

    -- Where the input is shorter than a header, has another version or another chunk size, or holds a
    -- wrapped key that AES-GCM does not open under the key for this identifier,
    -- `decrypt_file_chunked` fails, with `Io` if the input is too short and with `Aead` otherwise,
    -- or with `Io` by a fault of the system. In the end no file has changed, not even at temporary
    -- paths, nor has what is synced, and no randomness has been drawn. The identifier is an
    -- accepted one.
    pub decrypt_file_chunked_creates_nothing :
        (e : Error) (w : World B) (q : FilePath)
        → IsContext id
        → w.files input ≡ some framed
        → BadHeader e
        → let y = decrypt_file_chunked B input output key id w in
          ((y.0 ≡ err e) ⊎ ((y.0 ≡ err Error.io) × ¬ (NoFaults w.choices)))
          × (y.1.files q ≡ w.files q)
          × (y.1.unsynced q ≡ w.unsynced q)
          × (y.1.rng ≡ w.rng)
    decrypt_file_chunked_creates_nothing e w q c h bad =
        by_result (decrypt_file_chunked B input output key id w) (refused e w c h bad)
      where
        by_result :
            (y : Result (Unit {0}) × World B)
            → Post y (λ _ _. ⊥) (Refused e w)
            → ((y.0 ≡ err e) ⊎ ((y.0 ≡ err Error.io) × ¬ (NoFaults w.choices)))
              × (y.1.files q ≡ w.files q)
              × (y.1.unsynced q ≡ w.unsynced q)
              × (y.1.rng ≡ w.rng)
        by_result (ok _, u) p = absurd p
        by_result (err x, u) (k, reason) = (
          elim reason [ inl s ↦ inl (ap err s) | inr (s, f) ↦ inr (ap err s, f) ],
          k.files q,
          k.synced q,
          k.rng,
        )
