-- ===== src/File/Outcome.antt =====
-- `decrypt_file_chunked` from its first step on.
use mathlib.Core.Path.{subst}
use filum_crypto.Prelude.{
  ◌+◌, ◌≤◌, Bytes, length, take, drop, inl, inr, ◌⊎◌, none, some, Result-cases, ok, Error, then_ok,
  ◌>>=◌, lift, ◌≡◌, ap, ◌∙◌,
}
use filum_crypto.External.{Backend, IsStream}
use filum_crypto.Aad.{blob_segment_aad}
use filum_crypto.Blob.{header_len, chunk_size_of, decrypt_body, open_header, decrypt_chunked}
use filum_crypto.Io.{FilePath, World, Reader, Io, open_file}
use filum_crypto.Io.Hoare.{Post, Post-mono, Keeps, Keeps-refl}
use filum_crypto.File.{read_exact, decrypt_file_chunked}
use filum_crypto.File.Header.{header_lem}
use filum_crypto.File.TempPath.{IsTemp}
use filum_crypto.File.Segments.{chunk_size_of-take, open_header_of_take}
use filum_crypto.File.Decrypt.{ct_chunk, IoError-back}
use filum_crypto.File.Atomic.{
  Reason, system, refused, short_frame, whole_chunks, no_temp, open_header-chunk_size,
  decrypt_chunked_long, Decrypted, NotDecrypted, Intact-Keeps, start, finish, finish_lem,
}

module _ (B : Backend) (S : IsStream B.stream) (input output : FilePath)
    (temp_free : ¬ IsTemp output input) (framed key id : Bytes) where
  open B use {stream}

  -- What is said from a state on is said from an earlier one that only read files.
  Decrypted-back :
      (w v y : World B)
      → Keeps B w v
      → Decrypted B S input output temp_free framed key id v tt y
      → Decrypted B S input output temp_free framed key id w tt y
  Decrypted-back w v y k (a, b, (tmp, t, gone, others)) =
      (a, b, (tmp, t, gone, λ q n m. others q n m ∙ k.files q))

  Reason-back :
      (w v : World B) (e : Error)
      → Keeps B w v
      → Reason B output framed key id v e
      → Reason B output framed key id w e
  Reason-back w v e k (system f) = system (IoError-back B w v e k.calm f)
  Reason-back w v e k (refused h) = refused h
  Reason-back w v e k (short_frame h) = short_frame h
  Reason-back w v e k (whole_chunks h m) = whole_chunks h m
  Reason-back w v e k (no_temp h) =
      no_temp (subst (λ s. (output.file_name ≡ none) ⊎ ((B.rng.fill 8 s).0 ≡ none)) k.rng h)

  NotDecrypted-back :
      (w v : World B) (e : Error) (y : World B)
      → Keeps B w v
      → NotDecrypted B S input output temp_free framed key id v e y
      → NotDecrypted B S input output temp_free framed key id w e y
  NotDecrypted-back w v e y k ((others, temps), reason) = (
    (
      (λ q n. others q n ∙ k.files q),
      (λ calm q. elim (temps (k.calm calm) q) [ inl h ↦ inl (h ∙ k.files q) | inr h ↦ inr h ]),
    ),
    Reason-back w v e k reason,
  )

  kept_reason :
      (w v : World B) (e : Error)
      → Keeps B w v
      → Reason B output framed key id w e
      → NotDecrypted B S input output temp_free framed key id w e v
  kept_reason w v e k reason = (Intact-Keeps B S input output temp_free framed key id w v k, reason)

  module _ (aad : Bytes) (seg : blob_segment_aad id ≡ ok aad) where
    -- From the header on.
    abbrev behind : Bytes × Reader → Io B (Unit {0})
    behind (header, fin) = do
      dec ← lift (open_header B header key id)
      finish B S input output temp_free framed key id (chunk_size_of header + 16) aad fin dec

    behind_lem :
        (w v : World B)
        → w.files input ≡ some framed
        → Keeps B w v
        → header_len ≤ length framed
        → Post
            (behind (take header_len framed, start B S input output temp_free framed key id) v)
            (Decrypted B S input output temp_free framed key id w)
            (NotDecrypted B S input output temp_free framed key id w)
    behind_lem w v e k long = elim (Result-cases (open_header B framed key id)) [
      | inl (dec, h) ↦
          let size = chunk_size_of-take framed ∙ open_header-chunk_size B framed key id h in
          rw (open_header_of_take B framed key id, h, size)
            (Post-mono
              (finish B S input output temp_free framed key id ct_chunk aad
                (start B S input output temp_free framed key id) dec v)
              (Decrypted B S input output temp_free framed key id v)
              (Decrypted B S input output temp_free framed key id w)
              (NotDecrypted B S input output temp_free framed key id v)
              (NotDecrypted B S input output temp_free framed key id w)
              (finish_lem B S input output temp_free framed key id aad dec v (k.files input ∙ e)
                (in_memory dec h))
              (λ _ y d. Decrypted-back w v y k d) (λ x y d. NotDecrypted-back w v x y k d))
      | inr (x, h) ↦
          rw (open_header_of_take B framed key id, h, Post)
            (kept_reason w v x k (
              refused (
                decrypt_chunked_long B framed key id long seg
                ∙ ap
                    (λ r. then_ok r (λ dec.
                      decrypt_body B (chunk_size_of framed + 16) (drop header_len framed) dec aad))
                    h)))
    ]
      where
        in_memory :
            (dec : stream.Decryptor)
            → open_header B framed key id ≡ ok dec
            → decrypt_chunked B framed key id
              ≡ decrypt_body B ct_chunk (drop header_len framed) dec aad
        in_memory dec h = rw (
          decrypt_chunked_long B framed key id long seg,
          h,
          open_header-chunk_size B framed key id h,
        )

    -- From the opening of the input on.
    abbrev from_open : Io B (Unit {0})
    from_open = do fin ← open_file B input; got ← read_exact B fin header_len; behind got

    from_open_lem :
        (w : World B)
        → w.files input ≡ some framed
        → Post
            (from_open w)
            (Decrypted B S input output temp_free framed key id w)
            (NotDecrypted B S input output temp_free framed key id w)
    from_open_lem w e =
        header_lem B input framed behind (Decrypted B S input output temp_free framed key id w)
          (NotDecrypted B S input output temp_free framed key id w) w e
          (λ x u k reason.
            kept_reason w u x k (elim reason [ inl f ↦ system f | inr f ↦ short_frame f.0 ]))
          (λ v k long. behind_lem w v e k long)

  -- `decrypt_file_chunked` on every schedule of the system.
  pub decrypt_file_chunked_lem :
      (w : World B)
      → w.files input ≡ some framed
      → Post
          (decrypt_file_chunked B input output key id w)
          (Decrypted B S input output temp_free framed key id w)
          (NotDecrypted B S input output temp_free framed key id w)
  unfolding decrypt_file_chunked decrypt_chunked
  decrypt_file_chunked_lem w e = elim (Result-cases (blob_segment_aad id)) [
    | inl (aad, seg) ↦ rw seg (from_open_lem aad seg w e)
    | inr (x, seg) ↦
        rw (seg, Post)
          (kept_reason w w x (Keeps-refl B w) (refused (unfold decrypt_chunked in rw seg)))
  ]
