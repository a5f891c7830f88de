-- ===== src/Blob/Frame.antt =====
-- The frame of a blob: the header as it is written and as it is read, what a successful encryption
-- has put into it, and how `decrypt_chunked` goes on from a header that it accepts.
use mathlib.Core.List.{append_assoc}
use filum_crypto.Prelude.{
  ◌+◌, ◌%◌, ◌^◌, Bytes, length, take, drop, length-append, take-append_at, drop-append_at,
  drop-drop, ltb, false, le→ltb, ◌++◌, ◌∷◌, [], ◌≡◌, refl, ap, ◌∙◌, sym, Result, ok, then_ok, arith,
  length-to_be_bytes, from_be_bytes, from_be_bytes-to_be_bytes,
}
use filum_crypto.External.{Backend}
use filum_crypto.Aad.{blob_segment_aad, blob_wrap_aad}
use filum_crypto.Blob.{
  version, header_len, chunk_size, chunk_size_be, first_byte, wrapped_of, nonce_prefix_of,
  chunk_size_of, write_header, unwrap_data_key, decrypt_body, open_header, decrypt_chunked,
}

-- What the decoders read in the header of a frame.
pub record HasHeader (framed wrapped nonce_prefix body : Bytes) : Type 0 where
  pub version_byte : first_byte framed ≡ version
  pub wrapped_key : wrapped_of framed ≡ wrapped
  pub prefix : nonce_prefix_of framed ≡ nonce_prefix
  pub size : chunk_size_of framed ≡ chunk_size
  pub rest : drop header_len framed ≡ body
  pub total : length framed ≡ header_len + length body

unfoldable pub header_tail : Bytes → Bytes → Bytes → Bytes
header_tail w p body = w ++ (p ++ (chunk_size_be ++ body))

pub write_header-append :
    (w p body : Bytes) → write_header [] w p ++ body ≡ version ∷ header_tail w p body
unfolding write_header header_tail
write_header-append w p body =
    ap (λ k. version ∷ k)
      (append_assoc w (p ++ chunk_size_be) body
        ∙ ap (λ k. w ++ k) (append_assoc p chunk_size_be body))

module _ (w p body : Bytes) (hw : length w ≡ 60) (hp : length p ≡ 7) where
  after_key : drop 60 (header_tail w p body) ≡ p ++ (chunk_size_be ++ body)
  unfolding header_tail
  after_key = drop-append_at 60 w _ hw

  after_prefix : drop 67 (header_tail w p body) ≡ chunk_size_be ++ body
  after_prefix =
      sym (drop-drop 7 60 (header_tail w p body)) ∙ ap (drop 7) after_key ∙ drop-append_at 7 p _ hp

  after_size : drop 71 (header_tail w p body) ≡ body
  after_size =
      sym (drop-drop 4 67 (header_tail w p body))
      ∙ ap (drop 4) after_prefix
      ∙ drop-append_at 4 chunk_size_be body (length-to_be_bytes _)

  size_field : from_be_bytes (take 4 (drop 67 (header_tail w p body))) ≡ chunk_size
  size_field =
      ap (λ k. from_be_bytes (take 4 k)) after_prefix
      ∙ ap from_be_bytes (take-append_at 4 chunk_size_be body (length-to_be_bytes _))
      ∙ from_be_bytes-to_be_bytes chunk_size (omega arith)

  length-header_tail : length (header_tail w p body) ≡ 71 + length body
  unfolding header_tail
  length-header_tail = omega (
    arith,
    length-append w (p ++ (chunk_size_be ++ body)),
    length-append p (chunk_size_be ++ body),
    length-append chunk_size_be body,
    length-to_be_bytes (chunk_size % 2 ^ 32),
  )

  header_tail-HasHeader : HasHeader (version ∷ header_tail w p body) w p body
  header_tail-HasHeader = record {
    version_byte = refl;
    wrapped_key = unfold header_tail in take-append_at 60 w _ hw;
    prefix = ap (take 7) after_key ∙ take-append_at 7 p _ hp;
    size = size_field;
    rest = after_size;
    total = omega (arith, length-header_tail);
  }

  -- The fields that `write_header` wrote are read back, whatever follows the header.
  pub write_header-HasHeader : HasHeader (write_header [] w p ++ body) w p body
  write_header-HasHeader = rw (write_header-append w p body) header_tail-HasHeader

module _ (B : Backend) where
  open B use {aead as gcm, stream}

  -- `open_header` behind its tests.
  abbrev pub unwrap_header : Bytes → Bytes → Bytes → Bytes → Result stream.Decryptor
  unwrap_header wrapped nonce_prefix key id =
      then_ok (blob_wrap_aad id version nonce_prefix chunk_size_be) (λ wrap_aad.
        then_ok (unwrap_data_key B wrapped key wrap_aad)
          (λ data_key. ok (stream.decryptor data_key nonce_prefix)))

  pub open_header-HasHeader :
      (framed w p body key id : Bytes)
      → HasHeader framed w p body
      → open_header B framed key id ≡ unwrap_header w p key id
  unfolding open_header
  open_header-HasHeader framed w p body key id h =
      simp (h.version_byte, h.wrapped_key, h.prefix, h.size)

  pub decrypt_chunked-HasHeader :
      (framed w p body key id : Bytes)
      → HasHeader framed w p body
      → decrypt_chunked B framed key id
        ≡ then_ok (blob_segment_aad id) (λ seg_aad.
          then_ok
            (unwrap_header w p key id)
            (λ dec. decrypt_body B (chunk_size + 16) body dec seg_aad))
  unfolding decrypt_chunked
  decrypt_chunked-HasHeader framed w p body key id h =
      let long : ltb (length framed) header_len ≡ false = le→ltb _ _ (omega (arith, h.total)) in
      simp (long, open_header-HasHeader framed w p body key id h, h.size, h.rest)
