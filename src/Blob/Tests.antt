-- ===== src/Blob/Tests.antt =====
-- The blob format on the concrete backend, and the theorems at a concrete frame.
use filum_crypto.Prelude.{
  ℕ, ◌+◌, ◌*◌, ◌/◌, ◌^◌, ◌<◌, Bytes, bytes_of, replicate, length, ◌++◌, ◌∷◌, [], ◌≡◌, refl, ap, ok,
  err, Error, arith, to_be_bytes, inl, ◌⊎◌, AllBytes,
}
use filum_crypto.Aad.{blob_segment_aad, blob_wrap_aad}
use filum_crypto.Aad.Layout.{IsContext}
use filum_crypto.Blob.{
  chunk_size, write_header, random, wrap_data_key, encrypt_chunks, encrypt_body, prepare,
  encrypt_chunked, decrypt_chunked,
}
use filum_crypto.Blob.RoundTrip.{decrypt_chunked-encrypt_chunked, length-encrypt_chunked}
use filum_crypto.Blob.Bounds.{encrypt_chunked_bounded}
use filum_crypto.Blob.Total.{encrypt_chunked_total}
use filum_crypto.Blob.Binding.{WrapForgery, encrypt_chunked_bound}
use filum_crypto.Blob.Integrity.{BodyForgery, decrypt_chunked-intact}
use filum_crypto.Toy.{backend, backend-IsBackend, backend-IsAvailable, stream-HasCounter}

abbrev pub key : Bytes
key = replicate 32 9

abbrev pub id : Bytes
id = bytes_of "blob-1"

abbrev other_id : Bytes
other_id = bytes_of "another"

abbrev pub text : Bytes
text = bytes_of "hello"

-- Version, nonce and ciphertext of the wrapped key, nonce prefix, chunk size; one segment.
abbrev pub framed : Bytes
framed =
    2
    ∷ (replicate 12 7
        ++ (replicate 32 5
            ++ (replicate 16 236
                ++ (replicate 7 6 ++ (0 ∷ 16 ∷ 0 ∷ 0 ∷ (text ++ replicate 16 89))))))

pub encrypts : encrypt_chunked backend text key id 5 ≡ (ok framed, 8)
unfolding encrypt_chunked prepare encrypt_body encrypt_chunks random wrap_data_key write_header
    blob_segment_aad blob_wrap_aad to_be_bytes
encrypts = refl

-- The frame of the empty text.
abbrev pub hollow : Bytes
hollow =
    2
    ∷ (replicate 12 7
        ++ (replicate 32 5
            ++ (replicate 16 236 ++ (replicate 7 6 ++ (0 ∷ 16 ∷ 0 ∷ 0 ∷ replicate 16 89)))))

pub empty_encrypts : encrypt_chunked backend [] key id 5 ≡ (ok hollow, 8)
unfolding encrypt_chunked prepare encrypt_body encrypt_chunks random wrap_data_key write_header
    blob_segment_aad blob_wrap_aad to_be_bytes
empty_encrypts = refl

pub id-IsContext : IsContext id
id-IsContext = record { nonempty = omega arith; fits = omega arith }

decrypt_chunked-encrypt_chunked_example : decrypt_chunked backend framed key id ≡ ok text
decrypt_chunked-encrypt_chunked_example =
    decrypt_chunked-encrypt_chunked backend backend-IsBackend text key id framed 5 8 encrypts

encrypt_chunked_bounded_example :
    (length text / chunk_size < 2 ^ 32) × (length text < 2 ^ 52) × (length framed < 2 ^ 53)
encrypt_chunked_bounded_example =
    encrypt_chunked_bounded backend backend-IsBackend stream-HasCounter text key id framed 5 8
      encrypts

length-encrypt_chunked_example :
    length framed ≡ 72 + length text + 16 * (length text / chunk_size + 1)
length-encrypt_chunked_example =
    length-encrypt_chunked backend backend-IsBackend text key id framed 5 8 encrypts

encrypt_chunked_total_example :
    (frame : Bytes) × (t : ℕ) × (encrypt_chunked backend text key id 5 ≡ (ok frame, t))
    × (decrypt_chunked backend frame key id ≡ ok text)
encrypt_chunked_total_example =
    encrypt_chunked_total backend backend-IsBackend backend-IsAvailable text key id 5 id-IsContext
      (omega arith)

encrypt_chunked_bound_example :
    (decrypt_chunked backend framed key other_id ≡ err Error.aead) ⊎ WrapForgery backend key framed
encrypt_chunked_bound_example =
    encrypt_chunked_bound backend backend-IsBackend.rng text key id framed framed other_id 5 8
      encrypts (record { nonempty = omega arith; fits = omega arith }) refl
      (inl (λ e. absurd (omega (arith, ap (λ (b : Bytes). length b) e))))

pub framed-AllBytes : AllBytes framed
framed-AllBytes = omega arith

decrypt_chunked-intact_example :
    ((framed ≡ framed) × (id ≡ id) × (text ≡ text))
    ⊎ (WrapForgery backend key framed ⊎ BodyForgery backend text key id framed framed)
decrypt_chunked-intact_example =
    decrypt_chunked-intact backend backend-IsBackend text key id framed framed id text 5 8 encrypts
      framed-AllBytes refl
      (decrypt_chunked-encrypt_chunked backend backend-IsBackend text key id framed 5 8 encrypts)
