-- ===== src/Vault/Tests.antt =====
-- A vault on the concrete backend, and the theorems at concrete secrets, fields and signatures.
use filum_crypto.Prelude.{
  ℕ, Bytes, bytes_of, replicate, length, ◌++◌, ◌∷◌, ◌≡◌, refl, ap, ok, err, Error, arith,
  to_be_bytes, inl, ◌⊎◌, ◌%◌,
}
use filum_crypto.Aad.{field_aad, blob_segment_aad, blob_wrap_aad}
use filum_crypto.Aad.Layout.{IsContext}
use filum_crypto.Blob.{
  write_header, random, wrap_data_key, encrypt_chunks, encrypt_body, prepare, encrypt_chunked,
}
use filum_crypto.Auth.{
  attest_domain, domain_separated, sign_challenge, public_key_bytes, verify_signature,
}
use filum_crypto.Auth.Signatures.{
  SignatureForgery, verify_signature_bound, verify_signature-sign_challenge,
  verify_signature_unframed,
}
use filum_crypto.Metadata.{EncryptedField, encrypt_field, decrypt_field}
use filum_crypto.Metadata.Fields.{FieldForgery, decrypt_field-encrypt_field, encrypt_field_bound}
use filum_crypto.Recovery.{derive_subkey, secret_to_phrase}
use filum_crypto.Vault.{
  Vault, open_vault, from_recovery_phrase, encrypt_blob, decrypt_blob, encrypt_metadata_field,
  decrypt_metadata_field, device_public_key, sign_challenge as vault_sign_challenge,
}
use filum_crypto.Vault.Recovered.{recovered_vault}
use filum_crypto.Toy.{backend, backend-IsBackend}

abbrev pub key : Bytes
key = replicate 32 9

abbrev text : Bytes
text = bytes_of "hello"

abbrev rec : Bytes
rec = bytes_of "rec-1"

abbrev name : Bytes
name = bytes_of "name"

abbrev field : EncryptedField
field = record { ciphertext = text ++ replicate 16 64; iv = replicate 12 5 }

field_encrypts : encrypt_field backend text key rec name 5 ≡ (ok field, 6)
unfolding encrypt_field field_aad random to_be_bytes
field_encrypts = refl

context : (n : ℕ) (ns : Bytes) → length (n ∷ ns) ≡ 7 → IsContext (n ∷ ns)
context n ns h = record { nonempty = omega (arith, h); fits = omega (arith, h) }

decrypt_field-encrypt_field_example : decrypt_field backend field key rec name ≡ ok text
decrypt_field-encrypt_field_example =
    decrypt_field-encrypt_field backend backend-IsBackend.aead text key rec name field 5 6
      field_encrypts

encrypt_field_bound_example :
    (decrypt_field backend field key (bytes_of "another") (bytes_of "surname") ≡ err Error.aead)
    ⊎ FieldForgery backend key field
encrypt_field_bound_example =
    encrypt_field_bound backend text key rec name field (bytes_of "another") (bytes_of "surname") 5
      6 field_encrypts (context _ _ refl) (context _ _ refl)
      (inl (λ e. absurd (omega (arith, ap (λ (b : Bytes). length b) e))))

verify_signature_bound_example :
    ((attest_domain ≡ attest_domain) × (text ≡ text))
    ⊎ SignatureForgery backend 3 ((length attest_domain % 256) ∷ (attest_domain ++ text)) text
unfolding sign_challenge domain_separated
verify_signature_bound_example =
    verify_signature_bound backend backend-IsBackend.ed25519 3 attest_domain text text (omega arith)
      (verify_signature-sign_challenge backend backend-IsBackend.ed25519 3 text)

verify_signature-sign_challenge_example :
    verify_signature backend (public_key_bytes backend 3) text (sign_challenge backend 3 text).bytes
    ≡ ok tt
verify_signature-sign_challenge_example =
    verify_signature-sign_challenge backend backend-IsBackend.ed25519 3 text

verify_signature_unframed_example :
    (verify_signature backend
        (public_key_bytes backend 3)
        rec
        (backend.ed25519.sign 3 (attest_domain ++ text))
      ≡ err Error.invalid_signature)
    ⊎ SignatureForgery backend 3 (attest_domain ++ text) rec
verify_signature_unframed_example =
    verify_signature_unframed backend backend-IsBackend.ed25519 3 text rec

pub phrase : secret_to_phrase backend key ≡ ok key
unfolding secret_to_phrase
phrase = refl

abbrev pub vault : Vault backend
vault = record { wrap_key = replicate 32 103; metadata_key = replicate 32 162; signing_key = 7 }

abbrev pub blob : Bytes
blob =
    2
    ∷ (replicate 12 7
        ++ (replicate 32 5
            ++ (replicate 16 92
                ++ (replicate 7 6 ++ (0 ∷ 16 ∷ 0 ∷ 0 ∷ (text ++ replicate 16 33))))))

pub vault_opens : open_vault backend key ≡ ok vault
unfolding open_vault derive_subkey
vault_opens = refl

pub blob_encrypts : encrypt_blob backend vault text rec 5 ≡ (ok blob, 8)
unfolding encrypt_chunked prepare encrypt_body encrypt_chunks random wrap_data_key write_header
    blob_segment_aad blob_wrap_aad to_be_bytes
blob_encrypts = refl

vault_encrypts_field : encrypt_metadata_field backend vault text rec name 5 ≡ (ok field, 6)
unfolding encrypt_field field_aad random to_be_bytes
vault_encrypts_field = refl

recovered_vault_example :
    (v : Vault backend) × (from_recovery_phrase backend key ≡ ok v)
    × (decrypt_blob backend v blob rec ≡ ok text)
    × (decrypt_metadata_field backend v field rec name ≡ ok text)
    × (verify_signature backend
          (device_public_key backend v)
          text
          (vault_sign_challenge backend vault text).bytes
        ≡ ok tt)
recovered_vault_example =
    recovered_vault backend backend-IsBackend key key vault refl phrase vault_opens text rec blob
      text rec name text field 5 8 5 6 blob_encrypts vault_encrypts_field
