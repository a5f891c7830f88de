-- ===== src/Metadata.antt =====
-- crates/filum-crypto/src/metadata.rs: encrypted metadata fields.
pub mod Fields
use filum_crypto.Prelude.{Bytes, Result, ok, Error, then_ok, map_err, M, ◌>>=◌, lift}
use filum_crypto.External.{Backend}
use filum_crypto.Aad.{field_aad}
use filum_crypto.Blob.{random}

pub record EncryptedField : Type 0 where
  pub ciphertext : Bytes
  pub iv : Bytes

module _ (B : Backend) where
  open B use {aead as gcm, rng}

  unfoldable pub encrypt_field : Bytes → Bytes → Bytes → Bytes → M rng.State EncryptedField
  encrypt_field plaintext key record_id field_name = do
    aad ← lift (field_aad record_id field_name)
    iv ← random B 12
    ciphertext ← lift (map_err Error.aead (gcm.encrypt key iv aad plaintext))
    lift (ok (record { ciphertext = ciphertext; iv = iv }))

  unfoldable pub decrypt_field : EncryptedField → Bytes → Bytes → Bytes → Result Bytes
  decrypt_field field key record_id field_name =
      then_ok (field_aad record_id field_name)
        (λ aad. map_err Error.aead (gcm.decrypt key field.iv aad field.ciphertext))
