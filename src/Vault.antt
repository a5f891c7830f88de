-- ===== src/Vault.antt =====
-- crates/filum-crypto/src/vault.rs: the subkeys of a master secret and what is done with them.
pub mod Recovered
pub mod Session
pub mod Ledger
pub mod Tests
use filum_crypto.Prelude.{Bytes, Result, ok, then_ok, M}
use filum_crypto.External.{Backend}
use filum_crypto.Blob.{encrypt_chunked, decrypt_chunked}
use filum_crypto.Io.{FilePath, Io}
use filum_crypto.File.{encrypt_file_chunked, decrypt_file_chunked}
use filum_crypto.Auth.{
  DeviceSignature, signing_key_from_seed, sign_challenge as auth_sign_challenge, public_key_bytes,
}
use filum_crypto.Metadata.{EncryptedField, encrypt_field, decrypt_field}
use filum_crypto.Recovery.{wrap_ctx, metadata_ctx, sign_ctx, derive_subkey, phrase_to_secret}

pub record Vault (B : Backend) : Type 0 where
  pub wrap_key : Bytes
  pub metadata_key : Bytes
  pub signing_key : B.ed25519.SigningKey

module _ (B : Backend) where
  open B use {rng}

  -- `Vault::open`
  unfoldable pub open_vault : Bytes → Result (Vault B)
  open_vault master_secret = then_ok (derive_subkey B master_secret wrap_ctx 32) (λ wrap_key.
      then_ok (derive_subkey B master_secret metadata_ctx 32) (λ metadata_key.
        then_ok (derive_subkey B master_secret sign_ctx 32) (λ sign_seed. ok (record {
          wrap_key = wrap_key;
          metadata_key = metadata_key;
          signing_key = signing_key_from_seed B sign_seed;
        }))))

  unfoldable pub from_recovery_phrase : Bytes → Result (Vault B)
  from_recovery_phrase phrase = then_ok (phrase_to_secret B phrase) (λ secret. open_vault secret)

  abbrev pub encrypt_blob : Vault B → Bytes → Bytes → M rng.State Bytes
  encrypt_blob self plaintext blob_id = encrypt_chunked B plaintext self.wrap_key blob_id

  abbrev pub decrypt_blob : Vault B → Bytes → Bytes → Result Bytes
  decrypt_blob self framed blob_id = decrypt_chunked B framed self.wrap_key blob_id

  abbrev pub encrypt_file_to_blob : Vault B → FilePath → FilePath → Bytes → Io B (Unit {0})
  encrypt_file_to_blob self in_path out_path blob_id =
      encrypt_file_chunked B in_path out_path self.wrap_key blob_id

  abbrev pub decrypt_blob_to_file : Vault B → FilePath → FilePath → Bytes → Io B (Unit {0})
  decrypt_blob_to_file self in_path out_path blob_id =
      decrypt_file_chunked B in_path out_path self.wrap_key blob_id

  abbrev pub encrypt_metadata_field : Vault B → Bytes → Bytes → Bytes → M rng.State EncryptedField
  encrypt_metadata_field self plaintext record_id field_name =
      encrypt_field B plaintext self.metadata_key record_id field_name

  abbrev pub decrypt_metadata_field : Vault B → EncryptedField → Bytes → Bytes → Result Bytes
  decrypt_metadata_field self field record_id field_name =
      decrypt_field B field self.metadata_key record_id field_name

  abbrev pub sign_challenge : Vault B → Bytes → DeviceSignature
  sign_challenge self nonce = auth_sign_challenge B self.signing_key nonce

  abbrev pub device_public_key : Vault B → Bytes
  device_public_key self = public_key_bytes B self.signing_key
