-- ===== src/Ffi.antt =====
-- crates/filum-crypto-uniffi/src/lib.rs: the functions that Swift calls. Fixed arrays cross the
-- boundary as byte vectors of any length, and are checked on the way in.
pub mod Boundary
pub mod Lifecycle
mod Tests
use filum_crypto.Prelude.{ℕ, Bytes, length, ◌==◌, if◌then◌else◌, Result, ok, err, Error}
use filum_crypto.External.{Backend}
use filum_crypto.Auth.{DeviceSignature, verify_signature}
use filum_crypto.Metadata.{EncryptedField}
use filum_crypto.Recovery.{generate_master_secret, secret_to_phrase, phrase_to_secret}
use filum_crypto.Io.{FilePath, World}
use filum_crypto.Vault.{
  Vault, open_vault, from_recovery_phrase, encrypt_blob, decrypt_blob, encrypt_file_to_blob,
  decrypt_blob_to_file, encrypt_metadata_field, decrypt_metadata_field, sign_challenge,
  device_public_key,
}

-- `FilumCryptoError` of the bindings
pub data FfiError : Type 0 where
  aead invalid_phrase invalid_context invalid_key_length invalid_signature randomness io : FfiError

pub data FfiResult {ℓ} (A : Type ℓ) : Type ℓ where
  returned : A → FfiResult A
  thrown : FfiError → FfiResult A

-- `From<CoreError>`
unfoldable pub from_core : Error → FfiError
from_core Error.aead = FfiError.aead
from_core Error.invalid_phrase = FfiError.invalid_phrase
from_core Error.invalid_context = FfiError.invalid_context
from_core Error.invalid_key_length = FfiError.invalid_key_length
from_core Error.invalid_signature = FfiError.invalid_signature
from_core Error.randomness = FfiError.randomness
from_core Error.io = FfiError.io

-- `map_err(Into::into)`
abbrev pub into_ffi {ℓ} : {A : Type ℓ} → Result A → FfiResult A
into_ffi (ok a) = returned a
into_ffi (err e) = thrown (from_core e)

-- The same where the result is converted too.
abbrev pub into_ffi_by {ℓ κ} : {A : Type ℓ} {C : Type κ} → (A → C) → Result A → FfiResult C
into_ffi_by f (ok a) = returned (f a)
into_ffi_by f (err e) = thrown (from_core e)

abbrev pub ffi_then {ℓ κ} :
    {A : Type ℓ} {C : Type κ} → FfiResult A → (A → FfiResult C) → FfiResult C
ffi_then (returned a) f = f a
ffi_then (thrown e) f = thrown e

-- `EncryptedField` of the bindings
pub record FfiField : Type 0 where
  pub ciphertext : Bytes
  pub iv : Bytes

abbrev pub from_core_field : EncryptedField → FfiField
from_core_field f = record { ciphertext = f.ciphertext; iv = f.iv }

-- `DeviceSignature` of the bindings
pub record FfiSignature : Type 0 where
  pub bytes : Bytes

abbrev pub from_core_signature : DeviceSignature → FfiSignature
from_core_signature s = record { bytes = s.bytes }

-- `try_into` of a byte vector to an array of a fixed length.
unfoldable pub to_array : ℕ → Bytes → FfiResult Bytes
to_array n bytes = if length bytes == n then returned bytes else thrown FfiError.invalid_key_length

unfoldable pub try_from_field : FfiField → FfiResult EncryptedField
unfolding to_array
try_from_field f =
    ffi_then (to_array 12 f.iv) (λ iv. returned (record { ciphertext = f.ciphertext; iv = iv }))

abbrev pub vec_to_secret_array : Bytes → FfiResult Bytes
vec_to_secret_array bytes = to_array 32 bytes

module _ (B : Backend) where
  open B use {rng}

  -- `Vault` of the bindings
  pub record FfiVault : Type 0 where
    pub inner : Vault B

  abbrev pub ffi_generate_master_secret : rng.State → FfiResult Bytes × rng.State
  ffi_generate_master_secret s = let (r, t) = generate_master_secret B s in (into_ffi r, t)

  abbrev pub ffi_secret_to_phrase : Bytes → FfiResult Bytes
  ffi_secret_to_phrase secret =
      ffi_then (vec_to_secret_array secret) (λ array. into_ffi (secret_to_phrase B array))

  abbrev pub ffi_phrase_to_secret : Bytes → FfiResult Bytes
  ffi_phrase_to_secret phrase = into_ffi (phrase_to_secret B phrase)

  unfoldable pub ffi_verify_signature : Bytes → Bytes → Bytes → FfiResult (Unit {0})
  unfolding to_array
  ffi_verify_signature public_key nonce signature =
      ffi_then (to_array 32 public_key)
        (λ pk. ffi_then (to_array 64 signature) (λ sig. into_ffi (verify_signature B pk nonce sig)))

  unfoldable pub ffi_open : Bytes → FfiResult FfiVault
  unfolding to_array
  ffi_open master_secret =
      ffi_then (vec_to_secret_array master_secret)
        (λ array. into_ffi_by (λ core. record { inner = core }) (open_vault B array))

  abbrev pub ffi_from_recovery_phrase : Bytes → FfiResult FfiVault
  ffi_from_recovery_phrase phrase =
      into_ffi_by (λ core. record { inner = core }) (from_recovery_phrase B phrase)

  abbrev pub ffi_encrypt_blob : FfiVault → Bytes → Bytes → rng.State → FfiResult Bytes × rng.State
  ffi_encrypt_blob self plaintext blob_id s =
      let (r, t) = encrypt_blob B self.inner plaintext blob_id s in (into_ffi r, t)

  abbrev pub ffi_decrypt_blob : FfiVault → Bytes → Bytes → FfiResult Bytes
  ffi_decrypt_blob self framed blob_id = into_ffi (decrypt_blob B self.inner framed blob_id)

  abbrev pub ffi_encrypt_file_to_blob :
      FfiVault → FilePath → FilePath → Bytes → World B → FfiResult (Unit {0}) × World B
  ffi_encrypt_file_to_blob self in_path out_path blob_id w =
      let (r, u) = encrypt_file_to_blob B self.inner in_path out_path blob_id w in (into_ffi r, u)

  abbrev pub ffi_decrypt_blob_to_file :
      FfiVault → FilePath → FilePath → Bytes → World B → FfiResult (Unit {0}) × World B
  ffi_decrypt_blob_to_file self in_path out_path blob_id w =
      let (r, u) = decrypt_blob_to_file B self.inner in_path out_path blob_id w in (into_ffi r, u)

  unfoldable pub ffi_encrypt_metadata_field :
      FfiVault → Bytes → Bytes → Bytes → rng.State → FfiResult FfiField × rng.State
  ffi_encrypt_metadata_field self plaintext record_id field_name s =
      let (r, t) = encrypt_metadata_field B self.inner plaintext record_id field_name s in
      (into_ffi_by from_core_field r, t)

  unfoldable pub ffi_decrypt_metadata_field : FfiVault → FfiField → Bytes → Bytes → FfiResult Bytes
  unfolding try_from_field
  ffi_decrypt_metadata_field self field record_id field_name =
      ffi_then (try_from_field field) (λ core_field.
        into_ffi (decrypt_metadata_field B self.inner core_field record_id field_name))

  abbrev pub ffi_sign_challenge : FfiVault → Bytes → FfiSignature
  ffi_sign_challenge self nonce = from_core_signature (sign_challenge B self.inner nonce)

  abbrev pub ffi_device_public_key : FfiVault → Bytes
  ffi_device_public_key self = device_public_key B self.inner
