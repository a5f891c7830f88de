-- ===== src/Ffi/Tests.antt =====
-- The theorems on the bindings at concrete arguments.
use filum_crypto.Prelude.{bytes_of, replicate, ◌++◌, ◌≡◌, refl, ap, to_be_bytes}
use filum_crypto.Aad.{field_aad}
use filum_crypto.Blob.{random}
use filum_crypto.Metadata.{encrypt_field}
use filum_crypto.Recovery.{derive_subkey, secret_to_phrase}
use filum_crypto.Vault.{open_vault}
use filum_crypto.Ffi.{
  returned, into_ffi, FfiField, FfiVault, ffi_verify_signature, ffi_open,
  ffi_encrypt_metadata_field, ffi_decrypt_metadata_field, to_array, ffi_generate_master_secret,
  ffi_secret_to_phrase, ffi_from_recovery_phrase, ffi_decrypt_blob, ffi_sign_challenge,
  ffi_device_public_key,
}
use filum_crypto.Vault.Tests.{key, vault as core_vault, blob, blob_encrypts}
use filum_crypto.Ffi.Lifecycle.{ffi_recovered_vault}
use filum_crypto.Toy.{backend, backend-IsBackend}

abbrev vault : FfiVault backend
vault = record { inner = core_vault }

abbrev field : FfiField
field = record { ciphertext = bytes_of "hello" ++ replicate 16 64; iv = replicate 12 5 }

field_encrypts :
    ffi_encrypt_metadata_field backend vault
      (bytes_of "hello")
      (bytes_of "rec-1")
      (bytes_of "name")
      5
    ≡ (returned field, 6)
unfolding ffi_encrypt_metadata_field encrypt_field field_aad random to_be_bytes
field_encrypts = refl

generates : ffi_generate_master_secret backend 9 ≡ (returned key, 10)
unfolding random
generates = refl

opens : ffi_open backend key ≡ returned vault
unfolding ffi_open to_array open_vault derive_subkey
opens = refl

writes_down : ffi_secret_to_phrase backend key ≡ returned key
unfolding to_array secret_to_phrase
writes_down = refl

ffi_recovered_vault_example :
    (v : FfiVault backend) × (ffi_from_recovery_phrase backend key ≡ returned v)
    × (ffi_decrypt_blob backend v blob (bytes_of "rec-1") ≡ returned (bytes_of "hello"))
    × (ffi_decrypt_metadata_field backend v field (bytes_of "rec-1") (bytes_of "name")
        ≡ returned (bytes_of "hello"))
    × (ffi_verify_signature backend
          (ffi_device_public_key backend v)
          (bytes_of "nonce")
          (ffi_sign_challenge backend vault (bytes_of "nonce")).bytes
        ≡ returned tt)
ffi_recovered_vault_example =
    ffi_recovered_vault backend backend-IsBackend key key vault 9 10 generates writes_down opens
      (bytes_of "hello") (bytes_of "rec-1") blob (bytes_of "hello") (bytes_of "rec-1")
      (bytes_of "name") (bytes_of "nonce") field 5 8 5 6
      (ap (λ x. (into_ffi x.0, x.1)) blob_encrypts) field_encrypts
