-- ===== src/Recovery.antt =====
-- crates/filum-crypto/src/recovery.rs and kdf.rs: the master secret, its phrase and its subkeys.
pub mod Phrase
use filum_crypto.Prelude.{
  ℕ, Bytes, bytes_of, length, ◌==◌, if◌then◌else◌, Result, ok, err, Error, then_ok, map_err, M,
}
use filum_crypto.External.{Backend}
use filum_crypto.Blob.{random}

-- `WRAP_CTX`
abbrev pub wrap_ctx : Bytes
wrap_ctx = bytes_of "filer-crypto/v1/wrap"

-- `METADATA_CTX`
abbrev pub metadata_ctx : Bytes
metadata_ctx = bytes_of "filer-crypto/v1/metadata"

-- `SIGN_CTX`
abbrev pub sign_ctx : Bytes
sign_ctx = bytes_of "filer-crypto/v1/sign"

module _ (B : Backend) where
  open B use {rng, hkdf, bip39}

  -- The last argument is the length of the buffer that is filled.
  unfoldable pub derive_subkey : Bytes → Bytes → ℕ → Result Bytes
  derive_subkey secret info n = map_err Error.invalid_key_length (hkdf.expand secret info n)

  abbrev pub generate_master_secret : M rng.State Bytes
  generate_master_secret = random B 32

  unfoldable pub secret_to_phrase : Bytes → Result Bytes
  secret_to_phrase secret =
      then_ok (map_err Error.invalid_key_length (bip39.from_entropy secret))
        (λ mnemonic. ok (bip39.to_string mnemonic))

  unfoldable pub phrase_to_secret : Bytes → Result Bytes
  phrase_to_secret phrase = then_ok (map_err Error.invalid_phrase (bip39.parse phrase)) (λ mnemonic.
      let entropy = bip39.to_entropy mnemonic in
      if length entropy == 32 then ok entropy else err Error.invalid_phrase)
