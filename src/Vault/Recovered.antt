-- ===== src/Vault/Recovered.antt =====
-- A vault that is opened from the recovery phrase is the vault of the master secret.
use filum_crypto.Prelude.{
  ℕ, Bytes, length, inl, inr, ◌⊎◌, ok, err, Error, Option, some, none, ◌≡◌, refl, ◌∙◌,
}
use filum_crypto.External.{Backend, IsHkdf, IsBip39, IsBackend}
use filum_crypto.Auth.{verify_signature}
use filum_crypto.Auth.Signatures.{verify_signature-sign_challenge}
use filum_crypto.Blob.RoundTrip.{decrypt_chunked-encrypt_chunked}
use filum_crypto.Metadata.{EncryptedField}
use filum_crypto.Metadata.Fields.{decrypt_field-encrypt_field}
use filum_crypto.Recovery.{wrap_ctx, metadata_ctx, sign_ctx, derive_subkey, secret_to_phrase}
use filum_crypto.Recovery.Phrase.{phrase_to_secret-secret_to_phrase}
use filum_crypto.Vault.{
  Vault, open_vault, from_recovery_phrase, encrypt_blob, decrypt_blob, encrypt_metadata_field,
  decrypt_metadata_field, sign_challenge, device_public_key,
}

module _ (B : Backend) where
  open B use {rng}

  -- Opening a vault from the phrase of a master secret of 32 bytes does what opening it from the
  -- secret does, on success and on an error, if the BIP39 crate meets its laws.
  pub from_recovery_phrase-secret_to_phrase :
      IsBip39 B.bip39
      → (secret phrase : Bytes) → length secret ≡ 32
      → secret_to_phrase B secret ≡ ok phrase
      → from_recovery_phrase B phrase ≡ open_vault B secret
  unfolding from_recovery_phrase
  from_recovery_phrase-secret_to_phrase L secret phrase h e =
      rw (phrase_to_secret-secret_to_phrase B L secret phrase h e)

  derive_subkey_cases :
      (secret info : Bytes) (n : ℕ)
      → ((key : Bytes) × (derive_subkey B secret info n ≡ ok key)
          × (B.hkdf.expand secret info n ≡ some key))
        ⊎ (derive_subkey B secret info n ≡ err Error.invalid_key_length)
  unfolding derive_subkey
  derive_subkey_cases secret info n = by_expand (B.hkdf.expand secret info n) refl
    where
      by_expand :
          (o : Option Bytes)
          → B.hkdf.expand secret info n ≡ o
          → ((key : Bytes) × (derive_subkey B secret info n ≡ ok key)
              × (B.hkdf.expand secret info n ≡ some key))
            ⊎ (derive_subkey B secret info n ≡ err Error.invalid_key_length)
      by_expand none e = inr (rw (derive_subkey, e))
      by_expand (some key) e = inl (key, rw (derive_subkey, e), e)

  -- `Vault::open` gives a vault whose two symmetric keys have 32 bytes each, or refuses with
  -- `InvalidKeyLength`, if HKDF fills the length it is asked for.
  open_vault_lem :
      IsHkdf B.hkdf
      → (secret : Bytes)
      → ((v : Vault B) × (open_vault B secret ≡ ok v)
          × (length v.wrap_key ≡ 32)
          × (length v.metadata_key ≡ 32))
        ⊎ (open_vault B secret ≡ err Error.invalid_key_length)
  unfolding open_vault
  open_vault_lem H secret = elim (derive_subkey_cases secret wrap_ctx 32) [
    | inr e ↦ inr (rw e)
    | inl (k1, e1, h1) ↦ elim (derive_subkey_cases secret metadata_ctx 32) [
      | inr e ↦ inr (rw (e1, e))
      | inl (k2, e2, h2) ↦ elim (derive_subkey_cases secret sign_ctx 32) [
        | inr e ↦ inr (rw (e1, e2, e))
        | inl (k3, e3, h3) ↦ inl (
          record { wrap_key = k1; metadata_key = k2; signing_key = B.ed25519.signing_key k3 },
          rw (e1, e2, e3),
          H.length-expand secret wrap_ctx 32 h1,
          H.length-expand secret metadata_ctx 32 h2,
        )
      ]
    ]
  ]

  -- After a loss of the device: a vault that is opened again from the recovery phrase of a secret
  -- of 32 bytes decrypts the blobs and the metadata fields that the first vault has encrypted, and
  -- the signatures of the first vault are valid under its public key, if the crates meet their
  -- laws.
  pub recovered_vault :
      IsBackend B
      → (secret phrase : Bytes) (v : Vault B) → length secret ≡ 32
      → secret_to_phrase B secret ≡ ok phrase
      → open_vault B secret ≡ ok v
      → (plaintext blob_id framed text record_id field_name nonce : Bytes) (field : EncryptedField)
        (s t s' t' : rng.State)
      → encrypt_blob B v plaintext blob_id s ≡ (ok framed, t)
      → encrypt_metadata_field B v text record_id field_name s' ≡ (ok field, t')
      → (v' : Vault B) × (from_recovery_phrase B phrase ≡ ok v')
        × (decrypt_blob B v' framed blob_id ≡ ok plaintext)
        × (decrypt_metadata_field B v' field record_id field_name ≡ ok text)
        × (verify_signature B (device_public_key B v') nonce (sign_challenge B v nonce).bytes
            ≡ ok tt)
  recovered_vault L secret phrase v h ep ev plaintext blob_id framed text record_id field_name nonce
        field s t s' t' eb ef =
      (
        v,
        from_recovery_phrase-secret_to_phrase L.bip39 secret phrase h ep ∙ ev,
        decrypt_chunked-encrypt_chunked B L plaintext v.wrap_key blob_id framed s t eb,
        decrypt_field-encrypt_field B L.aead text v.metadata_key record_id field_name field s' t'
            ef,
        verify_signature-sign_challenge B L.ed25519 v.signing_key nonce,
      )
