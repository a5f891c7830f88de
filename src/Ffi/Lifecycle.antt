-- ===== src/Ffi/Lifecycle.antt =====
-- The functions that Swift calls, from a new master secret to a vault on another device.
use filum_crypto.Prelude.{ℕ, Bytes, length, inl, inr, Result, ok, err, ◌≡◌, refl, ap, ◌∙◌, sym}
use filum_crypto.External.{Backend, IsBackend}
use filum_crypto.Auth.Signatures.{verify_signature-sign_challenge}
use filum_crypto.Auth.{sign_challenge as auth_sign_challenge}
use filum_crypto.Blob.{random, encrypt_chunked}
use filum_crypto.Blob.Key.{length-random}
use filum_crypto.Blob.RoundTrip.{decrypt_chunked-encrypt_chunked}
use filum_crypto.Recovery.{secret_to_phrase}
use filum_crypto.Vault.{open_vault}
use filum_crypto.Vault.Recovered.{from_recovery_phrase-secret_to_phrase}
use filum_crypto.Ffi.{
  FfiResult, returned, thrown, into_ffi, into_ffi_by, to_array, FfiField, FfiVault,
  ffi_generate_master_secret, ffi_secret_to_phrase, ffi_open, ffi_from_recovery_phrase,
  ffi_encrypt_blob, ffi_decrypt_blob, ffi_encrypt_metadata_field, ffi_decrypt_metadata_field,
  ffi_sign_challenge, ffi_device_public_key, ffi_verify_signature,
}
use filum_crypto.Ffi.Boundary.{
  to_array_lem, ffi_open_lem, ffi_verify_signature_lem, ffi_decrypt-encrypt_metadata_field,
}

returned-injective {ℓ} : {A : Type ℓ} {a b : A} → returned a ≡ returned b → a ≡ b
returned-injective {a} e = ap (λ r. elim r [ returned x ↦ x | thrown _ ↦ a ]) e

into_ffi-returned {ℓ} : {A : Type ℓ} (r : Result A) {a : A} → into_ffi r ≡ returned a → r ≡ ok a
into_ffi-returned (ok x) e = ap ok (returned-injective e)
into_ffi-returned (err z) e = absurd (cc e)

into_ffi_by-returned {ℓ κ} :
    {A : Type ℓ} {C : Type κ} (f : A → C) (r : Result A) {c : C}
    → into_ffi_by f r ≡ returned c
    → (a : A) × (r ≡ ok a) × (f a ≡ c)
into_ffi_by-returned f (ok x) e = (x, refl, returned-injective e)
into_ffi_by-returned f (err z) e = absurd (cc e)

to_array-length : (n : ℕ) (bytes : Bytes) → length bytes ≡ n → to_array n bytes ≡ returned bytes
to_array-length n bytes h = elim (to_array_lem n bytes) [
  | inl (_, e) ↦ e
  | inr (differs, _) ↦ absurd (differs h)
]

module _ (B : Backend) where
  open B use {rng}

  generated-length :
      (L : IsBackend B) (secret : Bytes) (s t : rng.State)
      → ffi_generate_master_secret B s ≡ (returned secret, t)
      → length secret ≡ 32
  generated-length L secret s t e = length-random B L.rng 32 s (random B 32 s).1 (
      ap (λ r. (r, (random B 32 s).1))
        (into_ffi-returned (random B 32 s).0 (ap (λ (x : FfiResult Bytes × rng.State). x.0) e)))

  encrypted-blob :
      (v : FfiVault B) (plaintext blob_id framed : Bytes) (s t : rng.State)
      → ffi_encrypt_blob B v plaintext blob_id s ≡ (returned framed, t)
      → encrypt_chunked B plaintext v.inner.wrap_key blob_id s
        ≡ (ok framed, (encrypt_chunked B plaintext v.inner.wrap_key blob_id s).1)
  encrypted-blob v plaintext blob_id framed s t e =
      ap (λ r. (r, (encrypt_chunked B plaintext v.inner.wrap_key blob_id s).1))
        (into_ffi-returned (encrypt_chunked B plaintext v.inner.wrap_key blob_id s).0
          (ap (λ (x : FfiResult Bytes × rng.State). x.0) e))

  opened-vault :
      (secret : Bytes) (v : FfiVault B)
      → length secret ≡ 32
      → ffi_open B secret ≡ returned v
      → open_vault B secret ≡ ok v.inner
  opened-vault secret v h e = elim (ffi_open_lem B secret) [
    | inr (differs, _) ↦ absurd (differs h)
    | inl (_, o) ↦
        let (core, ec, ev) = into_ffi_by-returned _ (open_vault B secret) (sym o ∙ e) in
        ec ∙ ap (λ (x : FfiVault B). ok x.inner) ev
  ]

  verifies :
      (L : IsBackend B) (v : FfiVault B) (nonce : Bytes)
      → ffi_verify_signature B
          (ffi_device_public_key B v)
          nonce
          (ffi_sign_challenge B v nonce).bytes
        ≡ returned tt
  unfolding auth_sign_challenge
  verifies L v nonce =
      elim (ffi_verify_signature_lem B (ffi_device_public_key B v) nonce
        (ffi_sign_challenge B v nonce).bytes) [
          | inl (_, _, e) ↦
              e
              ∙ ap into_ffi (verify_signature-sign_challenge B L.ed25519 v.inner.signing_key nonce)
          | inr (inl n, _) ↦ absurd (n (L.ed25519.length-to_bytes _))
          | inr (inr n, _) ↦ absurd (n (L.ed25519.length-sign v.inner.signing_key _))
        ]

  -- Through the bindings: a master secret that was generated there and opened is written down as a
  -- phrase; the vault that the phrase opens, on any device, decrypts the blobs and the fields that the
  -- first vault has encrypted, and its public key verifies the signatures of the first vault. All the
  -- length checks pass on the way, if the crates meet their laws.
  pub ffi_recovered_vault :
      IsBackend B
      → (secret phrase : Bytes) (v : FfiVault B) (s t : rng.State)
      → ffi_generate_master_secret B s ≡ (returned secret, t)
      → ffi_secret_to_phrase B secret ≡ returned phrase
      → ffi_open B secret ≡ returned v
      → (plaintext blob_id framed text record_id field_name nonce : Bytes) (field : FfiField)
        (s1 t1 s2 t2 : rng.State)
      → ffi_encrypt_blob B v plaintext blob_id s1 ≡ (returned framed, t1)
      → ffi_encrypt_metadata_field B v text record_id field_name s2 ≡ (returned field, t2)
      → (v' : FfiVault B) × (ffi_from_recovery_phrase B phrase ≡ returned v')
        × (ffi_decrypt_blob B v' framed blob_id ≡ returned plaintext)
        × (ffi_decrypt_metadata_field B v' field record_id field_name ≡ returned text)
        × (ffi_verify_signature B
              (ffi_device_public_key B v')
              nonce
              (ffi_sign_challenge B v nonce).bytes
            ≡ returned tt)
  ffi_recovered_vault L secret phrase v s t eg ep eo plaintext blob_id framed text record_id
        field_name nonce field s1 t1 s2 t2 eb ef =
      let long = generated-length L secret s t eg in
      let written =
        into_ffi-returned (secret_to_phrase B secret) (rw (to_array-length 32 secret long) at ep) in
      let restored =
        from_recovery_phrase-secret_to_phrase B L.bip39 secret phrase long written
        ∙ opened-vault secret v long eo in
      (
        v,
        ap (λ r. into_ffi_by (λ core. record { inner = core }) r) restored,
        ap into_ffi (
            decrypt_chunked-encrypt_chunked B L plaintext v.inner.wrap_key blob_id framed s1 _
              (encrypted-blob v plaintext blob_id framed s1 t1 eb)),
        ffi_decrypt-encrypt_metadata_field B L v text record_id field_name field s2 t2 ef,
        verifies L v nonce,
      )
