-- ===== src/Ffi/Boundary.antt =====
-- What the checks at the boundary let through, and that nothing is lost on the way out.
use filum_crypto.Prelude.{
  ℕ, Bytes, length, ◌==◌, ==_iff, Bool-cases, inl, inr, ◌⊎◌, Result, ok, err, Error, ◌≡◌, ◌≢◌, refl,
  ap, ◌∙◌, sym,
}
use filum_crypto.External.{Backend, IsBackend}
use filum_crypto.Auth.{verify_signature}
use filum_crypto.Metadata.{EncryptedField, encrypt_field}
use filum_crypto.Metadata.Fields.{decrypt_field-encrypt_field, length-encrypt_field_iv}
use filum_crypto.Vault.{open_vault}
use filum_crypto.Ffi.{
  FfiError, FfiResult, returned, thrown, from_core, into_ffi, into_ffi_by, FfiField,
  from_core_field, to_array, try_from_field, FfiVault, ffi_verify_signature, ffi_open,
  ffi_encrypt_metadata_field, ffi_decrypt_metadata_field,
}

-- The conversion of errors loses no information.
pub from_core-injective : (a b : Error) → from_core a ≡ from_core b → a ≡ b
unfolding from_core
from_core-injective a b e = sym (back a) ∙ ap to_core e ∙ back b
  where
    to_core : FfiError → Error
    to_core FfiError.aead = Error.aead
    to_core FfiError.invalid_phrase = Error.invalid_phrase
    to_core FfiError.invalid_context = Error.invalid_context
    to_core FfiError.invalid_key_length = Error.invalid_key_length
    to_core FfiError.invalid_signature = Error.invalid_signature
    to_core FfiError.randomness = Error.randomness
    to_core FfiError.io = Error.io

    back : (a : Error) → to_core (from_core a) ≡ a
    back Error.aead = refl
    back Error.invalid_phrase = refl
    back Error.invalid_context = refl
    back Error.invalid_key_length = refl
    back Error.invalid_signature = refl
    back Error.randomness = refl
    back Error.io = refl

returned_injective :
    {a b : FfiField} → ◌≡◌ {A = FfiResult FfiField} (returned a) (returned b) → a ≡ b
returned_injective q = cc

pub to_array_lem :
    (n : ℕ) (bytes : Bytes)
    → ((length bytes ≡ n) × (to_array n bytes ≡ returned bytes))
      ⊎ ((length bytes ≢ n) × (to_array n bytes ≡ thrown FfiError.invalid_key_length))
unfolding to_array
to_array_lem n bytes = elim (Bool-cases (length bytes == n)) [
  | inl t ↦ inl ((==_iff _ _).0 t, rw t)
  | inr f ↦ inr (λ e. absurd (cc (sym f ∙ (==_iff _ _).1 e)), rw f)
]

module _ (B : Backend) where
  open B use {rng}

  -- `verify_signature` of the bindings is that of the core on a public key of 32 bytes and a signature
  -- of 64, and refuses with `InvalidKeyLength` if either has another length.
  pub ffi_verify_signature_lem :
      (public_key nonce signature : Bytes)
      → ((length public_key ≡ 32)
          × (length signature ≡ 64)
          × (ffi_verify_signature B public_key nonce signature
              ≡ into_ffi (verify_signature B public_key nonce signature)))
        ⊎ (((length public_key ≢ 32) ⊎ (length signature ≢ 64))
            × (ffi_verify_signature B public_key nonce signature
                ≡ thrown FfiError.invalid_key_length))
  unfolding ffi_verify_signature
  ffi_verify_signature_lem public_key nonce signature = elim (to_array_lem 32 public_key) [
    | inr (n, e) ↦ inr (inl n, rw e)
    | inl (h, e) ↦ elim (to_array_lem 64 signature) [
      | inr (n, f) ↦ inr (inr n, rw (e, f))
      | inl (k, f) ↦ inl (h, k, rw (e, f))
    ]
  ]

  -- `open` of the bindings is `Vault::open` on a secret of 32 bytes, and refuses any other secret with
  -- `InvalidKeyLength`.
  pub ffi_open_lem :
      (secret : Bytes)
      → ((length secret ≡ 32)
          × (ffi_open B secret
              ≡ into_ffi_by (λ core. record { inner = core }) (open_vault B secret)))
        ⊎ ((length secret ≢ 32) × (ffi_open B secret ≡ thrown FfiError.invalid_key_length))
  unfolding ffi_open
  ffi_open_lem secret = elim (to_array_lem 32 secret) [
    | inl (h, e) ↦ inl (h, rw e)
    | inr (n, e) ↦ inr (n, rw e)
  ]

  -- A field that the bindings have encrypted passes their check on the way back in and decrypts to
  -- the plaintext, for the same vault, record and field name, if the crates meet their laws.
  pub ffi_decrypt-encrypt_metadata_field :
      IsBackend B
      → (v : FfiVault B) (plaintext record_id field_name : Bytes) (field : FfiField)
        (s t : rng.State)
      → ffi_encrypt_metadata_field B v plaintext record_id field_name s ≡ (returned field, t)
      → ffi_decrypt_metadata_field B v field record_id field_name ≡ returned plaintext
  unfolding ffi_encrypt_metadata_field ffi_decrypt_metadata_field try_from_field
  ffi_decrypt-encrypt_metadata_field L v plaintext record_id field_name field s t e =
      by_result (encrypt_field B plaintext v.inner.metadata_key record_id field_name s) refl e
    where
      by_field :
          (core : EncryptedField) (u : rng.State)
          → encrypt_field B plaintext v.inner.metadata_key record_id field_name s ≡ (ok core, u)
          → from_core_field core ≡ field
          → ffi_decrypt_metadata_field B v field record_id field_name ≡ returned plaintext
      by_field core u h same = elim (to_array_lem 12 core.iv) [
        | inr (n, _) ↦ absurd (
            n (
              length-encrypt_field_iv B L.rng plaintext v.inner.metadata_key record_id field_name
                core s u h))
        | inl (_, g) ↦ rw (
          ← same,
          ffi_decrypt_metadata_field,
          try_from_field,
          g,
          decrypt_field-encrypt_field B L.aead plaintext v.inner.metadata_key record_id field_name
              core s u h,
        )
      ]

      by_result :
          (x : Result EncryptedField × rng.State)
          → encrypt_field B plaintext v.inner.metadata_key record_id field_name s ≡ x
          → ◌≡◌ {A = FfiResult FfiField × rng.State}
              (into_ffi_by from_core_field x.0, x.1)
              (returned field, t)
          → ffi_decrypt_metadata_field B v field record_id field_name ≡ returned plaintext
      by_result (ok core, u) h q =
          by_field core u h
            (returned_injective (ap (λ (x : FfiResult FfiField × rng.State). x.0) q))
      by_result (err z, u) h q = absurd (cc (ap (λ (x : FfiResult FfiField × rng.State). x.0) q))
