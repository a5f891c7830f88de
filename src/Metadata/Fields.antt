-- ===== src/Metadata/Fields.antt =====
-- An encrypted field opens for its own record and name, and for no other.
use mathlib.Core.Path.{subst}
use filum_crypto.Prelude.{
  Bytes, length, inl, inr, ◌⊎◌, some, Option-cases, Result, ok, err, Error, map_err, map_err-eq_ok,
  ok-injective, continue-eq_ok, lift, ◌≡◌, ◌≢◌, ap, ◌∙◌, sym,
}
use filum_crypto.External.{Backend, IsAead, IsRng}
use filum_crypto.Aad.{field_aad}
use filum_crypto.Aad.Layout.{IsContext, field_layout, field_aad_accepts, field_aad_refuses}
use filum_crypto.Aad.Injective.{field_aad-injective}
use filum_crypto.Blob.{random}
use filum_crypto.Blob.Key.{length-random}
use filum_crypto.Metadata.{EncryptedField, encrypt_field, decrypt_field}

module _ (B : Backend) where
  open B use {aead as gcm, rng}

  encrypt_field_inv :
      (plaintext key record_id field_name : Bytes) (s t : rng.State) {field : EncryptedField}
      → encrypt_field B plaintext key record_id field_name s ≡ (ok field, t)
      → (aad : Bytes) × (field_aad record_id field_name ≡ ok aad)
        × (gcm.encrypt key field.iv aad plaintext ≡ some field.ciphertext)
        × ((u : rng.State) × (random B 12 s ≡ (ok field.iv, u)))
  unfolding encrypt_field
  encrypt_field_inv plaintext key record_id field_name s t {field} e =
      let (aad, s1, e1, f1) = continue-eq_ok (lift (field_aad record_id field_name) s) _ e in
      let (iv, s2, e2, f2) = continue-eq_ok (random B 12 s1) _ f1 in
      let (ct, s3, e3, f3) =
        continue-eq_ok (lift (map_err Error.aead (gcm.encrypt key iv aad plaintext)) s2) _ f2 in
      let same = ok-injective (ap (λ (x : Result EncryptedField × rng.State). x.0) f3) in
      let enc =
        map_err-eq_ok Error.aead (gcm.encrypt key iv aad plaintext)
          (ap (λ (x : Result Bytes × rng.State). x.0) e3) in
      (
        aad,
        ap (λ (x : Result Bytes × rng.State). x.0) e1,
        subst (λ (f : EncryptedField). gcm.encrypt key f.iv aad plaintext ≡ some f.ciphertext) same
            enc,
        (
          s2,
          ap (λ u. random B 12 u) (ap (λ (x : Result Bytes × rng.State). x.1) e1)
              ∙ e2
              ∙ ap (λ (f : EncryptedField). (ok f.iv, s2)) same,
        ),
      )

  pub length-encrypt_field_iv :
      IsRng rng
      → (plaintext key record_id field_name : Bytes) (field : EncryptedField) (s t : rng.State)
      → encrypt_field B plaintext key record_id field_name s ≡ (ok field, t)
      → length field.iv ≡ 12
  length-encrypt_field_iv R plaintext key record_id field_name field s t e =
      let (_, _, _, (u, ei)) = encrypt_field_inv plaintext key record_id field_name s t e in
      length-random B R 12 s u ei

  -- What `encrypt_field` returns, `decrypt_field` takes back to the plaintext, under the same key,
  -- for the same record and field name, if AES-GCM decrypts what it encrypts.
  pub decrypt_field-encrypt_field :
      IsAead gcm
      → (plaintext key record_id field_name : Bytes) (field : EncryptedField) (s t : rng.State)
      → encrypt_field B plaintext key record_id field_name s ≡ (ok field, t)
      → decrypt_field B field key record_id field_name ≡ ok plaintext
  unfolding decrypt_field
  decrypt_field-encrypt_field L plaintext key record_id field_name field s t e =
      let (aad, ea, ec, _) = encrypt_field_inv plaintext key record_id field_name s t e in
      rw (ea, L.decrypt-encrypt key field.iv aad plaintext ec)

  -- A ciphertext that was made for one associated data and opens for another.
  pub record FieldForgery (key : Bytes) (field : EncryptedField) : Type 0 where
    pub made_for : Bytes
    pub accepted_for : Bytes
    pub msg : Bytes
    pub opened_msg : Bytes
    pub differ : accepted_for ≢ made_for
    pub made : gcm.encrypt key field.iv made_for msg ≡ some field.ciphertext
    pub accepted : gcm.decrypt key field.iv accepted_for field.ciphertext ≡ some opened_msg

  -- A field that was encrypted for one record and name is refused with `Aead` for every other
  -- accepted pair of identifiers; the only other outcome is a forgery against AES-GCM on that very
  -- ciphertext.
  pub encrypt_field_bound :
      (plaintext key record_id field_name : Bytes) (field : EncryptedField)
      (record_id' field_name' : Bytes) (s t : rng.State)
      → encrypt_field B plaintext key record_id field_name s ≡ (ok field, t)
      → IsContext record_id'
      → IsContext field_name'
      → (record_id' ≢ record_id) ⊎ (field_name' ≢ field_name)
      → (decrypt_field B field key record_id' field_name' ≡ err Error.aead) ⊎ FieldForgery key field
  unfolding decrypt_field
  encrypt_field_bound plaintext key record_id field_name field record_id' field_name' s t e c d
        moved =
      let (aad, ea, ec, _) = encrypt_field_inv plaintext key record_id field_name s t e in
      let ea' = field_aad_accepts record_id' field_name' c d in
      elim (Option-cases
        (gcm.decrypt key field.iv (field_layout record_id' field_name') field.ciphertext)) [
          | inl h ↦ inl (rw (ea', h))
          | inr (msg, h) ↦ inr (record {
            made_for = aad;
            accepted_for = field_layout record_id' field_name';
            msg = plaintext;
            opened_msg = msg;
            differ = λ q.
                let (records, names) = field_aad-injective _ _ _ _ ea' (ea ∙ ap ok (sym q)) in
                elim moved [ inl n ↦ n records | inr n ↦ n names ];
            made = ec;
            accepted = h;
          })
        ]

  -- Unless both identifiers are accepted, both directions refuse with `InvalidContext`, before any randomness is drawn.
  pub field_refuses_context :
      (plaintext key record_id field_name : Bytes) (field : EncryptedField) (s : rng.State)
      → ¬ (IsContext record_id × IsContext field_name)
      → (encrypt_field B plaintext key record_id field_name s ≡ (err Error.invalid_context, s))
        × (decrypt_field B field key record_id field_name ≡ err Error.invalid_context)
  unfolding encrypt_field decrypt_field
  field_refuses_context plaintext key record_id field_name field s n =
      (rw (field_aad_refuses record_id field_name n), rw (field_aad_refuses record_id field_name n))
