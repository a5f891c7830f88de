-- ===== src/Auth/Signatures.antt =====
-- What a device signature stands for.
use filum_crypto.Prelude.{
  ℕ, ◌%◌, ◌≤◌, Bytes, bytes_cases, some-injective, length, append-cancel, ◌++◌, ◌∷◌, [], inl, inr,
  ◌⊎◌, true, Bool-cases, ok, err, Error, Option, some, none, ◌≡◌, ◌≢◌, refl, ap, sym, ◌∙◌, arith,
}
use filum_crypto.External.{Backend, IsEd25519}
use filum_crypto.Auth.{
  attest_domain, domain_separated, sign_challenge, public_key_bytes, verify_signature,
}

-- The bytes that are signed determine the domain and the message: a message framed in the same way
-- under any domain of at most 255 bytes is not what is signed for `message`, unless domain and
-- message are the same.
pub domain_separated_binds :
    (domain message other : Bytes)
    → length domain ≤ 255
    → domain_separated message ≡ (length domain % 256) ∷ (domain ++ other)
    → (attest_domain ≡ domain) × (message ≡ other)
unfolding domain_separated
domain_separated_binds domain message other h e =
    append-cancel attest_domain domain message other (same_length (head_eq e)) (tail_eq e)
  where
    head_eq : {a b : ℕ} {xs ys : Bytes} → a ∷ xs ≡ b ∷ ys → a ≡ b
    head_eq e = cc

    tail_eq : {a b : ℕ} {xs ys : Bytes} → a ∷ xs ≡ b ∷ ys → xs ≡ ys
    tail_eq e = cc

    same_length :
        length attest_domain % 256 ≡ length domain % 256 → length attest_domain ≡ length domain
    same_length q = omega (arith, q, h)

module _ (B : Backend) where
  open B use {ed25519}

  -- What `sign_challenge` signs, `verify_signature` accepts under the public key of the same
  -- device, if the Ed25519 crate meets its laws.
  pub verify_signature-sign_challenge :
      IsEd25519 ed25519
      → (key : ed25519.SigningKey) (message : Bytes)
      → verify_signature B (public_key_bytes B key) message (sign_challenge B key message).bytes
        ≡ ok tt
  unfolding verify_signature sign_challenge
  verify_signature-sign_challenge L key message =
      rw (L.from_bytes-to_bytes key, L.verify-sign key (domain_separated message))

  -- The two outcomes of `verify_signature`, and what the first takes.
  verify_signature_lem :
      (public_key message signature : Bytes)
      → ((verify_signature B public_key message signature ≡ ok tt)
          × ((vk : ed25519.VerifyingKey) × (ed25519.from_bytes public_key ≡ some vk)
              × (ed25519.verify_strict vk (domain_separated message) signature ≡ true)))
        ⊎ (verify_signature B public_key message signature ≡ err Error.invalid_signature)
  unfolding verify_signature
  verify_signature_lem public_key message signature = by_key (ed25519.from_bytes public_key) refl
    where
      by_key :
          (o : Option ed25519.VerifyingKey)
          → ed25519.from_bytes public_key ≡ o
          → ((verify_signature B public_key message signature ≡ ok tt)
              × ((vk : ed25519.VerifyingKey) × (ed25519.from_bytes public_key ≡ some vk)
                  × (ed25519.verify_strict vk (domain_separated message) signature ≡ true)))
            ⊎ (verify_signature B public_key message signature ≡ err Error.invalid_signature)
      by_key none e = inr (rw (verify_signature, e))
      by_key (some vk) e =
          elim (Bool-cases (ed25519.verify_strict vk (domain_separated message) signature)) [
            | inl t ↦ inl (rw (verify_signature, e, t), (vk, e, t))
            | inr f ↦ inr (rw (verify_signature, e, f))
          ]

  -- The crate accepts for the framing of a message a signature that the key made for other bytes: a
  -- forgery against Ed25519.
  pub record SignatureForgery (key : ed25519.SigningKey) (signed message : Bytes) : Type 0 where
    pub differs : domain_separated message ≢ signed
    pub accepted :
        ed25519.verify_strict
          (ed25519.verifying_key key)
          (domain_separated message)
          (ed25519.sign key signed)
        ≡ true

  -- Where the device has signed some bytes, `verify_signature` refuses the signature, or the bytes are
  -- the framing of the message, or Ed25519 is forged.
  verify_signature_signed :
      IsEd25519 ed25519
      → (key : ed25519.SigningKey) (signed message : Bytes)
      → (verify_signature B (public_key_bytes B key) message (ed25519.sign key signed)
          ≡ err Error.invalid_signature)
        ⊎ ((domain_separated message ≡ signed) ⊎ SignatureForgery key signed message)
  verify_signature_signed L key signed message =
      elim (verify_signature_lem (public_key_bytes B key) message (ed25519.sign key signed)) [
        | inr refused ↦ inl refused
        | inl (_, (vk, ev, checked)) ↦ inr (elim (bytes_cases (domain_separated message) signed) [
          | inl same ↦ inl same
          | inr differs ↦ inr (record {
            differs = differs;
            accepted =
                ap
                  (λ k.
                    ed25519.verify_strict k (domain_separated message) (ed25519.sign key signed))
                  (some-injective (sym (L.from_bytes-to_bytes key) ∙ ev))
                ∙ checked;
          })
        ])
      ]

  -- A signature stands for one message and for this use of the key. Where `verify_signature`
  -- accepts under the public key of a device a signature that the device made for a message framed
  -- under some domain of at most 255 bytes, the domain is the one of `sign_challenge` and the
  -- message is the one that was signed; the only other outcome is a forgery against Ed25519. The
  -- crate meets its laws.
  pub verify_signature_bound :
      IsEd25519 ed25519
      → (key : ed25519.SigningKey) (domain message other : Bytes) → length domain ≤ 255
      → verify_signature B
          (public_key_bytes B key)
          other
          (ed25519.sign key ((length domain % 256) ∷ (domain ++ message)))
        ≡ ok tt
      → ((attest_domain ≡ domain) × (other ≡ message))
        ⊎ SignatureForgery key ((length domain % 256) ∷ (domain ++ message)) other
  verify_signature_bound L key domain message other h e =
      elim (verify_signature_signed L key ((length domain % 256) ∷ (domain ++ message)) other) [
        | inl refused ↦ absurd (cc (sym e ∙ refused))
        | inr (inl same) ↦ inl (domain_separated_binds domain other message h same)
        | inr (inr forged) ↦ inr forged
      ]

  -- The bytes that are signed never begin with the domain itself: the length byte is before it.
  domain_separated-ne_domain :
      (message other : Bytes) → domain_separated message ≢ attest_domain ++ other
  unfolding domain_separated
  domain_separated-ne_domain message other e =
      omega (arith, ap {B = ℕ} (λ (b : Bytes). elim b [ [] ↦ 0 | x ∷ _ ↦ x ]) e)

  -- A signature that a device has made over the domain and a message with no length byte before
  -- them is refused with `InvalidSignature`, for whatever message it is presented; the only other
  -- outcome is a forgery against Ed25519. The crate meets its laws.
  pub verify_signature_unframed :
      IsEd25519 ed25519
      → (key : ed25519.SigningKey) (message other : Bytes)
      → (verify_signature B
            (public_key_bytes B key)
            other
            (ed25519.sign key (attest_domain ++ message))
          ≡ err Error.invalid_signature)
        ⊎ SignatureForgery key (attest_domain ++ message) other
  verify_signature_unframed L key message other =
      elim (verify_signature_signed L key (attest_domain ++ message) other) [
        | inl refused ↦ inl refused
        | inr (inl same) ↦ absurd (domain_separated-ne_domain other message same)
        | inr (inr forged) ↦ inr forged
      ]
