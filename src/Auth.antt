-- ===== src/Auth.antt =====
-- crates/filum-crypto/src/auth.rs: the signatures that a device makes.
pub mod Signatures
use filum_crypto.Prelude.{
  ◌%◌, Bytes, bytes_of, length, ◌++◌, ◌∷◌, Result, ok, err, Error, then_ok, map_err, if◌then◌else◌,
}
use filum_crypto.External.{Backend}

pub record DeviceSignature : Type 0 where
  pub bytes : Bytes

-- `ATTEST_DOMAIN`
abbrev pub attest_domain : Bytes
attest_domain = bytes_of "filum-crypto/v1/attest"

-- The length of the domain is cast to a byte.
unfoldable pub domain_separated : Bytes → Bytes
domain_separated message = (length attest_domain % 256) ∷ (attest_domain ++ message)

module _ (B : Backend) where
  open B use {ed25519}

  abbrev pub signing_key_from_seed : Bytes → ed25519.SigningKey
  signing_key_from_seed seed = ed25519.signing_key seed

  unfoldable pub sign_challenge : ed25519.SigningKey → Bytes → DeviceSignature
  sign_challenge key message = record { bytes = ed25519.sign key (domain_separated message) }

  abbrev pub public_key_bytes : ed25519.SigningKey → Bytes
  public_key_bytes key = ed25519.to_bytes (ed25519.verifying_key key)

  unfoldable pub verify_signature : Bytes → Bytes → Bytes → Result (Unit {0})
  verify_signature public_key message signature =
      then_ok (map_err Error.invalid_signature (ed25519.from_bytes public_key)) (λ vk.
        if ed25519.verify_strict vk (domain_separated message) signature
        then ok tt
        else err Error.invalid_signature)
