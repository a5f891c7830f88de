-- ===== src/External.antt =====
-- The crates that the program calls and does not contain, as records of operations with what the
-- program relies on: `aes-gcm` and its `aead::stream`, `rand_core`'s `OsRng`, `hkdf`, `bip39` and
-- `ed25519-dalek`. Every definition that uses them takes a `Backend`.
use filum_crypto.Prelude.{
  ℕ, suc, ◌+◌, ◌-◌, ◌^◌, ◌≤◌, ◌<◌, Bytes, length, ◌≡◌, Option, some, none, Bool, true,
}

-- `Aes256Gcm::new(key)` with `encrypt` and `decrypt`: key, nonce, associated data, message.
pub record Aead : Type 0 where
  pub encrypt : Bytes → Bytes → Bytes → Bytes → Option Bytes
  pub decrypt : Bytes → Bytes → Bytes → Bytes → Option Bytes

-- A ciphertext carries a tag of 16 bytes, and decrypts under the inputs that made it.
pub record IsAead (A : Aead) : Type 0 where
  pub decrypt-encrypt :
      (key nonce aad msg : Bytes) {ct : Bytes}
      → A.encrypt key nonce aad msg ≡ some ct
      → A.decrypt key nonce aad ct ≡ some msg
  pub length-encrypt :
      (key nonce aad msg : Bytes) {ct : Bytes}
      → A.encrypt key nonce aad msg ≡ some ct
      → length ct ≡ length msg + 16

-- `EncryptorBE32` and `DecryptorBE32` over AES-256-GCM: `from_aead` of a key and a nonce prefix, a
-- segment that is not the last, and the last one, which uses the object up.
pub record Stream : Type 1 where
  pub Encryptor : Type 0
  pub Decryptor : Type 0
  pub encryptor : Bytes → Bytes → Encryptor
  pub decryptor : Bytes → Bytes → Decryptor
  pub encrypt_next : Encryptor → Bytes → Bytes → Option (Bytes × Encryptor)
  pub encrypt_last : Encryptor → Bytes → Bytes → Option Bytes
  pub decrypt_next : Decryptor → Bytes → Bytes → Option (Bytes × Decryptor)
  pub decrypt_last : Decryptor → Bytes → Bytes → Option Bytes

-- A decryptor that has followed an encryptor segment by segment reads its next segment. Each
-- segment carries a tag of 16 bytes, and one that is shorter is refused.
pub record IsStream (S : Stream) : Type 1 where
  pub Paired : S.Encryptor → S.Decryptor → Type 0
  pub paired_start : (key prefix : Bytes) → Paired (S.encryptor key prefix) (S.decryptor key prefix)
  pub paired_next :
      (e : S.Encryptor) (d : S.Decryptor) (aad msg : Bytes) {ct : Bytes} {e' : S.Encryptor}
      → Paired e d
      → S.encrypt_next e aad msg ≡ some (ct, e')
      → (d' : S.Decryptor) × (S.decrypt_next d aad ct ≡ some (msg, d')) × Paired e' d'
  pub paired_last :
      (e : S.Encryptor) (d : S.Decryptor) (aad msg : Bytes) {ct : Bytes}
      → Paired e d
      → S.encrypt_last e aad msg ≡ some ct
      → S.decrypt_last d aad ct ≡ some msg
  pub length-encrypt_next :
      (e : S.Encryptor) (aad msg : Bytes) {ct : Bytes} {e' : S.Encryptor}
      → S.encrypt_next e aad msg ≡ some (ct, e')
      → length ct ≡ length msg + 16
  pub length-encrypt_last :
      (e : S.Encryptor) (aad msg : Bytes) {ct : Bytes}
      → S.encrypt_last e aad msg ≡ some ct
      → length ct ≡ length msg + 16
  pub decrypt_last_short :
      (d : S.Decryptor) (aad ct : Bytes) → length ct < 16 → S.decrypt_last d aad ct ≡ none

-- `OsRng::try_fill_bytes` on a buffer of the given length.
pub record Rng : Type 1 where
  pub State : Type 0
  pub fill : ℕ → State → Option Bytes × State

pub record IsRng (R : Rng) : Type 0 where
  pub length-fill :
      (n : ℕ) (s t : R.State) {bytes : Bytes} → R.fill n s ≡ (some bytes, t) → length bytes ≡ n

-- `Hkdf::<Sha256>::new(None, secret)` and `expand(info, out)` for an output of the given length.
pub record Hkdf : Type 0 where
  pub expand : Bytes → Bytes → ℕ → Option Bytes

pub record IsHkdf (H : Hkdf) : Type 0 where
  pub length-expand :
      (secret info : Bytes) (n : ℕ) {out : Bytes}
      → H.expand secret info n ≡ some out
      → length out ≡ n

-- `Mnemonic` in English: from entropy, to and from a phrase, and back to entropy.
pub record Bip39 : Type 1 where
  pub Mnemonic : Type 0
  pub from_entropy : Bytes → Option Mnemonic
  pub to_string : Mnemonic → Bytes
  pub parse : Bytes → Option Mnemonic
  pub to_entropy : Mnemonic → Bytes

pub record IsBip39 (P : Bip39) : Type 0 where
  pub parse-to_string : (m : P.Mnemonic) → P.parse (P.to_string m) ≡ some m
  pub to_entropy-from_entropy :
      (entropy : Bytes) {m : P.Mnemonic}
      → P.from_entropy entropy ≡ some m
      → P.to_entropy m ≡ entropy

-- `SigningKey`, `VerifyingKey` and `verify_strict`. A `Signature` is its 64 bytes.
pub record Ed25519 : Type 1 where
  pub SigningKey : Type 0
  pub VerifyingKey : Type 0
  pub signing_key : Bytes → SigningKey
  pub sign : SigningKey → Bytes → Bytes
  pub verifying_key : SigningKey → VerifyingKey
  pub to_bytes : VerifyingKey → Bytes
  pub from_bytes : Bytes → Option VerifyingKey
  pub verify_strict : VerifyingKey → Bytes → Bytes → Bool

pub record IsEd25519 (E : Ed25519) : Type 0 where
  pub from_bytes-to_bytes :
      (k : E.SigningKey) → E.from_bytes (E.to_bytes (E.verifying_key k)) ≡ some (E.verifying_key k)
  pub verify-sign :
      (k : E.SigningKey) (msg : Bytes)
      → E.verify_strict (E.verifying_key k) msg (E.sign k msg) ≡ true
  pub length-sign : (k : E.SigningKey) (msg : Bytes) → length (E.sign k msg) ≡ 64
  pub length-to_bytes : (k : E.VerifyingKey) → length (E.to_bytes k) ≡ 32

pub record Backend : Type 1 where
  pub aead : Aead
  pub stream : Stream
  pub rng : Rng
  pub hkdf : Hkdf
  pub bip39 : Bip39
  pub ed25519 : Ed25519

pub record IsBackend (B : Backend) : Type 1 where
  pub aead : IsAead B.aead
  pub stream : IsStream B.stream
  pub rng : IsRng B.rng
  pub hkdf : IsHkdf B.hkdf
  pub bip39 : IsBip39 B.bip39
  pub ed25519 : IsEd25519 B.ed25519

-- The block counter of a stream has 32 bits, and its last value is kept for the last segment: each
-- segment before takes one, and one that is past them is refused.
pub record HasCounter (S : Stream) : Type 0 where
  pub counter : S.Encryptor → ℕ
  pub counter_start : (key prefix : Bytes) → counter (S.encryptor key prefix) ≡ 0
  pub counter_next :
      (e : S.Encryptor) (aad msg : Bytes) {ct : Bytes} {e' : S.Encryptor}
      → S.encrypt_next e aad msg ≡ some (ct, e')
      → (counter e < 2 ^ 32 - 1) × (counter e' ≡ suc (counter e))

-- A run in which no crate fails: the random source delivers, short messages encrypt with associated
-- data of up to 2^36 bytes, and a stream takes 2^32 - 1 segments before its last, since its block
-- counter has 32 bits.
pub record IsAvailable (B : Backend) : Type 1 where
  pub filled :
      (n : ℕ) (s : B.rng.State)
      → (bytes : Bytes) × (t : B.rng.State) × (B.rng.fill n s ≡ (some bytes, t))
  pub encrypts :
      (key nonce aad msg : Bytes)
      → length aad ≤ 2 ^ 36
      → length msg ≤ 2 ^ 20
      → (ct : Bytes) × (B.aead.encrypt key nonce aad msg ≡ some ct)
  pub Ready : ℕ → B.stream.Encryptor → Type 0
  pub ready_start : (key prefix : Bytes) → Ready (2 ^ 32 - 1) (B.stream.encryptor key prefix)
  pub ready_next :
      (left : ℕ) (e : B.stream.Encryptor) (aad msg : Bytes)
      → Ready (suc left) e
      → length aad ≤ 2 ^ 36
      → length msg ≤ 2 ^ 20
      → (ct : Bytes) × (e' : B.stream.Encryptor) × (B.stream.encrypt_next e aad msg ≡ some (ct, e'))
        × Ready left e'
  pub ready_last :
      (left : ℕ) (e : B.stream.Encryptor) (aad msg : Bytes)
      → Ready left e
      → length aad ≤ 2 ^ 36
      → length msg ≤ 2 ^ 20
      → (ct : Bytes) × (B.stream.encrypt_last e aad msg ≡ some ct)
