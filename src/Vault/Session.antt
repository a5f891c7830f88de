-- ===== src/Vault/Session.antt =====
-- Sequences of vault operations on one file system, and the files that no operation aims at.
mod Tests
use filum_crypto.Prelude.{
  Bytes, length, List, Option, none, some, ok, Error, Result, ◌≡◌, ◌≢◌, refl, ap, ◌∙◌, sym,
}
use filum_crypto.External.{Backend, IsBackend}
use filum_crypto.Io.{FilePath, IoChoice, World, on_rng}
use filum_crypto.Io.Hoare.{NoFaults}
use filum_crypto.File.TempPath.{IsTemp}
use filum_crypto.File.Frame.{encrypt_file_chunked-Frame}
use filum_crypto.File.Rollback.{decrypt_file_chunked-Frame}
use filum_crypto.File.Guarantees.{decrypt_file_chunked-encrypt_file_chunked}
use filum_crypto.Recovery.{secret_to_phrase}
use filum_crypto.Vault.Recovered.{from_recovery_phrase-secret_to_phrase}
use filum_crypto.Vault.{
  Vault, open_vault, from_recovery_phrase, encrypt_blob, encrypt_file_to_blob, decrypt_blob_to_file,
  encrypt_metadata_field,
}

module _ (B : Backend) where
  -- One operation of some vault that does not aim at the file `q`: it may succeed, fail or be killed.
  -- Between operations the system makes up its schedule anew.
  pub data Step (q : FilePath) (w u : World B) : Type 0 where
    seals_file :
        (v : Vault B) (input output : FilePath) (id : Bytes)
        → q ≢ output
        → u ≡ (encrypt_file_to_blob B v input output id w).1
        → Step q w u
    opens_file :
        (v : Vault B) (input output : FilePath) (id : Bytes)
        → q ≢ output
        → ¬ IsTemp output q
        → u ≡ (decrypt_blob_to_file B v input output id w).1
        → Step q w u
    seals_blob :
        (v : Vault B) (plaintext id : Bytes)
        → u ≡ (on_rng B (encrypt_blob B v plaintext id) w).1
        → Step q w u
    seals_field :
        (v : Vault B) (plaintext record_id field_name : Bytes)
        → u ≡ (on_rng B (encrypt_metadata_field B v plaintext record_id field_name) w).1
        → Step q w u
    scheduled : (choices : List IoChoice) → u ≡ record w { choices = choices } → Step q w u

  pub data Session (q : FilePath) (w : World B) : World B → Type 0 where
    start : Session q w w
    later : {u u' : World B} → Session q w u → Step q u u' → Session q w u'

  Step-files : (q : FilePath) (w u : World B) → Step q w u → u.files q ≡ w.files q
  Step-files q w u (seals_file v input output id n e) =
      ap (λ (x : World B). x.files q) e
      ∙ encrypt_file_chunked-Frame B q input output v.wrap_key id w n
  Step-files q w u (opens_file v input output id n t e) =
      ap (λ (x : World B). x.files q) e
      ∙ decrypt_file_chunked-Frame B q input output v.wrap_key id t w n
  Step-files q w u (seals_blob v plaintext id e) = ap (λ (x : World B). x.files q) e
  Step-files q w u (seals_field v plaintext record_id field_name e) =
      ap (λ (x : World B). x.files q) e
  Step-files q w u (scheduled choices e) = ap (λ (x : World B). x.files q) e

  -- No sequence of vault operations that aim elsewhere changes a file: whatever their inputs, keys
  -- and results, and wherever any of them fails or is killed. An encryption aims at its output, a
  -- decryption at its output and at temporary paths of it.
  Session-files : (q : FilePath) {w u : World B} → Session q w u → u.files q ≡ w.files q
  Session-files q start = refl
  Session-files q (later {u} {u'} s st) = Step-files q u u' st ∙ Session-files q s

  -- A blob that a vault has encrypted into a file can be decrypted after any sequence of vault
  -- operations that do not aim at that file, where the system does not fail any more and a temporary
  -- path can be drawn, and gives the contents of the original file. The original and the blob are
  -- different files, the blob is not at a temporary path of the last file, and the crates meet their
  -- laws.
  sealed_file_survives :
      (L : IsBackend B) (v : Vault B) (plain sealed back : FilePath) (plaintext id : Bytes)
      (w w1 u : World B)
      → plain ≢ sealed
      → ¬ IsTemp back sealed
      → w.files plain ≡ some plaintext
      → encrypt_file_to_blob B v plain sealed id w ≡ (ok tt, w1)
      → Session sealed w1 u
      → NoFaults u.choices
      → back.file_name ≢ none
      → (B.rng.fill 8 u.rng).0 ≢ none
      → (u' : World B) × (decrypt_blob_to_file B v sealed back id u ≡ (ok tt, u'))
        × (u'.files back ≡ some plaintext)
  sealed_file_survives L v plain sealed back plaintext id w w1 u apart free h e s calm named drawn =
      decrypt_file_chunked-encrypt_file_chunked B L plain sealed back plaintext v.wrap_key id w w1 u
        apart free h e (Session-files sealed s) calm named drawn

  -- The device is lost: a blob that a vault has encrypted into a file can be decrypted by a vault
  -- that is opened from the recovery phrase of its secret of 32 bytes, after any sequence of vault
  -- operations that do not aim at that file, where the system does not fail any more and a temporary
  -- path can be drawn, and gives the contents of the original file. The original and the blob are
  -- different files, the blob is not at a temporary path of the last file, and the crates meet their
  -- laws.
  pub sealed_file_recovers :
      (L : IsBackend B) (secret phrase : Bytes) (v : Vault B) (plain sealed back : FilePath)
      (plaintext id : Bytes) (w w1 u : World B)
      → length secret ≡ 32
      → secret_to_phrase B secret ≡ ok phrase
      → open_vault B secret ≡ ok v
      → plain ≢ sealed
      → ¬ IsTemp back sealed
      → w.files plain ≡ some plaintext
      → encrypt_file_to_blob B v plain sealed id w ≡ (ok tt, w1)
      → Session sealed w1 u
      → NoFaults u.choices
      → back.file_name ≢ none
      → (B.rng.fill 8 u.rng).0 ≢ none
      → (v' : Vault B) × (from_recovery_phrase B phrase ≡ ok v')
        × (u' : World B) × (decrypt_blob_to_file B v' sealed back id u ≡ (ok tt, u'))
        × (u'.files back ≡ some plaintext)
  sealed_file_recovers L secret phrase v plain sealed back plaintext id w w1 u long ep ev apart free
        h e s calm named drawn =
      let (u', opens, whole) =
        sealed_file_survives L v plain sealed back plaintext id w w1 u apart free h e s calm named
          drawn in
      (
        v,
        from_recovery_phrase-secret_to_phrase B L.bip39 secret phrase long ep ∙ ev,
        u',
        opens,
        whole,
      )
