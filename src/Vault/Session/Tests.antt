-- ===== src/Vault/Session/Tests.antt =====
-- Vault operations one after the other on the concrete backend, one of them killed at its start.
use filum_crypto.Prelude.{◌∷◌, [], ◌≡◌, refl, ok, some, Result, to_be_bytes}
use filum_crypto.Blob.Tests.{id, text}
use filum_crypto.Io.{
  dies, World, choose, spill, open_found, rename_found, closing, open_file, create, read, write_all,
  flush, drop_writer,
}
use filum_crypto.File.Tests.{
  plain, sealed, back, holding, sealed_not-IsTemp, plain≢sealed, sealed≢back,
}
use filum_crypto.Vault.{Vault, from_recovery_phrase, encrypt_file_to_blob, decrypt_blob_to_file}
use filum_crypto.Vault.Tests.{key as secret, vault as opened, phrase, vault_opens}
use filum_crypto.Aad.{blob_segment_aad, blob_wrap_aad}
use filum_crypto.Blob.{write_header, random, wrap_data_key, prepare}
use filum_crypto.File.{
  read_full_loop, read_full, emit_pending, segment_loop, encrypt_loop, encrypt_file_chunked,
}
use filum_crypto.Vault.Session.{Session, start, later, opens_file, scheduled, sealed_file_recovers}
use filum_crypto.Toy.{backend, backend-IsBackend}

-- A vault that is opened from a secret, its blob, and the same death.
abbrev sealed_once : Result (Unit {0}) × World backend
sealed_once = encrypt_file_to_blob backend opened plain sealed id (holding plain text)

sealed_once_runs : sealed_once ≡ (ok tt, sealed_once.1)
unfolding choose spill open_found rename_found closing encrypt_file_chunked prepare random
    wrap_data_key write_header blob_segment_aad blob_wrap_aad to_be_bytes open_file create write_all
    encrypt_loop segment_loop emit_pending read_full read_full_loop read flush drop_writer
sealed_once_runs = refl

abbrev killed : World backend
killed =
    (decrypt_blob_to_file backend opened sealed back id
      (record sealed_once.1 { choices = dies ∷ [] })).1

abbrev restarted : World backend
restarted = record killed { choices = [] }

abbrev afterwards : Session backend sealed sealed_once.1 restarted
afterwards =
    later
      (later (later start (scheduled (dies ∷ []) refl))
        (opens_file opened sealed back id sealed≢back sealed_not-IsTemp refl))
      (scheduled [] refl)

sealed_file_recovers_example :
    (v : Vault backend) × (from_recovery_phrase backend secret ≡ ok v)
    × (u : World backend) × (decrypt_blob_to_file backend v sealed back id restarted ≡ (ok tt, u))
    × (u.files back ≡ some text)
sealed_file_recovers_example =
    sealed_file_recovers backend backend-IsBackend secret secret opened plain sealed back text id
      (holding plain text) sealed_once.1 restarted refl phrase vault_opens plain≢sealed
      sealed_not-IsTemp refl sealed_once_runs afterwards tt (λ e. absurd (cc e))
      (λ e. absurd (cc e))
