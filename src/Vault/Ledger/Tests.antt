-- ===== src/Vault/Ledger/Tests.antt =====
-- A ledger over operations on the concrete backend: an encryption, a decryption that is killed, and one
-- that fails.
use filum_crypto.Prelude.{
  Bytes, bytes_of, replicate, List, ◌++◌, ◌∷◌, [], ◌≡◌, refl, ok, some, none, arith, to_be_bytes,
  from_be_bytes,
}
use mathlib.Core.Path.{subst}
use filum_crypto.Aad.{blob_segment_aad, blob_wrap_aad}
use filum_crypto.Blob.{
  decrypt_chunked, prepare, random, wrap_data_key, write_header, open_header, unwrap_data_key,
}
use filum_crypto.File.{
  encrypt_file_chunked, decrypt_file_chunked, read_full, read_full_loop, read_exact, emit_pending,
  segment_loop, encrypt_loop, decrypt_loop, sibling_temp_path, temp_name, hex, with_cleanup,
}
use filum_crypto.Blob.Tests.{key, id, text}
use filum_crypto.Io.{
  FilePath, full, dies, fails, choose, spill, open_found, rename_found, closing, create, read,
  write_all, flush, sync_all, rename, remove_file, drop_writer, open_file as io_open_file,
}
use filum_crypto.File.Tests.{plain, sealed, back, holding, not-IsTemp}
use filum_crypto.File.TempPath.{IsTemp}
use filum_crypto.Vault.{Vault}
use filum_crypto.Vault.Ledger.{
  Entry, Operation, seal_file, open_file, schedule, perform_all, enter_all, Represents, Stored,
  perform_all-Represents, ledger_decrypts,
}
use filum_crypto.Toy.{backend, backend-IsBackend}

abbrev vault : Vault backend
vault = record { wrap_key = key; metadata_key = key; signing_key = 7 }

abbrev entry : Entry
entry = record { key = key; id = id; plaintext = text }

abbrev operations : List (Operation backend)
operations =
    seal_file vault plain sealed id
    ∷ schedule (replicate 8 full ++ (dies ∷ []))
    ∷ open_file vault sealed back id
    ∷ schedule (fails 0 ∷ [])
    ∷ open_file vault sealed back id
    ∷ []

abbrev IsSealed : FilePath → Type 0
IsSealed q = q ≡ sealed

sealed_free : (output q : FilePath) → q ≡ sealed → ¬ IsTemp output q
sealed_free output q e t =
    not-IsTemp output (bytes_of "sealed") (omega arith) (subst (λ p. IsTemp output p) e t)

entered : enter_all backend operations (holding plain text) (λ _. none) sealed ≡ some entry
unfolding choose spill open_found rename_found closing encrypt_file_chunked decrypt_file_chunked
    prepare random wrap_data_key write_header open_header unwrap_data_key blob_segment_aad
    blob_wrap_aad to_be_bytes from_be_bytes io_open_file create read write_all flush sync_all rename
    remove_file drop_writer read_full read_full_loop read_exact emit_pending segment_loop
    encrypt_loop decrypt_loop sibling_temp_path temp_name hex with_cleanup
entered = refl

nothing : Represents backend IsSealed sealed_free (λ _. none) (holding plain text)
nothing q b e h = absurd (cc h)

perform_all-Represents_example :
    Stored backend sealed entry (perform_all backend operations (holding plain text))
perform_all-Represents_example =
    perform_all-Represents backend IsSealed sealed_free operations (holding plain text) (λ _. none)
      nothing sealed refl entry entered

ledger_decrypts_example :
    (framed : Bytes) × ((perform_all backend operations (holding plain text)).files sealed
      ≡ some framed)
    × (decrypt_chunked backend framed key id ≡ ok text)
ledger_decrypts_example =
    ledger_decrypts backend IsSealed sealed_free backend-IsBackend operations (holding plain text)
      sealed entry refl entered
