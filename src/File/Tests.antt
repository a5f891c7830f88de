-- ===== src/File/Tests.antt =====
-- Both directions over files on the concrete backend, and the theorems at concrete files.
use filum_crypto.Prelude.{
  ◌-◌, ok-injective, false, replicate, ◌++◌, ℕ, ◌<◌, Bytes, bytes_of, length, take, drop, ◌∷◌, [],
  ◌≡◌, ◌≢◌, refl, ap, ok, err, Error, Result, then_ok, arith, to_be_bytes, from_be_bytes, ◌⊎◌,
  Option, some, none,
}
use filum_crypto.Aad.{blob_segment_aad, blob_wrap_aad}
use filum_crypto.Blob.{
  wrapped_of, write_header, random, wrap_data_key, prepare, encrypt_chunked, header_len,
  open_header, unwrap_data_key, decrypt_chunked,
}
use filum_crypto.Blob.Tests.{
  id-IsContext, key, id, text, framed, hollow, empty_encrypts, encrypts, framed-AllBytes,
}
use filum_crypto.Io.{
  FilePath, full, short, World, Reader, update, open_file, create, read, write_all, flush, sync_all,
  rename, drop_writer, remove_file, dies, choose, spill, open_found, rename_found, closing,
}
use filum_crypto.File.{
  temp_name, hex, read_full_loop, read_full, read_exact, emit_pending, segment_loop, encrypt_loop,
  encrypt_file_chunked, sibling_temp_path, with_cleanup, decrypt_loop, decrypt_file_chunked,
}
use filum_crypto.File.TempPath.{IsTemp, length-temp_name}
use mathlib.Core.Path.{subst}
use filum_crypto.Io.Hoare.{NoFaults}
use filum_crypto.File.Refusal.{KeyRefused, other_key, decrypt_file_chunked_creates_nothing}
use filum_crypto.File.Reading.{read_full-ok}
use filum_crypto.File.Encrypt.{encrypt_file_chunked-ok, encrypt_file_chunked-calm}
use filum_crypto.File.Guarantees.{
  decrypt_file_chunked-cleans_up, decrypt_file_chunked-whole_chunks, decrypt_file_chunked-calm,
  decrypt_file_chunked-encrypt_file_chunked,
}
use filum_crypto.Io.Growth.{Starts}
use filum_crypto.File.Leftover.{encrypt_file_chunked-Leftover}
use filum_crypto.File.InPlace.{encrypt_file_chunked_in_place}
use filum_crypto.File.Fuel.{segment_loop_fuel}
use filum_crypto.File.Frame.{encrypt_file_chunked-Frame}
use filum_crypto.Blob.Binding.{WrapForgery}
use filum_crypto.Blob.Integrity.{BodyForgery}
use filum_crypto.File.Integrity.{decrypt_file_chunked-intact}
use filum_crypto.File.Rollback.{decrypt_file_chunked-err}
use filum_crypto.Toy.{backend, backend-IsBackend}

abbrev pub at_name : Bytes → FilePath
at_name name = record { parent = bytes_of "dir"; file_name = some name }

abbrev pub plain : FilePath
plain = at_name (bytes_of "plain")

abbrev pub sealed : FilePath
sealed = at_name (bytes_of "sealed")

abbrev pub back : FilePath
back = at_name (bytes_of "back")

-- One file, and reads and writes that the system cuts short.
abbrev pub holding : FilePath → Bytes → World backend
holding p bytes = record {
  rng = 5;
  files = update (λ _. none) p (some bytes);
  unsynced = λ _. false;
  buffer = [];
  choices = full ∷ short 2 ∷ full ∷ short 3 ∷ [];
}

abbrev pub encrypted : Result (Unit {0}) × World backend
encrypted = encrypt_file_chunked backend plain sealed key id (holding plain text)

abbrev pub decrypted : Result (Unit {0}) × World backend
decrypted = decrypt_file_chunked backend sealed back key id (holding sealed framed)

-- Another key is refused.
abbrev refused : Result (Unit {0}) × World backend
refused = decrypt_file_chunked backend sealed back (bytes_of "key") id (holding sealed framed)

pub not-IsTemp :
    (output : FilePath) (name : Bytes) → length name < 22 → ¬ IsTemp output (at_name name)
not-IsTemp output name h t =
    let e : some name ≡ some (temp_name t.name t.suffix) =
      ap (λ (p : FilePath). p.file_name) t.path in
    omega (
      arith,
      h,
      length-temp_name t.name t.suffix,
      ap {B = ℕ} (λ (o : Option Bytes). elim o [ none ↦ 0 | some n ↦ length n ]) e,
    )

pub sealed_not-IsTemp : ¬ IsTemp back sealed
sealed_not-IsTemp = not-IsTemp back (bytes_of "sealed") (omega arith)

pub plain≢sealed : plain ≢ sealed
plain≢sealed e =
    let same = ap {B = ℕ} (λ (p : FilePath). elim p.file_name [ none ↦ 0 | some n ↦ length n ]) e in
    absurd (omega (arith, same))

pub sealed≢back : sealed ≢ back
sealed≢back e =
    let same = ap {B = ℕ} (λ (p : FilePath). elim p.file_name [ none ↦ 0 | some n ↦ length n ]) e in
    absurd (omega (arith, same))

pub encrypt_runs : encrypted ≡ (ok tt, encrypted.1)
unfolding choose spill open_found rename_found closing encrypt_file_chunked prepare random
    wrap_data_key write_header blob_segment_aad blob_wrap_aad to_be_bytes open_file create write_all
    encrypt_loop segment_loop emit_pending read_full read_full_loop read flush drop_writer
encrypt_runs = refl

decrypt_runs : decrypted ≡ (ok tt, decrypted.1)
unfolding choose spill open_found rename_found closing decrypt_file_chunked open_header
    unwrap_data_key blob_segment_aad blob_wrap_aad read_exact to_be_bytes from_be_bytes open_file
    create write_all decrypt_loop segment_loop emit_pending read_full read_full_loop read flush
    drop_writer sibling_temp_path with_cleanup random sync_all rename temp_name hex
decrypt_runs = refl

encrypt_file_chunked-ok_example :
    ((frame : Bytes) × (encrypt_chunked backend text key id 5 ≡ (ok frame, encrypted.1.rng))
      × (encrypted.1.files sealed ≡ some frame))
    × (encrypted.1.files plain ≡ (holding plain text).files plain)
encrypt_file_chunked-ok_example =
    encrypt_file_chunked-ok backend plain sealed plain≢sealed text key id (holding plain text)
      encrypted.1 plain refl plain≢sealed encrypt_runs

encrypt_file_chunked-calm_example :
    (encrypt_file_chunked backend plain sealed key id (holding plain text)).0
    ≡ then_ok (encrypt_chunked backend text key id 5).0 (λ _. ok tt)
encrypt_file_chunked-calm_example =
    encrypt_file_chunked-calm backend plain sealed plain≢sealed text key id (holding plain text)
      refl tt

-- A decryption that is killed when it has written a part of the plaintext.
abbrev doomed : World backend
doomed = record (holding sealed framed) { choices = replicate 8 full ++ (dies ∷ []) }

abbrev killed : Result (Unit {0}) × World backend
killed = decrypt_file_chunked backend sealed back key id doomed

killed_runs : killed ≡ (err Error.io, killed.1)
unfolding choose spill open_found rename_found closing decrypt_file_chunked open_header
    unwrap_data_key blob_segment_aad blob_wrap_aad read_exact to_be_bytes from_be_bytes open_file
    create write_all decrypt_loop segment_loop emit_pending read_full read_full_loop read flush
    drop_writer sibling_temp_path with_cleanup random sync_all rename temp_name hex remove_file
killed_runs = refl

decrypt_file_chunked-err_example : killed.1.files back ≡ none
decrypt_file_chunked-err_example =
    decrypt_file_chunked-err backend back sealed back key id
      (not-IsTemp back (bytes_of "back") (omega arith)) doomed killed.1 Error.io killed_runs

encrypt_file_chunked-Frame_example : encrypted.1.files plain ≡ some text
encrypt_file_chunked-Frame_example =
    encrypt_file_chunked-Frame backend plain plain sealed key id (holding plain text) plain≢sealed

-- The last byte of the tag is altered, so that the decoder fails behind the header.
abbrev altered : Bytes
altered = take (length framed - 1) framed ++ (0 ∷ [])

abbrev undone : Result (Unit {0}) × World backend
undone = decrypt_file_chunked backend sealed back key id (holding sealed altered)

undone_runs : undone ≡ (err Error.aead, undone.1)
unfolding choose spill open_found rename_found closing decrypt_file_chunked open_header
    unwrap_data_key blob_segment_aad blob_wrap_aad read_exact to_be_bytes from_be_bytes open_file
    create write_all decrypt_loop segment_loop emit_pending read_full read_full_loop read flush
    drop_writer sibling_temp_path with_cleanup random sync_all rename temp_name hex remove_file
undone_runs = refl

-- The temporary file of that run.
abbrev part : FilePath
part = at_name (temp_name (bytes_of "back") (from_be_bytes (replicate 8 5)))

decrypt_file_chunked-cleans_up_example :
    (undone.1.files part ≡ (holding sealed altered).files part)
    ⊎ (IsTemp back part × (undone.1.files part ≡ none))
decrypt_file_chunked-cleans_up_example =
    decrypt_file_chunked-cleans_up backend backend-IsBackend.stream sealed back sealed_not-IsTemp
      altered key id (holding sealed altered) undone.1 Error.aead part refl tt undone_runs

other_key_refused : KeyRefused backend framed (bytes_of "key") id
unfolding blob_wrap_aad blob_segment_aad to_be_bytes
other_key_refused aad e =
    subst
      (λ a.
        backend.aead.decrypt (bytes_of "key") (take 12 (wrapped_of framed)) a
          (drop 12 (wrapped_of framed))
        ≡ none)
      (ok-injective e) refl

decrypt_file_chunked_creates_nothing_example :
    ((refused.0 ≡ err Error.aead)
      ⊎ ((refused.0 ≡ err Error.io) × ¬ (NoFaults (holding sealed framed).choices)))
    × (refused.1.files part ≡ (holding sealed framed).files part)
    × (refused.1.unsynced part ≡ false)
    × (refused.1.rng ≡ 5)
decrypt_file_chunked_creates_nothing_example =
    decrypt_file_chunked_creates_nothing backend framed (bytes_of "key") id sealed back Error.aead
      (holding sealed framed) part id-IsContext refl
      (other_key (omega arith) other_key_refused refl)

decrypt_file_chunked-whole_chunks_example :
    decrypt_file_chunked backend sealed back key id (holding sealed (take header_len framed))
    ≢ (ok tt, holding sealed [])
decrypt_file_chunked-whole_chunks_example =
    decrypt_file_chunked-whole_chunks backend backend-IsBackend.stream sealed back sealed_not-IsTemp
      (take header_len framed) key id (holding sealed (take header_len framed)) (holding sealed [])
      refl refl

decrypt_file_chunked-calm_example :
    (decrypt_file_chunked backend sealed back key id (holding sealed framed)).0
    ≡ then_ok (decrypt_chunked backend framed key id) (λ _. ok tt)
decrypt_file_chunked-calm_example =
    decrypt_file_chunked-calm backend backend-IsBackend.stream sealed back sealed_not-IsTemp framed
      key id (holding sealed framed) refl tt (omega arith) (λ e. absurd (omega (arith, e)))
      (λ e. absurd (cc e)) (λ e. absurd (cc e))

decrypt_file_chunked-encrypt_file_chunked_example :
    (u : World backend) × (decrypt_file_chunked backend sealed back key id encrypted.1 ≡ (ok tt, u))
    × (u.files back ≡ some text)
unfolding choose spill open_found closing encrypt_file_chunked prepare random wrap_data_key
    write_header blob_segment_aad blob_wrap_aad to_be_bytes open_file create write_all encrypt_loop
    segment_loop emit_pending read_full read_full_loop read flush drop_writer
decrypt_file_chunked-encrypt_file_chunked_example =
    decrypt_file_chunked-encrypt_file_chunked backend backend-IsBackend plain sealed back text key
      id (holding plain text) encrypted.1 encrypted.1 plain≢sealed sealed_not-IsTemp refl
      encrypt_runs refl tt (λ e. absurd (cc e)) (λ e. absurd (cc e))

abbrev reader : Reader
reader = record { path = plain; position = 1 }

abbrev start : backend.stream.Encryptor
start = backend.stream.encryptor key (bytes_of "prefix")

segment_loop_fuel_example :
    segment_loop backend backend.stream.encrypt_next backend.stream.encrypt_last 3 sealed id 7
      reader start none
      (holding plain text)
    ≡ segment_loop backend backend.stream.encrypt_next backend.stream.encrypt_last 3 sealed id 2
        reader start none
        (holding plain text)
segment_loop_fuel_example =
    segment_loop_fuel backend backend.stream.encrypt_next backend.stream.encrypt_last 3 sealed id 5
      reader start none (holding plain text) (omega arith) plain≢sealed

abbrev got : Result (Bytes × Reader) × World backend
got = read_full backend reader 3 (holding plain text)

read_full_runs : got ≡ (ok (bytes_of "ell", record reader { position = 4 }), got.1)
unfolding read_full read_full_loop read choose
read_full_runs = refl

read_full-ok_example :
    (bytes_of "ell" ≡ take 3 (drop 1 text))
    × (record reader { position = 4 } ≡ record reader { position = 4 })
    × (got.1.files plain ≡ some text)
read_full-ok_example =
    read_full-ok backend reader (record reader { position = 4 }) 3 (bytes_of "ell") plain
      (holding plain text) got.1 read_full_runs

abbrev calm : World backend
calm = record (holding plain text) { choices = [] }

-- Five bytes are replaced by the frame of none.
encrypt_file_chunked_in_place_example :
    (u : World backend) × (encrypt_file_chunked backend plain plain key id calm ≡ (ok tt, u))
    × (u.files plain ≡ some hollow)
encrypt_file_chunked_in_place_example =
    encrypt_file_chunked_in_place backend plain key id text hollow 8 calm refl refl empty_encrypts

decrypt_file_chunked-intact_example :
    ((framed ≡ framed) × (id ≡ id) × (decrypted.1.files back ≡ some text))
    ⊎ (WrapForgery backend key framed ⊎ BodyForgery backend text key id framed framed)
decrypt_file_chunked-intact_example =
    decrypt_file_chunked-intact backend backend-IsBackend sealed back text key id framed framed id 5
      8 (holding sealed framed) decrypted.1 sealed_not-IsTemp encrypts framed-AllBytes refl refl
      decrypt_runs

-- An encryption that is killed when a part of the header is on the disk.
abbrev cut_off : World backend
cut_off = record (holding plain text) { choices = full ∷ full ∷ short 19 ∷ full ∷ dies ∷ [] }

abbrev stopped : World backend
stopped = (encrypt_file_chunked backend plain sealed key id cut_off).1

encrypt_file_chunked-Leftover_example :
    (stopped.files sealed ≡ none) ⊎ Starts backend sealed framed stopped
encrypt_file_chunked-Leftover_example =
    encrypt_file_chunked-Leftover backend plain sealed plain≢sealed text key id framed 8 cut_off
      refl encrypts
