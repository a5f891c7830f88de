-- ===== src/Vault/Ledger.antt =====
-- What the files of a vault stand for: an abstract view that forgets bytes, randomness and schedules,
-- with a rule for each operation, and its relation to the file system.
mod Tests
use mathlib.Core.Path.{subst}
use filum_crypto.Prelude.{
  Bytes, List, [], ◌∷◌, Bool, true, false, Bool-cases, inl, inr, if◌then◌else◌, Option, none, some,
  some-injective, ok, err, Error, Result, ◌≡◌, ◌≢◌, refl, ap, ◌∙◌, sym,
}
use filum_crypto.External.{Backend, IsBackend}
use filum_crypto.Blob.{encrypt_chunked, decrypt_chunked}
use filum_crypto.Blob.RoundTrip.{decrypt_chunked-encrypt_chunked}
use filum_crypto.Io.{FilePath, path_eq, update, IoChoice, World, on_rng}
use filum_crypto.Io.Hoare.{path_eq→eq, path_eq_refl}
use filum_crypto.File.TempPath.{IsTemp}
use filum_crypto.File.Encrypt.{encrypt_file_chunked-ok}
use filum_crypto.File.Frame.{encrypt_file_chunked-Frame}
use filum_crypto.File.Rollback.{decrypt_file_chunked-Frame, decrypt_file_chunked-err}
use filum_crypto.Vault.{
  Vault, encrypt_blob, encrypt_file_to_blob, decrypt_blob_to_file, encrypt_metadata_field,
}

-- A plaintext, and the key and the identifier it is encrypted under.
pub record Entry : Type 0 where
  pub key : Bytes
  pub id : Bytes
  pub plaintext : Bytes

abbrev pub Ledger : Type 0
Ledger = FilePath → Option Entry

-- The operations of all vaults that change the state, and a new schedule of the system.
pub data Operation (B : Backend) : Type 0 where
  seal_file : (v : Vault B) (input output : FilePath) (id : Bytes) → Operation B
  open_file : (v : Vault B) (input output : FilePath) (id : Bytes) → Operation B
  seal_blob : (v : Vault B) (plaintext id : Bytes) → Operation B
  seal_field : (v : Vault B) (plaintext record_id field_name : Bytes) → Operation B
  schedule : (choices : List IoChoice) → Operation B

module _ (B : Backend) where
  -- The state that an operation leaves, also where it fails.
  abbrev pub perform : Operation B → World B → World B
  perform (seal_file v input output id) w = (encrypt_file_to_blob B v input output id w).1
  perform (open_file v input output id) w = (decrypt_blob_to_file B v input output id w).1
  perform (seal_blob v plaintext id) w = (on_rng B (encrypt_blob B v plaintext id) w).1
  perform (seal_field v plaintext record_id field_name) w =
      (on_rng B (encrypt_metadata_field B v plaintext record_id field_name) w).1
  perform (schedule choices) w = record w { choices = choices }

  abbrev entry_of : Vault B → Bytes → Option Bytes → Option Entry
  entry_of v id none = none
  entry_of v id (some text) = some (record { key = v.wrap_key; id = id; plaintext = text })

  -- An encryption that succeeds, from another file, enters the contents of its input under its output.
  abbrev sealed_entry :
      Vault B → FilePath → FilePath → Bytes → World B → Result (Unit {0}) → Option Entry
  sealed_entry v input output id w (ok _) =
      if path_eq input output then none else entry_of v id (w.files input)
  sealed_entry v input output id w (err _) = none

  -- A decryption that succeeds replaces its output; one that fails changes nothing.
  abbrev opened_ledger : FilePath → Ledger → Result (Unit {0}) → Ledger
  opened_ledger output l (ok _) = update l output none
  opened_ledger output l (err _) = l

  abbrev pub enter : Operation B → World B → Ledger → Ledger
  enter (seal_file v input output id) w l =
      update l output
        (sealed_entry v input output id w (encrypt_file_to_blob B v input output id w).0)
  enter (open_file v input output id) w l =
      opened_ledger output l (decrypt_blob_to_file B v input output id w).0
  enter (seal_blob v plaintext id) w l = l
  enter (seal_field v plaintext record_id field_name) w l = l
  enter (schedule choices) w l = l

  abbrev pub perform_all : List (Operation B) → World B → World B
  perform_all [] w = w
  perform_all (o ∷ os) w = perform_all os (perform o w)

  abbrev pub enter_all : List (Operation B) → World B → Ledger → Ledger
  enter_all [] w l = l
  enter_all (o ∷ os) w l = enter_all os (perform o w) (enter o w l)

  -- A file is the frame of an entry.
  abbrev pub Stored : FilePath → Entry → World B → Type 0
  Stored q e w =
      (framed : Bytes) × (s t : B.rng.State) × (w.files q ≡ some framed)
      × (encrypt_chunked B e.plaintext e.key e.id s ≡ (ok framed, t))

  Stored-files :
      (q : FilePath) (e : Entry) (w u : World B)
      → u.files q ≡ w.files q
      → Stored q e w
      → Stored q e u
  Stored-files q e w u same (framed, s, t, h, enc) = (framed, s, t, same ∙ h, enc)

  entry_inv :
      (v : Vault B) (id : Bytes) (o : Option Bytes) (e : Entry)
      → entry_of v id o ≡ some e
      → (text : Bytes) × (o ≡ some text)
        × (record { key = v.wrap_key; id = id; plaintext = text } ≡ e)
  entry_inv v id none e h = absurd (cc h)
  entry_inv v id (some text) e h = (text, refl, some-injective h)

  path_eq→ne : (p q : FilePath) → path_eq p q ≡ false → p ≢ q
  path_eq→ne p q f e =
      absurd (cc (sym f ∙ ap (λ (x : FilePath). path_eq p x) (sym e) ∙ path_eq_refl p))

  sealed_Stored :
      (v : Vault B) (input output : FilePath) (id : Bytes) (w : World B) (e : Entry)
      (x : Result (Unit {0}) × World B)
      → encrypt_file_to_blob B v input output id w ≡ x
      → sealed_entry v input output id w x.0 ≡ some e
      → Stored output e x.1
  sealed_Stored v input output id w e (err z, u) r h = absurd (cc h)
  sealed_Stored v input output id w e (ok tt, u) r h = elim (Bool-cases (path_eq input output)) [
    | inl t ↦ absurd (cc (rw t at h))
    | inr f ↦
        let (text, there, same) = entry_inv v id (w.files input) e (rw f at h) in
        let apart = path_eq→ne input output f in
        let ((framed, enc, held), _) =
          encrypt_file_chunked-ok B input output apart text v.wrap_key id w u input there apart r in
        subst (λ k. Stored output k u) same (framed, w.rng, u.rng, held, enc)
  ]

  -- Files that hold blobs: none of them is at a temporary path of a decryption.
  module _ (Blob : FilePath → Type 0)
      (free : (output q : FilePath) → Blob q → ¬ IsTemp output q) where
    -- Every entry of a ledger for a blob stands in its file.
    abbrev pub Represents : Ledger → World B → Type 0
    Represents l w = (q : FilePath) → Blob q → (e : Entry) → l q ≡ some e → Stored q e w

    opened_Represents :
        (v : Vault B) (input output : FilePath) (id : Bytes) (w : World B) (l : Ledger)
        (x : Result (Unit {0}) × World B)
        → decrypt_blob_to_file B v input output id w ≡ x
        → Represents l w
        → Represents (opened_ledger output l x.0) x.1
    opened_Represents v input output id w l (err z, u) r h q b e there =
        Stored-files q e w u
          (decrypt_file_chunked-err B q input output v.wrap_key id (free output q b) w u z r)
          (h q b e there)
    opened_Represents v input output id w l (ok tt, u) r h q b e there =
        elim (Bool-cases (path_eq q output)) [
          | inl t ↦ absurd (cc (rw t at there))
          | inr f ↦
              Stored-files q e w u
                (ap (λ (x : Result (Unit {0}) × World B). x.1.files q) (sym r)
                  ∙ decrypt_file_chunked-Frame B q input output v.wrap_key id (free output q b) w
                      (path_eq→ne q output f))
                (h q b e (rw f at there))
        ]

    perform-Represents :
        (o : Operation B) (w : World B) (l : Ledger)
        → Represents l w
        → Represents (enter o w l) (perform o w)
    perform-Represents (seal_file v input output id) w l h = λ q b e there.
        elim (Bool-cases (path_eq q output)) [
          | inl t ↦
              subst (λ k. Stored k e (encrypt_file_to_blob B v input output id w).1)
                (sym (path_eq→eq q output t))
                (sealed_Stored v input output id w e (encrypt_file_to_blob B v input output id w)
                  refl (rw t at there))
          | inr f ↦
              Stored-files q e w (encrypt_file_to_blob B v input output id w).1
                (encrypt_file_chunked-Frame B q input output v.wrap_key id w
                  (path_eq→ne q output f))
                (h q b e (rw f at there))
        ]
    perform-Represents (open_file v input output id) w l h =
        opened_Represents v input output id w l (decrypt_blob_to_file B v input output id w) refl h
    perform-Represents (seal_blob v plaintext id) w l h = h
    perform-Represents (seal_field v plaintext record_id field_name) w l h = h
    perform-Represents (schedule choices) w l h = h

    -- The file system implements the ledger. Given paths for blobs, none of them a temporary path of
    -- a decryption: where each entry of a ledger at such a path stands in its file (the file is an
    -- encryption of its plaintext under its key and identifier), each does so after any sequence of
    -- vault operations, for the ledger that the specification `enter_all` makes of it, whatever the
    -- keys, inputs and schedules, and wherever operations fail or are killed.
    pub perform_all-Represents :
        (os : List (Operation B)) (w : World B) (l : Ledger)
        → Represents l w
        → Represents (enter_all os w l) (perform_all os w)
    perform_all-Represents [] w l h = h
    perform_all-Represents (o ∷ os) w l h =
        perform_all-Represents os (perform o w) (enter o w l) (perform-Represents o w l h)

    -- From an empty ledger on, after any sequence of vault operations: where the ledger has an entry at
    -- a path for blobs, the file there holds a frame that decrypts, under the key and the identifier
    -- of the entry, to its plaintext. No path for blobs is a temporary path of a decryption, and the
    -- crates meet their laws.
    pub ledger_decrypts :
        (L : IsBackend B) (os : List (Operation B)) (w : World B) (q : FilePath) (e : Entry)
        → Blob q
        → enter_all os w (λ _. none) q ≡ some e
        → (framed : Bytes) × ((perform_all os w).files q ≡ some framed)
          × (decrypt_chunked B framed e.key e.id ≡ ok e.plaintext)
    ledger_decrypts L os w q e b there =
        let (framed, s, t, held, enc) =
          perform_all-Represents os w (λ _. none) (λ _ _ _ h. absurd (cc h)) q b e there in
        (framed, held, decrypt_chunked-encrypt_chunked B L e.plaintext e.key e.id framed s t enc)
