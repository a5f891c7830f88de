-- ===== src/File/Atomic.antt =====
-- `decrypt_file_chunked` as a whole: what it publishes, and that it publishes nothing else.
use mathlib.Core.Path.{subst}
use filum_crypto.Prelude.{
  false, ℕ, ◌+◌, ◌/◌, ◌%◌, ◌≤◌, ◌<◌, Bytes, length, drop, le→ltb, ◌==◌, ==_iff, inl, inr, ◌⊎◌,
  Option, none, some, Bool-cases, Result, ok, err, Error, then_ok, ◌>>=◌, ◌>>◌, ◌≡◌, ◌≢◌, ap, ◌∙◌,
  sym, arith,
}
use filum_crypto.External.{Backend, IsStream}
use filum_crypto.Aad.{blob_segment_aad}
use filum_crypto.Blob.{
  version, header_len, chunk_size, first_byte, chunk_size_of, decrypt_body, open_header,
  decrypt_chunked,
}
use filum_crypto.Io.{FilePath, World, Reader, Io, path_eq, create, closing, flush, sync_all, rename}
use filum_crypto.Io.Hoare.{
  Post, Post-bind, Post-mono, NoFaults, Keeps, Touches, IoError, path_eq→eq, path_eq_refl,
}
use filum_crypto.File.{sibling_temp_path, with_cleanup, decrypt_loop}
use filum_crypto.File.TempPath.{IsTemp, IsTemp-ne_output, Drew, NoTemp, sibling_temp_path_lem}
use filum_crypto.File.Segments.{unseal_multiple, unseal-decrypt_body}
use filum_crypto.File.Decrypt.{
  ct_chunk, opened, publish, Published, CleanedUp, with_cleanup_lem, IoError-back,
}

-- Why a decryption of a file fails: the system, the decoder in memory on the same bytes, a file that
-- is shorter than a header, a body of full chunks alone, or no temporary path.
pub data Reason (B : Backend) (output : FilePath) (framed key id : Bytes) (w : World B) (e : Error)
    : Type 0 where
  system : IoError B w e → Reason B output framed key id w e
  refused : decrypt_chunked B framed key id ≡ err e → Reason B output framed key id w e
  short_frame : length framed < header_len → Reason B output framed key id w e
  whole_chunks :
      length (drop header_len framed) % ct_chunk ≡ 0
      → e ≡ Error.aead
      → Reason B output framed key id w e
  no_temp : NoTemp B output w → Reason B output framed key id w e

err_injective : {A : Type 0} {x y : Error} → ◌≡◌ {A = Result A} (err x) (err y) → x ≡ y
err_injective e = cc

pub open_header-chunk_size :
    (B : Backend) (header key id : Bytes) {dec : B.stream.Decryptor}
    → open_header B header key id ≡ ok dec
    → chunk_size_of header ≡ chunk_size
unfolding open_header
open_header-chunk_size B header key id e = elim (Bool-cases (first_byte header == version)) [
  | inr f ↦ absurd (cc (rw (f, open_header) at e))
  | inl t ↦ elim (Bool-cases (chunk_size_of header == chunk_size)) [
    | inr f ↦ absurd (cc (rw (t, f, open_header) at e))
    | inl u ↦ (==_iff _ _).0 u
  ]
]

-- `decrypt_chunked` on a frame that is as long as a header.
pub decrypt_chunked_long :
    (B : Backend) (framed key id : Bytes) {aad : Bytes}
    → header_len ≤ length framed
    → blob_segment_aad id ≡ ok aad
    → decrypt_chunked B framed key id
      ≡ then_ok
          (open_header B framed key id)
          (λ dec. decrypt_body B (chunk_size_of framed + 16) (drop header_len framed) dec aad)
unfolding decrypt_chunked
decrypt_chunked_long B framed key id h e = rw (e, le→ltb _ _ h)

module _ (B : Backend) (S : IsStream B.stream) (input output : FilePath)
    (temp_free : ¬ IsTemp output input) (framed key id : Bytes) where
  open B use {stream}

  abbrev pub Decrypted : World B → Unit {0} → World B → Type 0
  Decrypted w _ w' =
      ((msg : Bytes) × (decrypt_chunked B framed key id ≡ ok msg)
        × (w'.files output ≡ some msg)
        × (w'.unsynced output ≡ false))
      × (length (drop header_len framed) % ct_chunk ≢ 0)
      × ((tmp : FilePath) × IsTemp output tmp
          × (w'.files tmp ≡ none)
          × ((q : FilePath) → q ≢ tmp → q ≢ output → w'.files q ≡ w.files q))

  -- What a failure leaves in the file system.
  abbrev pub Intact : World B → World B → Type 0
  Intact w w' =
      ((q : FilePath) → ¬ IsTemp output q → w'.files q ≡ w.files q)
      × (NoFaults w.choices
          → (q : FilePath) → (w'.files q ≡ w.files q) ⊎ (IsTemp output q × (w'.files q ≡ none)))

  abbrev pub NotDecrypted : World B → Error → World B → Type 0
  NotDecrypted w e w' = Intact w w' × Reason B output framed key id w e

  pub Intact-Keeps : (w w' : World B) → Keeps B w w' → Intact w w'
  Intact-Keeps w w' k = (λ q _. k.files q, λ _ q. inl (k.files q))

  -- The steps behind the tests on the header.
  abbrev pub finish : ℕ → Bytes → Reader → stream.Decryptor → Io B (Unit {0})
  finish ct aad fin dec = do
    tmp ← sibling_temp_path B output
    with_cleanup B tmp (do
      create B tmp
      closing B tmp (do decrypt_loop B tmp ct aad fin dec; flush B tmp; sync_all B tmp)
      rename B tmp output)

  abbrev pub start : Reader
  start = record { path = input; position = header_len }

  module _ (aad : Bytes) (dec : stream.Decryptor)
      (same : decrypt_chunked B framed key id
        ≡ decrypt_body B ct_chunk (drop header_len framed) dec aad) where
    whole_chunks_fail :
        (tmp : FilePath) (apart : input ≢ tmp) (beside : tmp ≢ output)
        → length (drop header_len framed) % ct_chunk ≡ 0
        → opened B input output tmp apart beside aad framed dec ≡ err Error.aead
    whole_chunks_fail tmp apart beside h =
        unseal_multiple stream S ct_chunk (length (drop header_len framed) / ct_chunk) dec aad
          (drop header_len framed) (omega (arith, h))

    chunked_same :
        (tmp : FilePath) (apart : input ≢ tmp) (beside : tmp ≢ output)
        → length (drop header_len framed) % ct_chunk ≢ 0
        → opened B input output tmp apart beside aad framed dec ≡ decrypt_chunked B framed key id
    chunked_same tmp apart beside h =
        unseal-decrypt_body B (drop header_len framed) dec aad h ∙ sym same

    -- Where the loop over the file succeeds, so does the decoder in memory, and the body is not one
    -- of full chunks alone.
    opened_decrypted :
        (tmp : FilePath) (apart : input ≢ tmp) (beside : tmp ≢ output) (msg : Bytes)
        → opened B input output tmp apart beside aad framed dec ≡ ok msg
        → (decrypt_chunked B framed key id ≡ ok msg)
          × (length (drop header_len framed) % ct_chunk ≢ 0)
    opened_decrypted tmp apart beside msg e =
        let partial : length (drop header_len framed) % ct_chunk ≢ 0 =
          λ h. absurd (cc (sym (whole_chunks_fail tmp apart beside h) ∙ e)) in
        (sym (chunked_same tmp apart beside partial) ∙ e, partial)

    opened_refused :
        (tmp : FilePath) (apart : input ≢ tmp) (beside : tmp ≢ output) (w : World B) (z : Error)
        → opened B input output tmp apart beside aad framed dec ≡ err z
        → Reason B output framed key id w z
    opened_refused tmp apart beside w z e =
        elim (Bool-cases (length (drop header_len framed) % ct_chunk == 0))
          as (λ _. Reason B output framed key id w z) [
            | inl t ↦
                let h = (==_iff _ _).0 t in
                whole_chunks h (err_injective (sym e ∙ whole_chunks_fail tmp apart beside h))
            | inr f ↦ refused (
                sym (chunked_same tmp apart beside (λ h. absurd (cc (sym f ∙ (==_iff _ _).1 h))))
                ∙ e)
          ]

    after_temp :
        (tmp : FilePath) (w u : World B)
        → IsTemp output tmp
        → Drew B w u
        → w.files input ≡ some framed
        → Post
            (with_cleanup B tmp
              (do
                create B tmp
                closing B tmp
                    (do decrypt_loop B tmp ct_chunk aad start dec; flush B tmp; sync_all B tmp)
                rename B tmp output)
              u)
            (Decrypted w)
            (NotDecrypted w)
    after_temp tmp w u t d e =
        let apart : input ≢ tmp = λ q. temp_free (subst (λ p. IsTemp output p) (sym q) t) in
        let beside = IsTemp-ne_output output tmp t in
        let files = d.0 in
        Post-mono (with_cleanup B tmp (publish B input output tmp apart beside aad framed dec) u)
          (Published B input output tmp apart beside aad framed dec u) (Decrypted w)
          (CleanedUp B input output tmp apart beside aad framed dec u) (NotDecrypted w)
          (with_cleanup_lem B input output tmp apart beside aad framed dec u
            (ap (λ fs. fs input) files ∙ e))
          (λ _ y pub_.
            let ((msg, eo, out, sy), gone, others, calm) = pub_ in
            let (em, partial) = opened_decrypted tmp apart beside msg eo in
            (
              (msg, em, out, sy),
              partial,
              (tmp, t, gone, λ q n m. others q n m ∙ ap (λ fs. fs q) files),
            ))
          (λ z y fail.
            let (touches, gone, reason) = fail in
            (
              (
                (λ q n.
                    touches.others q (λ m. n (subst (λ p. IsTemp output p) (sym m) t))
                    ∙ ap (λ fs. fs q) files),
                (λ calm q.
                    removed tmp u y q t touches (gone (drew_calm w u d calm))
                      (ap (λ fs. fs q) files)),
              ),
              elim reason [
                | inl f ↦ system (IoError-back B w u z (drew_calm w u d) f)
                | inr f ↦ opened_refused tmp apart beside w z f
              ],
            ))
      where
        drew_calm : (w u : World B) → Drew B w u → NoFaults w.choices → NoFaults u.choices
        drew_calm w u d calm = subst (λ cs. NoFaults cs) (sym d.1) calm

        removed :
            (tmp : FilePath) (u y : World B) (q : FilePath) {before : Option Bytes}
            → IsTemp output tmp
            → Touches B tmp u y
            → y.files tmp ≡ none
            → u.files q ≡ before
            → (y.files q ≡ before) ⊎ (IsTemp output q × (y.files q ≡ none))
        removed tmp u y q t touches gone e = elim (Bool-cases (path_eq q tmp)) [
          | inl h ↦
              let m = path_eq→eq q tmp h in
              inr (subst (λ p. IsTemp output p) (sym m) t, ap y.files m ∙ gone)
          | inr h ↦ inl (
              touches.others q
                (λ m. absurd (cc (sym h ∙ ap (λ p. path_eq p tmp) m ∙ path_eq_refl tmp)))
              ∙ e)
        ]

  pub finish_lem :
      (aad : Bytes) (dec : stream.Decryptor) (w : World B)
      → w.files input ≡ some framed
      → decrypt_chunked B framed key id ≡ decrypt_body B ct_chunk (drop header_len framed) dec aad
      → Post (finish ct_chunk aad start dec w) (Decrypted w) (NotDecrypted w)
  finish_lem aad dec w e same =
      Post-bind (sibling_temp_path B output w) _ (λ q u. IsTemp output q × Drew B w u) (Decrypted w)
        (λ x u. Drew B w u × NoTemp B output w) (NotDecrypted w) (sibling_temp_path_lem B output w)
        (λ x u fail.
          let files = fail.0.0 in
          (((λ q _. ap (λ fs. fs q) files), (λ _ q. inl (ap (λ fs. fs q) files))), no_temp fail.1))
        (λ tmp u t. after_temp aad dec same tmp w u t.0 t.1 e)
