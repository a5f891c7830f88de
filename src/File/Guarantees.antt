-- ===== src/File/Guarantees.antt =====
-- What a caller of `encrypt_file_chunked` and `decrypt_file_chunked` may rely on.
use filum_crypto.Prelude.{
  false, Bool-cases, ℕ, ◌+◌, ◌*◌, ◌/◌, ◌%◌, ◌≤◌, Bytes, length, drop, length-drop, inl, inr, ◌⊎◌,
  none, some, Result, ok, err, Error, then_ok, ok-injective, ◌≡◌, ◌≢◌, refl, ap, ◌∙◌, sym, arith,
}
use filum_crypto.External.{Backend, IsStream, IsBackend}
use filum_crypto.Blob.{header_len, chunk_size, decrypt_chunked}
use filum_crypto.Blob.Sealed.{encrypt_chunked-Sealed, length-Sealed}
use filum_crypto.Blob.RoundTrip.{decrypt_chunked-Sealed}
use filum_crypto.Io.{FilePath, World, path_eq}
use filum_crypto.Io.Hoare.{path_eq→eq, path_eq_refl, Post, Post-ok, Post-err, NoFaults}
use filum_crypto.File.{encrypt_file_chunked, decrypt_file_chunked}
use filum_crypto.File.TempPath.{IsTemp}
use filum_crypto.File.Encrypt.{encrypt_file_chunked-ok}
use filum_crypto.File.Decrypt.{ct_chunk}
use filum_crypto.File.Atomic.{
  system, refused, short_frame, whole_chunks, no_temp, Decrypted, NotDecrypted,
}
use filum_crypto.File.Outcome.{decrypt_file_chunked_lem}

module _ (B : Backend) (S : IsStream B.stream) (input output : FilePath)
    (temp_free : ¬ IsTemp output input) (framed key id : Bytes) where
  abbrev run : World B → Result (Unit {0}) × World B
  run w = decrypt_file_chunked B input output key id w

  -- What a success means.
  pub published :
      (w w' : World B)
      → w.files input ≡ some framed
      → run w ≡ (ok tt, w')
      → Decrypted B S input output temp_free framed key id w tt w'
  published w w' h e =
      Post-ok (run w) (Decrypted B S input output temp_free framed key id w)
        (NotDecrypted B S input output temp_free framed key id w)
        (decrypt_file_chunked_lem B S input output temp_free framed key id w h) e

  pub decrypt_file_chunked-ok :
      (w w' : World B) (q : FilePath)
      → w.files input ≡ some framed
      → q ≢ output
      → decrypt_file_chunked B input output key id w ≡ (ok tt, w')
      → ((msg : Bytes) × (decrypt_chunked B framed key id ≡ ok msg)
          × (w'.files output ≡ some msg)
          × (w'.unsynced output ≡ false))
        × ((tmp : FilePath) × IsTemp output tmp
            × (w'.files tmp ≡ none)
            × ((q ≡ tmp) ⊎ (w'.files q ≡ w.files q)))
  decrypt_file_chunked-ok w w' q h n e =
      let (plain, _, (tmp, t, gone, others)) = published w w' h e in
      (
        plain,
        (
          tmp,
          t,
          gone,
          elim (Bool-cases (path_eq q tmp)) [
            | inl m ↦ inl (path_eq→eq q tmp m)
            | inr m ↦ inr (
                others q (λ p. absurd (cc (sym m ∙ ap (λ x. path_eq x tmp) p ∙ path_eq_refl tmp)))
                  n)
          ],
        ),
      )

  -- Where `decrypt_file_chunked` fails and no operation of the system does, no temporary file is
  -- left: each file is as it was, or it is at a temporary path and there is none now. The input
  -- holds some bytes and is not itself at a temporary path of the output, and the STREAM crate
  -- meets its laws.
  pub decrypt_file_chunked-cleans_up :
      (w w' : World B) (e : Error) (q : FilePath)
      → w.files input ≡ some framed
      → NoFaults w.choices
      → decrypt_file_chunked B input output key id w ≡ (err e, w')
      → (w'.files q ≡ w.files q) ⊎ (IsTemp output q × (w'.files q ≡ none))
  decrypt_file_chunked-cleans_up w w' e q h calm r =
      let ((_, temps), _) =
        Post-err (run w) (Decrypted B S input output temp_free framed key id w)
          (NotDecrypted B S input output temp_free framed key id w)
          (decrypt_file_chunked_lem B S input output temp_free framed key id w h) r in
      temps calm q

  -- A frame whose body is a whole number of full segments is never decrypted by
  -- `decrypt_file_chunked`, whatever `decrypt_chunked` does with it, if the input is not itself at
  -- a temporary path of the output and the STREAM crate refuses a last segment shorter than its
  -- tag.
  pub decrypt_file_chunked-whole_chunks :
      (w w' : World B)
      → w.files input ≡ some framed
      → length (drop header_len framed) % (chunk_size + 16) ≡ 0
      → decrypt_file_chunked B input output key id w ≢ (ok tt, w')
  decrypt_file_chunked-whole_chunks w w' h whole e =
      let (_, partial, _) = published w w' h e in partial whole

  -- Where the system does not fail, the output has a name and the random source gives a suffix,
  -- `decrypt_file_chunked` returns what `decrypt_chunked` does on the contents of the input, its
  -- error included, provided they are as long as a header and the body behind it is not a whole
  -- number of full segments. The input is not itself at a temporary path of the output, and the
  -- STREAM crate meets its laws.
  pub decrypt_file_chunked-calm :
      (w : World B)
      → w.files input ≡ some framed
      → NoFaults w.choices
      → header_len ≤ length framed
      → length (drop header_len framed) % (chunk_size + 16) ≢ 0
      → output.file_name ≢ none
      → (B.rng.fill 8 w.rng).0 ≢ none
      → (decrypt_file_chunked B input output key id w).0
        ≡ then_ok (decrypt_chunked B framed key id) (λ _. ok tt)
  decrypt_file_chunked-calm w h calm long partial named drawn =
      by_result (run w) (decrypt_file_chunked_lem B S input output temp_free framed key id w h)
    where
      by_result :
          (x : Result (Unit {0}) × World B)
          → Post x
              (Decrypted B S input output temp_free framed key id w)
              (NotDecrypted B S input output temp_free framed key id w)
          → x.0 ≡ then_ok (decrypt_chunked B framed key id) (λ _. ok tt)
      by_result (ok tt, u) ((_, e, _, _), _, _) = rw e
      by_result (err x, u) (_, system (_, faults)) = absurd (faults calm)
      by_result (err x, u) (_, refused e) = rw e
      by_result (err x, u) (_, short_frame lt) = absurd (omega (arith, lt, long))
      by_result (err x, u) (_, whole_chunks m _) = absurd (partial m)
      by_result (err x, u) (_, no_temp (inl n)) = absurd (named n)
      by_result (err x, u) (_, no_temp (inr n)) = absurd (drawn n)

-- A body that `encrypt_chunked` writes always ends in a segment that is not full.
last_segment_partial : (n : ℕ) → (n + 16 * (n / chunk_size + 1)) % (chunk_size + 16) ≢ 0
last_segment_partial n e = omega arith

-- What `encrypt_file_chunked` has written to another path than its input, `decrypt_file_chunked`
-- decrypts to the contents of the first file, in any state that still holds the written file, in
-- which the system does not fail and a temporary path of the last file can be drawn, if the written
-- file is not itself at such a path and the crates meet their laws.
pub decrypt_file_chunked-encrypt_file_chunked :
    (B : Backend) (L : IsBackend B) (plain sealed back : FilePath) (plaintext key id : Bytes)
    (w w1 u : World B)
    → plain ≢ sealed
    → ¬ IsTemp back sealed
    → w.files plain ≡ some plaintext
    → encrypt_file_chunked B plain sealed key id w ≡ (ok tt, w1)
    → u.files sealed ≡ w1.files sealed
    → NoFaults u.choices
    → back.file_name ≢ none
    → (B.rng.fill 8 u.rng).0 ≢ none
    → (u' : World B) × (decrypt_file_chunked B sealed back key id u ≡ (ok tt, u'))
      × (u'.files back ≡ some plaintext)
decrypt_file_chunked-encrypt_file_chunked B L plain sealed back plaintext key id w w1 u apart free h
      e same calm named drawn =
    let ((framed, enc, written), _) =
      encrypt_file_chunked-ok B plain sealed apart plaintext key id w w1 plain h apart e in
    let s = encrypt_chunked-Sealed B L.rng plaintext key id w.rng w1.rng enc in
    let len = length-Sealed B L.stream plaintext key id framed s in
    let dec = decrypt_chunked-Sealed B L plaintext key id framed s in
    let held = same ∙ written in
    let body : length (drop header_len framed)
        ≡ length plaintext + 16 * (length plaintext / chunk_size + 1) =
      omega (arith, len, length-drop header_len framed) in
    let partial : length (drop header_len framed) % ct_chunk ≢ 0 =
      λ m. last_segment_partial (length plaintext) (ap (λ n. n % ct_chunk) (sym body) ∙ m) in
    finished framed held dec
      (decrypt_file_chunked-calm B L.stream sealed back free framed key id u held calm
          (omega (arith, len)) partial named drawn
        ∙ ap (λ r. then_ok r (λ _. ok tt)) dec)
      (decrypt_file_chunked B sealed back key id u) refl
  where
    finished :
        (framed : Bytes)
        → u.files sealed ≡ some framed
        → decrypt_chunked B framed key id ≡ ok plaintext
        → (decrypt_file_chunked B sealed back key id u).0 ≡ ok tt
        → (x : Result (Unit {0}) × World B) → decrypt_file_chunked B sealed back key id u ≡ x
        → (u' : World B) × (decrypt_file_chunked B sealed back key id u ≡ (ok tt, u'))
          × (u'.files back ≡ some plaintext)
    finished framed held dec done (err z, u') r =
        absurd (cc (sym (ap (λ (x : Result (Unit {0}) × World B). x.0) r) ∙ done))
    finished framed held dec done (ok a, u') r =
        let ((msg, em, out, _), _, _) =
          published B L.stream sealed back free framed key id u u' held r in
        (u', r, out ∙ ap some (ok-injective (sym em ∙ dec)))
