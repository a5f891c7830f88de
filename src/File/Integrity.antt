-- ===== src/File/Integrity.antt =====
-- What `decrypt_file_chunked` makes of an encrypted file that others may have written to.
use filum_crypto.Prelude.{
  ℕ, Bytes, AllBytes, length, ◌∷◌, some, inl, inr, ◌⊎◌, ok, ◌≡◌, ◌≢◌, ap, ◌∙◌, arith,
}
use filum_crypto.External.{Backend, IsBackend}
use filum_crypto.Blob.{wrapped_of, encrypt_chunked}
use filum_crypto.Blob.Binding.{WrapForgery}
use filum_crypto.Blob.Integrity.{BodyForgery, decrypt_chunked-intact}
use filum_crypto.Io.{FilePath, World}
use filum_crypto.File.{decrypt_file_chunked}
use filum_crypto.File.TempPath.{IsTemp}
use filum_crypto.File.Guarantees.{decrypt_file_chunked-ok}

elsewhere : FilePath → FilePath
elsewhere p = record p { parent = 0 ∷ p.parent }

elsewhere-ne : (p : FilePath) → elsewhere p ≢ p
unfolding elsewhere
elsewhere-ne p e = absurd (omega (arith, ap {B = ℕ} (λ (q : FilePath). length q.parent) e))

-- Where `decrypt_file_chunked` succeeds on a file that carries the wrapped key of an encrypted frame,
-- the file is that frame, it was opened for its identifier, and the output holds its plaintext; the
-- only other outcomes are a forgery against AES-GCM on the wrapped key and one against STREAM at some
-- segment. The input holds bytes and is not at a temporary path of the output, and the crates meet
-- their laws.
pub decrypt_file_chunked-intact :
    (B : Backend) (L : IsBackend B) (input output : FilePath)
    (plaintext key id framed other id' : Bytes) (s t : B.rng.State) (w w' : World B)
    → ¬ IsTemp output input
    → encrypt_chunked B plaintext key id s ≡ (ok framed, t)
    → AllBytes other
    → wrapped_of other ≡ wrapped_of framed
    → w.files input ≡ some other
    → decrypt_file_chunked B input output key id' w ≡ (ok tt, w')
    → ((other ≡ framed) × (id' ≡ id) × (w'.files output ≡ some plaintext))
      ⊎ (WrapForgery B key framed ⊎ BodyForgery B plaintext key id framed other)
decrypt_file_chunked-intact B L input output plaintext key id framed other id' s t w w' free enc
      bytes same held run =
    let ((msg, dec, written, _), _) =
      decrypt_file_chunked-ok B L.stream input output free other key id' w w' (elsewhere output)
        held (elsewhere-ne output) run in
    elim (decrypt_chunked-intact B L plaintext key id framed other id' msg s t enc bytes same dec) [
      | inl (eo, ei, em) ↦ inl (eo, ei, written ∙ ap some em)
      | inr forged ↦ inr forged
    ]
