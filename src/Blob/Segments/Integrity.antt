-- ===== src/Blob/Segments/Integrity.antt =====
-- A body that a paired decryptor accepts is the body that was sealed, or it holds a forgery.
use mathlib.Core.Path.{subst}
use filum_crypto.Prelude.{
  ℕ, zero, suc, ◌+◌, ◌-◌, ◌*◌, ◌≤◌, Bytes, bytes_cases, some-injective, length, take, drop,
  length-drop, take-append-drop, ◌++◌, ◌≡◌, ◌≢◌, ap, ◌∙◌, sym, ok, then_ok-eq_ok, ok-injective,
  map_err-eq_ok, arith, some, inl, inr, ◌⊎◌,
}
use filum_crypto.External.{Stream, IsStream}
use filum_crypto.Blob.Segments.{seal, unseal}
use filum_crypto.Blob.Segments.RoundTrip.{seal-suc_inv}

module _ (S : Stream) (aad : Bytes) (size : ℕ) where
  -- A decryptor accepts, as some segment of a body, what the encryptor of a text of `full` full
  -- chunks did not write there: other bytes, a last segment in the place of one with more behind it
  -- (the body is cut), or a further segment in the place of the last (the body is extended). Up to
  -- that segment both have the same bytes.
  abbrev pub SegmentForgery : ℕ → ℕ → S.Encryptor → S.Decryptor → Bytes → Bytes → Type 0
  SegmentForgery zero zero enc dec text body =
      (ct out : Bytes) × (S.encrypt_last enc aad text ≡ some ct)
      × (S.decrypt_last dec aad body ≡ some out)
      × (body ≢ ct)
  SegmentForgery zero (suc n) enc dec text body =
      (ct out : Bytes) × (d : S.Decryptor) × (S.encrypt_last enc aad text ≡ some ct)
      × (S.decrypt_next dec aad (take (size + 16) body) ≡ some (out, d))
  SegmentForgery (suc full) zero enc dec text body =
      (ct out : Bytes) × (e : S.Encryptor) × (S.encrypt_next enc aad (take size text)
        ≡ some (ct, e))
      × (S.decrypt_last dec aad body ≡ some out)
  SegmentForgery (suc full) (suc n) enc dec text body =
      (ct out : Bytes) × (e : S.Encryptor) × (d : S.Decryptor) × (S.encrypt_next enc aad
          (take size text)
        ≡ some (ct, e))
      × (S.decrypt_next dec aad (take (size + 16) body) ≡ some (out, d))
      × ((take (size + 16) body ≢ ct)
          ⊎ ((take (size + 16) body ≡ ct)
              × SegmentForgery full n e d (drop size text) (drop (size + 16) body)))

module _ (S : Stream) (L : IsStream S) (aad : Bytes) where
  pub unseal-intact :
      (size full n : ℕ) (enc : S.Encryptor) (dec : S.Decryptor) (msg body body' msg' : Bytes)
      → L.Paired enc dec
      → full * size ≤ length msg
      → seal S size full enc aad msg ≡ ok body
      → unseal S (size + 16) n dec aad body' ≡ ok msg'
      → ((body' ≡ body) × (msg' ≡ msg)) ⊎ SegmentForgery S aad size full n enc dec msg body'
  unfolding seal unseal
  unseal-intact size zero zero enc dec msg body body' msg' paired h e u =
      let made = map_err-eq_ok _ _ e in
      let opened = map_err-eq_ok _ _ u in
      elim (bytes_cases body' body) [
        | inl same ↦
            let back = L.paired_last enc dec aad msg paired made in
            inl (same, some-injective (sym opened ∙ ap (λ k. S.decrypt_last dec aad k) same ∙ back))
        | inr n ↦ inr (body, msg', made, opened, n)
      ]
  unseal-intact size zero (suc n) enc dec msg body body' msg' paired h e u =
      let ((out, d'), eo, _) = then_ok-eq_ok _ _ u in
      inr (body, out, d', map_err-eq_ok _ _ e, map_err-eq_ok _ _ eo)
  unseal-intact size (suc full) zero enc dec msg body body' msg' paired h e u =
      let (ct, enc', rest, next, _, _, _) =
        seal-suc_inv S L size full enc aad msg (omega arith) e in
      inr (ct, msg', enc', next, map_err-eq_ok _ _ u)
  unseal-intact size (suc full) (suc n) enc dec msg body body' msg' paired h e u =
      let (ct, enc', rest, next, er, eb, _) =
        seal-suc_inv S L size full enc aad msg (omega arith) e in
      let ((out, d'), eo, u') = then_ok-eq_ok _ _ u in
      let (rest', eu, em) = then_ok-eq_ok _ _ u' in
      let opened = map_err-eq_ok _ _ eo in
      elim (bytes_cases (take (size + 16) body') ct) [
        | inr n ↦ inr (ct, out, enc', d', next, opened, inl n)
        | inl same ↦
            let (dec', ed, paired') = L.paired_next enc dec aad (take size msg) paired next in
            let both = some-injective (sym opened ∙ ap (λ k. S.decrypt_next dec aad k) same ∙ ed) in
            let left : length (drop size msg) ≡ length msg - size = length-drop size msg in
            elim (unseal-intact size full n enc' d' (drop size msg) rest (drop (size + 16) body')
              rest'
              (subst (λ d. L.Paired enc' d) (sym (ap (λ (x : Bytes × S.Decryptor). x.1) both))
                paired')
              (omega (arith, left)) er eu) [
                | inr f ↦ inr (ct, out, enc', d', next, opened, inr (same, f))
                | inl (eb', em') ↦ inl (
                  sym (take-append-drop (size + 16) body')
                      ∙ ap (λ k. k ++ drop (size + 16) body') same
                      ∙ ap (λ k. ct ++ k) eb'
                      ∙ sym eb,
                  sym (ok-injective em)
                      ∙ ap (λ (x : Bytes × S.Decryptor). x.0 ++ rest') both
                      ∙ ap (λ k. take size msg ++ k) em'
                      ∙ take-append-drop size msg,
                )
              ]
      ]
