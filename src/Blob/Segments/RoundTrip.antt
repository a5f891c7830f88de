-- ===== src/Blob/Segments/RoundTrip.antt =====
-- What `unseal` returns on a body that `seal` wrote.
use filum_crypto.Prelude.{
  ℕ, zero, suc, ◌+◌, ◌-◌, ◌*◌, ◌≤◌, Bytes, length, take, drop, length-take, length-drop,
  length-append, take-append_at, drop-append_at, take-append-drop, ◌++◌, ◌≡◌, ap, ok, then_ok-eq_ok,
  map_err-eq_ok, arith, some,
}
use filum_crypto.External.{Stream, IsStream}
use filum_crypto.Blob.Segments.{seal, unseal}

module _ (S : Stream) (L : IsStream S) where
  -- A success of `seal` on at least one full chunk, taken apart.
  pub seal-suc_inv :
      (size full : ℕ) (enc : S.Encryptor) (aad msg : Bytes) {body : Bytes}
      → size ≤ length msg
      → seal S size (suc full) enc aad msg ≡ ok body
      → (ct : Bytes) × (enc' : S.Encryptor) × (rest : Bytes) × (S.encrypt_next enc aad
            (take size msg)
          ≡ some (ct, enc'))
        × (seal S size full enc' aad (drop size msg) ≡ ok rest)
        × (body ≡ ct ++ rest)
        × (length ct ≡ size + 16)
  unfolding seal
  seal-suc_inv size full enc aad msg h e =
      let ((ct, enc'), en, e') = then_ok-eq_ok _ _ e in
      let (rest, er, e'') = then_ok-eq_ok _ _ e' in
      let next = map_err-eq_ok _ _ en in
      (
        ct,
        enc',
        rest,
        next,
        er,
        cc e'',
        omega (arith, L.length-encrypt_next enc aad (take size msg) next, length-take size msg),
      )

  -- A body is longer than its text by 16 bytes for each segment.
  pub length-seal :
      (size full : ℕ) (enc : S.Encryptor) (aad msg : Bytes) {body : Bytes}
      → full * size ≤ length msg
      → seal S size full enc aad msg ≡ ok body
      → length body ≡ length msg + 16 * (full + 1)
  length-seal size zero enc aad msg h e =
      unfold seal in omega (arith, L.length-encrypt_last enc aad msg (map_err-eq_ok _ _ e))
  length-seal size (suc full) enc aad msg h e =
      let (ct, enc', rest, _, er, eb, el) = seal-suc_inv size full enc aad msg (omega arith) e in
      let left : length (drop size msg) ≡ length msg - size = length-drop size msg in
      omega (
        arith,
        length-seal size full enc' aad (drop size msg) (omega (arith, left)) er,
        ap (λ (k : Bytes). length k) eb,
        length-append ct rest,
      )

  pub unseal-seal :
      (size full : ℕ) (enc : S.Encryptor) (dec : S.Decryptor) (aad msg : Bytes) {body : Bytes}
      → L.Paired enc dec
      → full * size ≤ length msg
      → seal S size full enc aad msg ≡ ok body
      → unseal S (size + 16) full dec aad body ≡ ok msg
  unfolding seal unseal
  unseal-seal size zero enc dec aad msg paired h e =
      rw (L.paired_last enc dec aad msg paired (map_err-eq_ok _ _ e))
  unseal-seal size (suc full) enc dec aad msg paired h e =
      let (ct, enc', rest, next, er, eb, el) = seal-suc_inv size full enc aad msg (omega arith) e in
      let (dec', ed, paired') = L.paired_next enc dec aad (take size msg) paired next in
      let left : length (drop size msg) ≡ length msg - size = length-drop size msg in
      let ih =
        unseal-seal size full enc' dec' aad (drop size msg) paired' (omega (arith, left)) er in
      rw (eb, take-append_at (size + 16) ct rest el, drop-append_at (size + 16) ct rest el, ed, ih)
        (ap ok (take-append-drop size msg))
