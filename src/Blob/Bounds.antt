-- ===== src/Blob/Bounds.antt =====
-- The block counter of the stream bounds what can be encrypted.
use filum_crypto.Prelude.{
  ℕ, zero, suc, ◌+◌, ◌/◌, ◌^◌, ◌<◌, Bytes, length, take, drop, ◌≡◌, ap, ◌∙◌, ok, then_ok-eq_ok,
  map_err-eq_ok, arith,
}
use filum_crypto.External.{Backend, IsBackend, Stream, HasCounter}
use filum_crypto.Blob.{chunk_size, encrypt_chunked}
use filum_crypto.Blob.Segments.{seal}
use filum_crypto.Blob.Sealed.{encrypt_chunked-Sealed}
use filum_crypto.Blob.RoundTrip.{length-encrypt_chunked}

module _ (S : Stream) (C : HasCounter S) where
  seal-counter :
      (size full : ℕ) (enc : S.Encryptor) (aad msg : Bytes) {body : Bytes}
      → C.counter enc < 2 ^ 32
      → seal S size full enc aad msg ≡ ok body
      → C.counter enc + full < 2 ^ 32
  unfolding seal
  seal-counter size zero enc aad msg h e = omega (arith, h)
  seal-counter size (suc full) enc aad msg h e =
      let ((ct, enc'), en, e') = then_ok-eq_ok _ _ e in
      let (rest, er, _) = then_ok-eq_ok _ _ e' in
      let (room, moved) = C.counter_next enc aad (take size msg) (map_err-eq_ok _ _ en) in
      omega (
        arith,
        seal-counter size full enc' aad (drop size msg) (omega (arith, room, moved)) er,
        moved,
      )

-- Where `encrypt_chunked` succeeds, the plaintext has fewer than 2^32 full chunks, as many as the block
-- counter of the stream can tell apart, so it is shorter than 2^52 bytes, and the frame is shorter
-- than 2^53 bytes. The crates meet their laws, and the stream refuses what is past its counter.
pub encrypt_chunked_bounded :
    (B : Backend) (L : IsBackend B) (C : HasCounter B.stream) (plaintext key id framed : Bytes)
    (s t : B.rng.State)
    → encrypt_chunked B plaintext key id s ≡ (ok framed, t)
    → (length plaintext / chunk_size < 2 ^ 32)
      × (length plaintext < 2 ^ 52)
      × (length framed < 2 ^ 53)
encrypt_chunked_bounded B L C plaintext key id framed s t e =
    let sealed = encrypt_chunked-Sealed B L.rng plaintext key id s t e in
    let i = sealed.is_prepared in
    let zero_first : C.counter sealed.prepared.enc ≡ 0 =
      ap C.counter i.encryptor ∙ C.counter_start i.data_key i.nonce_prefix in
    let full : length plaintext / chunk_size < 2 ^ 32 = omega (
      arith,
      zero_first,
      seal-counter B.stream C chunk_size (length plaintext / chunk_size) sealed.prepared.enc
          sealed.prepared.seg_aad plaintext (omega (arith, zero_first)) sealed.segments,
    ) in
    (
      full,
      omega (arith, full),
      omega (arith, full, length-encrypt_chunked B L plaintext key id framed s t e),
    )
