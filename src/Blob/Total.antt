-- ===== src/Blob/Total.antt =====
-- Encryption succeeds where the crates do, and then decryption gives the plaintext back.
use filum_crypto.Prelude.{
  ℕ, zero, suc, ◌+◌, ◌-◌, ◌*◌, ◌/◌, ◌^◌, ◌≤◌, ◌<◌, Bytes, length, take, drop, length-take,
  length-drop, length-append, length-to_be_bytes, ◌%◌, ◌++◌, ◌∷◌, [], ◌≡◌, ok, arith, ==_iff,
}
use filum_crypto.External.{Backend, IsBackend, IsAvailable}
use filum_crypto.Aad.{blob_domain}
use filum_crypto.Aad.Layout.{
  IsContext, prefixed, length-prefixed, blob_segment_aad_accepts, blob_wrap_aad_accepts,
}
use filum_crypto.Blob.{
  chunk_size, chunk_size_be, version, write_header, random, wrap_data_key, Prepared, prepare,
  encrypt_chunked, decrypt_chunked,
}
use filum_crypto.Blob.Segments.{seal}
use filum_crypto.Blob.Segments.Memory.{encrypt_body-seal}
use filum_crypto.Blob.Sealed.{encrypt_chunked-Sealed}
use filum_crypto.Blob.RoundTrip.{decrypt_chunked-Sealed}

module _ (B : Backend) (L : IsBackend B) (A : IsAvailable B) where
  open B use {aead as gcm, rng, stream}

  random_total :
      (n : ℕ) (s : rng.State)
      → (bytes : Bytes) × (t : rng.State) × (random B n s ≡ (ok bytes, t)) × (length bytes ≡ n)
  unfolding random
  random_total n s = let (bytes, t, e) = A.filled n s in (bytes, t, rw e, L.rng.length-fill n s t e)

  wrap_data_key_total :
      (data_key key aad : Bytes) (s : rng.State)
      → length data_key ≡ 32
      → length aad ≤ 2 ^ 36
      → (wrapped : Bytes) × (t : rng.State) × (wrap_data_key B data_key key aad s ≡ (ok wrapped, t))
  unfolding wrap_data_key
  wrap_data_key_total data_key key aad s h a =
      let (iv, t, er, _) = random_total 12 s in
      let (ct, ee) = A.encrypts key iv aad data_key a (omega (arith, h)) in
      let len : length ct ≡ 48 = omega (arith, h, L.aead.length-encrypt key iv aad data_key ee) in
      (iv ++ ct, t, rw (er, ee, (==_iff _ _).1 len))

  seal_total :
      (full left : ℕ) (e : stream.Encryptor) (aad msg : Bytes)
      → A.Ready left e
      → full ≤ left
      → length aad ≤ 2 ^ 36
      → length msg ≤ full * chunk_size + chunk_size
      → (body : Bytes) × (seal stream chunk_size full e aad msg ≡ ok body)
  unfolding seal
  seal_total zero left e aad msg r h a k =
      let (ct, el) = A.ready_last left e aad msg r a (omega (arith, k)) in (ct, rw el)
  seal_total (suc full) zero e aad msg r h a k = absurd (omega (arith, h))
  seal_total (suc full) (suc left) e aad msg r h a k =
      let (ct, e', en, r') =
        A.ready_next left e aad (take chunk_size msg) r a
          (omega (arith, length-take chunk_size msg)) in
      let (rest, es) =
        seal_total full left e' aad (drop chunk_size msg) r' (omega (arith, h)) a
          (omega (arith, k, length-drop chunk_size msg)) in
      (ct ++ rest, rw (en, es))

  length-seg_aad : (id : Bytes) → length (blob_domain ++ prefixed id) ≡ 24 + length id
  length-seg_aad id = omega (arith, length-append blob_domain (prefixed id), length-prefixed id)

  -- `prepare` succeeds on every accepted identifier, with associated data of at most 2^36 bytes.
  pub prepare_total :
      (key id : Bytes) (s : rng.State)
      → IsContext id
      → (p : Prepared B) × (t : rng.State) × (prepare B key id s ≡ (ok p, t))
        × A.Ready (2 ^ 32 - 1) p.enc
        × (length p.seg_aad ≤ 2 ^ 36)
  unfolding prepare
  prepare_total key id s c =
      let (data_key, s1, e1, hk) = random_total 32 s in
      let (prefix, s2, e2, hp) = random_total 7 s1 in
      let wrap_aad = (blob_domain ++ prefixed id) ++ (version ∷ (prefix ++ chunk_size_be)) in
      let short : length wrap_aad ≤ 2 ^ 36 = omega (
        arith,
        c.fits,
        length-seg_aad id,
        hp,
        length-append (blob_domain ++ prefixed id) (version ∷ (prefix ++ chunk_size_be)),
        length-append prefix chunk_size_be,
        length-to_be_bytes (chunk_size % 2 ^ 32),
      ) in
      let (wrapped, t, ew) = wrap_data_key_total data_key key wrap_aad s2 hk short in
      (
        record {
          seg_aad = blob_domain ++ prefixed id;
          header = write_header [] wrapped prefix;
          enc = stream.encryptor data_key prefix;
        },
        t,
        rw (
          blob_segment_aad_accepts id c,
          e1,
          e2,
          blob_wrap_aad_accepts id version prefix chunk_size_be c,
          ew,
        ),
        A.ready_start data_key prefix,
        omega (arith, c.fits, length-seg_aad id),
      )

  -- Where no crate fails and the crates meet their laws, any plaintext of fewer than 2^32 chunks
  -- can be encrypted under any key for any accepted identifier, and decryption of the frame gives
  -- it back.
  pub encrypt_chunked_total :
      (plaintext key id : Bytes) (s : rng.State)
      → IsContext id
      → length plaintext / chunk_size < 2 ^ 32
      → (framed : Bytes) × (t : rng.State) × (encrypt_chunked B plaintext key id s ≡ (ok framed, t))
        × (decrypt_chunked B framed key id ≡ ok plaintext)
  unfolding encrypt_chunked
  encrypt_chunked_total plaintext key id s c h =
      let (p, t, e, r, a) = prepare_total key id s c in
      let full = length plaintext / chunk_size in
      let (body, eb) =
        seal_total full (2 ^ 32 - 1) p.enc p.seg_aad plaintext r (omega (arith, h)) a
          (omega arith) in
      let done : encrypt_chunked B plaintext key id s ≡ (ok (p.header ++ body), t) =
        encrypted p t body e eb in
      (
        p.header ++ body,
        t,
        done,
        decrypt_chunked-Sealed B L plaintext key id _
            (encrypt_chunked-Sealed B L.rng plaintext key id s t done),
      )
    where
      encrypted :
          (p : Prepared B) (t : rng.State) (body : Bytes)
          → prepare B key id s ≡ (ok p, t)
          → seal stream chunk_size (length plaintext / chunk_size) p.enc p.seg_aad plaintext
            ≡ ok body
          → encrypt_chunked B plaintext key id s ≡ (ok (p.header ++ body), t)
      encrypted p t body e eb =
          rw (encrypt_chunked, e, encrypt_body-seal B plaintext p.enc p.seg_aad p.header, eb)
