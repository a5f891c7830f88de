-- ===== src/Blob/Segments/Memory.antt =====
-- The loops of `encrypt_chunked` and `decrypt_chunked` compute `seal` and `unseal`.
use mathlib.Core.List.{append_assoc}
use filum_crypto.Prelude.{
  ℕ, zero, suc, ◌+◌, ◌-◌, ◌*◌, ◌/◌, ◌≤◌, ◌<◌, Bytes, length, take, drop, length-drop, drop-drop,
  take_all, drop_all, ◌++◌, ◌∷◌, [], List, ◌≡◌, refl, ap, ◌∙◌, sym, Result, ok, err, Error, then_ok,
  map_err, Option-cases, inl, inr, arith,
}
use filum_crypto.External.{Backend}
use filum_crypto.Blob.{
  chunk_size, chunks_from, encrypt_chunks, encrypt_body, decrypt_segments, decrypt_body,
}
use filum_crypto.Blob.Segments.{seal, unseal}

-- A result with a text in front of it.
abbrev pub in_front : Bytes → Result Bytes → Result Bytes
in_front out r = then_ok r (λ rest. ok (out ++ rest))

pub in_front-nil : (r : Result Bytes) → in_front [] r ≡ r
in_front-nil (ok a) = refl
in_front-nil (err e) = refl

pub in_front-in_front :
    (a b : Bytes) (r : Result Bytes) → in_front (a ++ b) r ≡ in_front a (in_front b r)
in_front-in_front a b (ok c) = rw (append_assoc a b c)
in_front-in_front a b (err e) = refl

chunks_from-nil : (fuel size : ℕ) → chunks_from {A = ℕ} fuel size [] ≡ []
unfolding chunks_from
chunks_from-nil zero size = refl
chunks_from-nil (suc fuel) size = refl

chunks_from-cons :
    (fuel size : ℕ) (xs : Bytes)
    → 0 < length xs
    → length xs ≤ fuel
    → (c : Bytes) × (cs : List Bytes) × (chunks_from fuel size xs ≡ c ∷ cs)
unfolding chunks_from
chunks_from-cons zero size xs h k = absurd (omega arith)
chunks_from-cons (suc fuel) size [] h k = absurd (omega arith)
chunks_from-cons (suc fuel) size (x ∷ xs) h k = (_, _, refl)

module _ (B : Backend) where
  open B use {stream}

  encrypt_chunks-seal :
      (size full i n : ℕ) (msg : Bytes) (enc : stream.Encryptor) (aad out : Bytes)
      → n ≡ (i + full) * size
      → then_ok (encrypt_chunks B size full i msg enc aad out) (λ (out', enc').
        then_ok
          (map_err Error.aead (stream.encrypt_last enc' aad (drop n msg)))
          (λ ct. ok (out' ++ ct)))
        ≡ in_front out (seal stream size full enc aad (drop (i * size) msg))
  unfolding encrypt_chunks seal
  encrypt_chunks-seal size zero i n msg enc aad out h =
      let same : n ≡ i * size = omega (arith, h) in rw same
  encrypt_chunks-seal size (suc full) i n msg enc aad out h =
      elim (Option-cases (stream.encrypt_next enc aad (take size (drop (i * size) msg)))) [
        | inl e ↦ rw e
        | inr ((ct, enc'), e) ↦ rw e (
            encrypt_chunks-seal size full (i + 1) n msg enc' aad (out ++ ct) (omega (arith, h))
            ∙ in_front-in_front out ct _
            ∙ ap (λ k. in_front out (in_front ct (seal stream size full enc' aad k)))
                (next_chunk i))
      ]
    where
      next_chunk : (j : ℕ) → drop ((j + 1) * size) msg ≡ drop size (drop (j * size) msg)
      next_chunk j =
          let step : (j + 1) * size ≡ j * size + size = omega arith in
          rw step (sym (drop-drop size (j * size) msg))

  -- The whole body in memory.
  pub encrypt_body-seal :
      (msg : Bytes) (enc : stream.Encryptor) (aad out : Bytes)
      → encrypt_body B msg enc aad out
        ≡ in_front out (seal stream chunk_size (length msg / chunk_size) enc aad msg)
  unfolding encrypt_body
  encrypt_body-seal msg enc aad out =
      encrypt_chunks-seal chunk_size (length msg / chunk_size) 0
        (length msg / chunk_size * chunk_size) msg enc aad out (omega arith)

  decrypt_segments-unseal :
      (size full fuel : ℕ) (body : Bytes) (dec : stream.Decryptor) (aad out : Bytes)
      → 0 < size
      → full * size < length body
      → length body ≤ (full + 1) * size
      → length body ≤ fuel
      → decrypt_segments B (chunks_from fuel size body) dec aad out
        ≡ in_front out (unseal stream size full dec aad body)
  unfolding decrypt_segments unseal chunks_from
  decrypt_segments-unseal size full zero body dec aad out hs lo hi hf = absurd (omega arith)
  decrypt_segments-unseal size full (suc fuel) [] dec aad out hs lo hi hf = absurd (omega arith)
  decrypt_segments-unseal size zero (suc fuel) (x ∷ xs) dec aad out hs lo hi hf = rw (
    drop_all size (x ∷ xs) (omega arith),
    chunks_from-nil fuel size,
    take_all size (x ∷ xs) (omega arith),
  )
  decrypt_segments-unseal size (suc full) (suc fuel) (x ∷ xs) dec aad out hs lo hi hf =
      let body : Bytes = x ∷ xs in
      let left : length (drop size body) ≡ length body - size = length-drop size body in
      let (c, cs, e) =
        chunks_from-cons fuel size (drop size body) (omega (arith, left)) (omega (arith, left)) in
      rw e (elim (Option-cases (stream.decrypt_next dec aad (take size body))) [
        | inl n ↦ rw n
        | inr ((msg, dec'), n) ↦ rw n (
            rw (e) at (
              decrypt_segments-unseal size full fuel (drop size body) dec' aad (out ++ msg) hs
                (omega (arith, left)) (omega (arith, left)) (omega (arith, left)))
            ∙ in_front-in_front out msg _)
      ])

  -- The whole body in memory: the last of its chunks is the last segment, whatever its length.
  pub decrypt_body-unseal :
      (size full : ℕ) (body : Bytes) (dec : stream.Decryptor) (aad : Bytes)
      → 0 < size
      → full * size < length body
      → length body ≤ (full + 1) * size
      → decrypt_body B size body dec aad ≡ unseal stream size full dec aad body
  unfolding decrypt_body
  decrypt_body-unseal size full body dec aad hs lo hi =
      let (c, cs, e) = chunks_from-cons (length body) size body (omega arith) (omega arith) in
      rw (e, decrypt_body)
        (rw e at
            (decrypt_segments-unseal size full (length body) body dec aad [] hs lo hi (omega arith))
          ∙ in_front-nil _)

  pub decrypt_body-nil :
      (size : ℕ) (dec : stream.Decryptor) (aad : Bytes)
      → decrypt_body B size [] dec aad ≡ err Error.aead
  unfolding decrypt_body
  decrypt_body-nil size dec aad = refl
