-- ===== src/File/Segments.antt =====
-- The body of a frame in a file and in memory: the loop over a file takes every full chunk of
-- ciphertext for a segment with another behind it.
use filum_crypto.Prelude.{
  ℕ, zero, suc, ◌+◌, ◌*◌, ◌/◌, ◌%◌, ◌≤◌, Bytes, length, take, drop, length-drop, from_be_bytes, ◌∷◌,
  [], Option-cases, inl, inr, err, Error, ◌≡◌, ◌≢◌, refl, ap, sym, arith,
}
use filum_crypto.External.{Backend, Stream, IsStream}
use filum_crypto.Blob.{header_len, chunk_size, first_byte, chunk_size_of, open_header, decrypt_body}
use filum_crypto.Blob.Segments.{unseal}
use filum_crypto.Blob.Segments.Memory.{decrypt_body-unseal}

module _ (S : Stream) (L : IsStream S) where
  -- A body of full chunks alone leaves an empty last segment, which is refused.
  pub unseal_multiple :
      (size full : ℕ) (dec : S.Decryptor) (aad body : Bytes)
      → length body ≡ full * size
      → unseal S size full dec aad body ≡ err Error.aead
  unfolding unseal
  unseal_multiple size zero dec aad body h =
      rw (L.decrypt_last_short dec aad body (omega (arith, h)))
  unseal_multiple size (suc full) dec aad body h =
      elim (Option-cases (S.decrypt_next dec aad (take size body))) [
        | inl e ↦ rw e
        | inr ((msg, dec'), e) ↦ rw (
          e,
          unseal_multiple size full dec' aad (drop size body)
              (omega (arith, h, length-drop size body)),
        )
      ]

module _ (B : Backend) where
  open B use {stream}

  -- Unless the body is a whole number of full chunks, the loop over a file and the loop in memory
  -- read the same segments.
  pub unseal-decrypt_body :
      (body : Bytes) (dec : stream.Decryptor) (aad : Bytes)
      → length body % (chunk_size + 16) ≢ 0
      → unseal stream (chunk_size + 16) (length body / (chunk_size + 16)) dec aad body
        ≡ decrypt_body B (chunk_size + 16) body dec aad
  unseal-decrypt_body body dec aad h = sym (
      decrypt_body-unseal B (chunk_size + 16) (length body / (chunk_size + 16)) body dec aad
        (omega arith) (omega (arith, h)) (omega arith))

take_of_take : (n k : ℕ) (xs : Bytes) → n ≤ k → take n (take k xs) ≡ take n xs
take_of_take zero k xs h = refl
take_of_take (suc n) zero xs h = absurd (omega arith)
take_of_take (suc n) (suc k) [] h = refl
take_of_take (suc n) (suc k) (x ∷ xs) h = ap (λ t. x ∷ t) (take_of_take n k xs (omega arith))

-- A field of the first `k` bytes is a field of the whole.
field_of_take :
    (n m k : ℕ) (xs : Bytes) → n + m ≤ k → take n (drop m (take k xs)) ≡ take n (drop m xs)
field_of_take n zero k xs h = take_of_take n k xs (omega arith)
field_of_take n (suc m) zero xs h = absurd (omega arith)
field_of_take n (suc m) (suc k) [] h = refl
field_of_take n (suc m) (suc k) (x ∷ xs) h = field_of_take n m k xs (omega arith)

first_byte_of_take : (xs : Bytes) → first_byte (take header_len xs) ≡ first_byte xs
first_byte_of_take [] = refl
first_byte_of_take (x ∷ xs) = refl

pub chunk_size_of-take : (xs : Bytes) → chunk_size_of (take header_len xs) ≡ chunk_size_of xs
chunk_size_of-take xs = ap from_be_bytes (field_of_take 4 68 72 xs (omega arith))

-- A header is opened alike alone and in front of a body.
pub open_header_of_take :
    (B : Backend) (framed key id : Bytes)
    → open_header B (take header_len framed) key id ≡ open_header B framed key id
unfolding open_header
open_header_of_take B framed key id = simp (
  first_byte_of_take framed,
  chunk_size_of-take framed,
  field_of_take 7 61 72 framed (omega arith),
  field_of_take 60 1 72 framed (omega arith),
)
