-- ===== src/Blob/Key.antt =====
-- `wrap_data_key` and `unwrap_data_key`.
use filum_crypto.Prelude.{
  ℕ, lift, Bytes, length, take, drop, length-append, take-append_at, drop-append_at, ==_iff, ◌++◌,
  ◌≡◌, ap, ok, Error, map_err, continue-eq_ok, some, arith,
}
use filum_crypto.External.{Backend, IsRng}
use filum_crypto.Blob.{random, wrap_data_key, unwrap_data_key}

module _ (B : Backend) where
  open B use {aead as gcm, rng}

  pub random_inv :
      (n : ℕ) (s t : rng.State) {bytes : Bytes}
      → random B n s ≡ (ok bytes, t)
      → rng.fill n s ≡ (some bytes, t)
  unfolding random
  random_inv n s t e = ground arith

  pub length-random :
      IsRng rng
      → (n : ℕ) (s t : rng.State) {bytes : Bytes} → random B n s ≡ (ok bytes, t)
      → length bytes ≡ n
  length-random R n s t e = R.length-fill n s t (random_inv n s t e)

  -- What a success of `wrap_data_key` has done.
  pub wrap_data_key_inv :
      (data_key key aad : Bytes) (s t : rng.State) {wrapped : Bytes}
      → wrap_data_key B data_key key aad s ≡ (ok wrapped, t)
      → (iv ct : Bytes) × (random B 12 s ≡ (ok iv, t))
        × (gcm.encrypt key iv aad data_key ≡ some ct)
        × (wrapped ≡ iv ++ ct)
        × (length ct ≡ 48)
  unfolding wrap_data_key
  wrap_data_key_inv data_key key aad s t e =
      let (iv, s', e1, e2) = continue-eq_ok (random B 12 s) _ e in
      let (ct, s'', e3, e4) =
        continue-eq_ok (lift (map_err Error.aead (gcm.encrypt key iv aad data_key)) s') _ e2 in
      (iv, ct, ground arith, ground arith, ground arith, ground arith)

  pub length-wrap_data_key :
      IsRng rng
      → (data_key key aad : Bytes) (s t : rng.State) {wrapped : Bytes}
      → wrap_data_key B data_key key aad s ≡ (ok wrapped, t)
      → length wrapped ≡ 60
  length-wrap_data_key R data_key key aad s t e =
      let (iv, ct, ei, _, ew, el) = wrap_data_key_inv data_key key aad s t e in
      omega (arith, ap (λ (k : Bytes). length k) ew, length-append iv ct, length-random R 12 s t ei)

  -- `unwrap_data_key` succeeds exactly on 60 bytes whose last 48 decrypt, under the first 12 as
  -- nonce, to 32 bytes.
  pub unwrap_data_key_accepts :
      (iv ct key aad data_key : Bytes)
      → length iv ≡ 12
      → length ct ≡ 48
      → length data_key ≡ 32
      → gcm.decrypt key iv aad ct ≡ some data_key
      → unwrap_data_key B (iv ++ ct) key aad ≡ ok data_key
  unfolding unwrap_data_key
  unwrap_data_key_accepts iv ct key aad data_key hi hc hk e =
      let sum : length (iv ++ ct) ≡ 60 = omega (arith, length-append iv ct) in
      rw (
        (==_iff _ _).1 sum,
        take-append_at 12 iv ct hi,
        drop-append_at 12 iv ct hi,
        e,
        (==_iff _ _).1 hk,
      )

  pub unwrap_data_key_inv :
      (wrapped key aad : Bytes) {data_key : Bytes}
      → unwrap_data_key B wrapped key aad ≡ ok data_key
      → (length wrapped ≡ 60)
        × (length data_key ≡ 32)
        × (gcm.decrypt key (take 12 wrapped) aad (drop 12 wrapped) ≡ some data_key)
  unfolding unwrap_data_key
  unwrap_data_key_inv wrapped key aad e = ground arith
