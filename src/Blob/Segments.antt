-- ===== src/Blob/Segments.antt =====
-- The format of a blob's body as a recursion on the number of full chunks, a description of what the
-- loops of blob.rs, in memory and over files, are to compute.
pub mod Memory
pub mod RoundTrip
pub mod Integrity
use filum_crypto.Prelude.{
  ℕ, zero, suc, Bytes, take, drop, ◌++◌, Result, ok, Error, then_ok, map_err, Option,
}
use filum_crypto.External.{Stream}

-- `full` pieces of `size` bytes through `next`, then what is left through `last`.
unfoldable pub segments :
    {St : Type 0}
    → (St → Bytes → Bytes → Option (Bytes × St))
    → (St → Bytes → Bytes → Option Bytes)
    → ℕ
    → ℕ
    → St
    → Bytes
    → Bytes
    → Result Bytes
segments next last size zero st aad text = map_err Error.aead (last st aad text)
segments next last size (suc full) st aad text =
    then_ok (map_err Error.aead (next st aad (take size text))) (λ (out, st').
      then_ok (segments next last size full st' aad (drop size text)) (λ rest. ok (out ++ rest)))

module _ (S : Stream) where
  -- The body of a frame, from the plaintext.
  unfoldable pub seal : ℕ → ℕ → S.Encryptor → Bytes → Bytes → Result Bytes
  unfolding segments
  seal = segments S.encrypt_next S.encrypt_last

  -- The plaintext, from the body.
  unfoldable pub unseal : ℕ → ℕ → S.Decryptor → Bytes → Bytes → Result Bytes
  unfolding segments
  unseal = segments S.decrypt_next S.decrypt_last
