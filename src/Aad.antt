-- ===== src/Aad.antt =====
-- crates/filum-crypto/src/aad.rs: the associated data of format v2. An identifier is the list of
-- its UTF-8 bytes; `Vec::with_capacity` and `reserve` change no value and are left out.
pub mod Layout
pub mod Injective
mod Tests
use filum_crypto.Prelude.{
  ℕ, ◌^◌, Bytes, bytes_of, is_empty, to_be_bytes, length, ltb, if◌then◌else◌, ◌||◌, ◌++◌, ◌∷◌, [],
  Result, ok, err, Error, then_ok,
}

abbrev pub blob_domain : Bytes
blob_domain = bytes_of "filum-crypto/v2/blob"

abbrev pub field_domain : Bytes
field_domain = bytes_of "filum-crypto/v2/field"

-- `u32::try_from(len)`, with its error mapped to `InvalidContext`.
unfoldable pub try_u32 : ℕ → Result ℕ
try_u32 n = if ltb n (2 ^ 32) then ok n else err Error.invalid_context

unfoldable pub blob_segment_aad : Bytes → Result Bytes
unfolding try_u32
blob_segment_aad id =
    if is_empty id
    then err Error.invalid_context
    else then_ok (try_u32 (length id)) (λ len. ok (blob_domain ++ (to_be_bytes len ++ id)))

unfoldable pub field_aad : Bytes → Bytes → Result Bytes
unfolding try_u32
field_aad record_id field_name =
    if is_empty record_id || is_empty field_name
    then err Error.invalid_context
    else then_ok (try_u32 (length record_id)) (λ record_len.
      then_ok (try_u32 (length field_name)) (λ field_len. ok (
        field_domain
        ++ (to_be_bytes record_len ++ (record_id ++ (to_be_bytes field_len ++ field_name))))))

-- The version byte, the nonce prefix and the chunk size follow the segment data.
unfoldable pub blob_wrap_aad : Bytes → ℕ → Bytes → Bytes → Result Bytes
unfolding blob_segment_aad
blob_wrap_aad blob_id version nonce_prefix chunk_size_be =
    then_ok (blob_segment_aad blob_id)
      (λ aad. ok (aad ++ (version ∷ (nonce_prefix ++ chunk_size_be))))
