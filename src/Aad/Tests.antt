-- ===== src/Aad/Tests.antt =====
-- The golden bytes of aad.rs, and the theorems at concrete identifiers.
use filum_crypto.Prelude.{
  ℕ, Bytes, bytes_of, to_be_bytes, ◌++◌, ◌∷◌, [], ◌≡◌, ◌≢◌, refl, ok, err, Error,
}
use filum_crypto.Aad.{blob_domain, field_domain, blob_segment_aad, field_aad, blob_wrap_aad}
use filum_crypto.Aad.Injective.{
  blob_segment_aad-injective, blob_wrap_aad-injective, field_aad-injective,
  blob_segment_aad-ne-field_aad,
}

abbrev abc : Bytes
abc = bytes_of "abc"

abbrev segment_abc : Bytes
segment_abc = blob_domain ++ (0 ∷ 0 ∷ 0 ∷ 3 ∷ abc)

abbrev prefix : Bytes
prefix = 1 ∷ 2 ∷ 3 ∷ 4 ∷ 5 ∷ 6 ∷ 7 ∷ []

abbrev size : Bytes
size = 0 ∷ 16 ∷ 0 ∷ 0 ∷ []

abbrev wrap_abc : Bytes
wrap_abc = segment_abc ++ (2 ∷ (prefix ++ size))

abbrev field_rec_name : Bytes
field_rec_name =
    field_domain ++ (0 ∷ 0 ∷ 0 ∷ 5 ∷ (bytes_of "rec-1" ++ (0 ∷ 0 ∷ 0 ∷ 4 ∷ bytes_of "name")))

segment_golden : blob_segment_aad abc ≡ ok segment_abc
unfolding blob_segment_aad to_be_bytes
segment_golden = refl

wrap_golden : blob_wrap_aad abc 2 prefix size ≡ ok wrap_abc
unfolding blob_wrap_aad to_be_bytes
wrap_golden = refl

field_golden : field_aad (bytes_of "rec-1") (bytes_of "name") ≡ ok field_rec_name
unfolding field_aad to_be_bytes
field_golden = refl

empty_ids :
    (blob_segment_aad [] ≡ err Error.invalid_context)
    × (blob_wrap_aad [] 2 prefix size ≡ err Error.invalid_context)
    × (field_aad [] (bytes_of "name") ≡ err Error.invalid_context)
    × (field_aad (bytes_of "rec-1") [] ≡ err Error.invalid_context)
unfolding blob_wrap_aad field_aad
empty_ids = (refl, refl, refl, refl)

blob_segment_aad-injective_example : (abc ≡ abc) × ◌≡◌ {A = Bytes} (5 ∷ []) (5 ∷ [])
blob_segment_aad-injective_example =
    blob_segment_aad-injective abc abc (5 ∷ []) (5 ∷ []) segment_golden segment_golden refl

blob_wrap_aad-injective_example : (abc ≡ abc) × ◌≡◌ {A = ℕ} 2 2 × (prefix ≡ prefix) × (size ≡ size)
blob_wrap_aad-injective_example =
    blob_wrap_aad-injective abc abc 2 2 prefix prefix size size refl wrap_golden wrap_golden

field_aad-injective_example :
    (bytes_of "rec-1" ≡ bytes_of "rec-1") × (bytes_of "name" ≡ bytes_of "name")
field_aad-injective_example = field_aad-injective _ _ _ _ field_golden field_golden

blob_segment_aad-ne-field_aad_example : (segment_abc ++ []) ≢ (field_rec_name ++ [])
blob_segment_aad-ne-field_aad_example =
    blob_segment_aad-ne-field_aad abc _ _ [] [] segment_golden field_golden
