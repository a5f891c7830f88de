-- ===== src/Aad/Layout.antt =====
-- What the functions of aad.rs return, and when they refuse.
use filum_crypto.Prelude.{
  ℕ, ◌+◌, ◌^◌, ◌<◌, Bytes, to_be_bytes, length-to_be_bytes, length, length-append, ltb, ◌++◌, ◌∷◌,
  [], ◌≡◌, refl, ok, err, Error, Bool-cases, inl, inr, ltb→lt, lt→ltb, ltb→le, arith, ◌⊎◌,
}
use filum_crypto.Aad.{blob_domain, field_domain, blob_segment_aad, field_aad, blob_wrap_aad}

-- An identifier that the functions accept.
pub record IsContext (id : Bytes) : Type 0 where
  pub nonempty : 0 < length id
  pub fits : length id < 2 ^ 32

-- The bytes of an identifier behind its length.
abbrev pub prefixed : Bytes → Bytes
prefixed id = to_be_bytes (length id) ++ id

pub length-prefixed : (id : Bytes) → length (prefixed id) ≡ 4 + length id
unfolding prefixed
length-prefixed id =
    omega (arith, length-append (to_be_bytes (length id)) id, length-to_be_bytes (length id))

pub IsContext-cases : (id : Bytes) → IsContext id ⊎ (¬ IsContext id)
IsContext-cases [] = inr (λ c. absurd (omega arith))
IsContext-cases (b ∷ bs) = elim (Bool-cases (ltb (length (b ∷ bs)) (2 ^ 32))) [
  | inl t ↦ inl (record { nonempty = omega arith; fits = ltb→lt _ _ t })
  | inr f ↦ inr (λ c. absurd (omega (arith, ltb→le _ _ f)))
]

pub blob_segment_aad_accepts :
    (id : Bytes) → IsContext id → blob_segment_aad id ≡ ok (blob_domain ++ prefixed id)
unfolding blob_segment_aad
blob_segment_aad_accepts [] c = absurd (omega arith)
blob_segment_aad_accepts (b ∷ bs) c = rw (lt→ltb _ _ c.fits)

pub blob_segment_aad_refuses :
    (id : Bytes) → ¬ IsContext id → blob_segment_aad id ≡ err Error.invalid_context
unfolding blob_segment_aad
blob_segment_aad_refuses [] h = refl
blob_segment_aad_refuses (b ∷ bs) h = elim (Bool-cases (ltb (length (b ∷ bs)) (2 ^ 32))) [
  | inl t ↦ absurd (h (record { nonempty = omega arith; fits = ltb→lt _ _ t }))
  | inr f ↦ rw f
]

pub blob_segment_aad_inv :
    (id : Bytes) {aad : Bytes}
    → blob_segment_aad id ≡ ok aad
    → IsContext id × (aad ≡ blob_domain ++ prefixed id)
blob_segment_aad_inv id e = elim (IsContext-cases id) [
  | inl c ↦ (c, cc (blob_segment_aad_accepts id c))
  | inr n ↦ absurd (cc (blob_segment_aad_refuses id n))
]

-- The fields of a metadata context, behind their lengths.
abbrev pub field_layout : Bytes → Bytes → Bytes
field_layout record_id field_name =
    field_domain
    ++ (to_be_bytes (length record_id)
        ++ (record_id ++ (to_be_bytes (length field_name) ++ field_name)))

pub field_aad_accepts :
    (r f : Bytes) → IsContext r → IsContext f → field_aad r f ≡ ok (field_layout r f)
unfolding field_aad
field_aad_accepts [] f c d = absurd (omega arith)
field_aad_accepts (a ∷ as') [] c d = absurd (omega arith)
field_aad_accepts (a ∷ as') (b ∷ bs) c d = rw (lt→ltb _ _ c.fits, lt→ltb _ _ d.fits)

pub field_aad_refuses :
    (r f : Bytes) → ¬ (IsContext r × IsContext f) → field_aad r f ≡ err Error.invalid_context
unfolding field_aad
field_aad_refuses [] f h = refl
field_aad_refuses (a ∷ as') [] h = refl
field_aad_refuses (a ∷ as') (b ∷ bs) h = elim (Bool-cases (ltb (length (a ∷ as')) (2 ^ 32))) [
  | inr n ↦ rw n
  | inl t ↦ elim (Bool-cases (ltb (length (b ∷ bs)) (2 ^ 32))) [
    | inr n ↦ rw (t, n)
    | inl u ↦ absurd (
        h (
          record { nonempty = omega arith; fits = ltb→lt _ _ t },
          record { nonempty = omega arith; fits = ltb→lt _ _ u },
        ))
  ]
]

pub field_aad_inv :
    (r f : Bytes) {aad : Bytes}
    → field_aad r f ≡ ok aad
    → IsContext r × IsContext f × (aad ≡ field_layout r f)
field_aad_inv r f e = elim (IsContext-cases r) [
  | inr n ↦ absurd (cc (field_aad_refuses r f (λ c. n c.0)))
  | inl c ↦ elim (IsContext-cases f) [
    | inr n ↦ absurd (cc (field_aad_refuses r f (λ d. n d.1)))
    | inl d ↦ (c, d, cc (field_aad_accepts r f c d))
  ]
]

pub blob_wrap_aad_accepts :
    (id : Bytes) (v : ℕ) (p cs : Bytes)
    → IsContext id
    → blob_wrap_aad id v p cs ≡ ok ((blob_domain ++ prefixed id) ++ (v ∷ (p ++ cs)))
unfolding blob_wrap_aad
blob_wrap_aad_accepts id v p cs c = rw (blob_segment_aad_accepts id c)

pub blob_wrap_aad_refuses :
    (id : Bytes) (v : ℕ) (p cs : Bytes)
    → ¬ IsContext id
    → blob_wrap_aad id v p cs ≡ err Error.invalid_context
unfolding blob_wrap_aad
blob_wrap_aad_refuses id v p cs n = rw (blob_segment_aad_refuses id n)

pub blob_wrap_aad_inv :
    (id : Bytes) (v : ℕ) (p cs : Bytes) {aad : Bytes}
    → blob_wrap_aad id v p cs ≡ ok aad
    → IsContext id × (aad ≡ (blob_domain ++ prefixed id) ++ (v ∷ (p ++ cs)))
blob_wrap_aad_inv id v p cs e = elim (IsContext-cases id) [
  | inl c ↦ (c, cc (blob_wrap_aad_accepts id v p cs c))
  | inr n ↦ absurd (cc (blob_wrap_aad_refuses id v p cs n))
]

-- `blob_segment_aad` returns the domain, the length of the identifier as four big-endian bytes and
-- the identifier, if that is neither empty nor 2^32 bytes long or longer; otherwise it refuses
-- with `InvalidContext`.
pub blob_segment_aad_lem :
    (id : Bytes)
    → (IsContext id × (blob_segment_aad id ≡ ok (blob_domain ++ prefixed id)))
      ⊎ ((¬ IsContext id) × (blob_segment_aad id ≡ err Error.invalid_context))
blob_segment_aad_lem id = elim (IsContext-cases id) [
  | inl c ↦ inl (c, blob_segment_aad_accepts id c)
  | inr n ↦ inr (n, blob_segment_aad_refuses id n)
]

-- `field_aad` returns the domain, then the record identifier and the field name, each behind its
-- length, if both are accepted identifiers; otherwise it refuses with `InvalidContext`.
pub field_aad_lem :
    (r f : Bytes)
    → (IsContext r × IsContext f × (field_aad r f ≡ ok (field_layout r f)))
      ⊎ ((¬ (IsContext r × IsContext f)) × (field_aad r f ≡ err Error.invalid_context))
field_aad_lem r f = elim (IsContext-cases r) [
  | inr n ↦ inr (λ c. n c.0, field_aad_refuses r f (λ c. n c.0))
  | inl c ↦ elim (IsContext-cases f) [
    | inr n ↦ inr (λ d. n d.1, field_aad_refuses r f (λ d. n d.1))
    | inl d ↦ inl (c, d, field_aad_accepts r f c d)
  ]
]
