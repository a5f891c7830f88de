-- ===== src/Aad/Injective.antt =====
-- The associated data of distinct contexts is distinct, whatever follows it.
use mathlib.Core.List.{append_assoc}
use filum_crypto.Prelude.{
  ℕ, ◌^◌, ◌<◌, Bytes, to_be_bytes, length-to_be_bytes, to_be_bytes-injective, length, append-cancel,
  drop, ◌++◌, ◌∷◌, [], ◌≡◌, ◌≢◌, refl, sym, ap, ◌∙◌, ok, arith,
}
use filum_crypto.Aad.{blob_domain, field_domain, blob_segment_aad, field_aad, blob_wrap_aad}
use filum_crypto.Aad.Layout.{
  IsContext, prefixed, blob_segment_aad_inv, field_aad_inv, blob_wrap_aad_inv,
}

-- A length-prefixed identifier can be read back from the front of a longer string.
prefixed-cancel :
    (a b u v : Bytes)
    → length a < 2 ^ 32
    → length b < 2 ^ 32
    → to_be_bytes (length a) ++ (a ++ u) ≡ to_be_bytes (length b) ++ (b ++ v)
    → (a ≡ b) × (u ≡ v)
prefixed-cancel a b u v ha hb e =
    let (head, tail) =
      append-cancel (to_be_bytes (length a)) (to_be_bytes (length b)) (a ++ u) (b ++ v)
        (length-to_be_bytes _ ∙ sym (length-to_be_bytes _)) e in
    append-cancel a b u v (to_be_bytes-injective _ _ ha hb head) tail

blob_layout-cancel :
    (a b u v : Bytes)
    → IsContext a
    → IsContext b
    → (blob_domain ++ prefixed a) ++ u ≡ (blob_domain ++ prefixed b) ++ v
    → (a ≡ b) × (u ≡ v)
blob_layout-cancel a b u v ca cb e = prefixed-cancel a b u v ca.fits cb.fits (
    sym (append_assoc _ a u)
    ∙ (append-cancel blob_domain blob_domain _ _ refl e).1
    ∙ append_assoc _ b v)

-- No segment data is the beginning of another's: where two of them agree as far as one reaches,
-- with anything behind them, the identifiers are equal, and so is what follows.
pub blob_segment_aad-injective :
    (a b u v : Bytes) {x y : Bytes}
    → blob_segment_aad a ≡ ok x
    → blob_segment_aad b ≡ ok y
    → x ++ u ≡ y ++ v
    → (a ≡ b) × (u ≡ v)
blob_segment_aad-injective a b u v ea eb e =
    let (ca, xa) = blob_segment_aad_inv a ea in
    let (cb, xb) = blob_segment_aad_inv b eb in
    blob_layout-cancel a b u v ca cb (ap (λ k. k ++ u) (sym xa) ∙ e ∙ ap (λ k. k ++ v) xb)

-- The data of a key wrap determines the blob identifier, the version, the nonce prefix and the
-- chunk size, for nonce prefixes of one length.
pub blob_wrap_aad-injective :
    (a b : Bytes) (v w : ℕ) (p q cs ds : Bytes) {x : Bytes}
    → length p ≡ length q
    → blob_wrap_aad a v p cs ≡ ok x
    → blob_wrap_aad b w q ds ≡ ok x
    → (a ≡ b) × (v ≡ w) × (p ≡ q) × (cs ≡ ds)
blob_wrap_aad-injective a b v w p q cs ds h ea eb =
    let (ca, xa) = blob_wrap_aad_inv a v p cs ea in
    let (cb, xb) = blob_wrap_aad_inv b w q ds eb in
    let (ids, rest) = blob_layout-cancel a b (v ∷ (p ++ cs)) (w ∷ (q ++ ds)) ca cb (sym xa ∙ xb) in
    let (hv, more) = append-cancel (v ∷ []) (w ∷ []) (p ++ cs) (q ++ ds) refl rest in
    let (hp, hcs) = append-cancel p q cs ds h more in (ids, cc hv, hp, hcs)

-- The data of a metadata field determines the record identifier and the field name, so moving
-- bytes across the boundary between the two never gives the same data.
pub field_aad-injective :
    (r s f g : Bytes) {x : Bytes} → field_aad r f ≡ ok x → field_aad s g ≡ ok x → (r ≡ s) × (f ≡ g)
field_aad-injective r s f g er es =
    let (cr, cf, xr) = field_aad_inv r f er in
    let (cs, cg, xs) = field_aad_inv s g es in
    let tails = (append-cancel field_domain field_domain _ _ refl (sym xr ∙ xs)).1 in
    let (records, names) = prefixed-cancel r s (prefixed f) (prefixed g) cr.fits cs.fits tails in
    let (_, fields) =
      append-cancel (to_be_bytes (length f)) (to_be_bytes (length g)) f g
        (length-to_be_bytes _ ∙ sym (length-to_be_bytes _)) names in
    (records, fields)

abbrev first : Bytes → ℕ
first [] = 0
first (b ∷ bs) = b

domains_apart : (u v : Bytes) → (blob_domain ++ u) ≢ (field_domain ++ v)
domains_apart u v e = absurd (omega (arith, ap (λ (k : Bytes). first (drop 16 k)) e))

-- Segment data is never the beginning of a metadata field's data, nor the other way round: the two
-- domains differ inside the shorter one.
pub blob_segment_aad-ne-field_aad :
    (a r f u v : Bytes) {x y : Bytes}
    → blob_segment_aad a ≡ ok x
    → field_aad r f ≡ ok y
    → x ++ u ≢ y ++ v
blob_segment_aad-ne-field_aad a r f u v ea er e =
    let (_, xa) = blob_segment_aad_inv a ea in
    let (_, _, yr) = field_aad_inv r f er in
    domains_apart _ _ (sym (ap (λ k. k ++ u) xa) ∙ e ∙ ap (λ k. k ++ v) yr)
