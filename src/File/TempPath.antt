-- ===== src/File/TempPath.antt =====
-- `sibling_temp_path`: a temporary path is beside the output and never the output itself.
use native.Mathlib.Nat.{pow-suc}
use filum_crypto.Prelude.{
  ℕ, zero, suc, ◌+◌, ◌/◌, ◌%◌, ◌^◌, ◌<◌, Bytes, bytes_of, length, length-append, append-cancel,
  ◌++◌, ◌∷◌, [], Option, none, some, Result, ok, err, Error, ◌⊎◌, inl, inr, ◌≡◌, ◌≢◌, refl, ap, ◌∙◌,
  sym, arith, from_be_bytes,
}
use filum_crypto.External.{Backend}
use filum_crypto.Blob.{random}
use filum_crypto.Io.{FilePath, World}
use filum_crypto.Io.Hoare.{Post, Post-ok}
use filum_crypto.File.{hex_digit, hex, temp_name, sibling_temp_path}

length-hex : (width n : ℕ) → length (hex width n) ≡ width
unfolding hex
length-hex zero n = refl
length-hex (suc width) n =
    omega (
      arith,
      length-append (hex width (n / 16)) (hex_digit (n % 16) ∷ []),
      length-hex width (n / 16),
    )

hex_digit-injective : (a b : ℕ) → a < 16 → b < 16 → hex_digit a ≡ hex_digit b → a ≡ b
hex_digit-injective a b ha hb e = ground arith

-- A number of at most `width` hexadecimal digits can be read back from them.
hex-injective :
    (width m n : ℕ) → m < 16 ^ width → n < 16 ^ width → hex width m ≡ hex width n → m ≡ n
unfolding hex
hex-injective zero m n hm hn e = omega arith
hex-injective (suc width) m n hm hn e =
    let (front, digit) =
      append-cancel (hex width (m / 16)) (hex width (n / 16)) (hex_digit (m % 16) ∷ [])
        (hex_digit (n % 16) ∷ []) (length-hex width _ ∙ sym (length-hex width _)) e in
    let high =
      hex-injective width (m / 16) (n / 16) (omega (arith, hm, pow-suc 16 width))
        (omega (arith, hn, pow-suc 16 width)) front in
    let low = hex_digit-injective (m % 16) (n % 16) (omega arith) (omega arith) (cc digit) in
    omega (arith, high, low)

pub length-temp_name : (name : Bytes) (v : ℕ) → length (temp_name name v) ≡ length name + 22
unfolding temp_name
length-temp_name name v = omega (
  arith,
  length-append name (b'.' ∷ (hex 16 v ++ bytes_of ".part")),
  length-append (hex 16 v) (bytes_of ".part"),
  length-hex 16 v,
)

-- A temporary name determines the name of the output and the random 64-bit suffix, so two
-- decryptions into one directory share a temporary file only if they draw the same suffix for the
-- same name.
pub temp_name-injective :
    (a b : Bytes) (v u : ℕ)
    → v < 2 ^ 64
    → u < 2 ^ 64
    → temp_name a v ≡ temp_name b u
    → (a ≡ b) × (v ≡ u)
unfolding temp_name
temp_name-injective a b v u hv hu e =
    let len : length a ≡ length b =
      omega (arith, length-temp_name a v, length-temp_name b u, ap (λ (k : Bytes). length k) e) in
    let (names, tails) = append-cancel a b _ _ len e in
    let (_, rest) = append-cancel (b'.' ∷ []) (b'.' ∷ []) _ _ refl tails in
    let (digits, _) =
      append-cancel (hex 16 v) (hex 16 u) (bytes_of ".part") (bytes_of ".part")
        (length-hex 16 v ∙ sym (length-hex 16 u)) rest in
    (names, hex-injective 16 v u hv hu digits)

-- A path that `sibling_temp_path` may return for `output`.
pub record IsTemp (output q : FilePath) : Type 0 where
  pub name : Bytes
  pub suffix : ℕ
  pub named : output.file_name ≡ some name
  pub path : q ≡ record output { file_name = some (temp_name name suffix) }

name_length : Option Bytes → ℕ
name_length none = 0
name_length (some name) = length name

pub IsTemp-ne_output : (output q : FilePath) → IsTemp output q → q ≢ output
unfolding name_length
IsTemp-ne_output output q t e =
    let same : some (temp_name t.name t.suffix) ≡ some t.name =
      ap (λ (p : FilePath). p.file_name) (sym t.path ∙ e) ∙ t.named in
    absurd (omega (arith, ap name_length same, length-temp_name t.name t.suffix))

module _ (B : Backend) where
  -- Only the random source has been used.
  abbrev pub Drew : World B → World B → Type 0
  Drew w w' = (w'.files ≡ w.files) × (w'.choices ≡ w.choices) × (w'.buffer ≡ w.buffer)

  -- Why there is no temporary path.
  abbrev pub NoTemp : FilePath → World B → Type 0
  NoTemp output w = (output.file_name ≡ none) ⊎ ((B.rng.fill 8 w.rng).0 ≡ none)

  pub sibling_temp_path_lem :
      (output : FilePath) (w : World B)
      → Post
          (sibling_temp_path B output w)
          (λ q w'. IsTemp output q × Drew w w')
          (λ e w'. Drew w w' × NoTemp output w)
  unfolding sibling_temp_path random
  sibling_temp_path_lem output w = by_draw (B.rng.fill 8 w.rng) refl
    where
      by_name :
          (N : Type 0) (bytes : Bytes) (u : World B) (n : Option Bytes)
          → (output.file_name ≡ none → N)
          → output.file_name ≡ n
          → Drew w u
          → Post
              (
                (elim n as (λ _. Result FilePath) [
                  | none ↦ err Error.io
                  | some name ↦
                      ok (record output { file_name = some (temp_name name (from_be_bytes bytes)) })
                ]),
                u,
              )
              (λ q w'. IsTemp output q × Drew w w')
              (λ e w'. Drew w w' × N)
      by_name N bytes u none f e d = (d, f e)
      by_name N bytes u (some name) f e d =
          (record { name = name; suffix = from_be_bytes bytes; named = e; path = refl }, d)

      by_draw :
          (x : Option Bytes × B.rng.State)
          → B.rng.fill 8 w.rng ≡ x
          → Post
              (sibling_temp_path B output w)
              (λ q w'. IsTemp output q × Drew w w')
              (λ e w'. Drew w w' × NoTemp output w)
      by_draw (none, t) e = rw (sibling_temp_path, random, e, Post) ((refl, refl, refl), inr refl)
      by_draw (some bytes, t) e =
          rw (sibling_temp_path, random, e)
            (by_name ((output.file_name ≡ none) ⊎ (some bytes ≡ none)) bytes (record w { rng = t })
              output.file_name inl refl (refl, refl, refl))

  -- The path that `sibling_temp_path` returns is in the directory of the output, and it is not the
  -- output itself.
  pub sibling_temp_path-ne_output :
      (output q : FilePath) (w w' : World B)
      → sibling_temp_path B output w ≡ (ok q, w')
      → (q ≢ output) × (q.parent ≡ output.parent)
  sibling_temp_path-ne_output output q w w' e =
      let (t, _) =
        Post-ok (sibling_temp_path B output w) (λ p u. IsTemp output p × Drew w u)
          (λ x u. Drew w u × NoTemp output w) (sibling_temp_path_lem output w) e in
      (IsTemp-ne_output output q t, ap (λ (p : FilePath). p.parent) t.path)
