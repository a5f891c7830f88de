-- ===== src/Prelude/Words.antt =====
-- Byte strings as lists of numbers: texts by their bytes, equality tests, big-endian words.
use Prim.Native.Nat.{ℕ, zero, suc, ◌+◌, ◌*◌, ◌/◌, ◌%◌, ◌^◌, ◌<◌}
use Prim.Native.Char.{code}
use Prim.Native.String.{String}
use mathlib.Core.Path.{◌≡◌, refl, ap, sym, ◌∙◌}
use mathlib.Core.Bool.{Bool, true, false, ◌&&◌}
use mathlib.Core.Logic.{◌⊎◌, ◌≢◌, inl, inr}
use mathlib.Core.List.{List, [], ◌∷◌}
use native.Mathlib.Omega.{arith}
use filum_crypto.Prelude.Tests.{◌==◌, Bool-cases}
use filum_crypto.Prelude.Lists.{length, take, drop}

-- `[u8]`, `Vec<u8>` and the bytes of a `str`.
abbrev pub Bytes : Type 0
Bytes = List ℕ

-- The bytes of an ASCII text.
abbrev pub bytes_of : String → Bytes
bytes_of String.[] = []
bytes_of (String.◌∷◌ c s) = code c ∷ bytes_of s

abbrev pub AllBytes : Bytes → Type 0
AllBytes [] = Unit {0}
AllBytes (b ∷ bs) = (b < 256) × AllBytes bs

abbrev pub is_empty : Bytes → Bool
is_empty [] = true
is_empty (b ∷ bs) = false

abbrev pub bytes_eq : Bytes → Bytes → Bool
bytes_eq [] [] = true
bytes_eq [] (y ∷ ys) = false
bytes_eq (x ∷ xs) [] = false
bytes_eq (x ∷ xs) (y ∷ ys) = x == y && bytes_eq xs ys

pub bytes_eq→eq : (xs ys : Bytes) → bytes_eq xs ys ≡ true → xs ≡ ys
bytes_eq→eq [] [] h = refl
bytes_eq→eq [] (y ∷ ys) h = cc
bytes_eq→eq (x ∷ xs) [] h = cc
bytes_eq→eq (x ∷ xs) (y ∷ ys) h = ground (arith, bytes_eq→eq xs ys)

pub bytes_eq_refl : (xs : Bytes) → bytes_eq xs xs ≡ true
bytes_eq_refl [] = refl
bytes_eq_refl (x ∷ xs) = ground (arith, bytes_eq_refl xs)

-- `u32::to_be_bytes` on a number below 2^32.
unfoldable pub to_be_bytes : ℕ → Bytes
to_be_bytes n = (n / 2 ^ 24 % 256) ∷ (n / 2 ^ 16 % 256) ∷ (n / 2 ^ 8 % 256) ∷ (n % 256) ∷ []

-- `from_be_bytes`, of a `u32` or a `u64` by the number of bytes.
unfoldable pub be_value : ℕ → Bytes → ℕ
be_value acc [] = acc
be_value acc (b ∷ bs) = be_value (acc * 256 + b) bs

unfoldable pub from_be_bytes : Bytes → ℕ
unfolding be_value
from_be_bytes bs = be_value 0 bs

pub length-to_be_bytes : (n : ℕ) → length (to_be_bytes n) ≡ 4
unfolding to_be_bytes
length-to_be_bytes n = refl

pub from_be_bytes-to_be_bytes : (n : ℕ) → n < 2 ^ 32 → from_be_bytes (to_be_bytes n) ≡ n
unfolding from_be_bytes to_be_bytes
from_be_bytes-to_be_bytes n h = omega arith

pub to_be_bytes-injective :
    (m n : ℕ) → m < 2 ^ 32 → n < 2 ^ 32 → to_be_bytes m ≡ to_be_bytes n → m ≡ n
to_be_bytes-injective m n hm hn e =
    sym (from_be_bytes-to_be_bytes m hm) ∙ ap from_be_bytes e ∙ from_be_bytes-to_be_bytes n hn

pub AllBytes-take : (n : ℕ) (bs : Bytes) → AllBytes bs → AllBytes (take n bs)
AllBytes-take zero bs h = tt
AllBytes-take (suc n) [] h = tt
AllBytes-take (suc n) (b ∷ bs) h = (h.0, AllBytes-take n bs h.1)

pub AllBytes-drop : (n : ℕ) (bs : Bytes) → AllBytes bs → AllBytes (drop n bs)
AllBytes-drop zero bs h = h
AllBytes-drop (suc n) [] h = tt
AllBytes-drop (suc n) (b ∷ bs) h = AllBytes-drop n bs h.1

-- Four bytes are the big-endian form of the number that they spell.
pub to_be_bytes-from_be_bytes :
    (bs : Bytes) → length bs ≡ 4 → AllBytes bs → to_be_bytes (from_be_bytes bs) ≡ bs
unfolding to_be_bytes from_be_bytes
to_be_bytes-from_be_bytes [] l h = absurd (omega arith)
to_be_bytes-from_be_bytes (a ∷ []) l h = absurd (omega arith)
to_be_bytes-from_be_bytes (a ∷ b ∷ []) l h = absurd (omega arith)
to_be_bytes-from_be_bytes (a ∷ b ∷ c ∷ []) l h = absurd (omega arith)
to_be_bytes-from_be_bytes (a ∷ b ∷ c ∷ d ∷ []) l (ha, (hb, (hc, (hd, _)))) = ground arith
to_be_bytes-from_be_bytes (a ∷ b ∷ c ∷ d ∷ e ∷ es) l h = absurd (omega arith)

pub bytes_cases : (xs ys : Bytes) → (xs ≡ ys) ⊎ (xs ≢ ys)
bytes_cases xs ys = elim (Bool-cases (bytes_eq xs ys)) [
  | inl t ↦ inl (bytes_eq→eq xs ys t)
  | inr f ↦
      inr (λ e. absurd (cc (sym f ∙ ap (λ (k : Bytes). bytes_eq xs k) (sym e) ∙ bytes_eq_refl xs)))
]
