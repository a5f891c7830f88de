-- ===== src/Toy.antt =====
-- A concrete backend for the tests: checksums in the place of cryptography. It shows that what the
-- theorems assume of the crates can be met, and it runs.
use mathlib.Core.Path.{subst}
use filum_crypto.Prelude.{
  ltb→lt, some-injective, ℕ, suc, ◌+◌, ◌-◌, ◌*◌, ◌%◌, ◌^◌, ◌≤◌, ◌<◌, Bytes, bytes_eq, bytes_eq_refl,
  length, take, drop, replicate, length-append, length-replicate, take-append_at, drop-append_at,
  ltb, le→ltb, lt→ltb, Bool-cases, if◌then◌else◌, ◌++◌, ◌∷◌, [], ◌≡◌, refl, ap, sym, Option, some,
  none, true, inl, inr, arith,
}
use filum_crypto.External.{
  Aead, IsAead, Stream, IsStream, Rng, IsRng, Hkdf, Bip39, Ed25519, Backend, IsBackend, IsAvailable,
  HasCounter,
}

abbrev checksum : Bytes → ℕ
checksum [] = 7
checksum (b ∷ bs) = (31 * checksum bs + b) % 256

abbrev pub tag : Bytes → Bytes → Bytes → Bytes
tag key nonce aad = replicate 16 ((checksum key + checksum nonce + checksum aad) % 256)

abbrev pub lock : Bytes → Bytes → Bytes → Bytes → Bytes
lock key nonce aad msg = msg ++ tag key nonce aad

abbrev pub unlock : Bytes → Bytes → Bytes → Bytes → Option Bytes
unlock key nonce aad ct =
    if ltb (length ct) 16
    then none
    else if bytes_eq (drop (length ct - 16) ct) (tag key nonce aad)
    then some (take (length ct - 16) ct)
    else none

length-lock : (key nonce aad msg : Bytes) → length (lock key nonce aad msg) ≡ length msg + 16
length-lock key nonce aad msg = length-append msg (tag key nonce aad)

unlock-lock : (key nonce aad msg : Bytes) → unlock key nonce aad (lock key nonce aad msg) ≡ some msg
unlock-lock key nonce aad msg =
    let len : length msg ≡ length (lock key nonce aad msg) - 16 =
      omega (arith, length-lock key nonce aad msg) in
    let long : 16 ≤ length (lock key nonce aad msg) =
      omega (arith, length-lock key nonce aad msg) in
    rw (
      le→ltb _ 16 long,
      drop-append_at _ msg (tag key nonce aad) len,
      bytes_eq_refl (tag key nonce aad),
      take-append_at _ msg (tag key nonce aad) len,
    )

unlock_short : (key nonce aad ct : Bytes) → length ct < 16 → unlock key nonce aad ct ≡ none
unlock_short key nonce aad ct h = rw (lt→ltb _ _ h)

abbrev pub aead : Aead
aead = record { encrypt = λ k n a m. some (lock k n a m); decrypt = unlock }

pub aead-IsAead : IsAead aead
aead-IsAead = record {
  decrypt-encrypt = λ k n a m e. rw (← some-injective e) (unlock-lock k n a m);
  length-encrypt = λ k n a m e. rw (← some-injective e) (length-lock k n a m);
}

-- A cipher position: key, nonce prefix, number of segments so far.
abbrev Position : Type 0
Position = record { key : Bytes; prefix : Bytes; at : ℕ }

abbrev nonce : Position → ℕ → Bytes
nonce p last = p.prefix ++ (p.at ∷ last ∷ [])

abbrev pub start : Bytes → Bytes → Position
start key prefix = record { key = key; prefix = prefix; at = 0 }

abbrev forward : Position → Position
forward p = record { key = p.key; prefix = p.prefix; at = suc p.at }

abbrev next_segment : Position → Bytes → Bytes → Option (Bytes × Position)
next_segment p aad msg =
    if ltb p.at (2 ^ 32 - 1) then some (lock p.key (nonce p 0) aad msg, forward p) else none

abbrev open_segment : Position → Bytes → Bytes → Option (Bytes × Position)
open_segment p aad ct =
    if ltb p.at (2 ^ 32 - 1)
    then elim (unlock p.key (nonce p 0) aad ct) [ none ↦ none | some msg ↦ some (msg, forward p) ]
    else none

abbrev pub stream : Stream
stream = record {
  Encryptor = Position;
  Decryptor = Position;
  encryptor = start;
  decryptor = start;
  encrypt_next = next_segment;
  encrypt_last = λ p aad msg. some (lock p.key (nonce p 1) aad msg);
  decrypt_next = open_segment;
  decrypt_last = λ p aad ct. unlock p.key (nonce p 1) aad ct;
}

next_segment_inv :
    (p : Position) (aad msg : Bytes) {ct : Bytes} {q : Position}
    → next_segment p aad msg ≡ some (ct, q)
    → (ltb p.at (2 ^ 32 - 1) ≡ true) × (lock p.key (nonce p 0) aad msg ≡ ct) × (forward p ≡ q)
next_segment_inv p aad msg e = elim (Bool-cases (ltb p.at (2 ^ 32 - 1))) [
  | inl t ↦ let e' = rw t at e in (t, cc e', cc e')
  | inr f ↦ absurd (cc (rw f at e))
]

open-next_segment :
    (p : Position) (aad msg : Bytes)
    → ltb p.at (2 ^ 32 - 1) ≡ true
    → open_segment p aad (lock p.key (nonce p 0) aad msg) ≡ some (msg, forward p)
open-next_segment p aad msg t = rw (t, unlock-lock p.key (nonce p 0) aad msg)

pub stream-IsStream : IsStream stream
stream-IsStream = record {
  Paired = λ e d. e ≡ d;
  paired_start = λ k p. refl;
  paired_next = λ e d aad msg same h.
      let (room, lc, lq) = next_segment_inv e aad msg h in
      (
        forward e,
        subst (λ (c : Bytes). open_segment d aad c ≡ some (msg, forward e)) lc
            (subst
              (λ (k : Position).
                open_segment k aad (lock e.key (nonce e 0) aad msg) ≡ some (msg, forward e))
              same (open-next_segment e aad msg room)),
        sym lq,
      );
  paired_last =
      λ e d aad msg same h. rw (← some-injective h, ← same) (unlock-lock e.key (nonce e 1) aad msg);
  length-encrypt_next = λ e aad msg h.
      rw (← (next_segment_inv e aad msg h).1) (length-lock e.key (nonce e 0) aad msg);
  length-encrypt_last =
      λ e aad msg h. rw (← some-injective h) (length-lock e.key (nonce e 1) aad msg);
  decrypt_last_short = λ d aad ct h. unlock_short d.key (nonce d 1) aad ct h;
}

-- A counter in the place of a random source.
abbrev pub rng : Rng
rng = record { State = ℕ; fill = λ n s. (some (replicate n (s % 256)), suc s) }

pub rng-IsRng : IsRng rng
rng-IsRng = record {
  length-fill = λ n s t e.
      rw (← some-injective (ap (λ (x : Option Bytes × ℕ). x.0) e)) (length-replicate n (s % 256));
}

abbrev hkdf : Hkdf
hkdf = record {
  expand = λ secret info n. some (replicate n ((checksum secret + checksum info) % 256));
}

abbrev bip39 : Bip39
bip39 = record {
  Mnemonic = Bytes;
  from_entropy = λ e. some e;
  to_string = λ m. m;
  parse = λ phrase. some phrase;
  to_entropy = λ m. m;
}

abbrev ed25519 : Ed25519
ed25519 = record {
  SigningKey = ℕ;
  VerifyingKey = ℕ;
  signing_key = checksum;
  sign = λ k msg. replicate 64 ((k + checksum msg) % 256);
  verifying_key = λ k. k;
  to_bytes = λ k. k ∷ replicate 31 0;
  from_bytes = λ bytes. elim bytes [ [] ↦ none | k ∷ _ ↦ some k ];
  verify_strict = λ k msg sig. bytes_eq sig (replicate 64 ((k + checksum msg) % 256));
}

abbrev pub backend : Backend
backend = record {
  aead = aead;
  stream = stream;
  rng = rng;
  hkdf = hkdf;
  bip39 = bip39;
  ed25519 = ed25519;
}

pub backend-IsBackend : IsBackend backend
backend-IsBackend = record {
  aead = aead-IsAead;
  stream = stream-IsStream;
  rng = rng-IsRng;
  hkdf = record {
    length-expand = λ secret info n e.
        rw (← some-injective e) (length-replicate n ((checksum secret + checksum info) % 256));
  };
  bip39 = record {
    parse-to_string = λ m. refl;
    to_entropy-from_entropy = λ e h. sym (some-injective h);
  };
  ed25519 = record {
    from_bytes-to_bytes = λ k. refl;
    verify-sign = λ k msg. bytes_eq_refl (replicate 64 ((k + checksum msg) % 256));
    length-sign = λ k msg. length-replicate 64 ((k + checksum msg) % 256);
    length-to_bytes = λ k. refl;
  };
}

pub backend-IsAvailable : IsAvailable backend
backend-IsAvailable = record {
  filled = λ n s. (replicate n (s % 256), suc s, refl);
  encrypts = λ k n a m _ h. (lock k n a m, refl);
  Ready = λ left p. left + p.at ≤ 2 ^ 32 - 1;
  ready_start = λ k p. omega arith;
  ready_next = λ left p a m h _ l. (
    lock p.key (nonce p 0) a m,
    forward p,
    rw (lt→ltb p.at (2 ^ 32 - 1) (omega (arith, h))),
    omega (arith, h),
  );
  ready_last = λ left p a m h _ l. (lock p.key (nonce p 1) a m, refl);
}

pub stream-HasCounter : HasCounter stream
stream-HasCounter = record {
  counter = λ p. p.at;
  counter_start = λ key prefix. refl;
  counter_next = λ e aad msg h.
      let (room, _, moved) = next_segment_inv e aad msg h in
      (ltb→lt _ _ room, sym (ap (λ (p : Position). p.at) moved));
}
