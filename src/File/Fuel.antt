-- ===== src/File/Fuel.antt =====
-- The fuel of the loops, and what more of it changes.
use filum_crypto.Prelude.{
  continue-cong, ℕ, zero, suc, ◌+◌, ◌-◌, ◌*◌, ◌/◌, ◌≤◌, ◌<◌, Bytes, is_empty, length, length-append,
  length-take, length-drop, drop, drop-drop, ltb, ltb→le, le→ltb, ◌++◌, Bool-cases, inl, inr,
  Option, some, Result, ok, ◌≡◌, ◌≢◌, refl, ap, ◌∙◌, sym, arith,
}
use filum_crypto.External.{Backend}
use filum_crypto.Io.{FilePath, World, Reader, content, read}
use filum_crypto.File.{read_full_loop, read_full, emit_pending, segment_loop, rounds}
use filum_crypto.File.Reading.{ahead, is_empty→pos, read_full-ok}
use filum_crypto.File.Frame.{emit_pending-Frame}

module _ (B : Backend) where
  -- `read_full_loop` needs no more fuel than its buffer has bytes left.
  pub read_full_loop_fuel :
      (fuel fuel' : ℕ) (r : Reader) (n : ℕ) (filled : Bytes) (w : World B)
      → n - length filled ≤ fuel
      → n - length filled ≤ fuel'
      → read_full_loop B fuel r n filled w ≡ read_full_loop B fuel' r n filled w
  unfolding read_full_loop
  read_full_loop_fuel zero zero r n filled w h h' = refl
  read_full_loop_fuel zero (suc fuel') r n filled w h h' =
      rw (le→ltb (length filled) n (omega (arith, h))) refl
  read_full_loop_fuel (suc fuel) zero r n filled w h h' =
      rw (le→ltb (length filled) n (omega (arith, h'))) refl
  read_full_loop_fuel (suc fuel) (suc fuel') r n filled w h h' =
      elim (Bool-cases (ltb (length filled) n)) [
        | inr f ↦ rw f refl
        | inl t ↦ rw t (
            continue-cong (read B r (n - length filled) w) _ _ (λ (bytes, r') u e.
              elim (Bool-cases (is_empty bytes)) [
                | inl z ↦ rw z refl
                | inr p ↦
                    let less = is_empty→pos B bytes p in
                    rw p (
                      read_full_loop_fuel fuel fuel' r' n (filled ++ bytes) u
                        (omega (arith, h, less, length-append filled bytes))
                        (omega (arith, h', less, length-append filled bytes)))
              ]))
      ]

  module _ {St : Type 0} (next : St → Bytes → Bytes → Option (Bytes × St))
      (last : St → Bytes → Bytes → Option Bytes) (size : ℕ) (output : FilePath) (aad : Bytes) where
    abbrev loop : ℕ → Reader → St → Option Bytes → World B → Result (Unit {0}) × World B
    loop fuel r st pending w = segment_loop B next last size output aad fuel r st pending w

    loop_fuel :
        (fuel fuel' k : ℕ) (r : Reader) (st : St) (pending : Option Bytes) (w : World B)
        → r.path ≢ output
        → k < fuel
        → k < fuel'
        → length (ahead B r w) < (k + 1) * size
        → loop fuel r st pending w ≡ loop fuel' r st pending w
    unfolding segment_loop
    loop_fuel zero fuel' k r st pending w apart h h' hi = absurd (omega arith)
    loop_fuel (suc fuel) zero k r st pending w apart h h' hi = absurd (omega arith)
    loop_fuel (suc fuel) (suc fuel') k r st pending w apart h h' hi =
        continue-cong (read_full B r size w) _ _ (λ (chunk, r') u e.
          continue-cong (emit_pending B next last size output aad pending st u) _ _ (λ st' v e'.
            elim (Bool-cases (ltb (length chunk) size)) [
              | inl t ↦ rw t refl
              | inr f ↦ rw f (
                  round fuel fuel' k r r' chunk pending st st' w u v apart e e' h h' hi
                    (ltb→le _ _ f)
                    (λ j a b c d. loop_fuel fuel fuel' j r' st' (some chunk) v a b c d))
            ]))
      where
        -- A chunk is no longer than what is ahead.
        taken :
            (r r' : Reader) (chunk : Bytes) (w u : World B)
            → read_full B r size w ≡ (ok (chunk, r'), u)
            → length chunk ≤ length (ahead B r w)
        taken r r' chunk w u e = omega (
          arith,
          ap (λ (x : Bytes). length x) (read_full-ok B r r' size chunk r.path w u e).0,
          length-take size (ahead B r w),
        )

        shrink :
            (j n c n' : ℕ)
            → n < (suc j + 1) * size
            → size ≤ c
            → c ≤ n
            → n' ≡ n - c
            → n' < (j + 1) * size
        shrink j n c n' a b d x = omega (arith, a, b, d, x)

        -- Behind a full chunk, one chunk fewer is ahead.
        round :
            (fuel fuel' k : ℕ) (r r' : Reader) (chunk : Bytes) (pending : Option Bytes)
            (st st' : St) (w u v : World B)
            → r.path ≢ output
            → read_full B r size w ≡ (ok (chunk, r'), u)
            → emit_pending B next last size output aad pending st u ≡ (ok st', v)
            → k < suc fuel
            → k < suc fuel'
            → length (ahead B r w) < (k + 1) * size
            → size ≤ length chunk
            → ((j : ℕ)
                → r'.path ≢ output
                → j < fuel
                → j < fuel'
                → length (ahead B r' v) < (j + 1) * size
                → loop fuel r' st' (some chunk) v ≡ loop fuel' r' st' (some chunk) v)
            → loop fuel r' st' (some chunk) v ≡ loop fuel' r' st' (some chunk) v
        round fuel fuel' zero r r' chunk pending st st' w u v apart e e' h h' hi whole ih =
            absurd (omega (arith, taken r r' chunk w u e, hi, whole))
        round fuel fuel' (suc j) r r' chunk pending st st' w u v apart e e' h h' hi whole ih =
            let (eb, er, q) = read_full-ok B r r' size chunk r.path w u e in
            let same : v.files r.path ≡ w.files r.path =
              ap (λ (x : Result St × World B). x.1.files r.path) (sym e')
              ∙ emit_pending-Frame B r.path next last size output apart aad pending st u
              ∙ q in
            let moved : ahead B r' v ≡ drop (length chunk) (ahead B r w) =
              ap (λ (x : Reader). ahead B x v) er
              ∙ ap (λ c. drop (r.position + length chunk) (content c)) same
              ∙ sym (drop-drop (length chunk) r.position (content (w.files r.path))) in
            ih j (λ x. apart (sym (ap (λ (y : Reader). y.path) er) ∙ x)) (omega (arith, h))
              (omega (arith, h'))
              (shrink j (length (ahead B r w)) (length chunk) (length (ahead B r' v)) hi whole
                (taken r r' chunk w u e)
                (ap (λ (x : Bytes). length x) moved ∙ length-drop (length chunk) (ahead B r w)))

    full_chunk : (n : ℕ) → 0 < size → n < (n / size + 1) * size
    full_chunk n h = omega (arith, h)

    -- The loop of the two file functions ends within the rounds it is given: for chunks that are not
    -- empty and an output that is not the file it reads, more rounds than one for each full chunk
    -- ahead and one for the rest change neither the result nor the state, whatever the schedule,
    -- the file and the crates.
    pub segment_loop_fuel :
        (extra : ℕ) (r : Reader) (st : St) (pending : Option Bytes) (w : World B)
        → 0 < size
        → r.path ≢ output
        → segment_loop B next last size output aad (rounds B size r w + extra) r st pending w
          ≡ segment_loop B next last size output aad (rounds B size r w) r st pending w
    segment_loop_fuel extra r st pending w pos apart =
        loop_fuel (rounds B size r w + extra) (rounds B size r w) (length (ahead B r w) / size) r st
          pending w apart (omega arith) (omega arith) (full_chunk (length (ahead B r w)) pos)
