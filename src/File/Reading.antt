-- ===== src/File/Reading.antt =====
-- `read_full` and `read_exact` under every schedule of short reads.
use mathlib.Core.Bool.{false≢true}
use mathlib.Core.List.{append-nil, append_assoc}
use filum_crypto.Prelude.{
  ℕ, zero, suc, ◌+◌, ◌-◌, ◌≤◌, ◌<◌, Bytes, is_empty, length, take, drop, length-append, length-take,
  drop-drop, take-append-take, take-nil, ltb, ltb→lt, ltb→le, ◌==◌, ==_iff, ◌++◌, [], ◌∷◌,
  Bool-cases, inl, inr, ◌⊎◌, ◌≢◌, ok, Error, ◌≡◌, refl, ap, ◌∙◌, sym, arith, true, false,
}
use filum_crypto.External.{Backend}
use filum_crypto.Io.{FilePath, World, Reader, content, read}
use filum_crypto.Io.Hoare.{
  Post, Post-ok, Post-bind, Post-mono, Keeps, IoError, Keeps-refl, Keeps-trans,
}
use filum_crypto.Io.Laws.{IoFailure, DidRead, read_lem}
use filum_crypto.File.{read_full_loop, read_full, read_exact}

module _ (B : Backend) where
  -- The bytes that a reader has before it.
  abbrev pub ahead : Reader → World B → Bytes
  ahead r w = drop r.position (content (w.files r.path))

  abbrev Filled : Reader → ℕ → Bytes → World B → Bytes × Reader → World B → Type 0
  Filled r n filled w (bytes, r') w' =
      Keeps B w w'
      × (bytes ≡ filled ++ take (n - length filled) (ahead r w))
      × (r'.path ≡ r.path)
      × (r'.position + length filled ≡ r.position + length bytes)

  take-eq_nil : (m : ℕ) (xs : Bytes) → 0 < m → take m xs ≡ [] → xs ≡ []
  take-eq_nil zero xs h e = absurd (omega arith)
  take-eq_nil (suc m) [] h e = refl
  take-eq_nil (suc m) (x ∷ xs) h e = absurd (cc e)

  is_empty→eq : (xs : Bytes) → is_empty xs ≡ true → xs ≡ []
  is_empty→eq [] h = refl
  is_empty→eq (x ∷ xs) h = cc

  pub is_empty→pos : (xs : Bytes) → is_empty xs ≡ false → 0 < length xs
  is_empty→pos [] h = absurd (cc h)
  is_empty→pos (x ∷ xs) h = omega arith

  filled_more :
      (filled bytes text : Bytes) (m n : ℕ)
      → bytes ≡ take m text
      → m ≤ n - length filled
      → (filled ++ bytes) ++ take (n - length (filled ++ bytes)) (drop (length bytes) text)
        ≡ filled ++ take (n - length filled) text
  filled_more filled bytes text m n e h =
      let left : n - length (filled ++ bytes) ≡ (n - length filled) - length bytes =
        omega (arith, length-append filled bytes) in
      rw left (
        append_assoc filled bytes _
        ∙ ap (λ d. filled ++ d) (rw e (take-append-take m (n - length filled) text h)))

  ahead_moved :
      (r r' : Reader) (j : ℕ) (w w' : World B)
      → r' ≡ record r { position = r.position + j }
      → Keeps B w w'
      → ahead r' w' ≡ drop j (ahead r w)
  ahead_moved r r' j w w' e k =
      ap (λ (q : Reader). ahead q w') e
      ∙ ap (λ c. drop (r.position + j) (content c)) (k.files r.path)
      ∙ sym (drop-drop j r.position (content (w.files r.path)))

  -- The loop fills the buffer, as far as the file reaches.
  read_full_loop_lem :
      (fuel : ℕ) (r : Reader) (n : ℕ) (filled : Bytes) (w : World B)
      → n - length filled ≤ fuel
      → Post (read_full_loop B fuel r n filled w) (Filled r n filled w) (IoFailure B w)
  unfolding read_full_loop
  read_full_loop_lem zero r n filled w h =
      let none_left : n - length filled ≡ 0 = omega (arith, h) in
      (Keeps-refl B w, rw none_left (sym (append-nil filled)), refl, refl)
  read_full_loop_lem (suc fuel) r n filled w h =
      let missing = n - length filled in
      elim (Bool-cases (ltb (length filled) n)) [
        | inr f ↦
            let none_left : missing ≡ 0 = omega (arith, ltb→le _ _ f) in
            rw (f, Post) (Keeps-refl B w, rw none_left (sym (append-nil filled)), refl, refl)
        | inl t ↦ rw t (
            Post-bind (read B r missing w) _ (DidRead B r missing w) (Filled r n filled w)
              (IoFailure B w) (IoFailure B w) (read_lem B r missing w) (λ e w' k. k)
              (λ (bytes, r') w' did.
                let (k, (m, eb, hm, hp), er) = did in
                elim (Bool-cases (is_empty bytes)) [
                  | inl e ↦
                      let nothing = is_empty→eq bytes e in
                      let end : ahead r w ≡ [] =
                        take-eq_nil m (ahead r w) (hp (omega (arith, ltb→lt _ _ t)))
                          (sym eb ∙ nothing) in
                      rw (e, Post)
                        (
                          k,
                          sym (append-nil filled)
                              ∙ ap (λ d. filled ++ d)
                                  (sym (take-nil missing) ∙ ap (take missing) (sym end)),
                          ap (λ (q : Reader). q.path) er,
                          omega (
                            arith,
                            ap (λ (q : Reader). q.position) er,
                            ap (λ (b : Bytes). length b) nothing,
                          ),
                        )
                  | inr e ↦ rw e (
                      Post-mono (read_full_loop B fuel r' n (filled ++ bytes) w')
                        (Filled r' n (filled ++ bytes) w') (Filled r n filled w) (IoFailure B w')
                        (IoFailure B w)
                        (read_full_loop_lem fuel r' n (filled ++ bytes) w'
                          (omega (arith, h, length-append filled bytes, is_empty→pos bytes e)))
                        (λ (out, r'') w'' rest.
                          let (k', eo, ep, en) = rest in
                          (
                            Keeps-trans B w w' w'' k k',
                            eo
                                ∙ ap
                                    (λ d.
                                      (filled ++ bytes) ++ take (n - length (filled ++ bytes)) d)
                                    (ahead_moved r r' (length bytes) w w' er k)
                                ∙ filled_more filled bytes (ahead r w) m n eb hm,
                            ep ∙ ap (λ (q : Reader). q.path) er,
                            omega (
                              arith,
                              en,
                              ap (λ (q : Reader). q.position) er,
                              length-append filled bytes,
                            ),
                          ))
                        (λ x w'' fail.
                          let (k', (ex, nf)) = fail in
                          (Keeps-trans B w w' w'' k k', (ex, λ calm. nf (k.calm calm)))))
                ]))
      ]

  -- What a successful `read_full` returns: the next bytes of the file, as many as the buffer holds or
  -- the file has, and the reader behind them.
  abbrev pub DidReadFull : Reader → ℕ → World B → Bytes × Reader → World B → Type 0
  DidReadFull r n w (bytes, r') w' =
      Keeps B w w'
      × (bytes ≡ take n (ahead r w))
      × (r' ≡ record r { position = r.position + length bytes })

  -- `read_full` fills its buffer with the next bytes of the file, stopping short at the end of the
  -- file only, however the system cuts the reads up; it changes nothing in the file system, and its
  -- only error is `Io`, which takes a failure of the system.
  pub read_full_lem :
      (r : Reader) (n : ℕ) (w : World B)
      → Post (read_full B r n w) (DidReadFull r n w) (IoFailure B w)
  unfolding read_full
  read_full_lem r n w =
      Post-mono (read_full_loop B n r n [] w) (Filled r n [] w) (DidReadFull r n w) (IoFailure B w)
        (IoFailure B w) (read_full_loop_lem n r n [] w (omega arith))
        (λ (bytes, r') w' did.
          let (k, eb, ep, en) = did in
          let pos : r'.position ≡ r.position + length bytes = omega (arith, en) in
          let all : n - 0 ≡ n = omega arith in
          (k, eb ∙ ap (λ j. take j (ahead r w)) all, λ i. record { path = ep i; position = pos i }))
        (λ e w' fail. fail)

  pub read_exact_lem :
      (r : Reader) (n : ℕ) (w : World B)
      → Post
          (read_exact B r n w)
          (λ got w'. DidReadFull r n w got w' × (length got.0 ≡ n))
          (λ e w'. Keeps B w w' × (IoError B w e ⊎ ((length (ahead r w) < n) × (e ≡ Error.io))))
  unfolding read_exact
  read_exact_lem r n w =
      Post-bind (read_full B r n w) _ (DidReadFull r n w) _ (IoFailure B w) _ (read_full_lem r n w)
        (λ e u fail. (fail.0, inl fail.1))
        (λ (bytes, r') u did.
          let (k, eb, er) = did in
          elim (Bool-cases (length bytes == n)) [
            | inl t ↦ rw (t, Post) (did, (==_iff (length bytes) n).0 t)
            | inr f ↦
                let differ : length bytes ≢ n =
                  λ e. false≢true (sym f ∙ (==_iff (length bytes) n).1 e) in
                rw (f, Post)
                  (
                    k,
                    inr (
                      omega (
                        arith,
                        differ,
                        ap (λ (b : Bytes). length b) eb,
                        length-take n (ahead r w),
                      ),
                      refl,
                    ),
                  )
          ])

  -- Where `read_full` succeeds, it returns the next bytes of the file, as many as it was asked for or
  -- all that are left, for every schedule of short reads; the reader stands behind them, and no
  -- file has changed.
  pub read_full-ok :
      (r r' : Reader) (n : ℕ) (bytes : Bytes) (q : FilePath) (w w' : World B)
      → read_full B r n w ≡ (ok (bytes, r'), w')
      → (bytes ≡ take n (drop r.position (content (w.files r.path))))
        × (r' ≡ record r { position = r.position + length bytes })
        × (w'.files q ≡ w.files q)
  read_full-ok r r' n bytes q w w' e =
      let (k, eb, er) =
        Post-ok (read_full B r n w) (DidReadFull r n w) (IoFailure B w) (read_full_lem r n w) e in
      (eb, er, k.files q)
