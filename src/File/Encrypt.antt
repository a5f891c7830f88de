-- ===== src/File/Encrypt.antt =====
-- `encrypt_file_chunked` writes what `encrypt_chunked` returns.
use mathlib.Core.Path.{subst}
use filum_crypto.Prelude.{
  Bytes, ◌++◌, inl, inr, ◌⊎◌, none, some, Result, ok, err, Error, then_ok, ◌>>=◌, ◌>>◌, continue,
  ◌≡◌, ◌≢◌, refl, ap, ◌∙◌, sym,
}
use filum_crypto.External.{Backend}
use filum_crypto.Blob.{Prepared, prepare, encrypt_chunked}
use filum_crypto.Blob.Segments.Memory.{in_front, encrypt_body-seal}
use filum_crypto.Io.{FilePath, World, Reader, Io, open_file, create, write_all, flush, closing}
use filum_crypto.Io.Hoare.{
  Post, Post-bind, Post-ok, NoFaults, IoError, Touches-trans, Touches-Keeps,
}
use filum_crypto.Io.Laws.{Opened, NotOpened, open_file_lem, IoFailure}
use filum_crypto.Io.Publish.{Created, create_lem}
use filum_crypto.File.{encrypt_loop, encrypt_file_chunked}
use filum_crypto.File.Sealing.{
  Post-closing, Holds, sealed, Framed, NotFramed, write_body, write_body_lem,
}

module _ (B : Backend) (input output : FilePath) (apart : input ≢ output) where
  open B use {stream}

  module _ (plaintext key id : Bytes) where
    abbrev pub Wrote : World B → Unit {0} → World B → Type 0
    Wrote w _ w' =
        ((framed : Bytes) × (encrypt_chunked B plaintext key id w.rng ≡ (ok framed, w'.rng))
          × (w'.files output ≡ some framed))
        × ((q : FilePath) → q ≢ output → w'.files q ≡ w.files q)
        × (NoFaults w.choices → NoFaults w'.choices)

    abbrev pub WroteNot : World B → Error → World B → Type 0
    WroteNot w e w' =
        ((q : FilePath) → q ≢ output → w'.files q ≡ w.files q)
        × (IoError B w e ⊎ ((encrypt_chunked B plaintext key id w.rng).0 ≡ err e))

    after_prepare : Prepared B → Io B (Unit {0})
    after_prepare p = do
      fin ← open_file B input
      create B output
      closing B output (do write_all B output p.header; encrypt_loop B output p fin; flush B output)

    chunked_outcome :
        (p : Prepared B) (s t : B.rng.State)
        → prepare B key id s ≡ (ok p, t)
        → encrypt_chunked B plaintext key id s
          ≡ (in_front p.header (sealed B input output apart p plaintext), t)
    unfolding encrypt_chunked
    chunked_outcome p s t e = rw (e, encrypt_body-seal B plaintext p.enc p.seg_aad p.header)

    after_prepare_lem :
        (p : Prepared B) (s : B.rng.State) (w : World B)
        → Holds B input output apart plaintext w
        → prepare B key id s ≡ (ok p, w.rng)
        → Post (after_prepare p w) (Wrote (record w { rng = s })) (WroteNot (record w { rng = s }))
    unfolding after_prepare write_body
    after_prepare_lem p s w h ep =
        let outcome = chunked_outcome p s w.rng ep in
        Post-bind (open_file B input w) _ (Opened B input w) (Wrote (record w { rng = s }))
          (NotOpened B input w) (WroteNot (record w { rng = s })) (open_file_lem B input w)
          (λ e u fail.
            let (k, ee, absent) = fail in
            (λ q _. k.files q, inl (ee, λ calm. not_absent w h (absent calm))))
          (λ r u opened.
            let (k, er, _) = opened in
            Post-bind (create B output u) _ (λ _ v. Created B output u v)
              (Wrote (record w { rng = s })) (IoFailure B u) (WroteNot (record w { rng = s }))
              (create_lem B output u)
              (λ e v fail.
                let (k', f) = fail in
                (λ q _. k'.files q ∙ k.files q, inl (keep_calm w u e k.calm f)))
              (λ _ v c.
                let t = Touches-trans B output w u v (Touches-Keeps B output w u k) c.touches in
                Post-closing B output _ v (Framed B input output apart p plaintext v)
                  (Wrote (record w { rng = s })) (NotFramed B input output apart p plaintext v)
                  (WroteNot (record w { rng = s }))
                  (subst
                    (λ (q : Reader).
                      Post
                        ((do write_all B output p.header; encrypt_loop B output p q; flush B output)
                          v)
                        (Framed B input output apart p plaintext v)
                        (NotFramed B input output apart p plaintext v))
                    (sym er)
                    (write_body_lem B input output apart p plaintext v (t.others input apart ∙ h)
                      c.empty_file c.empty_buffer))
                  (λ _ x y framed d.
                    let (body, es, ef, eb, tx) = framed in
                    let t' = Touches-trans B output v x y tx d.touches in
                    (
                      (
                        p.header ++ body,
                        outcome
                            ∙ ap (λ (r : Result Bytes). (in_front p.header r, w.rng)) es
                            ∙ ap (λ (z : B.rng.State). (ok (p.header ++ body), z))
                                (sym (t'.rng ∙ t.rng)),
                        d.settled eb output ∙ ef,
                      ),
                      (λ q n. t'.others q n ∙ t.others q n),
                      (λ calm. t'.calm (t.calm calm)),
                    ))
                  (λ e x y fail d.
                    let t' = Touches-trans B output v x y fail.0 d.touches in
                    (
                      (λ q n. t'.others q n ∙ t.others q n),
                      elim fail.1 [
                        | inl f ↦ inl (keep_calm w v e t.calm f)
                        | inr f ↦ inr (
                            ap (λ (z : Result Bytes × B.rng.State). z.0) outcome
                            ∙ ap (in_front p.header) f)
                      ],
                    ))))
      where
        not_absent :
            (w : World B) → Holds B input output apart plaintext w → w.files input ≡ none → ⊥
        not_absent w h e = cc (sym h ∙ e)

        keep_calm :
            (w u : World B) (x : Error)
            → (NoFaults w.choices → NoFaults u.choices)
            → IoError B u x
            → IoError B w x
        keep_calm w u x c (e, nf) = (e, λ calm. nf (c calm))

    pub encrypt_file_chunked-Post :
        (w : World B)
        → w.files input ≡ some plaintext
        → Post (encrypt_file_chunked B input output key id w) (Wrote w) (WroteNot w)
    unfolding encrypt_file_chunked after_prepare
    encrypt_file_chunked-Post w h = by_prepared (prepare B key id w.rng) refl
      where
        by_prepared :
            (x : Result (Prepared B) × B.rng.State)
            → prepare B key id w.rng ≡ x
            → Post (continue (x.0, record w { rng = x.1 }) after_prepare) (Wrote w) (WroteNot w)
        by_prepared (ok p, t) e = after_prepare_lem p w.rng (record w { rng = t }) h e
        by_prepared (err x, t) e = unfold encrypt_chunked in (λ q _. refl, inr (rw e))

    -- Where `encrypt_file_chunked` succeeds on an input that is not its output, the output holds
    -- the frame that `encrypt_chunked` returns on the contents of the input, from the same
    -- randomness and for every schedule of short reads and writes; and no other file has changed.
    pub encrypt_file_chunked-ok :
        (w w' : World B) (q : FilePath)
        → w.files input ≡ some plaintext
        → q ≢ output
        → encrypt_file_chunked B input output key id w ≡ (ok tt, w')
        → ((framed : Bytes) × (encrypt_chunked B plaintext key id w.rng ≡ (ok framed, w'.rng))
            × (w'.files output ≡ some framed))
          × (w'.files q ≡ w.files q)
    encrypt_file_chunked-ok w w' q h n e =
        let (framed, others, _) =
          Post-ok (encrypt_file_chunked B input output key id w) (Wrote w) (WroteNot w)
            (encrypt_file_chunked-Post w h) e in
        (framed, others q n)

    -- Where the system does not fail and the input is there and is not the output,
    -- `encrypt_file_chunked` succeeds exactly where `encrypt_chunked` does on the contents of its
    -- input, and returns its error otherwise.
    pub encrypt_file_chunked-calm :
        (w : World B)
        → w.files input ≡ some plaintext
        → NoFaults w.choices
        → (encrypt_file_chunked B input output key id w).0
          ≡ then_ok (encrypt_chunked B plaintext key id w.rng).0 (λ _. ok tt)
    encrypt_file_chunked-calm w h calm =
        by_result (encrypt_file_chunked B input output key id w) (encrypt_file_chunked-Post w h)
      where
        by_result :
            (x : Result (Unit {0}) × World B)
            → Post x (Wrote w) (WroteNot w)
            → x.0 ≡ then_ok (encrypt_chunked B plaintext key id w.rng).0 (λ _. ok tt)
        by_result (ok tt, u) ((framed, e, _), _, _) = rw e
        by_result (err x, u) (_, inl (_, faults)) = absurd (faults calm)
        by_result (err x, u) (_, inr e) = rw e
