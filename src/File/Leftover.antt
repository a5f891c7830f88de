-- ===== src/File/Leftover.antt =====
-- What `encrypt_file_chunked` leaves under its output, wherever it stops: a part of the frame.
use mathlib.Core.Path.{subst}
use filum_crypto.Prelude.{
  suc, ◌/◌, Bytes, length, ◌++◌, [], inl, inr, ◌⊎◌, none, some, Result, ok, then_ok-eq_ok,
  ok-injective, continue-eq_ok, ◌>>=◌, ◌>>◌, ◌≡◌, ◌≢◌, ap, ◌∙◌, sym, arith,
}
use filum_crypto.External.{Backend}
use filum_crypto.Blob.{Prepared, prepare, chunk_size, encrypt_body, encrypt_chunked}
use filum_crypto.Blob.Segments.{seal}
use filum_crypto.Blob.Segments.Memory.{encrypt_body-seal}
use filum_crypto.Io.{
  FilePath, World, Reader, Io, content, open_file, create, write_all, flush, closing,
}
use filum_crypto.Io.Hoare.{Post-bind}
use filum_crypto.Io.Laws.{Opened, NotOpened, open_file_lem, IoFailure}
use filum_crypto.Io.Publish.{Created, create_lem}
use filum_crypto.Io.Frame.{Post-state, state-Post}
use filum_crypto.Io.Growth.{
  Holding, Within, Starts, Holding-Writes, drop_writer-Starts, write_then, flush_then,
}
use filum_crypto.File.{encrypt_loop, encrypt_file_chunked}
use filum_crypto.File.Reading.{ahead}
use filum_crypto.File.Progress.{segment_loop-Within}

module _ (B : Backend) (input output : FilePath) (apart : input ≢ output) (plaintext : Bytes) where
  open B use {stream}

  abbrev start : Reader
  start = record { path = input; position = 0 }

  encrypt_loop-Within :
      (p : Prepared B) (body sofar : Bytes) (w : World B)
      → w.files input ≡ some plaintext
      → seal stream chunk_size (length plaintext / chunk_size) p.enc p.seg_aad plaintext ≡ ok body
      → Holding B output sofar w
      → Within B output (sofar ++ body) (encrypt_loop B output p start w).1
  unfolding encrypt_loop seal
  encrypt_loop-Within p body sofar w e es h =
      let same : ahead B start w ≡ plaintext = ap content e in
      segment_loop-Within B stream.encrypt_next stream.encrypt_last chunk_size output p.seg_aad
        (suc (length (ahead B start w) / chunk_size)) (length (ahead B start w) / chunk_size) start
        p.enc none w sofar body apart (omega arith) (omega arith) (omega arith) (rw same es) h

  abbrev write_body : Prepared B → Reader → Io B (Unit {0})
  write_body p fin = do write_all B output p.header; encrypt_loop B output p fin; flush B output

  write_body-Within :
      (p : Prepared B) (body : Bytes) (w : World B)
      → w.files input ≡ some plaintext
      → seal stream chunk_size (length plaintext / chunk_size) p.enc p.seg_aad plaintext ≡ ok body
      → Holding B output [] w
      → Within B output (p.header ++ body) (write_body p start w).1
  write_body-Within p body w e es h =
      write_then B output [] p.header body w (do encrypt_loop B output p start; flush B output) h
        (λ u wrote. flush_then B output (p.header ++ body) (encrypt_loop B output p start u) (
          encrypt_loop-Within p body p.header u (wrote.touches.others input apart ∙ e) es
            (Holding-Writes B output [] p.header w u wrote h)))

  -- The output is as it was, or it holds the first bytes of the frame.
  abbrev pub Leftover : Bytes → World B → World B → Type 0
  Leftover framed w u = (u.files output ≡ w.files output) ⊎ Starts B output framed u

  after_prepare : Prepared B → Io B (Unit {0})
  after_prepare p = do fin ← open_file B input; create B output; closing B output (write_body p fin)

  after_prepare-Leftover :
      (p : Prepared B) (body framed : Bytes) (w : World B)
      → w.files input ≡ some plaintext
      → seal stream chunk_size (length plaintext / chunk_size) p.enc p.seg_aad plaintext ≡ ok body
      → p.header ++ body ≡ framed
      → Leftover framed w (after_prepare p w).1
  unfolding after_prepare closing
  after_prepare-Leftover p body framed w e es ef =
      Post-state (Leftover framed w) (after_prepare p w) (λ _ u. Leftover framed w u)
        (λ _ u. Leftover framed w u)
        (Post-bind (open_file B input w) _ (Opened B input w) (λ _ u. Leftover framed w u)
          (NotOpened B input w) (λ _ u. Leftover framed w u) (open_file_lem B input w)
          (λ _ u fail. inl (fail.0.files output))
          (λ r u opened.
            let (k, er, _) = opened in
            Post-bind (create B output u) _ (λ _ v. Created B output u v)
              (λ _ v. Leftover framed w v) (IoFailure B u) (λ _ v. Leftover framed w v)
              (create_lem B output u) (λ _ v fail. inl (fail.0.files output ∙ k.files output))
              (λ _ v c. state-Post (Leftover framed w) (closing B output (write_body p r) v) (
                inr (
                  drop_writer-Starts B output framed (write_body p r v).1
                    (write_body p r v).1.choices
                    (subst (λ q. Within B output framed (write_body p q v).1) (sym er)
                      (subst (λ f. Within B output f (write_body p start v).1) ef
                        (write_body-Within p body v
                          (c.touches.others input apart ∙ k.files input ∙ e) es
                          ([], c.empty_file, c.empty_buffer)))))))))
        (λ _ _ h. h) (λ _ _ h. h)

  sealed_body :
      (p : Prepared B) (framed : Bytes)
      → encrypt_body B plaintext p.enc p.seg_aad p.header ≡ ok framed
      → (body : Bytes) × (seal stream chunk_size
            (length plaintext / chunk_size)
            p.enc
            p.seg_aad
            plaintext
          ≡ ok body)
        × (p.header ++ body ≡ framed)
  sealed_body p framed e =
      let (body, es, ef) =
        then_ok-eq_ok _ _ (sym (encrypt_body-seal B plaintext p.enc p.seg_aad p.header) ∙ e) in
      (body, es, ok-injective ef)

  -- Whether `encrypt_file_chunked` succeeds, fails or is killed, and wherever it stops, its output is
  -- as it was, or it holds the frame of the input's contents or the first bytes of that frame. The
  -- input is there and is not the output, and its contents can be encrypted.
  pub encrypt_file_chunked-Leftover :
      (key id framed : Bytes) (t : B.rng.State) (w : World B)
      → w.files input ≡ some plaintext
      → encrypt_chunked B plaintext key id w.rng ≡ (ok framed, t)
      → Leftover framed w (encrypt_file_chunked B input output key id w).1
  unfolding encrypt_file_chunked encrypt_chunked after_prepare
  encrypt_file_chunked-Leftover key id framed t w e enc =
      let (p, s, ep, eb) = continue-eq_ok (prepare B key id w.rng) _ enc in
      let (body, es, ef) = sealed_body p framed (ap (λ (x : Result Bytes × B.rng.State). x.0) eb) in
      rw ep (after_prepare-Leftover p body framed (record w { rng = s }) e es ef)
