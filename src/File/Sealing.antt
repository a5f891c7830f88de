-- ===== src/File/Sealing.antt =====
-- What `encrypt_file_chunked` writes between creating its output and closing it.
use mathlib.Core.List.{append-nil}
use filum_crypto.Prelude.{
  suc, ◌/◌, Bytes, length, ◌++◌, [], inl, inr, ◌⊎◌, none, some, Result, ok, err, Error, ◌>>◌, ◌≡◌,
  ◌≢◌, ap, ◌∙◌, sym, arith,
}
use filum_crypto.External.{Backend}
use filum_crypto.Blob.{chunk_size, Prepared}
use filum_crypto.Blob.Segments.{seal}
use filum_crypto.Io.{FilePath, World, Reader, Io, content, write_all, flush, drop_writer, closing}
use filum_crypto.Io.Hoare.{
  Post, Post-bind, Post-mono, Touches, Writes, IoError, Touches-trans, Writes-trans,
}
use filum_crypto.Io.Laws.{write_all_lem, Flushed, flush_lem}
use filum_crypto.Io.Publish.{Dropped, drop_writer_lem}
use filum_crypto.File.{encrypt_loop}
use filum_crypto.File.Reading.{ahead}
use filum_crypto.File.Loop.{Done, Failed, segment_loop_lem}

-- A writer's scope, from what holds at the end of its body.
pub Post-closing :
    (B : Backend) (p : FilePath) (body : Io B (Unit {0})) (w : World B)
    (P Q : Unit {0} → World B → Type 0) (F E : Error → World B → Type 0)
    → Post (body w) P F
    → ((a : Unit {0}) (u v : World B) → P a u → Dropped B p u v → Q a v)
    → ((e : Error) (u v : World B) → F e u → Dropped B p u v → E e v)
    → Post (closing B p body w) Q E
unfolding closing
Post-closing B p body w P Q F E h g k = by_result (body w) h
  where
    by_result : (x : Result (Unit {0}) × World B) → Post x P F → Post (x.0, drop_writer B p x.1) Q E
    by_result (ok a, u) h = g a u _ h (drop_writer_lem B p u)
    by_result (err e, u) h = k e u _ h (drop_writer_lem B p u)

module _ (B : Backend) (input output : FilePath) (apart : input ≢ output) where
  open B use {stream}

  -- The plaintext is in the input file.
  abbrev pub Holds : Bytes → World B → Type 0
  Holds text w = w.files input ≡ some text

  abbrev start : Reader
  start = record { path = input; position = 0 }

  abbrev pub sealed : Prepared B → Bytes → Result Bytes
  sealed p text = seal stream chunk_size (length text / chunk_size) p.enc p.seg_aad text

  encrypt_loop_lem :
      (p : Prepared B) (text : Bytes) (w : World B)
      → Holds text w
      → Post
          (encrypt_loop B output p start w)
          (Done B stream.encrypt_next stream.encrypt_last chunk_size output p.seg_aad
            (sealed p text)
            w)
          (Failed B stream.encrypt_next stream.encrypt_last chunk_size output p.seg_aad
            (sealed p text)
            w)
  unfolding encrypt_loop seal
  encrypt_loop_lem p text w e =
      let same : ahead B start w ≡ text = ap content e in
      rw e (
        rw same at (
          segment_loop_lem B stream.encrypt_next stream.encrypt_last chunk_size output p.seg_aad
            (suc (length (ahead B start w) / chunk_size)) (length (ahead B start w) / chunk_size)
            start p.enc none w apart (omega arith) (omega arith) (omega arith)))

  -- The header and the segments have been written to an empty file, and nothing is held back.
  abbrev pub Framed : Prepared B → Bytes → World B → Unit {0} → World B → Type 0
  Framed p text w _ w' =
      (body : Bytes) × (sealed p text ≡ ok body)
      × (w'.files output ≡ some (p.header ++ body))
      × (w'.buffer ≡ [])
      × Touches B output w w'

  abbrev pub NotFramed : Prepared B → Bytes → World B → Error → World B → Type 0
  NotFramed p text w e w' = Touches B output w w' × (IoError B w e ⊎ (sealed p text ≡ err e))

  unfoldable pub write_body : Prepared B → Io B (Unit {0})
  write_body p = do write_all B output p.header; encrypt_loop B output p start; flush B output

  framed_content :
      (header body : Bytes) (w x : World B)
      → w.files output ≡ some []
      → w.buffer ≡ []
      → Writes B output (header ++ (body ++ [])) w x
      → x.buffer ≡ []
      → x.files output ≡ some (header ++ body)
  framed_content header body w x e eb h ex =
      let (now, en, sum) = h.appended [] e in
      en
      ∙ ap some (
          sym (append-nil now)
          ∙ ap (λ b. now ++ b) (sym ex)
          ∙ sum
          ∙ ap (λ b. b ++ (header ++ (body ++ []))) eb
          ∙ ap (λ b. header ++ b) (append-nil body))

  pub write_body_lem :
      (p : Prepared B) (text : Bytes) (w : World B)
      → Holds text w
      → w.files output ≡ some []
      → w.buffer ≡ []
      → Post (write_body p w) (Framed p text w) (NotFramed p text w)
  unfolding write_body
  write_body_lem p text w e ee eb =
      Post-bind (write_all B output p.header w) _ (λ _ u. Writes B output p.header w u)
        (Framed p text w) (λ x u. Touches B output w u × IoError B w x) (NotFramed p text w)
        (write_all_lem B output p.header w) (λ x u fail. (fail.0, inl fail.1))
        (λ _ u wh.
          Post-bind (encrypt_loop B output p start u) _
            (Done B stream.encrypt_next stream.encrypt_last chunk_size output p.seg_aad
              (sealed p text) u)
            (Framed p text w)
            (Failed B stream.encrypt_next stream.encrypt_last chunk_size output p.seg_aad
              (sealed p text) u)
            (NotFramed p text w) (encrypt_loop_lem p text u (wh.touches.others input apart ∙ e))
            (λ x v fail. (
              Touches-trans B output w u v wh.touches fail.0,
              elim fail.1 [ inl f ↦ inl (loop_fault u x wh.touches f) | inr f ↦ inr f ],
            ))
            (λ _ v done.
              let (body, es, wb) = done in
              let whb = Writes-trans B output p.header body w u v wh wb in
              Post-mono (flush B output v) (λ _ x. Flushed B output v x) (Framed p text w)
                (λ x y. Touches B output v y × IoError B v x) (NotFramed p text w)
                (flush_lem B output v)
                (λ _ x flushed.
                  let (wf, ex) = flushed in
                  let all =
                    Writes-trans B output p.header (body ++ []) w u x wh
                      (Writes-trans B output body [] u v x wb wf) in
                  (body, es, framed_content p.header body w x ee eb all ex, ex, all.touches))
                (λ x y fail. (
                  Touches-trans B output w v y whb.touches fail.0,
                  inl (loop_fault v x whb.touches fail.1),
                ))))
    where
      loop_fault : (u : World B) (x : Error) → Touches B output w u → IoError B u x → IoError B w x
      loop_fault u x t (ex, nf) = (ex, λ calm. nf (t.calm calm))
