-- ===== src/File/Decrypt.antt =====
-- `decrypt_file_chunked` from the temporary file on.
use mathlib.Core.List.{append-nil}
use filum_crypto.Prelude.{
  false, ℕ, suc, ◌+◌, ◌/◌, Bytes, length, drop, ◌++◌, [], inl, inr, ◌⊎◌, Option, none, some, Result,
  ok, err, Error, ◌>>◌, ◌≡◌, ◌≢◌, ap, ◌∙◌, sym, arith,
}
use filum_crypto.External.{Backend}
use filum_crypto.Blob.{header_len, chunk_size}
use filum_crypto.Blob.Segments.{unseal}
use filum_crypto.Io.{
  FilePath, World, Reader, Io, content, create, flush, sync_all, rename, remove_file, closing,
}
use filum_crypto.Io.Hoare.{
  Post, Post-bind, Post-mono, NoFaults, Touches, Writes, IoError, Touches-trans, Touches-Keeps,
  Writes-trans,
}
use filum_crypto.Io.Laws.{IoFailure, Flushed, flush_lem}
use filum_crypto.Io.Publish.{
  Created, create_lem, Synced, sync_all_lem, Renamed, NotRenamed, rename_lem, remove_file_lem,
}
use filum_crypto.File.{decrypt_loop, with_cleanup}
use filum_crypto.File.Reading.{ahead}
use filum_crypto.File.Loop.{Done, Failed, segment_loop_lem}
use filum_crypto.File.Sealing.{Post-closing}

abbrev pub ct_chunk : ℕ
ct_chunk = chunk_size + 16

pub IoError-back :
    (B : Backend) (w u : World B) (x : Error)
    → (NoFaults w.choices → NoFaults u.choices)
    → IoError B u x
    → IoError B w x
IoError-back B w u x c (e, nf) = (e, λ calm. nf (c calm))

module _ (B : Backend) (input output tmp : FilePath) (apart : input ≢ tmp) (beside : tmp ≢ output)
    (aad framed : Bytes) (dec : B.stream.Decryptor) where
  open B use {stream}

  -- The reader behind the header.
  abbrev pub behind_header : Reader
  behind_header = record { path = input; position = header_len }

  -- The plaintext, as the loop over the file reads it.
  abbrev pub opened : Result Bytes
  opened =
      unseal stream ct_chunk (length (drop header_len framed) / ct_chunk) dec aad
        (drop header_len framed)

  decrypt_loop_lem :
      (w : World B)
      → w.files input ≡ some framed
      → Post
          (decrypt_loop B tmp ct_chunk aad behind_header dec w)
          (Done B stream.decrypt_next stream.decrypt_last ct_chunk tmp aad opened w)
          (Failed B stream.decrypt_next stream.decrypt_last ct_chunk tmp aad opened w)
  unfolding decrypt_loop unseal
  decrypt_loop_lem w e =
      let same : ahead B behind_header w ≡ drop header_len framed =
        ap (λ c. drop header_len (content c)) e in
      rw e (
        rw same at (
          segment_loop_lem B stream.decrypt_next stream.decrypt_last ct_chunk tmp aad
            (suc (length (ahead B behind_header w) / ct_chunk))
            (length (ahead B behind_header w) / ct_chunk) behind_header dec none w apart
            (omega arith) (omega arith) (omega arith)))

  -- The plaintext is in the temporary file, and nothing is held back.
  abbrev Streamed : World B → Unit {0} → World B → Type 0
  Streamed w _ w' =
      (msg : Bytes) × (opened ≡ ok msg)
      × (w'.files tmp ≡ some msg)
      × (w'.buffer ≡ [])
      × (w'.unsynced tmp ≡ false)
      × Touches B tmp w w'

  abbrev NotStreamed : World B → Error → World B → Type 0
  NotStreamed w e w' = Touches B tmp w w' × (IoError B w e ⊎ (opened ≡ err e))

  streamed_content :
      (msg : Bytes) (w x : World B)
      → w.files tmp ≡ some []
      → w.buffer ≡ []
      → Writes B tmp (msg ++ []) w x
      → x.buffer ≡ []
      → x.files tmp ≡ some msg
  streamed_content msg w x e eb h ex =
      let (now, en, sum) = h.appended [] e in
      en
      ∙ ap some (
          sym (append-nil now)
          ∙ ap (λ b. now ++ b) (sym ex)
          ∙ sum
          ∙ ap (λ b. b ++ (msg ++ [])) eb
          ∙ append-nil msg)

  abbrev stream_body : Io B (Unit {0})
  stream_body = do decrypt_loop B tmp ct_chunk aad behind_header dec; flush B tmp; sync_all B tmp

  stream_body_lem :
      (w : World B)
      → w.files input ≡ some framed
      → w.files tmp ≡ some []
      → w.buffer ≡ []
      → Post (stream_body w) (Streamed w) (NotStreamed w)
  stream_body_lem w e ee eb =
      Post-bind (decrypt_loop B tmp ct_chunk aad behind_header dec w) _
        (Done B stream.decrypt_next stream.decrypt_last ct_chunk tmp aad opened w) (Streamed w)
        (Failed B stream.decrypt_next stream.decrypt_last ct_chunk tmp aad opened w) (NotStreamed w)
        (decrypt_loop_lem w e) (λ x u fail. fail)
        (λ _ u done.
          let (msg, es, wm) = done in
          Post-bind (flush B tmp u) _ (λ _ v. Flushed B tmp u v) (Streamed w)
            (λ x v. Touches B tmp u v × IoError B u x) (NotStreamed w) (flush_lem B tmp u)
            (λ x v fail. (
              Touches-trans B tmp w u v wm.touches fail.0,
              inl (IoError-back B w u x wm.touches.calm fail.1),
            ))
            (λ _ v flushed.
              let (wf, ev) = flushed in
              let all = Writes-trans B tmp msg [] w u v wm wf in
              Post-mono (sync_all B tmp v) (λ _ y. Synced B tmp v y) (Streamed w) (IoFailure B v)
                (NotStreamed w) (sync_all_lem B tmp v)
                (λ _ y k. (
                  msg,
                  es,
                  k.files tmp ∙ streamed_content msg w v ee eb all ev,
                  k.buffer ∙ ev,
                  k.on_disk,
                  Touches-trans B tmp w v y all.touches k.touches,
                ))
                (λ x y fail. (
                  Touches-trans B tmp w v y all.touches (Touches-Keeps B tmp v y fail.0),
                  inl (IoError-back B w v x all.touches.calm fail.1),
                ))))

  -- The plaintext is at the output and on the disk, the temporary file is gone, and no other file has changed.
  abbrev pub Published : World B → Unit {0} → World B → Type 0
  Published w _ w' =
      ((msg : Bytes) × (opened ≡ ok msg)
        × (w'.files output ≡ some msg)
        × (w'.unsynced output ≡ false))
      × (w'.files tmp ≡ none)
      × ((q : FilePath) → q ≢ tmp → q ≢ output → w'.files q ≡ w.files q)
      × (NoFaults w.choices → NoFaults w'.choices)

  -- The same behind the end of the writer's scope.
  abbrev Closed : World B → Unit {0} → World B → Type 0
  Closed w _ w' =
      (msg : Bytes) × (opened ≡ ok msg)
      × (w'.files tmp ≡ some msg)
      × (w'.unsynced tmp ≡ false)
      × Touches B tmp w w'

  abbrev pub publish : Io B (Unit {0})
  publish = do
    create B tmp
    closing B tmp
        (do decrypt_loop B tmp ct_chunk aad behind_header dec; flush B tmp; sync_all B tmp)
    rename B tmp output

  publish_lem :
      (w : World B) → w.files input ≡ some framed → Post (publish w) (Published w) (NotStreamed w)
  publish_lem w e =
      Post-bind (create B tmp w) _ (λ _ u. Created B tmp w u) (Published w) (IoFailure B w)
        (NotStreamed w) (create_lem B tmp w)
        (λ x u fail. (Touches-Keeps B tmp w u fail.0, inl fail.1))
        (λ _ u c.
          Post-bind (closing B tmp stream_body u) _ (Closed w) (Published w) (NotStreamed w)
            (NotStreamed w)
            (Post-closing B tmp stream_body u (Streamed u) (Closed w) (NotStreamed u)
              (NotStreamed w)
              (stream_body_lem u (c.touches.others input apart ∙ e) c.empty_file c.empty_buffer)
              (λ _ x y streamed d.
                let (msg, es, em, eb, sy, t) = streamed in
                (
                  msg,
                  es,
                  d.settled eb tmp ∙ em,
                  d.settled_synced eb tmp ∙ sy,
                  Touches-trans B tmp w x y (Touches-trans B tmp w u x c.touches t) d.touches,
                ))
              (λ z x y fail d. (
                Touches-trans B tmp w x y (Touches-trans B tmp w u x c.touches fail.0) d.touches,
                elim fail.1 [ inl f ↦ inl (IoError-back B w u z c.touches.calm f) | inr f ↦ inr f ],
              )))
            (λ z v fail. fail)
            (λ _ v closed.
              let (msg, es, em, sy, t) = closed in
              Post-mono (rename B tmp output v) (λ _ y. Renamed B tmp output v y) (Published w)
                (NotRenamed B tmp v) (NotStreamed w) (rename_lem B tmp output v beside)
                (λ _ y r. (
                  (msg, es, r.moved ∙ em, r.moved_synced ∙ sy),
                  r.gone,
                  (λ q n m. r.others q n m ∙ t.others q n),
                  (λ calm. r.calm (t.calm calm)),
                ))
                (λ z y fail.
                  let (k, ez, absent) = fail in
                  (
                    Touches-trans B tmp w v y t (Touches-Keeps B tmp v y k),
                    inl (ez, λ calm. not_absent msg (v.files tmp) em (absent (t.calm calm))),
                  ))))
    where
      not_absent : (msg : Bytes) (o : Option Bytes) → o ≡ some msg → o ≡ none → ⊥
      not_absent msg o a b = cc (sym a ∙ b)

  -- No other file has changed, and the temporary file is gone unless the system failed.
  abbrev pub CleanedUp : World B → Error → World B → Type 0
  CleanedUp w e w' =
      Touches B tmp w w'
      × (NoFaults w.choices → w'.files tmp ≡ none)
      × (IoError B w e ⊎ (opened ≡ err e))

  pub with_cleanup_lem :
      (w : World B)
      → w.files input ≡ some framed
      → Post (with_cleanup B tmp publish w) (Published w) (CleanedUp w)
  unfolding with_cleanup
  with_cleanup_lem w e = by_result (publish w) (publish_lem w e)
    where
      by_result :
          (x : Result (Unit {0}) × World B)
          → Post x (Published w) (NotStreamed w)
          → Post
              (elim x.0 as (λ _. Result (Unit {0}) × World B) [
                | ok _ ↦ (ok tt, x.1)
                | err z ↦ (err z, remove_file B tmp x.1)
              ])
              (Published w)
              (CleanedUp w)
      by_result (ok a, u) h = h
      by_result (err z, u) (t, reason) =
          let r = remove_file_lem B tmp u in
          (Touches-trans B tmp w u _ t r.touches, λ calm. r.gone (t.calm calm), reason)
