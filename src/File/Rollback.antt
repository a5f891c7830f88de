-- ===== src/File/Rollback.antt =====
-- What a decryption over files leaves as it is when it succeeds, when it fails and when it is killed.
use mathlib.Core.Path.{subst}
use filum_crypto.Prelude.{
  ℕ, ◌+◌, Bytes, Result, ok, err, Error, ◌>>=◌, ◌>>◌, lift, ◌≡◌, ◌≢◌, refl, ◌∙◌, sym, ap,
}
use filum_crypto.External.{Backend}
use filum_crypto.Aad.{blob_segment_aad}
use filum_crypto.Blob.{header_len, chunk_size_of, open_header}
use filum_crypto.Io.{
  FilePath, World, Reader, Io, open_file, create, flush, sync_all, rename, remove_file, closing,
}
use filum_crypto.Io.Hoare.{Post, Post-bind, Post-mono, Post-err}
use filum_crypto.Io.Publish.{remove_file_lem}
use filum_crypto.Io.Frame.{
  Post-state, Frame, Undone, bind-Frame, seq-Frame, bind-Undone, seq-Undone, open_file-Frame,
  sync_all-Frame, create-Frame, flush-Frame, closing-Frame, rename-Frame, rename-Undone,
}
use filum_crypto.File.{
  read_exact, sibling_temp_path, with_cleanup, decrypt_loop, decrypt_file_chunked,
}
use filum_crypto.File.TempPath.{IsTemp, Drew, NoTemp, sibling_temp_path_lem}
use filum_crypto.File.Frame.{read_exact-Frame, decrypt_loop-Frame}

module _ (B : Backend) (q : FilePath) where
  module _ (tmp : FilePath) (body : Io B (Unit {0})) (apart : q ≢ tmp) where
    with_cleanup-Frame : Frame B q body → Frame B q (with_cleanup B tmp body)
    unfolding with_cleanup
    with_cleanup-Frame h w = by_result (body w) (h w)
      where
        by_result :
            (x : Result (Unit {0}) × World B)
            → x.1.files q ≡ w.files q
            → (let y : Result (Unit {0}) × World B =
                    elim x.0 as (λ _. Result (Unit {0}) × World B) [
                      | ok _ ↦ (ok tt, x.1)
                      | err e ↦ (err e, remove_file B tmp x.1)
                    ] in
                  y).1.files
                q
              ≡ w.files q
        by_result (ok a, u) e = e
        by_result (err z, u) e = (remove_file_lem B tmp u).touches.others q apart ∙ e

    with_cleanup-Undone : Undone B q body → Undone B q (with_cleanup B tmp body)
    unfolding with_cleanup
    with_cleanup-Undone h w = by_result (body w) (h w)
      where
        by_result :
            (x : Result (Unit {0}) × World B)
            → Post x (λ _ _. Unit {0}) (λ _ u. u.files q ≡ w.files q)
            → Post
                (elim x.0 as (λ _. Result (Unit {0}) × World B) [
                  | ok _ ↦ (ok tt, x.1)
                  | err e ↦ (err e, remove_file B tmp x.1)
                ])
                (λ _ _. Unit {0})
                (λ _ u. u.files q ≡ w.files q)
        by_result (ok a, u) e = tt
        by_result (err z, u) e = (remove_file_lem B tmp u).touches.others q apart ∙ e

  -- The steps of `decrypt_file_chunked` from the temporary file to the rename.
  module _ (output tmp : FilePath) (ct : ℕ) (aad : Bytes) (fin : Reader) (dec : B.stream.Decryptor)
      (apart : q ≢ tmp) where
    abbrev stage : Io B (Unit {0})
    stage = do decrypt_loop B tmp ct aad fin dec; flush B tmp; sync_all B tmp

    abbrev publish : Io B (Unit {0})
    publish = do create B tmp; closing B tmp stage; rename B tmp output

    stage-Frame : Frame B q stage
    stage-Frame =
        seq-Frame B q (decrypt_loop B tmp ct aad fin dec) _
          (decrypt_loop-Frame B q tmp ct aad fin dec apart)
          (seq-Frame B q (flush B tmp) _ (flush-Frame B q tmp apart) (sync_all-Frame B q tmp))

    publish-Frame : q ≢ output → Frame B q publish
    publish-Frame other = seq-Frame B q (create B tmp) _ (create-Frame B q tmp apart) (
        seq-Frame B q (closing B tmp stage) _ (closing-Frame B q tmp apart stage stage-Frame)
          (rename-Frame B q tmp output apart other))

    publish-Undone : Undone B q publish
    publish-Undone = seq-Undone B q (create B tmp) _ (create-Frame B q tmp apart) (
        seq-Undone B q (closing B tmp stage) _ (closing-Frame B q tmp apart stage stage-Frame)
          (rename-Undone B q tmp output))

  -- From the header on, with a temporary path that is drawn.
  module _ (output : FilePath) (ct : ℕ) (aad : Bytes) (fin : Reader) (dec : B.stream.Decryptor)
      (not_temp : ¬ IsTemp output q) where
    abbrev decode : Io B (Unit {0})
    decode = do
      tmp ← sibling_temp_path B output
      with_cleanup B tmp (do
        create B tmp
        closing B tmp (do decrypt_loop B tmp ct aad fin dec; flush B tmp; sync_all B tmp)
        rename B tmp output)

    away : (tmp : FilePath) → IsTemp output tmp → q ≢ tmp
    away tmp t e = not_temp (subst (λ p. IsTemp output p) (sym e) t)

    decode-Frame : q ≢ output → Frame B q decode
    decode-Frame other w =
        Post-state (λ u. u.files q ≡ w.files q) (decode w) (λ _ u. u.files q ≡ w.files q)
          (λ _ u. u.files q ≡ w.files q)
          (Post-bind (sibling_temp_path B output w) _ (λ t u. IsTemp output t × Drew B w u)
            (λ _ u. u.files q ≡ w.files q) (λ x u. Drew B w u × NoTemp B output w)
            (λ _ u. u.files q ≡ w.files q) (sibling_temp_path_lem B output w)
            (λ x u h. ap (λ f. f q) h.0.0)
            (λ t u h. both (with_cleanup B t _ u) (
              with_cleanup-Frame t _ (away t h.0)
                (publish-Frame output t ct aad fin dec (away t h.0) other) u
              ∙ ap (λ f. f q) h.1.0)))
          (λ _ u h. h) (λ _ u h. h)
      where
        both :
            (x : Result (Unit {0}) × World B)
            → x.1.files q ≡ w.files q
            → Post x (λ _ u. u.files q ≡ w.files q) (λ _ u. u.files q ≡ w.files q)
        both (ok a, u) e = e
        both (err z, u) e = e

    decode-Undone : Undone B q decode
    decode-Undone w =
        Post-bind (sibling_temp_path B output w) _ (λ t u. IsTemp output t × Drew B w u)
          (λ _ _. Unit {0}) (λ x u. Drew B w u × NoTemp B output w) (λ _ u. u.files q ≡ w.files q)
          (sibling_temp_path_lem B output w) (λ x u h. ap (λ f. f q) h.0.0)
          (λ t u h.
            Post-mono (with_cleanup B t _ u) (λ _ _. Unit {0}) (λ _ _. Unit {0})
              (λ _ v. v.files q ≡ u.files q) (λ _ v. v.files q ≡ w.files q)
              (with_cleanup-Undone t _ (away t h.0)
                (publish-Undone output t ct aad fin dec (away t h.0)) u)
              (λ _ _ _. tt) (λ _ v e. e ∙ ap (λ f. f q) h.1.0))

  module _ (input output : FilePath) (key id : Bytes) (not_temp : ¬ IsTemp output q) where
    -- `decrypt_file_chunked` changes no file but its output and temporary paths of its output,
    -- whether it succeeds, fails or is killed, for every input.
    pub decrypt_file_chunked-Frame :
        (w : World B)
        → q ≢ output
        → (decrypt_file_chunked B input output key id w).1.files q ≡ w.files q
    unfolding decrypt_file_chunked
    decrypt_file_chunked-Frame w other =
        bind-Frame B q (lift (blob_segment_aad id)) _ (λ _. refl)
          (λ aad. bind-Frame B q (open_file B input) _ (open_file-Frame B q input) (λ fin.
            bind-Frame B q (read_exact B fin header_len) _ (read_exact-Frame B q fin header_len)
              (λ (header, fin').
                bind-Frame B q (lift (open_header B header key id)) _ (λ _. refl)
                  (λ dec.
                    decode-Frame output (chunk_size_of header + 16) aad fin' dec not_temp other))))
          w

    decrypt_file_chunked-Undone : Undone B q (decrypt_file_chunked B input output key id)
    unfolding decrypt_file_chunked
    decrypt_file_chunked-Undone =
        bind-Undone B q (lift (blob_segment_aad id)) _ (λ _. refl)
          (λ aad. bind-Undone B q (open_file B input) _ (open_file-Frame B q input) (λ fin.
            bind-Undone B q (read_exact B fin header_len) _ (read_exact-Frame B q fin header_len)
              (λ (header, fin').
                bind-Undone B q (lift (open_header B header key id)) _ (λ _. refl)
                  (λ dec. decode-Undone output (chunk_size_of header + 16) aad fin' dec not_temp))))

    -- Where `decrypt_file_chunked` fails or is killed, for whatever reason and at whatever step, the
    -- output and every other file that is not at a temporary path of the output are as they were
    -- before, for every input, key and identifier, and whatever the crates do.
    pub decrypt_file_chunked-err :
        (w w' : World B) (e : Error)
        → decrypt_file_chunked B input output key id w ≡ (err e, w')
        → w'.files q ≡ w.files q
    decrypt_file_chunked-err w w' e r =
        Post-err (decrypt_file_chunked B input output key id w) (λ _ _. Unit {0})
          (λ _ u. u.files q ≡ w.files q) (decrypt_file_chunked-Undone w) r
