-- ===== src/File/Frame.antt =====
-- Which files the codec over files leaves as they are: no assumption on the input, the crates or the
-- schedule.
use filum_crypto.Prelude.{
  ℕ, zero, suc, ◌-◌, Bytes, is_empty, length, [], ◌++◌, ltb, Option, none, some, Error, map_err,
  lift, ◌≡◌, ◌≢◌, refl,
}
use filum_crypto.External.{Backend}
use filum_crypto.Blob.{chunk_size, Prepared, prepare}
use filum_crypto.Io.{FilePath, World, Reader, on_rng, open_file, create, read, write_all}
use filum_crypto.Io.Frame.{
  Frame, bind-Frame, seq-Frame, on_rng-Frame, if-Frame, open_file-Frame, read-Frame, create-Frame,
  write_all-Frame, flush-Frame, closing-Frame,
}
use filum_crypto.File.{
  read_full_loop, read_full, read_exact, emit_pending, segment_loop, rounds, encrypt_loop,
  encrypt_file_chunked, decrypt_loop,
}

module _ (B : Backend) (q : FilePath) where
  read_full_loop-Frame :
      (fuel : ℕ) (r : Reader) (n : ℕ) (filled : Bytes)
      → Frame B q (read_full_loop B fuel r n filled)
  unfolding read_full_loop
  read_full_loop-Frame zero r n filled = λ _. refl
  read_full_loop-Frame (suc fuel) r n filled =
      if-Frame B q (ltb (length filled) n) _ _
        (bind-Frame B q (read B r (n - length filled)) _ (read-Frame B q r (n - length filled))
          (λ (bytes, r').
            if-Frame B q (is_empty bytes) _ _ (λ _. refl)
              (read_full_loop-Frame fuel r' n (filled ++ bytes))))
        (λ _. refl)

  pub read_full-Frame : (r : Reader) (n : ℕ) → Frame B q (read_full B r n)
  unfolding read_full
  read_full-Frame r n = read_full_loop-Frame n r n []

  pub read_exact-Frame : (r : Reader) (n : ℕ) → Frame B q (read_exact B r n)
  unfolding read_exact
  read_exact-Frame r n = bind-Frame B q (read_full B r n) _ (read_full-Frame r n) (λ _ _. refl)

  module _ {St : Type 0} (next : St → Bytes → Bytes → Option (Bytes × St))
      (last : St → Bytes → Bytes → Option Bytes) (size : ℕ) (output : FilePath) (apart : q ≢ output)
      (aad : Bytes) where
    pub emit_pending-Frame :
        (pending : Option Bytes) (st : St)
        → Frame B q (emit_pending B next last size output aad pending st)
    unfolding emit_pending
    emit_pending-Frame none st = λ _. refl
    emit_pending-Frame (some prev) st =
        bind-Frame B q (lift (map_err Error.aead (next st aad prev))) _ (λ _. refl)
          (λ (out, st').
            seq-Frame B q (write_all B output out) _ (write_all-Frame B q output apart out)
              (λ _. refl))

    segment_loop-Frame :
        (fuel : ℕ) (r : Reader) (st : St) (pending : Option Bytes)
        → Frame B q (segment_loop B next last size output aad fuel r st pending)
    unfolding segment_loop
    segment_loop-Frame zero r st pending = λ _. refl
    segment_loop-Frame (suc fuel) r st pending =
        bind-Frame B q (read_full B r size) _ (read_full-Frame r size) (λ (chunk, r').
          bind-Frame B q (emit_pending B next last size output aad pending st) _
            (emit_pending-Frame pending st)
            (λ st'.
              if-Frame B q (ltb (length chunk) size) _ _
                (bind-Frame B q (lift (map_err Error.aead (last st' aad chunk))) _ (λ _. refl)
                  (λ out. write_all-Frame B q output apart out))
                (segment_loop-Frame fuel r' st' (some chunk))))

  encrypt_loop-Frame :
      (output : FilePath) (p : Prepared B) (fin : Reader)
      → q ≢ output
      → Frame B q (encrypt_loop B output p fin)
  unfolding encrypt_loop
  encrypt_loop-Frame output p fin apart w =
      segment_loop-Frame B.stream.encrypt_next B.stream.encrypt_last chunk_size output apart
        p.seg_aad (rounds B chunk_size fin w) fin p.enc none w

  pub decrypt_loop-Frame :
      (tmp : FilePath) (ct : ℕ) (aad : Bytes) (fin : Reader) (dec : B.stream.Decryptor)
      → q ≢ tmp
      → Frame B q (decrypt_loop B tmp ct aad fin dec)
  unfolding decrypt_loop
  decrypt_loop-Frame tmp ct aad fin dec apart w =
      segment_loop-Frame B.stream.decrypt_next B.stream.decrypt_last ct tmp apart aad
        (rounds B ct fin w) fin dec none w

  -- `encrypt_file_chunked` changes no file but its output, whether it succeeds, fails or is killed,
  -- for every input, also one that is missing or is the output itself.
  pub encrypt_file_chunked-Frame :
      (input output : FilePath) (key id : Bytes) (w : World B)
      → q ≢ output
      → (encrypt_file_chunked B input output key id w).1.files q ≡ w.files q
  unfolding encrypt_file_chunked
  encrypt_file_chunked-Frame input output key id w apart =
      bind-Frame B q (on_rng B (prepare B key id)) _ (on_rng-Frame B q (prepare B key id))
        (λ p. bind-Frame B q (open_file B input) _ (open_file-Frame B q input) (λ fin.
          seq-Frame B q (create B output) _ (create-Frame B q output apart) (
            closing-Frame B q output apart _ (
              seq-Frame B q (write_all B output p.header) _
                (write_all-Frame B q output apart p.header)
                (seq-Frame B q (encrypt_loop B output p fin) _
                  (encrypt_loop-Frame output p fin apart) (flush-Frame B q output apart))))))
        w
