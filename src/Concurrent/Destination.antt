-- ===== src/Concurrent/Destination.antt =====
-- The destination of `decrypt_file_chunked` while several processes work.
use filum_crypto.Prelude.{ℕ, ◌+◌, Bytes, Result, ok, err, ◌≡◌, ◌≢◌, inl, inr, refl, sym}
use filum_crypto.External.{Backend}
use filum_crypto.Aad.{blob_segment_aad}
use filum_crypto.Blob.{header_len, chunk_size_of, open_header}
use filum_crypto.Io.{FilePath, World, Reader}
use filum_crypto.File.{sibling_temp_path}
use filum_crypto.File.TempPath.{sibling_temp_path-ne_output}
use filum_crypto.Concurrent.Program.{names, opens, creates, ask}
use filum_crypto.Concurrent.Codec.{
  read_exact_program, closing_program, with_cleanup_program, stage_program, publish_program,
  decrypt_program,
}
use filum_crypto.Concurrent.Footprint.{StaysIn}
use filum_crypto.Concurrent.Steps.{Any, AtPath, OpenedAt, open-StaysIn, read_exact-StaysIn}
use filum_crypto.Concurrent.Reach.{create-StaysIn, closing-StaysIn, stage-StaysIn}
use filum_crypto.Concurrent.Publishing.{
  Publishes, cleaned-Publishes, chain-Publishes, stop-Publishes,
}

module _ (B : Backend) (input output : FilePath) where
  abbrev Anywhere : FilePath → Type 0
  Anywhere q = Unit

  abbrev Elsewhere : FilePath → Type 0
  Elsewhere q = q ≢ output

  publish_program-Publishes :
      (tmp : FilePath) (size : ℕ) (aad : Bytes) (r : Reader) (dec : B.stream.Decryptor)
      (s : B.rng.State)
      → tmp ≢ output
      → r.path ≡ input
      → Publishes B output (publish_program B output tmp size aad r dec) s
  unfolding publish_program
  publish_program-Publishes tmp size aad r dec s n at_p =
      chain-Publishes B output Anywhere Elsewhere (λ k. k refl) (Any B) (ask B (creates tmp)) _ s
        (create-StaysIn B Anywhere Elsewhere input tmp tt tt n s)
        (λ _ t _.
          chain-Publishes B output Anywhere Elsewhere (λ k. k refl) (Any B)
            (closing_program B tmp (stage_program B tmp size aad r dec)) _ t
            (closing-StaysIn B Anywhere Elsewhere input tmp tt tt n _ t
              (stage-StaysIn B Anywhere Elsewhere input tmp tt tt n size aad r dec t at_p))
            (λ _ u _. inr (refl, n, refl, λ _ _. tt)))

  abbrev Besides : Result FilePath → B.rng.State → Type 0
  Besides (ok tmp) t = tmp ≢ output
  Besides (err e) t = Unit

  names-Besides : (s : B.rng.State) → StaysIn B Anywhere Elsewhere Besides (ask B (names output)) s
  names-Besides s = (λ q e. tt, λ q e. absurd e, λ w e. named w (sibling_temp_path B output w) refl)
    where
      named :
          (w : World B) (x : Result FilePath × World B)
          → sibling_temp_path B output w ≡ x
          → Besides x.0 x.1.rng
      named w (ok tmp, u) e = (sibling_temp_path-ne_output B output tmp w u e).0
      named w (err z, u) e = tt

  pub decrypt_program-Publishes :
      (key id : Bytes) (s : B.rng.State)
      → Publishes B output (decrypt_program B input output key id) s
  unfolding decrypt_program with_cleanup_program
  decrypt_program-Publishes key id s = stop-Publishes B output (blob_segment_aad id) _ s (λ seg_aad.
      chain-Publishes B output Anywhere Elsewhere (λ k. k refl) (OpenedAt B input s)
        (ask B (opens input)) _ s (open-StaysIn B Anywhere Elsewhere input s tt s refl)
        (λ fin t (at_s, at_p).
          chain-Publishes B output Anywhere Elsewhere (λ k. k refl) (AtPath B input s)
            (read_exact_program B fin header_len) _ t
            (read_exact-StaysIn B Anywhere Elsewhere input s tt fin header_len t at_s at_p)
            (λ (header, fin') u (_, at_p').
              stop-Publishes B output (open_header B header key id) _ u (λ dec.
                chain-Publishes B output Anywhere Elsewhere (λ k. k refl) Besides
                  (ask B (names output)) _ u (names-Besides u)
                  (λ tmp v n.
                    cleaned-Publishes B output
                      (publish_program B output tmp (chunk_size_of header + 16) seg_aad fin' dec) _
                      v
                      (publish_program-Publishes tmp (chunk_size_of header + 16) seg_aad fin' dec v
                        n at_p')
                      refl (λ e t'. inl (λ c. n (sym c), λ _ _. tt)))))))
