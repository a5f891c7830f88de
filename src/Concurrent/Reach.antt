-- ===== src/Concurrent/Reach.antt =====
-- The files that `encrypt_file_chunked` and `decrypt_file_chunked` consult and change as processes.
use filum_crypto.Prelude.{
  ℕ, zero, suc, ◌+◌, Bytes, length, ltb, Option, none, some, Result, ok, err, Error, map_err, ◌≡◌,
  inl, inr, refl, ap, ◌∙◌, sym,
}
use filum_crypto.External.{Backend}
use filum_crypto.Aad.{blob_segment_aad}
use filum_crypto.Blob.{header_len, chunk_size, chunk_size_of, open_header}
use filum_crypto.Io.{FilePath, World, Reader}
use filum_crypto.File.{sibling_temp_path}
use filum_crypto.Concurrent.Program.{
  prepares, names, opens, creates, flushes, syncs, removes, writes, renames, measures, Program,
  stop, call, ask, chain,
}
use filum_crypto.Concurrent.Codec.{
  read_full_program, read_exact_program, emit_pending_program, segment_loop_program,
  encrypt_loop_program, closing_program, encrypt_program, with_cleanup_program,
  decrypt_loop_program, stage_program, publish_program, decrypt_program,
}
use filum_crypto.Concurrent.Footprint.{StaysIn, after-StaysIn}
use filum_crypto.Concurrent.Steps.{
  Any, Draws, drawn_path, drawn_path_lem, AtPath, OpenedAt, DrewPath, chain-StaysIn, stop-StaysIn,
  if-StaysIn, ask-StaysIn, seq-StaysIn, on_path, open-StaysIn, read_full-StaysIn,
  read_exact-StaysIn,
}

module _ (B : Backend) (R W : FilePath → Type 0) where
  abbrev Ends : {A : Type 0} → Program B A → B.rng.State → Type 0
  Ends m t = StaysIn B R W (Any B) m t

  write-StaysIn :
      (p : FilePath) (bytes : Bytes) (t : B.rng.State) → R p → W p → Ends (ask B (writes p bytes)) t
  write-StaysIn p bytes t in_R in_W =
      ask-StaysIn B R W (writes p bytes) t (λ q e. on_path B R W p R in_R q e)
        (λ q e. on_path B R W p W in_W q e)

  module _ (input output : FilePath) (in_R : R input) (out_R : R output) (out_W : W output) where
    module _ {St : Type 0} (next : St → Bytes → Bytes → Option (Bytes × St))
        (last : St → Bytes → Bytes → Option Bytes) (size : ℕ) (aad : Bytes) where
      emit_pending-StaysIn :
          (pending : Option Bytes) (st : St) (t : B.rng.State)
          → Ends (emit_pending_program B next last size output aad pending st) t
      unfolding emit_pending_program
      emit_pending-StaysIn none st t = tt
      emit_pending-StaysIn (some prev) st t =
          stop-StaysIn B R W (Any B) (map_err Error.aead (next st aad prev)) _ t
            (λ (out, st').
              seq-StaysIn B R W (ask B (writes output out)) (stop (ok st')) t
                (write-StaysIn output out t out_R out_W) (λ _. tt))
            (λ _. tt)

      segment_loop-StaysIn :
          (fuel : ℕ) (r : Reader) (st : St) (pending : Option Bytes) (t : B.rng.State)
          → r.path ≡ input
          → Ends (segment_loop_program B next last size output aad fuel r st pending) t
      unfolding segment_loop_program
      segment_loop-StaysIn zero r st pending t at_p = tt
      segment_loop-StaysIn (suc fuel) r st pending t at_p =
          chain-StaysIn B R W (AtPath B input t) (Any B) (read_full_program B r size) _ t
            (read_full-StaysIn B R W input t in_R r size t refl at_p)
            (λ (chunk, r') t1 (_, at_p').
              chain-StaysIn B R W (Any B) (Any B)
                (emit_pending_program B next last size output aad pending st) _ t1
                (emit_pending-StaysIn pending st t1)
                (λ st' t2 _.
                  if-StaysIn B R W (Any B) (ltb (length chunk) size) _
                    (segment_loop_program B next last size output aad fuel r' st' (some chunk)) t2
                    (stop-StaysIn B R W (Any B) (map_err Error.aead (last st' aad chunk)) _ t2
                      (λ out. write-StaysIn output out t2 out_R out_W) (λ _. tt))
                    (segment_loop-StaysIn fuel r' st' (some chunk) t2 at_p'))
                (λ _ _ _. tt))
            (λ _ _ _. tt)

    measured_loop-StaysIn :
        {St : Type 0} (next : St → Bytes → Bytes → Option (Bytes × St))
        (last : St → Bytes → Bytes → Option Bytes) (size : ℕ) (aad : Bytes) (r : Reader) (st : St)
        (t : B.rng.State)
        → r.path ≡ input
        → Ends
            (chain B
              (ask B (measures size r))
              (λ fuel. segment_loop_program B next last size output aad fuel r st none))
            t
    measured_loop-StaysIn next last size aad r st t at_p =
        chain-StaysIn B R W (Any B) (Any B) (ask B (measures size r)) _ t
          (ask-StaysIn B R W (measures size r) t (λ q e. on_path B R W input R in_R q (e ∙ at_p))
            (λ q e. absurd e))
          (λ fuel u _. segment_loop-StaysIn next last size aad fuel r st none u at_p) (λ _ _ _. tt)

    pub closing-StaysIn :
        (body : Program B (Unit {0})) (t : B.rng.State)
        → Ends body t
        → Ends (closing_program B output body) t
    unfolding closing_program
    closing-StaysIn body t h = after-StaysIn B R W (Any B) (Any B) body _ t h (λ r u _. (
      (λ q e. on_path B R W output R out_R q e),
      (λ q e. on_path B R W output W out_W q e),
      λ w e. tt,
    ))

    flush-StaysIn : (t : B.rng.State) → Ends (ask B (flushes output)) t
    flush-StaysIn t =
        ask-StaysIn B R W (flushes output) t (λ q e. on_path B R W output R out_R q e)
          (λ q e. on_path B R W output W out_W q e)

    pub create-StaysIn : (t : B.rng.State) → Ends (ask B (creates output)) t
    create-StaysIn t =
        ask-StaysIn B R W (creates output) t (λ q e. absurd e)
          (λ q e. on_path B R W output W out_W q e)

    pub encrypt_program-StaysIn :
        (key id : Bytes) (s : B.rng.State) → Ends (encrypt_program B input output key id) s
    unfolding encrypt_program encrypt_loop_program
    encrypt_program-StaysIn key id s =
        chain-StaysIn B R W (Any B) (Any B) (ask B (prepares key id)) _ s
          (ask-StaysIn B R W (prepares key id) s (λ q e. absurd e) (λ q e. absurd e))
          (λ p t _.
            chain-StaysIn B R W (OpenedAt B input t) (Any B) (ask B (opens input)) _ t
              (open-StaysIn B R W input t in_R t refl)
              (λ fin u (_, at_p).
                seq-StaysIn B R W (ask B (creates output)) _ u (create-StaysIn u) (λ v.
                  closing-StaysIn _ v (
                    seq-StaysIn B R W (ask B (writes output p.header)) _ v
                      (write-StaysIn output p.header v out_R out_W)
                      (λ v1.
                        seq-StaysIn B R W (encrypt_loop_program B output p fin)
                          (ask B (flushes output)) v1
                          (measured_loop-StaysIn B.stream.encrypt_next B.stream.encrypt_last
                            chunk_size p.seg_aad fin p.enc v1 at_p)
                          flush-StaysIn))))
              (λ _ _ _. tt))
          (λ _ _ _. tt)

    pub stage-StaysIn :
        (size : ℕ) (aad : Bytes) (r : Reader) (dec : B.stream.Decryptor) (t : B.rng.State)
        → r.path ≡ input
        → Ends (stage_program B output size aad r dec) t
    unfolding stage_program decrypt_loop_program
    stage-StaysIn size aad r dec t at_p =
        seq-StaysIn B R W (decrypt_loop_program B output size aad r dec) _ t
          (measured_loop-StaysIn B.stream.decrypt_next B.stream.decrypt_last size aad r dec t at_p)
          (λ u.
            seq-StaysIn B R W (ask B (flushes output)) (ask B (syncs output)) u (flush-StaysIn u)
              (λ v. ask-StaysIn B R W (syncs output) v (λ q e. absurd e) (λ q e. absurd e)))

  module _ (input output : FilePath) (in_R : R input) (out_W : W output) where
    publish-StaysIn :
        (tmp : FilePath) (size : ℕ) (aad : Bytes) (r : Reader) (dec : B.stream.Decryptor)
        (t : B.rng.State)
        → R tmp
        → W tmp
        → r.path ≡ input
        → Ends (publish_program B output tmp size aad r dec) t
    unfolding publish_program
    publish-StaysIn tmp size aad r dec t tmp_R tmp_W at_p =
        seq-StaysIn B R W (ask B (creates tmp)) _ t (create-StaysIn input tmp in_R tmp_R tmp_W t)
          (λ u.
            seq-StaysIn B R W (closing_program B tmp (stage_program B tmp size aad r dec)) _ u
              (closing-StaysIn input tmp in_R tmp_R tmp_W _ u
                (stage-StaysIn input tmp in_R tmp_R tmp_W size aad r dec u at_p))
              (λ v.
                ask-StaysIn B R W (renames tmp output) v (λ q e. on_path B R W tmp R tmp_R q e)
                  (λ q e. elim e [
                    | inl e ↦ on_path B R W tmp W tmp_W q e
                    | inr e ↦ on_path B R W output W out_W q e
                  ])))

    with_cleanup-StaysIn :
        (tmp : FilePath) (body : Program B (Unit {0})) (t : B.rng.State)
        → W tmp
        → Ends body t
        → Ends (with_cleanup_program B tmp body) t
    unfolding with_cleanup_program
    with_cleanup-StaysIn tmp body t tmp_W h = after-StaysIn B R W (Any B) (Any B) body _ t h cleaned
      where
        cleaned :
            (r : Result (Unit {0})) (u : B.rng.State)
            → Unit {0}
            → Ends
                (elim r [ ok _ ↦ stop (ok tt) | err e ↦ call (removes tmp) (λ _. stop (err e)) ])
                u
        cleaned (ok _) u _ = tt
        cleaned (err e) u _ = (λ q e. absurd e, λ q e. on_path B R W tmp W tmp_W q e, λ w e. tt)

    pub decrypt_program-StaysIn :
        (key id : Bytes) (s : B.rng.State)
        → ((tmp : FilePath) → Draws B output s tmp → R tmp × W tmp)
        → Ends (decrypt_program B input output key id) s
    unfolding decrypt_program
    decrypt_program-StaysIn key id s drawn =
        stop-StaysIn B R W (Any B) (blob_segment_aad id) _ s
          (λ seg_aad.
            chain-StaysIn B R W (OpenedAt B input s) (Any B) (ask B (opens input)) _ s
              (open-StaysIn B R W input s in_R s refl)
              (λ fin t (at_s, at_p).
                chain-StaysIn B R W (AtPath B input s) (Any B) (read_exact_program B fin header_len)
                  _ t (read_exact-StaysIn B R W input s in_R fin header_len t at_s at_p)
                  (λ (header, fin') u (at_s, at_p).
                    stop-StaysIn B R W (Any B) (open_header B header key id) _ u
                      (λ dec.
                        chain-StaysIn B R W (DrewPath B output s) (Any B) (ask B (names output)) _ u
                          (names-StaysIn s u at_s)
                          (λ tmp v d.
                            let (tmp_R, tmp_W) = drawn tmp d in
                            with_cleanup-StaysIn tmp _ v tmp_W (
                              publish-StaysIn tmp (chunk_size_of header + 16) seg_aad fin' dec v
                                tmp_R tmp_W at_p))
                          (λ _ _ _. tt))
                      (λ _. tt))
                  (λ _ _ _. tt))
              (λ _ _ _. tt))
          (λ _. tt)
      where
        names-StaysIn :
            (s t : B.rng.State)
            → t ≡ s
            → StaysIn B R W (DrewPath B output s) (ask B (names output)) t
        names-StaysIn s t at_s = (
          λ q e. absurd e,
          λ q e. absurd e,
          λ w e. named w (e ∙ at_s) (sibling_temp_path B output w).0 refl,
        )
          where
            named :
                (w : World B)
                → w.rng ≡ s
                → (r : Result FilePath) → (sibling_temp_path B output w).0 ≡ r
                → DrewPath B output s r (sibling_temp_path B output w).1.rng
            named w e (ok tmp) d =
                sym (ap (drawn_path B output) e) ∙ sym (drawn_path_lem B output w) ∙ d
            named w e (err z) d = tt
