-- ===== src/File/Header.antt =====
-- The first steps of `decrypt_file_chunked`: the input is opened and its header is read.
use filum_crypto.Prelude.{
  ◌≤◌, ◌<◌, Bytes, length, take, length-take, inl, inr, ◌⊎◌, some, Error, ◌>>=◌, ◌≡◌, refl, ap, ◌∙◌,
  sym, arith,
}
use mathlib.Core.Path.{subst}
use filum_crypto.External.{Backend}
use filum_crypto.Blob.{header_len}
use filum_crypto.Io.{FilePath, World, Reader, Io, content, open_file}
use filum_crypto.Io.Hoare.{Post, Post-bind, Keeps, Keeps-trans, IoError}
use filum_crypto.Io.Laws.{Opened, NotOpened, open_file_lem}
use filum_crypto.File.{read_exact}
use filum_crypto.File.Reading.{ahead, DidReadFull, read_exact_lem}
use filum_crypto.File.Decrypt.{IoError-back}

module _ (B : Backend) (input : FilePath) (framed : Bytes) where
  -- The reader behind the header.
  abbrev pub start : Reader
  start = record { path = input; position = header_len }

  -- Why there is no header: the system, or a file that is shorter.
  abbrev pub NoHeader : World B → Error → Type 0
  NoHeader w e = IoError B w e ⊎ ((length framed < header_len) × (e ≡ Error.io))

  all_ahead :
      (w u : World B) (r : Reader)
      → Keeps B w u
      → r ≡ record { path = input; position = 0 }
      → w.files input ≡ some framed
      → ahead B r u ≡ framed
  all_ahead w u r k er e = ap (λ (x : Reader). ahead B x u) er ∙ ap content (k.files input ∙ e)

  pair :
      {bytes : Bytes} {r : Reader} (got : Bytes × Reader)
      → got.0 ≡ bytes
      → got.1 ≡ r
      → got ≡ (bytes, r)
  pair (a, b) p q = rw (p, q)

  -- Nothing but choices changes until the header has been read, and then it is the first bytes of the
  -- input.
  pub header_lem :
      {A : Type 0} (k : Bytes × Reader → Io B A) (Q : A → World B → Type 0)
      (E : Error → World B → Type 0) (w : World B)
      → w.files input ≡ some framed
      → ((x : Error) (u : World B) → Keeps B w u → NoHeader w x → E x u)
      → ((v : World B)
          → Keeps B w v
          → header_len ≤ length framed
          → Post (k (take header_len framed, start) v) Q E)
      → Post ((do fin ← open_file B input; got ← read_exact B fin header_len; k got) w) Q E
  header_lem k Q E w e no_header behind =
      Post-bind (open_file B input w) _ (Opened B input w) Q (NotOpened B input w) E
        (open_file_lem B input w)
        (λ x u fail.
          let (kept, ex, absent) = fail in
          no_header x u kept (inl (ex, λ calm. absurd (cc (sym e ∙ absent calm)))))
        (λ r u op.
          let (ku, er, _) = op in
          let whole = all_ahead w u r ku er e in
          Post-bind (read_exact B r header_len u) _
            (λ got v. DidReadFull B r header_len u got v × (length got.0 ≡ header_len)) Q _ E
            (read_exact_lem B r header_len u)
            (λ x v fail.
              let (kv, reason) = fail in
              no_header x v (Keeps-trans B w u v ku kv) (elim reason [
                | inl f ↦ inl (IoError-back B w u x ku.calm f)
                | inr f ↦ inr (subst (λ (b : Bytes). length b < header_len) whole f.0, f.1)
              ]))
            (λ got v did.
              let ((kv, eg, ef), len) = did in
              let front = eg ∙ ap (take header_len) whole in
              let at_header : got.1 ≡ start = ef ∙ rw (er, len) refl in
              subst (λ g. Post (k g v) Q E) (sym (pair got front at_header))
                (behind v (Keeps-trans B w u v ku kv) (
                  omega (
                    arith,
                    len,
                    ap (λ (b : Bytes). length b) front,
                    length-take header_len framed,
                  )))))
