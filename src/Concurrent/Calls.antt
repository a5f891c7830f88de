-- ===== src/Concurrent/Calls.antt =====
-- Each call, in two states that are alike: the same answer, and states that are alike.
use mathlib.Core.Path.{subst}
use filum_crypto.Prelude.{
  ℕ, suc, min, true, false, ◌+◌, Bytes, length, take, drop, ◌∷◌, [], List, Option, none, some,
  Result, ok, err, Error, refl,
}
use filum_crypto.External.{Backend}
use filum_crypto.Io.{
  FilePath, IoChoice, full, short, fails, dies, update, content, World, Reader, choose, open_found,
  open_file, create, read, sync_all, rename_found, rename, remove_file,
}
use filum_crypto.Io.Laws.{at}
use filum_crypto.Concurrent.Locality.{Same, Alike, Same-at, answer, alike, update-Same}

module _ (B : Backend) (R : FilePath → Type 0) where
  module _ (w u : World B) (s : Same B R w u) where
    abbrev both : (cs : List IoChoice) → Same B R (at B w cs) (at B u cs)
    both cs = Same-at B R w u cs s

    abbrev fail :
        {A : Type 0} (cs : List IoChoice)
        → Alike B R {A = A} (err Error.io, at B w cs) (err Error.io, at B u cs)
    fail cs = answer B R (err Error.io) cs w u s

    open_found-Alike :
        (p : FilePath) (o : Option Bytes) (cs : List IoChoice)
        → Alike B R (open_found B p o (at B w cs)) (open_found B p o (at B u cs))
    unfolding open_found
    open_found-Alike p none cs = fail cs
    open_found-Alike p (some bytes) cs = answer B R _ cs w u s

    opened :
        (p : FilePath) (cs : List IoChoice)
        → R p
        → Alike B R
            (open_found B p (w.files p) (at B w cs))
            (open_found B p (u.files p) (at B u cs))
    opened p cs r =
        subst
          (λ o. Alike B R (open_found B p (w.files p) (at B w cs)) (open_found B p o (at B u cs)))
          (s.files p r) (open_found-Alike p (w.files p) cs)

    pub open_file-Alike :
        (p : FilePath) (cs : List IoChoice)
        → R p
        → Alike B R (open_file B p (at B w cs)) (open_file B p (at B u cs))
    unfolding open_file choose
    open_file-Alike p [] r = opened p [] r
    open_file-Alike p (full ∷ cs) r = opened p cs r
    open_file-Alike p (short k ∷ cs) r = opened p cs r
    open_file-Alike p (fails k ∷ cs) r = fail cs
    open_file-Alike p (dies ∷ cs) r = fail (dies ∷ cs)

    abbrev got : Reader → ℕ → Option Bytes → Result (Bytes × Reader)
    got r n o =
        let bytes = take n (drop r.position (content o)) in
        ok (bytes, record r { position = r.position + length bytes })

    took :
        (r : Reader) (n : ℕ) (cs : List IoChoice)
        → R r.path
        → Alike B R (got r n (w.files r.path), at B w cs) (got r n (u.files r.path), at B u cs)
    took r n cs h =
        subst (λ o. Alike B R (got r n (w.files r.path), at B w cs) (got r n o, at B u cs))
          (s.files r.path h) (answer B R (got r n (w.files r.path)) cs w u s)

    pub read-Alike :
        (r : Reader) (n : ℕ) (cs : List IoChoice)
        → R r.path
        → Alike B R (read B r n (at B w cs)) (read B r n (at B u cs))
    unfolding read choose
    read-Alike r n [] h = took r n [] h
    read-Alike r n (full ∷ cs) h = took r n cs h
    read-Alike r n (short k ∷ cs) h = took r (min n (suc k)) cs h
    read-Alike r n (fails k ∷ cs) h = fail cs
    read-Alike r n (dies ∷ cs) h = fail (dies ∷ cs)

    created :
        (p : FilePath) (cs : List IoChoice)
        → Same B R
            (record (at B w cs) {
              files = update w.files p (some []);
              unsynced = update w.unsynced p true;
              buffer = [];
            })
            (record (at B u cs) {
              files = update u.files p (some []);
              unsynced = update u.unsynced p true;
              buffer = [];
            })
    created p cs = record {
      rng = s.rng;
      buffer = refl;
      files = update-Same B R p (some []) (some []) w.files u.files refl s.files;
    }

    pub create-Alike :
        (p : FilePath) (cs : List IoChoice)
        → Alike B R (create B p (at B w cs)) (create B p (at B u cs))
    unfolding create choose
    create-Alike p [] = alike B R _ _ _ (created p []) refl
    create-Alike p (full ∷ cs) = alike B R _ _ _ (created p cs) refl
    create-Alike p (short k ∷ cs) = alike B R _ _ _ (created p cs) refl
    create-Alike p (fails k ∷ cs) = fail cs
    create-Alike p (dies ∷ cs) = fail (dies ∷ cs)

    synced :
        (p : FilePath) (cs : List IoChoice)
        → Same B R
            (record (at B w cs) { unsynced = update w.unsynced p false })
            (record (at B u cs) { unsynced = update u.unsynced p false })
    synced p cs = record { rng = s.rng; buffer = s.buffer; files = s.files }

    pub sync_all-Alike :
        (p : FilePath) (cs : List IoChoice)
        → Alike B R (sync_all B p (at B w cs)) (sync_all B p (at B u cs))
    unfolding sync_all choose
    sync_all-Alike p [] = alike B R _ _ _ (synced p []) refl
    sync_all-Alike p (full ∷ cs) = alike B R _ _ _ (synced p cs) refl
    sync_all-Alike p (short k ∷ cs) = alike B R _ _ _ (synced p cs) refl
    sync_all-Alike p (fails k ∷ cs) = fail cs
    sync_all-Alike p (dies ∷ cs) = fail (dies ∷ cs)

    rename_found-Alike :
        (p q : FilePath) (o : Option Bytes) (cs : List IoChoice)
        → Alike B R (rename_found B p q o (at B w cs)) (rename_found B p q o (at B u cs))
    unfolding rename_found
    rename_found-Alike p q none cs = fail cs
    rename_found-Alike p q (some bytes) cs =
        alike B R _ _ _
          (record {
            rng = s.rng;
            buffer = s.buffer;
            files =
                update-Same B R p none none (update w.files q (some bytes))
                  (update u.files q (some bytes)) refl
                  (update-Same B R q (some bytes) (some bytes) w.files u.files refl s.files);
          })
          refl

    renamed :
        (p q : FilePath) (cs : List IoChoice)
        → R p
        → Alike B R
            (rename_found B p q (w.files p) (at B w cs))
            (rename_found B p q (u.files p) (at B u cs))
    renamed p q cs r =
        subst
          (λ o.
            Alike B R (rename_found B p q (w.files p) (at B w cs))
              (rename_found B p q o (at B u cs)))
          (s.files p r) (rename_found-Alike p q (w.files p) cs)

    pub rename-Alike :
        (p q : FilePath) (cs : List IoChoice)
        → R p
        → Alike B R (rename B p q (at B w cs)) (rename B p q (at B u cs))
    unfolding rename choose
    rename-Alike p q [] r = renamed p q [] r
    rename-Alike p q (full ∷ cs) r = renamed p q cs r
    rename-Alike p q (short k ∷ cs) r = renamed p q cs r
    rename-Alike p q (fails k ∷ cs) r = fail cs
    rename-Alike p q (dies ∷ cs) r = fail (dies ∷ cs)

    removed :
        (p : FilePath) (cs : List IoChoice)
        → Same B R
            (record (at B w cs) {
              files = update w.files p none;
              unsynced = update w.unsynced p false;
            })
            (record (at B u cs) {
              files = update u.files p none;
              unsynced = update u.unsynced p false;
            })
    removed p cs = record {
      rng = s.rng;
      buffer = s.buffer;
      files = update-Same B R p none none w.files u.files refl s.files;
    }

    pub remove_file-Alike :
        (p : FilePath) (cs : List IoChoice)
        → Alike B R {A = Unit {0}}
            (ok tt, remove_file B p (at B w cs))
            (ok tt, remove_file B p (at B u cs))
    unfolding remove_file choose
    remove_file-Alike p [] = alike B R _ _ _ (removed p []) refl
    remove_file-Alike p (full ∷ cs) = alike B R _ _ _ (removed p cs) refl
    remove_file-Alike p (short k ∷ cs) = alike B R _ _ _ (removed p cs) refl
    remove_file-Alike p (fails k ∷ cs) = answer B R (ok tt) cs w u s
    remove_file-Alike p (dies ∷ cs) = answer B R (ok tt) (dies ∷ cs) w u s
