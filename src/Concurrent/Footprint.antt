-- ===== src/Concurrent/Footprint.antt =====
-- Which files a program consults and which it changes, whatever the schedule and the answers.
use mathlib.Core.Path.{subst}
use filum_crypto.Prelude.{suc, length, drop, ◌/◌, List, Result, ok, ◌≡◌, ◌⊎◌, inl, inr, refl, ap}
use filum_crypto.External.{Backend}
use filum_crypto.Blob.{prepare, random}
use filum_crypto.Io.{FilePath, IoChoice, content, World, on_rng}
use filum_crypto.Io.Laws.{at}
use filum_crypto.Io.Publish.{drop_writer_lem, remove_file_lem}
use filum_crypto.Io.Frame.{
  Frame, bind-Frame, on_rng-Frame, open_file-Frame, read-Frame, sync_all-Frame, create-Frame,
  write_all-Frame, flush-Frame, rename-Frame,
}
use filum_crypto.File.{sibling_temp_path}
use filum_crypto.Concurrent.Program.{
  Action, prepares, names, opens, creates, flushes, syncs, removes, closes, reads, writes, renames,
  measures, perform, Program, stop, call, after, run,
}
use filum_crypto.Concurrent.Locality.{Same, Alike, Same-at, on_rng-Alike, bind-Alike}
use filum_crypto.Concurrent.Calls.{
  open_file-Alike, read-Alike, create-Alike, sync_all-Alike, rename-Alike, remove_file-Alike,
}
use filum_crypto.Concurrent.Buffered.{write_all-Alike, flush-Alike, drop_writer-Alike}

-- The file whose contents a call depends on.
abbrev pub Consults : Action → FilePath → Type 0
Consults (opens p) q = q ≡ p
Consults (reads r n) q = q ≡ r.path
Consults (measures size r) q = q ≡ r.path
Consults (flushes p) q = q ≡ p
Consults (closes p) q = q ≡ p
Consults (writes p bytes) q = q ≡ p
Consults (renames from to) q = q ≡ from
Consults (prepares key id) q = ⊥
Consults (names output) q = ⊥
Consults (creates p) q = ⊥
Consults (syncs p) q = ⊥
Consults (removes p) q = ⊥

-- The files that a call may change.
abbrev pub Changes : Action → FilePath → Type 0
Changes (creates p) q = q ≡ p
Changes (flushes p) q = q ≡ p
Changes (closes p) q = q ≡ p
Changes (removes p) q = q ≡ p
Changes (writes p bytes) q = q ≡ p
Changes (renames from to) q = (q ≡ from) ⊎ (q ≡ to)
Changes (prepares key id) q = ⊥
Changes (names output) q = ⊥
Changes (opens p) q = ⊥
Changes (reads r n) q = ⊥
Changes (measures size r) q = ⊥
Changes (syncs p) q = ⊥

module _ (B : Backend) where
  sibling_temp_path-Frame : (q output : FilePath) → Frame B q (sibling_temp_path B output)
  unfolding sibling_temp_path
  sibling_temp_path-Frame q output =
      bind-Frame B q (on_rng B (random B 8)) _ (on_rng-Frame B q (random B 8)) (λ _ _. refl)

  pub perform-others :
      (a : Action) (q : FilePath) (w : World B)
      → ¬ Changes a q
      → (perform B a w).1.files q ≡ w.files q
  perform-others (prepares key id) q w n = on_rng-Frame B q (prepare B key id) w
  perform-others (names output) q w n = sibling_temp_path-Frame q output w
  perform-others (opens p) q w n = open_file-Frame B q p w
  perform-others (reads r k) q w n = read-Frame B q r k w
  perform-others (measures size r) q w n = refl
  perform-others (syncs p) q w n = sync_all-Frame B q p w
  perform-others (creates p) q w n = create-Frame B q p n w
  perform-others (flushes p) q w n = flush-Frame B q p n w
  perform-others (writes p bytes) q w n = write_all-Frame B q p n bytes w
  perform-others (closes p) q w n = (drop_writer_lem B p w).touches.others q n
  perform-others (removes p) q w n = (remove_file_lem B p w).touches.others q n
  perform-others (renames from to) q w n =
      rename-Frame B q from to (λ e. n (inl e)) (λ e. n (inr e)) w

  module _ (R : FilePath → Type 0) where
    sibling_temp_path-Alike :
        (output : FilePath) (w u : World B)
        → Same B R w u
        → w.choices ≡ u.choices
        → Alike B R (sibling_temp_path B output w) (sibling_temp_path B output u)
    unfolding sibling_temp_path
    sibling_temp_path-Alike output w u s c =
        bind-Alike B R (on_rng B (random B 8) w) (on_rng B (random B 8) u) _
          (on_rng-Alike B R (random B 8) w u s c)
          (λ _ v v' t d. record { result = refl; same = t; choices = d })

    perform-at :
        (a : Action) (w u : World B) (cs : List IoChoice)
        → ((q : FilePath) → Consults a q → R q)
        → Same B R w u
        → Alike B R (perform B a (at B w cs)) (perform B a (at B u cs))
    perform-at (prepares key id) w u cs h s =
        on_rng-Alike B R (prepare B key id) (at B w cs) (at B u cs) (Same-at B R w u cs s) refl
    perform-at (names output) w u cs h s =
        sibling_temp_path-Alike output (at B w cs) (at B u cs) (Same-at B R w u cs s) refl
    perform-at (opens p) w u cs h s = open_file-Alike B R w u s p cs (h p refl)
    perform-at (reads r k) w u cs h s = read-Alike B R w u s r k cs (h r.path refl)
    perform-at (measures size r) w u cs h s = record {
      result =
          ap (λ o. ok (suc (length (drop r.position (content o)) / size)))
            (s.files r.path (h r.path refl));
      same = Same-at B R w u cs s;
      choices = refl;
    }
    perform-at (syncs p) w u cs h s = sync_all-Alike B R w u s p cs
    perform-at (creates p) w u cs h s = create-Alike B R w u s p cs
    perform-at (flushes p) w u cs h s = flush-Alike B R w u s p cs (h p refl)
    perform-at (writes p bytes) w u cs h s = write_all-Alike B R w u s p bytes cs (h p refl)
    perform-at (closes p) w u cs h s = drop_writer-Alike B R w u s p cs (h p refl)
    perform-at (removes p) w u cs h s = remove_file-Alike B R w u s p cs
    perform-at (renames from to) w u cs h s = rename-Alike B R w u s from to cs (h from refl)

    pub perform-Alike :
        (a : Action) (w u : World B)
        → ((q : FilePath) → Consults a q → R q)
        → Same B R w u
        → w.choices ≡ u.choices
        → Alike B R (perform B a w) (perform B a u)
    perform-Alike a w u h s c =
        subst (λ cs. Alike B R (perform B a w) (perform B a (at B u cs))) c
          (perform-at a w u w.choices h s)

  -- A program that starts with this random state consults files of `R` only, changes files of `W` only,
  -- and ends as `P` says, whatever is in the files and whatever the system does.
  abbrev pub StaysIn :
      {A : Type 0}
      → (FilePath → Type 0)
      → (FilePath → Type 0)
      → (Result A → B.rng.State → Type 0)
      → Program B A
      → B.rng.State
      → Type 0
  StaysIn R W P (stop r) s = P r s
  StaysIn R W P (call a f) s =
      ((q : FilePath) → Consults a q → R q)
      × ((q : FilePath) → Changes a q → W q)
      × ((w : World B) → w.rng ≡ s → StaysIn R W P (f (perform B a w).0) (perform B a w).1.rng)

  module _ (R W : FilePath → Type 0) where
    pub after-StaysIn :
        {A C : Type 0} (P : Result A → B.rng.State → Type 0) (Q : Result C → B.rng.State → Type 0)
        (m : Program B A) (k : Result A → Program B C) (s : B.rng.State)
        → StaysIn R W P m s
        → ((r : Result A) (t : B.rng.State) → P r t → StaysIn R W Q (k r) t)
        → StaysIn R W Q (after B m k) s
    after-StaysIn P Q (stop r) k s h g = g r s h
    after-StaysIn P Q (call a f) k s h g =
        let (c, d, next) = h in
        (c, d, λ w e. after-StaysIn P Q (f (perform B a w).0) k (perform B a w).1.rng (next w e) g)

    -- Two runs from states that are alike.
    pub run-Alike :
        {A : Type 0} (P : Result A → B.rng.State → Type 0) (m : Program B A) (w u : World B)
        → StaysIn R W P m w.rng
        → Same B R w u
        → w.choices ≡ u.choices
        → Alike B R (run B m w) (run B m u)
    run-Alike P (stop r) w u h s c = record { result = refl; same = s; choices = c }
    run-Alike P (call a f) w u h s c =
        let (consults, _, next) = h in
        let x = perform-Alike R a w u consults s c in
        subst
          (λ r.
            Alike B R (run B (f (perform B a w).0) (perform B a w).1)
              (run B (f r) (perform B a u).1))
          x.result
          (run-Alike P (f (perform B a w).0) (perform B a w).1 (perform B a u).1 (next w refl)
            x.same x.choices)
