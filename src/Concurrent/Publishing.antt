-- ===== src/Concurrent/Publishing.antt =====
-- Programs that change a file by a rename onto it only, as the last call that they make if it succeeds.
use mathlib.Core.Path.{subst}
use filum_crypto.Prelude.{Result, ok, err, Error, ◌≡◌, ◌≢◌, ◌⊎◌, inl, inr, refl, ap, ◌∙◌, sym}
use filum_crypto.External.{Backend}
use filum_crypto.Io.{FilePath, World, rename}
use filum_crypto.Io.Hoare.{Post, Post-mono}
use filum_crypto.Io.Publish.{Renamed, NotRenamed, rename_lem}
use filum_crypto.Concurrent.Program.{
  Action, prepares, names, opens, creates, flushes, syncs, removes, closes, reads, writes, renames,
  measures, Answer, perform, Program, stop, call, after, on_ok, chain,
}
use filum_crypto.Concurrent.Footprint.{Changes, StaysIn, perform-others}
use filum_crypto.Concurrent.Processes.{advance}

module _ (B : Backend) (o : FilePath) where
  -- A rename onto the file, with nothing after it if it succeeds.
  abbrev pub Final :
      (a : Action)
      → (Result (Answer B a) → Program B (Unit {0}))
      → (Result (Answer B a) → B.rng.State → Type 0)
      → Type 0
  Final (renames from to) f g =
      (to ≡ o)
      × (from ≢ o)
      × (f (ok tt) ≡ stop (ok tt))
      × ((e : Error) (t : B.rng.State) → g (err e) t)
  Final (prepares key id) f g = ⊥
  Final (names output) f g = ⊥
  Final (opens p) f g = ⊥
  Final (creates p) f g = ⊥
  Final (flushes p) f g = ⊥
  Final (syncs p) f g = ⊥
  Final (removes p) f g = ⊥
  Final (closes p) f g = ⊥
  Final (reads r n) f g = ⊥
  Final (writes p bytes) f g = ⊥
  Final (measures size r) f g = ⊥

  abbrev Failed : Result (Unit {0}) → Type 0
  Failed (ok _) = ⊥
  Failed (err e) = Unit

  -- The program has not changed the file, and does so by such a rename only.
  abbrev pub Publishes : Program B (Unit {0}) → B.rng.State → Type 0
  Publishes (stop r) s = Failed r
  Publishes (call a f) s =
      (¬ Changes a o
        × ((w : World B) → w.rng ≡ s → Publishes (f (perform B a w).0) (perform B a w).1.rng))
      ⊎ Final a f (λ r t. Publishes (f r) t)

  Final-map :
      (a : Action) (f f' : Result (Answer B a) → Program B (Unit {0}))
      (g g' : Result (Answer B a) → B.rng.State → Type 0)
      → ((r : Result (Answer B a)) → f r ≡ stop (ok tt) → f' r ≡ stop (ok tt))
      → ((r : Result (Answer B a)) (t : B.rng.State) → g r t → g' r t)
      → Final a f g
      → Final a f' g'
  Final-map (renames from to) f f' g g' h k (at, n, e, errs) =
      (at, n, h (ok tt) e, λ z t. k (err z) t (errs z t))
  Final-map (prepares key id) f f' g g' h k fin = fin
  Final-map (names output) f f' g g' h k fin = fin
  Final-map (opens p) f f' g g' h k fin = fin
  Final-map (creates p) f f' g g' h k fin = fin
  Final-map (flushes p) f f' g g' h k fin = fin
  Final-map (syncs p) f f' g g' h k fin = fin
  Final-map (removes p) f f' g g' h k fin = fin
  Final-map (closes p) f f' g g' h k fin = fin
  Final-map (reads r n) f f' g g' h k fin = fin
  Final-map (writes p bytes) f f' g g' h k fin = fin
  Final-map (measures size r) f f' g g' h k fin = fin

  -- A clean-up after a program that publishes.
  pub cleaned-Publishes :
      (m : Program B (Unit {0})) (k : Result (Unit {0}) → Program B (Unit {0})) (s : B.rng.State)
      → Publishes m s
      → k (ok tt) ≡ stop (ok tt)
      → ((e : Error) (t : B.rng.State) → Publishes (k (err e)) t)
      → Publishes (after B m k) s
  cleaned-Publishes (stop (ok _)) k s h c errs = absurd h
  cleaned-Publishes (stop (err e)) k s h c errs = errs e s
  cleaned-Publishes (call a f) k s h c errs = elim h [
    | inl (n, next) ↦ inl (
      n,
      λ w e. cleaned-Publishes (f (perform B a w).0) k (perform B a w).1.rng (next w e) c errs,
    )
    | inr fin ↦ inr (
        Final-map a f (λ r. after B (f r) k) (λ r t. Publishes (f r) t)
          (λ r t. Publishes (after B (f r) k) t) (λ r e. ap (λ p. after B p k) e ∙ c)
          (λ r t p. cleaned-Publishes (f r) k t p c errs) fin)
  ]

  module _ (R W : FilePath → Type 0) (off : ¬ W o) where
    -- What comes before the first change of the file.
    after-Publishes :
        {A : Type 0} (P : Result A → B.rng.State → Type 0) (m : Program B A)
        (k : Result A → Program B (Unit {0})) (s : B.rng.State)
        → StaysIn B R W P m s
        → ((r : Result A) (t : B.rng.State) → P r t → Publishes (k r) t)
        → Publishes (after B m k) s
    after-Publishes P (stop r) k s h g = g r s h
    after-Publishes P (call a f) k s h g = inl (
      λ c. off (h.1 o c),
      λ w e. after-Publishes P (f (perform B a w).0) k (perform B a w).1.rng (h.2 w e) g,
    )

    pub chain-Publishes :
        {A : Type 0} (P : Result A → B.rng.State → Type 0) (m : Program B A)
        (f : A → Program B (Unit {0})) (s : B.rng.State)
        → StaysIn B R W P m s
        → ((a : A) (t : B.rng.State) → P (ok a) t → Publishes (f a) t)
        → Publishes (chain B m f) s
    chain-Publishes {A} P m f s h g = after-Publishes P m (on_ok B f) s h by_result
      where
        by_result : (r : Result A) (t : B.rng.State) → P r t → Publishes (on_ok B f r) t
        by_result (ok a) t p = g a t p
        by_result (err e) t p = tt

  pub stop-Publishes :
      {A : Type 0} (r : Result A) (f : A → Program B (Unit {0})) (s : B.rng.State)
      → ((a : A) → Publishes (f a) s)
      → Publishes (chain B (stop r) f) s
  stop-Publishes (ok a) f s g = g a
  stop-Publishes (err e) f s g = tt

  abbrev pub Moved : FilePath → World B → Result (Unit {0}) × World B → Type 0
  Moved from w x = Post x (λ _ w'. w'.files o ≡ w.files from) (λ _ w'. w'.files o ≡ w.files o)

  pub renamed :
      (from to : FilePath) (w : World B) → to ≡ o → from ≢ o → Moved from w (rename B from to w)
  renamed from to w at n =
      subst (λ p. Moved from w (rename B from p w)) (sym at)
        (Post-mono (rename B from o w) (λ _ w'. Renamed B from o w w')
          (λ _ w'. w'.files o ≡ w.files from) (NotRenamed B from w) (λ _ w'. w'.files o ≡ w.files o)
          (rename_lem B from o w n) (λ _ _ r. r.moved) (λ _ _ k. k.0.files o))

  -- The last call: it succeeds and nothing follows, or it fails and the file is as it was.
  final_step :
      (a : Action) (f : Result (Answer B a) → Program B (Unit {0}))
      (g : Result (Answer B a) → B.rng.State → Type 0) (w : World B)
      → Final a f g
      → ((f (perform B a w).0 ≡ stop (ok tt)) × Changes a o)
        ⊎ (g (perform B a w).0 (perform B a w).1.rng × ((perform B a w).1.files o ≡ w.files o))
  final_step (renames from to) f g w (at, n, e, errs) =
      by_result (rename B from to w) (renamed from to w at n)
    where
      by_result :
          (x : Result (Unit {0}) × World B)
          → Moved from w x
          → ((f x.0 ≡ stop (ok tt)) × Changes (renames from to) o)
            ⊎ (g x.0 x.1.rng × (x.1.files o ≡ w.files o))
      by_result (ok _, w1) m = inl (e, inr (sym at))
      by_result (err z, w1) m = inr (errs z w1.rng, m)
  final_step (prepares key id) f g w fin = absurd fin
  final_step (names output) f g w fin = absurd fin
  final_step (opens p) f g w fin = absurd fin
  final_step (creates p) f g w fin = absurd fin
  final_step (flushes p) f g w fin = absurd fin
  final_step (syncs p) f g w fin = absurd fin
  final_step (removes p) f g w fin = absurd fin
  final_step (closes p) f g w fin = absurd fin
  final_step (reads r n) f g w fin = absurd fin
  final_step (writes p bytes) f g w fin = absurd fin
  final_step (measures size r) f g w fin = absurd fin

  -- A turn of a program that publishes: it does so, or it leaves the file.
  pub advance-Publishes :
      (R W : FilePath → Type 0) (P : Result (Unit {0}) → B.rng.State → Type 0)
      (p : Program B (Unit {0})) (w : World B)
      → StaysIn B R W P p w.rng
      → Publishes p w.rng
      → (((advance B p w).0 ≡ stop (ok tt)) × W o)
        ⊎ (Publishes (advance B p w).0 (advance B p w).1.rng
            × ((advance B p w).1.files o ≡ w.files o))
  advance-Publishes R W P (stop r) w h p = inr (p, refl)
  advance-Publishes R W P (call a f) w h p = elim p [
    | inl (n, next) ↦ inr (next w refl, perform-others B a o w n)
    | inr fin ↦ elim (final_step a f (λ r t. Publishes (f r) t) w fin) [
      | inl (e, c) ↦ inl (e, h.1 o c)
      | inr k ↦ inr k
    ]
  ]
