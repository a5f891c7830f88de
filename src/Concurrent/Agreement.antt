-- ===== src/Concurrent/Agreement.antt =====
-- What a program publishes depends on the files that it consults.
use mathlib.Core.Path.{subst}
use filum_crypto.Prelude.{Result, ok, err, Error, ◌≡◌, inl, inr, refl, ap, ◌∙◌, sym}
use filum_crypto.External.{Backend}
use filum_crypto.Io.{FilePath, World, rename}
use filum_crypto.Concurrent.Program.{
  Action, prepares, names, opens, creates, flushes, syncs, removes, closes, reads, writes, renames,
  measures, Answer, perform, Program, stop, call, run,
}
use filum_crypto.Concurrent.Locality.{Same, Alike}
use filum_crypto.Concurrent.Footprint.{Consults, StaysIn, perform-Alike}
use filum_crypto.Concurrent.Publishing.{Final, Moved, renamed, Publishes}

module _ (B : Backend) (o : FilePath) where
  abbrev Agree : Program B (Unit {0}) → World B → Program B (Unit {0}) → World B → Type 0
  Agree p w p' u = (run B p w).0 ≡ ok tt → (run B p w).1.files o ≡ (run B p' u).1.files o

  final_agrees :
      (from : FilePath) (f : Result (Unit {0}) → Program B (Unit {0})) (w u : World B)
      (x y : Result (Unit {0}) × World B)
      → f (ok tt) ≡ stop (ok tt)
      → w.files from ≡ u.files from
      → Moved B o from w x
      → Moved B o from u y
      → x.0 ≡ y.0
      → ((e : Error) → x.0 ≡ err e → Agree (f (err e)) x.1 (f (err e)) y.1)
      → Agree (f x.0) x.1 (f y.0) y.1
  final_agrees from f w u (ok _, w1) (ok _, u1) e same m m' r rest = λ _.
      ap (λ p. (run B p w1).1.files o) e
      ∙ m
      ∙ same
      ∙ sym m'
      ∙ sym (ap (λ p. (run B p u1).1.files o) e)
  final_agrees from f w u (ok _, w1) (err z, u1) e same m m' r rest = absurd (cc r)
  final_agrees from f w u (err z, w1) (ok _, u1) e same m m' r rest = absurd (cc r)
  final_agrees from f w u (err z, w1) (err z', u1) e same m m' r rest =
      subst (λ y. Agree (f (err z)) w1 (f y) u1) r (rest z refl)

  -- What a program publishes depends on the files that it consults.
  module _ (R W : FilePath → Type 0) (P : Result (Unit {0}) → B.rng.State → Type 0) where
    final-Agree :
        (a : Action) (f : Result (Answer B a) → Program B (Unit {0})) (w u : World B)
        → ((q : FilePath) → Consults a q → R q)
        → Same B R w u
        → Alike B R (perform B a w) (perform B a u)
        → Final B o a f (λ r t. Publishes B o (f r) t)
        → ((r : Result (Answer B a))
            → (perform B a w).0 ≡ r
            → Publishes B o (f r) (perform B a w).1.rng
            → Agree (f r) (perform B a w).1 (f r) (perform B a u).1)
        → Agree (f (perform B a w).0) (perform B a w).1 (f (perform B a u).0) (perform B a u).1
    final-Agree (renames from to) f w u in_R s x (at, n, e, errs) rec =
        final_agrees from f w u (rename B from to w) (rename B from to u) e
          (s.files from (in_R from refl)) (renamed B o from to w at n) (renamed B o from to u at n)
          x.result (λ z ez. rec (err z) ez (errs z (rename B from to w).1.rng))
    final-Agree (prepares key id) f w u in_R s x fin rec = absurd fin
    final-Agree (names output) f w u in_R s x fin rec = absurd fin
    final-Agree (opens p) f w u in_R s x fin rec = absurd fin
    final-Agree (creates p) f w u in_R s x fin rec = absurd fin
    final-Agree (flushes p) f w u in_R s x fin rec = absurd fin
    final-Agree (syncs p) f w u in_R s x fin rec = absurd fin
    final-Agree (removes p) f w u in_R s x fin rec = absurd fin
    final-Agree (closes p) f w u in_R s x fin rec = absurd fin
    final-Agree (reads r k) f w u in_R s x fin rec = absurd fin
    final-Agree (writes p bytes) f w u in_R s x fin rec = absurd fin
    final-Agree (measures size r) f w u in_R s x fin rec = absurd fin

    pub run-Agree :
        (m : Program B (Unit {0})) (w u : World B)
        → StaysIn B R W P m w.rng
        → Publishes B o m w.rng
        → Same B R w u
        → w.choices ≡ u.choices
        → Agree m w m u
    run-Agree (stop (ok _)) w u h p s c = absurd p
    run-Agree (stop (err e)) w u h p s c = λ r. absurd (cc r)
    run-Agree (call a f) w u h p s c =
        let x = perform-Alike B R a w u h.0 s c in
        elim p [
          | inl (_, next) ↦
              subst (λ r. Agree (f (perform B a w).0) (perform B a w).1 (f r) (perform B a u).1)
                x.result
                (run-Agree (f (perform B a w).0) (perform B a w).1 (perform B a u).1 (h.2 w refl)
                  (next w refl) x.same x.choices)
          | inr fin ↦ final-Agree a f w u h.0 s x fin (λ r er p'.
              run-Agree (f r) (perform B a w).1 (perform B a u).1
                (subst (λ r. StaysIn B R W P (f r) (perform B a w).1.rng) er (h.2 w refl)) p' x.same
                x.choices)
        ]
