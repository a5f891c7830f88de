-- ===== src/Io/Publish.antt =====
-- What the operations on whole files do: `create`, `sync_all`, `rename`, `remove_file`, and the end of
-- a writer's scope.
use mathlib.Core.List.{append-nil}
use filum_crypto.Prelude.{
  Bool, true, false, ◌||◌, not, ℕ, Bytes, take, [], List, ◌∷◌, Option, none, some, Error, ◌≡◌, ◌≢◌,
  refl, ap, ◌∙◌, sym, Bool-cases, inl, inr, zero, suc,
}
use filum_crypto.External.{Backend}
use filum_crypto.Io.{
  FilePath, path_eq, IoChoice, full, short, fails, dies, update, World, append_to, spill, create,
  sync_all, rename_found, rename, remove_file, drop_writer,
}
use filum_crypto.Io.Hoare.{
  Post, NoFaults, Keeps, Touches, path_eq→eq, update_self, update_other, Keeps-refl, Touches-Keeps,
}
use filum_crypto.Io.Laws.{at, kept, spill-Touches, IoFailure}

module _ (B : Backend) where
  pub record Created (p : FilePath) (w w' : World B) : Type 0 where
    pub touches : Touches B p w w'
    pub empty_file : w'.files p ≡ some []
    pub empty_buffer : w'.buffer ≡ []

  create_done :
      (p : FilePath) (u w : World B)
      → Keeps B u w
      → Created p u (record w {
        files = update w.files p (some []);
        unsynced = update w.unsynced p true;
        buffer = [];
      })
  create_done p u w k = record {
    touches = record {
      rng = k.rng;
      others = λ q n. update_other w.files p q (some []) n ∙ k.files q;
      others_synced = λ q n. update_other w.unsynced p q true n ∙ k.synced q;
      calm = k.calm;
    };
    empty_file = update_self w.files p (some []);
    empty_buffer = refl;
  }

  create-at :
      (p : FilePath) (w : World B) (cs : List IoChoice)
      → Post (create B p (at B w cs)) (λ _ w'. Created p (at B w cs) w') (IoFailure B (at B w cs))
  unfolding create
  create-at p w [] = create_done p _ _ (Keeps-refl B _)
  create-at p w (full ∷ cs) = create_done p _ _ (kept B w full cs (λ h. h))
  create-at p w (short k ∷ cs) = create_done p _ _ (kept B w (short k) cs (λ h. h))
  create-at p w (fails k ∷ cs) = (kept B w (fails k) cs (λ h. absurd h), (refl, λ h. h))
  create-at p w (dies ∷ cs) = (Keeps-refl B _, (refl, λ h. h))

  pub create_lem :
      (p : FilePath) (w : World B) → Post (create B p w) (λ _ w'. Created p w w') (IoFailure B w)
  create_lem p w = create-at p w w.choices

  -- The file is on the disk, and nothing else has changed.
  pub record Synced (p : FilePath) (w w' : World B) : Type 0 where
    pub touches : Touches B p w w'
    pub files : (q : FilePath) → w'.files q ≡ w.files q
    pub buffer : w'.buffer ≡ w.buffer
    pub on_disk : w'.unsynced p ≡ false

  sync_done :
      (p : FilePath) (u w : World B)
      → Keeps B u w
      → Synced p u (record w { unsynced = update w.unsynced p false })
  sync_done p u w k = record {
    touches = record {
      rng = k.rng;
      others = λ q _. k.files q;
      others_synced = λ q n. update_other w.unsynced p q false n ∙ k.synced q;
      calm = k.calm;
    };
    files = k.files;
    buffer = k.buffer;
    on_disk = update_self w.unsynced p false;
  }

  sync_all-at :
      (p : FilePath) (w : World B) (cs : List IoChoice)
      → Post (sync_all B p (at B w cs)) (λ _ w'. Synced p (at B w cs) w') (IoFailure B (at B w cs))
  unfolding sync_all
  sync_all-at p w [] = sync_done p _ _ (Keeps-refl B _)
  sync_all-at p w (full ∷ cs) = sync_done p _ _ (kept B w full cs (λ h. h))
  sync_all-at p w (short k ∷ cs) = sync_done p _ _ (kept B w (short k) cs (λ h. h))
  sync_all-at p w (fails k ∷ cs) = (kept B w (fails k) cs (λ h. absurd h), (refl, λ h. h))
  sync_all-at p w (dies ∷ cs) = (Keeps-refl B _, (refl, λ h. h))

  pub sync_all_lem :
      (p : FilePath) (w : World B) → Post (sync_all B p w) (λ _ w'. Synced p w w') (IoFailure B w)
  sync_all_lem p w = sync_all-at p w w.choices

  -- `p` has been moved over `q`.
  pub record Renamed (p q : FilePath) (w w' : World B) : Type 0 where
    pub rng : w'.rng ≡ w.rng
    pub moved : w'.files q ≡ w.files p
    pub gone : w'.files p ≡ none
    pub others : (r : FilePath) → r ≢ p → r ≢ q → w'.files r ≡ w.files r
    pub moved_synced : w'.unsynced q ≡ w.unsynced p
    pub calm : NoFaults w.choices → NoFaults w'.choices

  abbrev pub NotRenamed : FilePath → World B → Error → World B → Type 0
  NotRenamed p w e w' = Keeps B w w' × (e ≡ Error.io) × (NoFaults w.choices → w.files p ≡ none)

  rename_found_lem :
      (p q : FilePath) (o : Option Bytes) (u w : World B)
      → p ≢ q
      → u.files p ≡ o
      → Keeps B u w
      → Post (rename_found B p q o w) (λ _ w'. Renamed p q u w') (NotRenamed p u)
  unfolding rename_found
  rename_found_lem p q none u w n e k = (k, refl, λ _. e)
  rename_found_lem p q (some bytes) u w n e k = record {
    rng = k.rng;
    moved =
        update_other (update w.files q (some bytes)) p q none (λ s. n (sym s))
        ∙ update_self w.files q (some bytes)
        ∙ sym e;
    gone = update_self (update w.files q (some bytes)) p none;
    others = λ r a b.
        update_other (update w.files q (some bytes)) p r none a
        ∙ update_other w.files q r (some bytes) b
        ∙ k.files r;
    moved_synced =
        update_other (update w.unsynced q (w.unsynced p)) p q false (λ s. n (sym s))
        ∙ update_self w.unsynced q (w.unsynced p)
        ∙ k.synced p;
    calm = k.calm;
  }

  rename-at :
      (p q : FilePath) (w : World B) (cs : List IoChoice)
      → p ≢ q
      → Post
          (rename B p q (at B w cs))
          (λ _ w'. Renamed p q (at B w cs) w')
          (NotRenamed p (at B w cs))
  unfolding rename
  rename-at p q w [] n = rename_found_lem p q (w.files p) _ _ n refl (Keeps-refl B _)
  rename-at p q w (full ∷ cs) n =
      rename_found_lem p q (w.files p) _ _ n refl (kept B w full cs (λ h. h))
  rename-at p q w (short k ∷ cs) n =
      rename_found_lem p q (w.files p) _ _ n refl (kept B w (short k) cs (λ h. h))
  rename-at p q w (fails k ∷ cs) n = (kept B w (fails k) cs (λ h. absurd h), refl, λ h. absurd h)
  rename-at p q w (dies ∷ cs) n = (Keeps-refl B _, refl, λ h. absurd h)

  pub rename_lem :
      (p q : FilePath) (w : World B)
      → p ≢ q
      → Post (rename B p q w) (λ _ w'. Renamed p q w w') (NotRenamed p w)
  rename_lem p q w n = rename-at p q w w.choices n

  -- A removal reaches no other file, and works unless the system fails.
  pub record Removed (p : FilePath) (w w' : World B) : Type 0 where
    pub touches : Touches B p w w'
    pub gone : NoFaults w.choices → w'.files p ≡ none

  remove_done :
      (p : FilePath) (u w : World B)
      → Keeps B u w
      → Removed p u
          (record w { files = update w.files p none; unsynced = update w.unsynced p false })
  remove_done p u w k = record {
    touches = record {
      rng = k.rng;
      others = λ q n. update_other w.files p q none n ∙ k.files q;
      others_synced = λ q n. update_other w.unsynced p q false n ∙ k.synced q;
      calm = k.calm;
    };
    gone = λ _. update_self w.files p none;
  }

  remove_at :
      (p : FilePath) (w : World B) (cs : List IoChoice)
      → Removed p (at B w cs) (remove_file B p (at B w cs))
  unfolding remove_file
  remove_at p w [] = remove_done p _ _ (Keeps-refl B _)
  remove_at p w (full ∷ cs) = remove_done p _ _ (kept B w full cs (λ h. h))
  remove_at p w (short k ∷ cs) = remove_done p _ _ (kept B w (short k) cs (λ h. h))
  remove_at p w (fails k ∷ cs) = record {
    touches = Touches-Keeps B p _ _ (kept B w (fails k) cs (λ h. absurd h));
    gone = λ h. absurd h;
  }
  remove_at p w (dies ∷ cs) = record {
    touches = Touches-Keeps B p _ _ (Keeps-refl B _);
    gone = λ h. absurd h;
  }

  pub remove_file_lem : (p : FilePath) (w : World B) → Removed p w (remove_file B p w)
  remove_file_lem p w = remove_at p w w.choices

  -- The end of a writer's scope reaches its file only, and changes nothing after a flush.
  pub record Dropped (p : FilePath) (w w' : World B) : Type 0 where
    pub touches : Touches B p w w'
    pub settled : w.buffer ≡ [] → (q : FilePath) → w'.files q ≡ w.files q
    pub settled_synced : w.buffer ≡ [] → (q : FilePath) → w'.unsynced q ≡ w.unsynced q

  append_to-nil : (o : Option Bytes) → append_to o [] ≡ o
  append_to-nil none = refl
  append_to-nil (some old) = ap some (append-nil old)

  take_of_nil : (k : ℕ) (b : Bytes) → b ≡ [] → take k b ≡ []
  take_of_nil zero b e = refl
  take_of_nil (suc k) b e = rw e refl

  spill_settled :
      (p : FilePath) (k : ℕ) (w : World B) (q : FilePath)
      → w.buffer ≡ []
      → (spill B p k w).files q ≡ w.files q
  unfolding spill
  spill_settled p k w q e = elim (Bool-cases (path_eq q p)) [
    | inr f ↦ rw f refl
    | inl t ↦
        rw (t, take_of_nil k w.buffer e, append_to-nil (w.files p))
          (ap w.files (sym (path_eq→eq q p t)))
  ]

  or-false : (b : Bool) → (b || not true) ≡ b
  or-false true = refl
  or-false false = refl

  spill_settled_synced :
      (p : FilePath) (k : ℕ) (w : World B) (q : FilePath)
      → w.buffer ≡ []
      → (spill B p k w).unsynced q ≡ w.unsynced q
  unfolding spill
  spill_settled_synced p k w q e = elim (Bool-cases (path_eq q p)) [
    | inr f ↦ rw f refl
    | inl t ↦
        rw (t, take_of_nil k w.buffer e, or-false (w.unsynced p))
          (ap w.unsynced (sym (path_eq→eq q p t)))
  ]

  spill-Dropped : (p : FilePath) (k : ℕ) (u w : World B) → Keeps B u w → Dropped p u (spill B p k w)
  spill-Dropped p k u w h = record {
    touches = spill-Touches B p k u w (Touches-Keeps B p u w h);
    settled = λ e q. spill_settled p k w q (h.buffer ∙ e) ∙ h.files q;
    settled_synced = λ e q. spill_settled_synced p k w q (h.buffer ∙ e) ∙ h.synced q;
  }

  drop_writer-at :
      (p : FilePath) (w : World B) (cs : List IoChoice)
      → Dropped p (at B w cs) (drop_writer B p (at B w cs))
  unfolding drop_writer
  drop_writer-at p w [] = spill-Dropped p _ _ _ (Keeps-refl B _)
  drop_writer-at p w (full ∷ cs) = spill-Dropped p _ _ _ (kept B w full cs (λ h. h))
  drop_writer-at p w (short k ∷ cs) = spill-Dropped p _ _ _ (kept B w (short k) cs (λ h. h))
  drop_writer-at p w (fails k ∷ cs) =
      let d =
        spill-Dropped p k (at B w (fails k ∷ cs)) (at B w cs)
          (kept B w (fails k) cs (λ h. absurd h)) in
      record {
        touches = record {
          rng = d.touches.rng;
          others = d.touches.others;
          others_synced = d.touches.others_synced;
          calm = d.touches.calm;
        };
        settled = d.settled;
        settled_synced = d.settled_synced;
      }
  drop_writer-at p w (dies ∷ cs) = record {
    touches = record {
      rng = refl;
      others = λ q _. refl;
      others_synced = λ q _. refl;
      calm = λ h. h;
    };
    settled = λ _ q. refl;
    settled_synced = λ _ q. refl;
  }

  pub drop_writer_lem : (p : FilePath) (w : World B) → Dropped p w (drop_writer B p w)
  drop_writer_lem p w = drop_writer-at p w w.choices
