-- ===== src/Io/Laws.antt =====
-- What each operation of `Io` does, whatever the choices are.
use mathlib.Core.List.{append_assoc}
use filum_crypto.Prelude.{
  ℕ, suc, ◌+◌, ◌≤◌, ◌<◌, min, Bytes, length, take, drop, take-append-drop, drop_all, ◌++◌, [], List,
  ◌∷◌, Option, none, some, Error, ◌≡◌, refl, ap, ◌∙◌, sym, arith,
}
use filum_crypto.External.{Backend}
use filum_crypto.Io.{
  FilePath, IoChoice, full, short, fails, dies, World, Reader, content, spill, open_file, read,
  hold, spill_all, open_found, write_all, flush,
}
use filum_crypto.Io.Hoare.{
  Post, NoFaults, Keeps, Touches, Writes, IoError, update_self, update_other, Keeps-refl,
  Touches-Keeps, Writes-Keeps,
}

module _ (B : Backend) where
  -- The world with its choices apart, so that a proof can split on them.
  abbrev pub at : World B → List IoChoice → World B
  at w cs = record w { choices = cs }

  abbrev pub Opened : FilePath → World B → Reader → World B → Type 0
  Opened p w r w' =
      Keeps B w w'
      × (r ≡ record { path = p; position = 0 })
      × ((bytes : Bytes) × (w.files p ≡ some bytes))

  abbrev pub NotOpened : FilePath → World B → Error → World B → Type 0
  NotOpened p w e w' = Keeps B w w' × (e ≡ Error.io) × (NoFaults w.choices → w.files p ≡ none)

  pub kept :
      (w : World B) (c : IoChoice) (cs : List IoChoice)
      → (NoFaults (c ∷ cs) → NoFaults cs)
      → Keeps B (at w (c ∷ cs)) (at w cs)
  kept w c cs h = record {
    rng = refl;
    files = λ q. refl;
    synced = λ q. refl;
    buffer = refl;
    calm = h;
  }

  open_found_lem :
      (p : FilePath) (o : Option Bytes) (w w' : World B)
      → w.files p ≡ o
      → Keeps B w w'
      → Post (open_found B p o w') (Opened p w) (NotOpened p w)
  unfolding open_found
  open_found_lem p none w w' e k = (k, refl, λ _. e)
  open_found_lem p (some bytes) w w' e k = (k, refl, (bytes, e))

  open_file-at :
      (p : FilePath) (w : World B) (cs : List IoChoice)
      → Post (open_file B p (at w cs)) (Opened p (at w cs)) (NotOpened p (at w cs))
  unfolding open_file
  open_file-at p w [] = open_found_lem p (w.files p) _ _ refl (Keeps-refl B _)
  open_file-at p w (full ∷ cs) = open_found_lem p (w.files p) _ _ refl (kept w full cs (λ h. h))
  open_file-at p w (short k ∷ cs) =
      open_found_lem p (w.files p) _ _ refl (kept w (short k) cs (λ h. h))
  open_file-at p w (fails k ∷ cs) = (kept w (fails k) cs (λ h. absurd h), refl, λ h. absurd h)
  open_file-at p w (dies ∷ cs) = (Keeps-refl B _, refl, λ h. absurd h)

  -- A file that is there is opened at its start, unless the system fails.
  pub open_file_lem :
      (p : FilePath) (w : World B) → Post (open_file B p w) (Opened p w) (NotOpened p w)
  open_file_lem p w = open_file-at p w w.choices

  -- A read returns bytes of the file from the reader's position on: some, if it is asked for some.
  abbrev pub DidRead : Reader → ℕ → World B → Bytes × Reader → World B → Type 0
  DidRead r n w (bytes, r') w' =
      Keeps B w w'
      × ((m : ℕ) × (bytes ≡ take m (drop r.position (content (w.files r.path))))
          × (m ≤ n)
          × (0 < n → 0 < m))
      × (r' ≡ record r { position = r.position + length bytes })

  abbrev pub IoFailure : World B → Error → World B → Type 0
  IoFailure w e w' = Keeps B w w' × IoError B w e

  read-at :
      (r : Reader) (n : ℕ) (w : World B) (cs : List IoChoice)
      → Post (read B r n (at w cs)) (DidRead r n (at w cs)) (IoFailure (at w cs))
  unfolding read
  read-at r n w [] = (Keeps-refl B _, (n, refl, omega arith, λ h. h), refl)
  read-at r n w (full ∷ cs) = (kept w full cs (λ h. h), (n, refl, omega arith, λ h. h), refl)
  read-at r n w (short k ∷ cs) =
      (kept w (short k) cs (λ h. h), (min n (suc k), refl, omega arith, λ h. omega arith), refl)
  read-at r n w (fails k ∷ cs) = (kept w (fails k) cs (λ h. absurd h), (refl, λ h. h))
  read-at r n w (dies ∷ cs) = (Keeps-refl B _, (refl, λ h. h))

  pub read_lem :
      (r : Reader) (n : ℕ) (w : World B) → Post (read B r n w) (DidRead r n w) (IoFailure w)
  read_lem r n w = read-at r n w w.choices

  -- What `spill` leaves.
  pub spill_file :
      (p : FilePath) (k : ℕ) (w : World B) (old : Bytes)
      → w.files p ≡ some old
      → (spill B p k w).files p ≡ some (old ++ take k w.buffer)
  unfolding spill
  spill_file p k w old e = update_self w.files p _ ∙ rw e

  pub spill-Touches :
      (p : FilePath) (k : ℕ) (u w : World B) → Touches B p u w → Touches B p u (spill B p k w)
  unfolding spill
  spill-Touches p k u w t = record {
    rng = t.rng;
    others = λ q n. update_other w.files p q _ n ∙ t.others q n;
    others_synced = λ q n. update_other w.unsynced p q _ n ∙ t.others_synced q n;
    calm = t.calm;
  }

  -- Nothing is lost between the buffer and the file.
  spill-Writes :
      (p : FilePath) (k : ℕ) (xs : Bytes) (u w : World B)
      → Writes B p xs u w
      → Writes B p xs u (spill B p k w)
  unfolding spill
  spill-Writes p k xs u w h = record {
    touches = spill-Touches p k u w h.touches;
    appended = λ old e.
        let (now, en, sum) = h.appended old e in
        (
          now ++ take k w.buffer,
          spill_file p k w now en,
          append_assoc now _ _ ∙ ap (λ d. now ++ d) (take-append-drop k w.buffer) ∙ sum,
        );
  }

  hold-Writes :
      (p : FilePath) (xs : Bytes) (u w : World B) → Keeps B u w → Writes B p xs u (hold B xs w)
  hold-Writes p xs u w k = record {
    touches = record {
      rng = k.rng;
      others = λ q _. k.files q;
      others_synced = λ q _. k.synced q;
      calm = k.calm;
    };
    appended = λ old e. (
      old,
      k.files p ∙ e,
      ap (λ b. old ++ (b ++ xs)) k.buffer ∙ sym (append_assoc old u.buffer xs),
    );
  }

  write_all-at :
      (p : FilePath) (xs : Bytes) (w : World B) (cs : List IoChoice)
      → Post
          (write_all B p xs (at w cs))
          (λ _ w'. Writes B p xs (at w cs) w')
          (λ e w'. Touches B p (at w cs) w' × IoError B (at w cs) e)
  unfolding write_all
  write_all-at p xs w [] = hold-Writes p xs _ _ (Keeps-refl B _)
  write_all-at p xs w (full ∷ cs) = hold-Writes p xs _ _ (kept w full cs (λ h. h))
  write_all-at p xs w (short k ∷ cs) =
      spill-Writes p k xs _ _ (hold-Writes p xs _ _ (kept w (short k) cs (λ h. h)))
  write_all-at p xs w (fails k ∷ cs) = (
    spill-Touches p k _ _ (hold-Writes p xs _ _ (kept w (fails k) cs (λ h. absurd h))).touches,
    (refl, λ h. h),
  )
  write_all-at p xs w (dies ∷ cs) = (Touches-Keeps B p _ _ (Keeps-refl B _), (refl, λ h. h))

  -- Bytes that are written are appended to the file or to the buffer.
  pub write_all_lem :
      (p : FilePath) (xs : Bytes) (w : World B)
      → Post
          (write_all B p xs w)
          (λ _ w'. Writes B p xs w w')
          (λ e w'. Touches B p w w' × IoError B w e)
  write_all_lem p xs w = write_all-at p xs w w.choices

  -- A flush leaves the buffer empty and changes nothing else.
  abbrev pub Flushed : FilePath → World B → World B → Type 0
  Flushed p w w' = Writes B p [] w w' × (w'.buffer ≡ [])

  spill_all-Flushed : (p : FilePath) (u w : World B) → Keeps B u w → Flushed p u (spill_all B p w)
  spill_all-Flushed p u w k =
      (spill-Writes p (length w.buffer) [] u w (Writes-Keeps B p u w k), emptied w.buffer refl)
    where
      emptied : (b : Bytes) → w.buffer ≡ b → (spill_all B p w).buffer ≡ []
      emptied b e = unfold spill in drop_all (length w.buffer) w.buffer (omega arith)

  flush-at :
      (p : FilePath) (w : World B) (cs : List IoChoice)
      → Post
          (flush B p (at w cs))
          (λ _ w'. Flushed p (at w cs) w')
          (λ e w'. Touches B p (at w cs) w' × IoError B (at w cs) e)
  unfolding flush
  flush-at p w [] = spill_all-Flushed p _ _ (Keeps-refl B _)
  flush-at p w (full ∷ cs) = spill_all-Flushed p _ _ (kept w full cs (λ h. h))
  flush-at p w (short k ∷ cs) = spill_all-Flushed p _ _ (kept w (short k) cs (λ h. h))
  flush-at p w (fails k ∷ cs) = (
    spill-Touches p k _ _ (Touches-Keeps B p _ _ (kept w (fails k) cs (λ h. absurd h))),
    (refl, λ h. h),
  )
  flush-at p w (dies ∷ cs) = (Touches-Keeps B p _ _ (Keeps-refl B _), (refl, λ h. h))

  pub flush_lem :
      (p : FilePath) (w : World B)
      → Post (flush B p w) (λ _ w'. Flushed p w w') (λ e w'. Touches B p w w' × IoError B w e)
  flush_lem p w = flush-at p w w.choices
