-- ===== src/Io/Frame.antt =====
-- Which files an operation leaves as they are, whatever the schedule, and how that adds up over
-- sequences of operations.
use filum_crypto.Prelude.{
  ℕ, Bytes, [], ◌∷◌, List, Option, none, some, Bool, true, false, if◌then◌else◌, Result, ok, err,
  Error, M, continue, ◌>>=◌, ◌>>◌, lift, ◌≡◌, ◌≢◌, refl, ◌∙◌,
}
use filum_crypto.External.{Backend}
use filum_crypto.Io.{
  FilePath, IoChoice, full, short, fails, dies, update, World, Reader, Io, on_rng, open_file,
  create, read, write_all, flush, sync_all, rename_found, rename, closing,
}
use filum_crypto.Io.Hoare.{Post, update_other}
use filum_crypto.Io.Laws.{at, open_file_lem, read_lem, write_all_lem, flush_lem}
use filum_crypto.Io.Publish.{create_lem, sync_all_lem, drop_writer_lem}

-- What holds of the state behind a success and behind an error holds of the state.
pub Post-state :
    {W A : Type 0} (P : W → Type 0) (r : Result A × W) (Q : A → W → Type 0) (E : Error → W → Type 0)
    → Post r Q E
    → ((a : A) (w : W) → Q a w → P w)
    → ((e : Error) (w : W) → E e w → P w)
    → P r.1
Post-state P (ok a, w) Q E h f g = f a w h
Post-state P (err e, w) Q E h f g = g e w h

-- And the other way round.
pub state-Post :
    {W A : Type 0} (P : W → Type 0) (r : Result A × W) → P r.1 → Post r (λ _ w. P w) (λ _ w. P w)
state-Post P (ok a, w) h = h
state-Post P (err e, w) h = h

module _ (B : Backend) (q : FilePath) where
  -- One file is as it was, behind a success and behind an error.
  abbrev pub Frame : {A : Type 0} → Io B A → Type 0
  Frame m = (w : World B) → (m w).1.files q ≡ w.files q

  -- One file is as it was, behind an error.
  abbrev pub Undone : {A : Type 0} → Io B A → Type 0
  Undone m = (w : World B) → Post (m w) (λ _ _. Unit {0}) (λ _ w'. w'.files q ≡ w.files q)

  continue-Frame :
      {A C : Type 0} (x : Result A × World B) (f : A → Io B C) (before : Option Bytes)
      → x.1.files q ≡ before
      → ((a : A) → Frame (f a))
      → (continue x f).1.files q ≡ before
  continue-Frame (ok a, u) f before h g = g a u ∙ h
  continue-Frame (err e, u) f before h g = h

  pub bind-Frame :
      {A C : Type 0} (m : Io B A) (f : A → Io B C)
      → Frame m
      → ((a : A) → Frame (f a))
      → Frame (m >>= f)
  bind-Frame m f h g w = continue-Frame (m w) f (w.files q) (h w) g

  pub seq-Frame :
      {C : Type 0} (m : Io B (Unit {0})) (k : Io B C) → Frame m → Frame k → Frame (m >> k)
  seq-Frame m k h g w = continue-Frame (m w) (λ _. k) (w.files q) (h w) (λ _. g)

  continue-Undone :
      {A C : Type 0} (x : Result A × World B) (f : A → Io B C) (before : Option Bytes)
      → x.1.files q ≡ before
      → ((a : A) → Undone (f a))
      → Post (continue x f) (λ _ _. Unit {0}) (λ _ w'. w'.files q ≡ before)
  continue-Undone (ok a, u) f before h g = weaken (f a u) (g a u)
    where
      weaken :
          {C : Type 0} (y : Result C × World B)
          → Post y (λ _ _. Unit {0}) (λ _ w'. w'.files q ≡ u.files q)
          → Post y (λ _ _. Unit {0}) (λ _ w'. w'.files q ≡ before)
      weaken (ok c, v) p = tt
      weaken (err z, v) p = p ∙ h
  continue-Undone (err e, u) f before h g = h

  pub bind-Undone :
      {A C : Type 0} (m : Io B A) (f : A → Io B C)
      → Frame m
      → ((a : A) → Undone (f a))
      → Undone (m >>= f)
  bind-Undone m f h g w = continue-Undone (m w) f (w.files q) (h w) g

  pub seq-Undone :
      {C : Type 0} (m : Io B (Unit {0})) (k : Io B C) → Frame m → Undone k → Undone (m >> k)
  seq-Undone m k h g w = continue-Undone (m w) (λ _. k) (w.files q) (h w) (λ _. g)

  pub lift-Frame : {A : Type 0} (r : Result A) → Frame (lift r)
  lift-Frame r w = refl

  pub on_rng-Frame : {A : Type 0} (m : M B.rng.State A) → Frame (on_rng B m)
  on_rng-Frame m w = refl

  pub if-Frame :
      {A : Type 0} (b : Bool) (m n : Io B A) → Frame m → Frame n → Frame (if b then m else n)
  if-Frame true m n h g = h
  if-Frame false m n h g = g

  pub open_file-Frame : (p : FilePath) → Frame (open_file B p)
  open_file-Frame p w =
      Post-state (λ u. u.files q ≡ w.files q) (open_file B p w) _ _ (open_file_lem B p w)
        (λ r u h. h.0.files q) (λ e u h. h.0.files q)

  pub read-Frame : (r : Reader) (n : ℕ) → Frame (read B r n)
  read-Frame r n w =
      Post-state (λ u. u.files q ≡ w.files q) (read B r n w) _ _ (read_lem B r n w)
        (λ (bytes, r') u h. h.0.files q) (λ e u h. h.0.files q)

  pub sync_all-Frame : (p : FilePath) → Frame (sync_all B p)
  sync_all-Frame p w =
      Post-state (λ u. u.files q ≡ w.files q) (sync_all B p w) _ _ (sync_all_lem B p w)
        (λ _ u h. h.files q) (λ e u h. h.0.files q)

  -- Operations on another file.
  module _ (p : FilePath) (apart : q ≢ p) where
    pub create-Frame : Frame (create B p)
    create-Frame w =
        Post-state (λ u. u.files q ≡ w.files q) (create B p w) _ _ (create_lem B p w)
          (λ _ u h. h.touches.others q apart) (λ e u h. h.0.files q)

    pub write_all-Frame : (bytes : Bytes) → Frame (write_all B p bytes)
    write_all-Frame bytes w =
        Post-state (λ u. u.files q ≡ w.files q) (write_all B p bytes w) _ _
          (write_all_lem B p bytes w) (λ _ u h. h.touches.others q apart)
          (λ e u h. h.0.others q apart)

    pub flush-Frame : Frame (flush B p)
    flush-Frame w =
        Post-state (λ u. u.files q ≡ w.files q) (flush B p w) _ _ (flush_lem B p w)
          (λ _ u h. h.0.touches.others q apart) (λ e u h. h.0.others q apart)

    pub closing-Frame : (body : Io B (Unit {0})) → Frame body → Frame (closing B p body)
    unfolding closing
    closing-Frame body h w = (drop_writer_lem B p (body w).1).touches.others q apart ∙ h w

  rename_found-Frame :
      (p p' : FilePath) (o : Option Bytes) → q ≢ p → q ≢ p' → Frame (rename_found B p p' o)
  unfolding rename_found
  rename_found-Frame p p' none n m w = refl
  rename_found-Frame p p' (some bytes) n m w =
      update_other (update w.files p' (some bytes)) p q none n
      ∙ update_other w.files p' q (some bytes) m

  rename_found-Undone : (p p' : FilePath) (o : Option Bytes) → Undone (rename_found B p p' o)
  unfolding rename_found
  rename_found-Undone p p' none w = refl
  rename_found-Undone p p' (some bytes) w = tt

  rename-Frame_at :
      (p p' : FilePath) (w : World B) (cs : List IoChoice)
      → q ≢ p
      → q ≢ p'
      → (rename B p p' (at B w cs)).1.files q ≡ w.files q
  unfolding rename
  rename-Frame_at p p' w [] n m = rename_found-Frame p p' (w.files p) n m _
  rename-Frame_at p p' w (full ∷ cs) n m = rename_found-Frame p p' (w.files p) n m _
  rename-Frame_at p p' w (short k ∷ cs) n m = rename_found-Frame p p' (w.files p) n m _
  rename-Frame_at p p' w (fails k ∷ cs) n m = refl
  rename-Frame_at p p' w (dies ∷ cs) n m = refl

  pub rename-Frame : (p p' : FilePath) → q ≢ p → q ≢ p' → Frame (rename B p p')
  rename-Frame p p' n m w = rename-Frame_at p p' w w.choices n m

  rename-Undone_at :
      (p p' : FilePath) (w : World B) (cs : List IoChoice)
      → Post (rename B p p' (at B w cs)) (λ _ _. Unit {0}) (λ _ w'. w'.files q ≡ w.files q)
  unfolding rename
  rename-Undone_at p p' w [] = rename_found-Undone p p' (w.files p) _
  rename-Undone_at p p' w (full ∷ cs) = rename_found-Undone p p' (w.files p) _
  rename-Undone_at p p' w (short k ∷ cs) = rename_found-Undone p p' (w.files p) _
  rename-Undone_at p p' w (fails k ∷ cs) = refl
  rename-Undone_at p p' w (dies ∷ cs) = refl

  -- A rename that fails has done nothing.
  pub rename-Undone : (p p' : FilePath) → Undone (rename B p p')
  rename-Undone p p' w = rename-Undone_at p p' w w.choices
