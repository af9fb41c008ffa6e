-- ===== src/Engine/Files/Held.antt =====
-- What can happen to the file threads of src/engine.cpp, and what each lock says of its thread.
use lucifer.Prelude.{
  ◌≡◌, refl, sym, ap, subst, ◌∙◌, inl, inr, Bool, true, false, Option, none, some, Bool-cases,
}
use lucifer.Prelude.Int.{ℤ}
use lucifer.Prelude.Maybe.{◌>>=◌}
use lucifer.Engine.{add_frame_source, Engine}
use lucifer.Engine.Files.{
  delete, new_files, begin_save, close_save, open_save, save_show, saved, open_load, load_show,
  loaded, import_show, imported, Files, Pointer, null, live, dangling,
}

module _ (Source : Type 0) where
  -- What can happen: the calls, with whatever open gives, the ends of threads that run, and changes
  -- of the table by threads and by others.
  pub data Step : Files Source → Files Source → Type 0 where
    saving :
        {s s' : Files Source} (opens r : Bool) → save_show Source opens s ≡ some (r, s') → Step s s'
    -- A `saveShow` that does not open its file, up to where it uses the deleted compressor.
    save_fails :
        {s t s' : Files Source}
        → s.save_locked ≡ false
        → begin_save Source s ≡ some t
        → close_save Source t ≡ some s'
        → Step s s'
    save_ends : {s s' : Files Source} → s.saver_runs ≡ true → saved Source s ≡ some s' → Step s s'
    loading :
        {s s' : Files Source} (opens clear r : Bool)
        → load_show Source opens clear s ≡ some (r, s')
        → Step s s'
    load_ends : {s s' : Files Source} → s.loader_runs ≡ true → loaded Source s ≡ some s' → Step s s'
    importing : {s s' : Files Source} (r : Bool) → import_show Source s ≡ some (r, s') → Step s s'
    import_ends : {s : Files Source} → s.importer_runs ≡ true → Step s (imported Source s)
    adding :
        {s : Files Source} (fs : Option Source) (at : ℤ)
        → Step s (record s { engine = add_frame_source Source fs at s.engine })

  pub data Steps : Files Source → Files Source → Type 0 where
    done : {s : Files Source} → Steps s s
    step : {s t u : Files Source} → Steps s t → Step t u → Steps s u

  -- A lock is held just as long as its thread, and that thread has what it works with.
  abbrev pub Thread : Bool → Bool → Pointer → Pointer → Type 0
  Thread locked runs thread compressor =
      (locked ≡ runs) × (runs ≡ true → (thread ≡ live) × (compressor ≡ live))

  pub record Locked (s : Files Source) : Type 0 where
    pub save : Thread s.save_locked s.saver_runs s.saver s.save_compressor
    pub load : Thread s.load_locked s.loader_runs s.loader s.load_compressor
    pub import : (s.import_locked ≡ s.importer_runs) × (s.importer_runs ≡ true → s.importer ≡ live)

  -- What holds of the state that a call leaves, if it leaves one.
  abbrev pub After : (Files Source → Type 0) → Option (Bool × Files Source) → Type 0
  After P none = Unit
  After P (some (r, s)) = P s

  after :
      (P : Files Source → Type 0) (o : Option (Bool × Files Source)) (r : Bool) (s : Files Source)
      → After P o
      → o ≡ some (r, s)
      → P s
  after P o r s a e = subst (After P) e a

  saving-Locked :
      (opens : Bool) (s : Files Source) → Locked s → After Locked (save_show Source opens s)
  unfolding save_show begin_save open_save close_save
  saving-Locked opens s l = elim (Bool-cases s.save_locked) [
    | inl e ↦ simp e l
    | inr e ↦ simp e (start opens s.saver)
  ]
    where
      start :
          (opens : Bool) (p : Pointer)
          → After Locked (begin_save Source (record s { saver = p }) >>= open_save Source opens)
      start true null = record {
        save = (refl, λ z. (refl, refl));
        load = l.load;
        import = l.import;
      }
      start true live = record {
        save = (refl, λ z. (refl, refl));
        load = l.load;
        import = l.import;
      }
      start opens dangling = _
      start false null = _
      start false live = _

  some_same : (s t : Files Source) (o : Option (Files Source)) → o ≡ some s → o ≡ some t → s ≡ t
  some_same s t o e f = ap (from s) (sym e ∙ f)
    where
      from : Files Source → Option (Files Source) → Files Source
      from d none = d
      from d (some u) = u

  -- A save that failed: the lock is given back, and there is no thread.
  failed :
      (p : Pointer) (s t s' : Files Source)
      → s.save_locked ≡ false
      → some (record s { saver = p; save_compressor = live; save_locked = true }) ≡ some t
      → close_save Source t ≡ some s'
      → Locked s
      → Locked s'
  unfolding close_save
  failed p s t s' free begun closed l =
      let begun_state = record s { saver = p; save_compressor = live; save_locked = true } in
      let made = some_same begun_state t (some t) (sym begun) refl in
      let left = record s { saver = p; save_compressor = dangling; save_locked = false } in
      subst Locked
        (some_same left s' (close_save Source t) (ap (close_save Source) (sym made)) closed)
        (record {
          save = (sym free ∙ l.save.0, λ z. cc (free, z, l.save.0));
          load = l.load;
          import = l.import;
        })

  failed_save-Locked :
      (p : Pointer) (s t s' : Files Source)
      → s.save_locked ≡ false
      → begin_save Source (record s { saver = p }) ≡ some t
      → close_save Source t ≡ some s'
      → Locked s
      → Locked s'
  unfolding begin_save close_save
  failed_save-Locked null s t s' free begun closed l = failed null s t s' free begun closed l
  failed_save-Locked live s t s' free begun closed l = failed dangling s t s' free begun closed l
  failed_save-Locked dangling s t s' free begun closed l = cc

  -- An open that failed: the lock is given back.
  failed_load-Locked :
      (p : Pointer) (s : Files Source)
      → s.load_locked ≡ false
      → Locked s
      → Locked (record s { loader = p; load_compressor = dangling; load_locked = false })
  failed_load-Locked p s e l = record {
    save = l.save;
    load = (sym e ∙ l.load.0, λ z. cc (e, z, l.load.0));
    import = l.import;
  }

  loading-Locked :
      (opens clear : Bool) (s : Files Source)
      → Locked s
      → After Locked (load_show Source opens clear s)
  unfolding load_show open_load
  loading-Locked opens clear s l = elim (Bool-cases s.load_locked) [
    | inl e ↦ simp e l
    | inr e ↦ simp e (start e opens s.loader)
  ]
    where
      start :
          s.load_locked ≡ false
          → (opens : Bool) (p : Pointer)
          → After Locked (
              delete p >>= λ q.
              open_load Source opens clear
                (record s { loader = q; load_compressor = live; load_locked = true }))
      start e opens dangling = _
      start e true null = record {
        save = l.save;
        load = (refl, λ z. (refl, refl));
        import = l.import;
      }
      start e true live = record {
        save = l.save;
        load = (refl, λ z. (refl, refl));
        import = l.import;
      }
      start e false null = failed_load-Locked null s e l
      start e false live = failed_load-Locked dangling s e l

  importing-Locked : (s : Files Source) → Locked s → After Locked (import_show Source s)
  unfolding import_show
  importing-Locked s l = elim (Bool-cases s.import_locked) [
    | inl e ↦ simp e l
    | inr e ↦ simp e (start s.importer)
  ]
    where
      start :
          (p : Pointer)
          → After Locked (
              delete p >>= λ q.
              some (true, record s { importer = live; import_locked = true; importer_runs = true }))
      start null = record { save = l.save; load = l.load; import = (refl, λ z. refl) }
      start live = record { save = l.save; load = l.load; import = (refl, λ z. refl) }
      start dangling = _

  -- The end of a thread that runs.
  pub saved_state :
      (s : Files Source)
      → s.save_compressor ≡ live
      → saved Source s
        ≡ some (record s { save_compressor = dangling; save_locked = false; saver_runs = false })
  unfolding saved
  saved_state s e = rw e refl

  pub loaded_state :
      (s : Files Source)
      → s.load_compressor ≡ live
      → loaded Source s
        ≡ some (record s { load_compressor = dangling; load_locked = false; loader_runs = false })
  unfolding loaded
  loaded_state s e = rw e refl

  Step-Locked : (s s' : Files Source) → Step s s' → Locked s → Locked s'
  unfolding imported
  Step-Locked s s' (saving opens r e) l =
      after Locked (save_show Source opens s) r s' (saving-Locked opens s l) e
  Step-Locked s s' (save_fails {t = t} free begun closed) l =
      failed_save-Locked s.saver s t s' free begun closed l
  Step-Locked s s' (save_ends runs e) l =
      subst Locked (some_same _ s' (saved Source s) (saved_state s (l.save.1 runs).1) e)
        (record { save = (refl, λ z. cc); load = l.load; import = l.import })
  Step-Locked s s' (loading opens clear r e) l =
      after Locked (load_show Source opens clear s) r s' (loading-Locked opens clear s l) e
  Step-Locked s s' (load_ends runs e) l =
      subst Locked (some_same _ s' (loaded Source s) (loaded_state s (l.load.1 runs).1) e)
        (record { save = l.save; load = (refl, λ z. cc); import = l.import })
  Step-Locked s s' (importing r e) l =
      after Locked (import_show Source s) r s' (importing-Locked s l) e
  Step-Locked s s' (import_ends runs) l = record {
    save = l.save;
    load = l.load;
    import = (refl, λ z. cc);
  }
  Step-Locked s s' (adding fs at) l = record { save = l.save; load = l.load; import = l.import }

  pub Steps-Locked : (s s' : Files Source) → Steps s s' → Locked s → Locked s'
  Steps-Locked s s' done l = l
  Steps-Locked s s' (step {t = t} before last) l = Step-Locked t s' last (Steps-Locked s t before l)

  pub new-Locked : (e : Engine Source) → Locked (new_files Source e)
  unfolding new_files
  new-Locked e = record { save = (refl, λ z. cc); load = (refl, λ z. cc); import = (refl, λ z. cc) }
