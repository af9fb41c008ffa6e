-- ===== src/Engine/Files/Locks.antt =====
-- The locks of the file threads of src/engine.cpp, over everything that can happen to them.
use lucifer.Prelude.{◌≡◌, refl, ◌∙◌, ◌⊎◌, inl, inr, Bool, true, false, Option, some, Bool-cases}
use lucifer.Engine.{Engine}
use lucifer.Engine.Files.{new_files, save_show, saved, load_show, loaded, Files}
use lucifer.Engine.Files.Held.{saved_state, loaded_state, Steps-Locked, new-Locked, Locked, Steps}

module _ (Source : Type 0) where
  -- What is so as long as a thread runs: another call is refused and changes nothing, and when the
  -- thread ends its compressor lives, and the lock is given back.
  abbrev pub Refused :
      (Files Source → Option (Bool × Files Source))
      → (Files Source → Option (Files Source))
      → (Files Source → Bool)
      → Files Source
      → Type 0
  Refused call end locked s =
      (call s ≡ some (false, s)) × ((s' : Files Source) × ((end s ≡ some s') × (locked s' ≡ false)))

  saver_alone :
      (s : Files Source) (opens : Bool)
      → Locked Source s
      → s.saver_runs ≡ true
      → Refused (save_show Source opens) (saved Source) (λ u. u.save_locked) s
  unfolding save_show
  saver_alone s opens l runs =
      (simp (l.save.0 ∙ runs) refl, (_, (saved_state Source s (l.save.1 runs).1, refl)))

  loader_alone :
      (s : Files Source) (opens clear : Bool)
      → Locked Source s
      → s.loader_runs ≡ true
      → Refused (load_show Source opens clear) (loaded Source) (λ u. u.load_locked) s
  unfolding load_show
  loader_alone s opens clear l runs =
      (simp (l.load.0 ∙ runs) refl, (_, (loaded_state Source s (l.load.1 runs).1, refl)))

  -- After whatever calls of `saveShow`, `loadShow` and `importShow`, with opens that work or fail,
  -- ends of threads and changes of the table, each of the three locks is held if and only if its
  -- thread runs. This includes the state that a `saveShow` whose open fails leaves where it uses its
  -- deleted compressor, and whatever happens after it. While the saver runs, another `saveShow` is
  -- refused and changes nothing, and the end of the thread closes a compressor that lives and gives
  -- the lock back; and the same holds of the loader and `loadShow`.
  pub locked_while_running :
      (e : Engine Source) (s : Files Source) (opens clear : Bool)
      → Steps Source (new_files Source e) s
      → (s.save_locked ≡ s.saver_runs)
        × ((s.load_locked ≡ s.loader_runs)
            × ((s.import_locked ≡ s.importer_runs)
                × (((s.saver_runs ≡ false)
                      ⊎ Refused (save_show Source opens) (saved Source) (λ u. u.save_locked) s)
                    × ((s.loader_runs ≡ false)
                        ⊎ Refused
                            (load_show Source opens clear)
                            (loaded Source)
                            (λ u. u.load_locked)
                            s))))
  locked_while_running e s opens clear steps =
      let l = Steps-Locked Source (new_files Source e) s steps (new-Locked Source e) in
      (
        l.save.0,
        (
          l.load.0,
          (
            l.import.0,
            (
              elim (Bool-cases s.saver_runs) [
                | inl runs ↦ inr (saver_alone s opens l runs)
                | inr ended ↦ inl ended
              ],
              elim (Bool-cases s.loader_runs) [
                | inl runs ↦ inr (loader_alone s opens clear l runs)
                | inr ended ↦ inl ended
              ],
            ),
          ),
        ),
      )
