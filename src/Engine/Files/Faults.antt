-- ===== src/Engine/Files/Faults.antt =====
-- Opens that fail in `saveShow` and `loadShow` of src/engine.cpp.
use lucifer.Prelude.{◌≡◌, refl, Bool, false, none, some}
use lucifer.Prelude.Maybe.{◌>>=◌}
use lucifer.Engine.Files.{
  begin_save, close_save, open_save, save_show, open_load, load_show, Files, Pointer, null, live,
  dangling,
}

module _ (Source : Type 0) where
  -- When no thread runs, an open that fails is fatal. In `saveShow` the compressor that was deleted
  -- is asked for its error. In `loadShow` after an earlier load, the old loader was deleted: the
  -- call returns false, and the next one, whatever it opens, deletes the loader again.
  pub failed_open_faults :
      (s : Files Source) (opens clear clear' : Bool)
      → s.save_locked ≡ false
      → s.load_locked ≡ false
      → s.loader ≡ live
      → (save_show Source false s ≡ none)
        × ((s' : Files Source) × ((load_show Source false clear s ≡ some (false, s'))
              × (load_show Source opens clear' s' ≡ none)))
  unfolding save_show begin_save open_save close_save load_show open_load
  failed_open_faults s opens clear clear' unlocked unlocked' has_loader = (
    simp unlocked (no_compressor s.saver),
    (
      record s { loader = dangling; load_compressor = dangling; load_locked = false },
      (simp (unlocked', has_loader) refl, refl),
    ),
  )
    where
      no_compressor :
          (p : Pointer)
          → (begin_save Source (record s { saver = p }) >>= open_save Source false) ≡ none
      no_compressor null = refl
      no_compressor live = refl
      no_compressor dangling = refl
