-- ===== src/Engine/Files/Tests.antt =====
-- The file threads of src/engine.cpp over numbers for sources.
use lucifer.Prelude.{ℕ, ◌≡◌, refl, ◌⊎◌, true, false, Option, none, some, List, [], ◌∷◌, All}
use lucifer.Prelude.Int.{pos}
use lucifer.Engine.{get_frame_source, Engine, frame_source_changed}
use lucifer.Engine.Files.{
  new_files, begin_save, close_save, open_save, save_show, saved, open_load, load_show, loaded,
  import_files, Files, null, live, dangling,
}
use lucifer.Engine.Files.Held.{saving, save_fails, loading, Steps, done, step}
use lucifer.Engine.Files.Locks.{Refused, locked_while_running}
use lucifer.Engine.Files.Faults.{failed_open_faults}
use lucifer.Engine.Files.Clear.{load_show-clears}
use lucifer.Engine.Files.Import.{HasSlot, Kept, import_loses_nothing}

-- Sources 5 and 6 in the slots 0 and 2.
abbrev two_sources : Engine ℕ
two_sources = record { sources = some 5 ∷ none ∷ some 6 ∷ []; notices = [] }

-- A save and a load run.
abbrev busy : Files ℕ
busy = record {
  engine = two_sources;
  saver = live;
  save_compressor = live;
  save_locked = true;
  saver_runs = true;
  loader = live;
  load_compressor = live;
  load_locked = true;
  loader_runs = true;
  importer = null;
  import_locked = false;
  importer_runs = false;
}

-- The threads have ended.
abbrev idle : Files ℕ
idle = record busy {
  save_compressor = dangling;
  save_locked = false;
  saver_runs = false;
  load_compressor = dangling;
  load_locked = false;
  loader_runs = false;
}

-- A save whose file does not open, then the two of them.
busy-Steps : Steps ℕ (new_files ℕ two_sources) busy
unfolding new_files save_show begin_save close_save open_save load_show open_load
busy-Steps =
    step (step (step done (save_fails refl refl refl)) (saving true true refl))
      (loading true false true refl)

locked_while_running_example :
    (true ≡ true)
    × ((true ≡ true)
        × ((false ≡ false)
            × (((true ≡ false) ⊎ Refused ℕ (save_show ℕ true) (saved ℕ) (λ u. u.save_locked) busy)
                × ((true ≡ false)
                    ⊎ Refused ℕ (load_show ℕ true true) (loaded ℕ) (λ u. u.load_locked) busy))))
locked_while_running_example = locked_while_running ℕ two_sources busy true true busy-Steps

failed_open_faults_example :
    (save_show ℕ false idle ≡ none)
    × ((s' : Files ℕ) × ((load_show ℕ false true idle ≡ some (false, s'))
          × (load_show ℕ true false s' ≡ none)))
failed_open_faults_example = failed_open_faults ℕ idle true true false refl refl refl

load_show-clears_example :
    (s' : Files ℕ) × ((load_show ℕ true true idle ≡ some (true, s'))
      × ((s'.loader_runs ≡ true)
          × ((get_frame_source ℕ 2 s'.engine ≡ none)
              × (s'.engine.notices ≡ frame_source_changed 2 ∷ frame_source_changed 0 ∷ []))))
load_show-clears_example = load_show-clears ℕ idle 2 refl (λ e. cc)

-- What three files give, of which the second is no ILDA file.
abbrev files : List (Option ℕ)
files = some 7 ∷ none ∷ some 8 ∷ []

import_loses_nothing_example :
    Kept ℕ (pos 2) 0 two_sources (import_files ℕ files (pos 2) two_sources)
    × All (HasSlot ℕ (import_files ℕ files (pos 2) two_sources)) files
import_loses_nothing_example = import_loses_nothing ℕ files (pos 2) 0 two_sources
