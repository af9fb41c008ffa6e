-- ===== src/Engine/Files.antt =====
-- The threads that save, load and import shows, as src/engine.cpp starts and ends them: its locks,
-- its pointers, and what the importer adds. `none` is a use of deleted memory.
pub mod Held
pub mod Locks
pub mod Faults
pub mod Clear
pub mod Import
mod Tests
use lucifer.Prelude.{
  ℕ, zero, suc, Bool, true, false, Option, none, some, List, [], ◌∷◌, if◌then◌else◌, length, set,
}
use lucifer.Prelude.Int.{ℤ, minus_one}
use lucifer.Prelude.Maybe.{◌>>=◌}
use lucifer.Engine.{add_frame_source, get_frame_source, Engine, Notice, frame_source_changed}

-- A pointer to an object of its own: to none, to one that lives, or to one that was deleted.
pub data Pointer : Type 0 where
  null live dangling : Pointer

-- `if (p) delete p;`, and the use of the object.
abbrev pub delete : Pointer → Option Pointer
delete null = some null
delete live = some dangling
delete dangling = none

abbrev pub deref : Pointer → Option Pointer
deref live = some live
deref _ = none

module _ (Source : Type 0) where
  -- `runs` is whether a thread was started of which the end was not yet told.
  pub record Files : Type 0 where
    pub engine : Engine Source
    pub saver : Pointer
    pub save_compressor : Pointer
    pub save_locked : Bool
    pub saver_runs : Bool
    pub loader : Pointer
    pub load_compressor : Pointer
    pub load_locked : Bool
    pub loader_runs : Bool
    pub importer : Pointer
    pub import_locked : Bool
    pub importer_runs : Bool

  pub new_files : Engine Source → Files
  new_files e = record {
    engine = e;
    saver = null;
    save_compressor = null;
    save_locked = false;
    saver_runs = false;
    loader = null;
    load_compressor = null;
    load_locked = false;
    loader_runs = false;
    importer = null;
    import_locked = false;
    importer_runs = false;
  }

  -- `saveShow` up to its compressor.
  pub begin_save : Files → Option Files
  begin_save s = delete s.saver >>= λ p.
      some (record s { saver = p; save_compressor = live; save_locked = true })

  -- What `saveShow` does when the compressor does not open, up to the error that it prints.
  pub close_save : Files → Option Files
  close_save s =
      delete s.save_compressor >>= λ c. some (record s { save_compressor = c; save_locked = false })

  -- `saveShow` after the compressor was made: whether it opens.
  pub open_save : Bool → Files → Option (Bool × Files)
  unfolding close_save
  open_save true s = some (true, record s { saver = live; saver_runs = true })
  open_save false s = do
    s' ← close_save s
    c ← deref s'.save_compressor
    some (false, record s' { save_compressor = c })

  pub save_show : Bool → Files → Option (Bool × Files)
  unfolding begin_save open_save
  save_show opens s = if s.save_locked then some (false, s) else (begin_save s >>= open_save opens)

  -- `Saved`.
  pub saved : Files → Option Files
  saved s = do
    c ← deref s.save_compressor
    c' ← delete c
    some (record s { save_compressor = c'; save_locked = false; saver_runs = false })

  abbrev pub notice : Option Source → ℕ → List Notice → List Notice
  notice none i ns = ns
  notice (some p) i ns = frame_source_changed i ∷ ns

  -- The loop of `loadShow` over the indices from i on, with n to go.
  pub clear_slots : ℕ → ℕ → Engine Source → Engine Source
  unfolding get_frame_source
  clear_slots zero i e = e
  clear_slots (suc n) i e = clear_slots n (suc i) (record {
    sources = set e.sources i none;
    notices = notice (get_frame_source Source i e) i e.notices;
  })

  pub clear_sources : Engine Source → Engine Source
  unfolding clear_slots
  clear_sources e = record (clear_slots (length e.sources) 0 e) { sources = [] }

  pub open_load : Bool → Bool → Files → Option (Bool × Files)
  unfolding clear_sources
  open_load true clear s = some (
    true,
    record s {
      engine = if clear then clear_sources s.engine else s.engine;
      loader = live;
      loader_runs = true;
    },
  )
  open_load false clear s = do
    c ← delete s.load_compressor
    some (false, record s { load_compressor = c; load_locked = false })

  pub load_show : Bool → Bool → Files → Option (Bool × Files)
  unfolding open_load
  load_show opens clear s =
      if s.load_locked
      then some (false, s)
      else (delete s.loader >>= λ p.
          open_load opens clear
            (record s { loader = p; load_compressor = live; load_locked = true }))

  -- `Loaded`.
  pub loaded : Files → Option Files
  loaded s = do
    c ← deref s.load_compressor
    c' ← delete c
    some (record s { load_compressor = c'; load_locked = false; loader_runs = false })

  pub import_show : Files → Option (Bool × Files)
  import_show s =
      if s.import_locked
      then some (false, s)
      else (delete s.importer >>= λ p.
          some (true, record s { importer = live; import_locked = true; importer_runs = true }))

  -- `Imported`.
  pub imported : Files → Files
  imported s = record s { import_locked = false; importer_runs = false }

  -- `ShowImporter::run`: what `Ildaloader::load` gives for the files, in their order.
  pub import_files : List (Option Source) → ℤ → Engine Source → Engine Source
  unfolding add_frame_source
  import_files [] idx e = e
  import_files (none ∷ rest) idx e = import_files rest idx e
  import_files (some fs ∷ rest) idx e =
      import_files rest minus_one (add_frame_source Source (some fs) idx e)
