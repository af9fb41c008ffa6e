-- ===== src/Engine/Heads.antt =====
-- The heads in src/engine.cpp: `kill`, `restart` and `deselect` over all of them.
pub mod Emergency
mod Tests
use lucifer.Prelude.{ℕ, Bool, true, false, Option, List, [], ◌∷◌, map}
use mathlib.Core.Option
use lucifer.Random.{Random}
use lucifer.Playlist.{select}
use lucifer.Head.{on_sources, kill, restart, Devices, LaserHead}

module _ (R : Random) (D : Devices) where
  -- The slots of the heads; a head that has not come up is none.
  abbrev pub Heads : Type 0
  Heads = List (Option (LaserHead R D))

  -- The rounds of the loops; `shutter` is `ILDAShutter`.
  abbrev pub kill_head : (Bool → D.Driver → D.Driver) → LaserHead R D → LaserHead R D
  kill_head shutter h = record (kill R D h) { driver = Option.map (shutter false) h.driver }

  abbrev pub restart_head : (Bool → D.Driver → D.Driver) → LaserHead R D → LaserHead R D
  restart_head shutter h = record (restart R D h) { driver = Option.map (shutter true) h.driver }

  abbrev pub deselect_head : ℕ → LaserHead R D → LaserHead R D
  deselect_head p h = on_sources R D (select R p false) h

  abbrev pub for_all : (LaserHead R D → LaserHead R D) → Heads → Heads
  for_all f [] = []
  for_all f (h ∷ hs) = Option.map f h ∷ for_all f hs

  pub kill_all : (Bool → D.Driver → D.Driver) → Heads → Heads
  kill_all shutter = for_all (kill_head shutter)

  pub restart_all : (Bool → D.Driver → D.Driver) → Heads → Heads
  restart_all shutter = for_all (restart_head shutter)

  pub deselect_all : ℕ → Heads → Heads
  deselect_all p = for_all (deselect_head p)
