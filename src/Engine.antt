-- ===== src/Engine.antt =====
-- engine.cpp and engine.h: the table of frame sources, which a lock guards for a whole operation.
pub mod Sources
pub mod Heads
pub mod Shows
pub mod Files
mod Tests
use lucifer.Prelude.{
  ℕ, suc, ◌-◌, Bool, true, false, Option, none, some, List, [], ◌∷◌, ◌++◌, leb, if◌then◌else◌,
  length, get_elem?, set, replicate,
}
use lucifer.Prelude.Int.{ℤ, pos, negsuc}

pub data Notice : Type 0 where
  sources_size_changed frame_source_changed : ℕ → Notice

-- A source, and `clone`.
module _ (Source : Type 0) where
  -- `sources`, with the signals that are emitted, the latest first.
  pub record Engine : Type 0 where
    pub sources : List (Option Source)
    pub notices : List Notice

  -- The first empty slot.
  pub find_empty : List (Option Source) → Option ℕ
  find_empty [] = none
  find_empty (none ∷ ss) = some 0
  find_empty (some s ∷ ss) = elim (find_empty ss) [ none ↦ none | some i ↦ some (suc i) ]

  abbrev pub free_slot : Option ℕ → List (Option Source) → ℕ
  free_slot (some i) ss = i
  free_slot none ss = length ss

  -- The index that `addFrameSource` uses for `pos`.
  pub slot_for : ℤ → List (Option Source) → ℕ
  unfolding find_empty
  slot_for (pos i) ss = i
  slot_for (negsuc i) ss = free_slot (find_empty ss) ss

  -- `sources.resize (pos + 1)`, if that is longer.
  abbrev pub grown : ℕ → List (Option Source) → List (Option Source)
  grown i ss = ss ++ replicate (suc i - length ss) none

  pub store : ℕ → Option Source → Engine → Engine
  store i fs e =
      let notices =
        if leb (length e.sources) i then sources_size_changed (suc i) ∷ e.notices else e.notices in
      record { sources = set (grown i e.sources) i fs; notices = frame_source_changed i ∷ notices }

  pub add_frame_source : Option Source → ℤ → Engine → Engine
  unfolding store slot_for
  add_frame_source fs at e = store (slot_for at e.sources) fs e

  abbrev pub held : Option (Option Source) → Option Source
  held none = none
  held (some s) = s

  pub get_frame_source : ℕ → Engine → Option Source
  get_frame_source i e = held (get_elem? e.sources i)

  pub copy : (Source → Option Source) → ℕ → ℕ → Engine → Bool × Engine
  unfolding get_frame_source add_frame_source
  copy clone dest source e = elim (get_frame_source source e) [
    | none ↦ (false, e)
    | some s ↦ (true, add_frame_source (clone s) (pos dest) e)
  ]
