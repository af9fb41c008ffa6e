-- ===== src/Engine/Files/Clear.antt =====
-- What `loadShow (filename, true)` of src/engine.cpp does with the table.
use lucifer.Prelude.{
  ℕ, zero, suc, ◌≡◌, refl, ap, ◌∙◌, ◌≢◌, true, false, Option, none, some, List, [], ◌∷◌, length,
  get_elem?, set, drop,
}
use lucifer.Engine.{held, get_frame_source, Engine, Notice}
use lucifer.Prelude.Maybe.{◌>>=◌}
use lucifer.Engine.Files.{
  delete, notice, clear_slots, clear_sources, open_load, load_show, Files, Pointer, null, live,
  dangling,
}

module _ (Source : Type 0) where
  -- The signals for the slots from i on that hold a source, the latest first.
  abbrev pub emptied : ℕ → List (Option Source) → List Notice → List Notice
  emptied i [] ns = ns
  emptied i (o ∷ os) ns = emptied (suc i) os (notice Source o i ns)

  held-drop :
      (os : List (Option Source)) (i : ℕ) (o : Option Source) (rest : List (Option Source))
      → drop i os ≡ o ∷ rest
      → held Source (get_elem? os i) ≡ o
  held-drop [] zero o rest e = cc
  held-drop [] (suc i) o rest e = cc
  held-drop (p ∷ os) zero o rest e = ap (λ us. held Source (get_elem? us 0)) e
  held-drop (p ∷ os) (suc i) o rest e = held-drop os i o rest e

  drop-set :
      (os : List (Option Source)) (i : ℕ) (o v : Option Source) (rest : List (Option Source))
      → drop i os ≡ o ∷ rest
      → drop (suc i) (set os i v) ≡ rest
  drop-set [] zero o v rest e = cc
  drop-set [] (suc i) o v rest e = cc
  drop-set (p ∷ os) zero o v rest e = ap (drop 1) e
  drop-set (p ∷ os) (suc i) o v rest e = drop-set os i o v rest e

  clear_slots-notices :
      (rest : List (Option Source)) (i : ℕ) (e : Engine Source)
      → drop i e.sources ≡ rest
      → (clear_slots Source (length rest) i e).notices ≡ emptied i rest e.notices
  unfolding clear_slots get_frame_source
  clear_slots-notices [] i e d = refl
  clear_slots-notices (o ∷ rest) i e d =
      clear_slots-notices rest (suc i)
        (record {
          sources = set e.sources i none;
          notices = notice Source (held Source (get_elem? e.sources i)) i e.notices;
        })
        (drop-set e.sources i o none rest d)
      ∙ ap (λ p. emptied (suc i) rest (notice Source p i e.notices))
          (held-drop e.sources i o rest d)

  -- When a show is loaded with `clear`, the lock is free, the pointer to the old loader is not one
  -- to a deleted object, and the file opens, then the table is empty before the loader starts, and
  -- `frameSourceChanged` was emitted for the slots that held a source, in their order, and for no
  -- other.
  pub load_show-clears :
      (s : Files Source) (q : ℕ)
      → s.load_locked ≡ false
      → s.loader ≢ dangling
      → (s' : Files Source) × ((load_show Source true true s ≡ some (true, s'))
          × ((s'.loader_runs ≡ true)
              × ((get_frame_source Source q s'.engine ≡ none)
                  × (s'.engine.notices ≡ emptied 0 s.engine.sources s.engine.notices))))
  unfolding load_show open_load clear_sources get_frame_source
  load_show-clears s q unlocked lives = (
    record s {
      engine = clear_sources Source s.engine;
      loader = live;
      load_compressor = live;
      load_locked = true;
      loader_runs = true;
    },
    (
      simp unlocked (started s.loader lives),
      (refl, (refl, clear_slots-notices s.engine.sources 0 s.engine refl)),
    ),
  )
    where
      started :
          (p : Pointer)
          → p ≢ dangling
          → (delete p >>= λ q.
              open_load Source true true
                (record s { loader = q; load_compressor = live; load_locked = true }))
            ≡ some (
              true,
              record s {
                engine = clear_sources Source s.engine;
                loader = live;
                load_compressor = live;
                load_locked = true;
                loader_runs = true;
              },
            )
      started null n = refl
      started live n = refl
      started dangling n = absurd (n refl)
