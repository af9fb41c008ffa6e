-- ===== src/Engine/Tests.antt =====
-- The table of sources of src/engine.cpp on small tables.
use lucifer.Prelude.{ℕ, ◌≡◌, refl, ◌⊎◌, none, some, [], ◌∷◌}
use lucifer.Prelude.Int.{negsuc}
use lucifer.Engine.{find_empty, slot_for, store, add_frame_source, get_frame_source, Engine}
use lucifer.Engine.Sources.{add_anywhere_loses_nothing}

-- Sources 5 and 6 in the slots 0 and 2.
abbrev gapped : Engine ℕ
gapped = record { sources = some 5 ∷ none ∷ some 6 ∷ []; notices = [] }

added_in_the_gap :
    (add_frame_source ℕ (some 9) (negsuc 0) gapped).sources ≡ some 5 ∷ some 9 ∷ some 6 ∷ []
unfolding add_frame_source slot_for find_empty store
added_in_the_gap = refl

add_anywhere_loses_nothing_example :
    (i : ℕ) × (get_frame_source ℕ i gapped ≡ none)
    × (get_frame_source ℕ i (add_frame_source ℕ (some 9) (negsuc 0) gapped) ≡ some 9)
    × ((2 ≡ i)
        ⊎ (get_frame_source ℕ 2 (add_frame_source ℕ (some 9) (negsuc 0) gapped)
            ≡ get_frame_source ℕ 2 gapped))
add_anywhere_loses_nothing_example = add_anywhere_loses_nothing ℕ (some 9) 0 2 gapped
