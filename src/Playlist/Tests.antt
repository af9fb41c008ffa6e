-- ===== src/Playlist/Tests.antt =====
-- The playback list of src/playbacklist.cpp on small inputs.
use lucifer.Prelude.{◌≡◌, refl, inl, true, List, [], ◌∷◌, ◌++◌, map, arith}
use lucifer.Prelude.Int.{minus_one, to_int}
use lucifer.Random.{identity_shuffle}
use lucifer.Playlist.{
  init, find_index, drop_selection, deselect, select_more, add_selection, select,
  set_selection_mode, run_slot, run, PlaybackList, multiple, once, Slot, selects,
  sets_selection_mode,
}
use lucifer.Playlist.Runs.{run-Inv}
use lucifer.Playlist.Order.{plays, loop_plays_all, once_plays_in_order}
use lucifer.Playlist.Invariant.{Inv}

-- A few slots: multiple selection of 4, 7 and 9.
abbrev three_clicks : List Slot
three_clicks = sets_selection_mode multiple ∷ selects 4 true ∷ selects 7 true ∷ selects 9 true ∷ []

abbrev looping : PlaybackList
looping = record init { selections = 4 ∷ 7 ∷ 9 ∷ []; sel_mode = multiple }

abbrev stopping : PlaybackList
stopping = record init { selections = 4 ∷ 7 ∷ 9 ∷ []; sel_mode = multiple; step_mode = once }

three_clicks_select : (run identity_shuffle three_clicks init).selections ≡ 4 ∷ 7 ∷ 9 ∷ []
unfolding run run_slot init select deselect find_index drop_selection add_selection select_more
    set_selection_mode
three_clicks_select = refl

run-Inv_example : Inv (run identity_shuffle three_clicks init)
run-Inv_example = run-Inv identity_shuffle three_clicks

loop_plays_all_example :
    ((plays identity_shuffle 3 looping).0 ≡ map to_int (7 ∷ 9 ∷ 4 ∷ []))
    × ((plays identity_shuffle 3 looping).1.selections ≡ 4 ∷ 7 ∷ 9 ∷ [])
unfolding init
loop_plays_all_example = loop_plays_all identity_shuffle 4 (7 ∷ 9 ∷ []) looping refl refl refl

once_plays_in_order_example :
    ((plays identity_shuffle 4 stopping).0 ≡ map to_int (4 ∷ 7 ∷ 9 ∷ []) ++ minus_one ∷ [])
    × ((plays identity_shuffle 4 stopping).1.selections ≡ [])
unfolding init
once_plays_in_order_example =
    once_plays_in_order identity_shuffle 4 (7 ∷ 9 ∷ []) stopping
      (omega arith, (omega arith, (omega arith, _))) refl refl refl

looping-Inv : Inv looping
unfolding init
looping-Inv = record { unique = λ p. ground arith; at_most_one = λ e. cc; plays_front = inl refl }
