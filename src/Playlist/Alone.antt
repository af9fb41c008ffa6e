-- ===== src/Playlist/Alone.antt =====
-- `getNextFramesource` of src/playbacklist.cpp on a list in the mode LOOP with one selection.
use lucifer.Prelude.{ℕ, ◌≡◌, refl, ap, Bool, true, false, [], ◌∷◌, if◌then◌else◌}
use lucifer.Prelude.Int.{eq_ℤ, minus_one, to_int}
use lucifer.Random.{Random}
use lucifer.Playlist.{
  is_shuffle, moves_at_end, rotate, step_list, next_with, next, move_on, get_next_framesource,
  PlaybackList, loop, load,
}

pub record Alone (x : ℕ) (l : PlaybackList) : Type 0 where
  pub selected : l.selections ≡ x ∷ []
  pub looping : l.step_mode ≡ loop
  pub plain : is_shuffle l.sel_mode ≡ false

module _ (R : Random) where
  move_on-Alone :
      (b : Bool) (x : ℕ) (l : PlaybackList)
      → Alone x l
      → Alone x (move_on R b l)
        × ((move_on R b l).current_index ≡ to_int x)
        × ((move_on R b l).signals ≡ load x ∷ l.signals)
  unfolding move_on next next_with step_list rotate
  move_on-Alone b x l a =
      rw (a.selected, a.looping, a.plain)
        (record { selected = refl; looping = refl; plain = a.plain }, refl, refl)

  pub get_next-Alone :
      (x : ℕ) (l : PlaybackList)
      → Alone x l
      → Alone x (get_next_framesource R l)
        × ((get_next_framesource R l).current_index ≡ to_int x)
        × ((get_next_framesource R l).signals ≡ load x ∷ l.signals)
  unfolding get_next_framesource
  get_next-Alone x l a =
      rw (ap moves_at_end a.looping)
        (move_on-Alone (if eq_ℤ l.current_index minus_one then false else true) x l a)
