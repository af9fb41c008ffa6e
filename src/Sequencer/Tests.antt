-- ===== src/Sequencer/Tests.antt =====
-- The sequencer of src/framesequencer.cpp over small children.
use lucifer.Prelude.{
  ℕ, zero, suc, ◌≡◌, refl, ◌⊎◌, false, Option, none, some, List, [], ◌∷◌, ◌++◌, arith,
}
use lucifer.Prelude.Int.{pos, ◌+ℤ◌}
use lucifer.Random.{identity_shuffle}
use lucifer.Sequencer.{
  Mode-discrete, new_playback, table_size, fill, filled, reset_index, index, reset, reset_children,
  advance, pull, start_repeat, settle, at_end, play, inner_fuel, next_frame, Settings, Playback,
  Children, Outcome, random, pingpong,
}
use lucifer.Sequencer.Table.{countdown, count_from, fill-pingpong, fill-Table, Table}
use lucifer.Sequencer.Play.{IsSafe}
use lucifer.Sequencer.Total.{next_frame_returns}
use lucifer.Sequencer.Ending.{calls, only_child_never_shown}
use lucifer.Sequencer.Configure.{new_playback-IsSafe}

-- Three children, each of which has one frame after a reset; the state is how often one was asked.
abbrev one_frame : ℕ → ℕ → Option ℕ × ℕ
one_frame k zero = (some k, 1)
one_frame k (suc n) = (none, suc (suc n))

abbrev three : Children
three = record { State = ℕ; Frame = ℕ; number = 3; next_frame = one_frame; reset = λ k s. 0 }

abbrev there_and_back : Settings
there_and_back = record { mode = pingpong; new_mode = pingpong; repeats = 1 }

-- The frames that n calls of `nextFrame` return.
abbrev frames : ℕ → Settings → Playback → ℕ → List (Option ℕ)
frames zero c pb s = []
frames (suc n) c pb s = elim (next_frame identity_shuffle three c pb s) [
  | none ↦ []
  | some (c', o) ↦ o.frame ∷ frames n c' o.playback o.kids
]

pingpong_frames :
    frames 6 there_and_back new_playback 0
    ≡ some 0 ∷ some 1 ∷ some 2 ∷ some 1 ∷ some 0 ∷ some 0 ∷ []
unfolding next_frame new_playback inner_fuel play at_end start_repeat pull reset reset_children
    settle index advance reset_index fill table_size filled Mode-discrete ◌+ℤ◌
pingpong_frames = refl

next_frame_returns_example :
    (o : Outcome identity_shuffle three) × (next_frame identity_shuffle three there_and_back
        new_playback 0
      ≡ some (there_and_back, o))
    × IsSafe pingpong 3 o.playback
    × (((f : ℕ) × (o.frame ≡ some f)) ⊎ ((o.playback.place ≡ 0) × (o.playback.repeats_done ≡ 0)))
next_frame_returns_example =
    next_frame_returns identity_shuffle three (omega arith) (omega arith) there_and_back
      new_playback 0 (new_playback-IsSafe pingpong 3 (omega arith) (omega arith))

-- One child that always has a frame.
abbrev only : Children
only = record {
  State = ℕ;
  Frame = ℕ;
  number = 1;
  next_frame = λ k s. (some 7, suc s);
  reset = λ k s. 0;
}

abbrev once_round : Settings
once_round = record { mode = pingpong; new_mode = pingpong; repeats = 0 }

only_child_never_shown_example :
    (p q : Playback) × (c' : Settings) × (reset identity_shuffle pingpong 1 new_playback ≡ some p)
    × (calls identity_shuffle only (pingpong ∷ random ∷ pingpong ∷ []) once_round p 0
        ≡ some (none ∷ none ∷ none ∷ [], (c', (q, 0))))
only_child_never_shown_example =
    only_child_never_shown identity_shuffle only (omega arith) (omega arith) refl
      (pingpong ∷ random ∷ pingpong ∷ []) once_round new_playback 0 refl

fill-pingpong_example :
    fill 3 (table_size pingpong 3) 0 (pos 0) false ≡ some (count_from 0 2 ++ countdown 2)
fill-pingpong_example = fill-pingpong 2 (omega arith)

fill-Table_example :
    (table : List ℕ) × (fill 3 (table_size random 3) 0 (pos 0) false ≡ some table)
    × Table random 3 table
fill-Table_example = fill-Table random 3 (omega arith) (omega arith)
