-- ===== src/Sequencer/Ending.antt =====
-- What `FrameSequencer::nextFrame` of src/framesequencer.cpp does at the last step of its table, and what comes of it
-- for a node with one child.
use lucifer.Prelude.{
  ℕ, suc, ◌^◌, ◌≤◌, ◌<◌, ◌≡◌, refl, subst, ◌∙◌, true, false, Option, none, some, List, [], ◌∷◌,
  arith, ltb, leb, length, replicate,
}
use mathlib.Core.Logic.{if_pos, if_neg}
use lucifer.Prelude.Maybe.{◌>>=◌}
use lucifer.Random.{Random}
use lucifer.Sequencer.{
  Mode-discrete, table_size, last_place, reset, at_end, play, inner_fuel, next_frame, Settings,
  Playback, Children, Mode, sequential, random, pingpong,
}
use lucifer.Sequencer.Play.{reset_index-IsReady, last_place-IsReady, IsReady}

table_size_one : (mode : Mode) (n : ℕ) → n ≡ 1 → table_size mode n ≡ 1
unfolding table_size
table_size_one sequential n e = e
table_size_one random n e = e
table_size_one pingpong n e = omega arith

module _ (R : Random) (C : Children) where
  -- Calls of `nextFrame`, before each of which a mode is selected: the frames, and what is left.
  abbrev pub calls :
      List Mode
      → Settings
      → Playback
      → C.State
      → Option (List (Option C.Frame) × (Settings × (Playback × C.State)))
  calls [] c pb s = some ([], (c, (pb, s)))
  calls (mode ∷ modes) c pb s = next_frame R C (record c { new_mode = mode }) pb s >>= λ r.
      calls modes r.0 r.1.playback r.1.kids >>= λ rest. some (r.1.frame ∷ rest.0, rest.1)

module _ (R : Random) (C : Children) (some_child : 0 < C.number) (small : C.number < 2 ^ 30) where
  last_step_ends :
      (inner fuel repeats : ℕ) (mode : Mode) (pb : Playback) (s : C.State)
      → IsReady mode C.number pb
      → suc pb.place ≡ table_size mode C.number
      → repeats ≤ pb.repeats_done
      → (q : Playback) × (play R C inner (suc fuel) mode repeats pb s
          ≡ some (record { frame = none; playback = q; kids = s }))
        × IsReady mode C.number q
        × (q.place ≡ 0)
  unfolding play at_end reset
  last_step_ends inner fuel repeats mode pb s ready at_last done =
      let (q, made, ready', place, reps) =
        reset_index-IsReady R C.number some_child small mode
          (record pb { place = 0; repeats_done = 0 }) in
      let over : ltb pb.place (last_place pb) ≡ false =
        ground (arith, last_place-IsReady R C some_child small mode pb ready) in
      let finished : leb repeats pb.repeats_done ≡ true = ground arith in
      (q, rw (over, finished, made, play) refl, ready', place)

  module _ (only : C.number ≡ 1) where
    only_child_ends :
        (c : Settings) (pb : Playback) (s : C.State)
        → c.repeats ≡ 0
        → IsReady c.new_mode C.number pb
        → pb.place ≡ 0
        → (q : Playback) × (play R C
              (inner_fuel R C c.new_mode)
              (suc (suc c.repeats))
              c.new_mode
              c.repeats
              pb
              s
            ≡ some (record { frame = none; playback = q; kids = s }))
          × IsReady c.new_mode C.number q
          × (q.place ≡ 0)
    only_child_ends c pb s none_left ready start =
        last_step_ends (inner_fuel R C c.new_mode) (suc c.repeats) c.repeats c.new_mode pb s ready
          (omega (arith, start, table_size_one c.new_mode C.number only)) (omega arith)

    only_child_silent :
        (c : Settings) (pb : Playback) (s : C.State)
        → c.repeats ≡ 0
        → IsReady c.mode C.number pb
        → pb.place ≡ 0
        → (q : Playback) × (next_frame R C c pb s
            ≡ some
                (record c { mode = c.new_mode }, record { frame = none; playback = q; kids = s }))
          × IsReady c.new_mode C.number q
          × (q.place ≡ 0)
    unfolding next_frame
    only_child_silent c pb s none_left ready start = elim (Mode-discrete c.mode c.new_mode) [
      | yes same ↦
          let (q, ended, ready', place) =
            only_child_ends c pb s none_left (subst (λ m. IsReady m C.number pb) same ready)
              start in
          (q, rw (if_pos _ same, ended) refl, ready', place)
      | no other ↦
          let (p, made, ready_p, place_p, reps) =
            reset_index-IsReady R C.number some_child small c.new_mode pb in
          let (q, ended, ready', place) =
            only_child_ends c p s none_left ready_p (place_p ∙ start) in
          (q, rw (if_neg _ other, made, ended) refl, ready', place)
    ]

    calls_silent :
        (modes : List Mode) (c : Settings) (pb : Playback) (s : C.State)
        → c.repeats ≡ 0
        → IsReady c.mode C.number pb
        → pb.place ≡ 0
        → (c' : Settings) × (q : Playback) × (calls R C modes c pb s
            ≡ some (replicate (length modes) none, (c', (q, s))))
    calls_silent [] c pb s none_left ready start = (c, pb, refl)
    calls_silent (mode ∷ modes) c pb s none_left ready start =
        let (q, called, ready', place) =
          only_child_silent (record c { new_mode = mode }) pb s none_left ready start in
        let (c', q', rest) =
          calls_silent modes (record c { mode = mode; new_mode = mode }) q s none_left ready'
            place in
        (c', q', rw (called, rest) refl)

    -- A node with one child and no repeats, once its playback is reset, never shows a frame: however
    -- often it is called, and whatever modes are selected between the calls, every call returns no
    -- frame, and none asks the child for one or resets it, whatever frames the child has.
    pub only_child_never_shown :
        (modes : List Mode) (c : Settings) (pb : Playback) (s : C.State)
        → c.repeats ≡ 0
        → (p q : Playback) × (c' : Settings) × (reset R c.mode C.number pb ≡ some p)
          × (calls R C modes c p s ≡ some (replicate (length modes) none, (c', (q, s))))
    unfolding reset
    only_child_never_shown modes c pb s none_left =
        let (p, made, ready, place, reps) =
          reset_index-IsReady R C.number some_child small c.mode
            (record pb { place = 0; repeats_done = 0 }) in
        let (c', q, silent) = calls_silent modes c p s none_left ready place in
        (p, q, c', made, silent)
