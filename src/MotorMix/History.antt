-- ===== src/MotorMix/History.antt =====
-- `midiControlValueChanged` of src/motormix.cpp keeps its history in `controlvalues`, which is the
-- vector of control values of src/controlsurface.cpp (src/motormix.h declares `values` for it).
use lucifer.Prelude.{ℕ, ◌≡◌, refl, some}
use lucifer.MotorMix.{
  number_of_controls, get_control_value, shift_history, midi_control_value_changed, Surface,
}
use lucifer.MotorMix.Keys.{two_first, first_message}

-- On a surface with 82 controls the first message of any key event overwrites the values of the
-- controls 0 and 1: control 1 gets the number sent, and control 0 the value that control 1 had.
pub history_overwrites_controls :
    (z : ℕ) (s : Surface)
    → number_of_controls s ≡ 82
    → (get_control_value 1 (midi_control_value_changed 0x0f z s) ≡ some z)
      × (get_control_value 0 (midi_control_value_changed 0x0f z s) ≡ get_control_value 1 s)
unfolding get_control_value shift_history
history_overwrites_controls z s h =
    let (a, b, r, split) = two_first 80 s.controlvalues h in
    rw (first_message z s, split) (refl, refl)
