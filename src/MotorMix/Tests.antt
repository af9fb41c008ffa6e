-- ===== src/MotorMix/Tests.antt =====
-- The control surface of src/motormix.cpp on concrete messages.
use lucifer.Prelude.{ℕ, ◌≡◌, refl, false, none, some, [], ◌∷◌, replicate}
use lucifer.MotorMix.{
  find_name, control_by_name, get_control_value, midi_control_value_changed, Head, Surface,
  control_changed,
}
use lucifer.MotorMix.Switches.{switches, Control}
use lucifer.MotorMix.Display.{Messages}
use lucifer.MotorMix.Keys.{key_press_and_release}

abbrev dark : ℕ → Head
dark c = record { control = c; selected = false; active = false; state = 0 }

abbrev surface : Surface
surface = record {
  earlier = 0;
  later = 0;
  controlvalues = replicate 82 0;
  heads = dark 4 ∷ dark 9 ∷ [];
  channel = some 0;
  shift_control = 80;
  esc_control = 81;
  outputs = [];
}

escape_control_found : control_by_name "Escape" ≡ 56
unfolding control_by_name find_name switches
escape_control_found = refl

-- The row 48 of the table.
abbrev shift_row : Control
shift_row = record {
  ctrl1_number = 0x0f;
  cntrl1_value = 0x08;
  cntrl2_number = 0x2f;
  cntrl2_pressed = 0x40;
  cntrl2_released = 0x00;
  led_ctl1_number = 0x0c;
  led_ctl1_value = 0x08;
  led_ctl2_number = 0x2c;
  led_ctl2_off = 0x00;
  led_ctl2_on = 0x40;
  led_ctl2_blink = 0x50;
  name = "Shift";
  least = 0;
  most = 1;
  steps = 2;
  indicator_states = 3;
}

key_press_and_release_example :
    let first = midi_control_value_changed 0x0f 0x08 surface in
    let down = midi_control_value_changed 0x2f 0x40 first in
    let up = midi_control_value_changed 0x2f 0x00 first in
    (get_control_value 48 down ≡ some 1)
    × (down.outputs ≡ control_changed 48 ∷ [])
    × (get_control_value 48 up ≡ some 0)
    × (up.outputs ≡ control_changed 48 ∷ [])
unfolding switches
key_press_and_release_example = key_press_and_release 48 shift_row refl refl surface refl

-- Connected, without a message.
abbrev silent : Messages
silent = record { surface = surface; message_timer = none }
