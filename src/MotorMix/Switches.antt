-- ===== src/MotorMix/Switches.antt =====
-- The table `switches` of src/motormix.cpp: scan codes, LED codes and details of each control.
use Prim.Native.String.{String}
use lucifer.Prelude.{ℕ, List, [], ◌∷◌}

pub record Control : Type 0 where
  pub ctrl1_number : ℕ
  pub cntrl1_value : ℕ
  pub cntrl2_number : ℕ
  pub cntrl2_pressed : ℕ
  pub cntrl2_released : ℕ
  pub led_ctl1_number : ℕ
  pub led_ctl1_value : ℕ
  pub led_ctl2_number : ℕ
  pub led_ctl2_off : ℕ
  pub led_ctl2_on : ℕ
  pub led_ctl2_blink : ℕ
  pub name : String
  pub least : ℕ
  pub most : ℕ
  pub steps : ℕ
  pub indicator_states : ℕ

-- One row of the table: the key, the LED, the details.
abbrev row : ℕ → ℕ → ℕ → ℕ → ℕ → ℕ → ℕ → ℕ → ℕ → ℕ → ℕ → String → ℕ → ℕ → ℕ → ℕ → Control
row a b c d e f g h i j k name least most steps states = record {
  ctrl1_number = a;
  cntrl1_value = b;
  cntrl2_number = c;
  cntrl2_pressed = d;
  cntrl2_released = e;
  led_ctl1_number = f;
  led_ctl1_value = g;
  led_ctl2_number = h;
  led_ctl2_off = i;
  led_ctl2_on = j;
  led_ctl2_blink = k;
  name = name;
  least = least;
  most = most;
  steps = steps;
  indicator_states = states;
}

unfoldable pub switches : List Control
switches =
    row 0x0f 0x00 0x2f 0x40 0x00 0x00 0x00 0x00 0x00 0x00 0x00 "Fader Touch [0]" 0 1 2 0
    ∷ row 0x0f 0x01 0x2f 0x40 0x00 0x00 0x00 0x00 0x00 0x00 0x00 "Fader Touch [1]" 0 1 2 0
    ∷ row 0x0f 0x02 0x2f 0x40 0x00 0x00 0x00 0x00 0x00 0x00 0x00 "Fader Touch [2]" 0 1 2 0
    ∷ row 0x0f 0x03 0x2f 0x40 0x00 0x00 0x00 0x00 0x00 0x00 0x00 "Fader Touch [3]" 0 1 2 0
    ∷ row 0x0f 0x04 0x2f 0x40 0x00 0x00 0x00 0x00 0x00 0x00 0x00 "Fader Touch [4]" 0 1 2 0
    ∷ row 0x0f 0x05 0x2f 0x40 0x00 0x00 0x00 0x00 0x00 0x00 0x00 "Fader Touch [5]" 0 1 2 0
    ∷ row 0x0f 0x06 0x2f 0x40 0x00 0x00 0x00 0x00 0x00 0x00 0x00 "Fader Touch [6]" 0 1 2 0
    ∷ row 0x0f 0x07 0x2f 0x40 0x00 0x00 0x00 0x00 0x00 0x00 0x00 "Fader Touch [7]" 0 1 2 0
    ∷ row 0x0f 0x00 0x2f 0x41 0x01 0x0c 0x00 0x2c 0x01 0x41 0x51 "Select [0]" 0 1 2 3
    ∷ row 0x0f 0x01 0x2f 0x41 0x01 0x0c 0x01 0x2c 0x01 0x41 0x51 "Select [1]" 0 1 2 3
    ∷ row 0x0f 0x02 0x2f 0x41 0x01 0x0c 0x02 0x2c 0x01 0x41 0x51 "Select [2]" 0 1 2 3
    ∷ row 0x0f 0x03 0x2f 0x41 0x01 0x0c 0x03 0x2c 0x01 0x41 0x51 "Select [3]" 0 1 2 3
    ∷ row 0x0f 0x04 0x2f 0x41 0x01 0x0c 0x04 0x2c 0x01 0x41 0x51 "Select [4]" 0 1 2 3
    ∷ row 0x0f 0x05 0x2f 0x41 0x01 0x0c 0x05 0x2c 0x01 0x41 0x51 "Select [5]" 0 1 2 3
    ∷ row 0x0f 0x06 0x2f 0x41 0x01 0x0c 0x06 0x2c 0x01 0x41 0x51 "Select [6]" 0 1 2 3
    ∷ row 0x0f 0x07 0x2f 0x41 0x01 0x0c 0x07 0x2c 0x01 0x41 0x51 "Select [7]" 0 1 2 3
    ∷ row 0x0f 0x00 0x2f 0x42 0x02 0x0c 0x00 0x2c 0x02 0x42 0x52 "Mute [0]" 0 1 2 3
    ∷ row 0x0f 0x01 0x2f 0x42 0x02 0x0c 0x01 0x2c 0x02 0x42 0x52 "Mute [1]" 0 1 2 3
    ∷ row 0x0f 0x02 0x2f 0x42 0x02 0x0c 0x02 0x2c 0x02 0x42 0x52 "Mute [2]" 0 1 2 3
    ∷ row 0x0f 0x03 0x2f 0x42 0x02 0x0c 0x03 0x2c 0x02 0x42 0x52 "Mute [3]" 0 1 2 3
    ∷ row 0x0f 0x04 0x2f 0x42 0x02 0x0c 0x04 0x2c 0x02 0x42 0x52 "Mute [4]" 0 1 2 3
    ∷ row 0x0f 0x05 0x2f 0x42 0x02 0x0c 0x05 0x2c 0x02 0x42 0x52 "Mute [5]" 0 1 2 3
    ∷ row 0x0f 0x06 0x2f 0x42 0x02 0x0c 0x06 0x2c 0x02 0x42 0x52 "Mute [6]" 0 1 2 3
    ∷ row 0x0f 0x07 0x2f 0x42 0x02 0x0c 0x07 0x2c 0x02 0x42 0x52 "Mute [7]" 0 1 2 3
    ∷ row 0x0f 0x00 0x2f 0x43 0x03 0x0c 0x00 0x2c 0x03 0x43 0x53 "Solo [0]" 0 1 2 3
    ∷ row 0x0f 0x01 0x2f 0x43 0x03 0x0c 0x01 0x2c 0x03 0x43 0x53 "Solo [1]" 0 1 2 3
    ∷ row 0x0f 0x02 0x2f 0x43 0x03 0x0c 0x02 0x2c 0x03 0x43 0x53 "Solo [2]" 0 1 2 3
    ∷ row 0x0f 0x03 0x2f 0x43 0x03 0x0c 0x03 0x2c 0x03 0x43 0x53 "Solo [3]" 0 1 2 3
    ∷ row 0x0f 0x04 0x2f 0x43 0x03 0x0c 0x04 0x2c 0x03 0x43 0x53 "Solo [4]" 0 1 2 3
    ∷ row 0x0f 0x05 0x2f 0x43 0x03 0x0c 0x05 0x2c 0x03 0x43 0x53 "Solo [5]" 0 1 2 3
    ∷ row 0x0f 0x06 0x2f 0x43 0x03 0x0c 0x06 0x2c 0x03 0x43 0x53 "Solo [6]" 0 1 2 3
    ∷ row 0x0f 0x07 0x2f 0x43 0x03 0x0c 0x07 0x2c 0x03 0x43 0x53 "Solo [7]" 0 1 2 3
    ∷ row 0x0f 0x00 0x2f 0x44 0x04 0x0c 0x00 0x2c 0x04 0x44 0x54 "Multi [0]" 0 1 2 3
    ∷ row 0x0f 0x01 0x2f 0x44 0x04 0x0c 0x01 0x2c 0x04 0x44 0x54 "Multi [1]" 0 1 2 3
    ∷ row 0x0f 0x02 0x2f 0x44 0x04 0x0c 0x02 0x2c 0x04 0x44 0x54 "Multi [2]" 0 1 2 3
    ∷ row 0x0f 0x03 0x2f 0x44 0x04 0x0c 0x03 0x2c 0x04 0x44 0x54 "Multi [3]" 0 1 2 3
    ∷ row 0x0f 0x04 0x2f 0x44 0x04 0x0c 0x04 0x2c 0x04 0x44 0x54 "Multi [4]" 0 1 2 3
    ∷ row 0x0f 0x05 0x2f 0x44 0x04 0x0c 0x05 0x2c 0x04 0x44 0x54 "Multi [5]" 0 1 2 3
    ∷ row 0x0f 0x06 0x2f 0x44 0x04 0x0c 0x06 0x2c 0x04 0x44 0x54 "Multi [6]" 0 1 2 3
    ∷ row 0x0f 0x07 0x2f 0x44 0x04 0x0c 0x07 0x2c 0x04 0x44 0x54 "Multi [7]" 0 1 2 3
    ∷ row 0x0f 0x00 0x2f 0x45 0x05 0x0c 0x00 0x2c 0x05 0x45 0x55 "Rdy [0]" 0 1 2 3
    ∷ row 0x0f 0x01 0x2f 0x45 0x05 0x0c 0x01 0x2c 0x05 0x45 0x55 "Rdy [1]" 0 1 2 3
    ∷ row 0x0f 0x02 0x2f 0x45 0x05 0x0c 0x02 0x2c 0x05 0x45 0x55 "Rdy [2]" 0 1 2 3
    ∷ row 0x0f 0x03 0x2f 0x45 0x05 0x0c 0x03 0x2c 0x05 0x45 0x55 "Rdy [3]" 0 1 2 3
    ∷ row 0x0f 0x04 0x2f 0x45 0x05 0x0c 0x04 0x2c 0x05 0x45 0x55 "Rdy [4]" 0 1 2 3
    ∷ row 0x0f 0x05 0x2f 0x45 0x05 0x0c 0x05 0x2c 0x05 0x45 0x55 "Rdy [5]" 0 1 2 3
    ∷ row 0x0f 0x06 0x2f 0x45 0x05 0x0c 0x06 0x2c 0x05 0x45 0x55 "Rdy [6]" 0 1 2 3
    ∷ row 0x0f 0x07 0x2f 0x45 0x05 0x0c 0x07 0x2c 0x05 0x45 0x55 "Rdy [7]" 0 1 2 3
    ∷ row 0x0f 0x08 0x2f 0x40 0x00 0x0c 0x08 0x2c 0x00 0x40 0x50 "Shift" 0 1 2 3
    ∷ row 0x0f 0x08 0x2f 0x41 0x01 0x0c 0x08 0x2c 0x01 0x41 0x51 "Undo" 0 1 2 3
    ∷ row 0x0f 0x08 0x2f 0x42 0x02 0x0c 0x08 0x2c 0x02 0x42 0x52 "Default" 0 1 2 3
    ∷ row 0x0f 0x08 0x2f 0x43 0x03 0x0c 0x08 0x2c 0x03 0x43 0x53 "All" 0 1 2 3
    ∷ row 0x0f 0x08 0x2f 0x44 0x04 0x0c 0x08 0x2c 0x04 0x44 0x54 "Window" 0 1 2 3
    ∷ row 0x0f 0x08 0x2f 0x45 0x05 0x0c 0x08 0x2c 0x05 0x45 0x55 "Plugin" 0 1 2 3
    ∷ row 0x0f 0x08 0x2f 0x46 0x06 0x0c 0x08 0x2c 0x06 0x46 0x56 "Suspend" 0 1 2 3
    ∷ row 0x0f 0x08 0x2f 0x47 0x07 0x0c 0x08 0x2c 0x07 0x47 0x57 "Auto Enable" 0 1 2 3
    ∷ row 0x0f 0x09 0x2f 0x40 0x00 0x0c 0x09 0x2c 0x00 0x40 0x50 "Escape" 0 1 2 3
    ∷ row 0x0f 0x09 0x2f 0x41 0x01 0x0c 0x09 0x2c 0x01 0x41 0x51 "Enter" 0 1 2 3
    ∷ row 0x0f 0x09 0x2f 0x42 0x02 0x0c 0x09 0x2c 0x02 0x42 0x52 "Last" 0 1 2 3
    ∷ row 0x0f 0x09 0x2f 0x43 0x03 0x0c 0x09 0x2c 0x03 0x43 0x53 "Next" 0 1 2 3
    ∷ row 0x0f 0x09 0x2f 0x44 0x04 0x0c 0x09 0x2c 0x04 0x44 0x54 "Rewind" 0 1 2 3
    ∷ row 0x0f 0x09 0x2f 0x45 0x05 0x0c 0x09 0x2c 0x05 0x45 0x55 "FFwd" 0 1 2 3
    ∷ row 0x0f 0x09 0x2f 0x46 0x06 0x0c 0x09 0x2c 0x06 0x46 0x56 "Stop" 0 1 2 3
    ∷ row 0x0f 0x09 0x2f 0x47 0x07 0x0c 0x09 0x2c 0x07 0x47 0x57 "Play" 0 1 2 3
    ∷ row 0x0f 0x0a 0x2f 0x40 0x00 0x00 0x00 0x00 0x00 0x00 0x00 "Left Arrow" 0 1 2 0
    ∷ row 0x0f 0x0a 0x2f 0x41 0x01 0x00 0x00 0x00 0x00 0x00 0x00 "Right Arrow" 0 1 2 0
    ∷ row 0x0f 0x0a 0x2f 0x42 0x02 0x0c 0x0a 0x2c 0x00 0x40 0x50 "Bank" 0 1 2 3
    ∷ row 0x0f 0x0a 0x2f 0x43 0x03 0x0c 0x0a 0x2c 0x01 0x41 0x51 "Group" 0 1 2 3
    ∷ row 0x0f 0x0a 0x2f 0x44 0x04 0x0c 0x0a 0x2c 0x02 0x42 0x52 "Record Rdy" 0 1 2 3
    ∷ row 0x0f 0x0a 0x2f 0x45 0x05 0x0c 0x0a 0x2c 0x04 0x44 0x54 "Write" 0 1 2 3
    ∷ row 0x0f 0x0a 0x2f 0x46 0x06 0x0c 0x0a 0x2c 0x06 0x46 0x56 "Burn" 0 1 2 3
    ∷ row 0x00 0x00 0x00 0x00 0x00 0x0c 0x0a 0x2c 0x03 0x43 0x53 "Funct A" 0 0 0 3
    ∷ row 0x00 0x00 0x00 0x00 0x00 0x0c 0x0a 0x2c 0x05 0x45 0x55 "Funct B" 0 0 0 3
    ∷ row 0x00 0x00 0x00 0x00 0x00 0x0c 0x0a 0x2c 0x07 0x47 0x57 "Funct C" 0 0 0 3
    ∷ row 0x00 0x00 0x00 0x00 0x00 0x0c 0x0b 0x2c 0x01 0x41 0x51 "Effect 1" 0 0 0 3
    ∷ row 0x00 0x00 0x00 0x00 0x00 0x0c 0x0b 0x2c 0x03 0x43 0x53 "Effect 2" 0 0 0 3
    ∷ row 0x00 0x00 0x00 0x00 0x00 0x0c 0x0b 0x2c 0x05 0x45 0x55 "Effect 3" 0 0 0 3
    ∷ row 0x00 0x00 0x00 0x00 0x00 0x0c 0x0b 0x2c 0x07 0x47 0x57 "Effect 4" 0 0 0 3
    ∷ row 0x0f 0x0b 0x2f 0x40 0x00 0x0c 0x0b 0x2c 0x00 0x40 0x50 "Fx-Bypass" 0 1 2 3
    ∷ row 0x0f 0x0b 0x2f 0x41 0x01 0x0c 0x0b 0x2c 0x02 0x42 0x52 "Send Mute" 0 1 2 3
    ∷ row 0x0f 0x0b 0x2f 0x42 0x02 0x0c 0x0b 0x2c 0x04 0x44 0x54 "PrePost" 0 1 2 3
    ∷ row 0x0f 0x0b 0x2f 0x43 0x03 0x0c 0x0b 0x2c 0x06 0x46 0x56 "Select" 0 1 2 3
    ∷ []
