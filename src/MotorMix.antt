-- ===== src/MotorMix.antt =====
-- motormix.cpp, motormix.h, controlsurface.cpp and midi.cpp (`MIDIChannel::send`): the MotorMix
-- control surface, its keys, its LEDs and the lights of the projector heads.
-- An `int` that names a control is its bit pattern, so that -1 is 2^32 - 1.
pub mod Switches
pub mod Keys
pub mod History
pub mod Lights
pub mod Display
mod Tests
use lucifer.Prelude.{
  ℕ, zero, suc, ◌-◌, ◌^◌, Bool, true, false, not, ◌&&◌, ◌||◌, Option, none, some, List, [], ◌∷◌,
  ltb, ◌==◌, if◌then◌else◌, length, get_elem?, set, get_or,
}
use Prim.Native.Nat.{bit_and, bit_or}
use Prim.Native.String.{String}
use text.Mathlib.Text.{◌==◌ as str_eq}
use Switches.{Control, switches}

-- What leaves the surface: MIDI bytes, and the signals `controlChanged` and `headSelectionChanged`.
pub data Output : Type 0 where
  transmit : List ℕ → Output
  control_changed : ℕ → Output
  head_selection_changed : ℕ → Output

-- The entries of one head in the arrays of `MotorMix`; a state is an `int`, and -1 is 2^32 - 1.
pub record Head : Type 0 where
  pub control : ℕ
  pub selected : Bool
  pub active : Bool
  pub state : ℕ

pub record Surface : Type 0 where
  -- `controllers[0]`, `controllers[1]`, and the vector of the base class, `controlvalues`.
  pub earlier : ℕ
  pub later : ℕ
  pub controlvalues : List ℕ
  pub heads : List Head
  -- The channel number of the `MIDIChannel`, once it is connected.
  pub channel : Option ℕ
  pub shift_control : ℕ
  pub esc_control : ℕ
  -- The latest first.
  pub outputs : List Output

abbrev pub number_of_controls : Surface → ℕ
number_of_controls s = length s.controlvalues

-- `MIDIChannel::send`: the low nibble of the status byte becomes the channel.
pub on_channel : ℕ → List ℕ → List ℕ
on_channel c [] = []
on_channel c (status ∷ rest) = bit_or (bit_and status 0xf0) c ∷ rest

pub send : Option ℕ → List ℕ → List Output → List Output
unfolding on_channel
send none message outputs = outputs
send (some c) message outputs = transmit (on_channel c message) ∷ outputs

-- `controlByName`.
pub find_name : String → ℕ → List Control → ℕ
find_name name i [] = 2 ^ 32 - 1
find_name name i (c ∷ cs) = if str_eq name c.name then i else find_name name (suc i) cs

unfoldable pub control_by_name : String → ℕ
unfolding find_name switches
control_by_name name = find_name name 0 switches

-- `ControlSurface::getControlValue`; `none` is -1.
pub get_control_value : ℕ → Surface → Option ℕ
get_control_value control s = get_elem? s.controlvalues control

-- `ControlSurface::controlValueChanged`.
pub control_value_changed : ℕ → ℕ → Surface → Surface
control_value_changed control value s =
    if ltb control (number_of_controls s)
    then record s {
      controlvalues = set s.controlvalues control value;
      outputs = control_changed control ∷ s.outputs;
    }
    else s

-- The byte that `setControl` sends for a state of an LED.
pub led_code : Control → ℕ → Option ℕ
led_code c val =
    if val == 0
    then some c.led_ctl2_off
    else if val == 1
    then some c.led_ctl2_on
    else if val == 2
    then some c.led_ctl2_blink
    else none

pub led_message : Control → ℕ → List ℕ
led_message c code = 0xb0 ∷ c.led_ctl1_number ∷ c.led_ctl1_value ∷ c.led_ctl2_number ∷ code ∷ []

pub send_led : Option ℕ → ℕ → Option Control → List Output → Bool × List Output
unfolding led_code led_message send
send_led channel val none outputs = (false, outputs)
send_led channel val (some c) outputs = elim (led_code c val) [
  | none ↦ (false, outputs)
  | some code ↦ (true, send channel (led_message c code) outputs)
]

-- `setControl`, on the outputs; the table and the vector of values have the same length.
pub set_control : Option ℕ → ℕ → ℕ → List Output → Bool × List Output
unfolding send_led switches
set_control channel control val outputs = send_led channel val (get_elem? switches control) outputs

-- The test of the loop of `midiControlValueChanged` at one control: 1 is pressed, 0 is released.
abbrev pub match_key : ℕ → ℕ → ℕ → ℕ → Control → Option ℕ
match_key number0 value0 number1 value1 c =
    if c.ctrl1_number == number0 && c.cntrl1_value == value0 && c.cntrl2_number == number1
    then if c.cntrl2_pressed == value1
      then some 1
      else if c.cntrl2_released == value1
      then some 0
      else none
    else none

unfoldable pub find_key : ℕ → ℕ → ℕ → ℕ → ℕ → List Control → Option (ℕ × ℕ)
find_key number0 value0 number1 value1 i [] = none
find_key number0 value0 number1 value1 i (c ∷ cs) =
    elim (match_key number0 value0 number1 value1 c) [
      | some v ↦ some (i, v)
      | none ↦ find_key number0 value0 number1 value1 (suc i) cs
    ]

-- The shift of the history; the values are kept in the first two entries of `controlvalues`.
pub shift_history : ℕ → ℕ → Surface → Surface
shift_history number value s = record s {
  earlier = s.later;
  later = number;
  controlvalues = set (set s.controlvalues 0 (get_or s.controlvalues 1 0)) 1 value;
}

pub apply_key : Option (ℕ × ℕ) → Surface → Surface
apply_key none s = s
apply_key (some (i, v)) s = control_value_changed i v s

pub midi_control_value_changed : ℕ → ℕ → Surface → Surface
midi_control_value_changed number value s =
    let t = shift_history number value s in
    apply_key
      (find_key t.earlier (get_or t.controlvalues 0 0) t.later (get_or t.controlvalues 1 0) 0
        switches)
      t

-- What a head's light shows: blinking if it is selected, on if it is active.
pub wanted : Head → ℕ
wanted h = if h.selected then 2 else if h.active then 1 else 0

-- One round of `updateHeadStatus`: the light goes through off on its way from blinking to on.
pub update_head : Option ℕ → Head → List Output → Head × List Output
unfolding wanted set_control
update_head channel h outputs = if wanted h == h.state then (h, outputs) else (
  record h { state = wanted h },
  (set_control channel h.control (wanted h) (
      if wanted h == 1 && h.state == 2
      then (set_control channel h.control 0 outputs).1
      else outputs)).1,
)

pub update_heads : Option ℕ → List Head → List Output → List Head × List Output
unfolding update_head
update_heads channel [] outputs = ([], outputs)
update_heads channel (h ∷ hs) outputs =
    let first = update_head channel h outputs in
    let rest = update_heads channel hs first.1 in (first.0 ∷ rest.0, rest.1)

pub update_head_status : Surface → Surface
unfolding update_heads
update_head_status s =
    let r = update_heads s.channel s.heads s.outputs in record s { heads = r.0; outputs = r.1 }

-- `headSelected`.
pub select_in : ℕ → ℕ → List Head → List Head
select_in head i [] = []
select_in head i (h ∷ hs) = record h { selected = head == i } ∷ select_in head (suc i) hs

pub head_selected : ℕ → Surface → Surface
unfolding select_in update_head_status
head_selected head s = update_head_status (record s { heads = select_in head 0 s.heads })

-- `headActive` and `headInactive`.
pub set_active : ℕ → Bool → List Head → List Head
set_active head b [] = []
set_active zero b (h ∷ hs) = record h { active = b } ∷ hs
set_active (suc head) b (h ∷ hs) = h ∷ set_active head b hs

abbrev pub same_bool : Bool → Bool → Bool
same_bool true b = b
same_bool false b = not b

pub head_activity : Bool → ℕ → Surface → Surface
unfolding set_active update_head_status
head_activity b head s = elim (get_elem? s.heads head) [
  | none ↦ s
  | some h ↦
      let t = record s { heads = set_active head b s.heads } in
      if same_bool h.active b then t else update_head_status t
]

-- The heads whose key `control` is: the loop of `controlChangedData` stops at the first.
pub find_head : ℕ → ℕ → List Head → Option ℕ
find_head control i [] = none
find_head control i (h ∷ hs) = if control == h.control then some i else find_head control (suc i) hs

abbrev pub is_held : Option ℕ → Bool
is_held none = true
is_held (some v) = not (v == 0)

abbrev pub announce_head : Option ℕ → List Output → List Output
announce_head none outputs = outputs
announce_head (some i) outputs = head_selection_changed i ∷ outputs

pub control_changed_data : ℕ → Surface → Surface
unfolding get_control_value set_control find_head
control_changed_data control s =
    let shift = is_held (get_control_value s.shift_control s) in
    let escape = is_held (get_control_value s.esc_control s) in
    let lit =
      (set_control s.channel s.esc_control (if escape then 1 else 0)
        (set_control s.channel s.shift_control (if shift then 1 else 0) s.outputs).1).1 in
    record s {
      outputs = if shift || escape then lit else announce_head (find_head control 0 s.heads) lit;
    }
