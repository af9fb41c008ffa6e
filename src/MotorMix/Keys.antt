-- ===== src/MotorMix/Keys.antt =====
-- The key decoder of src/motormix.cpp (`midiControlValueChanged`) against its table of scan codes.
use lucifer.Prelude.{
  ℕ, zero, suc, ◌+◌, ◌<◌, ◌≡◌, refl, ap, ◌∙◌, Bool, true, false, not, ◌&&◌, Option, none, some,
  List, [], ◌∷◌, arith, ◌==◌, if◌then◌else◌, lt→ltb, length, get_elem?, get_or, get_elem?-set_self,
  &&-split, get_elem?-lt,
}
use lucifer.MotorMix.{
  number_of_controls, get_control_value, control_value_changed, find_key, shift_history, apply_key,
  midi_control_value_changed, Surface, control_changed,
}
use lucifer.MotorMix.Switches.{switches, Control}

-- A row that has a key: the other rows are LEDs alone.
abbrev pub is_key : Control → Bool
is_key c = c.ctrl1_number == 0x0f && c.cntrl2_number == 0x2f

abbrev found : ℕ → ℕ → Option (ℕ × ℕ) → Bool
found i v none = false
found i v (some (j, w)) = j == i && w == v

found→eq : (i v : ℕ) (o : Option (ℕ × ℕ)) → found i v o ≡ true → o ≡ some (i, v)
found→eq i v none h = cc
found→eq i v (some (j, w)) h = ground arith

decodes_at : ℕ → Control → Bool
decodes_at i c =
    found i 1 (find_key 0x0f c.cntrl1_value 0x2f c.cntrl2_pressed 0 switches)
    && found i 0 (find_key 0x0f c.cntrl1_value 0x2f c.cntrl2_released 0 switches)

decode_from : ℕ → List Control → Bool
decode_from i [] = true
decode_from i (c ∷ cs) = (if is_key c then decodes_at i c else true) && decode_from (suc i) cs

-- Every row of the table, tried.
table_decodes : decode_from 0 switches ≡ true
unfolding decode_from decodes_at switches find_key
table_decodes = refl

decode_from_sound :
    (i j k : ℕ) (cs : List Control) (c : Control)
    → decode_from i cs ≡ true
    → get_elem? cs k ≡ some c
    → i + k ≡ j
    → is_key c ≡ true
    → decodes_at j c ≡ true
unfolding decode_from
decode_from_sound i j k [] c h e ij key = cc
decode_from_sound i j zero (d ∷ cs) c h e ij key =
    ground (arith, &&-split (if is_key d then decodes_at i d else true) (decode_from (suc i) cs) h)
decode_from_sound i j (suc k) (d ∷ cs) c h e ij key =
    decode_from_sound (suc i) j k cs c
      (&&-split (if is_key d then decodes_at i d else true) (decode_from (suc i) cs) h).1 e
      (omega arith) key

no_second : List Control → Bool
no_second [] = true
no_second (c ∷ cs) = not (c.cntrl2_number == 0x0f) && no_second cs

table_no_second : no_second switches ≡ true
unfolding no_second switches
table_no_second = refl

find_key-none :
    (a b d i : ℕ) (cs : List Control) → no_second cs ≡ true → find_key a b 0x0f d i cs ≡ none
unfolding no_second find_key
find_key-none a b d i [] h = refl
find_key-none a b d i (c ∷ cs) h = ground (arith, find_key-none a b d (suc i) cs)

pub two_first :
    (n : ℕ) (xs : List ℕ)
    → length xs ≡ suc (suc n)
    → (a : ℕ) × (b : ℕ) × (r : List ℕ) × (xs ≡ a ∷ b ∷ r)
two_first n [] h = absurd (omega (arith, h))
two_first n (a ∷ []) h = absurd (omega (arith, h))
two_first n (a ∷ b ∷ r) h = (a, b, r, refl)

-- The surface after both messages, before the loop.
pub shifted-values :
    (z w : ℕ) (s : Surface) (a b : ℕ) (r : List ℕ)
    → s.controlvalues ≡ a ∷ b ∷ r
    → (shift_history 0x2f w (shift_history 0x0f z s)).controlvalues ≡ z ∷ w ∷ r
unfolding shift_history
shifted-values z w s a b r e = rw e

length-switches : length switches ≡ 82
unfolding switches
length-switches = refl

shift_history-outputs : (n w : ℕ) (s : Surface) → (shift_history n w s).outputs ≡ s.outputs
unfolding shift_history
shift_history-outputs n w s = refl

control_value_changed-inside :
    (i v : ℕ) (s : Surface)
    → i < number_of_controls s
    → (get_control_value i (control_value_changed i v s) ≡ some v)
      × ((control_value_changed i v s).outputs ≡ control_changed i ∷ s.outputs)
unfolding control_value_changed get_control_value
control_value_changed-inside i v s h =
    rw (lt→ltb i (length s.controlvalues) h) (get_elem?-set_self s.controlvalues i v h, refl)

-- A message whose history is found in the table.
message-found :
    (number value : ℕ) (s t : Surface) (a b i v : ℕ) (r : List ℕ)
    → shift_history number value s ≡ t
    → t.controlvalues ≡ a ∷ b ∷ r
    → find_key t.earlier a t.later b 0 switches ≡ some (i, v)
    → midi_control_value_changed number value s ≡ control_value_changed i v t
unfolding midi_control_value_changed apply_key
message-found number value s t a b i v r shifted values e =
    let e' : find_key t.earlier (get_or t.controlvalues 0 0) t.later (get_or t.controlvalues 1 0) 0
          switches
        ≡ some (i, v) =
      rw values e in
    rw (shifted, e')

-- The first message of a key event moves the history on, and does nothing else.
pub first_message :
    (z : ℕ) (s : Surface) → midi_control_value_changed 0x0f z s ≡ shift_history 0x0f z s
unfolding midi_control_value_changed apply_key shift_history
first_message z s = rw (find_key-none s.later _ _ 0 switches table_no_second)

module _ (k : ℕ) (c : Control) (row : get_elem? switches k ≡ some c) (key : is_key c ≡ true) where
  decoded : decodes_at k c ≡ true
  decoded = decode_from_sound 0 k k switches c table_decodes row (omega arith) key

  pressed : find_key 0x0f c.cntrl1_value 0x2f c.cntrl2_pressed 0 switches ≡ some (k, 1)
  unfolding decodes_at
  pressed = found→eq k 1 _ (&&-split _ _ decoded).0

  released : find_key 0x0f c.cntrl1_value 0x2f c.cntrl2_released 0 switches ≡ some (k, 0)
  unfolding decodes_at
  released = found→eq k 0 _ (&&-split _ _ decoded).1

  shifted-numbers :
      (w z : ℕ) (s : Surface) {o : Option (ℕ × ℕ)}
      → find_key 0x0f z 0x2f w 0 switches ≡ o
      → let t = shift_history 0x2f w (shift_history 0x0f z s) in
        find_key t.earlier z t.later w 0 switches ≡ o
  unfolding shift_history
  shifted-numbers w z s e = e

  key_event :
      (w v : ℕ) (s : Surface)
      → find_key 0x0f c.cntrl1_value 0x2f w 0 switches ≡ some (k, v)
      → number_of_controls s ≡ 82
      → let t =
          midi_control_value_changed 0x2f w (midi_control_value_changed 0x0f c.cntrl1_value s) in
        (get_control_value k t ≡ some v) × (t.outputs ≡ control_changed k ∷ s.outputs)
  key_event w v s e h =
      let (a, b, r, split) = two_first 80 s.controlvalues h in
      let values = shifted-values c.cntrl1_value w s a b r split in
      let t = shift_history 0x2f w (shift_history 0x0f c.cntrl1_value s) in
      let moved : midi_control_value_changed 0x2f w (shift_history 0x0f c.cntrl1_value s)
          ≡ control_value_changed k v t =
        message-found 0x2f w _ t c.cntrl1_value w k v r refl values
          (shifted-numbers w c.cntrl1_value s e) in
      let (value, outputs) = control_value_changed-inside k v t (
        omega (
          arith,
          get_elem?-lt switches k c row,
          length-switches,
          ap length values,
          ap length split,
        )) in
      rw (first_message c.cntrl1_value s, moved)
        (
          value,
          outputs
              ∙ ap (◌∷◌ (control_changed k))
                  (shift_history-outputs _ _ _ ∙ shift_history-outputs _ _ _),
        )

  -- Every key of the table is decoded: on a surface with 82 controls, whatever it has received
  -- before, the two messages of a key's press set its control's value to 1, those of its release to
  -- 0, and each time the change of this control, and of no other, is announced.
  pub key_press_and_release :
      (s : Surface)
      → number_of_controls s ≡ 82
      → let first = midi_control_value_changed 0x0f c.cntrl1_value s in
        let down = midi_control_value_changed 0x2f c.cntrl2_pressed first in
        let up = midi_control_value_changed 0x2f c.cntrl2_released first in
        (get_control_value k down ≡ some 1)
        × (down.outputs ≡ control_changed k ∷ s.outputs)
        × (get_control_value k up ≡ some 0)
        × (up.outputs ≡ control_changed k ∷ s.outputs)
  key_press_and_release s h =
      let (down, told) = key_event c.cntrl2_pressed 1 s pressed h in
      let (up, told') = key_event c.cntrl2_released 0 s released h in (down, told, up, told')
