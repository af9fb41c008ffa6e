-- ===== src/ColourRotator.antt =====
-- colourrotator.cpp: the effect that changes the colours of its child's frames.
pub mod Codec
pub mod Laws
pub mod Frames
pub mod Rotate
mod Tests
use lucifer.Prelude.{
  ℕ, zero, suc, Bool, true, false, not, ◌&&◌, Option, none, some, List, [], ◌∷◌, map, if◌then◌else◌,
  length,
}
use lucifer.Prelude.Int.{ℤ, pos, eq_ℤ}
use Prim.Native.String.{String}
use lucifer.Prelude.Maybe.{◌>>=◌}
use lucifer.SourceTree.Xml.{Attributes, value}

-- What C++ does with a `float`, and Qt with colours and numbers. `double` is calculated like
-- `float`.
pub record Qt : Type 1 where
  pub Float : Type 0
  pub nought : Float
  pub whole : Float
  pub add : Float → Float → Float
  pub sub : Float → Float → Float
  pub mul : Float → Float → Float
  pub div : Float → Float → Float
  pub gt : Float → Float → Bool
  pub lt : Float → Float → Bool
  pub ge : Float → Float → Bool
  pub le : Float → Float → Bool
  pub eq : Float → Float → Bool
  pub of_int : ℤ → Float
  pub number : ℤ → String
  pub to_int : String → ℤ
  pub number_of_float : Float → String
  pub to_float : String → Float
  pub Colour : Type 0
  pub rgb : ℤ → ℤ → ℤ → Colour
  pub get_rgb : Colour → ℤ × ℤ × ℤ
  pub hsv : Float → Float → Float → Colour
  pub hue : Colour → Float
  pub saturation : Colour → Float
  pub brightness : Colour → Float
  -- `QVector3D`
  pub Vector : Type 0

module _ (Q : Qt) where
  open Q use {Float, Colour}

  pub record Point : Type 0 where
    pub vector : Q.Vector
    pub blanked : Bool
    pub colour : Colour

  pub record ColourRotator : Type 0 where
    pub pulse_colour : Colour
    pub pulse_dutycycle : Float
    pub pulse_harmonic : Float
    pub pulse_phase_advance : Float
    pub rotate_h : Bool
    pub rotate_s : Bool
    pub rotate_v : Bool
    pub rotate_harmonic : Float
    pub rotate_phase_advance : Float
    pub colour_override : Bool
    pub override_colour : Colour

  pub record Playback : Type 0 where
    pub pulser_start_phase : Float
    pub rotator_start_phase : Float

  -- The constructor.
  pub new_rotator : ColourRotator
  new_rotator = record {
    pulse_colour = Q.rgb (pos 255) (pos 255) (pos 0);
    pulse_dutycycle = Q.to_float "0.05";
    pulse_harmonic = Q.of_int (pos 5);
    pulse_phase_advance = Q.to_float "0.1";
    rotate_h = false;
    rotate_s = false;
    rotate_v = false;
    rotate_harmonic = Q.nought;
    rotate_phase_advance = Q.to_float "0.05";
    colour_override = false;
    override_colour = Q.rgb (pos 0) (pos 255) (pos 255);
  }

  -- A `bool` as an `int`, and an `int` as a `bool`.
  abbrev pub of_bool : Bool → ℤ
  of_bool true = pos 1
  of_bool false = pos 0

  abbrev pub to_bool : ℤ → Bool
  to_bool z = not (eq_ℤ z (pos 0))

  -- The attributes that it writes.
  pub save : ColourRotator → Attributes
  save c =
      let pulse = Q.get_rgb c.pulse_colour in
      let over = Q.get_rgb c.override_colour in
      ("Pulse_colour_r", Q.number pulse.0)
      ∷ ("Pulse_colour_g", Q.number pulse.1)
      ∷ ("Pulse_colour_b", Q.number pulse.2)
      ∷ ("Pulse_dutycycle", Q.number_of_float c.pulse_dutycycle)
      ∷ ("Pulse_harmonic", Q.number_of_float c.pulse_harmonic)
      ∷ ("Pulse_phase_advance", Q.number_of_float c.pulse_phase_advance)
      ∷ ("Rotate_H", Q.number (of_bool c.rotate_h))
      ∷ ("Rotate_S", Q.number (of_bool c.rotate_s))
      ∷ ("Rotate_V", Q.number (of_bool c.rotate_v))
      ∷ ("Rotate_harmonic", Q.number_of_float c.rotate_harmonic)
      ∷ ("Rotate_phase_advance", Q.number_of_float c.rotate_phase_advance)
      ∷ ("Colour_override", Q.number (of_bool c.colour_override))
      ∷ ("override_colour_r", Q.number over.0)
      ∷ ("override_colour_g", Q.number over.1)
      ∷ ("override_colour_b", Q.number over.2)
      ∷ []

  abbrev pub int_of : String → Attributes → ℤ
  int_of key e = Q.to_int (value key e)

  abbrev pub float_of : String → Attributes → Float
  float_of key e = Q.to_float (value key e)

  pub load : Attributes → ColourRotator
  load e = record {
    pulse_colour =
        Q.rgb (int_of "Pulse_colour_r" e) (int_of "Pulse_colour_g" e) (int_of "Pulse_colour_b" e);
    pulse_dutycycle = float_of "Pulse_dutycycle" e;
    pulse_harmonic = Q.of_int (int_of "Pulse_harmonic" e);
    pulse_phase_advance = float_of "Pulse_phase_advance" e;
    rotate_h = to_bool (int_of "Rotate_H" e);
    rotate_s = to_bool (int_of "Rotate_S" e);
    rotate_v = to_bool (int_of "Rotate_V" e);
    rotate_harmonic = Q.of_int (int_of "Rotate_harmonic" e);
    rotate_phase_advance = float_of "Rotate_phase_advance" e;
    colour_override = to_bool (int_of "Colour_override" e);
    override_colour =
        Q.rgb (int_of "override_colour_r" e) (int_of "override_colour_g" e)
          (int_of "override_colour_b" e);
  }

  -- `pt` after `copyDataTo (pt)`.
  pub copy_data_to : ColourRotator → ColourRotator → ColourRotator
  copy_data_to c pt = record {
    pulse_colour = c.pulse_colour;
    pulse_dutycycle = c.pulse_dutycycle;
    pulse_harmonic = c.pulse_harmonic;
    pulse_phase_advance = c.pulse_phase_advance;
    rotate_h = c.rotate_h;
    rotate_s = c.rotate_s;
    rotate_v = c.rotate_v;
    rotate_harmonic = c.rotate_harmonic;
    rotate_phase_advance = c.rotate_phase_advance;
    colour_override = pt.colour_override;
    override_colour = c.override_colour;
  }

  abbrev pub set_rgb : ℤ × ℤ × ℤ → Point → Point
  set_rgb c p = record p { colour = Q.rgb c.0 c.1 c.2 }

  -- `colourOverride`.
  pub override_points : ColourRotator → List Point → List Point
  override_points c frame =
      if c.colour_override then map (set_rgb (Q.get_rgb c.override_colour)) frame else frame

  -- The loops `while (h > 1.0f) h -= 1.0f`, `while (h < 0.0f) h += 1.0f`, `while (v > 1.0) v = 1.0`
  -- and `while (v < 0.0) v = 0.0`; `none` is fuel that ran out.
  pub wrap_down : ℕ → Float → Option Float
  wrap_down zero x = none
  wrap_down (suc fuel) x =
      let rest = wrap_down fuel (Q.sub x Q.whole) in if Q.gt x Q.whole then rest else some x

  pub wrap_up : ℕ → Float → Option Float
  wrap_up zero x = none
  wrap_up (suc fuel) x =
      let rest = wrap_up fuel (Q.add x Q.whole) in if Q.lt x Q.nought then rest else some x

  pub clamp_down : ℕ → Float → Option Float
  clamp_down zero x = none
  clamp_down (suc fuel) x =
      let rest = clamp_down fuel Q.whole in if Q.gt x Q.whole then rest else some x

  pub clamp_up : ℕ → Float → Option Float
  clamp_up zero x = none
  clamp_up (suc fuel) x =
      let rest = clamp_up fuel Q.nought in if Q.lt x Q.nought then rest else some x

  abbrev pub in_range : Float → Bool
  in_range x = Q.ge x Q.nought && Q.le x Q.whole

  -- `setHsvF`, unless the colour is out of range.
  abbrev pub set_hsv : Float → Float → Float → Point → Point
  set_hsv h s v p =
      if in_range h && (in_range v && in_range s) then record p { colour = Q.hsv h s v } else p

  abbrev pub when : Bool → (Float → Float) → Float → Float
  when b f x = if b then f x else x

  pub rotate_point : ℕ → ColourRotator → Float → Point → Option Point
  unfolding wrap_down wrap_up clamp_down clamp_up
  rotate_point fuel c phase p = do
    h' ← wrap_down fuel (when c.rotate_h (λ h. Q.add h phase) (Q.hue p.colour))
    h ← wrap_up fuel h'
    v' ← clamp_down fuel (when c.rotate_v (λ v. Q.mul v phase) (Q.brightness p.colour))
    v ← clamp_up fuel v'
    s' ← wrap_down fuel (when c.rotate_s (λ s. Q.add s phase) (Q.saturation p.colour))
    s ← wrap_up fuel s'
    some (set_hsv h s v p)

  abbrev pub once_down : Float → Float
  once_down phase = if Q.gt phase Q.whole then Q.sub phase Q.whole else phase

  abbrev pub once_up : Float → Float
  once_up phase = if Q.lt phase Q.nought then Q.add phase Q.whole else phase

  pub rotate_points : ℕ → ColourRotator → Float → Float → List Point → Option (List Point)
  unfolding rotate_point
  rotate_points fuel c phase_incr phase [] = some []
  rotate_points fuel c phase_incr phase (p ∷ ps) = do
    q ← rotate_point fuel c phase p
    qs ← rotate_points fuel c phase_incr (once_up (once_down (Q.add phase phase_incr))) ps
    some (q ∷ qs)

  abbrev pub count : List Point → Float
  count frame = Q.of_int (pos (length frame))

  -- `HSVRotator`.
  pub hsv_rotator : ℕ → ColourRotator → List Point → Playback → Option (List Point × Playback)
  unfolding rotate_points
  hsv_rotator fuel c [] pb = some ([], pb)
  hsv_rotator fuel c (p ∷ ps) pb = do
    let phase_incr = Q.div c.rotate_harmonic (count (p ∷ ps))
    frame ← rotate_points fuel c phase_incr pb.rotator_start_phase (p ∷ ps)
    let advanced = Q.add pb.rotator_start_phase c.rotate_phase_advance
    some (frame, record pb { rotator_start_phase = once_down advanced })

  -- One point of `colourPulse`.
  abbrev pub pulse_point : ColourRotator → Float → Point → Point
  pulse_point c phase pt =
      if Q.lt phase c.pulse_dutycycle && not pt.blanked
      then set_rgb (Q.get_rgb c.pulse_colour) pt
      else pt

  pub pulse_points : ColourRotator → Float → Float → List Point → List Point
  pulse_points c per_point_incr phase [] = []
  pulse_points c per_point_incr phase (pt ∷ pts) =
      pulse_point c phase pt
      ∷ pulse_points c per_point_incr (once_down (Q.add phase per_point_incr)) pts

  -- Whether a `float` is no zero.
  abbrev pub is_set : Float → Bool
  is_set x = not (Q.eq x Q.nought)

  -- `colourPulse`.
  pub colour_pulse : ColourRotator → List Point → Playback → List Point × Playback
  unfolding pulse_points
  colour_pulse c [] pb = ([], pb)
  colour_pulse c (p ∷ ps) pb =
      let per_point_incr = Q.mul (Q.div Q.whole (count (p ∷ ps))) c.pulse_harmonic in
      let pulsed = pulse_points c per_point_incr pb.pulser_start_phase (p ∷ ps) in
      let advanced = Q.add pb.pulser_start_phase c.pulse_phase_advance in
      if is_set c.pulse_harmonic
      then (pulsed, record pb { pulser_start_phase = once_up (once_down advanced) })
      else (p ∷ ps, pb)
