-- ===== src/ColourRotator/Codec.antt =====
-- `load` after `save` of src/colourrotator.cpp.
use lucifer.Prelude.{ℕ, ◌^◌, ◌<◌, ◌≡◌, refl, Bool, true, false, List, arith}
use lucifer.Prelude.Int.{ℤ, pos}
use lucifer.ColourRotator.{
  new_rotator, of_bool, to_bool, save, load, copy_data_to, override_points, Qt, Point,
  ColourRotator,
}

-- A component of a colour.
abbrev pub IsByte : ℤ → Type 0
IsByte z = (n : ℕ) × ((z ≡ pos n) × (n < 256))

-- What `load` relies on in Qt: numbers that an `int` holds are read back as they are printed, and
-- the components of a colour are bytes.
pub record ReadsBack (Q : Qt) : Type 0 where
  pub number_back : (n : ℕ) → n < 2 ^ 31 → Q.to_int (Q.number (pos n)) ≡ pos n
  pub red_byte : (c : Q.Colour) → IsByte (Q.get_rgb c).0
  pub green_byte : (c : Q.Colour) → IsByte (Q.get_rgb c).1
  pub blue_byte : (c : Q.Colour) → IsByte (Q.get_rgb c).2

module _ (Q : Qt) where
  -- A float that its text is read back as, one that is read back as an integer, and a colour that
  -- its components give back.
  abbrev pub IsPrintable : Q.Float → Type 0
  IsPrintable x = Q.to_float (Q.number_of_float x) ≡ x

  abbrev pub IsWhole : Q.Float → Type 0
  IsWhole x = Q.of_int (Q.to_int (Q.number_of_float x)) ≡ x

  abbrev pub IsRgb : Q.Colour → Type 0
  IsRgb c = Q.rgb (Q.get_rgb c).0 (Q.get_rgb c).1 (Q.get_rgb c).2 ≡ c

  -- A rotator that `copyDataTo` copies into a new object, as `clone` does, is the original with its
  -- colour override off, so that it never overrides the colours of a frame.
  pub copy_forgets_override :
      (c : ColourRotator Q) (ps : List (Point Q))
      → let copied = copy_data_to Q c (new_rotator Q) in
        (copied ≡ record c { colour_override = false }) × (override_points Q copied ps ≡ ps)
  unfolding copy_data_to new_rotator override_points
  copy_forgets_override c ps = (refl, refl)

module _ (Q : Qt) (back : ReadsBack Q) where
  byte_back : (z : ℤ) → IsByte z → Q.to_int (Q.number z) ≡ z
  byte_back z (n, (e, h)) = rw (e) (back.number_back n (omega arith))

  bool_back : (b : Bool) → to_bool Q (Q.to_int (Q.number (of_bool Q b))) ≡ b
  bool_back true = rw (back.number_back 1 (omega arith)) refl
  bool_back false = rw (back.number_back 0 (omega arith)) refl

  colour_back :
      (c : Q.Colour)
      → IsRgb Q c
      → Q.rgb
          (Q.to_int (Q.number (Q.get_rgb c).0))
          (Q.to_int (Q.number (Q.get_rgb c).1))
          (Q.to_int (Q.number (Q.get_rgb c).2))
        ≡ c
  colour_back c e =
      rw
        (
          byte_back (Q.get_rgb c).0 (back.red_byte c),
          byte_back (Q.get_rgb c).1 (back.green_byte c),
          byte_back (Q.get_rgb c).2 (back.blue_byte c),
        )
        e

  -- If Qt reads back what it prints as `ReadsBack` says, a colour rotator is loaded as it was
  -- saved, provided that its colours are given back by their red, green and blue, that its duty
  -- cycle and its phase advances are floats that are read back as they are printed, and that its
  -- harmonics are, read as integers.
  pub load-save_rotator :
      (c : ColourRotator Q)
      → IsRgb Q c.pulse_colour
      → IsRgb Q c.override_colour
      → IsPrintable Q c.pulse_dutycycle
      → IsPrintable Q c.pulse_phase_advance
      → IsPrintable Q c.rotate_phase_advance
      → IsWhole Q c.pulse_harmonic
      → IsWhole Q c.rotate_harmonic
      → load Q (save Q c) ≡ c
  unfolding load save
  load-save_rotator c pulse over duty advance advance' harmonic harmonic' = λ i. record {
    pulse_colour = colour_back c.pulse_colour pulse i;
    pulse_dutycycle = duty i;
    pulse_harmonic = harmonic i;
    pulse_phase_advance = advance i;
    rotate_h = bool_back c.rotate_h i;
    rotate_s = bool_back c.rotate_s i;
    rotate_v = bool_back c.rotate_v i;
    rotate_harmonic = harmonic' i;
    rotate_phase_advance = advance' i;
    colour_override = bool_back c.colour_override i;
    override_colour = colour_back c.override_colour over i;
  }
