-- ===== src/ColourRotator/Tests.antt =====
-- src/colourrotator.cpp with natural numbers for floats.
use lucifer.Prelude.{
  ℕ, zero, suc, ◌+◌, ◌-◌, ◌*◌, ◌/◌, ◌≤◌, min, ◌≡◌, refl, ap, true, false, Option, none, some, List,
  [], ◌∷◌, arith, ltb, leb, ◌==◌, All,
}
use lucifer.Prelude.Int.{ℤ, pos, negsuc}
use Prim.Native.String.{String, [] as empty, ◌∷◌ as ◌∷ₛ◌}
use native.Mathlib.Nat.{div-le_self}
use lucifer.ColourRotator.{
  save, load, override_points, wrap_down, wrap_up, clamp_down, clamp_up, rotate_point,
  rotate_points, hsv_rotator, Qt, Point, ColourRotator, Playback,
}
use lucifer.ColourRotator.Frames.{next_frame, Child, Playing}
use lucifer.ColourRotator.Frames.Branches.{next_frame-returns}
use lucifer.ColourRotator.Laws.{Bounds}
use lucifer.ColourRotator.Codec.{load-save_rotator, ReadsBack}
use lucifer.ColourRotator.Rotate.{shape, IsHsv, IsPhase, hsv_rotator-returns}

-- A number as so many letters.
abbrev unary : ℕ → String
unary zero = ""
unary (suc n) = "I" ∷ₛ unary n

abbrev from_unary : String → ℕ
from_unary empty = 0
from_unary (c ∷ₛ s) = suc (from_unary s)

unary_back : (n : ℕ) → from_unary (unary n) ≡ n
unary_back zero = refl
unary_back (suc n) = ap suc (unary_back n)

abbrev natural : ℤ → ℕ
natural (pos n) = n
natural (negsuc n) = 0

abbrev component : ℕ → ℕ
component n = min n 255

-- Floats that count whole turns; a hue, saturation and brightness of 0 or 1.
abbrev turns : Qt
turns = record {
  Float = ℕ;
  nought = 0;
  whole = 1;
  add = λ x y. x + y;
  sub = λ x y. x - y;
  mul = λ x y. x * y;
  div = λ x y. x / y;
  gt = λ x y. ltb y x;
  lt = λ x y. ltb x y;
  ge = λ x y. leb y x;
  le = λ x y. leb x y;
  eq = λ x y. x == y;
  of_int = natural;
  number = λ z. unary (natural z);
  to_int = λ s. pos (from_unary s);
  number_of_float = unary;
  to_float = from_unary;
  Colour = ℕ × ℕ × ℕ;
  rgb = λ r g b. (natural r, natural g, natural b);
  get_rgb = λ c. (pos (component c.0), pos (component c.1), pos (component c.2));
  hsv = λ h s v. (255 * h, 255 * s, 255 * v);
  hue = λ c. min c.0 1;
  saturation = λ c. min c.1 1;
  brightness = λ c. min c.2 1;
  Vector = ℕ;
}

turns-ReadsBack : ReadsBack turns
turns-ReadsBack = record {
  number_back = λ n h. ap pos (unary_back n);
  red_byte = λ c. (component c.0, (refl, omega arith));
  green_byte = λ c. (component c.1, (refl, omega arith));
  blue_byte = λ c. (component c.2, (refl, omega arith));
}

not_above : (x : ℕ) → x ≤ 1 → ltb 1 x ≡ false
not_above x h = ground arith

above : (x : ℕ) → ltb 1 x ≡ false → x ≤ 1
above x h = ground arith

never_below : (x : ℕ) → ltb x 0 ≡ false
never_below x = ground arith

not_below_nought : (x : ℕ) → ltb x 0 ≡ true → x + 1 ≤ 1
not_below_nought x h = ground arith

product : (n x y : ℕ) → x ≤ 1 → y ≤ n → x * y ≤ n
product n zero y h l = omega arith
product n (suc zero) y h l = omega arith
product n (suc (suc x)) y h l = absurd (omega (arith, h))

quotient : (n k x : ℕ) → x ≤ n → x / suc k ≤ n
quotient n k x h = omega (arith, div-le_self x (suc k))

at_most_whole : (x : ℕ) → x ≤ 1 → leb x 1 ≡ true
at_most_whole x h = ground arith

at_least_nought : (x : ℕ) → leb 0 x ≡ true
at_least_nought x = ground arith

turns-Bounds : Bounds turns
turns-Bounds = record {
  IsBelow = λ n x. x ≤ n;
  IsAbove = λ n x. Unit;
  below_weaken = λ m n x h b. omega arith;
  above_weaken = λ m n x h a. _;
  below_whole = λ x b. not_above x b;
  not_gt-below = λ n x b e. above x e;
  above_nought = λ x a. never_below x;
  not_lt-above = λ n x a e. _;
  sub-below = λ n x l b. omega arith;
  sub-above = λ x e. _;
  add-whole-above = λ n x l a. _;
  add-whole-below = λ x e. not_below_nought x e;
  add-below = λ m n x y l b c. omega arith;
  add-above = λ m n x y l a c. _;
  mul-number = λ n x y l b a c d. (product n x y b c, _);
  div-number = λ n k x l b a. (quotient n k x b, _);
  whole-below = omega arith;
  whole-above = _;
  nought-below = omega arith;
  nought-above = _;
  ge-nought = λ x a. at_least_nought x;
  le-whole = λ x b. at_most_whole x b;
  hue-below = λ c. omega arith;
  hue-above = λ c. _;
  saturation-below = λ c. omega arith;
  saturation-above = λ c. _;
  brightness-below = λ c. omega arith;
  brightness-above = λ c. _;
}

-- Cyan pulses, an advance of one turn, and a turn for each of three points.
abbrev rotator : ColourRotator turns
rotator = record {
  pulse_colour = (0, 255, 255);
  pulse_dutycycle = 1;
  pulse_harmonic = 1;
  pulse_phase_advance = 1;
  rotate_h = true;
  rotate_s = false;
  rotate_v = true;
  rotate_harmonic = 3;
  rotate_phase_advance = 1;
  colour_override = true;
  override_colour = (255, 0, 255);
}

abbrev triangle : List (Point turns)
triangle =
    record { vector = 7; blanked = true; colour = (0, 0, 0) }
    ∷ record { vector = 8; blanked = false; colour = (255, 0, 0) }
    ∷ record { vector = 9; blanked = false; colour = (0, 255, 0) }
    ∷ []

-- A child that gives the triangle so many times.
abbrev counted : Child turns
counted = record { State = ℕ; next_frame = given; reset = λ n. 2 }
  where
    given : ℕ → Option (List (Point turns)) × ℕ
    given zero = (none, 0)
    given (suc n) = (some triangle, n)

abbrev start : Playback turns
start = record { pulser_start_phase = 0; rotator_start_phase = 0 }

load-save_rotator_example : load turns (save turns rotator) ≡ rotator
load-save_rotator_example =
    load-save_rotator turns turns-ReadsBack rotator refl refl refl refl refl refl refl

hsv_rotator-returns_example :
    (qs : List (Point turns)) × ((pb' : Playback turns) × ((hsv_rotator turns 20 rotator triangle
            start
          ≡ some (qs, pb'))
        × ((shape turns qs ≡ shape turns triangle)
            × (All (λ q. IsHsv turns turns-Bounds q.colour) qs
                × IsPhase turns turns-Bounds 1 pb'.rotator_start_phase))))
unfolding turns-Bounds
hsv_rotator-returns_example =
    hsv_rotator-returns turns turns-Bounds triangle 20 3 rotator start (omega arith) (omega arith)
      (omega arith) (omega arith, _) (omega arith, _) (omega arith, _)

next_frame-returns_example :
    (qs : List (Point turns)) × ((pb' : Playing turns counted) × ((next_frame turns counted 20 1
            rotator
            (record { own = start; below = 2 })
          ≡ some (some qs, pb'))
        × ((shape turns qs ≡ shape turns triangle)
            × ((pb'.below ≡ 1) × IsPhase turns turns-Bounds 1 pb'.own.rotator_start_phase))))
unfolding turns-Bounds
next_frame-returns_example =
    next_frame-returns turns turns-Bounds counted triangle 20 3 0 rotator
      (record { own = start; below = 2 }) 1 refl (omega arith, ((omega arith, _), (omega arith, _)))
      (omega arith) (omega arith) (omega arith, _)

-- The colours are turned by a phase of 0, 1 and 1.
turned :
    hsv_rotator turns 20 rotator (override_points turns rotator triangle) start
    ≡ some (
      record { vector = 7; blanked = true; colour = (255, 0, 0) }
          ∷ record { vector = 8; blanked = false; colour = (255, 0, 255) }
          ∷ record { vector = 9; blanked = false; colour = (255, 0, 255) }
          ∷ [],
      record start { rotator_start_phase = 1 },
    )
unfolding hsv_rotator rotate_points rotate_point wrap_down wrap_up clamp_down clamp_up
    override_points
turned = refl
