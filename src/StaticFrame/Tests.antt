-- ===== src/StaticFrame/Tests.antt =====
-- The static frame of src/staticframe.cpp on small inputs.
use lucifer.Prelude.{
  ℕ, zero, suc, ◌+◌, ◌-◌, ◌≡◌, refl, ap, ap₂, ◌∙◌, true, false, List, [], ◌∷◌, ◌++◌, arith,
  if◌then◌else◌,
}
use Prim.Native.String.{String, [] as empty, ◌∷◌ as ◌∷ₛ◌}
use text.Mathlib.Text.{◌==◌ as str_eq}
use lucifer.SourceTree.Xml.{start_element, end_element, characters}
use lucifer.StaticFrame.{
  encode_point, encode_points, save, load, reset, IldaPoint, Qt, StaticFrame, Playback,
}
use lucifer.StaticFrame.Codec.{load-save, Fits, ReadsBack}
use lucifer.StaticFrame.Repeats.{draws, drawn_once_per_repeat}

-- A number as so many letters, and bytes as numbers with a stop behind each.
abbrev unary : ℕ → String
unary zero = ""
unary (suc n) = "I" ∷ₛ unary n

abbrev from_unary : String → ℕ
from_unary empty = 0
from_unary (c ∷ₛ s) = suc (from_unary s)

unary_back : (n : ℕ) → from_unary (unary n) ≡ n
unary_back zero = refl
unary_back (suc n) = ap suc (unary_back n)

abbrev counted : ℕ → String → String
counted zero s = "." ∷ₛ s
counted (suc n) s = "I" ∷ₛ counted n s

abbrev stopped : List ℕ → String
stopped [] = ""
stopped (b ∷ bs) = counted b (stopped bs)

-- Reads on, with so many letters since the last stop.
abbrev from_stopped : ℕ → String → List ℕ
from_stopped n empty = []
from_stopped n (c ∷ₛ s) =
    let rest = from_stopped (suc n) s in
    let others = from_stopped 0 s in if str_eq (c ∷ₛ "") "." then n ∷ others else rest

counted_back : (n b : ℕ) (s : String) → from_stopped n (counted b s) ≡ (n + b) ∷ from_stopped 0 s
counted_back n zero s = ap (λ m. m ∷ from_stopped 0 s) (omega arith)
counted_back n (suc b) s = counted_back (suc n) b s ∙ ap (λ m. m ∷ from_stopped 0 s) (omega arith)

stopped_back : (bs : List ℕ) → from_stopped 0 (stopped bs) ≡ bs
stopped_back [] = refl
stopped_back (b ∷ bs) =
    counted_back 0 b (stopped bs) ∙ ap₂ (λ m ms. m ∷ ms) (omega arith) (stopped_back bs)

abbrev plain : Qt
plain = record {
  Float = ℕ;
  number = unary;
  to_number = from_unary;
  number_of_float = unary;
  to_float = from_unary;
  to_base64 = stopped;
  from_base64 = from_stopped 0;
}

plain-ReadsBack : ReadsBack plain
plain-ReadsBack = record { number_back = λ n h. unary_back n; bytes_back = λ bs h. stopped_back bs }

-- A corner of the picture, lit red: -32768 and 32767.
abbrev corner : IldaPoint
corner = record { x = 32768; y = 32767; z = 0; blanked = false; r = 255; g = 0; b = 0 }

abbrev one_corner : StaticFrame plain
one_corner = record {
  data_points = corner ∷ [];
  repeats = 2;
  dewell = 100;
  use_dewell = true;
  scale = 1;
  geometry = record {
    column0 = record { row0 = 1; row1 = 2; row2 = 3; row3 = 4 };
    column1 = record { row0 = 5; row1 = 6; row2 = 7; row3 = 8 };
    column2 = record { row0 = 9; row1 = 10; row2 = 11; row3 = 12 };
    column3 = record { row0 = 13; row1 = 14; row2 = 15; row3 = 16 };
  };
}

corner_bytes : encode_points (corner ∷ []) ≡ 128 ∷ 0 ∷ 127 ∷ 255 ∷ 0 ∷ 0 ∷ 255 ∷ 0 ∷ 0 ∷ 0 ∷ []
unfolding encode_points encode_point
corner_bytes = refl

corner-Fits : Fits corner
corner-Fits = record {
  x_fits = omega arith;
  y_fits = omega arith;
  z_fits = omega arith;
  r_fits = omega arith;
  g_fits = omega arith;
  b_fits = omega arith;
}

load-save_example :
    load plain (
      start_element "FrameSource" (save plain one_corner).0
        ∷ characters "indent"
        ∷ (save plain one_corner).1
      ++ (end_element "FrameSource" ∷ []))
    ≡ one_corner
load-save_example =
    load-save plain plain-ReadsBack one_corner "FrameSource" (characters "indent" ∷ [])
      (end_element "FrameSource" ∷ []) (refl, (refl, _)) (corner-Fits, _) (omega arith)
      (omega arith) refl
      (
        (refl, refl, refl, refl),
        (refl, refl, refl, refl),
        (refl, refl, refl, refl),
        (refl, refl, refl, refl),
      )

abbrev idle : Playback
idle = record { active = false; dewell_start = 0; repeats_done = 7 }

drawn_once_per_repeat_example :
    let r = draws (λ a b. b - a) 100 2 (10 ∷ 20 ∷ 30 ∷ []) (reset (λ a b. b - a) 5 idle) in
    (r.0 ≡ true ∷ true ∷ false ∷ []) × (r.1.active ≡ true) × (r.1.repeats_done ≡ 0)
drawn_once_per_repeat_example =
    drawn_once_per_repeat (λ a b. b - a) 100 2 5 (10 ∷ 20 ∷ []) 30 idle refl (omega arith)
