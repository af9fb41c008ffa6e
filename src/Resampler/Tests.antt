-- ===== src/Resampler/Tests.antt =====
-- src/resampler.cpp with a resampler that passes its input on.
use lucifer.Prelude.{
  ℕ, ◌+◌, ◌*◌, ◌≤◌, ◌≡◌, refl, inl, some, List, [], ◌∷◌, arith, ◌==◌, length, get_elem?, take, drop,
  length-take, length-drop,
}
use lucifer.Resampler.{
  resample_sz, fill_input, read_output, process_block, run, Zita, PointF, Resample,
}
use lucifer.Resampler.Returns.{run-returns, Processes}
use lucifer.Resampler.Overlap.{Shifts, process_block-overlaps}

-- A point is its x; frames are copied as long as there is room.
abbrev pass_on : Zita
pass_on = record {
  Float = ℕ;
  nought = 0;
  Point = ℕ;
  x_of = λ p. p;
  y_of = λ p. p + 1;
  red_of = λ p. p + 2;
  green_of = λ p. p + 3;
  blue_of = λ p. p + 4;
  is_blanked = λ p. p == 0;
  State = Unit;
  setup = λ a b. _;
  process = λ s input room. (_, (drop (5 * room) input, take (5 * room) input));
  gcd = λ a b. 1;
}

pass_on-Processes : Processes pass_on
pass_on-Processes = record {
  owed = λ s n. n;
  most = resample_sz;
  bounded = λ s n h. h;
  processed = λ s input n l some_there h. (
    0,
    (
      n,
      (
        omega (arith, length-drop (5 * resample_sz) input),
        (
          omega arith,
          (omega (arith, length-take (5 * resample_sz) input), (omega arith, inl refl)),
        ),
      ),
    ),
  );
}

abbrev at_30k : Resample pass_on
at_30k = record { resampler = _; input_pps = 30000; output_pps = 30000 }

run-returns_example :
    (ps : List (PointF pass_on)) × ((s' : Resample pass_on) × ((run pass_on 2 2000
            (10 ∷ 0 ∷ 20 ∷ [])
            at_30k
          ≡ some (ps, s'))
        × ((length ps ≤ resample_sz * 2) × ((s'.input_pps ≡ 30000) × (s'.output_pps ≡ 30000)))))
unfolding pass_on-Processes
run-returns_example =
    run-returns pass_on pass_on-Processes 2 2000 (10 ∷ 0 ∷ 20 ∷ []) at_30k (omega arith)
      (omega arith)

-- The floats of three points, of which the second is blanked, and the points made of them.
abbrev later_floats : List ℕ
later_floats = 11 ∷ 12 ∷ 13 ∷ 14 ∷ 0 ∷ 1 ∷ 0 ∷ 0 ∷ 0 ∷ 20 ∷ 21 ∷ 22 ∷ 23 ∷ 24 ∷ []

three_floats : fill_input pass_on (10 ∷ 0 ∷ 20 ∷ []) ≡ 10 ∷ later_floats
unfolding fill_input
three_floats = refl

abbrev overlapped : List (PointF pass_on)
overlapped =
    record { x = 10; y = 11; r = 12; g = 13; b = 14 }
    ∷ record { x = 11; y = 12; r = 13; g = 14; b = 0 }
    ∷ record { x = 12; y = 13; r = 14; g = 0; b = 1 }
    ∷ []

block_of_three : process_block pass_on 2 (10 ∷ later_floats) _ ≡ some (overlapped, _)
unfolding process_block read_output
block_of_three = refl

process_block-overlaps_example :
    (p : PointF pass_on) × ((q : PointF pass_on) × ((get_elem? overlapped 1 ≡ some p)
        × ((get_elem? overlapped 2 ≡ some q)
            × ((get_elem? (10 ∷ later_floats) 1 ≡ some p.x) × Shifts pass_on p q))))
process_block-overlaps_example =
    process_block-overlaps pass_on 1 1 10 later_floats _ (overlapped, _) block_of_three
      (omega arith)
