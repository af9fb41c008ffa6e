-- ===== src/Resampler.antt =====
-- resampler.cpp: points to the rate of the hardware. `none` is a read outside what was written, or
-- fuel that ran out.
pub mod Returns
pub mod Overlap
mod Tests
use lucifer.Prelude.{
  ℕ, zero, suc, ◌+◌, ◌/◌, Bool, Option, none, some, List, [], ◌∷◌, ◌++◌, if◌then◌else◌, length,
  get_elem?, take, drop,
}
use lucifer.Prelude.Maybe.{◌>>=◌}

-- The points, and zita-resampler: `setup` for a ratio, and `process`, which takes floats that are
-- left, with room for a number of frames of five, and gives its state, the floats that are then
-- left, and those that it wrote.
pub record Zita : Type 1 where
  pub Float : Type 0
  pub nought : Float
  pub Point : Type 0
  pub x_of : Point → Float
  pub y_of : Point → Float
  pub red_of : Point → Float
  pub green_of : Point → Float
  pub blue_of : Point → Float
  pub is_blanked : Point → Bool
  pub State : Type 0
  pub setup : ℕ → ℕ → State
  pub process : State → List Float → ℕ → State × (List Float × List Float)
  pub gcd : ℕ → ℕ → ℕ

abbrev pub resample_sz : ℕ
resample_sz = 1024

module _ (Z : Zita) where
  open Z use {Float, State}

  pub record PointF : Type 0 where
    pub x : Float
    pub y : Float
    pub r : Float
    pub g : Float
    pub b : Float

  pub record Resample : Type 0 where
    pub resampler : State
    pub input_pps : ℕ
    pub output_pps : ℕ

  pub set_resampler : Resample → Resample
  set_resampler s =
      let divisor = Z.gcd s.input_pps s.output_pps in
      record s { resampler = Z.setup (s.input_pps / divisor) (s.output_pps / divisor) }

  pub set_input_pps : ℕ → Resample → Resample
  unfolding set_resampler
  set_input_pps pps s = set_resampler (record s { input_pps = pps })

  pub set_output_pps : ℕ → Resample → Resample
  unfolding set_resampler
  set_output_pps pps s = set_resampler (record s { output_pps = pps })

  abbrev pub lit : Z.Point → Float → Float
  lit p c = if Z.is_blanked p then Z.nought else c

  -- What a block of points is in the buffer `input_buffer`.
  pub fill_input : List Z.Point → List Float
  fill_input [] = []
  fill_input (p ∷ ps) =
      Z.x_of p
      ∷ Z.y_of p
      ∷ lit p (Z.red_of p)
      ∷ lit p (Z.green_of p)
      ∷ lit p (Z.blue_of p)
      ∷ fill_input ps

  -- The loop that reads n points from the floats written, from the index i on.
  pub read_output : ℕ → ℕ → List Float → Option (List PointF)
  read_output zero i written = some []
  read_output (suc n) i written = do
    x ← get_elem? written i
    y ← get_elem? written (i + 1)
    r ← get_elem? written (i + 2)
    g ← get_elem? written (i + 3)
    b ← get_elem? written (i + 4)
    ps ← read_output n (i + 1) written
    some (record { x = x; y = y; r = r; g = g; b = b } ∷ ps)

  -- `while (resampler.inp_count > 0)`: five floats are a frame.
  pub process_block : ℕ → List Float → State → Option (List PointF × State)
  unfolding read_output
  process_block zero input s = none
  process_block (suc fuel) [] s = some ([], s)
  process_block (suc fuel) (f ∷ input) s = do
    let (s', (left, written)) = Z.process s (f ∷ input) resample_sz
    ps ← read_output (length written / 5) 0 written
    (more, s'') ← process_block fuel left s'
    some (ps ++ more, s'')

  -- The outer loop, block for block.
  pub run_blocks : ℕ → ℕ → List Z.Point → State → Option (List PointF × State)
  unfolding process_block fill_input
  run_blocks zero fuel input s = none
  run_blocks (suc blocks) fuel [] s = some ([], s)
  run_blocks (suc blocks) fuel (p ∷ input) s = do
    (ps, s') ← process_block fuel (fill_input (take resample_sz (p ∷ input))) s
    (more, s'') ← run_blocks blocks fuel (drop resample_sz (p ∷ input)) s'
    some (ps ++ more, s'')

  pub run : ℕ → ℕ → List Z.Point → Resample → Option (List PointF × Resample)
  unfolding run_blocks
  run blocks fuel input s = do
    (ps, s') ← run_blocks blocks fuel input s.resampler
    some (ps, record s { resampler = s' })
