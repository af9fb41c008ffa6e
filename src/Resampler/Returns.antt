-- ===== src/Resampler/Returns.antt =====
-- `Resample::run` of src/resampler.cpp returns and reads only what was written.
use lucifer.Prelude.{
  ℕ, zero, suc, ◌+◌, ◌*◌, ◌/◌, ◌≤◌, ◌<◌, ◌≡◌, refl, ap, ◌∙◌, ◌⊎◌, inl, inr, some, List, [], ◌∷◌,
  ◌++◌, arith, length, take, drop, length-append, get_elem?-some, length-take, length-drop,
}
use lucifer.Resampler.{
  resample_sz, fill_input, read_output, process_block, run_blocks, run, Zita, PointF, Resample,
}

-- What `process` does: it goes on until the input or the room is used up, writes whole frames, and
-- `owed` is how many frames are still to come for so many frames of input, at most `most` for those
-- of a block.
pub record Processes (Z : Zita) : Type 0 where
  pub owed : Z.State → ℕ → ℕ
  pub most : ℕ
  pub bounded : (s : Z.State) (n : ℕ) → n ≤ resample_sz → owed s n ≤ most
  pub processed :
      (s : Z.State) (input : List Z.Float) (n : ℕ)
      → length input ≡ 5 * n
      → 0 < n
      → n ≤ resample_sz
      → let r = Z.process s input resample_sz in
        (m : ℕ) × ((k : ℕ) × ((length r.1.0 ≡ 5 * m)
            × ((m ≤ n)
                × ((length r.1.1 ≡ 5 * k)
                    × ((owed r.0 m + k ≤ owed s n) × ((m ≡ 0) ⊎ (k ≡ resample_sz)))))))

module _ (Z : Zita) where
  read_output-returns :
      (n i : ℕ) (written : List Z.Float)
      → i + n + 4 ≤ length written
      → (ps : List (PointF Z)) × ((read_output Z n i written ≡ some ps) × (length ps ≡ n))
  unfolding read_output
  read_output-returns zero i written h = ([], (refl, refl))
  read_output-returns (suc n) i written h =
      let (x, e0) = get_elem?-some written i (omega arith) in
      let (y, e1) = get_elem?-some written (i + 1) (omega arith) in
      let (r, e2) = get_elem?-some written (i + 2) (omega arith) in
      let (g, e3) = get_elem?-some written (i + 3) (omega arith) in
      let (b, e4) = get_elem?-some written (i + 4) (omega arith) in
      let (ps, (e, l)) = read_output-returns n (i + 1) written (omega arith) in
      (
        record { x = x; y = y; r = r; g = g; b = b } ∷ ps,
        (rw (e0, e1, e2, e3, e4, e) refl, omega (arith, l)),
      )

  -- All the points of k frames that were written.
  read_all :
      (k : ℕ) (written : List Z.Float)
      → length written ≡ 5 * k
      → (ps : List (PointF Z)) × ((read_output Z (length written / 5) 0 written ≡ some ps)
          × (length ps ≡ k))
  unfolding read_output
  read_all zero written l =
      let none_there : length written / 5 ≡ 0 = omega (arith, l) in
      ([], (ap (λ n. read_output Z n 0 written) none_there, refl))
  read_all (suc k) written l =
      let count : length written / 5 ≡ suc k = omega (arith, l) in
      let (ps, (e, n)) = read_output-returns (suc k) 0 written (omega (arith, l)) in
      (ps, (ap (λ m. read_output Z m 0 written) count ∙ e, n))

  length-fill_input : (ps : List Z.Point) → length (fill_input Z ps) ≡ 5 * length ps
  unfolding fill_input
  length-fill_input [] = omega arith
  length-fill_input (p ∷ ps) = omega (arith, length-fill_input ps)

  nothing_left :
      (fuel : ℕ) (input : List Z.Float) (s : Z.State)
      → 0 < fuel
      → length input ≡ 0
      → process_block Z fuel input s ≡ some ([], s)
  unfolding process_block
  nothing_left zero input s h l = ground arith
  nothing_left (suc fuel) [] s h l = refl
  nothing_left (suc fuel) (f ∷ input) s h l = absurd (omega (arith, l))

module _ (Z : Zita) (P : Processes Z) where
  process_block-returns :
      (fuel n : ℕ) (input : List Z.Float) (s : Z.State)
      → length input ≡ 5 * n
      → n ≤ resample_sz
      → P.owed s n + 1 < fuel
      → (ps : List (PointF Z)) × ((s' : Z.State) × ((process_block Z fuel input s ≡ some (ps, s'))
            × (length ps ≤ P.owed s n)))
  unfolding process_block
  process_block-returns zero n input s l small h = ground arith
  process_block-returns (suc fuel) n [] s l small h = ([], (s, (refl, omega arith)))
  process_block-returns (suc fuel) n (f ∷ input) s l small h =
      let (m, (k, (left, (fewer, (wrote, (due, used)))))) =
        P.processed s (f ∷ input) n l (omega (arith, l)) small in
      let r = Z.process s (f ∷ input) resample_sz in
      let (ps, (e, count)) = read_all Z k r.1.1 wrote in
      elim used [
        | inl all ↦
            let last = nothing_left Z fuel r.1.0 r.0 (omega arith) (omega (arith, left, all)) in
            (ps ++ [], (r.0, (rw (e, last) refl, omega (arith, length-append ps [], count, due))))
        | inr full ↦
            let (more, (s', (e', count'))) =
              process_block-returns fuel m r.1.0 r.0 left (omega (arith, fewer))
                (omega (arith, due, full)) in
            (
              ps ++ more,
              (s', (rw (e, e') refl, omega (arith, length-append ps more, count, count', due))),
            )
      ]

  run_blocks-returns :
      (blocks fuel : ℕ) (input : List Z.Point) (s : Z.State)
      → length input + resample_sz ≤ resample_sz * blocks
      → P.most + 1 < fuel
      → (ps : List (PointF Z)) × ((s' : Z.State) × ((run_blocks Z blocks fuel input s
              ≡ some (ps, s'))
            × (length ps ≤ P.most * blocks)))
  unfolding run_blocks
  run_blocks-returns zero fuel input s l h = absurd (omega (arith, l))
  run_blocks-returns (suc blocks) fuel [] s l h = ([], (s, (refl, omega arith)))
  run_blocks-returns (suc blocks) fuel (p ∷ input) s l h =
      let first = take resample_sz (p ∷ input) in
      let size = length-take resample_sz (p ∷ input) in
      let few : length first ≤ resample_sz = omega (arith, size) in
      let bound = P.bounded s (length first) few in
      let (ps, (s', (e, count))) =
        process_block-returns fuel (length first) (fill_input Z first) s (length-fill_input Z first)
          few (omega (arith, bound)) in
      let (more, (s'', (e', count'))) =
        run_blocks-returns blocks fuel (drop resample_sz (p ∷ input)) s'
          (omega (arith, length-drop resample_sz (p ∷ input))) h in
      (
        ps ++ more,
        (s'', (rw (e, e') refl, omega (arith, length-append ps more, count, count', bound))),
      )

  -- If `process` goes on until the input or the room is used up, writes whole frames, and owes at
  -- most `most` frames for a block, then `run` returns: its loops end, with one round of the outer
  -- one for each block of 1024 points and one more, and never a float is read that `process` did
  -- not just write. It gives at most `most` points for each of these rounds, and the rates are as
  -- they were.
  pub run-returns :
      (blocks fuel : ℕ) (input : List Z.Point) (s : Resample Z)
      → length input + resample_sz ≤ resample_sz * blocks
      → P.most + 1 < fuel
      → (ps : List (PointF Z)) × ((s' : Resample Z) × ((run Z blocks fuel input s ≡ some (ps, s'))
            × ((length ps ≤ P.most * blocks)
                × ((s'.input_pps ≡ s.input_pps) × (s'.output_pps ≡ s.output_pps)))))
  unfolding run
  run-returns blocks fuel input s l h =
      let (ps, (s', (e, count))) = run_blocks-returns blocks fuel input s.resampler l h in
      (ps, (record s { resampler = s' }, (rw e refl, (count, (refl, refl)))))
