-- ===== src/PaIlda/Output.antt =====
-- The output buffer that `paCallback` of src/driver_portaudio_ilda.cpp fills.
use lucifer.Prelude.{
  ℕ, zero, suc, ◌+◌, ◌-◌, ◌*◌, ◌≤◌, ◌<◌, min, ◌≡◌, refl, sym, ap, ap₂, ◌∙◌, Option, none, some,
  List, [], ◌∷◌, ◌++◌, arith, length, take, replicate, All, length-append, length-replicate,
  length-take,
}
use lucifer.PaIlda.{sample, samples, pa_callback, CircularBuffer, PointF, PaIlda}
use lucifer.PaIlda.Queue.{rendered, pa_callback-plays, Holds}
use native.Mathlib.Nat.{mul-add}

abbrev pub IsWritten : {A : Type 0} → Option A → Type 0
IsWritten none = ⊥
IsWritten (some x) = Unit

append-Written :
    {A : Type 0}
    → (xs ys : List (Option A)) → All IsWritten xs
    → All IsWritten ys
    → All IsWritten (xs ++ ys)
append-Written [] ys h k = k
append-Written (x ∷ xs) ys h k = (h.0, append-Written xs ys h.1 k)

replicate-Written : {A : Type 0} → (n : ℕ) (a : A) → All IsWritten (replicate n (some a))
replicate-Written zero a = _
replicate-Written (suc n) a = (_, replicate-Written n a)

module _ (Float : Type 0) (C : CircularBuffer (PointF Float)) (H : Holds C) (silence : Float)
    (intensity : Float → Float → Float → Float) where
  sample-Written :
      (j : ℕ) (p : PointF Float) → j < 6 → IsWritten (sample Float C silence intensity j p)
  unfolding sample
  sample-Written j p h = ground arith

  samples-Written :
      (n j : ℕ) (p : PointF Float)
      → j + n ≤ 6
      → All IsWritten (samples Float C silence intensity n j p)
  unfolding samples
  samples-Written zero j p h = _
  samples-Written (suc n) j p h =
      (sample-Written j p (omega arith), samples-Written n (suc j) p (omega arith))

  length-samples :
      (n j : ℕ) (p : PointF Float) → length (samples Float C silence intensity n j p) ≡ n
  unfolding samples
  length-samples zero j p = refl
  length-samples (suc n) j p = ap suc (length-samples n (suc j) p)

  rendered-Written :
      (channels : ℕ) (ps : List (PointF Float))
      → channels ≤ 6
      → All IsWritten (rendered Float C H silence intensity channels ps)
  rendered-Written channels [] h = _
  rendered-Written channels (p ∷ ps) h =
      append-Written (samples Float C silence intensity channels 0 p)
        (rendered Float C H silence intensity channels ps)
        (samples-Written channels 0 p (omega arith)) (rendered-Written channels ps h)

  length-rendered :
      (channels : ℕ) (ps : List (PointF Float))
      → length (rendered Float C H silence intensity channels ps) ≡ channels * length ps
  length-rendered channels [] = omega arith
  length-rendered channels (p ∷ ps) =
      length-append (samples Float C silence intensity channels 0 p)
        (rendered Float C H silence intensity channels ps)
      ∙ ap₂ (λ m n. m + n) (length-samples channels 0 p) (length-rendered channels ps)
      ∙ omega arith

  -- On at most six channels, the callback writes all the floats of its output buffer, as many for
  -- each of the frames asked for as there are channels, and no other, however few points there are.
  pub pa_callback-fills :
      (frames : ℕ) (d : PaIlda Float C)
      → d.channels ≤ 6
      → (out : List (Option Float)) × (d' : PaIlda Float C) × (pa_callback Float C silence intensity
            frames d
          ≡ some (out, d'))
        × (length out ≡ d.channels * frames)
        × All IsWritten out
  pa_callback-fills frames d h =
      let points = H.contents d.ringbuffer in
      let heard = rendered Float C H silence intensity d.channels (take frames points) in
      let rest = frames - length points in
      let quiet = replicate (d.channels * rest) (some silence) in
      let (q, (done, kept)) = pa_callback-plays Float C H silence intensity frames d in
      (
        heard ++ quiet,
        record d { ringbuffer = q },
        done,
        length-append heard quiet
            ∙ ap₂ (λ m n. m + n)
                (length-rendered d.channels (take frames points)
                  ∙ ap (λ k. d.channels * k) (length-take frames points))
                (length-replicate (d.channels * rest) (some silence))
            ∙ (sym (mul-add d.channels (min frames (length points)) rest)
                ∙ ap (λ k. d.channels * k) (omega arith)),
        append-Written heard quiet (rendered-Written d.channels (take frames points) h)
            (replicate-Written (d.channels * rest) silence),
      )
