-- ===== src/ColourRotator/Frames/Branches.antt =====
-- `nextFrame` of src/colourrotator.cpp, whether there is a child and whether it gives a frame.
use lucifer.Prelude.{
  ℕ, suc, ◌*◌, ◌^◌, ◌<◌, ◌≡◌, refl, sym, ap, ap₂, subst, ◌∙◌, inl, inr, false, not, ◌&&◌, none,
  some, List, [], ◌∷◌, map, arith, ◌==◌, Bool-cases, length,
}
use lucifer.ColourRotator.{
  set_rgb, override_points, once_down, pulse_point, pulse_points, is_set, colour_pulse, Qt, Point,
  ColourRotator, Playback,
}
use lucifer.ColourRotator.Frames.{reset, change_colours, next_frame, Child, Playing}
use lucifer.ColourRotator.Laws.{Bounds}
use lucifer.ColourRotator.Rotate.{place, shape, length-shape, IsPhase, hsv_rotator-returns}

module _ (Q : Qt) where
  shape-override :
      (c : ColourRotator Q) (ps : List (Point Q)) → shape Q (override_points Q c ps) ≡ shape Q ps
  unfolding override_points
  shape-override c ps = elim (Bool-cases c.colour_override) [
    | inl e ↦ rw e (recoloured ps)
    | inr e ↦ rw e refl
  ]
    where
      recoloured :
          (us : List (Point Q))
          → shape Q (map (set_rgb Q (Q.get_rgb c.override_colour)) us) ≡ shape Q us
      recoloured [] = refl
      recoloured (u ∷ us) = ap (λ rest. place Q u ∷ rest) (recoloured us)

  place-pulse :
      (c : ColourRotator Q) (phase : Q.Float) (p : Point Q)
      → place Q (pulse_point Q c phase p) ≡ place Q p
  place-pulse c phase p = elim (Bool-cases (Q.lt phase c.pulse_dutycycle && not p.blanked)) [
    | inl e ↦ rw e refl
    | inr e ↦ rw e refl
  ]

  shape-pulse_points :
      (c : ColourRotator Q) (incr phase : Q.Float) (ps : List (Point Q))
      → shape Q (pulse_points Q c incr phase ps) ≡ shape Q ps
  unfolding pulse_points
  shape-pulse_points c incr phase [] = refl
  shape-pulse_points c incr phase (p ∷ ps) =
      ap₂ (λ a bs. a ∷ bs) (place-pulse c phase p)
        (shape-pulse_points c incr (once_down Q (Q.add phase incr)) ps)

  colour_pulse_keeps :
      (c : ColourRotator Q) (ps : List (Point Q)) (pb : Playback Q)
      → let r = colour_pulse Q c ps pb in
        (shape Q r.0 ≡ shape Q ps) × (r.1.rotator_start_phase ≡ pb.rotator_start_phase)
  unfolding colour_pulse
  colour_pulse_keeps c [] pb = (refl, refl)
  colour_pulse_keeps c (p ∷ ps) pb = elim (Bool-cases (is_set Q c.pulse_harmonic)) [
    | inl e ↦ rw e (shape-pulse_points c _ pb.pulser_start_phase (p ∷ ps), refl)
    | inr e ↦ rw e (refl, refl)
  ]

module _ (Q : Qt) (B : Bounds Q) (child : Child Q) where
  -- The rotator's own numbers that the dials set: the harmonic is at most n.
  abbrev pub Turns : ℕ → ColourRotator Q → Type 0
  Turns n c = (0 < n) × (IsPhase Q B n c.rotate_harmonic × IsPhase Q B 1 c.rotate_phase_advance)

  change_colours-returns :
      (ps : List (Point Q)) (fuel n : ℕ) (c : ColourRotator Q) (pb : Playback Q)
      → Turns n c
      → suc (length ps * n) < fuel
      → suc (suc (length ps * n)) < 2 ^ 24
      → IsPhase Q B 1 pb.rotator_start_phase
      → (qs : List (Point Q)) × ((pb' : Playback Q) × ((change_colours Q child fuel c ps pb
              ≡ some (qs, pb'))
            × ((shape Q qs ≡ shape Q ps) × IsPhase Q B 1 pb'.rotator_start_phase)))
  unfolding change_colours
  change_colours-returns ps fuel n c pb (z, (h, a)) f l ph =
      let over = override_points Q c ps in
      let same = shape-override Q c ps in
      let long = length-shape Q over ps same in
      let (rotated, (pb', (e, (same', (all_hsv, ph'))))) =
        hsv_rotator-returns Q B over fuel n c pb z (rw long f) (rw long l) h a ph in
      let (same'', kept) = colour_pulse_keeps Q c rotated pb' in
      let pulsed = colour_pulse Q c rotated pb' in
      (
        pulsed.0,
        (pulsed.1, (rw e refl, (same'' ∙ same' ∙ same, subst (IsPhase Q B 1) (sym kept) ph'))),
      )

  -- If floats and colours keep to `Bounds`, the harmonic is between 0 and a positive n, and the
  -- phase of the playback and its advance are between 0 and 1, `nextFrame` on a frame of the child
  -- returns, with more rounds for a loop than one and n for every point, fewer than 2^24 in all: a
  -- frame of as many points, in the same places and blanked where they were. The child's playback
  -- is as the child left it, and the phase is between 0 and 1 again, for the next call.
  pub next_frame-returns :
      (ps : List (Point Q)) (fuel n k : ℕ) (c : ColourRotator Q) (pb : Playing Q child)
      (s : child.State)
      → child.next_frame pb.below ≡ (some ps, s)
      → Turns n c
      → suc (length ps * n) < fuel
      → suc (suc (length ps * n)) < 2 ^ 24
      → IsPhase Q B 1 pb.own.rotator_start_phase
      → (qs : List (Point Q)) × ((pb' : Playing Q child) × ((next_frame Q child fuel (suc k) c pb
              ≡ some (some qs, pb'))
            × ((shape Q qs ≡ shape Q ps)
                × ((pb'.below ≡ s) × IsPhase Q B 1 pb'.own.rotator_start_phase))))
  unfolding next_frame
  next_frame-returns ps fuel n k c pb s e turns f l ph =
      let some_child : (suc k == 0) ≡ false = ground arith in
      let (qs, (own, (e', (same, ph')))) = change_colours-returns ps fuel n c pb.own turns f l ph in
      (qs, (record { own = own; below = s }, (rw (some_child, e, e') refl, (same, (refl, ph')))))

module _ (Q : Qt) (child : Child Q) where
  -- Without a child, or when the only child has no frame, `nextFrame` returns no frame whatever the
  -- fuel; in the first case the phases start again and the child's playback is not touched, in the
  -- second the child is reset once and the phases go on.
  pub next_frame-ends :
      (fuel : ℕ) (c : ColourRotator Q) (pb : Playing Q child) (s : child.State)
      → child.next_frame pb.below ≡ (none, s)
      → (next_frame Q child fuel 0 c pb
          ≡ some (
            none,
            record {
              own = record { pulser_start_phase = Q.nought; rotator_start_phase = Q.nought };
              below = pb.below;
            },
          ))
        × (next_frame Q child fuel 1 c pb
            ≡ some (none, record { own = pb.own; below = child.reset s }))
  unfolding next_frame reset
  next_frame-ends fuel c pb s e = (refl, rw e refl)
