-- ===== src/ColourRotator/Rotate.antt =====
-- `HSVRotator` of src/colourrotator.cpp: its loops end, and no colour is out of range.
use lucifer.Prelude.{
  ℕ, suc, ◌+◌, ◌*◌, ◌^◌, ◌<◌, ◌≡◌, refl, sym, ap, ap₂, subst, ◌∙◌, inl, inr, Bool, true, false,
  some, List, [], ◌∷◌, map, arith, Bool-cases, length, All, length-map,
}
use lucifer.ColourRotator.{
  wrap_down, wrap_up, in_range, when, rotate_point, once_down, once_up, rotate_points, count,
  hsv_rotator, Qt, Point, ColourRotator, Playback,
}
use lucifer.ColourRotator.Laws.{
  IsUnit, wrap_down-returns, wrap_up-returns, clamp_down-returns, clamp_up_keeps, Bounds,
}

module _ (Q : Qt) where
  -- Where a point is, and whether it is blanked.
  abbrev pub place : Point Q → Q.Vector × Bool
  place p = (p.vector, p.blanked)

  abbrev pub shape : List (Point Q) → List (Q.Vector × Bool)
  shape ps = map place ps

  pub length-shape : (ps qs : List (Point Q)) → shape ps ≡ shape qs → length ps ≡ length qs
  length-shape ps qs e = sym (length-map ps place) ∙ ap length e ∙ length-map qs place

module _ (Q : Qt) (B : Bounds Q) where
  -- A colour that `setHsvF` gives for a hue, a saturation and a brightness between 0 and 1.
  pub IsHsv : Q.Colour → Type 0
  IsHsv c =
      (h : Q.Float) × ((s : Q.Float) × ((v : Q.Float) × (IsUnit Q B h
            × (IsUnit Q B s × (IsUnit Q B v × (c ≡ Q.hsv h s v))))))

  abbrev pub IsPhase : ℕ → Q.Float → Type 0
  IsPhase n x = B.IsBelow n x × B.IsAbove 0 x

  in_range-unit : (x : Q.Float) → IsUnit Q B x → in_range Q x ≡ true
  in_range-unit x (b, a) = rw (B.ge-nought x a, B.le-whole x b) refl

  settle :
      (fuel n : ℕ) (x : Q.Float)
      → n < fuel
      → 1 < fuel
      → n < 2 ^ 24
      → B.IsBelow (suc n) x
      → B.IsAbove 1 x
      → (y : Q.Float) × ((z : Q.Float) × ((wrap_down Q fuel x ≡ some y)
            × ((wrap_up Q fuel y ≡ some z) × IsUnit Q B z)))
  settle fuel n x f g l b a =
      let (y, (e, (below, above))) = wrap_down-returns Q B fuel n 1 x f l b a in
      let (z, (e', in_unit)) = wrap_up-returns Q B fuel 1 y g (omega arith) below above in
      (y, (z, (e, (e', in_unit))))

  shifted :
      (b : Bool) (n : ℕ) (x phase : Q.Float)
      → suc n < 2 ^ 24
      → B.IsBelow 1 x
      → B.IsAbove 1 x
      → IsPhase n phase
      → B.IsBelow (suc n) (when Q b (λ h. Q.add h phase) x)
        × B.IsAbove 1 (when Q b (λ h. Q.add h phase) x)
  shifted true n x phase l b a (pb, pa) =
      let total : 1 + n ≡ suc n = omega arith in
      (
        subst (λ k. B.IsBelow k (Q.add x phase)) total (B.add-below 1 n x phase (omega arith) b pb),
        B.add-above 1 0 x phase (omega arith) a pa,
      )
  shifted false n x phase l b a p = (B.below_weaken 1 (suc n) x (omega arith) b, a)

  scaled :
      (b : Bool) (n : ℕ) (x phase : Q.Float)
      → 0 < n
      → n < 2 ^ 24
      → IsUnit Q B x
      → IsPhase n phase
      → IsPhase n (when Q b (λ v. Q.mul v phase) x)
  scaled true n x phase z l (b, a) (pb, pa) = B.mul-number n x phase l b a pb pa
  scaled false n x phase z l (b, a) p = (B.below_weaken 1 n x (omega arith) b, a)

  rotate_point-returns :
      (fuel n : ℕ) (c : ColourRotator Q) (phase : Q.Float) (p : Point Q)
      → 0 < n
      → n < fuel
      → suc n < 2 ^ 24
      → IsPhase n phase
      → (q : Point Q) × ((rotate_point Q fuel c phase p ≡ some q)
          × ((place Q q ≡ place Q p) × IsHsv q.colour))
  unfolding rotate_point IsHsv
  rotate_point-returns fuel n c phase p z f l ph =
      let (hb, ha) =
        shifted c.rotate_h n (Q.hue p.colour) phase l (B.hue-below p.colour) (B.hue-above p.colour)
          ph in
      let (h', (h, (h1, (h2, h_unit)))) =
        settle fuel n (when Q c.rotate_h (λ h. Q.add h phase) (Q.hue p.colour)) f (omega arith)
          (omega arith) hb ha in
      let (sb, sa) =
        shifted c.rotate_s n (Q.saturation p.colour) phase l (B.saturation-below p.colour)
          (B.above_weaken 0 1 (Q.saturation p.colour) (omega arith) (B.saturation-above p.colour))
          ph in
      let (s', (s, (s1, (s2, s_unit)))) =
        settle fuel n (when Q c.rotate_s (λ s. Q.add s phase) (Q.saturation p.colour)) f
          (omega arith) (omega arith) sb sa in
      let (vb, va) =
        scaled c.rotate_v n (Q.brightness p.colour) phase z (omega arith)
          (B.brightness-below p.colour, B.brightness-above p.colour) ph in
      let (v, (v1, v_unit)) =
        clamp_down-returns Q B fuel n
          (when Q c.rotate_v (λ v. Q.mul v phase) (Q.brightness p.colour)) (omega arith) vb va in
      let v2 = clamp_up_keeps Q B fuel v (omega arith) v_unit.1 in
      (
        record p { colour = Q.hsv h s v },
        (
          rw
              (
                h1,
                h2,
                v1,
                v2,
                s1,
                s2,
                in_range-unit h h_unit,
                in_range-unit s s_unit,
                in_range-unit v v_unit,
              )
              refl,
          (refl, (h, (s, (v, (h_unit, (s_unit, (v_unit, refl))))))),
        ),
      )

  -- The phase of the next point.
  advanced-IsPhase :
      (m n : ℕ) (phase incr : Q.Float)
      → m + n < 2 ^ 24
      → 0 < n
      → IsPhase m phase
      → IsPhase n incr
      → IsPhase (m + n) (once_up Q (once_down Q (Q.add phase incr)))
  advanced-IsPhase m n phase incr l z (pb, pa) (ib, ia) =
      let total = Q.add phase incr in
      let below = B.add-below m n phase incr l pb ib in
      let above = B.add-above 0 0 phase incr (omega arith) pa ia in
      elim (Bool-cases (Q.gt total Q.whole)) [
        | inl e ↦
            let above' = B.sub-above total e in
            rw (e, B.above_nought (Q.sub total Q.whole) above')
              (
                B.sub-below (m + n) total l
                    (B.below_weaken (m + n) (suc (m + n)) total (omega arith) below),
                above',
              )
        | inr e ↦ rw (e, B.above_nought total above) (below, above)
      ]

  rotate_points-returns :
      (ps : List (Point Q)) (fuel m n : ℕ) (c : ColourRotator Q) (incr phase : Q.Float)
      → 0 < m
      → 0 < n
      → m + length ps * n < fuel
      → suc (m + length ps * n) < 2 ^ 24
      → IsPhase n incr
      → IsPhase m phase
      → (qs : List (Point Q)) × ((rotate_points Q fuel c incr phase ps ≡ some qs)
          × ((shape Q qs ≡ shape Q ps) × All (λ q. IsHsv q.colour) qs))
  unfolding rotate_points
  rotate_points-returns [] fuel m n c incr phase y z f l i ph = ([], (refl, (refl, _)))
  rotate_points-returns (p ∷ ps) fuel m n c incr phase y z f l i ph =
      let more : suc (length ps) * n ≡ n + length ps * n = omega arith in
      let (q, (e, (same, is_hsv))) =
        rotate_point-returns fuel m c phase p y (omega arith) (omega arith) ph in
      let (qs, (e', (all_same, all_hsv))) =
        rotate_points-returns ps fuel (m + n) n c incr (once_up Q (once_down Q (Q.add phase incr)))
          (omega arith) z (omega (arith, more)) (omega (arith, more)) i
          (advanced-IsPhase m n phase incr (omega (arith, more)) z ph i) in
      (q ∷ qs, (rw (e, e') refl, (ap₂ (λ a bs. a ∷ bs) same all_same, (is_hsv, all_hsv))))

  -- After an advance by at most 1, the phase at the start is again at most 1.
  start-IsPhase :
      (phase advance : Q.Float)
      → IsPhase 1 phase
      → IsPhase 1 advance
      → IsPhase 1 (once_down Q (Q.add phase advance))
  start-IsPhase phase advance (pb, pa) (ab, aa) =
      let total = Q.add phase advance in
      let below = B.add-below 1 1 phase advance (omega arith) pb ab in
      let above = B.add-above 0 0 phase advance (omega arith) pa aa in
      elim (Bool-cases (Q.gt total Q.whole)) [
        | inl e ↦ rw e (B.sub-below 1 total (omega arith) below, B.sub-above total e)
        | inr e ↦ rw e (B.not_gt-below 2 total below e, above)
      ]

  -- If floats and colours keep to `Bounds`, the phase at the start and its advance are between 0
  -- and 1, and the harmonic is between 0 and a positive n, then the loops of `HSVRotator` end, and
  -- more rounds than one and n for every point are enough for each of them, fewer than 2^24 in all. The
  -- points keep their places and their blanking, no colour is out of range, so that each point gets
  -- one with hue, saturation and brightness between 0 and 1, and the phase at the start of the
  -- next frame is between 0 and 1 again.
  pub hsv_rotator-returns :
      (ps : List (Point Q)) (fuel n : ℕ) (c : ColourRotator Q) (pb : Playback Q)
      → 0 < n
      → suc (length ps * n) < fuel
      → suc (suc (length ps * n)) < 2 ^ 24
      → IsPhase n c.rotate_harmonic
      → IsPhase 1 c.rotate_phase_advance
      → IsPhase 1 pb.rotator_start_phase
      → (qs : List (Point Q)) × ((pb' : Playback Q) × ((hsv_rotator Q fuel c ps pb ≡ some (qs, pb'))
            × ((shape Q qs ≡ shape Q ps)
                × (All (λ q. IsHsv q.colour) qs × IsPhase 1 pb'.rotator_start_phase))))
  unfolding hsv_rotator
  hsv_rotator-returns [] fuel n c pb z f l h a ph = ([], (pb, (refl, (refl, (_, ph)))))
  hsv_rotator-returns (p ∷ ps) fuel n c pb z f l (hb, ha) a ph =
      let incr = B.div-number n (length ps) c.rotate_harmonic (omega arith) hb ha in
      let (qs, (e, (same, all_hsv))) =
        rotate_points-returns (p ∷ ps) fuel 1 n c (Q.div c.rotate_harmonic (count Q (p ∷ ps)))
          pb.rotator_start_phase (omega arith) z (omega arith) (omega arith) incr ph in
      (
        qs,
        (
          record pb {
            rotator_start_phase = once_down Q (Q.add pb.rotator_start_phase c.rotate_phase_advance);
          },
          (
            rw e refl,
            (same, (all_hsv, start-IsPhase pb.rotator_start_phase c.rotate_phase_advance ph a)),
          ),
        ),
      )
