-- ===== src/Resampler/Overlap.antt =====
-- Which floats `Resample::run` of src/resampler.cpp makes its points of.
use lucifer.Prelude.{
  ℕ, zero, suc, ◌+◌, ◌/◌, ◌<◌, ◌≡◌, refl, sym, ap, ◌∙◌, Option, none, some, List, [], ◌∷◌, ◌++◌,
  arith, length, get_elem?,
}
use lucifer.Prelude.Maybe.{◌>>=◌}
use lucifer.Resampler.{resample_sz, read_output, process_block, Zita, PointF}

module _ (Z : Zita) where
  -- The point of five floats.
  abbrev pub point_at :
      Option Z.Float
      → Option Z.Float
      → Option Z.Float
      → Option Z.Float
      → Option Z.Float
      → Option (PointF Z)
  point_at ox oy or og ob = do
    x ← ox
    y ← oy
    r ← or
    g ← og
    b ← ob
    some (record { x = x; y = y; r = r; g = g; b = b })

  -- The point that the loop makes of the floats from an index on.
  abbrev pub point_from : List Z.Float → ℕ → Option (PointF Z)
  point_from written i =
      point_at (get_elem? written i) (get_elem? written (i + 1)) (get_elem? written (i + 2))
        (get_elem? written (i + 3)) (get_elem? written (i + 4))

  one_by_one :
      (ox oy or og ob : Option Z.Float) (rest : Option (List (PointF Z)))
      → (ox >>= λ x. oy >>= λ y. or >>= λ r. og >>= λ g.
          ob >>= λ b. rest >>= λ ps. some (record { x = x; y = y; r = r; g = g; b = b } ∷ ps))
        ≡ (point_at ox oy or og ob >>= λ p. rest >>= λ ps. some (p ∷ ps))
  one_by_one none oy or og ob rest = refl
  one_by_one (some x) none or og ob rest = refl
  one_by_one (some x) (some y) none og ob rest = refl
  one_by_one (some x) (some y) (some r) none ob rest = refl
  one_by_one (some x) (some y) (some r) (some g) none rest = refl
  one_by_one (some x) (some y) (some r) (some g) (some b) rest = refl

  read_both :
      (o : Option (PointF Z)) (rest : Option (List (PointF Z))) (ps : List (PointF Z))
      → (o >>= λ p. rest >>= λ qs. some (p ∷ qs)) ≡ some ps
      → (p : PointF Z) × ((qs : List (PointF Z)) × ((o ≡ some p)
            × ((rest ≡ some qs) × (some (p ∷ qs) ≡ some ps))))
  read_both none rest ps e = cc
  read_both (some p) none ps e = cc
  read_both (some p) (some qs) ps e = (p, (qs, (refl, (refl, e))))

  list_of : Option (List (PointF Z)) → List (PointF Z)
  list_of none = []
  list_of (some ps) = ps

  read_cons :
      (n i : ℕ) (written : List Z.Float) (ps : List (PointF Z))
      → read_output Z (suc n) i written ≡ some ps
      → (p : PointF Z) × ((qs : List (PointF Z)) × ((point_from written i ≡ some p)
            × ((read_output Z n (i + 1) written ≡ some qs) × (p ∷ qs ≡ ps))))
  unfolding read_output list_of
  read_cons n i written ps e =
      let split =
        one_by_one (get_elem? written i) (get_elem? written (i + 1)) (get_elem? written (i + 2))
          (get_elem? written (i + 3)) (get_elem? written (i + 4))
          (read_output Z n (i + 1) written) in
      let (p, (qs, (here, (later, both)))) =
        read_both (point_from written i) (read_output Z n (i + 1) written) ps (sym split ∙ e) in
      (p, (qs, (here, (later, ap list_of both))))

  -- The point of a number is that of the floats from this number on.
  read_at :
      (n i j : ℕ) (written : List Z.Float) (ps : List (PointF Z))
      → read_output Z n i written ≡ some ps
      → j < n
      → (p : PointF Z) × ((get_elem? ps j ≡ some p) × (point_from written (i + j) ≡ some p))
  read_at zero i j written ps e h = ground arith
  read_at (suc n) i zero written ps e h =
      let (p, (qs, (here, (later, same)))) = read_cons n i written ps e in
      (p, (sym (ap (λ us. get_elem? us 0) same), ap (point_from written) (omega arith) ∙ here))
  read_at (suc n) i (suc j) written ps e h =
      let (p, (qs, (here, (later, same)))) = read_cons n i written ps e in
      let (q, (found, at_place)) = read_at n (i + 1) j written qs later (omega arith) in
      (
        q,
        (
          sym (ap (λ us. get_elem? us (suc j)) same) ∙ found,
          ap (point_from written) (omega arith) ∙ at_place,
        ),
      )

  get_elem?-append_left :
      (ps more : List (PointF Z)) (j : ℕ) (p : PointF Z)
      → get_elem? ps j ≡ some p
      → get_elem? (ps ++ more) j ≡ some p
  get_elem?-append_left [] more j p e = cc
  get_elem?-append_left (q ∷ ps) more zero p e = e
  get_elem?-append_left (q ∷ ps) more (suc j) p e = get_elem?-append_left ps more j p e

  -- Neighbours share four of their floats.
  abbrev pub Shifts : PointF Z → PointF Z → Type 0
  Shifts p q = (q.x ≡ p.y) × ((q.y ≡ p.r) × ((q.r ≡ p.g) × (q.g ≡ p.b)))

  point_or : PointF Z → Option (PointF Z) → PointF Z
  point_or p none = p
  point_or p (some q) = q

  five :
      (ox oy or og ob : Option Z.Float) (p : PointF Z)
      → point_at ox oy or og ob ≡ some p
      → (ox ≡ some p.x)
        × ((oy ≡ some p.y) × ((or ≡ some p.r) × ((og ≡ some p.g) × (ob ≡ some p.b))))
  unfolding point_or
  five none oy or og ob p e = cc
  five (some x) none or og ob p e = cc
  five (some x) (some y) none og ob p e = cc
  five (some x) (some y) (some r) none ob p e = cc
  five (some x) (some y) (some r) (some g) none p e = cc
  five (some x) (some y) (some r) (some g) (some b) p e =
      let same = ap (point_or p) e in
      (
        ap (λ q. some q.x) same,
        (
          ap (λ q. some q.y) same,
          (ap (λ q. some q.r) same, (ap (λ q. some q.g) same, ap (λ q. some q.b) same)),
        ),
      )

  float_or : Z.Float → Option Z.Float → Z.Float
  float_or x none = x
  float_or x (some y) = y

  one_float : (o : Option Z.Float) (x y : Z.Float) → o ≡ some x → o ≡ some y → x ≡ y
  unfolding float_or
  one_float o x y e e' = ap (float_or x) (sym e ∙ e')

  neighbours :
      (ox oy or og ob oc : Option Z.Float) (p q : PointF Z)
      → point_at ox oy or og ob ≡ some p
      → point_at oy or og ob oc ≡ some q
      → Shifts p q
  neighbours ox oy or og ob oc p q e e' =
      let a = five ox oy or og ob p e in
      let b = five oy or og ob oc q e' in
      (
        one_float oy q.x p.y b.0 a.1.0,
        (
          one_float or q.y p.r b.1.0 a.1.1.0,
          (one_float og q.r p.g b.1.1.0 a.1.1.1.0, one_float ob q.g p.b b.1.1.1.0 a.1.1.1.1),
        ),
      )

  at_next_place :
      (written : List Z.Float) (j : ℕ)
      → point_at
          (get_elem? written (j + 1))
          (get_elem? written (j + 2))
          (get_elem? written (j + 3))
          (get_elem? written (j + 4))
          (get_elem? written (j + 5))
        ≡ point_from written (0 + suc j)
  at_next_place written j =
      let e0 : j + 1 ≡ 0 + suc j = omega arith in
      let e1 : j + 2 ≡ 0 + suc j + 1 = omega arith in
      let e2 : j + 3 ≡ 0 + suc j + 2 = omega arith in
      let e3 : j + 4 ≡ 0 + suc j + 3 = omega arith in
      let e4 : j + 5 ≡ 0 + suc j + 4 = omega arith in
      λ i.
        point_at (get_elem? written (e0 i)) (get_elem? written (e1 i)) (get_elem? written (e2 i))
          (get_elem? written (e3 i)) (get_elem? written (e4 i))

  points_or : List (PointF Z) → Option (List (PointF Z) × Z.State) → List (PointF Z)
  points_or ps none = ps
  points_or ps (some out) = out.0

  in_two :
      (o : Option (List (PointF Z))) (rest : Option (List (PointF Z) × Z.State))
      (out : List (PointF Z) × Z.State)
      → (o >>= λ ps. rest >>= λ r. some (ps ++ r.0, r.1)) ≡ some out
      → (ps : List (PointF Z)) × ((more : List (PointF Z)) × ((o ≡ some ps) × (ps ++ more ≡ out.0)))
  unfolding points_or
  in_two none rest out e = cc
  in_two (some ps) none out e = cc
  in_two (some ps) (some r) out e = (ps, (r.0, (refl, ap (points_or ps) e)))

  -- When a block of points is resampled, and `process` writes so many frames of five floats, the
  -- point of number j + 1 that the loop makes of them is no frame of its own: it is the point of
  -- number j moved on by one float, so that its x is the y of the point before, its y the red, its
  -- red the green and its green the blue. The x of the point j is the float j.
  pub process_block-overlaps :
      (fuel j : ℕ) (f : Z.Float) (input : List Z.Float) (s : Z.State)
      (out : List (PointF Z) × Z.State)
      → process_block Z (suc fuel) (f ∷ input) s ≡ some out
      → suc j < length (Z.process s (f ∷ input) resample_sz).1.1 / 5
      → (p : PointF Z) × ((q : PointF Z) × ((get_elem? out.0 j ≡ some p)
            × ((get_elem? out.0 (suc j) ≡ some q)
                × ((get_elem? (Z.process s (f ∷ input) resample_sz).1.1 j ≡ some p.x)
                    × Shifts p q))))
  unfolding process_block
  process_block-overlaps fuel j f input s out e h =
      let r = Z.process s (f ∷ input) resample_sz in
      let written = r.1.1 in
      let n = length written / 5 in
      let (ps, (more, (read, joined))) =
        in_two (read_output Z n 0 written) (process_block Z fuel r.1.0 r.0) out e in
      let (p, (first, at_j)) = read_at n 0 j written ps read (omega arith) in
      let (q, (second, at_next)) = read_at n 0 (suc j) written ps read h in
      let from_p = get_elem?-append_left ps more j p first in
      let from_q = get_elem?-append_left ps more (suc j) q second in
      let here : point_from written j ≡ some p = ap (point_from written) (omega arith) ∙ at_j in
      let here_next = at_next_place written j ∙ at_next in
      (
        p,
        (
          q,
          (
            ap (λ us. get_elem? us j) (sym joined) ∙ from_p,
            (
              ap (λ us. get_elem? us (suc j)) (sym joined) ∙ from_q,
              (
                (five (get_elem? written j) (get_elem? written (j + 1)) (get_elem? written (j + 2))
                    (get_elem? written (j + 3)) (get_elem? written (j + 4)) p here).0,
                neighbours (get_elem? written j) (get_elem? written (j + 1))
                    (get_elem? written (j + 2)) (get_elem? written (j + 3))
                    (get_elem? written (j + 4)) (get_elem? written (j + 5)) p q here here_next,
              ),
            ),
          ),
        ),
      )
