-- ===== src/ColourRotator/Laws.antt =====
-- What the loops of src/colourrotator.cpp rely on in floats and in Qt's colours.
use lucifer.Prelude.{
  ℕ, zero, suc, ◌+◌, ◌^◌, ◌≤◌, ◌<◌, ◌≡◌, refl, inl, inr, true, false, some, arith, Bool-cases,
}
use lucifer.Prelude.Int.{pos}
use lucifer.ColourRotator.{wrap_down, wrap_up, clamp_down, clamp_up, Qt}

-- `IsBelow n x` says that x is a number and at most n, and `IsAbove n x` that it is a number and at
-- least -n. Up to 2^24 floats have all the integers, so that rounding keeps such bounds. A hue is
-- between 0 and 1, or -1 if there is none.
pub record Bounds (Q : Qt) : Type 1 where
  pub IsBelow : ℕ → Q.Float → Type 0
  pub IsAbove : ℕ → Q.Float → Type 0
  pub below_weaken : (m n : ℕ) (x : Q.Float) → m ≤ n → IsBelow m x → IsBelow n x
  pub above_weaken : (m n : ℕ) (x : Q.Float) → m ≤ n → IsAbove m x → IsAbove n x
  pub below_whole : (x : Q.Float) → IsBelow 1 x → Q.gt x Q.whole ≡ false
  pub not_gt-below : (n : ℕ) (x : Q.Float) → IsBelow n x → Q.gt x Q.whole ≡ false → IsBelow 1 x
  pub above_nought : (x : Q.Float) → IsAbove 0 x → Q.lt x Q.nought ≡ false
  pub not_lt-above : (n : ℕ) (x : Q.Float) → IsAbove n x → Q.lt x Q.nought ≡ false → IsAbove 0 x
  pub sub-below :
      (n : ℕ) (x : Q.Float) → n < 2 ^ 24 → IsBelow (suc n) x → IsBelow n (Q.sub x Q.whole)
  pub sub-above : (x : Q.Float) → Q.gt x Q.whole ≡ true → IsAbove 0 (Q.sub x Q.whole)
  pub add-whole-above :
      (n : ℕ) (x : Q.Float) → n < 2 ^ 24 → IsAbove (suc n) x → IsAbove n (Q.add x Q.whole)
  pub add-whole-below : (x : Q.Float) → Q.lt x Q.nought ≡ true → IsBelow 1 (Q.add x Q.whole)
  pub add-below :
      (m n : ℕ) (x y : Q.Float)
      → m + n < 2 ^ 24
      → IsBelow m x
      → IsBelow n y
      → IsBelow (m + n) (Q.add x y)
  pub add-above :
      (m n : ℕ) (x y : Q.Float)
      → m + n < 2 ^ 24
      → IsAbove m x
      → IsAbove n y
      → IsAbove (m + n) (Q.add x y)
  pub mul-number :
      (n : ℕ) (x y : Q.Float)
      → n < 2 ^ 24
      → IsBelow 1 x
      → IsAbove 0 x
      → IsBelow n y
      → IsAbove 0 y
      → IsBelow n (Q.mul x y) × IsAbove 0 (Q.mul x y)
  pub div-number :
      (n k : ℕ) (x : Q.Float)
      → n < 2 ^ 24
      → IsBelow n x
      → IsAbove 0 x
      → IsBelow n (Q.div x (Q.of_int (pos (suc k)))) × IsAbove 0 (Q.div x (Q.of_int (pos (suc k))))
  pub whole-below : IsBelow 1 Q.whole
  pub whole-above : IsAbove 0 Q.whole
  pub nought-below : IsBelow 1 Q.nought
  pub nought-above : IsAbove 0 Q.nought
  pub ge-nought : (x : Q.Float) → IsAbove 0 x → Q.ge x Q.nought ≡ true
  pub le-whole : (x : Q.Float) → IsBelow 1 x → Q.le x Q.whole ≡ true
  pub hue-below : (c : Q.Colour) → IsBelow 1 (Q.hue c)
  pub hue-above : (c : Q.Colour) → IsAbove 1 (Q.hue c)
  pub saturation-below : (c : Q.Colour) → IsBelow 1 (Q.saturation c)
  pub saturation-above : (c : Q.Colour) → IsAbove 0 (Q.saturation c)
  pub brightness-below : (c : Q.Colour) → IsBelow 1 (Q.brightness c)
  pub brightness-above : (c : Q.Colour) → IsAbove 0 (Q.brightness c)

module _ (Q : Qt) (B : Bounds Q) where
  -- Between 0 and 1.
  abbrev pub IsUnit : Q.Float → Type 0
  IsUnit x = B.IsBelow 1 x × B.IsAbove 0 x

  -- A loop that subtracts 1 ends after as many rounds as the bound says.
  pub wrap_down-returns :
      (fuel m n : ℕ) (x : Q.Float)
      → m < fuel
      → m < 2 ^ 24
      → B.IsBelow (suc m) x
      → B.IsAbove n x
      → (y : Q.Float) × ((wrap_down Q fuel x ≡ some y) × (B.IsBelow 1 y × B.IsAbove n y))
  unfolding wrap_down
  wrap_down-returns zero m n x f l b a = ground arith
  wrap_down-returns (suc fuel) zero n x f l b a = (x, (rw (B.below_whole x b) refl, (b, a)))
  wrap_down-returns (suc fuel) (suc m) n x f l b a = elim (Bool-cases (Q.gt x Q.whole)) [
    | inl e ↦
        let (y, (r, bounds)) =
          wrap_down-returns fuel m n (Q.sub x Q.whole) (omega arith) (omega arith)
            (B.sub-below (suc m) x (omega arith) b)
            (B.above_weaken 0 n (Q.sub x Q.whole) (omega arith) (B.sub-above x e)) in
        (y, (rw e r, bounds))
    | inr e ↦ (x, (rw e refl, (B.not_gt-below (suc (suc m)) x b e, a)))
  ]

  pub wrap_up-returns :
      (fuel m : ℕ) (x : Q.Float)
      → m < fuel
      → m < 2 ^ 24
      → B.IsBelow 1 x
      → B.IsAbove m x
      → (y : Q.Float) × ((wrap_up Q fuel x ≡ some y) × IsUnit y)
  unfolding wrap_up
  wrap_up-returns zero m x f l b a = ground arith
  wrap_up-returns (suc fuel) zero x f l b a = (x, (rw (B.above_nought x a) refl, (b, a)))
  wrap_up-returns (suc fuel) (suc m) x f l b a = elim (Bool-cases (Q.lt x Q.nought)) [
    | inl e ↦
        let (y, (r, bounds)) =
          wrap_up-returns fuel m (Q.add x Q.whole) (omega arith) (omega arith)
            (B.add-whole-below x e) (B.add-whole-above m x (omega arith) a) in
        (y, (rw e r, bounds))
    | inr e ↦ (x, (rw e refl, (b, B.not_lt-above (suc m) x a e)))
  ]

  pub clamp_down-returns :
      (fuel n : ℕ) (x : Q.Float)
      → 1 < fuel
      → B.IsBelow n x
      → B.IsAbove 0 x
      → (y : Q.Float) × ((clamp_down Q fuel x ≡ some y) × IsUnit y)
  unfolding clamp_down
  clamp_down-returns zero n x f b a = ground arith
  clamp_down-returns (suc zero) n x f b a = ground arith
  clamp_down-returns (suc (suc fuel)) n x f b a = elim (Bool-cases (Q.gt x Q.whole)) [
    | inl e ↦ (
      Q.whole,
      (rw (e, B.below_whole Q.whole B.whole-below) refl, (B.whole-below, B.whole-above)),
    )
    | inr e ↦ (x, (rw e refl, (B.not_gt-below n x b e, a)))
  ]

  pub clamp_up_keeps :
      (fuel : ℕ) (x : Q.Float) → 0 < fuel → B.IsAbove 0 x → clamp_up Q fuel x ≡ some x
  unfolding clamp_up
  clamp_up_keeps zero x f a = ground arith
  clamp_up_keeps (suc fuel) x f a = rw (B.above_nought x a) refl
