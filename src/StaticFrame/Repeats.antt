-- ===== src/StaticFrame/Repeats.antt =====
-- How often a static frame (src/staticframe.cpp) is drawn.
use lucifer.Prelude.{
  ℕ, zero, suc, ◌+◌, ◌^◌, ◌≤◌, ◌<◌, ◌≡◌, refl, ap, ap₂, Bool, true, false, List, [], ◌∷◌, ◌++◌,
  arith, length, replicate,
}
use lucifer.StaticFrame.{reset, expire, finish, next_frame, Playback}

module _ (elapsed : ℕ → ℕ → ℕ) (dewell : ℕ) where
  -- What calls at the given times draw, and the playback after them.
  abbrev pub draws : ℕ → List ℕ → Playback → List Bool × Playback
  draws repeats [] p = ([], p)
  draws repeats (now ∷ nows) p =
      let first = next_frame elapsed false dewell repeats now p in
      let rest = draws repeats nows first.1 in (first.0 ∷ rest.0, rest.1)

  drawn :
      (repeats now : ℕ) (p : Playback)
      → p.active ≡ true
      → p.repeats_done < repeats
      → repeats < 2 ^ 32
      → let r = next_frame elapsed false dewell repeats now p in
        (r.0 ≡ true) × (r.1.active ≡ true) × (r.1.repeats_done ≡ suc p.repeats_done)
  unfolding next_frame expire finish
  drawn repeats now p a h b = ground (arith, a)

  not_drawn :
      (repeats now : ℕ) (p : Playback)
      → repeats ≤ p.repeats_done
      → let r = next_frame elapsed false dewell repeats now p in
        (r.0 ≡ false) × (r.1.active ≡ true) × (r.1.repeats_done ≡ 0)
  unfolding next_frame expire finish
  not_drawn repeats now p h = ground arith

  draws_all :
      (k repeats : ℕ) (nows : List ℕ) (last : ℕ) (p : Playback)
      → p.active ≡ true
      → p.repeats_done + k ≡ repeats
      → length nows ≡ k
      → repeats < 2 ^ 32
      → let r = draws repeats (nows ++ last ∷ []) p in
        (r.0 ≡ replicate k true ++ false ∷ []) × (r.1.active ≡ true) × (r.1.repeats_done ≡ 0)
  draws_all zero repeats [] last p a k e b =
      let (r, active, zero_done) = not_drawn repeats last p (omega arith) in
      (ap (λ d. d ∷ []) r, active, zero_done)
  draws_all zero repeats (now ∷ nows) last p a k e b = absurd (omega (arith, e))
  draws_all (suc k) repeats [] last p a s e b = absurd (omega (arith, e))
  draws_all (suc k) repeats (now ∷ nows) last p a s e b =
      let (r, active, one_more) = drawn repeats now p a (omega arith) b in
      let (rs, active', zero_done) =
        draws_all k repeats nows last (next_frame elapsed false dewell repeats now p).1 active
          (omega (arith, one_more)) (omega (arith, e)) b in
      (ap₂ (λ d ds. d ∷ ds) r rs, active', zero_done)

  -- Without a dwell time, a frame with fewer than 2^32 repeats that is reset is drawn once for each
  -- repeat and then not once, at whatever times; and after that its playback is active again with
  -- no repeats done.
  pub drawn_once_per_repeat :
      (repeats now : ℕ) (nows : List ℕ) (last : ℕ) (p : Playback)
      → length nows ≡ repeats
      → repeats < 2 ^ 32
      → let r = draws repeats (nows ++ last ∷ []) (reset elapsed now p) in
        (r.0 ≡ replicate repeats true ++ false ∷ []) × (r.1.active ≡ true) × (r.1.repeats_done ≡ 0)
  unfolding reset
  drawn_once_per_repeat repeats now nows last p e b =
      draws_all repeats repeats nows last
        (record p { active = true; repeats_done = 0; dewell_start = now }) refl (omega arith) e b
