-- ===== src/Midi/Output.antt =====
-- The queue of bytes to send of src/alsamidi.cpp.
use lucifer.Prelude.{
  ℕ, zero, suc, ◌≤◌, ◌<◌, ◌≡◌, refl, sym, ap, ◌∙◌, ◌⊎◌, inl, inr, not, Option, some, List, [], ◌∷◌,
  ◌++◌, append_assoc, arith, ◌==◌, length, take, drop, length-take, length-drop, take-append-drop,
}
use lucifer.Prelude.Int.{ℤ, pos, negsuc}
use lucifer.Midi.{write_loop, write_available, write_data, RawMidi, AlsaMidi}

-- A write takes bytes from the front, at most those that it is given, and after an error none.
pub record Writes (R : RawMidi) : Type 0 where
  pub sent : R.Device → List ℕ
  pub wrote :
      (bytes : List ℕ) (d : R.Device) (n : ℕ)
      → (R.write bytes d).0 ≡ pos n
      → (n ≤ length bytes) × (sent (R.write bytes d).1 ≡ sent d ++ take n bytes)
  pub failed :
      (bytes : List ℕ) (d : R.Device) (n : ℕ)
      → (R.write bytes d).0 ≡ negsuc n
      → sent (R.write bytes d).1 ≡ sent d

take-take : {A : Type 0} → (m n : ℕ) (xs : List A) → n ≤ m → take n (take m xs) ≡ take n xs
take-take m zero xs h = refl
take-take zero (suc n) xs h = ground arith
take-take (suc m) (suc n) [] h = refl
take-take (suc m) (suc n) (x ∷ xs) h = ap (λ ys. x ∷ ys) (take-take m n xs (omega arith))

ℤ-cases : (z : ℤ) → ((n : ℕ) × (z ≡ pos n)) ⊎ ((n : ℕ) × (z ≡ negsuc n))
ℤ-cases (pos n) = inl (n, refl)
ℤ-cases (negsuc n) = inr (n, refl)

module _ (R : RawMidi) (W : Writes R) where
  abbrev pub all_bytes : AlsaMidi R → List ℕ
  all_bytes a = W.sent a.device ++ a.txqueue

  -- The loop ends, and nothing is lost.
  Keeps : AlsaMidi R → Option (AlsaMidi R) → Type 0
  Keeps a r =
      (b : AlsaMidi R) × ((r ≡ some b) × ((all_bytes b ≡ all_bytes a) × (b.rxqueue ≡ a.rxqueue)))

  loop_failed :
      (fuel : ℕ) (a : AlsaMidi R) (n : ℕ)
      → (R.write (take 64 a.txqueue) a.device).0 ≡ negsuc n
      → some (record a { device = (R.write (take 64 a.txqueue) a.device).1 })
        ≡ write_loop R (suc fuel) a
  unfolding write_loop
  loop_failed fuel a n e = rw (write_loop, e) refl

  loop_done :
      (fuel : ℕ) (a : AlsaMidi R)
      → (R.write (take 64 a.txqueue) a.device).0 ≡ pos 0
      → some (record a { device = (R.write (take 64 a.txqueue) a.device).1 })
        ≡ write_loop R (suc fuel) a
  unfolding write_loop
  loop_done fuel a e = rw (write_loop, e) refl

  loop_more :
      (fuel : ℕ) (a : AlsaMidi R) (n : ℕ)
      → (R.write (take 64 a.txqueue) a.device).0 ≡ pos (suc n)
      → write_loop R fuel (record a {
        device = (R.write (take 64 a.txqueue) a.device).1;
        txqueue = drop (suc n) a.txqueue;
      })
        ≡ write_loop R (suc fuel) a
  unfolding write_loop
  loop_more fuel a n e = rw (write_loop, e) refl

  -- What a write of n bytes sends, and what is left, are what was there.
  one_write :
      (a : AlsaMidi R) (n : ℕ)
      → (R.write (take 64 a.txqueue) a.device).0 ≡ pos n
      → (W.sent (R.write (take 64 a.txqueue) a.device).1 ++ drop n a.txqueue ≡ all_bytes a)
        × (n ≤ length a.txqueue)
  one_write a n e =
      let q = a.txqueue in
      let (few, sent) = W.wrote (take 64 q) a.device n e in
      let shorter = length-take 64 q in
      (
        ap (λ bs. bs ++ drop n q)
              (sent ∙ ap (λ bs. W.sent a.device ++ bs) (take-take 64 n q (omega arith)))
            ∙ append_assoc (W.sent a.device) (take n q) (drop n q)
            ∙ ap (λ bs. W.sent a.device ++ bs) (take-append-drop n q),
        omega arith,
      )

  write_loop-Keeps :
      (fuel : ℕ) (a : AlsaMidi R) → length a.txqueue < fuel → Keeps a (write_loop R fuel a)
  unfolding Keeps
  write_loop-Keeps zero a h = ground arith
  write_loop-Keeps (suc fuel) a h =
      let r = R.write (take 64 a.txqueue) a.device in
      elim (ℤ-cases r.0) [
        | inr (n, e) ↦ (
          record a { device = r.1 },
          (
            sym (loop_failed fuel a n e),
            (ap (λ bs. bs ++ a.txqueue) (W.failed (take 64 a.txqueue) a.device n e), refl),
          ),
        )
        | inl (zero, e) ↦
            (record a { device = r.1 }, (sym (loop_done fuel a e), ((one_write a 0 e).0, refl)))
        | inl (suc n, e) ↦
            let (same, few) = one_write a (suc n) e in
            let next = record a { device = r.1; txqueue = drop (suc n) a.txqueue } in
            let (b, (done, (kept, untouched))) =
              write_loop-Keeps fuel next (omega (arith, length-drop (suc n) a.txqueue)) in
            (b, (sym (loop_more fuel a n e) ∙ done, (kept ∙ same, untouched)))
      ]

  -- `writeData` returns, and the bytes sent and those left in the queue are, in this order, those
  -- sent before, those that were queued, and those given to it: none is lost, doubled or moved. The
  -- sockets are watched for space afterwards if bytes are left, and only then.
  pub write_data-conserves :
      (bytes : List ℕ) (a : AlsaMidi R)
      → (b : AlsaMidi R) × (write_data R bytes a ≡ some b)
        × (W.sent b.device ++ b.txqueue ≡ W.sent a.device ++ (a.txqueue ++ bytes))
        × (b.watches ≡ not (length b.txqueue == 0))
        × (b.rxqueue ≡ a.rxqueue)
  unfolding write_data write_available Keeps
  write_data-conserves bytes a =
      let queued = record a { txqueue = a.txqueue ++ bytes } in
      let (b, (done, (kept, untouched))) =
        write_loop-Keeps (suc (length queued.txqueue)) queued (omega arith) in
      (record b { watches = not (length b.txqueue == 0) }, rw done refl, kept, refl, untouched)
