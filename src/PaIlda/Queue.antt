-- ===== src/PaIlda/Queue.antt =====
-- The ring buffer of src/driver_portaudio_ilda.cpp as a queue of points.
use lucifer.Prelude.{
  ℕ, zero, suc, ◌+◌, ◌-◌, ◌*◌, ◌≤◌, ◌<◌, min, ◌≡◌, refl, sym, ap, ◌∙◌, inl, inr, true, false,
  Option, some, List, [], ◌∷◌, ◌++◌, append-nil, append_assoc, arith, ltb, Bool-cases, length,
  get_elem?, take, drop, replicate, length-append, get_elem?-some,
}
use lucifer.PaIlda.{
  fill_status, push_points, transfer, new_points, samples, play_points, play_frames, pa_callback,
  CircularBuffer, PointF, PaIlda,
}

-- What boost's buffer does, while there is space and while there are points.
pub record Holds {A : Type 0} (C : CircularBuffer A) : Type 0 where
  pub contents : C.Buffer → List A
  pub size_of : (q : C.Buffer) → C.size q ≡ length (contents q)
  pub bounded : (q : C.Buffer) → length (contents q) ≤ C.capacity q
  pub made : (n : ℕ) → (contents (C.new_buffer n) ≡ []) × (C.capacity (C.new_buffer n) ≡ n)
  pub pushed :
      (q : C.Buffer) (a : A)
      → length (contents q) < C.capacity q
      → contents (C.push_back a q) ≡ contents q ++ a ∷ []
  pub pushed_capacity : (q : C.Buffer) (a : A) → C.capacity (C.push_back a q) ≡ C.capacity q
  pub front_of : (q : C.Buffer) (a : A) (xs : List A) → contents q ≡ a ∷ xs → C.front q ≡ some a
  pub popped :
      (q : C.Buffer) (a : A) (xs : List A) → contents q ≡ a ∷ xs → contents (C.pop_front q) ≡ xs
  pub popped_capacity : (q : C.Buffer) → C.capacity (C.pop_front q) ≡ C.capacity q

drop-get_elem? :
    {A : Type 0}
    → (xs : List A) (i : ℕ) (a : A) → get_elem? xs i ≡ some a
    → drop i xs ≡ a ∷ drop (suc i) xs
drop-get_elem? [] i a e = cc
drop-get_elem? (x ∷ xs) zero a e = cc
drop-get_elem? (x ∷ xs) (suc i) a e = drop-get_elem? xs i a e

some_first :
    {A : Type 0} → (xs : List A) → 0 < length xs → (a : A) × ((ys : List A) × (xs ≡ a ∷ ys))
some_first [] h = ground arith
some_first (x ∷ xs) h = (x, (xs, refl))

take_all : {A : Type 0} → (n : ℕ) (xs : List A) → length xs ≤ n → take n xs ≡ xs
take_all zero [] h = refl
take_all zero (x ∷ xs) h = ground arith
take_all (suc n) [] h = refl
take_all (suc n) (x ∷ xs) h = ap (λ ys. x ∷ ys) (take_all n xs (omega arith))

drop_all : {A : Type 0} → (n : ℕ) (xs : List A) → length xs ≤ n → drop n xs ≡ []
drop_all zero [] h = refl
drop_all zero (x ∷ xs) h = ground arith
drop_all (suc n) [] h = refl
drop_all (suc n) (x ∷ xs) h = drop_all n xs (omega arith)

module _ (Float : Type 0) (C : CircularBuffer (PointF Float)) (H : Holds C) where
  pub push_points-contents :
      (n i : ℕ) (pts : List (PointF Float)) (q : C.Buffer)
      → i + n ≤ length pts
      → length (H.contents q) + n ≤ C.capacity q
      → (q' : C.Buffer) × ((push_points Float C n i pts q ≡ some q')
          × ((H.contents q' ≡ H.contents q ++ take n (drop i pts))
              × (C.capacity q' ≡ C.capacity q)))
  unfolding push_points
  push_points-contents zero i pts q inside space =
      (q, (refl, (sym (append-nil (H.contents q)), refl)))
  push_points-contents (suc n) i pts q inside space =
      let (a, e) = get_elem?-some pts i (omega arith) in
      let here = H.pushed q a (omega arith) in
      let more = H.pushed_capacity q a in
      let (q', (done, (all, room))) =
        push_points-contents n (suc i) pts (C.push_back a q) (omega arith)
          (rw (here, more, length-append (H.contents q) (a ∷ [])) (omega arith)) in
      (
        q',
        (
          rw e done,
          (
            all
                ∙ ap (λ us. us ++ take n (drop (suc i) pts)) here
                ∙ append_assoc (H.contents q) (a ∷ []) (take n (drop (suc i) pts))
                ∙ ap (λ us. H.contents q ++ us)
                    (sym (ap (take (suc n)) (drop-get_elem? pts i a e))),
            room ∙ more,
          ),
        ),
      )

  module _ (silence : Float) (intensity : Float → Float → Float → Float) where
    -- The samples of a list of points.
    abbrev pub rendered : ℕ → List (PointF Float) → List (Option Float)
    rendered channels [] = []
    rendered channels (p ∷ ps) =
        samples Float C silence intensity channels 0 p ++ rendered channels ps

    play_step :
        (channels n : ℕ) (q q' : C.Buffer) (p : PointF Float) (out : List (Option Float))
        → C.front q ≡ some p
        → play_points Float C silence intensity channels n (C.pop_front q) ≡ some (out, q')
        → play_points Float C silence intensity channels (suc n) q
          ≡ some (samples Float C silence intensity channels 0 p ++ out, q')
    unfolding play_points
    play_step channels n q q' p out e f = rw (e, f) refl

    play_points-plays :
        (channels n : ℕ) (q : C.Buffer)
        → n ≤ length (H.contents q)
        → (q' : C.Buffer) × ((play_points Float C silence intensity channels n q
              ≡ some (rendered channels (take n (H.contents q)), q'))
            × ((H.contents q' ≡ drop n (H.contents q)) × (C.capacity q' ≡ C.capacity q)))
    unfolding play_points
    play_points-plays channels zero q h = (q, (refl, (refl, refl)))
    play_points-plays channels (suc n) q h =
        let (p, (ps, e)) = some_first (H.contents q) (omega arith) in
        let left = H.popped q p ps e in
        let (q', (done, (rest, room))) =
          play_points-plays channels n (C.pop_front q) (rw left (omega (arith, ap length e))) in
        (
          q',
          (
            play_step channels n q q' p (rendered channels (take n (H.contents (C.pop_front q))))
                  (H.front_of q p ps e) done
                ∙ ap
                    (λ us. some (
                      samples Float C silence intensity channels 0 p
                          ++ rendered channels (take n us),
                      q',
                    ))
                    left
                ∙ sym (ap (λ us. some (rendered channels (take (suc n) us), q')) e),
            (rest ∙ ap (drop n) left ∙ sym (ap (drop (suc n)) e), room ∙ H.popped_capacity q),
          ),
        )

    Plays : ℕ → PaIlda Float C → Option (List (Option Float) × PaIlda Float C) → Type 0
    Plays frames d r =
        (q : C.Buffer) × ((r
            ≡ some (
              rendered d.channels (take frames (H.contents d.ringbuffer))
                  ++ replicate (d.channels * (frames - length (H.contents d.ringbuffer)))
                      (some silence),
              record d { ringbuffer = q },
            ))
          × ((H.contents q ≡ drop frames (H.contents d.ringbuffer))
              × (C.capacity q ≡ C.capacity d.ringbuffer)))

    short-Plays :
        (frames : ℕ) (d : PaIlda Float C)
        → ltb (C.size d.ringbuffer) frames ≡ true
        → Plays frames d (play_frames Float C silence intensity (C.size d.ringbuffer) frames d)
    unfolding Plays play_frames
    short-Plays frames d few =
        let points = H.contents d.ringbuffer in
        let size = H.size_of d.ringbuffer in
        let short : length points ≤ frames = ground arith in
        let (q, (done, (rest, room))) =
          play_points-plays d.channels (C.size d.ringbuffer) d.ringbuffer (omega arith) in
        let same =
          take_all (C.size d.ringbuffer) points (omega arith)
          ∙ sym (take_all frames points short) in
        (
          q,
          (
            rw (few, done)
                (λ i. some (
                  rendered d.channels (same i)
                      ++ replicate (d.channels * (frames - size i)) (some silence),
                  record d { ringbuffer = q },
                )),
            (
              rest
                  ∙ drop_all (C.size d.ringbuffer) points (omega arith)
                  ∙ sym (drop_all frames points short),
              room,
            ),
          ),
        )

    full-Plays :
        (frames : ℕ) (d : PaIlda Float C)
        → ltb (C.size d.ringbuffer) frames ≡ false
        → Plays frames d (play_frames Float C silence intensity frames frames d)
    unfolding Plays play_frames
    full-Plays frames d enough =
        let points = H.contents d.ringbuffer in
        let size = H.size_of d.ringbuffer in
        let long : frames ≤ length points = ground arith in
        let same : ltb frames frames ≡ false = ground arith in
        let no_silence : 0 ≡ frames - length points = omega arith in
        let nothing : 0 ≡ d.channels * 0 = omega arith in
        let (q, (done, (rest, room))) = play_points-plays d.channels frames d.ringbuffer long in
        (
          q,
          (
            rw (same, done)
                (ap
                  (λ k. some (
                    rendered d.channels (take frames points) ++ replicate k (some silence),
                    record d { ringbuffer = q },
                  ))
                  (nothing ∙ ap (λ k. d.channels * k) no_silence)),
            (rest, room),
          ),
        )

    -- The callback plays the points in front, as many as there are and as are asked for, and then
    -- silence; the points behind them stay.
    pub pa_callback-plays :
        (frames : ℕ) (d : PaIlda Float C)
        → (q : C.Buffer) × ((pa_callback Float C silence intensity frames d
              ≡ some (
                rendered d.channels (take frames (H.contents d.ringbuffer))
                    ++ replicate
                        (d.channels * (frames - length (H.contents d.ringbuffer)))
                        (some silence),
                record d { ringbuffer = q },
              ))
            × ((H.contents q ≡ drop frames (H.contents d.ringbuffer))
                × (C.capacity q ≡ C.capacity d.ringbuffer)))
    unfolding pa_callback Plays
    pa_callback-plays frames d = elim (Bool-cases (ltb (C.size d.ringbuffer) frames)) [
      | inl few ↦ rw few (short-Plays frames d few)
      | inr enough ↦ rw enough (full-Plays frames d enough)
    ]

  -- How many points there are behind the offset, or how many there is space for.
  abbrev pub num_taken : ℕ → ℕ → ℕ → ℕ → ℕ
  num_taken capacity size wanted offset = min (capacity - size) (wanted - offset)

  transfer-num_taken :
      (pts : List (PointF Float)) (offset : ℕ) (d : PaIlda Float C)
      → offset ≤ length pts
      → transfer Float C pts offset d
        ≡ num_taken (C.capacity d.ringbuffer) (length (H.contents d.ringbuffer)) (length pts) offset
  unfolding transfer fill_status
  transfer-num_taken pts offset d h =
      let size = H.size_of d.ringbuffer in let bounded = H.bounded d.ringbuffer in ground arith

  pub new_points-takes :
      (pts : List (PointF Float)) (offset : ℕ) (d : PaIlda Float C)
      → offset ≤ length pts
      → let points = H.contents d.ringbuffer in
        let n = num_taken (C.capacity d.ringbuffer) (length points) (length pts) offset in
        (q : C.Buffer) × ((new_points Float C pts offset d ≡ some (n, record d { ringbuffer = q }))
          × ((H.contents q ≡ points ++ take n (drop offset pts))
              × (C.capacity q ≡ C.capacity d.ringbuffer)))
  unfolding new_points
  new_points-takes pts offset d h =
      let points = H.contents d.ringbuffer in
      let size = H.size_of d.ringbuffer in
      let bounded = H.bounded d.ringbuffer in
      let n = num_taken (C.capacity d.ringbuffer) (length points) (length pts) offset in
      let (q, (done, (all, room))) =
        push_points-contents n offset pts d.ringbuffer (omega arith) (omega arith) in
      (q, (rw (transfer-num_taken pts offset d h, done) refl, (all, room)))
