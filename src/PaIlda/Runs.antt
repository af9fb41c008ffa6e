-- ===== src/PaIlda/Runs.antt =====
-- The two threads of src/driver_portaudio_ilda.cpp: a head gives points, the card plays them.
use lucifer.Prelude.{
  ℕ, ◌-◌, ◌*◌, ◌≤◌, ◌≡◌, refl, sym, ap, ap₂, ◌∙◌, Option, some, List, [], ◌∷◌, ◌++◌, append-nil,
  append_assoc, length, take, drop, replicate, All, take-append-drop,
}
use lucifer.Prelude.Maybe.{◌>>=◌}
use lucifer.PaIlda.{new_points, pa_callback, CircularBuffer, PointF, PaIlda}
use lucifer.PaIlda.Queue.{rendered, pa_callback-plays, num_taken, new_points-takes, Holds}

module _ (Float : Type 0) (C : CircularBuffer (PointF Float)) (H : Holds C) (silence : Float)
    (intensity : Float → Float → Float → Float) where
  pub data Event : Type 0 where
    gives : List (PointF Float) → ℕ → Event
    plays : ℕ → Event

  pub data Answer : Type 0 where
    took : ℕ → Answer
    played : List (Option Float) → Answer

  pub serve : Event → PaIlda Float C → Option (Answer × PaIlda Float C)
  unfolding new_points pa_callback
  serve (gives pts offset) d = new_points Float C pts offset d >>= λ r. some (took r.0, r.1)
  serve (plays frames) d =
      pa_callback Float C silence intensity frames d >>= λ r. some (played r.0, r.1)

  pub run : List Event → PaIlda Float C → Option (List Answer × PaIlda Float C)
  unfolding serve
  run [] d = some ([], d)
  run (e ∷ es) d = do r ← serve e d; rest ← run es r.1; some (r.0 ∷ rest.0, rest.1)

  -- The same on a queue of points with room for so many.
  abbrev pub in_queue : ℕ → ℕ → Event → List (PointF Float) → Answer
  in_queue channels capacity (gives pts offset) q =
      took (num_taken Float C H capacity (length q) (length pts) offset)
  in_queue channels capacity (plays frames) q = played (
      rendered Float C H silence intensity channels (take frames q)
      ++ replicate (channels * (frames - length q)) (some silence))

  -- The points that an event puts into the queue, and those that it takes out.
  abbrev pub enters : ℕ → Event → List (PointF Float) → List (PointF Float)
  enters capacity (gives pts offset) q =
      take (num_taken Float C H capacity (length q) (length pts) offset) (drop offset pts)
  enters capacity (plays frames) q = []

  abbrev pub leaves : Event → List (PointF Float) → List (PointF Float)
  leaves (gives pts offset) q = []
  leaves (plays frames) q = take frames q

  abbrev pub queue_after : ℕ → Event → List (PointF Float) → List (PointF Float)
  queue_after capacity (gives pts offset) q = q ++ enters capacity (gives pts offset) q
  queue_after capacity (plays frames) q = drop frames q

  abbrev pub answers : ℕ → ℕ → List Event → List (PointF Float) → List Answer
  answers channels capacity [] q = []
  answers channels capacity (e ∷ es) q =
      in_queue channels capacity e q ∷ answers channels capacity es (queue_after capacity e q)

  abbrev pub all_enter : ℕ → List Event → List (PointF Float) → List (PointF Float)
  all_enter capacity [] q = []
  all_enter capacity (e ∷ es) q =
      enters capacity e q ++ all_enter capacity es (queue_after capacity e q)

  abbrev pub all_leave : ℕ → List Event → List (PointF Float) → List (PointF Float)
  all_leave capacity [] q = []
  all_leave capacity (e ∷ es) q = leaves e q ++ all_leave capacity es (queue_after capacity e q)

  abbrev pub queue_at_end : ℕ → List Event → List (PointF Float) → List (PointF Float)
  queue_at_end capacity [] q = q
  queue_at_end capacity (e ∷ es) q = queue_at_end capacity es (queue_after capacity e q)

  abbrev pub IsInside : Event → Type 0
  IsInside (gives pts offset) = offset ≤ length pts
  IsInside (plays frames) = Unit

  event-conserves :
      (capacity : ℕ) (e : Event) (q : List (PointF Float))
      → q ++ enters capacity e q ≡ leaves e q ++ queue_after capacity e q
  event-conserves capacity (gives pts offset) q = refl
  event-conserves capacity (plays frames) q = append-nil q ∙ sym (take-append-drop frames q)

  conserves :
      (capacity : ℕ) (es : List Event) (q : List (PointF Float))
      → q ++ all_enter capacity es q ≡ all_leave capacity es q ++ queue_at_end capacity es q
  conserves capacity [] q = append-nil q
  conserves capacity (e ∷ es) q =
      let q' = queue_after capacity e q in
      sym (append_assoc q (enters capacity e q) (all_enter capacity es q'))
      ∙ ap (λ us. us ++ all_enter capacity es q') (event-conserves capacity e q)
      ∙ append_assoc (leaves e q) q' (all_enter capacity es q')
      ∙ ap (λ us. leaves e q ++ us) (conserves capacity es q')
      ∙ sym (append_assoc (leaves e q) (all_leave capacity es q') (queue_at_end capacity es q'))

  Served : Event → PaIlda Float C → Type 0
  Served e d =
      let cap = C.capacity d.ringbuffer in
      let q = H.contents d.ringbuffer in
      (b : C.Buffer) × ((serve e d
          ≡ some (in_queue d.channels cap e q, record d { ringbuffer = b }))
        × ((H.contents b ≡ queue_after cap e q) × (C.capacity b ≡ cap)))

  serve-Served : (e : Event) (d : PaIlda Float C) → IsInside e → Served e d
  unfolding Served serve
  serve-Served (gives pts offset) d h =
      let (b, (done, kept)) = new_points-takes Float C H pts offset d h in (b, (rw done refl, kept))
  serve-Served (plays frames) d h =
      let (b, (done, kept)) = pa_callback-plays Float C H silence intensity frames d in
      (b, (rw done refl, kept))

  run-from :
      (es : List Event) (d : PaIlda Float C) (cap : ℕ) (q : List (PointF Float))
      → All IsInside es
      → C.capacity d.ringbuffer ≡ cap
      → H.contents d.ringbuffer ≡ q
      → (b : C.Buffer) × ((run es d
            ≡ some (answers d.channels cap es q, record d { ringbuffer = b }))
          × (H.contents b ≡ queue_at_end cap es q))
  unfolding run Served
  run-from [] d cap q h c e = (d.ringbuffer, (refl, e))
  run-from (event ∷ es) d cap q h c e =
      let (b, (done, (here, room))) = serve-Served event d h.0 in
      let (b', (rest, there)) =
        run-from es (record d { ringbuffer = b }) cap (queue_after cap event q) h.1 (room ∙ c)
          (here ∙ ap₂ (λ k us. queue_after k event us) c e) in
      (
        b',
        (
          rw (done, rest)
              (ap₂
                (λ k us. some (
                  in_queue d.channels k event us
                      ∷ answers d.channels cap es (queue_after cap event q),
                  record d { ringbuffer = b' },
                ))
                c e),
          there,
        ),
      )

  -- However giving and playing points alternate, if every offset is inside its points, no point is
  -- read that is not there, the answers are those of a queue with room for as many points as the
  -- buffer, and the points that were in the buffer and those taken from the head are, in this
  -- order, those played and those in the buffer now: none is lost, doubled or moved.
  pub run-as_queue :
      (es : List Event) (d : PaIlda Float C)
      → All IsInside es
      → let cap = C.capacity d.ringbuffer in
        let q = H.contents d.ringbuffer in
        (b : C.Buffer) × ((run es d
            ≡ some (answers d.channels cap es q, record d { ringbuffer = b }))
          × (q ++ all_enter cap es q ≡ all_leave cap es q ++ H.contents b))
  run-as_queue es d h =
      let cap = C.capacity d.ringbuffer in
      let q = H.contents d.ringbuffer in
      let (b, (done, there)) = run-from es d cap q h refl refl in
      (b, (done, conserves cap es q ∙ ap (λ us. all_leave cap es q ++ us) (sym there)))
