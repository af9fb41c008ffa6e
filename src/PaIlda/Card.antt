-- ===== src/PaIlda/Card.antt =====
-- The driver of src/driver_portaudio_ilda.cpp as a part of a head (src/head.cpp).
use lucifer.Prelude.{
  ℕ, zero, suc, ◌+◌, ◌-◌, ◌≤◌, ◌<◌, min, ◌≡◌, refl, sym, ap, subst, ◌∙◌, true, Option, none, some,
  List, ◌++◌, arith, dec_lt, length, take, drop, length-append, get_elem?-none, length-take,
  length-drop,
}
use lucifer.PaIlda.{fill_status, push_points, transfer, new_points, CircularBuffer, PointF, PaIlda}
use lucifer.PaIlda.Queue.{num_taken, new_points-takes, Holds}
use lucifer.Head.{Devices}
use lucifer.Head.Feed.{Takes}

module _ (Float : Type 0) (C : CircularBuffer (PointF Float)) (H : Holds C) where
  -- Where the driver would read points that are not there, no answer is known.
  abbrev pub answered : PaIlda Float C → Option (ℕ × PaIlda Float C) → ℕ × PaIlda Float C
  answered d none = (0, d)
  answered d (some r) = r

  -- The devices of a head with a sound card, whose resampler makes points of this kind.
  abbrev pub with_card : (D : Devices) → (List D.PointF → List (PointF Float)) → Devices
  with_card D points = record {
    Point = D.Point;
    PointF = PointF Float;
    Playback = D.Playback;
    Resample = D.Resample;
    Driver = PaIlda Float C;
    next_frame = D.next_frame;
    resample = λ ps r. (points (D.resample ps r).0, (D.resample ps r).1);
    set_input_pps = D.set_input_pps;
    set_output_pps = D.set_output_pps;
    outputs_ilda = λ d. true;
    hw_points_per_second = λ d. d.sr;
    buffer_fill_status = fill_status Float C;
    new_points = λ pts i d. answered d (new_points Float C pts i d);
  }

  fill_status-space :
      (d : PaIlda Float C)
      → fill_status Float C d ≡ C.capacity d.ringbuffer - length (H.contents d.ringbuffer)
  unfolding fill_status
  fill_status-space d =
      let size = H.size_of d.ringbuffer in let bounded = H.bounded d.ringbuffer in ground arith

  nothing_there :
      (pts : List (PointF Float)) (i : ℕ) (d : PaIlda Float C) (n : ℕ)
      → length pts < i
      → transfer Float C pts i d ≡ n
      → answered d (new_points Float C pts i d) ≡ (0, d)
  unfolding new_points push_points
  nothing_there pts i d zero h e = rw e refl
  nothing_there pts i d (suc n) h e = rw (e, get_elem?-none pts i (omega arith)) refl

  Answers : List (PointF Float) → ℕ → PaIlda Float C → ℕ × PaIlda Float C → Type 0
  Answers pts i d r =
      (r.0 ≡ min (fill_status Float C d) (length pts - i))
      × (fill_status Float C r.1 + r.0 ≡ fill_status Float C d)

  inside-Answers :
      (pts : List (PointF Float)) (i : ℕ) (d : PaIlda Float C)
      → i ≤ length pts
      → Answers pts i d (answered d (new_points Float C pts i d))
  unfolding Answers
  inside-Answers pts i d h =
      let points = H.contents d.ringbuffer in
      let n = num_taken Float C H (C.capacity d.ringbuffer) (length points) (length pts) i in
      let (q, (done, (all, room))) = new_points-takes Float C H pts i d h in
      let before = fill_status-space d in
      let after = fill_status-space (record d { ringbuffer = q }) in
      let taken = take n (drop i pts) in
      let counted : length (points ++ taken) ≡ length points + n =
        omega (arith, length-append points taken, length-take n (drop i pts), length-drop i pts) in
      let longer : length (H.contents q) ≡ length points + n = ap length all ∙ counted in
      rw done (omega arith, omega (arith, before, after, room, longer))

  out_of_points :
      (pts : List (PointF Float)) (i : ℕ) (d : PaIlda Float C)
      → length pts < i
      → Answers pts i d (0, d)
  unfolding Answers
  out_of_points pts i d past = (omega arith, omega arith)

  new_points-Answers :
      (pts : List (PointF Float)) (i : ℕ) (d : PaIlda Float C)
      → Answers pts i d (answered d (new_points Float C pts i d))
  new_points-Answers pts i d = elim (dec_lt (length pts) i) [
    | no inside ↦ inside-Answers pts i d (omega arith)
    | yes past ↦
        subst (Answers pts i d) (sym (nothing_there pts i d (transfer Float C pts i d) past refl))
          (out_of_points pts i d past)
  ]

  -- A sound card takes points the way a head needs it: none that are not there, at least one if
  -- there are any and there is space, and the space it reports shrinks by what it takes.
  pub card-Takes :
      (D : Devices) (points : List D.PointF → List (PointF Float)) → Takes (with_card D points)
  unfolding Answers
  card-Takes D points = record {
    no_more = λ pts i d h. let a = new_points-Answers pts i d in omega arith;
    some_taken = λ pts i d h p. let a = new_points-Answers pts i d in omega arith;
    space_left = λ pts i d. (new_points-Answers pts i d).1;
  }
