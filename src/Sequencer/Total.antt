-- ===== src/Sequencer/Total.antt =====
-- The outer loop of `FrameSequencer::nextFrame` of src/framesequencer.cpp.
use lucifer.Prelude.{
  ℕ, zero, suc, ◌-◌, ◌^◌, ◌≤◌, ◌<◌, ◌≡◌, refl, subst, ◌⊎◌, inl, inr, true, false, Option, none,
  some, arith, ltb, leb, Bool-cases, Option-cases,
}
use mathlib.Core.Logic.{if_pos, if_neg}
use lucifer.Random.{Random}
use lucifer.Sequencer.{
  Mode-discrete, table_size, last_place, reset, reset_children, start_repeat, settle, at_end, play,
  inner_fuel, next_frame, Settings, Playback, Children, Outcome, Mode,
}
use lucifer.Sequencer.Play.{
  reset_index-IsReady, table_size_bounds, last_place-IsReady, pull-Stops, IsSafe, IsReady, Stops,
}

-- The call returns, with a table of full size that names children only; and when it returns no
-- frame, the playback is rewound.
pub record Returns (R : Random) (C : Children) (mode : Mode) (r : Option (Outcome R C))
    : Type 0 where
  pub outcome : Outcome R C
  pub returned : r ≡ some outcome
  pub ready : IsReady mode C.number outcome.playback
  pub shown :
      ((f : C.Frame) × (outcome.frame ≡ some f))
      ⊎ ((outcome.playback.place ≡ 0) × (outcome.playback.repeats_done ≡ 0))

module _ (R : Random) (C : Children) (some_child : 0 < C.number) (small : C.number < 2 ^ 30) where
  settle-Returns :
      (mode : Mode) (done : ℕ) (again : Playback → C.State → Option (Outcome R C))
      (r : Option (Outcome R C))
      → Stops R C mode done r
      → ((q : Playback) (s : C.State)
          → IsReady mode C.number q
          → q.repeats_done ≡ done
          → table_size mode C.number ≤ suc q.place
          → Returns R C mode (again q s))
      → Returns R C mode (settle R C again r)
  unfolding settle
  settle-Returns mode done again r t next = elim (Option-cases t.outcome.frame) [
    | inr (f, e) ↦
        rw (t.returned, e, settle)
          (record { outcome = t.outcome; returned = refl; ready = t.ready; shown = inl (f, e) })
    | inl e ↦
        rw (t.returned, e, settle)
          (next t.outcome.playback t.outcome.kids t.ready t.same_done (t.ended e))
  ]

  -- At the end of the sequence: one round for each repeat left, and one more.
  play_end-Returns :
      (fuel inner : ℕ) (mode : Mode) (repeats : ℕ) (pb : Playback) (s : C.State)
      → ltb pb.place (last_place pb) ≡ false
      → table_size mode C.number < inner
      → repeats - pb.repeats_done < fuel
      → Returns R C mode (play R C inner fuel mode repeats pb s)
  unfolding play at_end reset start_repeat
  play_end-Returns zero inner mode repeats pb s e h k = elim k [ ]
  play_end-Returns (suc fuel) inner mode repeats pb s e h k =
      elim (Bool-cases (leb repeats pb.repeats_done)) [
        | inl finished ↦
            let (q, made, ready, place, done) =
              reset_index-IsReady R C.number some_child small mode
                (record pb { place = 0; repeats_done = 0 }) in
            rw (e, finished, made, play)
              (record {
                outcome = record { frame = none; playback = q; kids = s };
                returned = refl;
                ready = ready;
                shown = inr (place, done);
              })
        | inr more ↦
            let (q, made, ready, place, done) =
              reset_index-IsReady R C.number some_child small mode
                (record pb { repeats_done = suc pb.repeats_done; place = 0 }) in
            let first =
              pull-Stops R C some_child small inner mode q (reset_children R C C.number s)
                (record { entries = λ z. ready.within; placed = inl ready.sized })
                (omega (arith, place, table_size_bounds mode C.number some_child small)) h in
            rw (e, more, made, play)
              (settle-Returns mode q.repeats_done (play R C inner fuel mode repeats) _ first
                (λ p t pr pd pe.
                  play_end-Returns fuel inner mode repeats p t
                    (ground (arith, last_place-IsReady R C some_child small mode p pr)) h
                    (ground arith)))
      ]

  inside :
      (mode : Mode) (pb : Playback)
      → IsSafe mode C.number pb
      → ltb pb.place (last_place pb) ≡ true
      → pb.place < table_size mode C.number
  inside mode pb safe e = elim safe.placed [
    | inl sized ↦ ground (
      arith,
      last_place-IsReady R C some_child small mode pb
          (record { sized = sized; within = safe.entries sized }),
    )
    | inr h ↦ h
  ]

  ready-IsSafe : (mode : Mode) (pb : Playback) → IsReady mode C.number pb → IsSafe mode C.number pb
  ready-IsSafe mode pb r = record { entries = λ z. r.within; placed = inl r.sized }

  play-Returns :
      (fuel inner : ℕ) (mode : Mode) (repeats : ℕ) (pb : Playback) (s : C.State)
      → IsSafe mode C.number pb
      → table_size mode C.number < inner
      → suc (repeats - pb.repeats_done) < fuel
      → Returns R C mode (play R C inner fuel mode repeats pb s)
  unfolding play
  play-Returns zero inner mode repeats pb s safe h k = elim k [ ]
  play-Returns (suc fuel) inner mode repeats pb s safe h k =
      elim (Bool-cases (ltb pb.place (last_place pb))) [
        | inr e ↦ play_end-Returns (suc fuel) inner mode repeats pb s e h (omega arith)
        | inl e ↦
            let first =
              pull-Stops R C some_child small inner mode pb s safe (inside mode pb safe e) h in
            rw (e, play)
              (settle-Returns mode pb.repeats_done (play R C inner fuel mode repeats) _ first
                (λ p t pr pd pe.
                  play_end-Returns fuel inner mode repeats p t
                    (ground (arith, last_place-IsReady R C some_child small mode p pr)) h
                    (omega arith)))
      ]

  -- A call of `nextFrame` on a safe playback returns, for at least one and fewer than 2^30 children
  -- and whatever they return; it takes the new mode over, and leaves a safe playback; and it returns
  -- a frame or rewinds the playback.
  pub next_frame_returns :
      (c : Settings) (pb : Playback) (s : C.State)
      → IsSafe c.mode C.number pb
      → (o : Outcome R C) × (next_frame R C c pb s ≡ some (record c { mode = c.new_mode }, o))
        × IsSafe c.new_mode C.number o.playback
        × (((f : C.Frame) × (o.frame ≡ some f))
            ⊎ ((o.playback.place ≡ 0) × (o.playback.repeats_done ≡ 0)))
  unfolding next_frame inner_fuel
  next_frame_returns c pb s safe = elim (Mode-discrete c.mode c.new_mode) [
    | yes same ↦
        let r =
          play-Returns (suc (suc c.repeats)) (suc (table_size c.new_mode C.number)) c.new_mode
            c.repeats pb s (subst (λ m. IsSafe m C.number pb) same safe) (omega arith)
            (omega arith) in
        (
          r.outcome,
          rw (if_pos _ same, r.returned, next_frame),
          ready-IsSafe c.new_mode _ r.ready,
          r.shown,
        )
    | no other ↦
        let (q, made, ready, place, done) =
          reset_index-IsReady R C.number some_child small c.new_mode pb in
        let r =
          play-Returns (suc (suc c.repeats)) (suc (table_size c.new_mode C.number)) c.new_mode
            c.repeats q s (ready-IsSafe c.new_mode q ready) (omega arith) (omega arith) in
        (
          r.outcome,
          rw (if_neg _ other, made, r.returned, next_frame),
          ready-IsSafe c.new_mode _ r.ready,
          r.shown,
        )
  ]
