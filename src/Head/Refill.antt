-- ===== src/Head/Refill.antt =====
-- What `dataRequested` of src/head.cpp does when its points have run out.
use lucifer.Prelude.{
  ℕ, ◌<◌, ◌≡◌, refl, sym, ap, subst, ◌∙◌, ◌⊎◌, inl, inr, Bool, true, false, Option, none, some,
  List, [], ◌∷◌, arith, Bool-cases, Option-cases, length,
}
use lucifer.Prelude.Int.{ℤ, pos, negsuc}
use lucifer.Random.{Random}
use lucifer.Playlist.{get_next_framesource, Signal, selection_changed, load, dump_current_selection}
use lucifer.Head.{
  load_frame_source, dump, on_signal, deliver, on_sources, take_frame, playback_of, next_source,
  show, show_pair, show_or_move_on, refill, Devices, LaserHead,
}

module _ (R : Random) (D : Devices) where
  record Starts (o : Option D.Driver) (h : LaserHead R D) : Type 0 where
    same_driver : h.driver ≡ o
    at_start : h.frame_index ≡ 0

  load-Starts :
      (o : Option D.Driver) (f : Option D.Playback) (now : Bool) (h : LaserHead R D)
      → Starts o h
      → Starts o (load_frame_source R D f now h)
  unfolding load_frame_source
  load-Starts o f true h d = record { same_driver = d.same_driver; at_start = refl }
  load-Starts o f false h d = record { same_driver = d.same_driver; at_start = d.at_start }

  deliver-Starts :
      (o : Option D.Driver) (ss : List Signal) (h : LaserHead R D)
      → Starts o h
      → Starts o (deliver R D ss h)
  unfolding deliver on_signal dump
  deliver-Starts o [] h d = d
  deliver-Starts o (selection_changed p b ∷ ss) h d =
      let k = deliver-Starts o ss h d in
      record { same_driver = k.same_driver; at_start = k.at_start }
  deliver-Starts o (load p ∷ ss) h d = deliver-Starts o ss h d
  deliver-Starts o (dump_current_selection ∷ ss) h d =
      load-Starts o none true _ (deliver-Starts o ss h d)

  next_source-Starts :
      (o : Option D.Driver) (engine : ℕ → D.Playback) (h : LaserHead R D)
      → Starts o h
      → Starts o (next_source R D engine h)
  unfolding next_source on_sources
  next_source-Starts o engine h d =
      let l = get_next_framesource R (record h.sources { signals = [] }) in
      let h' = deliver R D l.signals (record h { sources = l }) in
      let k = load-Starts o (playback_of R D engine h'.sources.current_index) false h' (
        deliver-Starts o l.signals (record h { sources = l })
          (record { same_driver = d.same_driver; at_start = d.at_start })) in
      record { same_driver = k.same_driver; at_start = k.at_start }

  playback_of-cases :
      (engine : ℕ → D.Playback) (i : ℤ)
      → (playback_of R D engine i ≡ none) ⊎ ((s : ℕ) × (playback_of R D engine i ≡ some (engine s)))
  playback_of-cases engine (pos s) = inr (s, refl)
  playback_of-cases engine (negsuc s) = inl refl

  loaded-cases :
      (engine : ℕ → D.Playback) (i : ℤ) (h : LaserHead R D)
      → ((load_frame_source R D (playback_of R D engine i) false h).pb ≡ none)
        ⊎ ((s : ℕ) × ((load_frame_source R D (playback_of R D engine i) false h).pb
              ≡ some (engine s)))
  unfolding load_frame_source
  loaded-cases engine i h = elim (Bool-cases h.killed) [
    | inl e ↦ inl (rw e refl)
    | inr e ↦ elim (playback_of-cases engine i) [
      | inl z ↦ inl (rw (e, z) refl)
      | inr (s, z) ↦ inr (s, rw (e, z) refl)
    ]
  ]

  next_source-cases :
      (engine : ℕ → D.Playback) (h : LaserHead R D)
      → ((next_source R D engine h).pb ≡ none)
        ⊎ ((s : ℕ) × ((next_source R D engine h).pb ≡ some (engine s)))
  unfolding next_source
  next_source-cases engine h =
      let h' = on_sources R D (get_next_framesource R) h in
      loaded-cases engine h'.sources.current_index h'

  -- Playing is over, or there are points to send.
  pub record Filled (o : Option D.Driver) (h : LaserHead R D) : Type 0 where
    pub same_driver : h.driver ≡ o
    pub at_start : h.frame_index ≡ 0
    pub stocked : (h.pb ≡ none) ⊎ (0 < length h.point_buf)

  -- The playbacks that the engine hands out have a frame, and a frame has points.
  module _ (engine : ℕ → D.Playback)
      (shows : (s : ℕ) → (f : List D.Point) × ((D.next_frame (engine s)).0 ≡ some f))
      (points : (p : D.Playback) (f : List D.Point) (r : D.Resample)
        → (D.next_frame p).0 ≡ some f
        → 0 < length (D.resample f r).0) where
    take_some :
        (p : D.Playback) (h : LaserHead R D)
        → h.pb ≡ some p
        → take_frame R D h ≡ ((D.next_frame p).0, record h { pb = some (D.next_frame p).1 })
    unfolding take_frame
    take_some p h e = ground (arith, e)

    take_none : (h : LaserHead R D) → h.pb ≡ none → take_frame R D h ≡ (none, h)
    unfolding take_frame
    take_none h e = ground (arith, e)

    show-Filled :
        (o : Option D.Driver) (p : D.Playback) (f : List D.Point) (h : LaserHead R D)
        → Starts o h
        → (D.next_frame p).0 ≡ some f
        → Filled o (show R D (some f) h)
    unfolding show
    show-Filled o p f h d e = record {
      same_driver = d.same_driver;
      at_start = d.at_start;
      stocked = inr (points p f h.resampler e);
    }

    shown-Filled :
        (o : Option D.Driver) (p : D.Playback) (f : List D.Point) (h : LaserHead R D)
        → Starts o h
        → (D.next_frame p).0 ≡ some f
        → Filled o (show_or_move_on R D engine (some f, h))
    unfolding show_or_move_on show_pair
    shown-Filled o p f h d e = show-Filled o p f h d e

    moved_on-Filled :
        (o : Option D.Driver) (h : LaserHead R D)
        → Starts o h
        → Filled o (show_or_move_on R D engine (none, h))
    unfolding show_or_move_on show_pair show
    moved_on-Filled o h d =
        let k = next_source-Starts o engine h d in
        elim (next_source-cases engine h) [
          | inl e ↦
              subst (λ r. Filled o (show_pair R D r)) (sym (take_none (next_source R D engine h) e))
                (record { same_driver = k.same_driver; at_start = k.at_start; stocked = inl e })
          | inr (s, e) ↦
              let (f, got) = shows s in
              subst (λ r. Filled o (show_pair R D r))
                (sym (
                  take_some (engine s) (next_source R D engine h) e
                  ∙ ap
                      (λ g. (
                        g,
                        record (next_source R D engine h) { pb = some (D.next_frame (engine s)).1 },
                      ))
                      got))
                (show-Filled o (engine s) f
                  (record (next_source R D engine h) { pb = some (D.next_frame (engine s)).1 })
                  (record { same_driver = k.same_driver; at_start = k.at_start }) got)
        ]

    pub refill-Filled :
        (o : Option D.Driver) (h : LaserHead R D) → h.driver ≡ o → Filled o (refill R D engine h)
    unfolding refill
    refill-Filled o h e =
        let h' = record h { point_buf = []; frame_index = 0 } in
        elim (Option-cases h.pb) [
          | inl none_left ↦
              subst (λ r. Filled o (show_or_move_on R D engine r)) (sym (take_none h' none_left))
                (moved_on-Filled o h' (record { same_driver = e; at_start = refl }))
          | inr (p, playing) ↦
              let h2 = record h' { pb = some (D.next_frame p).1 } in
              subst (λ r. Filled o (show_or_move_on R D engine r)) (sym (take_some p h' playing))
                (elim (Option-cases (D.next_frame p).0) [
                  | inl over ↦
                      subst (λ g. Filled o (show_or_move_on R D engine (g, h2))) (sym over)
                        (moved_on-Filled o h2 (record { same_driver = e; at_start = refl }))
                  | inr (f, got) ↦
                      subst (λ g. Filled o (show_or_move_on R D engine (g, h2))) (sym got)
                        (shown-Filled o p f h2 (record { same_driver = e; at_start = refl }) got)
                ])
        ]
