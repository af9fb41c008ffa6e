-- ===== src/Head/Empty.antt =====
-- `dataRequested` of src/head.cpp when the selected slot of the engine holds no source: `Playback` of
-- src/framesource.h then has no frame, ever.
use lucifer.Prelude.{
  ℕ, zero, suc, ◌^◌, ◌<◌, ◌≡◌, refl, sym, ap, ap₂, subst, ◌∙◌, ◌⊎◌, inl, inr, true, false, Option,
  none, some, List, [], ◌∷◌, arith, leb, if◌then◌else◌, lt→ltb, length,
}
use lucifer.Prelude.Int.{ℤ, to_int}
use lucifer.Random.{Random}
use lucifer.Playlist.{get_next_framesource, PlaybackList, Signal, load}
use lucifer.Playlist.Alone.{get_next-Alone, Alone}
use lucifer.Head.{
  load_frame_source, on_signal, deliver, on_sources, take_frame, playback_of, next_source, show,
  show_pair, show_or_move_on, refill, send_points, feed, Devices, LaserHead,
}
use lucifer.Head.Rounds.{feed_next}

module _ (R : Random) (D : Devices) (engine : ℕ → D.Playback) (x : ℕ) where
  -- A head with no points that plays the slot x, or nothing, and has x alone selected.
  pub record Waits (o : Option D.Driver) (h : LaserHead R D) : Type 0 where
    pub same_driver : h.driver ≡ o
    pub no_points : h.point_buf ≡ []
    pub at_start : h.frame_index ≡ 0
    pub alive : h.killed ≡ false
    pub alone : Alone x h.sources
    pub playing : (h.pb ≡ none) ⊎ (h.pb ≡ some (engine x))

  playback_of-to_int : x < 2 ^ 31 → playback_of R D engine (to_int x) ≡ some (engine x)
  playback_of-to_int b = ground arith

  loaded-Waits :
      (o : Option D.Driver) (i : ℤ) (h : LaserHead R D)
      → x < 2 ^ 31
      → i ≡ to_int x
      → Waits o h
      → Waits o (load_frame_source R D (playback_of R D engine i) false h)
        × ((load_frame_source R D (playback_of R D engine i) false h).pb ≡ some (engine x))
  unfolding load_frame_source
  loaded-Waits o i h b e w =
      let loaded : (if h.killed then none else playback_of R D engine i) ≡ some (engine x) =
        ap (λ k. if k then none else playback_of R D engine i) w.alive
        ∙ ap (playback_of R D engine) e
        ∙ playback_of-to_int b in
      (
        record {
          same_driver = w.same_driver;
          no_points = w.no_points;
          at_start = w.at_start;
          alive = w.alive;
          alone = w.alone;
          playing = inr loaded;
        },
        loaded,
      )

  listed-Waits :
      (o : Option D.Driver) (ss : List Signal) (l : PlaybackList) (h : LaserHead R D)
      → ss ≡ load x ∷ []
      → Alone x l
      → l.current_index ≡ to_int x
      → Waits o h
      → Waits o (deliver R D ss (record h { sources = l }))
        × ((deliver R D ss (record h { sources = l })).sources.current_index ≡ to_int x)
  unfolding deliver on_signal
  listed-Waits o ss l h e a now w =
      subst
        (λ ts.
          Waits o (deliver R D ts (record h { sources = l }))
          × ((deliver R D ts (record h { sources = l })).sources.current_index ≡ to_int x))
        (sym e)
        (
          record {
            same_driver = w.same_driver;
            no_points = w.no_points;
            at_start = w.at_start;
            alive = w.alive;
            alone = a;
            playing = w.playing;
          },
          now,
        )

  next_source-Waits :
      (o : Option D.Driver) (h : LaserHead R D)
      → x < 2 ^ 31
      → Waits o h
      → Waits o (next_source R D engine h) × ((next_source R D engine h).pb ≡ some (engine x))
  unfolding next_source on_sources
  next_source-Waits o h b w =
      let l = record h.sources { signals = [] } in
      let (a, now, told) = get_next-Alone R x l (record {
        selected = w.alone.selected;
        looping = w.alone.looping;
        plain = w.alone.plain;
      }) in
      let m = get_next_framesource R l in
      let (k, at) = listed-Waits o m.signals m h told a now w in
      let h' = deliver R D m.signals (record h { sources = m }) in
      let (k', loaded) = loaded-Waits o h'.sources.current_index h' b at k in
      (
        record {
          same_driver = k'.same_driver;
          no_points = k'.no_points;
          at_start = k'.at_start;
          alive = k'.alive;
          alone = k'.alone;
          playing = k'.playing;
        },
        loaded,
      )

  module _ (empty : D.next_frame (engine x) ≡ (none, engine x)) where
    take_frame-Waits :
        (o : Option D.Driver) (h : LaserHead R D)
        → Waits o h
        → ((take_frame R D h).0 ≡ none)
          × Waits o (take_frame R D h).1
          × ((take_frame R D h).1.pb ≡ h.pb)
    unfolding take_frame
    take_frame-Waits o h w = elim w.playing [
      | inl e ↦ rw e (
        refl,
        record {
          same_driver = w.same_driver;
          no_points = w.no_points;
          at_start = w.at_start;
          alive = w.alive;
          alone = w.alone;
          playing = inl refl;
        },
        refl,
      )
      | inr e ↦
          rw (e, empty)
            (
              refl,
              record {
                same_driver = w.same_driver;
                no_points = w.no_points;
                at_start = w.at_start;
                alive = w.alive;
                alone = w.alone;
                playing = inr refl;
              },
              refl,
            )
    ]

    refill-Waits :
        (o : Option D.Driver) (h : LaserHead R D)
        → x < 2 ^ 31
        → Waits o h
        → Waits o (refill R D engine h) × ((refill R D engine h).pb ≡ some (engine x))
    unfolding refill show_or_move_on show_pair show
    refill-Waits o h b w =
        let h' = record h { point_buf = []; frame_index = 0 } in
        let (nothing, k, _) = take_frame-Waits o h' (record {
          same_driver = w.same_driver;
          no_points = refl;
          at_start = refl;
          alive = w.alive;
          alone = w.alone;
          playing = w.playing;
        }) in
        let (k2, loaded) = next_source-Waits o (take_frame R D h').1 b k in
        let again = next_source R D engine (take_frame R D h').1 in
        let (nothing2, k3, same) = take_frame-Waits o again k2 in
        subst
          (λ f.
            let m = show_or_move_on R D engine (f, (take_frame R D h').1) in
            Waits o m × (m.pb ≡ some (engine x)))
          (sym nothing)
          (subst
            (λ f.
              let m = show R D f (take_frame R D again).1 in Waits o m × (m.pb ≡ some (engine x)))
            (sym nothing2)
            (
              record {
                same_driver = k3.same_driver;
                no_points = k3.no_points;
                at_start = k3.at_start;
                alive = k3.alive;
                alone = k3.alone;
                playing = k3.playing;
              },
              same ∙ loaded,
            ))

    send_points-Waits :
        (d : D.Driver) (h : LaserHead R D)
        → D.new_points [] 0 d ≡ (0, d)
        → Waits (some d) h
        → Waits (some d) (send_points R D d h)
    unfolding send_points
    send_points-Waits d h quiet w =
        rw (w.no_points, w.at_start, quiet)
          (record {
            same_driver = refl;
            no_points = refl;
            at_start = refl;
            alive = w.alive;
            alone = w.alone;
            playing = w.playing;
          })

    -- If the only selection of a head in the mode LOOP without shuffling, which is not killed and
    -- has no points left, is a slot below 2^31 whose playback has no frame and stays as it is, and
    -- if its driver asks for more than 300 points and takes nothing when it is given none, then the
    -- loop of `dataRequested` never ends: no number of rounds is enough.
    pub empty_source_never_returns :
        (fuel : ℕ) (d : D.Driver) (h : LaserHead R D)
        → x < 2 ^ 31
        → D.new_points [] 0 d ≡ (0, d)
        → 300 < D.buffer_fill_status d
        → Waits (some d) h
        → feed R D engine fuel h ≡ none
    unfolding feed
    empty_source_never_returns zero d h b quiet space w = refl
    empty_source_never_returns (suc fuel) d h b quiet space w =
        let sent = send_points-Waits d h quiet w in
        let (k, playing) = refill-Waits (some d) (send_points R D d h) b sent in
        let over : leb (length h.point_buf) (send_points R D d h).frame_index ≡ true =
          ap₂ (λ pts i. leb (length pts) i) w.no_points sent.at_start in
        feed_next R D engine fuel d h (engine x) w.same_driver
          (lt→ltb 300 (D.buffer_fill_status d) space) over playing
        ∙ empty_source_never_returns fuel d _ b quiet space k
