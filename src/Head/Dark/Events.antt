-- ===== src/Head/Dark/Events.antt =====
-- The events that a darkened head of src/head.cpp handles.
use lucifer.Prelude.{
  ℕ, suc, ◌≡◌, refl, ap, ap₂, ◌∙◌, inl, inr, Bool, true, false, Option, none, some, List, [], ◌∷◌,
  ltb, leb, if◌then◌else◌, Bool-cases, length, All,
}
use lucifer.Random.{Random}
use lucifer.Playlist.{select, beat_detected, manual_step_clicked, set_selection_mode, set_step_mode}
use lucifer.Head.Rounds.{feed_idle, feed_full, feed_dry}
use lucifer.Head.{
  refill, send_points, feed, feed_fuel, data_requested, kill, set_pps, hw_pps_changed, set_driver,
  handle, handle_all, Devices, LaserHead, Event, requests_data, chooses, chooses_selection_mode,
  chooses_step_mode, steps_manually, hears_beat, is_killed, restarts, changes_pps, changes_hw_pps,
  sets_driver,
}
use lucifer.Head.Dark.{announce-Dark, load-Dark, on_sources-Dark, refill-Dark, Dark}

module _ (R : Random) (D : Devices) where
  abbrev pub is_restart : Event R D → Bool
  is_restart restarts = true
  is_restart _ = false

  -- The driver after an event, and after many: `setDriver` takes one if it outputs ILDA.
  abbrev pub driver_next : Event R D → Option D.Driver → Option D.Driver
  driver_next (sets_driver (some d)) o = if D.outputs_ilda d then some d else o
  driver_next _ o = o

  abbrev pub driver_after : List (Event R D) → Option D.Driver → Option D.Driver
  driver_after [] o = o
  driver_after (e ∷ es) o = driver_after es (driver_next e o)

  module _ (quiet : (d : D.Driver) → D.new_points [] 0 d ≡ (0, d)) where
    send_points-Dark :
        (d : D.Driver) (h : LaserHead R D)
        → Dark R D (some d) h
        → Dark R D (some d) (send_points R D d h)
    unfolding send_points
    send_points-Dark d h k =
        rw (k.no_points, k.at_start, quiet d)
          (record {
            same_driver = refl;
            nothing_played = k.nothing_played;
            no_points = refl;
            at_start = refl;
            is_dead = k.is_dead;
          })

    data_requested-Dark :
        (o : Option D.Driver) (engine : ℕ → D.Playback) (h : LaserHead R D)
        → Dark R D o h
        → (m : LaserHead R D) × (data_requested R D engine h ≡ some m) × Dark R D o m
    unfolding data_requested
    data_requested-Dark none engine h k = (
      h,
      ap (λ o. feed R D engine (feed_fuel R D o) h) k.same_driver
          ∙ feed_idle R D engine 0 h k.same_driver,
      k,
    )
    data_requested-Dark (some d) engine h k =
        let fuel = suc (D.buffer_fill_status d) in
        let start = ap (λ o. feed R D engine (feed_fuel R D o) h) k.same_driver in
        elim (Bool-cases (ltb 300 (D.buffer_fill_status d))) [
          | inr e ↦ (h, start ∙ feed_full R D engine fuel d h k.same_driver e, k)
          | inl e ↦
              let sent = send_points-Dark d h k in
              let done = refill-Dark R D (some d) engine (send_points R D d h) sent in
              let over : leb (length h.point_buf) (send_points R D d h).frame_index ≡ true =
                ap₂ (λ pts i. leb (length pts) i) k.no_points sent.at_start in
              (
                refill R D engine (send_points R D d h),
                start ∙ feed_dry R D engine fuel d h k.same_driver e over done.nothing_played,
                done,
              )
        ]

    handle-Dark :
        (o : Option D.Driver) (e : Event R D) (h : LaserHead R D)
        → is_restart e ≡ false
        → Dark R D o h
        → (m : LaserHead R D) × (handle R D e h ≡ some m) × Dark R D (driver_next e o) m
    unfolding handle kill set_pps hw_pps_changed set_driver
    handle-Dark o (requests_data engine) h n k = data_requested-Dark o engine h k
    handle-Dark o (chooses p b) h n k = (_, refl, on_sources-Dark R D o (select R p b) h k)
    handle-Dark o (chooses_selection_mode mode) h n k =
        (_, refl, announce-Dark R D o _ _ (on_sources-Dark R D o (set_selection_mode mode) h k))
    handle-Dark o (chooses_step_mode mode) h n k =
        (_, refl, announce-Dark R D o _ _ (on_sources-Dark R D o (set_step_mode mode) h k))
    handle-Dark o steps_manually h n k =
        (_, refl, on_sources-Dark R D o (manual_step_clicked R) h k)
    handle-Dark o hears_beat h n k = (_, refl, on_sources-Dark R D o (beat_detected R) h k)
    handle-Dark o is_killed h n k = (
      _,
      refl,
      load-Dark R D o none true (record h { killed = true })
          (record {
            same_driver = k.same_driver;
            nothing_played = k.nothing_played;
            no_points = k.no_points;
            at_start = k.at_start;
            is_dead = refl;
          }),
    )
    handle-Dark o restarts h n k = cc
    handle-Dark o (changes_pps pps) h n k = (
      _,
      refl,
      record {
        same_driver = k.same_driver;
        nothing_played = k.nothing_played;
        no_points = k.no_points;
        at_start = k.at_start;
        is_dead = k.is_dead;
      },
    )
    handle-Dark o (changes_hw_pps pps) h n k = (
      _,
      refl,
      record {
        same_driver = k.same_driver;
        nothing_played = k.nothing_played;
        no_points = k.no_points;
        at_start = k.at_start;
        is_dead = k.is_dead;
      },
    )
    handle-Dark o (sets_driver none) h n k = (h, refl, k)
    handle-Dark o (sets_driver (some d)) h n k = elim (Bool-cases (D.outputs_ilda d)) [
      | inr refused ↦ (h, rw refused refl, rw refused k)
      | inl taken ↦ (
        hw_pps_changed R D (D.hw_points_per_second d) (record h { driver = some d }),
        rw taken refl,
        rw taken (record {
          same_driver = refl;
          nothing_played = k.nothing_played;
          no_points = k.no_points;
          at_start = k.at_start;
          is_dead = k.is_dead;
        }),
      )
    ]

    pub handle_all-Dark :
        (o : Option D.Driver) (es : List (Event R D)) (h : LaserHead R D)
        → All (λ e. is_restart e ≡ false) es
        → Dark R D o h
        → (m : LaserHead R D) × (handle_all R D es h ≡ some m) × Dark R D (driver_after es o) m
    unfolding handle_all
    handle_all-Dark o [] h n k = (h, refl, k)
    handle_all-Dark o (e ∷ es) h n k =
        let (m, made, dark) = handle-Dark o e h n.0 k in
        let (m', made', dark') = handle_all-Dark (driver_next e o) es m n.1 dark in
        (m', rw made made', dark')
