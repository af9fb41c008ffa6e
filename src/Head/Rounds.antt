-- ===== src/Head/Rounds.antt =====
-- The rounds of the loop of `dataRequested` (src/head.cpp), one by one.
use lucifer.Prelude.{ℕ, suc, ◌≡◌, true, false, none, some, arith, ltb, leb, length}
use lucifer.Random.{Random}
use lucifer.Head.{refill, send_points, feed, Devices, LaserHead}

module _ (R : Random) (D : Devices) (engine : ℕ → D.Playback) (fuel : ℕ) where
  pub feed_idle : (h : LaserHead R D) → h.driver ≡ none → feed R D engine (suc fuel) h ≡ some h
  unfolding feed
  feed_idle h e = ground (arith, e)

  pub feed_full :
      (d : D.Driver) (h : LaserHead R D)
      → h.driver ≡ some d
      → ltb 300 (D.buffer_fill_status d) ≡ false
      → feed R D engine (suc fuel) h ≡ some h
  unfolding feed
  feed_full d h e full = ground (arith, e, full)

  pub feed_more :
      (d : D.Driver) (h : LaserHead R D)
      → h.driver ≡ some d
      → ltb 300 (D.buffer_fill_status d) ≡ true
      → leb (length h.point_buf) (send_points R D d h).frame_index ≡ false
      → feed R D engine (suc fuel) h ≡ feed R D engine fuel (send_points R D d h)
  unfolding feed
  feed_more d h e space more = ground (arith, e, space, more)

  pub feed_dry :
      (d : D.Driver) (h : LaserHead R D)
      → h.driver ≡ some d
      → ltb 300 (D.buffer_fill_status d) ≡ true
      → leb (length h.point_buf) (send_points R D d h).frame_index ≡ true
      → (refill R D engine (send_points R D d h)).pb ≡ none
      → feed R D engine (suc fuel) h ≡ some (refill R D engine (send_points R D d h))
  unfolding feed
  feed_dry d h e space over dry = ground (arith, e, space, over, dry)

  pub feed_next :
      (d : D.Driver) (h : LaserHead R D) (p : D.Playback)
      → h.driver ≡ some d
      → ltb 300 (D.buffer_fill_status d) ≡ true
      → leb (length h.point_buf) (send_points R D d h).frame_index ≡ true
      → (refill R D engine (send_points R D d h)).pb ≡ some p
      → feed R D engine (suc fuel) h
        ≡ feed R D engine fuel (refill R D engine (send_points R D d h))
  unfolding feed
  feed_next d h p e space over next = ground (arith, e, space, over, next)
