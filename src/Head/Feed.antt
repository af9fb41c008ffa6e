-- ===== src/Head/Feed.antt =====
-- The loop of `dataRequested` of src/head.cpp and the rounds it needs.
use lucifer.Prelude.{
  ℕ, zero, suc, ◌+◌, ◌≤◌, ◌<◌, ◌≡◌, refl, sym, ap, subst, ◌⊎◌, inl, inr, true, false, Option, none,
  some, List, arith, ltb, leb, Bool-cases, Option-cases, length,
}
use lucifer.Random.{Random}
use lucifer.Head.{refill, send_points, feed, feed_fuel, data_requested, Devices, LaserHead}
use lucifer.Head.Rounds.{feed_full, feed_more, feed_dry, feed_next}
use lucifer.Head.Refill.{refill-Filled}

-- What the drivers of Lucifer promise: `ILDANewPoints` takes points that are there, at least one if
-- there are any and there is space, and the space shrinks by what it takes.
pub record Takes (D : Devices) : Type 0 where
  pub no_more :
      (pts : List D.PointF) (i : ℕ) (d : D.Driver)
      → i ≤ length pts
      → i + (D.new_points pts i d).0 ≤ length pts
  pub some_taken :
      (pts : List D.PointF) (i : ℕ) (d : D.Driver)
      → i < length pts
      → 0 < D.buffer_fill_status d
      → 0 < (D.new_points pts i d).0
  pub space_left :
      (pts : List D.PointF) (i : ℕ) (d : D.Driver)
      → D.buffer_fill_status (D.new_points pts i d).1 + (D.new_points pts i d).0
        ≡ D.buffer_fill_status d

module _ (R : Random) (D : Devices) where
  -- The driver is full, or nothing is left to play; and the index is inside the points.
  pub record Fed (r : Option (LaserHead R D)) : Type 0 where
    pub head : LaserHead R D
    pub driver : D.Driver
    pub returned : r ≡ some head
    pub connected : head.driver ≡ some driver
    pub satisfied : (D.buffer_fill_status driver ≤ 300) ⊎ (head.pb ≡ none)
    pub inside : head.frame_index ≤ length head.point_buf

  abbrev pub sent_driver : D.Driver → LaserHead R D → D.Driver
  sent_driver d h = (D.new_points h.point_buf h.frame_index d).1

  send_points-driver :
      (d : D.Driver) (h : LaserHead R D) → (send_points R D d h).driver ≡ some (sent_driver d h)
  unfolding send_points
  send_points-driver d h = refl

  send_points-index :
      (d : D.Driver) (h : LaserHead R D)
      → (send_points R D d h).frame_index
        ≡ h.frame_index + (D.new_points h.point_buf h.frame_index d).0
  unfolding send_points
  send_points-index d h = refl

  send_points-buf :
      (d : D.Driver) (h : LaserHead R D) → (send_points R D d h).point_buf ≡ h.point_buf
  unfolding send_points
  send_points-buf d h = refl

  -- The playbacks that the engine hands out have a frame, and a frame has points.
  module _ (takes : Takes D) (engine : ℕ → D.Playback)
      (shows : (s : ℕ) → (f : List D.Point) × ((D.next_frame (engine s)).0 ≡ some f))
      (points : (p : D.Playback) (f : List D.Point) (r : D.Resample)
        → (D.next_frame p).0 ≡ some f
        → 0 < length (D.resample f r).0) where
    full-Fed :
        (fuel : ℕ) (d : D.Driver) (h : LaserHead R D)
        → h.driver ≡ some d
        → h.frame_index ≤ length h.point_buf
        → ltb 300 (D.buffer_fill_status d) ≡ false
        → Fed (feed R D engine (suc fuel) h)
    full-Fed fuel d h e i full = record {
      head = h;
      driver = d;
      returned = feed_full R D engine fuel d h e full;
      connected = e;
      satisfied = inl (ground arith);
      inside = i;
    }

    -- After a round whose points have run out.
    over-Fed :
        (fuel : ℕ) (d : D.Driver) (h : LaserHead R D)
        → h.driver ≡ some d
        → ltb 300 (D.buffer_fill_status d) ≡ true
        → leb (length h.point_buf) (send_points R D d h).frame_index ≡ true
        → ((k : LaserHead R D)
            → k.driver ≡ some (sent_driver d h)
            → k.frame_index < length k.point_buf
            → Fed (feed R D engine fuel k))
        → Fed (feed R D engine (suc fuel) h)
    over-Fed fuel d h e space over next =
        let k = refill R D engine (send_points R D d h) in
        let filled =
          refill-Filled R D engine shows points (some (sent_driver d h)) (send_points R D d h)
            (send_points-driver d h) in
        elim (Option-cases k.pb) [
          | inl dry ↦ record {
            head = k;
            driver = sent_driver d h;
            returned = feed_dry R D engine fuel d h e space over dry;
            connected = filled.same_driver;
            satisfied = inr dry;
            inside = omega (arith, filled.at_start);
          }
          | inr (p, playing) ↦
              subst Fed (sym (feed_next R D engine fuel d h p e space over playing)) (
                next k filled.same_driver (elim filled.stocked [
                  | inl dry ↦ cc
                  | inr some_points ↦ omega (arith, filled.at_start)
                ]))
        ]

    stocked-Fed :
        (fuel : ℕ) (d : D.Driver) (h : LaserHead R D)
        → h.driver ≡ some d
        → h.frame_index < length h.point_buf
        → D.buffer_fill_status d < fuel
        → Fed (feed R D engine fuel h)
    stocked-Fed zero d h e i b = elim b [ ]
    stocked-Fed (suc fuel) d h e i b = elim (Bool-cases (ltb 300 (D.buffer_fill_status d))) [
      | inr full ↦ full-Fed fuel d h e (omega arith) full
      | inl space ↦
          let taken = takes.some_taken h.point_buf h.frame_index d i (ground arith) in
          let left = takes.space_left h.point_buf h.frame_index d in
          elim (Bool-cases (leb (length h.point_buf) (send_points R D d h).frame_index)) [
            | inl over ↦
                over-Fed fuel d h e space over
                  (λ k kd ki. stocked-Fed fuel (sent_driver d h) k kd ki (omega arith))
            | inr more ↦ subst Fed (sym (feed_more R D engine fuel d h e space more)) (
                stocked-Fed fuel (sent_driver d h) (send_points R D d h) (send_points-driver d h)
                  (ground (arith, send_points-buf d h)) (omega arith))
          ]
    ]

    -- `dataRequested` of a head with a driver, whose index is inside its points, returns, if its
    -- engine's playbacks have a first frame, frames give points, and the driver takes points as
    -- `Takes` says; and then the driver has room for at most 300 points or nothing is left to play,
    -- and the index is inside the points.
    pub data_requested_returns :
        (d : D.Driver) (h : LaserHead R D)
        → h.driver ≡ some d
        → h.frame_index ≤ length h.point_buf
        → Fed (data_requested R D engine h)
    unfolding data_requested
    data_requested_returns d h e i =
        let fuel = suc (D.buffer_fill_status d) in
        let start = ap (λ o. feed R D engine (feed_fuel R D o) h) e in
        subst Fed (sym start) (elim (Bool-cases (ltb 300 (D.buffer_fill_status d))) [
          | inr full ↦ full-Fed fuel d h e i full
          | inl space ↦ elim (Bool-cases (leb (length h.point_buf) h.frame_index)) [
            | inr more ↦ stocked-Fed (suc fuel) d h e (ground arith) (omega arith)
            | inl over ↦
                let left = takes.space_left h.point_buf h.frame_index d in
                over-Fed fuel d h e space (ground (arith, send_points-index d h))
                  (λ k kd ki. stocked-Fed fuel (sent_driver d h) k kd ki (omega arith))
          ]
        ])
