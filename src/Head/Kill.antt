-- ===== src/Head/Kill.antt =====
-- `kill` of src/head.cpp.
use lucifer.Prelude.{◌≡◌, false, none, some, List, [], ◌∷◌, All}
use lucifer.Random.{Random}
use lucifer.Head.{kill, handle, handle_all, Devices, LaserHead, Event, is_killed}
use lucifer.Head.Dark.{kill-Dark}
use lucifer.Head.Dark.Events.{is_restart, driver_after, handle_all-Dark}

module _ (R : Random) (D : Devices) (quiet : (d : D.Driver) → D.new_points [] 0 d ≡ (0, d)) where
  -- After `kill`, and until a `restart`, a head whose drivers take nothing when they are given no
  -- points handles every event, sends its driver nothing and plays nothing: its driver is as it
  -- was, or it is the last one that `setDriver` took since, as it was then.
  pub killed_sends_nothing :
      (es : List (Event R D)) (h : LaserHead R D)
      → All (λ e. is_restart R D e ≡ false) es
      → (m : LaserHead R D) × (handle_all R D (is_killed ∷ es) h ≡ some m)
        × (m.driver ≡ driver_after R D es h.driver)
        × (m.pb ≡ none)
        × (m.point_buf ≡ [])
  unfolding handle_all handle
  killed_sends_nothing es h n =
      let (m, made, dark) =
        handle_all-Dark R D quiet h.driver es (kill R D h) n (kill-Dark R D h) in
      (m, made, dark.same_driver, dark.nothing_played, dark.no_points)
