-- ===== src/Engine/Heads/Emergency.antt =====
-- `kill` of src/engine.cpp over the heads of src/head.cpp.
use lucifer.Prelude.{
  ℕ, zero, suc, ◌≡◌, refl, ap, Bool, false, none, some, List, [], ◌∷◌, get_elem?, All,
}
use mathlib.Core.Option
use lucifer.Random.{Random}
use lucifer.Head.{handle_all, Devices, LaserHead, Event}
use lucifer.Head.Dark.{kill-Dark, Dark}
use lucifer.Head.Dark.Events.{is_restart, driver_after, handle_all-Dark}
use lucifer.Engine.Heads.{Heads, kill_head, for_all, kill_all}

module _ (R : Random) (D : Devices) (quiet : (d : D.Driver) → D.new_points [] 0 d ≡ (0, d))
    (shutter : Bool → D.Driver → D.Driver) where
  for_all-get :
      (f : LaserHead R D → LaserHead R D) (hs : Heads R D) (i : ℕ) (h : LaserHead R D)
      → get_elem? hs i ≡ some (some h)
      → get_elem? (for_all R D f hs) i ≡ some (some (f h))
  for_all-get f [] i h e = cc
  for_all-get f (o ∷ hs) zero h e = ap (λ r. Option.map (Option.map f) r) e
  for_all-get f (o ∷ hs) (suc i) h e = for_all-get f hs i h e

  killed-Dark :
      (h : LaserHead R D) → Dark R D (Option.map (shutter false) h.driver) (kill_head R D shutter h)
  killed-Dark h =
      let dark = kill-Dark R D h in
      record {
        same_driver = refl;
        nothing_played = dark.nothing_played;
        no_points = dark.no_points;
        at_start = dark.at_start;
        is_dead = dark.is_dead;
      }

  -- After `kill` of the engine, every head that is up has the shutter of its driver closed, and if
  -- a driver takes nothing when it is given no points, then whatever events a head handles before a
  -- `restart`, it handles all of them, it plays nothing, and its driver is given nothing: that is
  -- the one whose shutter was closed, or the last one that `setDriver` took since, as it was then.
  pub killed_engine_sends_nothing :
      (hs : Heads R D) (i : ℕ) (h : LaserHead R D) (es : List (Event R D))
      → get_elem? hs i ≡ some (some h)
      → All (λ e. is_restart R D e ≡ false) es
      → (k m : LaserHead R D) × (get_elem? (kill_all R D shutter hs) i ≡ some (some k))
        × (handle_all R D es k ≡ some m)
        × (m.driver ≡ driver_after R D es (Option.map (shutter false) h.driver))
        × (m.pb ≡ none)
        × (m.point_buf ≡ [])
  unfolding kill_all
  killed_engine_sends_nothing hs i h es up no_restart =
      let (m, made, dark) =
        handle_all-Dark R D quiet (Option.map (shutter false) h.driver) es (kill_head R D shutter h)
          no_restart (killed-Dark h) in
      (
        kill_head R D shutter h,
        m,
        for_all-get (kill_head R D shutter) hs i h up,
        made,
        dark.same_driver,
        dark.nothing_played,
        dark.no_points,
      )
