-- ===== src/DummyIlda/Tests.antt =====
-- The dummy driver of src/driver_dummy_ilda.cpp on small inputs.
use lucifer.Prelude.{◌+◌, ◌≤◌, ◌≡◌, refl, List, [], ◌∷◌}
use lucifer.DummyIlda.{
  new_driver, connect, fill_status, take_points, timeout, call, calls, Call, connects, times_out,
  takes_points,
}
use lucifer.DummyIlda.Buffer.{calls-bounded}

-- 1500 points, of 900 more those that fit, and a timeout.
abbrev two_fills : List Call
two_fills = connects 0 ∷ takes_points 1500 0 ∷ takes_points 1000 100 ∷ times_out ∷ []

two_fills_leave : (calls two_fills new_driver).buffer_fill ≡ 1000
unfolding calls call connect take_points timeout new_driver
two_fills_leave = refl

calls-bounded_example :
    ((calls two_fills new_driver).buffer_fill ≤ 2000)
    × ((calls two_fills new_driver).buffer_fill + fill_status (calls two_fills new_driver) ≡ 2000)
calls-bounded_example = calls-bounded two_fills
