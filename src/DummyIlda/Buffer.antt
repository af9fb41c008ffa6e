-- ===== src/DummyIlda/Buffer.antt =====
-- The buffer of src/driver_dummy_ilda.cpp, and the driver as a part of a head (src/head.cpp).
use lucifer.Prelude.{ℕ, ◌+◌, ◌≤◌, ◌≡◌, true, List, [], ◌∷◌, arith, length}
use lucifer.DummyIlda.{
  buffer_sz, new_driver, connect, disconnect, fill_status, take_points, timeout, call, calls,
  DummyIlda, Call, connects, disconnects, times_out, takes_points,
}
use lucifer.Head.{Devices}
use lucifer.Head.Feed.{Takes}

call-bounded :
    (c : Call) (d : DummyIlda) → d.buffer_fill ≤ buffer_sz → (call c d).buffer_fill ≤ buffer_sz
unfolding call connect disconnect take_points timeout
call-bounded (connects index) d h = ground arith
call-bounded disconnects d h = ground arith
call-bounded times_out d h = ground arith
call-bounded (takes_points n offset) d h = ground arith

calls-from :
    (cs : List Call) (d : DummyIlda)
    → d.buffer_fill ≤ buffer_sz
    → (calls cs d).buffer_fill ≤ buffer_sz
unfolding calls
calls-from [] d h = h
calls-from (c ∷ cs) d h = calls-from cs (call c d) (call-bounded c d h)

-- Whatever is called on a new driver, with any offsets, its buffer never holds more than its 2000
-- points, and the space it reports and the points it holds are 2000 together.
pub calls-bounded :
    (cs : List Call)
    → ((calls cs new_driver).buffer_fill ≤ buffer_sz)
      × ((calls cs new_driver).buffer_fill + fill_status (calls cs new_driver) ≡ buffer_sz)
unfolding new_driver fill_status
calls-bounded cs = let h = calls-from cs new_driver (omega arith) in (h, ground arith)

-- The driver with a buffer that is not overfull.
abbrev pub Bounded : Type 0
Bounded = (d : DummyIlda) × (d.buffer_fill ≤ buffer_sz)

pub take_points-bounded :
    (n offset : ℕ) (d : DummyIlda)
    → d.buffer_fill ≤ buffer_sz
    → (take_points n offset d).1.buffer_fill ≤ buffer_sz
unfolding take_points
take_points-bounded n offset d h = ground arith

-- The devices of a head with this driver.
abbrev pub with_dummy : Devices → Devices
with_dummy D = record {
  Point = D.Point;
  PointF = D.PointF;
  Playback = D.Playback;
  Resample = D.Resample;
  Driver = Bounded;
  next_frame = D.next_frame;
  resample = D.resample;
  set_input_pps = D.set_input_pps;
  set_output_pps = D.set_output_pps;
  outputs_ilda = λ d. true;
  hw_points_per_second = λ d. 30000;
  buffer_fill_status = λ d. fill_status d.0;
  new_points = λ pts i d. (
    (take_points (length pts) i d.0).0,
    ((take_points (length pts) i d.0).1, take_points-bounded (length pts) i d.0 d.1),
  );
}

-- The dummy driver takes points the way a head needs it: none that are not there, at least one if
-- there are any and there is space, and the space it reports shrinks by what it takes.
pub dummy-Takes : (D : Devices) → Takes (with_dummy D)
unfolding take_points fill_status
dummy-Takes D = record {
  no_more = λ pts i d h. ground arith;
  some_taken = λ pts i d h p. ground arith;
  space_left = λ pts i d. let b = d.1 in ground arith;
}
