-- ===== src/Head/Tests.antt =====
-- The head of src/head.cpp with a small driver.
use lucifer.Prelude.{
  ℕ, zero, suc, ◌-◌, min, ◌≡◌, refl, inl, true, false, Option, none, some, List, [], ◌∷◌, arith,
  length,
}
use lucifer.Prelude.Maybe.{◌>>=◌}
use lucifer.Random.{identity_shuffle}
use lucifer.Playlist.{init}
use lucifer.Head.{
  take_frame, show, show_pair, show_or_move_on, refill, send_points, feed, data_requested,
  handle_all, Devices, LaserHead, Event, requests_data, chooses, hears_beat, is_killed, sets_driver,
}
use lucifer.Head.Kill.{killed_sends_nothing}
use lucifer.Head.Feed.{data_requested_returns, Takes, Fed}
use lucifer.Head.Empty.{empty_source_never_returns, Waits}

-- A driver is the space it has left. A playback is the number of its frames left; each has a point.
abbrev countdown_frames : ℕ → Option (List ℕ) × ℕ
countdown_frames zero = (none, 0)
countdown_frames (suc n) = (some (n ∷ []), n)

abbrev devices : Devices
devices = record {
  Point = ℕ;
  PointF = ℕ;
  Playback = ℕ;
  Resample = ℕ;
  Driver = ℕ;
  next_frame = countdown_frames;
  resample = λ f r. (0 ∷ f, r);
  set_input_pps = λ pps r. pps;
  set_output_pps = λ pps r. r;
  outputs_ilda = λ d. true;
  hw_points_per_second = λ d. 30000;
  buffer_fill_status = λ d. d;
  new_points = λ pts i d. (min (length pts - i) d, d - min (length pts - i) d);
}

devices-Takes : Takes devices
devices-Takes = record {
  no_more = λ pts i d h. ground arith;
  some_taken = λ pts i d h p. ground arith;
  space_left = λ pts i d. ground arith;
}

abbrev head : LaserHead identity_shuffle devices
head = record {
  target_pps = 12000;
  driver = some 305;
  pb = none;
  point_buf = [];
  frame_index = 0;
  resampler = 12000;
  sources = record init { selections = 3 ∷ [] };
  killed = false;
  emissions = [];
}

-- A frame of one point, and the point that the resampler puts before it.
one_frame :
    (data_requested identity_shuffle devices
        (λ s. s)
        (record head { driver = some 301; pb = some 3 })
      >>= λ h. h.driver)
    ≡ some 299
unfolding data_requested feed refill show_or_move_on show_pair show take_frame send_points
one_frame = refl

abbrev killed_events : List (Event identity_shuffle devices)
killed_events =
    chooses 5 true ∷ sets_driver (some 400) ∷ requests_data (λ s. suc s) ∷ hears_beat ∷ []

killed_sends_nothing_example :
    (m : LaserHead identity_shuffle devices) × (handle_all identity_shuffle devices
        (is_killed ∷ killed_events)
        head
      ≡ some m)
    × (m.driver ≡ some 400)
    × (m.pb ≡ none)
    × (m.point_buf ≡ [])
killed_sends_nothing_example =
    killed_sends_nothing identity_shuffle devices (λ d. ground arith) killed_events head
      (refl, (refl, (refl, (refl, _))))

data_requested_returns_example :
    Fed identity_shuffle devices (data_requested identity_shuffle devices (λ s. suc s) head)
data_requested_returns_example =
    data_requested_returns identity_shuffle devices devices-Takes (λ s. suc s) (λ s. (s ∷ [], refl))
      (λ p f r e. omega arith) 305 head refl (omega arith)

head-Waits : Waits identity_shuffle devices (λ s. 0) 3 (some 305) head
unfolding init
head-Waits = record {
  same_driver = refl;
  no_points = refl;
  at_start = refl;
  alive = refl;
  alone = record { selected = refl; looping = refl; plain = refl };
  playing = inl refl;
}

empty_source_never_returns_example : feed identity_shuffle devices (λ s. 0) 1000 head ≡ none
empty_source_never_returns_example =
    empty_source_never_returns identity_shuffle devices (λ s. 0) 3 refl 1000 305 head (omega arith)
      (ground arith) (omega arith) head-Waits
