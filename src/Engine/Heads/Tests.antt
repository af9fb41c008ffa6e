-- ===== src/Engine/Heads/Tests.antt =====
-- `kill` of src/engine.cpp on two heads of which one is up.
use lucifer.Prelude.{
  ℕ, ◌-◌, min, ◌≡◌, refl, Bool, true, false, none, some, [], ◌∷◌, arith, length, get_elem?,
}
use lucifer.Random.{identity_shuffle}
use lucifer.Playlist.{init}
use lucifer.Head.{handle_all, Devices, LaserHead, requests_data, chooses}
use lucifer.Engine.Heads.{kill_all}
use lucifer.Engine.Heads.Emergency.{killed_engine_sends_nothing}

-- A driver is its shutter and the space it has.
abbrev shuttered : Devices
shuttered = record {
  Point = ℕ;
  PointF = ℕ;
  Playback = ℕ;
  Resample = ℕ;
  Driver = Bool × ℕ;
  next_frame = λ p. (some (p ∷ []), p);
  resample = λ f r. (f, r);
  set_input_pps = λ pps r. pps;
  set_output_pps = λ pps r. r;
  outputs_ilda = λ d. true;
  hw_points_per_second = λ d. 30000;
  buffer_fill_status = λ d. d.1;
  new_points = λ pts i d. (min (length pts - i) d.1, (d.0, d.1 - min (length pts - i) d.1));
}

abbrev close : Bool → Bool × ℕ → Bool × ℕ
close open_ d = (open_, d.1)

abbrev running : LaserHead identity_shuffle shuttered
running = record {
  target_pps = 12000;
  driver = some (true, 400);
  pb = some 7;
  point_buf = 7 ∷ 7 ∷ [];
  frame_index = 1;
  resampler = 12000;
  sources = record init { selections = 3 ∷ [] };
  killed = false;
  emissions = [];
}

nothing_taken : (d : Bool × ℕ) → shuttered.new_points [] 0 d ≡ (0, d)
nothing_taken d =
    let none_sent : min (0 - 0) d.1 ≡ 0 = omega arith in
    let same : d.1 - min (0 - 0) d.1 ≡ d.1 = omega arith in λ i. (none_sent i, (d.0, same i))

killed_engine_sends_nothing_example :
    (k m : LaserHead identity_shuffle shuttered) × (get_elem?
        (kill_all identity_shuffle shuttered close (none ∷ some running ∷ []))
        1
      ≡ some (some k))
    × (handle_all identity_shuffle shuttered (requests_data (λ s. s) ∷ chooses 5 true ∷ []) k
        ≡ some m)
    × (m.driver ≡ some (false, 400))
    × (m.pb ≡ none)
    × (m.point_buf ≡ [])
killed_engine_sends_nothing_example =
    killed_engine_sends_nothing identity_shuffle shuttered nothing_taken close
      (none ∷ some running ∷ []) 1 running (requests_data (λ s. s) ∷ chooses 5 true ∷ []) refl
      (refl, (refl, _))
