-- ===== src/PaIlda/Tests.antt =====
-- The sound card of src/driver_portaudio_ilda.cpp with a buffer that is a list.
use lucifer.Prelude.{
  ℕ, ◌+◌, ◌*◌, ◌≤◌, ◌<◌, ◌≡◌, refl, ap, true, false, ◌||◌, Option, some, List, [], ◌∷◌, ◌++◌, arith,
  dec_lt, ◌==◌, length, get_elem?, drop, All, length-append, length-drop,
}
use lucifer.PaIlda.{
  find_rate, open_device, connect, sample, samples, pa_callback, CircularBuffer, PortAudio, PointF,
  PaIlda,
}
use lucifer.PaIlda.Queue.{Holds}
use lucifer.PaIlda.Output.{IsWritten, pa_callback-fills}
use lucifer.PaIlda.Runs.{
  run, answers, all_enter, all_leave, run-as_queue, Event, gives, plays, took, played,
}
use lucifer.PaIlda.Connect.{Outcome, connect-Outcome}
use lucifer.PaIlda.Card.{with_card, card-Takes}
use lucifer.Head.{Devices}
use lucifer.Head.Feed.{Takes}

abbrev Dot : Type 0
Dot = PointF ℕ

abbrev Ring : Type 0
Ring = (capacity : ℕ) × ((dots : List Dot) × (length dots ≤ capacity))

one_more : (n : ℕ) (xs : List Dot) (a : Dot) → length xs < n → length (xs ++ a ∷ []) ≤ n
one_more n xs a h = omega (arith, length-append xs (a ∷ []))

-- A full buffer loses its first point.
overwritten : (n : ℕ) (xs : List Dot) (a : Dot) → length xs ≤ n → length (drop 1 (xs ++ a ∷ [])) ≤ n
overwritten n xs a h = omega (arith, length-append xs (a ∷ []), length-drop 1 (xs ++ a ∷ []))

less : (n : ℕ) (xs : List Dot) → length xs ≤ n → length (drop 1 xs) ≤ n
less n xs h = omega (arith, length-drop 1 xs)

abbrev push_if : (n : ℕ) (xs : List Dot) → length xs ≤ n → Dot → Dec (length xs < n) → Ring
push_if n xs h a (yes l) = (n, (xs ++ a ∷ [], one_more n xs a l))
push_if n xs h a (no l) = (n, (drop 1 (xs ++ a ∷ []), overwritten n xs a h))

abbrev push : Dot → Ring → Ring
push a q = push_if q.0 q.1.0 q.1.1 a (dec_lt (length q.1.0) q.0)

abbrev listed : CircularBuffer Dot
listed = record {
  Buffer = Ring;
  new_buffer = λ n. (n, ([], omega arith));
  capacity = λ q. q.0;
  size = λ q. length q.1.0;
  push_back = push;
  front = λ q. get_elem? q.1.0 0;
  pop_front = λ q. (q.0, (drop 1 q.1.0, less q.0 q.1.0 q.1.1));
}

push_if-pushed :
    (n : ℕ) (xs : List Dot) (h : length xs ≤ n) (a : Dot) (d : Dec (length xs < n))
    → length xs < n
    → (push_if n xs h a d).1.0 ≡ xs ++ a ∷ []
push_if-pushed n xs h a (yes l) k = refl
push_if-pushed n xs h a (no l) k = absurd (l k)

push_if-capacity :
    (n : ℕ) (xs : List Dot) (h : length xs ≤ n) (a : Dot) (d : Dec (length xs < n))
    → (push_if n xs h a d).0 ≡ n
push_if-capacity n xs h a (yes l) = refl
push_if-capacity n xs h a (no l) = refl

listed-Holds : Holds listed
listed-Holds = record {
  contents = λ q. q.1.0;
  size_of = λ q. refl;
  bounded = λ q. q.1.1;
  made = λ n. (refl, refl);
  pushed = λ q a h. push_if-pushed q.0 q.1.0 q.1.1 a (dec_lt (length q.1.0) q.0) h;
  pushed_capacity = λ q a. push_if-capacity q.0 q.1.0 q.1.1 a (dec_lt (length q.1.0) q.0);
  front_of = λ q a xs e. ap (λ ys. get_elem? ys 0) e;
  popped = λ q a xs e. ap (drop 1) e;
  popped_capacity = λ q. refl;
}

abbrev lit : ℕ → Dot
lit n = record { x = n; y = n; r = 1; g = 2; b = 3 }

abbrev brightness : ℕ → ℕ → ℕ → ℕ
brightness r g b = r + g + b

abbrev card : PaIlda ℕ listed
card = record {
  stream = true;
  valid_devices = 4 ∷ [];
  sr = 44100;
  shutter = false;
  channels = 2;
  ringbuffer = (3, ([], omega arith));
  pps_signals = [];
}

-- Four points for a buffer of three, of which two are played, and then two more of which there is
-- one.
abbrev two_rounds : List (Event ℕ listed listed-Holds 0 brightness)
two_rounds = gives (lit 1 ∷ lit 2 ∷ lit 3 ∷ lit 4 ∷ []) 0 ∷ plays 2 ∷ plays 2 ∷ []

run-as_queue_example :
    let H = listed-Holds in
    (b : Ring) × ((run ℕ listed H 0 brightness two_rounds card
        ≡ some (answers ℕ listed H 0 brightness 2 3 two_rounds [], record card { ringbuffer = b }))
      × ([] ++ all_enter ℕ listed H 0 brightness 3 two_rounds []
          ≡ all_leave ℕ listed H 0 brightness 3 two_rounds [] ++ b.1.0))
unfolding listed-Holds
run-as_queue_example =
    run-as_queue ℕ listed listed-Holds 0 brightness two_rounds card (omega arith, (_, (_, _)))

-- Behind the third point there is silence.
heard :
    answers ℕ listed listed-Holds 0 brightness 2 3 two_rounds []
    ≡ took 3
      ∷ played (some 1 ∷ some 1 ∷ some 2 ∷ some 2 ∷ [])
      ∷ played (some 3 ∷ some 3 ∷ some 0 ∷ some 0 ∷ [])
      ∷ []
unfolding samples sample
heard = refl

pa_callback-fills_example :
    (out : List (Option ℕ)) × (d' : PaIlda ℕ listed) × (pa_callback ℕ listed 0 brightness 5 card
      ≡ some (out, d'))
    × (length out ≡ 2 * 5)
    × All IsWritten out
pa_callback-fills_example =
    pa_callback-fills ℕ listed listed-Holds 0 brightness 5 card (omega arith)

abbrev two_rates : PortAudio
two_rates = record {
  max_output_channels = λ i. 8;
  is_format_supported = λ i channels rate. (rate == 96000) || (rate == 48000);
  open_stream = λ i channels rate. true;
}

connect-Outcome_example : Outcome ℕ listed two_rates 0 card (connect ℕ listed two_rates 0 card)
connect-Outcome_example = connect-Outcome ℕ listed two_rates 0 card

at_96000 : (connect ℕ listed two_rates 0 card).1.sr ≡ 96000
unfolding connect open_device find_rate
at_96000 = refl

abbrev dots_shown : Devices
dots_shown = record {
  Point = Dot;
  PointF = Dot;
  Playback = ℕ;
  Resample = ℕ;
  Driver = ℕ;
  next_frame = λ p. (some (lit p ∷ []), p);
  resample = λ f r. (f, r);
  set_input_pps = λ pps r. pps;
  set_output_pps = λ pps r. r;
  outputs_ilda = λ d. true;
  hw_points_per_second = λ d. 30000;
  buffer_fill_status = λ d. d;
  new_points = λ pts i d. (0, d);
}

card-Takes_example : Takes (with_card ℕ listed listed-Holds dots_shown (λ ps. ps))
card-Takes_example = card-Takes ℕ listed listed-Holds dots_shown (λ ps. ps)
