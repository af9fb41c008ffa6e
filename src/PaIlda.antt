-- ===== src/PaIlda.antt =====
-- driver_portaudio_ilda.cpp and driver_portaudio_ilda.h: points as sound on a sound card.
-- `none` is a read outside a vector or of an empty buffer. `Float` are the floats of the card.
pub mod Queue
pub mod Runs
pub mod Output
pub mod Connect
pub mod Card
mod Tests
use lucifer.Prelude.{
  ℕ, zero, suc, ◌-◌, ◌*◌, Bool, true, false, not, Option, none, some, List, [], ◌∷◌, ◌++◌, ltb, leb,
  ◌==◌, if◌then◌else◌, length, get_elem?, replicate,
}
use lucifer.Prelude.Maybe.{◌>>=◌}
use lucifer.DummyIlda.{minus_size}

abbrev pub buffer_sz : ℕ
buffer_sz = 1024

-- `boost::circular_buffer`.
pub record CircularBuffer (A : Type 0) : Type 1 where
  pub Buffer : Type 0
  pub new_buffer : ℕ → Buffer
  pub capacity : Buffer → ℕ
  pub size : Buffer → ℕ
  pub push_back : A → Buffer → Buffer
  pub front : Buffer → Option A
  pub pop_front : Buffer → Buffer

-- What PortAudio knows of a device, and what it does.
pub record PortAudio : Type 0 where
  pub max_output_channels : ℕ → ℕ
  pub is_format_supported : ℕ → ℕ → ℕ → Bool
  pub open_stream : ℕ → ℕ → ℕ → Bool

abbrev pub sample_rates : List ℕ
sample_rates = 192000 ∷ 176400 ∷ 96000 ∷ 88200 ∷ 48000 ∷ 44100 ∷ []

-- `while ((sr = srates[j]))`: the rate, and whether it is supported.
pub find_rate : (ℕ → Bool) → List ℕ → ℕ × Bool
find_rate supported [] = (0, false)
find_rate supported (rate ∷ rates) =
    let later = find_rate supported rates in if supported rate then (rate, true) else later

pub record PointF (Float : Type 0) : Type 0 where
  pub x : Float
  pub y : Float
  pub r : Float
  pub g : Float
  pub b : Float

module _ (Float : Type 0) (C : CircularBuffer (PointF Float)) where
  pub record PaIlda : Type 0 where
    pub stream : Bool
    pub valid_devices : List ℕ
    pub sr : ℕ
    pub shutter : Bool
    pub channels : ℕ
    pub ringbuffer : C.Buffer
    -- What `ILDAHwPPSChanged` was emitted with, the latest first.
    pub pps_signals : List ℕ

  pub new_pa_ilda : ℕ → PaIlda
  new_pa_ilda channels = record {
    stream = false;
    valid_devices = [];
    sr = 44100;
    shutter = false;
    channels = channels;
    ringbuffer = C.new_buffer buffer_sz;
    pps_signals = [];
  }

  -- `enumerateHardware`, for so many devices from the one given on.
  pub find_devices : PortAudio → ℕ → ℕ → PaIlda → List ℕ × PaIlda
  find_devices P zero i d = ([], d)
  find_devices P (suc n) i d =
      let is_stereo = leb 2 (P.max_output_channels i) in
      let rest =
        find_devices P n (suc i)
          (if is_stereo then record d { valid_devices = d.valid_devices ++ i ∷ [] } else d) in
      (if is_stereo then i ∷ rest.0 else rest.0, rest.1)

  -- `connect`, once it has its device.
  pub open_device : PortAudio → ℕ → PaIlda → Bool × PaIlda
  unfolding find_rate
  open_device P device d =
      let most = P.max_output_channels device in
      let channels = if ltb 6 most then 6 else most in
      let rate = find_rate (P.is_format_supported device channels) sample_rates in
      let ready = record d { channels = channels; sr = rate.0 } in
      let told = record ready { pps_signals = rate.0 ∷ ready.pps_signals } in
      if not rate.1
      then (false, ready)
      else if P.open_stream device channels rate.0
      then (true, record told { stream = true })
      else (false, told)

  -- `connect`: whether it did, and the driver.
  pub connect : PortAudio → ℕ → PaIlda → Bool × PaIlda
  unfolding open_device
  connect P index d = elim (get_elem? d.valid_devices index) [
    | none ↦ (false, d)
    | some device ↦ open_device P device d
  ]

  pub disconnect : PaIlda → Bool × PaIlda
  disconnect d = if d.stream then (true, record d { stream = false }) else (false, d)

  -- `ILDABufferFillStatus`.
  pub fill_status : PaIlda → ℕ
  fill_status d = minus_size (C.capacity d.ringbuffer) (C.size d.ringbuffer)

  -- The loop of `ILDANewPoints`, from i on for n rounds.
  pub push_points : ℕ → ℕ → List (PointF Float) → C.Buffer → Option C.Buffer
  push_points zero i pts q = some q
  push_points (suc n) i pts q = get_elem? pts i >>= λ p. push_points n (suc i) pts (C.push_back p q)

  pub transfer : List (PointF Float) → ℕ → PaIlda → ℕ
  unfolding fill_status
  transfer pts offset d =
      let wanted = minus_size (length pts) offset in
      if ltb (fill_status d) wanted then fill_status d else wanted

  -- `ILDANewPoints`.
  pub new_points : List (PointF Float) → ℕ → PaIlda → Option (ℕ × PaIlda)
  unfolding push_points transfer
  new_points pts offset d = push_points (transfer pts offset d) offset pts d.ringbuffer >>= λ q.
      some (transfer pts offset d, record d { ringbuffer = q })

  module _ (silence : Float) (intensity : Float → Float → Float → Float) where
    -- What the callback writes for channel j, if anything.
    pub sample : ℕ → PointF Float → Option Float
    sample j p =
        if j == 0
        then some p.x
        else if j == 1
        then some p.y
        else if j == 2
        then some p.r
        else if j == 3
        then some p.g
        else if j == 4
        then some p.b
        else if j == 5
        then some (intensity p.r p.g p.b)
        else none

    -- The loop over the channels, from j on for n rounds.
    pub samples : ℕ → ℕ → PointF Float → List (Option Float)
    unfolding sample
    samples zero j p = []
    samples (suc n) j p = sample j p ∷ samples n (suc j) p

    -- The loop over the points.
    pub play_points : ℕ → ℕ → C.Buffer → Option (List (Option Float) × C.Buffer)
    unfolding samples
    play_points channels zero q = some ([], q)
    play_points channels (suc n) q = do
      p ← C.front q
      rest ← play_points channels n (C.pop_front q)
      some (samples channels 0 p ++ rest.0, rest.1)

    -- The rounds of `paCallback`, and its silence.
    pub play_frames : ℕ → ℕ → PaIlda → Option (List (Option Float) × PaIlda)
    unfolding play_points
    play_frames nf frames d = play_points d.channels nf d.ringbuffer >>= λ r. some (
      r.0 ++ (if ltb nf frames then replicate (d.channels * (frames - nf)) (some silence) else []),
      record d { ringbuffer = r.1 },
    )

    -- `paCallback`: the output buffer and the driver.
    pub pa_callback : ℕ → PaIlda → Option (List (Option Float) × PaIlda)
    unfolding play_frames
    pa_callback frames d =
        play_frames (if ltb (C.size d.ringbuffer) frames then C.size d.ringbuffer else frames)
          frames d
