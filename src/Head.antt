-- ===== src/Head.antt =====
-- head.cpp, head.h and framesource.h (`Playback`): a projector head, which plays the sources that
-- its list selects into its driver.
-- The signals of the list are delivered when its slot is done; their handlers touch the head alone.
-- `none` is fuel that ran out.
pub mod Rounds
pub mod Dark
pub mod Kill
pub mod Refill
pub mod Feed
pub mod Empty
mod Tests
use lucifer.Prelude.{
  ℕ, zero, suc, ◌+◌, Bool, true, false, Option, none, some, List, [], ◌∷◌, ltb, leb, if◌then◌else◌,
  length,
}
use lucifer.Prelude.Int.{ℤ, pos, negsuc}
use lucifer.Prelude.Maybe.{◌>>=◌}
use lucifer.Random.{Random}
use lucifer.Playlist.{
  init, select, get_next_framesource, beat_detected, manual_step_clicked, set_selection_mode,
  set_step_mode, PlaybackList, SelectionModes, StepModes, Signal, selection_changed, load,
  dump_current_selection,
}

-- What a head uses: playbacks with their `nextFrame`, the resampler, and an ILDA driver with
-- `ILDABufferFillStatus` (the space left) and `ILDANewPoints` (how many points it took).
pub record Devices : Type 1 where
  pub Point : Type 0
  pub PointF : Type 0
  pub Playback : Type 0
  pub Resample : Type 0
  pub Driver : Type 0
  pub next_frame : Playback → Option (List Point) × Playback
  pub resample : List Point → Resample → List PointF × Resample
  pub set_input_pps : ℕ → Resample → Resample
  pub set_output_pps : ℕ → Resample → Resample
  -- Whether `flags` has `OUTPUTS_ILDA`, and `ILDAHwPointsPerSecond`.
  pub outputs_ilda : Driver → Bool
  pub hw_points_per_second : Driver → ℕ
  pub buffer_fill_status : Driver → ℕ
  pub new_points : List PointF → ℕ → Driver → ℕ × Driver

pub data Emission : Type 0 where
  end_of_source head_active head_inactive : Emission
  new_frame : Bool → Emission
  selection_changed_to : ℕ → Bool → Emission
  selection_mode_changed : SelectionModes → Emission
  step_mode_changed : StepModes → Emission

module _ (R : Random) (D : Devices) where
  open D use {Point, PointF, Playback, Resample, Driver}

  pub record LaserHead : Type 0 where
    pub target_pps : ℕ
    pub driver : Option Driver
    pub pb : Option Playback
    pub point_buf : List PointF
    pub frame_index : ℕ
    pub resampler : Resample
    pub sources : PlaybackList
    pub killed : Bool
    -- The latest first.
    pub emissions : List Emission

  abbrev pub announce : Emission → LaserHead → LaserHead
  announce e h = record h { emissions = e ∷ h.emissions }

  abbrev pub is_active : Option Playback → List PointF → Bool
  is_active (some p) pts = true
  is_active none [] = false
  is_active none (x ∷ xs) = true

  abbrev pub announce_activity : LaserHead → LaserHead
  announce_activity h =
      announce (if is_active h.pb h.point_buf then head_active else head_inactive) h

  -- `loadFrameSource`.
  abbrev pub cut_if : Bool → LaserHead → LaserHead
  cut_if true h = record h { frame_index = 0; point_buf = [] }
  cut_if false h = h

  pub load_frame_source : Option Playback → Bool → LaserHead → LaserHead
  load_frame_source f immediate h =
      announce_activity (cut_if immediate (record h { pb = if h.killed then none else f }))

  pub dump : LaserHead → LaserHead
  unfolding load_frame_source
  dump h = load_frame_source none true h

  -- The slots that the constructor connects to the signals of the list.
  pub on_signal : Signal → LaserHead → LaserHead
  unfolding dump
  on_signal (selection_changed p b) h = announce (selection_changed_to p b) h
  on_signal (load p) h = h
  on_signal dump_current_selection h = dump h

  pub deliver : List Signal → LaserHead → LaserHead
  unfolding on_signal
  deliver [] h = h
  deliver (s ∷ ss) h = on_signal s (deliver ss h)

  -- A slot of the list, with the signals it emits.
  pub on_sources : (PlaybackList → PlaybackList) → LaserHead → LaserHead
  unfolding deliver
  on_sources slot h =
      let l = slot (record h.sources { signals = [] }) in
      deliver l.signals (record h { sources = l })

  -- `pb->nextFrame ()`, if there is a playback.
  pub take_frame : LaserHead → Option (List Point) × LaserHead
  take_frame h = elim h.pb [
    | none ↦ (none, h)
    | some p ↦ ((D.next_frame p).0, record h { pb = some (D.next_frame p).1 })
  ]

  -- `engine->getPlayback (s)` and its `reset ()`, for s above -1.
  abbrev pub playback_of : (ℕ → Playback) → ℤ → Option Playback
  playback_of engine (pos s) = some (engine s)
  playback_of engine (negsuc s) = none

  -- What `dataRequested` does when the playback has no frame.
  pub next_source : (ℕ → Playback) → LaserHead → LaserHead
  unfolding on_sources load_frame_source
  next_source engine h =
      let h' = on_sources (get_next_framesource R) h in
      announce end_of_source
        (load_frame_source (playback_of engine h'.sources.current_index) false h')

  pub show : Option (List Point) → LaserHead → LaserHead
  show none h = announce (new_frame false) h
  show (some f) h = announce (new_frame true) (record h {
    point_buf = (D.resample f h.resampler).0;
    resampler = (D.resample f h.resampler).1;
  })

  pub show_pair : Option (List Point) × LaserHead → LaserHead
  unfolding show
  show_pair r = show r.0 r.1

  -- If the playback has no frame, the next source is asked for one.
  pub show_or_move_on : (ℕ → Playback) → Option (List Point) × LaserHead → LaserHead
  unfolding take_frame next_source show_pair
  show_or_move_on engine (some f, h) = show_pair (some f, h)
  show_or_move_on engine (none, h) = show_pair (take_frame (next_source engine h))

  -- What `dataRequested` does when the points have run out.
  pub refill : (ℕ → Playback) → LaserHead → LaserHead
  unfolding show_or_move_on take_frame
  refill engine h =
      show_or_move_on engine (take_frame (record h { point_buf = []; frame_index = 0 }))

  pub send_points : Driver → LaserHead → LaserHead
  send_points d h =
      let r = D.new_points h.point_buf h.frame_index d in
      record h { driver = some r.1; frame_index = h.frame_index + r.0 }

  -- The loop of `dataRequested`.
  pub feed : (ℕ → Playback) → ℕ → LaserHead → Option LaserHead
  unfolding refill send_points
  feed engine zero h = none
  feed engine (suc fuel) h = elim h.driver [
    | none ↦ some h
    | some d ↦ elim (ltb 300 (D.buffer_fill_status d)) [
      | false ↦ some h
      | true ↦ elim (leb (length h.point_buf) (send_points d h).frame_index) [
        | false ↦ feed engine fuel (send_points d h)
        | true ↦ elim (refill engine (send_points d h)).pb [
          | none ↦ some (refill engine (send_points d h))
          | some p ↦ feed engine fuel (refill engine (send_points d h))
        ]
      ]
    ]
  ]

  -- One round for each point of space, one for an empty buffer and one to stop.
  abbrev pub feed_fuel : Option Driver → ℕ
  feed_fuel none = 1
  feed_fuel (some d) = suc (suc (D.buffer_fill_status d))

  pub data_requested : (ℕ → Playback) → LaserHead → Option LaserHead
  unfolding feed
  data_requested engine h = feed engine (feed_fuel h.driver) h

  pub kill : LaserHead → LaserHead
  unfolding load_frame_source
  kill h = load_frame_source none true (record h { killed = true })

  pub restart : LaserHead → LaserHead
  restart h = record h { killed = false }

  pub set_pps : ℕ → LaserHead → LaserHead
  set_pps pps h = record h { target_pps = pps; resampler = D.set_input_pps pps h.resampler }

  -- The constructor, from a new resampler.
  pub new_head : Resample → LaserHead
  new_head r = record {
    target_pps = 12000;
    driver = none;
    pb = none;
    point_buf = [];
    frame_index = 0;
    resampler = D.set_output_pps 30000 (D.set_input_pps 12000 r);
    sources = init;
    killed = false;
    emissions = [];
  }

  pub hw_pps_changed : ℕ → LaserHead → LaserHead
  hw_pps_changed new_pps h = record h { resampler = D.set_output_pps new_pps h.resampler }

  -- `setDriver`: whether the driver was taken.
  pub set_driver : Option Driver → LaserHead → Bool × LaserHead
  unfolding hw_pps_changed
  set_driver none h = (false, h)
  set_driver (some d) h =
      if D.outputs_ilda d
      then (true, hw_pps_changed (D.hw_points_per_second d) (record h { driver = some d }))
      else (false, h)

  pub data Event : Type 0 where
    requests_data : (ℕ → Playback) → Event
    chooses : ℕ → Bool → Event
    chooses_selection_mode : SelectionModes → Event
    chooses_step_mode : StepModes → Event
    steps_manually hears_beat is_killed restarts : Event
    changes_pps changes_hw_pps : ℕ → Event
    sets_driver : Option Driver → Event

  pub handle : Event → LaserHead → Option LaserHead
  unfolding data_requested kill restart set_pps hw_pps_changed set_driver on_sources
  handle (requests_data engine) h = data_requested engine h
  handle (chooses p b) h = some (on_sources (select R p b) h)
  handle (chooses_selection_mode mode) h =
      some (announce (selection_mode_changed mode) (on_sources (set_selection_mode mode) h))
  handle (chooses_step_mode mode) h =
      some (announce (step_mode_changed mode) (on_sources (set_step_mode mode) h))
  handle steps_manually h = some (on_sources (manual_step_clicked R) h)
  handle hears_beat h = some (on_sources (beat_detected R) h)
  handle is_killed h = some (kill h)
  handle restarts h = some (restart h)
  handle (changes_pps pps) h = some (set_pps pps h)
  handle (changes_hw_pps pps) h = some (hw_pps_changed pps h)
  handle (sets_driver o) h = some ((set_driver o h).1)

  pub handle_all : List Event → LaserHead → Option LaserHead
  unfolding handle
  handle_all [] h = some h
  handle_all (e ∷ es) h = handle e h >>= handle_all es
