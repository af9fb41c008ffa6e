-- ===== src/Midi.antt =====
-- midi.cpp, midi.h, alsamidi.cpp and alsamidi.h: bytes between the sound card and the channels.
-- A byte is a number below 256. `none` is fuel that ran out.
pub mod Input
pub mod Output
mod Tests
use lucifer.Prelude.{
  ℕ, zero, suc, Bool, not, Option, none, some, List, [], ◌∷◌, ◌++◌, ltb, ◌==◌, if◌then◌else◌,
  length, take, drop,
}
use lucifer.Prelude.Int.{ℤ, pos, negsuc}
use lucifer.Prelude.Maybe.{◌>>=◌}

-- `jdksmidi::MIDIMessage`, and its parser, which gives a message when its last byte is there.
pub record Jdksmidi : Type 1 where
  pub Message : Type 0
  pub Parser : Type 0
  pub parse_byte : ℕ → Parser → Option Message × Parser
  pub is_channel_msg : Message → Bool
  pub get_channel : Message → ℕ
  pub is_note_on : Message → Bool
  pub is_note_off : Message → Bool
  pub is_poly_pressure : Message → Bool
  pub is_control_change : Message → Bool
  pub is_program_change : Message → Bool
  pub is_channel_pressure : Message → Bool
  pub is_pitch_bend : Message → Bool
  pub is_mtc : Message → Bool
  pub is_song_select : Message → Bool
  pub is_song_position : Message → Bool
  pub is_tune_request : Message → Bool
  pub get_note : Message → ℕ
  pub get_velocity : Message → ℕ
  pub get_controller : Message → ℕ
  pub get_controller_value : Message → ℕ
  pub get_pg_value : Message → ℕ
  pub get_channel_pressure : Message → ℕ
  pub get_bender_value : Message → ℤ
  pub get_byte1 : Message → ℕ

-- The signals of a channel and of the parser.
pub data Signal : Type 0 where
  note_on note_off aftertouch controller : ℕ → ℕ → ℕ → Signal
  program_change channel_pressure : ℕ → ℕ → Signal
  pitch_wheel : ℕ → ℤ → Signal
  mtc_tick song_select : ℕ → Signal
  song_position : ℤ → Signal
  tune_request : Signal

-- The raw MIDI device: a write takes some of the bytes, or gives an error.
pub record RawMidi : Type 1 where
  pub Device : Type 0
  pub write : List ℕ → Device → ℤ × Device

abbrev pub emits : Bool → Signal → List Signal
emits b s = if b then s ∷ [] else []

module _ (J : Jdksmidi) where
  -- `MIDIChannel::message`, on channel c.
  pub message : ℕ → J.Message → List Signal
  message c m =
      emits (J.is_note_on m) (note_on c (J.get_note m) (J.get_velocity m))
      ++ emits (J.is_note_off m) (note_off c (J.get_note m) (J.get_velocity m))
      ++ emits (J.is_poly_pressure m) (aftertouch c (J.get_note m) (J.get_velocity m))
      ++ emits (J.is_control_change m)
          (controller c (J.get_controller m) (J.get_controller_value m))
      ++ emits (J.is_program_change m) (program_change c (J.get_pg_value m))
      ++ emits (J.is_channel_pressure m) (channel_pressure c (J.get_channel_pressure m))
      ++ emits (J.is_pitch_bend m) (pitch_wheel c (J.get_bender_value m))

  -- A message that is complete.
  pub dispatch : J.Message → List Signal
  unfolding message
  dispatch m =
      if J.is_channel_msg m
      then message (J.get_channel m) m
      else emits (J.is_mtc m) (mtc_tick (J.get_byte1 m))
        ++ emits (J.is_song_select m) (song_select (J.get_byte1 m))
        ++ emits (J.is_song_position m) (song_position (J.get_bender_value m))
        ++ emits (J.is_tune_request m) tune_request

  abbrev pub dispatched : Option J.Message → List Signal
  dispatched none = []
  dispatched (some m) = dispatch m

  -- `MIDIParser::parse`.
  pub parse : List ℕ → J.Parser → List Signal × J.Parser
  unfolding dispatch
  parse [] p = ([], p)
  parse (b ∷ bs) p =
      let first = J.parse_byte b p in
      let rest = parse bs first.1 in (dispatched first.0 ++ rest.0, rest.1)

module _ (R : RawMidi) where
  pub record AlsaMidi : Type 0 where
    pub device : R.Device
    pub rxqueue : List ℕ
    pub txqueue : List ℕ
    -- Whether the sockets are watched for space to write.
    pub watches : Bool

  -- What `readAvailable` does with what `snd_rawmidi_read` gives, read by read, and whether it emits
  -- `readyRead`.
  pub read_available : List (List ℕ) → AlsaMidi → Bool × AlsaMidi
  read_available [] a = (ltb 0 (length a.rxqueue), a)
  read_available (buf ∷ bufs) a = read_available bufs (record a { rxqueue = a.rxqueue ++ buf })

  -- `readData`: at most so many bytes.
  pub read_data : ℕ → AlsaMidi → List ℕ × AlsaMidi
  read_data maxsize a = (take maxsize a.rxqueue, record a { rxqueue = drop maxsize a.rxqueue })

  -- The loop of `writeAvailable`.
  pub write_loop : ℕ → AlsaMidi → Option AlsaMidi
  write_loop zero a = none
  write_loop (suc fuel) a =
      let r = R.write (take 64 a.txqueue) a.device in
      elim r.0 [
        | pos (suc n) ↦
            write_loop fuel (record a { device = r.1; txqueue = drop (suc n) a.txqueue })
        | pos zero ↦ some (record a { device = r.1 })
        | negsuc n ↦ some (record a { device = r.1 })
      ]

  pub write_available : AlsaMidi → Option AlsaMidi
  unfolding write_loop
  write_available a = write_loop (suc (length a.txqueue)) a >>= λ b.
      some (record b { watches = not (length b.txqueue == 0) })

  -- `writeData`.
  pub write_data : List ℕ → AlsaMidi → Option AlsaMidi
  unfolding write_available
  write_data bytes a = write_available (record a { txqueue = a.txqueue ++ bytes })

  module _ (J : Jdksmidi) where
    -- The loop of `MIDIParser::readData`, on a device that is read without errors; s are the bytes
    -- of the latest read.
    pub parse_loop : ℕ → List ℕ → J.Parser → AlsaMidi → Option (List Signal × (J.Parser × AlsaMidi))
    unfolding read_data parse
    parse_loop zero s p a = none
    parse_loop (suc fuel) s p a = do
      let parsed = parse J s p
      let next = read_data 64 a
      rest ←
          if length next.0 == 0
          then some ([], (parsed.1, next.1))
          else parse_loop fuel next.0 parsed.1 next.1
      some (parsed.0 ++ rest.0, rest.1)

    pub read_and_parse : ℕ → J.Parser → AlsaMidi → Option (List Signal × (J.Parser × AlsaMidi))
    unfolding parse_loop
    read_and_parse fuel p a = let first = read_data 64 a in parse_loop fuel first.0 p first.1
