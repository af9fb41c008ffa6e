-- ===== src/Midi/Tests.antt =====
-- src/midi.cpp and src/alsamidi.cpp with a small parser and a device with little room.
use lucifer.Prelude.{
  ℕ, zero, suc, ◌-◌, ◌≤◌, min, ◌≡◌, refl, ap, true, false, not, Option, none, some, List, [], ◌∷◌,
  ◌++◌, arith, ◌==◌, if◌then◌else◌, length, get_or, take,
}
use lucifer.Prelude.Int.{ℤ, pos, negsuc, pos_part}
use lucifer.Midi.{
  message, dispatch, parse, read_available, write_data, read_and_parse, Jdksmidi, RawMidi, AlsaMidi,
  controller,
}
use lucifer.Midi.Input.{read_and_parse-all}
use lucifer.Midi.Output.{write_data-conserves, Writes}

-- A message is three bytes.
abbrev collect : ℕ → List ℕ → Option (List ℕ) × List ℕ
collect b p = if length p == 2 then (some (p ++ b ∷ []), []) else (none, p ++ b ∷ [])

abbrev threes : Jdksmidi
threes = record {
  Message = List ℕ;
  Parser = List ℕ;
  parse_byte = collect;
  is_channel_msg = λ m. true;
  get_channel = λ m. get_or m 0 0 - 176;
  is_note_on = λ m. false;
  is_note_off = λ m. false;
  is_poly_pressure = λ m. false;
  is_control_change = λ m. true;
  is_program_change = λ m. false;
  is_channel_pressure = λ m. false;
  is_pitch_bend = λ m. false;
  is_mtc = λ m. false;
  is_song_select = λ m. false;
  is_song_position = λ m. false;
  is_tune_request = λ m. false;
  get_note = λ m. get_or m 1 0;
  get_velocity = λ m. get_or m 2 0;
  get_controller = λ m. get_or m 1 0;
  get_controller_value = λ m. get_or m 2 0;
  get_pg_value = λ m. get_or m 1 0;
  get_channel_pressure = λ m. get_or m 1 0;
  get_bender_value = λ m. pos (get_or m 1 0);
  get_byte1 = λ m. get_or m 1 0;
}

-- What was sent, and how much room there is; without room a write is an error.
abbrev write_some : List ℕ → List ℕ × ℕ → ℤ × (List ℕ × ℕ)
write_some bs (s, zero) = (negsuc 10, (s, 0))
write_some bs (s, suc k) =
    (pos (min (suc k) (length bs)), (s ++ take (min (suc k) (length bs)) bs, suc k - length bs))

abbrev small : RawMidi
small = record { Device = List ℕ × ℕ; write = write_some }

wrote_some :
    (bs : List ℕ) (d : List ℕ × ℕ) (n : ℕ)
    → (write_some bs d).0 ≡ pos n
    → (n ≤ length bs) × ((write_some bs d).1.0 ≡ d.0 ++ take n bs)
wrote_some bs (s, zero) n e = cc
wrote_some bs (s, suc k) n e =
    let count : min (suc k) (length bs) ≡ n = ap pos_part e in
    (omega arith, ap (λ m. s ++ take m bs) count)

failed_none :
    (bs : List ℕ) (d : List ℕ × ℕ) (n : ℕ)
    → (write_some bs d).0 ≡ negsuc n
    → (write_some bs d).1.0 ≡ d.0
failed_none bs (s, zero) n e = refl
failed_none bs (s, suc k) n e = cc

small-Writes : Writes small
small-Writes = record { sent = λ d. d.0; wrote = wrote_some; failed = failed_none }

abbrev idle : AlsaMidi small
idle = record { device = ([], 2); rxqueue = 176 ∷ []; txqueue = 9 ∷ []; watches = false }

write_data-conserves_example :
    (b : AlsaMidi small) × (write_data small (1 ∷ 2 ∷ []) idle ≡ some b)
    × (b.device.0 ++ b.txqueue ≡ 9 ∷ 1 ∷ 2 ∷ [])
    × (b.watches ≡ not (length b.txqueue == 0))
    × (b.rxqueue ≡ 176 ∷ [])
unfolding small-Writes
write_data-conserves_example = write_data-conserves small small-Writes (1 ∷ 2 ∷ []) idle

-- The message that was begun before, split over two readings.
read_and_parse-all_example :
    read_and_parse small threes 5 [] (read_available small ((15 ∷ []) ∷ (64 ∷ []) ∷ []) idle).1
    ≡ some (
      (parse threes (176 ∷ 15 ∷ 64 ∷ []) []).0,
      ((parse threes (176 ∷ 15 ∷ 64 ∷ []) []).1, record idle { rxqueue = [] }),
    )
read_and_parse-all_example =
    read_and_parse-all threes small ((15 ∷ []) ∷ (64 ∷ []) ∷ []) 5 [] idle (omega arith)

controller_signal : (parse threes (176 ∷ 15 ∷ 64 ∷ []) []).0 ≡ controller 0 15 64 ∷ []
unfolding parse dispatch message
controller_signal = refl
