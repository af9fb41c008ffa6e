-- ===== src/Sequencer/Configure.antt =====
-- Saving, loading and copying the settings of src/framesequencer.cpp, up to the next frame played.
use lucifer.Prelude.{ℕ, ◌^◌, ◌<◌, ◌≡◌, inr, Option, some, arith}
use mathlib.Core.Option
use lucifer.Random.{Random}
use lucifer.Sequencer.{
  new_settings, new_playback, next_frame, save, load, copy_data_to, Settings, Children, Mode,
  sequential,
}
use lucifer.Sequencer.Play.{table_size_bounds, IsSafe}
use lucifer.Sequencer.Total.{next_frame_returns}

pub new_playback-IsSafe : (mode : Mode) (n : ℕ) → 0 < n → n < 2 ^ 30 → IsSafe mode n new_playback
unfolding new_playback
new_playback-IsSafe mode n h b = record {
  entries = λ e. absurd (omega (arith, e, table_size_bounds mode n h b));
  placed = inr (table_size_bounds mode n h b).0;
}

module _ (R : Random) (C : Children) (some_child : 0 < C.number) (small : C.number < 2 ^ 30) where
  -- The settings after the first frame of a new playback.
  pub played : Settings → C.State → Option Settings
  unfolding next_frame new_playback
  played c s = Option.map (λ r. r.0) (next_frame R C c new_playback s)

  played-eq : (c : Settings) (s : C.State) → played c s ≡ some (record c { mode = c.new_mode })
  unfolding played
  played-eq c s =
      let r =
        next_frame_returns R C some_child small c new_playback s
          (new_playback-IsSafe c.mode C.number some_child small) in
      rw (r.1)

  -- With 1 to 2^30 - 1 children, and after its first frame, a node that is saved and loaded into a
  -- new node has the mode and the repeats saved; but a copy of a node has the mode Sequential, with
  -- the repeats copied.
  pub restored_and_copied :
      (c : Settings) (s : C.State)
      → (played (load (save c) new_settings) s
          ≡ some (record { mode = c.mode; new_mode = c.mode; repeats = c.repeats }))
        × (played (copy_data_to c new_settings) s
            ≡ some (record { mode = sequential; new_mode = sequential; repeats = c.repeats }))
  unfolding load save copy_data_to new_settings
  restored_and_copied c s =
      (played-eq (load (save c) new_settings) s, played-eq (copy_data_to c new_settings) s)
