-- ===== src/MotorMix/Display.antt =====
-- The display of the control surface in src/motormix.cpp: messages and the timer that ends them.
-- A text is its bytes.
pub mod Shown
use lucifer.Prelude.{ℕ, Bool, true, false, Option, none, some, List, [], ◌∷◌, ◌++◌, take, replicate}
use lucifer.MotorMix.{send, Surface}

abbrev pub header : List ℕ
header = 0xb0 ∷ 0xf0 ∷ 0x00 ∷ 0x01 ∷ 0x0f ∷ 0x00 ∷ 0x11 ∷ 0x00 ∷ 0x10 ∷ []

-- The bytes that `displayWrite` sends.
abbrev pub display_bytes : ℕ → List ℕ → List ℕ
display_bytes position text = header ++ position ∷ (text ++ 0xf7 ∷ [])

abbrev pub is_connected : Option ℕ → Bool
is_connected none = false
is_connected (some c) = true

pub display_write : ℕ → List ℕ → Surface → Bool × Surface
unfolding send
display_write position text s = (
  is_connected s.channel,
  record s { outputs = send s.channel (display_bytes position text) s.outputs },
)

-- The surface, and the milliseconds for which `messageTimer` was started, if it runs.
pub record Messages : Type 0 where
  pub surface : Surface
  pub message_timer : Option ℕ

pub message_timeout : Messages → Messages
unfolding display_write
message_timeout m = record {
  surface = (display_write 0 (replicate 40 0x20) m.surface).1;
  message_timer = none;
}

pub message : List ℕ → ℕ → Messages → Messages
unfolding message_timeout
message text duration m = record {
  surface =
      (display_write 0 (take 40 text)
        (message_timeout (record m { message_timer = none })).surface).1;
  message_timer = some duration;
}
