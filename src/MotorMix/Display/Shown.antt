-- ===== src/MotorMix/Display/Shown.antt =====
-- What the display of the surface in src/motormix.cpp shows after a message.
use lucifer.Prelude.{
  ℕ, ◌+◌, ◌-◌, List, [], ◌∷◌, ◌++◌, ◌==◌, if◌then◌else◌, length, get_or, take, drop,
}
use lucifer.MotorMix.{Output, transmit, control_changed, head_selection_changed}

-- A text written into a row from a position on.
abbrev pub write_at : ℕ → List ℕ → List ℕ → List ℕ
write_at position text row = take position row ++ text ++ drop (position + length text) row

-- What a message of the display protocol does to the row: behind nine bytes of header stand the
-- position and the text, and an end.
abbrev pub receive : List ℕ → List ℕ → List ℕ
receive bytes row =
    if get_or bytes 1 0 == 0xf0
    then write_at (get_or bytes 9 0) (take (length bytes - 11) (drop 10 bytes)) row
    else row

-- The row after the outputs, the latest of which is the first.
unfoldable pub shown : List ℕ → List Output → List ℕ
shown row [] = row
shown row (transmit bytes ∷ outputs) = receive bytes (shown row outputs)
shown row (control_changed i ∷ outputs) = shown row outputs
shown row (head_selection_changed i ∷ outputs) = shown row outputs
