-- ===== src/DummyIlda.antt =====
-- driver_dummy_ilda.cpp and driver_dummy_ilda.h: the driver without hardware.
-- A vector's size fits in `size_t`, so a difference of sizes wraps at 2^64 only below zero.
pub mod Buffer
mod Tests
use lucifer.Prelude.{
  ℕ, ◌+◌, ◌-◌, ◌^◌, Bool, true, false, not, Option, none, some, List, [], ◌∷◌, ltb, leb, ◌==◌,
  if◌then◌else◌,
}

abbrev pub buffer_sz : ℕ
buffer_sz = 2000

pub record DummyIlda : Type 0 where
  pub is_connected : Bool
  pub buffer_fill : ℕ
  -- The interval of the timer, while it runs.
  pub timer : Option ℕ

unfoldable pub new_driver : DummyIlda
new_driver = record { is_connected = false; buffer_fill = 0; timer = none }

pub connect : ℕ → DummyIlda → Bool × DummyIlda
connect index d =
    if not (index == 0)
    then (false, d)
    else (true, record { is_connected = true; buffer_fill = 0; timer = some 33 })

pub disconnect : DummyIlda → DummyIlda
disconnect d = record d { is_connected = false; timer = none }

abbrev pub minus_size : ℕ → ℕ → ℕ
minus_size a b = if leb b a then a - b else a + 2 ^ 64 - b

-- `ILDABufferFillStatus`: the space left.
pub fill_status : DummyIlda → ℕ
fill_status d = minus_size buffer_sz d.buffer_fill

-- `ILDANewPoints` on a vector of n points.
pub take_points : ℕ → ℕ → DummyIlda → ℕ × DummyIlda
take_points n offset d =
    let space = minus_size buffer_sz d.buffer_fill in
    let wanted = minus_size n offset in
    let used = if ltb space wanted then space else wanted in
    (used, record d { buffer_fill = d.buffer_fill + used })

-- `timeout`, up to its call of `ILDARequestMorePoints`.
pub timeout : DummyIlda → DummyIlda
timeout d =
    if ltb 1000 d.buffer_fill
    then record d { buffer_fill = d.buffer_fill - 1000 }
    else record d { buffer_fill = 0 }

pub data Call : Type 0 where
  connects : ℕ → Call
  disconnects times_out : Call
  takes_points : ℕ → ℕ → Call

pub call : Call → DummyIlda → DummyIlda
unfolding connect disconnect take_points timeout
call (connects index) d = (connect index d).1
call disconnects d = disconnect d
call times_out d = timeout d
call (takes_points n offset) d = (take_points n offset d).1

pub calls : List Call → DummyIlda → DummyIlda
unfolding call
calls [] d = d
calls (c ∷ cs) d = calls cs (call c d)
