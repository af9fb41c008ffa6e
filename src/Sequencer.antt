-- ===== src/Sequencer.antt =====
-- framesequencer.cpp and framesequencer.h: the step sequencer over a node's children.
-- `unsigned int` arithmetic wraps at 2^32, `size_t` arithmetic at 2^64, and both are written out.
-- `none` is a failed assertion, a read outside the table, or fuel that ran out.
pub mod Table
pub mod Play
pub mod Total
pub mod Ending
pub mod Configure
mod Tests
use lucifer.Prelude.{
  ℕ, zero, suc, ◌+◌, ◌-◌, ◌*◌, ◌%◌, ◌^◌, Bool, true, false, Option, none, some, List, [], ◌∷◌, map,
  ltb, leb, ◌==◌, if◌then◌else◌, length, get_elem?, is_zero,
}
use lucifer.Prelude.Int.{ℤ, pos, negsuc, ◌+ℤ◌, minus_one, to_u32}
use lucifer.Prelude.Maybe.{◌>>=◌}
use lucifer.Random.{Random}
use mathlib.Core.Option
use mathlib.Core.Logic.{ite}

pub data Mode : Type 0 where
  sequential random pingpong : Mode

pub Mode-discrete : Discrete Mode
Mode-discrete = hlevel

pub record Settings : Type 0 where
  pub mode : Mode
  pub new_mode : Mode
  pub repeats : ℕ

-- `FrameSequencerPlayback`, with the number of shuffles that `std::random_shuffle` has made.
pub record Playback : Type 0 where
  pub place : ℕ
  pub repeats_done : ℕ
  pub index_tbl : List ℕ
  pub draws : ℕ

-- `FrameSequencer ()` and `FrameSequencerPlayback ()`.
unfoldable pub new_settings : Settings
new_settings = record { mode = sequential; new_mode = sequential; repeats = 0 }

unfoldable pub new_playback : Playback
new_playback = record { place = 0; repeats_done = 0; index_tbl = []; draws = 0 }

-- The number of steps that `reset_index` fills in for n children.
pub table_size : Mode → ℕ → ℕ
table_size sequential n = n
table_size random n = n
table_size pingpong n = (n * 2 % 2 ^ 32 + 2 ^ 32 - 1) % 2 ^ 32

abbrev pub at_least_minus_one : ℤ → Bool
at_least_minus_one (pos n) = true
at_least_minus_one (negsuc n) = is_zero n

-- The loop of `reset_index` over the rounds left; `k` is an `int`, asserted to be at least -1.
unfoldable pub fill : ℕ → ℕ → ℕ → ℤ → Bool → Option (List ℕ)
fill n zero i k down = some []
fill n (suc rounds) i k down =
    let down' = if leb ((n + 2 ^ 32 - 1) % 2 ^ 32) i then true else down in
    let k' = k +ℤ (if down' then minus_one else pos 1) in
    let rest = fill n rounds (i + 1) k' down' in
    if at_least_minus_one k' then Option.map (λ ks. to_u32 k ∷ ks) rest else none

abbrev pub is_random : Mode → Bool
is_random random = true
is_random _ = false

pub filled : Random → Mode → List ℕ → Playback → Playback
filled R mode table pb =
    if is_random mode
    then record pb { index_tbl = R.random_shuffle pb.draws table; draws = suc pb.draws }
    else record pb { index_tbl = table }

pub reset_index : Random → Mode → ℕ → Playback → Option Playback
unfolding fill table_size filled
reset_index R mode n pb = do
  table ← fill n (table_size mode n) 0 (pos 0) false
  some (filled R mode table pb)

-- `assert (pb->index_tbl[pb->pos] < numChildren ())`, then that entry.
abbrev pub checked_entry : ℕ → Playback → Option ℕ → Option (Playback × ℕ)
checked_entry n pb none = none
checked_entry n pb (some v) = if ltb v n then some (pb, v) else none

pub index : Random → Mode → ℕ → Playback → Option (Playback × ℕ)
unfolding reset_index
index R mode n pb = do
  pb' ← if table_size mode n == length pb.index_tbl then some pb else reset_index R mode n pb
  (if table_size mode n == length pb'.index_tbl
      then checked_entry n pb' (get_elem? pb'.index_tbl pb'.place)
      else none)

-- `FrameSequencer::reset`, which leaves the children alone.
pub reset : Random → Mode → ℕ → Playback → Option Playback
unfolding reset_index
reset R mode n pb = reset_index R mode n (record pb { place = 0; repeats_done = 0 })

-- `pb->index_tbl.size () - 1`, a `size_t`.
abbrev pub last_place : Playback → ℕ
last_place pb = (length pb.index_tbl + 2 ^ 64 - 1) % 2 ^ 64

-- A node's n children: the state of their playbacks, their `nextFrame` and their `reset`.
pub record Children : Type 1 where
  pub State : Type 0
  pub Frame : Type 0
  pub number : ℕ
  pub next_frame : ℕ → State → Option Frame × State
  pub reset : ℕ → State → State

module _ (R : Random) (C : Children) where
  open C use {State, Frame, number}

  -- What `nextFrame` returns and leaves behind.
  pub record Outcome : Type 0 where
    pub frame : Option Frame
    pub playback : Playback
    pub kids : State

  pub reset_children : ℕ → State → State
  reset_children zero s = s
  reset_children (suc n) s = C.reset n (reset_children n s)

  -- The inner loop. `++pb->pos` stays below the size of the table, so it does not wrap.
  pub advance : ℕ → Mode → Playback → State → Option Outcome
  advance zero mode pb s = none
  advance (suc fuel) mode pb s = elim (ltb pb.place (last_place pb)) [
    | false ↦ some (record { frame = none; playback = pb; kids = s })
    | true ↦ do
      (pb', pp) ← index R mode number (record pb { place = suc pb.place })
      let (got, s') = C.next_frame pp (C.reset pp s)
      elim got [
        | some f ↦ some (record { frame = some f; playback = pb'; kids = s' })
        | none ↦ advance fuel mode pb' s'
      ]
  ]

  -- The body of the outer loop below the check for the end of the sequence.
  pub pull : ℕ → Mode → Playback → State → Option Outcome
  unfolding index advance
  pull fuel mode pb s = do
    (pb', pp) ← index R mode number pb
    let (got, s') = C.next_frame pp s
    elim got [
      | some f ↦ some (record { frame = some f; playback = pb'; kids = s' })
      | none ↦ advance fuel mode pb' s'
    ]

  -- What the end of the sequence does when repeats are left.
  pub start_repeat : Mode → Playback → Option Playback
  unfolding reset_index
  start_repeat mode pb =
      reset_index R mode number (record pb { repeats_done = suc pb.repeats_done; place = 0 })

  -- One round of the outer loop; `again` is the next one.
  pub settle : (Playback → State → Option Outcome) → Option Outcome → Option Outcome
  settle again none = none
  settle again (some o) = elim o.frame [ some f ↦ some o | none ↦ again o.playback o.kids ]

  -- What `nextFrame` does when the sequence has run out.
  pub at_end :
      ℕ → Mode → ℕ → Playback → State → (Playback → State → Option Outcome) → Option Outcome
  unfolding start_repeat pull reset reset_children settle
  at_end inner mode repeats pb s again =
      if leb repeats pb.repeats_done
      then (reset R mode number pb >>= λ pb'.
          some (record { frame = none; playback = pb'; kids = s }))
      else (start_repeat mode pb >>= λ pb'.
          settle again (pull inner mode pb' (reset_children number s)))

  -- The outer loop; `inner` is the fuel of the loop in it.
  pub play : ℕ → ℕ → Mode → ℕ → Playback → State → Option Outcome
  unfolding at_end
  play inner zero mode repeats pb s = none
  play inner (suc fuel) mode repeats pb s = elim (ltb pb.place (last_place pb)) [
    | true ↦ settle (play inner fuel mode repeats) (pull inner mode pb s)
    | false ↦ at_end inner mode repeats pb s (play inner fuel mode repeats)
  ]

  -- The fuel: rounds of the inner loop, and one round of the outer loop for each repeat left, and
  -- two more.
  pub inner_fuel : Mode → ℕ
  unfolding table_size
  inner_fuel mode = suc (table_size mode number)

  pub next_frame : Settings → Playback → State → Option (Settings × Outcome)
  unfolding play inner_fuel
  next_frame c pb s = do
    pb' ← ite (Mode-discrete c.mode c.new_mode) (some pb) (reset_index R c.new_mode number pb)
    o ← play (inner_fuel c.new_mode) (suc (suc c.repeats)) c.new_mode c.repeats pb' s
    some (record c { mode = c.new_mode }, o)

-- `save` and `load`: the values of the attributes "Repeats" and "Mode".
pub record Saved : Type 0 where
  pub repeats : ℕ
  pub mode : Mode

pub save : Settings → Saved
save c = record { repeats = c.repeats; mode = c.mode }

pub load : Saved → Settings → Settings
load a c = record c { repeats = a.repeats; new_mode = a.mode }

-- `copyDataTo`: `c` is copied over the settings `to` of a new node.
pub copy_data_to : Settings → Settings → Settings
copy_data_to c to = record to { mode = c.mode; repeats = c.repeats }
