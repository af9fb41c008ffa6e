-- ===== src/Playlist.antt =====
-- playbacklist.cpp and playbacklist.h: the list of selected frame sources of one projector head.
-- The lock is recursive and held for a whole slot, so a slot is one step. The slots connected to
-- the signals do not call back into the list; the signals emitted are kept, the latest first.
-- An `int` that holds an `unsigned int` and goes back to one keeps its bits (`to_u32-to_int`).
pub mod Effects
pub mod Invariant
pub mod Trim
pub mod Runs
pub mod Order
pub mod Selection
pub mod Alone
mod Tests
use lucifer.Prelude.{
  ℕ, zero, suc, Bool, true, false, Option, none, some, List, [], ◌∷◌, ◌++◌, ltb, ◌==◌,
  if◌then◌else◌, length, is_zero,
}
use lucifer.Prelude.Int.{ℤ, eq_ℤ, minus_one, to_int}
use lucifer.Random.{Random}

pub data SelectionModes : Type 0 where
  single multiple shuffle : SelectionModes

pub data StepModes : Type 0 where
  once loop manual beat : StepModes

pub data Signal : Type 0 where
  selection_changed : ℕ → Bool → Signal
  load : ℕ → Signal
  dump_current_selection : Signal

pub record PlaybackList : Type 0 where
  pub selections : List ℕ
  pub sel_mode : SelectionModes
  pub step_mode : StepModes
  pub current_index : ℤ
  pub signals : List Signal
  -- How often `std::random_shuffle` has been called.
  pub draws : ℕ

unfoldable pub init : PlaybackList
init = record {
  selections = [];
  sel_mode = single;
  step_mode = loop;
  current_index = minus_one;
  signals = [];
  draws = 0;
}

abbrev pub emit : Signal → PlaybackList → PlaybackList
emit s l = record l { signals = s ∷ l.signals }

-- What `next` returns: the first selection, or -1.
abbrev pub front : List ℕ → ℤ
front [] = minus_one
front (x ∷ xs) = to_int x

-- `if (selections.size()) emit load (selections[0]);`
abbrev pub load_front : PlaybackList → List ℕ → PlaybackList
load_front l [] = l
load_front l (x ∷ xs) = emit (load x) l

abbrev pub is_shuffle : SelectionModes → Bool
is_shuffle shuffle = true
is_shuffle _ = false

pub contains : ℕ → List ℕ → Bool
contains p [] = false
contains p (x ∷ xs) = if x == p then true else contains p xs

-- `isSelected`; the `int` argument is compared as an `unsigned int`.
pub is_selected : ℕ → PlaybackList → Bool
unfolding contains
is_selected p l = contains p l.selections

-- The index at which the loops of `select` stop.
pub find_index : ℕ → List ℕ → Option ℕ
find_index p [] = none
find_index p (x ∷ xs) =
    if x == p then some 0 else elim (find_index p xs) [ none ↦ none | some i ↦ some (suc i) ]

pub erase_at : ℕ → List ℕ → List ℕ
erase_at i [] = []
erase_at zero (x ∷ xs) = xs
erase_at (suc i) (x ∷ xs) = x ∷ erase_at i xs

-- The signals of `select` that tell of the selections it clears, the latest first.
abbrev pub announce_off : List ℕ → List Signal → List Signal
announce_off [] signals = signals
announce_off (x ∷ xs) signals = announce_off xs (selection_changed x false ∷ signals)

abbrev pub moves_at_end : StepModes → Bool
moves_at_end once = true
moves_at_end loop = true
moves_at_end manual = false
moves_at_end beat = false

module _ (R : Random) where
  -- `next` in the modes LOOP, MANUAL and BEAT: the first selection goes to the back.
  pub rotate : ℕ → List ℕ → PlaybackList → PlaybackList
  rotate old rest l =
      let moved = rest ++ old ∷ [] in
      let shuffled = R.random_shuffle l.draws moved in
      if is_shuffle l.sel_mode
      then load_front (record l { selections = shuffled; draws = suc l.draws }) shuffled
      else load_front (record l { selections = moved }) moved

  -- `next` in the mode ONCE; `sel` is the call of `select (oldsel, false)`.
  pub use_up : (ℕ → PlaybackList → PlaybackList) → Bool → ℕ → PlaybackList → PlaybackList
  use_up sel running old l =
      let l' = if running then sel old l else l in
      emit (selection_changed old false) (load_front l' l'.selections)

  pub step_list :
      StepModes
      → (ℕ → PlaybackList → PlaybackList)
      → Bool
      → ℕ
      → List ℕ
      → PlaybackList
      → PlaybackList
  unfolding rotate use_up
  step_list once sel running old rest l = use_up sel running old l
  step_list loop sel running old rest l = rotate old rest l
  step_list manual sel running old rest l = rotate old rest l
  step_list beat sel running old rest l = rotate old rest l

  pub next_with : (ℕ → PlaybackList → PlaybackList) → Bool → List ℕ → PlaybackList → PlaybackList
  unfolding step_list
  next_with sel running [] l = l
  next_with sel running (old ∷ rest) l = step_list l.step_mode sel running old rest l

  -- `next (false)`, which selects nothing, and so ends the recursion between `select` and `next`.
  pub next_stopped : PlaybackList → PlaybackList
  unfolding next_with
  next_stopped l = next_with (λ p k. k) false l.selections l

  -- The body of the loop of `select (pos, false)` at the index where it stops.
  pub drop_selection : ℕ → PlaybackList → Option ℕ → PlaybackList
  unfolding next_stopped erase_at
  drop_selection pos l none = l
  drop_selection pos l (some i) =
      let l' =
        emit (selection_changed pos false) (record l { selections = erase_at i l.selections }) in
      if is_zero i
      then next_stopped (emit dump_current_selection (record l' { current_index = minus_one }))
      else l'

  pub deselect : ℕ → PlaybackList → PlaybackList
  unfolding drop_selection find_index
  deselect pos l = drop_selection pos l (find_index pos l.selections)

  -- `next (running)`: the new state; the result is `front` of its selections.
  pub next : Bool → PlaybackList → PlaybackList
  unfolding next_with deselect
  next running l = next_with deselect running l.selections l

  pub select_single : ℕ → PlaybackList → PlaybackList
  unfolding next_stopped
  select_single pos l =
      let cleared = record l {
        selections = pos ∷ [];
        current_index = minus_one;
        signals = dump_current_selection ∷ announce_off l.selections l.signals;
      } in
      emit (selection_changed pos true) (next_stopped cleared)

  pub select_more : ℕ → PlaybackList → PlaybackList
  select_more pos l =
      emit (selection_changed pos true) (record l { selections = l.selections ++ pos ∷ [] })

  pub add_selection : SelectionModes → ℕ → PlaybackList → PlaybackList
  unfolding select_single select_more
  add_selection single pos l = select_single pos l
  add_selection multiple pos l = select_more pos l
  add_selection shuffle pos l = select_more pos l

  pub select : ℕ → Bool → PlaybackList → PlaybackList
  unfolding deselect add_selection
  select pos false l = deselect pos l
  select pos true l = add_selection l.sel_mode pos (deselect pos l)

  -- `currentIndex = next (running);`
  pub move_on : Bool → PlaybackList → PlaybackList
  unfolding next
  move_on running l = let l' = next running l in record l' { current_index = front l'.selections }

  pub get_next_framesource : PlaybackList → PlaybackList
  unfolding move_on
  get_next_framesource l =
      let idle = eq_ℤ l.current_index minus_one in
      if moves_at_end l.step_mode
      then move_on (if idle then false else true) l
      else if idle
      then move_on (if idle then false else true) l
      else l

  pub step_by : StepModes → StepModes → PlaybackList → PlaybackList
  unfolding move_on
  step_by beat beat l = emit dump_current_selection (move_on true l)
  step_by manual manual l = emit dump_current_selection (move_on true l)
  step_by _ _ l = l

  pub beat_detected : PlaybackList → PlaybackList
  unfolding step_by
  beat_detected l = step_by beat l.step_mode l

  pub manual_step_clicked : PlaybackList → PlaybackList
  unfolding step_by
  manual_step_clicked l = step_by manual l.step_mode l

-- `while (selections.size() > 1)`: the last selection is announced and erased.
pub last_or : ℕ → List ℕ → ℕ
last_or d [] = d
last_or d (x ∷ xs) = last_or x xs

pub erase_last : List ℕ → List ℕ
erase_last [] = []
erase_last (x ∷ []) = []
erase_last (x ∷ y ∷ ys) = x ∷ erase_last (y ∷ ys)

pub erase_tail : ℕ → PlaybackList → PlaybackList
unfolding last_or erase_last
erase_tail zero l = l
erase_tail (suc fuel) l =
    let rest = erase_tail fuel (
      emit (selection_changed (last_or 0 l.selections) false)
        (record l { selections = erase_last l.selections })) in
    if ltb 1 (length l.selections) then rest else l

pub set_selection_mode : SelectionModes → PlaybackList → PlaybackList
unfolding erase_tail
set_selection_mode single l = record (erase_tail (length l.selections) l) { sel_mode = single }
set_selection_mode multiple l = record l { sel_mode = multiple }
set_selection_mode shuffle l = record l { sel_mode = shuffle }

pub set_step_mode : StepModes → PlaybackList → PlaybackList
set_step_mode mode l = record l { step_mode = mode }

pub clear : PlaybackList → PlaybackList
unfolding erase_tail
clear l =
    emit dump_current_selection
      (record (erase_tail (length l.selections) l) { current_index = minus_one })

pub data Slot : Type 0 where
  selects : ℕ → Bool → Slot
  sets_selection_mode : SelectionModes → Slot
  sets_step_mode : StepModes → Slot
  gets_next beats steps clears : Slot

module _ (R : Random) where
  pub run_slot : Slot → PlaybackList → PlaybackList
  unfolding select set_selection_mode set_step_mode get_next_framesource beat_detected
      manual_step_clicked clear
  run_slot (selects pos active) l = select R pos active l
  run_slot (sets_selection_mode mode) l = set_selection_mode mode l
  run_slot (sets_step_mode mode) l = set_step_mode mode l
  run_slot gets_next l = get_next_framesource R l
  run_slot beats l = beat_detected R l
  run_slot steps l = manual_step_clicked R l
  run_slot clears l = clear l

  pub run : List Slot → PlaybackList → PlaybackList
  unfolding run_slot
  run [] l = l
  run (s ∷ ss) l = run ss (run_slot s l)
