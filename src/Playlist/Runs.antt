-- ===== src/Playlist/Runs.antt =====
-- Whole histories of the slots of src/playbacklist.cpp.
use lucifer.Prelude.{ℕ, ◌≤◌, ◌≡◌, refl, ap, subst, ◌⊎◌, inl, List, [], ◌∷◌, arith, length}
use lucifer.Prelude.Int.{minus_one}
use lucifer.Random.{count, Random}
use lucifer.Playlist.{
  init, front, beat_detected, manual_step_clicked, erase_tail, set_selection_mode, set_step_mode,
  clear, run_slot, run, PlaybackList, SelectionModes, single, multiple, shuffle, manual, beat, Slot,
  selects, sets_selection_mode, sets_step_mode, gets_next, beats, steps, clears,
}
use lucifer.Playlist.Invariant.{select-Inv, get_next-Inv, step_by-Inv, Inv}
use lucifer.Playlist.Trim.{trimmed, erase_tail-trimmed}

count-first-le : (p x : ℕ) (xs : List ℕ) → count p (x ∷ []) ≤ count p (x ∷ xs)
count-first-le p x xs = ground arith

trimmed-Inv : (xs : List ℕ) (l : PlaybackList) → l.selections ≡ xs → Inv l → Inv (trimmed l xs)
trimmed-Inv [] l e v = v
trimmed-Inv (x ∷ xs) l e v = record {
  unique = λ p. omega (arith, count-first-le p x xs, v.unique p, ap (count p) e);
  at_most_one = λ m. omega arith;
  plays_front =
      subst (λ ys. (l.current_index ≡ minus_one) ⊎ (l.current_index ≡ front ys)) e v.plays_front;
}

erase_tail-Inv : (l : PlaybackList) → Inv l → Inv (erase_tail (length l.selections) l)
erase_tail-Inv l v =
    rw (erase_tail-trimmed (length l.selections) l.selections l refl (omega arith))
      (trimmed-Inv l.selections l refl v)

trimmed-one :
    (xs : List ℕ) (l : PlaybackList) → l.selections ≡ xs → length (trimmed l xs).selections ≤ 1
trimmed-one [] l e = omega (arith, ap length e)
trimmed-one (x ∷ xs) l e = omega arith

set_selection_mode-Inv :
    (mode : SelectionModes) (l : PlaybackList) → Inv l → Inv (set_selection_mode mode l)
unfolding set_selection_mode
set_selection_mode-Inv single l v =
    let w = erase_tail-Inv l v in
    record {
      unique = w.unique;
      at_most_one = λ e.
          rw (erase_tail-trimmed (length l.selections) l.selections l refl (omega arith))
            (trimmed-one l.selections l refl);
      plays_front = w.plays_front;
    }
set_selection_mode-Inv multiple l v = record {
  unique = v.unique;
  at_most_one = λ e. cc;
  plays_front = v.plays_front;
}
set_selection_mode-Inv shuffle l v = record {
  unique = v.unique;
  at_most_one = λ e. cc;
  plays_front = v.plays_front;
}

clear-Inv : (l : PlaybackList) → Inv l → Inv (clear l)
unfolding clear
clear-Inv l v =
    let w = erase_tail-Inv l v in
    record { unique = w.unique; at_most_one = w.at_most_one; plays_front = inl refl }

module _ (R : Random) where
  run_slot-Inv : (s : Slot) (l : PlaybackList) → Inv l → Inv (run_slot R s l)
  unfolding run_slot set_step_mode beat_detected manual_step_clicked
  run_slot-Inv (selects p active) l v = select-Inv R p active l v
  run_slot-Inv (sets_selection_mode mode) l v = set_selection_mode-Inv mode l v
  run_slot-Inv (sets_step_mode mode) l v = record {
    unique = v.unique;
    at_most_one = v.at_most_one;
    plays_front = v.plays_front;
  }
  run_slot-Inv gets_next l v = get_next-Inv R l v
  run_slot-Inv beats l v = step_by-Inv R beat l.step_mode l v
  run_slot-Inv steps l v = step_by-Inv R manual l.step_mode l v
  run_slot-Inv clears l v = clear-Inv l v

  run-keeps : (ss : List Slot) (l : PlaybackList) → Inv l → Inv (run R ss l)
  unfolding run
  run-keeps [] l v = v
  run-keeps (s ∷ ss) l v = run-keeps ss (run_slot R s l) (run_slot-Inv s l v)

  -- After any sequence of slots on a new list no source is selected twice, the single mode has at
  -- most one selection, and the current index is -1 or that of the first selection.
  pub run-Inv : (ss : List Slot) → Inv (run R ss init)
  unfolding init
  run-Inv ss =
      run-keeps ss init (record {
        unique = λ p. omega arith;
        at_most_one = λ e. omega arith;
        plays_front = inl refl;
      })

-- `clear` and the change to single selection both keep the first selection of a list that has one.
pub clear_keeps_first :
    (x : ℕ) (xs : List ℕ) (l : PlaybackList)
    → l.selections ≡ x ∷ xs
    → ((clear l).selections ≡ x ∷ []) × ((set_selection_mode single l).selections ≡ x ∷ [])
unfolding clear set_selection_mode
clear_keeps_first x xs l e =
    let t = erase_tail-trimmed (length l.selections) (x ∷ xs) l e (omega (arith, ap length e)) in
    (ap (λ (k : PlaybackList). k.selections) t, ap (λ (k : PlaybackList). k.selections) t)
