-- ===== src/Playlist/Trim.antt =====
-- The loop `while (selections.size() > 1)` of `setSelectionMode` and `clear` in
-- src/playbacklist.cpp, against a closed form.
use lucifer.Prelude.{
  ℕ, zero, suc, ◌≤◌, ◌≡◌, refl, ap, ◌∙◌, false, List, [], ◌∷◌, arith, lt→ltb, length,
}
use lucifer.Playlist.{last_or, erase_last, erase_tail, PlaybackList, Signal, selection_changed}

-- The signals of the loop, the latest first: it announces the selections from the last one down.
abbrev pub announced : List ℕ → List Signal → List Signal
announced [] signals = signals
announced (x ∷ xs) signals = selection_changed x false ∷ announced xs signals

announced-last :
    (x : ℕ) (xs : List ℕ) (signals : List Signal)
    → announced (erase_last (x ∷ xs)) (selection_changed (last_or x xs) false ∷ signals)
      ≡ announced (x ∷ xs) signals
unfolding erase_last last_or
announced-last x [] signals = refl
announced-last x (y ∷ ys) signals =
    ap (◌∷◌ (selection_changed x false)) (announced-last y ys signals)

length-erase_last : (x : ℕ) (xs : List ℕ) → length (erase_last (x ∷ xs)) ≡ length xs
unfolding erase_last
length-erase_last x [] = refl
length-erase_last x (y ∷ ys) = ap suc (length-erase_last y ys)

-- What is left once the loop has ended: the first selection.
abbrev pub trimmed : PlaybackList → List ℕ → PlaybackList
trimmed l [] = l
trimmed l (x ∷ xs) = record l { selections = x ∷ []; signals = announced xs l.signals }

-- With at least as much fuel as there are selections the loop ends by its test.
pub erase_tail-trimmed :
    (fuel : ℕ) (xs : List ℕ) (l : PlaybackList)
    → l.selections ≡ xs
    → length xs ≤ fuel
    → erase_tail fuel l ≡ trimmed l xs
unfolding erase_tail last_or erase_last
erase_tail-trimmed zero [] l e h = refl
erase_tail-trimmed zero (x ∷ xs) l e h = elim h [ ]
erase_tail-trimmed (suc fuel) [] l e h = rw e refl
erase_tail-trimmed (suc fuel) (x ∷ []) l e h = rw e
erase_tail-trimmed (suc fuel) (x ∷ y ∷ ys) l e h =
    rw (e, lt→ltb 1 (suc (suc (length ys))) (omega arith))
      (erase_tail-trimmed fuel (x ∷ erase_last (y ∷ ys)) _ refl
          (omega (arith, length-erase_last y ys))
        ∙ ap (λ s. record l { selections = x ∷ []; signals = s }) (announced-last y ys l.signals))
