-- ===== src/Playlist/Order.antt =====
-- The order in which `getNextFramesource` of src/playbacklist.cpp goes through the selections.
use lucifer.Prelude.{
  ℕ, zero, suc, ◌^◌, ◌<◌, ◌≡◌, refl, sym, ap, ap₂, subst, ◌∙◌, Bool, true, false, some, List, [],
  ◌∷◌, ◌++◌, map, append-nil, append_assoc, arith, if◌then◌else◌, length, drop, All,
}
use lucifer.Prelude.Int.{ℤ, eq_ℤ, minus_one, to_int, to_int-ne_minus_one}
use lucifer.Random.{Random}
use lucifer.Playlist.{
  front, load_front, is_shuffle, find_index, erase_at, moves_at_end, rotate, use_up, step_list,
  next_with, next_stopped, drop_selection, deselect, next, move_on, get_next_framesource,
  PlaybackList, once, loop,
}

-- The selections of a list in the mode LOOP that does not shuffle.
record Loops (xs : List ℕ) (l : PlaybackList) : Type 0 where
  selected : l.selections ≡ xs
  looping : l.step_mode ≡ loop
  plain : is_shuffle l.sel_mode ≡ false

-- A list in the mode ONCE that plays its first selection.
record Once (xs : List ℕ) (l : PlaybackList) : Type 0 where
  selected : l.selections ≡ xs
  once_only : l.step_mode ≡ once
  playing : l.current_index ≡ front xs

load_front-fields :
    (l : PlaybackList) (xs : List ℕ)
    → ((load_front l xs).selections ≡ l.selections)
      × ((load_front l xs).step_mode ≡ l.step_mode)
      × ((load_front l xs).sel_mode ≡ l.sel_mode)
load_front-fields l [] = (refl, refl, refl)
load_front-fields l (x ∷ xs) = (refl, refl, refl)

heads :
    (xs : List ℕ) (y : ℕ) (ys : List ℕ)
    → front (xs ++ y ∷ ys) ∷ map to_int (drop 1 (xs ++ y ∷ [])) ≡ map to_int (xs ++ y ∷ [])
heads [] y ys = refl
heads (x ∷ xs) y ys = refl

find_index_first : (x : ℕ) (xs : List ℕ) → find_index x (x ∷ xs) ≡ some 0
unfolding find_index
find_index_first x xs = ground arith

erase_at_first : (x : ℕ) (xs : List ℕ) → erase_at 0 (x ∷ xs) ≡ xs
unfolding erase_at
erase_at_first x xs = refl

module _ (R : Random) where
  -- The indices that n calls of `getNextFramesource` return, and the list after them.
  abbrev pub plays : ℕ → PlaybackList → List ℤ × PlaybackList
  plays zero l = ([], l)
  plays (suc n) l =
      let m = get_next_framesource R l in let rest = plays n m in (m.current_index ∷ rest.0, rest.1)

  move_on-front :
      (running : Bool) (l : PlaybackList)
      → (move_on R running l).current_index ≡ front (move_on R running l).selections
  unfolding move_on
  move_on-front running l = refl

  get_next-moves :
      (l : PlaybackList)
      → moves_at_end l.step_mode ≡ true
      → get_next_framesource R l
        ≡ move_on R (if eq_ℤ l.current_index minus_one then false else true) l
  unfolding get_next_framesource
  get_next-moves l h = rw h

  loop_move :
      (running : Bool) (old : ℕ) (rest : List ℕ) (l : PlaybackList)
      → Loops (old ∷ rest) l
      → Loops (rest ++ old ∷ []) (move_on R running l)
  unfolding move_on next next_with step_list rotate
  loop_move running old rest l s =
      rw (s.selected, s.looping, s.plain)
        (record {
          selected = (load_front-fields _ _).0;
          looping = (load_front-fields _ _).1;
          plain = ap is_shuffle (load_front-fields _ _).2 ∙ s.plain;
        })

  loop_once :
      (old : ℕ) (rest : List ℕ) (l : PlaybackList)
      → Loops (old ∷ rest) l
      → Loops (rest ++ old ∷ []) (get_next_framesource R l)
        × ((get_next_framesource R l).current_index ≡ front (rest ++ old ∷ []))
  loop_once old rest l s =
      let running = if eq_ℤ l.current_index minus_one then false else true in
      let m = loop_move running old rest l s in
      rw (get_next-moves l (ap moves_at_end s.looping))
        (m, move_on-front running l ∙ ap front m.selected)

  -- The rounds for the selections `xs` in front of `y ∷ ys`.
  loop_rounds :
      (xs : List ℕ) (y : ℕ) (ys : List ℕ) (l : PlaybackList)
      → Loops (xs ++ y ∷ ys) l
      → ((plays (length xs) l).0 ≡ map to_int (drop 1 (xs ++ y ∷ [])))
        × ((plays (length xs) l).1.selections ≡ y ∷ ys ++ xs)
  loop_rounds [] y ys l s = (refl, s.selected ∙ sym (append-nil (y ∷ ys)))
  loop_rounds (x ∷ xs) y ys l s =
      let (m, now) = loop_once x (xs ++ y ∷ ys) l s in
      let again =
        subst (λ zs. Loops zs (get_next_framesource R l)) (append_assoc xs (y ∷ ys) (x ∷ [])) m in
      let (played, left) = loop_rounds xs y (ys ++ x ∷ []) (get_next_framesource R l) again in
      (
        ap₂ (λ c cs. c ∷ cs) (now ∙ ap front (append_assoc xs (y ∷ ys) (x ∷ []))) played
            ∙ heads xs y (ys ++ x ∷ []),
        left ∙ append_assoc (y ∷ ys) (x ∷ []) xs,
      )

  -- In the mode LOOP, without shuffling, as many calls as there are selections play each selection
  -- once: those behind the first in their order, then the first; and the list is as it was.
  pub loop_plays_all :
      (x : ℕ) (xs : List ℕ) (l : PlaybackList)
      → l.selections ≡ x ∷ xs
      → l.step_mode ≡ loop
      → is_shuffle l.sel_mode ≡ false
      → ((plays (length (x ∷ xs)) l).0 ≡ map to_int (xs ++ x ∷ []))
        × ((plays (length (x ∷ xs)) l).1.selections ≡ x ∷ xs)
  loop_plays_all x xs l e m p =
      let (again, now) = loop_once x xs l (record { selected = e; looping = m; plain = p }) in
      let (played, left) = loop_rounds xs x [] (get_next_framesource R l) again in
      (ap₂ (λ c cs. c ∷ cs) now played ∙ heads xs x [], left)

  stopped_once :
      (xs : List ℕ) (l : PlaybackList)
      → l.selections ≡ xs
      → l.step_mode ≡ once
      → ((next_stopped R l).selections ≡ xs) × ((next_stopped R l).step_mode ≡ once)
  unfolding next_stopped next_with step_list use_up
  stopped_once [] l e m = rw e (refl, m)
  stopped_once (x ∷ xs) l e m = rw (e, m) (refl, refl)

  deselect_once :
      (x : ℕ) (xs : List ℕ) (l : PlaybackList)
      → l.selections ≡ x ∷ xs
      → l.step_mode ≡ once
      → ((deselect R x l).selections ≡ xs) × ((deselect R x l).step_mode ≡ once)
  unfolding deselect drop_selection
  deselect_once x xs l e m =
      rw (ap (find_index x) e ∙ find_index_first x xs)
        (stopped_once xs _ (ap (erase_at 0) e ∙ erase_at_first x xs) m)

  next_running :
      (x : ℕ) (xs : List ℕ) (l : PlaybackList)
      → l.selections ≡ x ∷ xs
      → l.step_mode ≡ once
      → ((next R true l).selections ≡ xs) × ((next R true l).step_mode ≡ once)
  unfolding next next_with step_list use_up
  next_running x xs l e m =
      rw (e, m)
        (
          (load_front-fields _ _).0 ∙ (deselect_once x xs _ refl refl).0,
          (load_front-fields _ _).1 ∙ (deselect_once x xs _ refl refl).1,
        )

  next_idle :
      (x : ℕ) (xs : List ℕ) (l : PlaybackList)
      → l.selections ≡ x ∷ xs
      → l.step_mode ≡ once
      → ((next R false l).selections ≡ x ∷ xs) × ((next R false l).step_mode ≡ once)
  unfolding next next_with step_list use_up
  next_idle x xs l e m = rw (e, m) (refl, refl)

  -- One call in the mode ONCE uses the first selection up.
  Once-next :
      (x : ℕ) (xs : List ℕ) (l : PlaybackList)
      → x < 2 ^ 31
      → Once (x ∷ xs) l
      → Once xs (get_next_framesource R l)
  unfolding move_on
  Once-next x xs l h s =
      let (left, mode) = next_running x xs l s.selected s.once_only in
      rw
        (
          get_next-moves l (ap moves_at_end s.once_only),
          ap (λ c. eq_ℤ c minus_one) s.playing ∙ to_int-ne_minus_one x h,
        )
        (record { selected = left; once_only = mode; playing = ap front left })

  Once-start :
      (x : ℕ) (xs : List ℕ) (l : PlaybackList)
      → l.selections ≡ x ∷ xs
      → l.step_mode ≡ once
      → l.current_index ≡ minus_one
      → Once (x ∷ xs) (get_next_framesource R l)
  unfolding move_on
  Once-start x xs l e m idle =
      let (left, mode) = next_idle x xs l e m in
      rw (get_next-moves l (ap moves_at_end m), ap (λ c. eq_ℤ c minus_one) idle)
        (record { selected = left; once_only = mode; playing = ap front left })

  plays-Once :
      (x : ℕ) (xs : List ℕ) (l : PlaybackList)
      → All (λ y. y < 2 ^ 31) (x ∷ xs)
      → Once (x ∷ xs) l
      → ((plays (length (x ∷ xs)) l).0 ≡ map to_int xs ++ minus_one ∷ [])
        × ((plays (length (x ∷ xs)) l).1.selections ≡ [])
  plays-Once x [] l h s = let m = Once-next x [] l h.0 s in (ap (λ c. c ∷ []) m.playing, m.selected)
  plays-Once x (y ∷ ys) l h s =
      let m = Once-next x (y ∷ ys) l h.0 s in
      let (played, left) = plays-Once y ys (get_next_framesource R l) h.1 m in
      (ap₂ (λ c cs. c ∷ cs) m.playing played, left)

  -- In the mode ONCE a list of indices below 2^31 that plays nothing returns its selections in
  -- their order, then -1; and then nothing is selected any more.
  pub once_plays_in_order :
      (x : ℕ) (xs : List ℕ) (l : PlaybackList)
      → All (λ y. y < 2 ^ 31) (x ∷ xs)
      → l.selections ≡ x ∷ xs
      → l.step_mode ≡ once
      → l.current_index ≡ minus_one
      → ((plays (suc (length (x ∷ xs))) l).0 ≡ map to_int (x ∷ xs) ++ minus_one ∷ [])
        × ((plays (suc (length (x ∷ xs))) l).1.selections ≡ [])
  once_plays_in_order x xs l h e m idle =
      let s = Once-start x xs l e m idle in
      let (played, left) = plays-Once x xs (get_next_framesource R l) h s in
      (ap₂ (λ c cs. c ∷ cs) s.playing played, left)
