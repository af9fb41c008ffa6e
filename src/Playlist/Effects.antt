-- ===== src/Playlist/Effects.antt =====
-- What the slots of `PlaybackList` do to the selections, counted with multiplicity.
use lucifer.Prelude.{
  ℕ, zero, suc, ◌≡◌, refl, sym, ap, ◌∙◌, inl, inr, none, some, List, [], ◌∷◌, ◌++◌, arith, ◌==◌,
  if◌then◌else◌, Bool-cases, length, length-append,
}
use lucifer.Random.{count, count-append, Random}
use lucifer.Playlist.{
  emit, front, load_front, is_shuffle, find_index, erase_at, rotate, use_up, step_list, next_with,
  next_stopped, PlaybackList, StepModes, once, loop, manual, beat, Signal,
}

-- The modes, the current index and the selections up to their order are the same.
pub record Keeps (l m : PlaybackList) : Type 0 where
  pub same_mode : m.sel_mode ≡ l.sel_mode
  pub same_step : m.step_mode ≡ l.step_mode
  pub same_current : m.current_index ≡ l.current_index
  pub same_count : (p : ℕ) → count p m.selections ≡ count p l.selections
  pub same_length : length m.selections ≡ length l.selections

Keeps-trans : (l m n : PlaybackList) → Keeps l m → Keeps m n → Keeps l n
Keeps-trans l m n h k = record {
  same_mode = k.same_mode ∙ h.same_mode;
  same_step = k.same_step ∙ h.same_step;
  same_current = k.same_current ∙ h.same_current;
  same_count = λ p. k.same_count p ∙ h.same_count p;
  same_length = k.same_length ∙ h.same_length;
}

pub Keeps-refl : (l : PlaybackList) → Keeps l l
Keeps-refl l = record {
  same_mode = refl;
  same_step = refl;
  same_current = refl;
  same_count = λ p. refl;
  same_length = refl;
}

pub emit-Keeps : (s : Signal) (l m : PlaybackList) → Keeps l m → Keeps l (emit s m)
emit-Keeps s l m h = record {
  same_mode = h.same_mode;
  same_step = h.same_step;
  same_current = h.same_current;
  same_count = h.same_count;
  same_length = h.same_length;
}

pub load_front-Keeps : (l : PlaybackList) (xs : List ℕ) → Keeps l (load_front l xs)
load_front-Keeps l [] = Keeps-refl l
load_front-Keeps l (x ∷ xs) = emit-Keeps _ l l (Keeps-refl l)

count-moved : (p old : ℕ) (rest : List ℕ) → count p (rest ++ old ∷ []) ≡ count p (old ∷ rest)
count-moved p old rest = ground (arith, count-append p rest (old ∷ []))

length-moved : (old : ℕ) (rest : List ℕ) → length (rest ++ old ∷ []) ≡ suc (length rest)
length-moved old rest = omega (arith, length-append rest (old ∷ []))

module _ (R : Random) where
  pub rotate-Keeps :
      (old : ℕ) (rest : List ℕ) (l : PlaybackList)
      → l.selections ≡ old ∷ rest
      → Keeps l (rotate R old rest l)
  unfolding rotate
  rotate-Keeps old rest l e = elim (Bool-cases (is_shuffle l.sel_mode)) [
    | inl s ↦ rw s (Keeps-trans l _ _ shuffled (load_front-Keeps _ _))
    | inr s ↦ rw s (Keeps-trans l _ _ moved (load_front-Keeps _ _))
  ]
    where
      moved : Keeps l (record l { selections = rest ++ old ∷ [] })
      moved = record {
        same_mode = refl;
        same_step = refl;
        same_current = refl;
        same_count = λ p. count-moved p old rest ∙ sym (ap (count p) e);
        same_length = length-moved old rest ∙ sym (ap length e);
      }

      shuffled : Keeps l (record l {
        selections = R.random_shuffle l.draws (rest ++ old ∷ []);
        draws = suc l.draws;
      })
      shuffled = record {
        same_mode = refl;
        same_step = refl;
        same_current = refl;
        same_count = λ p. R.count-shuffle _ p _ ∙ (count-moved p old rest ∙ sym (ap (count p) e));
        same_length = R.length-shuffle _ _ ∙ (length-moved old rest ∙ sym (ap length e));
      }

  pub stopped-Keeps :
      (mode : StepModes) (xs : List ℕ) (l : PlaybackList)
      → l.step_mode ≡ mode
      → l.selections ≡ xs
      → Keeps l (next_stopped R l)
  unfolding next_stopped next_with step_list use_up
  stopped-Keeps mode [] l m e = rw e (Keeps-refl _)
  stopped-Keeps once (x ∷ xs) l m e = rw (e, m) (emit-Keeps _ _ _ (load_front-Keeps _ (x ∷ xs)))
  stopped-Keeps loop (x ∷ xs) l m e = rw (e, m) (rotate-Keeps x xs _ refl)
  stopped-Keeps manual (x ∷ xs) l m e = rw (e, m) (rotate-Keeps x xs _ refl)
  stopped-Keeps beat (x ∷ xs) l m e = rw (e, m) (rotate-Keeps x xs _ refl)

  -- `next (false)` only reorders the selections.
  pub next_stopped-Keeps : (l : PlaybackList) → Keeps l (next_stopped R l)
  next_stopped-Keeps l = stopped-Keeps l.step_mode l.selections l refl refl

-- What the loop of `select` finds and erases.
pub find_index-count_zero : (p : ℕ) (xs : List ℕ) → find_index p xs ≡ none → count p xs ≡ 0
unfolding find_index
find_index-count_zero p [] h = refl
find_index-count_zero p (x ∷ xs) h = ground (arith, find_index-count_zero p xs)

pub count-erase_at :
    (p q i : ℕ) (xs : List ℕ)
    → find_index p xs ≡ some i
    → count q xs ≡ (if p == q then suc (count q (erase_at i xs)) else count q (erase_at i xs))
unfolding find_index erase_at
count-erase_at p q i [] h = cc
count-erase_at p q zero (x ∷ xs) h = ground arith
count-erase_at p q (suc i) (x ∷ xs) h = ground (arith, count-erase_at p q i xs)

pub length-erase_at :
    (p i : ℕ) (xs : List ℕ) → find_index p xs ≡ some i → length xs ≡ suc (length (erase_at i xs))
unfolding find_index erase_at
length-erase_at p i [] h = cc
length-erase_at p zero (x ∷ xs) h = refl
length-erase_at p (suc i) (x ∷ xs) h = ground (arith, length-erase_at p i xs)

pub front-erase_at : (i : ℕ) (xs : List ℕ) → front (erase_at (suc i) xs) ≡ front xs
unfolding erase_at
front-erase_at i [] = refl
front-erase_at i (x ∷ xs) = refl
