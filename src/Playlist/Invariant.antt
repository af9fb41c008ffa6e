-- ===== src/Playlist/Invariant.antt =====
-- The invariant of the playback list of src/playbacklist.cpp, slot by slot.
use lucifer.Prelude.{
  ℕ, zero, suc, ◌-◌, ◌≤◌, ◌≡◌, refl, sym, ap, ◌∙◌, ◌≢◌, ◌⊎◌, inl, inr, Bool, true, false, Option,
  none, some, List, [], ◌∷◌, ◌++◌, arith, ℕ_discrete, length,
}
use lucifer.Prelude.Int.{ℤ, minus_one}
use lucifer.Random.{count, count-append, Random}
use lucifer.Playlist.{
  front, find_index, erase_at, announce_off, use_up, step_list, next_with, drop_selection, deselect,
  next, select_single, select_more, add_selection, select, move_on, get_next_framesource, step_by,
  PlaybackList, SelectionModes, single, multiple, shuffle, StepModes, once, loop, manual, beat,
  dump_current_selection,
}
use lucifer.Playlist.Effects.{
  emit-Keeps, load_front-Keeps, rotate-Keeps, next_stopped-Keeps, find_index-count_zero,
  count-erase_at, length-erase_at, front-erase_at, Keeps,
}

pub record Inv (l : PlaybackList) : Type 0 where
  -- No source is selected twice.
  pub unique : (p : ℕ) → count p l.selections ≤ 1
  -- In single selection mode there is at most one selection.
  pub at_most_one : l.sel_mode ≡ single → length l.selections ≤ 1
  -- What is being played is the first selection, if anything is.
  pub plays_front : (l.current_index ≡ minus_one) ⊎ (l.current_index ≡ front l.selections)

-- Deselection removes at most `pos`, and changes neither mode.
pub record Deselects (pos : ℕ) (l m : PlaybackList) : Type 0 where
  pub same_mode : m.sel_mode ≡ l.sel_mode
  pub same_step : m.step_mode ≡ l.step_mode
  pub others : (q : ℕ) → q ≢ pos → count q m.selections ≡ count q l.selections
  pub gone : count pos m.selections ≡ count pos l.selections - 1
  pub shorter : length m.selections ≤ length l.selections
  pub current :
      (m.current_index ≡ minus_one)
      ⊎ ((m.current_index ≡ l.current_index) × (front m.selections ≡ front l.selections))

drop_first-Deselects :
    (pos : ℕ) (l k m : PlaybackList)
    → find_index pos l.selections ≡ some 0
    → k.selections ≡ erase_at 0 l.selections
    → k.sel_mode ≡ l.sel_mode
    → k.step_mode ≡ l.step_mode
    → k.current_index ≡ minus_one
    → Keeps k m
    → Deselects pos l m
drop_first-Deselects pos l k m e erased mode step current kept = record {
  same_mode = kept.same_mode ∙ mode;
  same_step = kept.same_step ∙ step;
  others = λ q h.
      ground (arith, kept.same_count q, ap (count q) erased, count-erase_at pos q 0 l.selections e);
  gone =
      ground (
        arith,
        kept.same_count pos,
        ap (count pos) erased,
        count-erase_at pos pos 0 l.selections e,
      );
  shorter = omega (arith, kept.same_length, ap length erased, length-erase_at pos 0 l.selections e);
  current = inl (kept.same_current ∙ current);
}

carried :
    {c d f g : ℤ}
    → (c ≡ minus_one) ⊎ (c ≡ f)
    → (d ≡ minus_one) ⊎ ((d ≡ c) × (g ≡ f))
    → (d ≡ minus_one) ⊎ (d ≡ g)
carried h (inl e) = inl e
carried (inl h) (inr (e, f)) = inl (e ∙ h)
carried (inr h) (inr (e, f)) = inr (e ∙ (h ∙ sym f))

module _ (R : Random) where
  drop-Deselects :
      (pos : ℕ) (l : PlaybackList) (o : Option ℕ)
      → find_index pos l.selections ≡ o
      → Deselects pos l (drop_selection R pos l o)
  unfolding drop_selection
  drop-Deselects pos l none e = record {
    same_mode = refl;
    same_step = refl;
    others = λ q h. refl;
    gone = omega (arith, find_index-count_zero pos l.selections e);
    shorter = omega arith;
    current = inr (refl, refl);
  }
  drop-Deselects pos l (some zero) e =
      drop_first-Deselects pos l _ _ e refl refl refl refl (next_stopped-Keeps R _)
  drop-Deselects pos l (some (suc i)) e = record {
    same_mode = refl;
    same_step = refl;
    others = λ q h. ground (arith, count-erase_at pos q (suc i) l.selections e);
    gone = ground (arith, count-erase_at pos pos (suc i) l.selections e);
    shorter = omega (arith, length-erase_at pos (suc i) l.selections e);
    current = inr (refl, front-erase_at i l.selections);
  }

  pub deselect-Deselects : (pos : ℕ) (l : PlaybackList) → Deselects pos l (deselect R pos l)
  unfolding deselect
  deselect-Deselects pos l = drop-Deselects pos l (find_index pos l.selections) refl

  front-append_one :
      (xs : List ℕ) (x : ℕ) (c : ℤ)
      → (c ≡ minus_one) ⊎ (c ≡ front xs)
      → (c ≡ minus_one) ⊎ (c ≡ front (xs ++ x ∷ []))
  front-append_one [] x c (inl e) = inl e
  front-append_one [] x c (inr e) = inl e
  front-append_one (y ∷ ys) x c h = h

  select_more-Inv :
      (pos : ℕ) (l : PlaybackList)
      → (l.sel_mode ≡ single → ⊥)
      → count pos l.selections ≡ 0
      → Inv l
      → Inv (select_more R pos l)
  unfolding select_more
  select_more-Inv pos l many absent v = record {
    unique = λ p. ground (arith, v.unique p, count-append p l.selections (pos ∷ []));
    at_most_one = λ e. absurd (many e);
    plays_front = front-append_one l.selections pos l.current_index v.plays_front;
  }

  abbrev pub cleared : ℕ → PlaybackList → PlaybackList
  cleared pos l = record l {
    selections = pos ∷ [];
    current_index = minus_one;
    signals = dump_current_selection ∷ announce_off l.selections l.signals;
  }

  select_single-Inv : (pos : ℕ) (l : PlaybackList) → Inv (select_single R pos l)
  unfolding select_single
  select_single-Inv pos l =
      let kept = next_stopped-Keeps R (cleared pos l) in
      record {
        unique = λ p. ground (arith, kept.same_count p);
        at_most_one = λ e. omega (arith, kept.same_length);
        plays_front = inl kept.same_current;
      }

  deselect-Inv : (pos : ℕ) (l : PlaybackList) → Inv l → Inv (deselect R pos l)
  deselect-Inv pos l v =
      let d = deselect-Deselects pos l in
      record {
        unique = λ p. elim (ℕ_discrete p pos) [
          | yes e ↦ rw e (omega (arith, d.gone, v.unique pos))
          | no n ↦ omega (arith, d.others p n, v.unique p)
        ];
        at_most_one = λ e. omega (arith, d.shorter, v.at_most_one (sym d.same_mode ∙ e));
        plays_front = carried v.plays_front d.current;
      }

  add-Inv :
      (mode : SelectionModes) (pos : ℕ) (l : PlaybackList)
      → l.sel_mode ≡ mode
      → count pos l.selections ≡ 0
      → Inv l
      → Inv (add_selection R mode pos l)
  unfolding add_selection
  add-Inv single pos l m absent v = select_single-Inv pos l
  add-Inv multiple pos l m absent v = select_more-Inv pos l (λ e. cc) absent v
  add-Inv shuffle pos l m absent v = select_more-Inv pos l (λ e. cc) absent v

  pub select-Inv :
      (pos : ℕ) (active : Bool) (l : PlaybackList) → Inv l → Inv (select R pos active l)
  unfolding select
  select-Inv pos false l v = deselect-Inv pos l v
  select-Inv pos true l v =
      let d = deselect-Deselects pos l in
      add-Inv l.sel_mode pos (deselect R pos l) d.same_mode (omega (arith, d.gone, v.unique pos))
        (deselect-Inv pos l v)

-- Selections only go away, and the modes stay.
pub record Thins (l m : PlaybackList) : Type 0 where
  same_mode : m.sel_mode ≡ l.sel_mode
  fewer : (p : ℕ) → count p m.selections ≤ count p l.selections
  shorter : length m.selections ≤ length l.selections

Keeps-Thins : (l m n : PlaybackList) → Thins l m → Keeps m n → Thins l n
Keeps-Thins l m n h k = record {
  same_mode = k.same_mode ∙ h.same_mode;
  fewer = λ p. omega (arith, h.fewer p, k.same_count p);
  shorter = omega (arith, h.shorter, k.same_length);
}

Thins-refl : (l : PlaybackList) → Thins l l
Thins-refl l = record { same_mode = refl; fewer = λ p. omega arith; shorter = omega arith }

module _ (R : Random) where
  deselect-Thins : (old : ℕ) (l : PlaybackList) → Thins l (deselect R old l)
  deselect-Thins old l =
      let d = deselect-Deselects R old l in
      record {
        same_mode = d.same_mode;
        fewer = λ p. elim (ℕ_discrete p old) [
          | yes e ↦ rw e (omega (arith, d.gone))
          | no n ↦ omega (arith, d.others p n)
        ];
        shorter = d.shorter;
      }

  use_up-Thins :
      (running : Bool) (old : ℕ) (l : PlaybackList) → Thins l (use_up R (deselect R) running old l)
  unfolding use_up
  use_up-Thins true old l =
      Keeps-Thins l (deselect R old l) _ (deselect-Thins old l)
        (emit-Keeps _ _ _ (load_front-Keeps _ _))
  use_up-Thins false old l =
      Keeps-Thins l l _ (Thins-refl l) (emit-Keeps _ _ _ (load_front-Keeps _ _))

  step-Thins :
      (mode : StepModes) (running : Bool) (old : ℕ) (rest : List ℕ) (l : PlaybackList)
      → l.selections ≡ old ∷ rest
      → Thins l (step_list R mode (deselect R) running old rest l)
  unfolding step_list
  step-Thins once running old rest l e = use_up-Thins running old l
  step-Thins loop running old rest l e =
      Keeps-Thins l l _ (Thins-refl l) (rotate-Keeps R old rest l e)
  step-Thins manual running old rest l e =
      Keeps-Thins l l _ (Thins-refl l) (rotate-Keeps R old rest l e)
  step-Thins beat running old rest l e =
      Keeps-Thins l l _ (Thins-refl l) (rotate-Keeps R old rest l e)

  next-Thins :
      (running : Bool) (xs : List ℕ) (l : PlaybackList)
      → l.selections ≡ xs
      → Thins l (next_with R (deselect R) running xs l)
  unfolding next_with
  next-Thins running [] l e = Thins-refl l
  next-Thins running (x ∷ xs) l e = step-Thins l.step_mode running x xs l e

  move_on-Inv : (running : Bool) (l : PlaybackList) → Inv l → Inv (move_on R running l)
  unfolding move_on next
  move_on-Inv running l v =
      let t = next-Thins running l.selections l refl in
      record {
        unique = λ p. omega (arith, t.fewer p, v.unique p);
        at_most_one = λ e. omega (arith, t.shorter, v.at_most_one (sym t.same_mode ∙ e));
        plays_front = inr refl;
      }

  pub get_next-Inv : (l : PlaybackList) → Inv l → Inv (get_next_framesource R l)
  unfolding get_next_framesource
  get_next-Inv l v = ground (arith, move_on-Inv true l v, move_on-Inv false l v)

  pub step_by-Inv : (a b : StepModes) (l : PlaybackList) → Inv l → Inv (step_by R a b l)
  unfolding step_by
  step_by-Inv beat beat l v = ground (arith, move_on-Inv true l v)
  step_by-Inv manual manual l v = ground (arith, move_on-Inv true l v)
  step_by-Inv _ _ l v = v
