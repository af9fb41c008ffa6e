-- ===== src/Playlist/Selection.antt =====
-- What `select` and `isSelected` of src/playbacklist.cpp, and `Engine::clicked`
-- (src/engine.cpp) on top of them, say of one another.
use lucifer.Prelude.{
  ℕ, suc, ◌+◌, ◌<◌, ◌≡◌, refl, ◌≢◌, inl, inr, true, false, not, List, [], ◌∷◌, arith, if◌then◌else◌,
  Bool-cases, is_zero,
}
use lucifer.Random.{count, count-append, Random}
use lucifer.Playlist.{
  contains, is_selected, deselect, select_single, select_more, add_selection, select, PlaybackList,
  SelectionModes, single, multiple, shuffle,
}
use lucifer.Playlist.Effects.{next_stopped-Keeps}
use lucifer.Playlist.Invariant.{deselect-Deselects, cleared, Inv}

contains-count :
    (p : ℕ) (xs : List ℕ) → contains p xs ≡ (if is_zero (count p xs) then false else true)
unfolding contains
contains-count p [] = refl
contains-count p (x ∷ xs) = ground (arith, contains-count p xs)

is_selected-eq :
    (p : ℕ) (l m : PlaybackList)
    → count p l.selections ≡ count p m.selections
    → is_selected p l ≡ is_selected p m
unfolding is_selected
is_selected-eq p l m e = rw (contains-count p l.selections, contains-count p m.selections, e)

is_selected-zero : (p : ℕ) (l : PlaybackList) → count p l.selections ≡ 0 → is_selected p l ≡ false
unfolding is_selected
is_selected-zero p l e = rw (contains-count p l.selections, e)

is_selected-pos : (p : ℕ) (l : PlaybackList) → 0 < count p l.selections → is_selected p l ≡ true
unfolding is_selected
is_selected-pos p l e = rw (contains-count p l.selections) (ground arith)

module _ (R : Random) where
  select_single-count :
      (p q : ℕ) (l : PlaybackList) → count q (select_single R p l).selections ≡ count q (p ∷ [])
  unfolding select_single
  select_single-count p q l = (next_stopped-Keeps R (cleared R p l)).same_count q

  select_more-count :
      (p q : ℕ) (l : PlaybackList)
      → count q (select_more R p l).selections ≡ count q l.selections + count q (p ∷ [])
  unfolding select_more
  select_more-count p q l = count-append q l.selections (p ∷ [])

  add-selected :
      (mode : SelectionModes) (p : ℕ) (l : PlaybackList)
      → is_selected p (add_selection R mode p l) ≡ true
  unfolding add_selection
  add-selected single p l = is_selected-pos p _ (ground (arith, select_single-count p p l))
  add-selected multiple p l = is_selected-pos p _ (ground (arith, select_more-count p p l))
  add-selected shuffle p l = is_selected-pos p _ (ground (arith, select_more-count p p l))

  -- On a list that satisfies the invariant, `select (p, false)` leaves p unselected and every other
  -- index as it was, and `select (p, true)` leaves p selected, whether or not it was before.
  pub select-is_selected :
      (p q : ℕ) (l : PlaybackList)
      → Inv l
      → q ≢ p
      → (is_selected p (select R p false l) ≡ false)
        × (is_selected q (select R p false l) ≡ is_selected q l)
        × (is_selected p (select R p true l) ≡ true)
  unfolding select
  select-is_selected p q l v n =
      let d = deselect-Deselects R p l in
      (
        is_selected-zero p _ (omega (arith, d.gone, v.unique p)),
        is_selected-eq q _ _ (d.others q n),
        add-selected l.sel_mode p (deselect R p l),
      )

  -- `Engine::clicked` at the selected head.
  pub clicked : ℕ → PlaybackList → PlaybackList
  unfolding select is_selected
  clicked p l = select R p (not (is_selected p l)) l

  -- On a list that satisfies the invariant a click turns the selection of its button over.
  pub clicked-is_selected :
      (p : ℕ) (l : PlaybackList) → Inv l → is_selected p (clicked p l) ≡ not (is_selected p l)
  unfolding clicked
  clicked-is_selected p l v =
      let (off, _, on) = select-is_selected p (suc p) l v (λ e. absurd (omega (arith, e))) in
      elim (Bool-cases (is_selected p l)) [ inl e ↦ rw e off | inr e ↦ rw e on ]
