-- ===== src/Engine/Sources.antt =====
-- `addFrameSource`, `getFrameSource` and `copy` of src/engine.cpp.
use lucifer.Prelude.{
  ℕ, zero, suc, ◌-◌, ◌<◌, ◌≡◌, refl, sym, ap, ◌∙◌, ◌≢◌, ◌⊎◌, inl, inr, true, Option, none, some,
  List, [], ◌∷◌, ◌++◌, arith, ℕ_discrete, Option-cases, length, get_elem?, replicate, length-append,
  get_elem?-set_self, get_elem?-set_ne, length-replicate,
}
use lucifer.Prelude.Int.{pos, negsuc}
use lucifer.Engine.{
  find_empty, free_slot, slot_for, grown, store, add_frame_source, held, get_frame_source, copy,
  Engine,
}

module _ (Source : Type 0) where
  held-replicate : (k q : ℕ) → held Source (get_elem? (replicate k none) q) ≡ none
  held-replicate zero q = refl
  held-replicate (suc k) zero = refl
  held-replicate (suc k) (suc q) = held-replicate k q

  held-append :
      (ss : List (Option Source)) (k q : ℕ)
      → held Source (get_elem? (ss ++ replicate k none) q) ≡ held Source (get_elem? ss q)
  held-append [] k q = held-replicate k q
  held-append (s ∷ ss) k zero = refl
  held-append (s ∷ ss) k (suc q) = held-append ss k q

  grown-long : (i : ℕ) (ss : List (Option Source)) → i < length (grown Source i ss)
  grown-long i ss =
      let nothing : Option Source = none in
      omega (
        arith,
        length-append ss (replicate (suc i - length ss) none),
        length-replicate (suc i - length ss) nothing,
      )

  store-same :
      (i : ℕ) (fs : Option Source) (e : Engine Source)
      → get_frame_source Source i (store Source i fs e) ≡ fs
  unfolding get_frame_source store
  store-same i fs e =
      ap (held Source) (get_elem?-set_self (grown Source i e.sources) i fs (grown-long i e.sources))

  store-others :
      (i q : ℕ) (fs : Option Source) (e : Engine Source)
      → q ≢ i
      → get_frame_source Source q (store Source i fs e) ≡ get_frame_source Source q e
  unfolding get_frame_source store
  store-others i q fs e n =
      ap (held Source) (get_elem?-set_ne (grown Source i e.sources) i q fs (λ z. n (sym z)))
      ∙ held-append e.sources (suc i - length e.sources) q

  past_end : (ss : List (Option Source)) → held Source (get_elem? ss (length ss)) ≡ none
  past_end [] = refl
  past_end (s ∷ ss) = past_end ss

  find_empty-empty :
      (ss : List (Option Source)) (i : ℕ)
      → find_empty Source ss ≡ some i
      → held Source (get_elem? ss i) ≡ none
  unfolding find_empty
  find_empty-empty [] i e = cc
  find_empty-empty (none ∷ ss) zero e = refl
  find_empty-empty (none ∷ ss) (suc i) e = ground (arith, e)
  find_empty-empty (some s ∷ ss) zero e = ground (arith, e)
  find_empty-empty (some s ∷ ss) (suc i) e = ground (arith, find_empty-empty ss i)

  free_slot-empty :
      (ss : List (Option Source))
      → held Source (get_elem? ss (free_slot Source (find_empty Source ss) ss)) ≡ none
  free_slot-empty ss = elim (Option-cases (find_empty Source ss)) [
    | inl e ↦ rw e (past_end ss)
    | inr (i, e) ↦ rw e (find_empty-empty ss i e)
  ]

  -- A source that is added at an index is there, and every other slot holds what it held, also when
  -- the table has to grow for it.
  pub add-get_frame_source :
      (fs : Option Source) (i q : ℕ) (e : Engine Source)
      → q ≢ i
      → (get_frame_source Source i (add_frame_source Source fs (pos i) e) ≡ fs)
        × (get_frame_source Source q (add_frame_source Source fs (pos i) e)
            ≡ get_frame_source Source q e)
  unfolding add_frame_source slot_for
  add-get_frame_source fs i q e n = (store-same i fs e, store-others i q fs e n)

  -- A source that is added at a negative index goes into a slot that was empty, so that none is
  -- lost.
  pub add_anywhere_loses_nothing :
      (fs : Option Source) (k q : ℕ) (e : Engine Source)
      → (i : ℕ) × (get_frame_source Source i e ≡ none)
        × (get_frame_source Source i (add_frame_source Source fs (negsuc k) e) ≡ fs)
        × ((q ≡ i)
            ⊎ (get_frame_source Source q (add_frame_source Source fs (negsuc k) e)
                ≡ get_frame_source Source q e))
  unfolding add_frame_source slot_for get_frame_source
  add_anywhere_loses_nothing fs k q e =
      let i = free_slot Source (find_empty Source e.sources) e.sources in
      (
        i,
        free_slot-empty e.sources,
        store-same i fs e,
        elim (ℕ_discrete q i) [ yes s ↦ inl s | no n ↦ inr (store-others i q fs e n) ],
      )

  -- `copy` puts a clone of the source of a slot into another slot and leaves every slot but that
  -- one alone, also the slot it copies.
  pub copy-get_frame_source :
      (clone : Source → Option Source) (dest source q : ℕ) (s : Source) (e : Engine Source)
      → get_frame_source Source source e ≡ some s
      → q ≢ dest
      → let r = copy Source clone dest source e in
        (r.0 ≡ true)
        × (get_frame_source Source dest r.1 ≡ clone s)
        × (get_frame_source Source q r.1 ≡ get_frame_source Source q e)
  unfolding copy
  copy-get_frame_source clone dest source q s e h n =
      let (there, others) = add-get_frame_source (clone s) dest q e n in
      rw (h, copy) (refl, there, others)
