-- ===== src/Engine/Shows/Slots.antt =====
-- The table of src/engine.cpp into which the sources of another one are put.
use lucifer.Prelude.{
  ℕ, zero, suc, ◌+◌, ◌≤◌, ◌<◌, ◌≡◌, refl, sym, ap, ◌∙◌, ◌≢◌, ◌⊎◌, inl, inr, Option, none, some,
  arith, dec_lt, ℕ_discrete, length, get_elem?-none,
}
use lucifer.Prelude.Int.{pos}
use lucifer.Engine.{add_frame_source, held, get_frame_source, Engine}
use lucifer.Engine.Sources.{add-get_frame_source}

module _ (Source : Type 0) where
  -- A source that is loaded into a slot, or what is there already.
  abbrev pub loaded_over : Option Source → Option Source → Option Source
  loaded_over none old = old
  loaded_over (some p) old = some p

  -- The engine with the sources of another one, from the index i on, in their slots.
  abbrev pub put_slot : Option Source → ℕ → Engine Source → Engine Source
  put_slot none i e' = e'
  put_slot (some p) i e' = add_frame_source Source (some p) (pos i) e'

  unfoldable pub put_sources : ℕ → ℕ → Engine Source → Engine Source → Engine Source
  put_sources zero i e e' = e'
  put_sources (suc n) i e e' = put_sources n (suc i) e (put_slot (get_frame_source Source i e) i e')

  put_slot-there :
      (o : Option Source) (i q : ℕ) (e' : Engine Source)
      → q ≢ i
      → (get_frame_source Source i (put_slot o i e') ≡ loaded_over o (get_frame_source Source i e'))
        × (get_frame_source Source q (put_slot o i e') ≡ get_frame_source Source q e')
  put_slot-there none i q e' n = (refl, refl)
  put_slot-there (some p) i q e' n = add-get_frame_source Source (some p) i q e' n

  put_sources-outside :
      (n i q : ℕ) (e e' : Engine Source)
      → (q < i) ⊎ (i + n ≤ q)
      → get_frame_source Source q (put_sources n i e e') ≡ get_frame_source Source q e'
  unfolding put_sources
  put_sources-outside zero i q e e' h = refl
  put_sources-outside (suc n) i q e e' h =
      put_sources-outside n (suc i) q e (put_slot (get_frame_source Source i e) i e')
        (elim h [ inl l ↦ inl (omega arith) | inr l ↦ inr (omega arith) ])
      ∙ (put_slot-there (get_frame_source Source i e) i q e'
          (λ s. elim h [ inl l ↦ omega (arith, s) | inr l ↦ omega (arith, s) ])).1

  put_sources-inside :
      (n i q : ℕ) (e e' : Engine Source)
      → i ≤ q
      → q < i + n
      → get_frame_source Source q (put_sources n i e e')
        ≡ loaded_over (get_frame_source Source q e) (get_frame_source Source q e')
  unfolding put_sources
  put_sources-inside zero i q e e' l u = absurd (omega (arith, u))
  put_sources-inside (suc n) i q e e' l u =
      let slot = get_frame_source Source i e in
      elim (ℕ_discrete q i) [
        | yes s ↦
            put_sources-outside n (suc i) q e (put_slot slot i e') (inl (omega (arith, s)))
            ∙ ap (λ j. get_frame_source Source j (put_slot slot i e')) s
            ∙ (put_slot-there slot i (suc i) e' (λ z. omega (arith, z))).0
            ∙ ap (λ j. loaded_over (get_frame_source Source j e) (get_frame_source Source j e'))
                (sym s)
        | no d ↦
            put_sources-inside n (suc i) q e (put_slot slot i e') (omega (arith, ne_lt q i d l))
              (omega arith)
            ∙ ap (loaded_over (get_frame_source Source q e)) (put_slot-there slot i q e' d).1
      ]
    where
      ne_lt : (a b : ℕ) → a ≢ b → b ≤ a → b < a
      ne_lt a b d h = omega (arith, d)

  -- The whole table.
  pub put_sources_all :
      (q : ℕ) (e e' : Engine Source)
      → get_frame_source Source q (put_sources (length e.sources) 0 e e')
        ≡ loaded_over (get_frame_source Source q e) (get_frame_source Source q e')
  unfolding get_frame_source
  put_sources_all q e e' = elim (dec_lt q (length e.sources)) [
    | yes l ↦ put_sources-inside (length e.sources) 0 q e e' (omega arith) (omega arith)
    | no g ↦
        put_sources-outside (length e.sources) 0 q e e' (inr (omega (arith, g)))
        ∙ ap (λ o. loaded_over (held Source o) (get_frame_source Source q e'))
            (sym (get_elem?-none e.sources q (omega (arith, g))))
  ]
