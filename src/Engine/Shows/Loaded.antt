-- ===== src/Engine/Shows/Loaded.antt =====
-- A show that is loaded after it was saved, of src/engine.cpp.
use lucifer.Prelude.{
  ℕ, zero, suc, ◌+◌, ◌^◌, ◌≤◌, ◌<◌, ◌≡◌, refl, sym, ap, ◌∙◌, inl, inr, Option, none, some, List, [],
  ◌∷◌, ◌++◌, append_assoc, arith, Option-cases, length, All, length-append,
}
use lucifer.Prelude.Int.{pos}
use lucifer.Engine.{add_frame_source, get_frame_source, Engine}
use lucifer.Engine.Shows.{save_sequence, save_sequences, load_sequences, Document}
use lucifer.Engine.Shows.Words.{
  layout, Inner-Skipped, Inner-not_last, seek_sequence-passes, skip_step, source_step, last_step,
  DocumentReads,
}
use lucifer.Engine.Shows.Slots.{put_slot, put_sources}
use lucifer.SourceTree.{Classes, Source}
use lucifer.SourceTree.Limits.{Limited}
use lucifer.SourceTree.Xml.{save_frames, Format, Token, start_element, end_element}
use lucifer.SourceTree.Xml.Tokens.{
  IsBlank, to_tag, Blank-Inner, All-append, to_tag-blank, to_tag-here, Reads,
}
use lucifer.SourceTree.Xml.Steps.{Left, saved_start, saved_start-long, to_tag-saved}
use lucifer.SourceTree.Xml.Saved.{Loadable, num_tokens, Loads, load_frames-saved}

module _ (K : Classes) (F : Format K) (D : Document K F) (L : Reads K F)
    (R : DocumentReads K F D L) where
  open D use {indent}

  -- As many tokens as the saver writes for a slot at most, and for n slots from the index i on.
  abbrev pub slot_tokens : Option (Source K) → ℕ
  slot_tokens none = 0
  slot_tokens (some p) = 5 + R.width + num_tokens K F L (layout K F D L R) 2 p

  unfoldable pub show_tokens : ℕ → ℕ → Engine (Source K) → ℕ
  show_tokens zero i e = 0
  show_tokens (suc n) i e = slot_tokens (get_frame_source (Source K) i e) + show_tokens n (suc i) e

  -- A source that can be saved and loaded.
  abbrev pub Kept : Source K → Type 0
  Kept p = Loadable K F L p × Limited K p

  pub sequences-tag :
      (n i : ℕ) (e : Engine (Source K)) (blank : List Token) (ts : List Token)
      → All IsBlank blank
      → 0 < length (to_tag (save_sequences K F D n i e (blank ++ end_element "Lucifer" ∷ ts)))
  unfolding save_sequences
  sequences-tag zero i e blank ts a =
      let last = end_element "Lucifer" ∷ ts in
      rw (to_tag-blank blank last a, to_tag-here (end_element "Lucifer") ts refl) (omega arith)
  sequences-tag (suc n) i e blank ts a =
      let more = save_sequences K F D n (suc i) e (blank ++ end_element "Lucifer" ∷ ts) in
      elim (Option-cases (get_frame_source (Source K) i e)) [
        | inl none_there ↦ rw none_there (sequences-tag n (suc i) e blank ts a)
        | inr (p, there) ↦
            let behind =
              indent 2 ++ save_frames K F indent 2 p (indent 1 ++ end_element "Sequence" ∷ more) in
            let here = start_element "Sequence" (("Position", F.number i) ∷ []) in
            rw
              (
                there,
                to_tag-blank (indent 1) (here ∷ behind) (R.blank 1),
                to_tag-here here behind refl,
              )
              (omega arith)
      ]

  -- The rounds for a slot, up to the tokens `more` after it.
  slot-saved :
      (o : Option (Source K)) (i m fuel : ℕ) (s : F.State) (more : List Token)
      (e' : Engine (Source K)) (out : Option (Engine (Source K)))
      → ((p : Source K) → o ≡ some p → Kept p)
      → i < 2 ^ 32
      → slot_tokens o + m < fuel
      → 0 < length (to_tag more)
      → L.rest s ≡ to_tag (save_sequence K F D o i more)
      → ((f : ℕ) (s' : F.State)
          → m < f
          → L.rest s' ≡ to_tag more
          → load_sequences K F D f s' (put_slot (Source K) o i e') ≡ out)
      → load_sequences K F D fuel s e' ≡ out
  unfolding Left Loads
  slot-saved none i m fuel s more e' out kept small h some_more r next = next fuel s (omega arith) r
  slot-saved (some p) i m zero s more e' out kept small h some_more r next = ground arith
  slot-saved (some p) i m (suc zero) s more e' out kept small h some_more r next = ground arith
  slot-saved (some p) i m (suc (suc f)) s more e' out kept small h some_more r next =
      let Y = layout K F D L R in
      let behind = indent 1 ++ end_element "Sequence" ∷ more in
      let here = start_element "Sequence" (("Position", F.number i) ∷ []) in
      let within = indent 2 ++ save_frames K F indent 2 p behind in
      let r1 =
        r ∙ to_tag-blank (indent 1) (here ∷ within) (R.blank 1) ∙ to_tag-here here within refl in
      let (same, some_tag) = to_tag-saved K F L Y (indent 2) 2 p behind (R.blank 2) in
      let r2 = L.moved_to_tag s here within r1 (rw same some_tag) ∙ same in
      let (name, (attributes, (us, start))) = saved_start K F L Y 2 p behind in
      let (u, (loaded, (t, (pre, (inner_t, (inner, (ends, (few, r3)))))))) =
        load_frames-saved K F L Y p 2 (suc f) (F.read_next_start_element s) behind (kept p refl).0
          (kept p refl).1 (omega arith) r2 in
      let passed = pre ++ indent 1 in
      let inner' = All-append K pre (indent 1) inner (Blank-Inner K (indent 1) (R.blank 1)) in
      let (v, (found, r4)) =
        seek_sequence-passes K F D L R (t ∷ passed) (end_element "Sequence") more f u
          (Inner-Skipped K F D L R (t ∷ passed) (inner_t, inner')) refl
          (r3
            ∙ ap (λ vs. t ∷ vs) (sym (append_assoc pre (indent 1) (end_element "Sequence" ∷ more))))
          (omega (arith, length-append pre (indent 1), R.short 1)) in
      source_step K F D L R f i s u within us name attributes (some p) e' out small r1
        (omega (arith, length-append (indent 2) (save_frames K F indent 2 p behind), some_tag))
        (r2 ∙ start) (saved_start-long K F L Y 2 p behind us (start_element name attributes) start)
        loaded
        (skip_step K F D L R f u v t (pre ++ behind)
          (add_frame_source (Source K) (some p) (pos i) e') out r3
          (omega (
            arith,
            length-append pre behind,
            length-append (indent 1) (end_element "Sequence" ∷ more),
          ))
          (Inner-not_last K F D L R t inner_t) found
          (rw (L.seen v (end_element "Sequence") more r4) refl)
          (next f (F.read_next_start_element v) (omega arith)
            (L.moved_to_tag v (end_element "Sequence") more r4 some_more)))

  pub load_sequences-saved :
      (n i fuel : ℕ) (s : F.State) (blank ts : List Token) (e e' : Engine (Source K))
      → ((j : ℕ) (p : Source K) → get_frame_source (Source K) j e ≡ some p → Kept p)
      → i + n ≤ 2 ^ 32
      → show_tokens n i e < fuel
      → All IsBlank blank
      → 0 < length ts
      → L.rest s ≡ to_tag (save_sequences K F D n i e (blank ++ end_element "Lucifer" ∷ ts))
      → load_sequences K F D fuel s e' ≡ some (put_sources (Source K) n i e e')
  unfolding save_sequences show_tokens put_sources
  load_sequences-saved zero i zero s blank ts e e' kept small h a more r = ground arith
  load_sequences-saved zero i (suc fuel) s blank ts e e' kept small h a more r =
      let last = end_element "Lucifer" ∷ ts in
      last_step K F D L R fuel s ts e'
        (r ∙ to_tag-blank blank last a ∙ to_tag-here (end_element "Lucifer") ts refl) more
  load_sequences-saved (suc n) i fuel s blank ts e e' kept small h a more r =
      slot-saved (get_frame_source (Source K) i e) i (show_tokens n (suc i) e) fuel s
        (save_sequences K F D n (suc i) e (blank ++ end_element "Lucifer" ∷ ts)) e'
        (some (put_sources (Source K) (suc n) i e e')) (kept i) (omega arith) h
        (sequences-tag n (suc i) e blank ts a) r
        (λ f s' l r'.
          load_sequences-saved n (suc i) f s' blank ts e
            (put_slot (Source K) (get_frame_source (Source K) i e) i e') kept (omega arith) l a more
            r')
