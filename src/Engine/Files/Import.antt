-- ===== src/Engine/Files/Import.antt =====
-- `ShowImporter::run` of src/engine.cpp over the table of sources.
use lucifer.Prelude.{
  ℕ, suc, ◌≡◌, sym, ap, ◌∙◌, ◌≢◌, ◌⊎◌, inl, inr, Option, none, some, List, [], ◌∷◌, arith,
  ℕ_discrete, Option-cases, All,
}
use lucifer.Prelude.Int.{ℤ, pos, negsuc, minus_one}
use lucifer.Engine.{add_frame_source, get_frame_source, Engine}
use lucifer.Engine.Sources.{add-get_frame_source, add_anywhere_loses_nothing}
use lucifer.Engine.Files.{import_files}

module _ (Source : Type 0) where
  -- The index at which an import begins is not q.
  abbrev pub Spares : ℤ → ℕ → Type 0
  Spares (pos i) q = q ≢ i
  Spares (negsuc i) q = Unit

  add_keeps :
      (fs : Option Source) (idx : ℤ) (q : ℕ) (p : Source) (e : Engine Source)
      → Spares idx q
      → get_frame_source Source q e ≡ some p
      → get_frame_source Source q (add_frame_source Source fs idx e) ≡ some p
  add_keeps fs (pos i) q p e n h = (add-get_frame_source Source fs i q e n).1 ∙ h
  add_keeps fs (negsuc k) q p e n h =
      let (i, empty_before, there, others) = add_anywhere_loses_nothing Source fs k q e in
      elim others [ inl same ↦ cc | inr kept ↦ kept ∙ h ]

  add_there :
      (fs : Option Source) (idx : ℤ) (e : Engine Source)
      → (i : ℕ) × (get_frame_source Source i (add_frame_source Source fs idx e) ≡ fs)
  add_there fs (pos i) e =
      (i, (add-get_frame_source Source fs i (suc i) e (λ z. omega (arith, z))).0)
  add_there fs (negsuc k) e =
      let (i, empty_before, there, others) = add_anywhere_loses_nothing Source fs k 0 e in
      (i, there)

  import_keeps :
      (files : List (Option Source)) (idx : ℤ) (q : ℕ) (p : Source) (e : Engine Source)
      → Spares idx q
      → get_frame_source Source q e ≡ some p
      → get_frame_source Source q (import_files Source files idx e) ≡ some p
  unfolding import_files
  import_keeps [] idx q p e n h = h
  import_keeps (none ∷ rest) idx q p e n h = import_keeps rest idx q p e n h
  import_keeps (some fs ∷ rest) idx q p e n h =
      import_keeps rest minus_one q p (add_frame_source Source (some fs) idx e) _
        (add_keeps (some fs) idx q p e n h)

  -- What a file gave, if anything, has a slot.
  abbrev pub HasSlot : Engine Source → Option Source → Type 0
  HasSlot e none = Unit
  HasSlot e (some fs) = (i : ℕ) × (get_frame_source Source i e ≡ some fs)

  imported_there :
      (files : List (Option Source)) (idx : ℤ) (e : Engine Source)
      → All (HasSlot (import_files Source files idx e)) files
  unfolding import_files
  imported_there [] idx e = _
  imported_there (none ∷ rest) idx e = (_, imported_there rest idx e)
  imported_there (some fs ∷ rest) idx e =
      let (i, there) = add_there (some fs) idx e in
      (
        (i, import_keeps rest minus_one i fs (add_frame_source Source (some fs) idx e) _ there),
        imported_there rest minus_one (add_frame_source Source (some fs) idx e),
      )

  begins_or_Spares : (idx : ℤ) (q : ℕ) → (idx ≡ pos q) ⊎ Spares idx q
  begins_or_Spares (pos i) q = elim (ℕ_discrete i q) [
    | yes e ↦ inl (ap pos e)
    | no n ↦ inr (λ e. n (sym e))
  ]
  begins_or_Spares (negsuc k) q = inr _

  -- The slot q held no source, or it is the one at which the import begins, or it is as it was.
  abbrev pub Kept : ℤ → ℕ → Engine Source → Engine Source → Type 0
  Kept idx q e e' =
      (get_frame_source Source q e ≡ none)
      ⊎ ((idx ≡ pos q) ⊎ (get_frame_source Source q e' ≡ get_frame_source Source q e))

  -- An import of any number of files, of which some may give nothing, keeps every source of the
  -- table but the one at the index at which it begins, if that is not negative; and afterwards every
  -- source that a file gave is in the table.
  pub import_loses_nothing :
      (files : List (Option Source)) (idx : ℤ) (q : ℕ) (e : Engine Source)
      → Kept idx q e (import_files Source files idx e)
        × All (HasSlot (import_files Source files idx e)) files
  import_loses_nothing files idx q e = (kept, imported_there files idx e)
    where
      kept : Kept idx q e (import_files Source files idx e)
      kept = elim (Option-cases (get_frame_source Source q e)) [
        | inl empty ↦ inl empty
        | inr (p, there) ↦ elim (begins_or_Spares idx q) [
          | inl first ↦ inr (inl first)
          | inr other ↦ inr (inr (import_keeps files idx q p e other there ∙ sym there))
        ]
      ]
