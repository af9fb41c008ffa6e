-- ===== src/Engine/Shows/Words.antt =====
-- The steps of `ShowLoader::run` of src/engine.cpp over the tokens of a show.
use lucifer.Prelude.{
  ℕ, zero, suc, ◌^◌, ◌≤◌, ◌<◌, ◌≡◌, refl, ◌≢◌, inl, inr, Bool, true, false, not, ◌&&◌, Option, none,
  some, List, [], ◌∷◌, ◌++◌, arith, Bool-cases, length, All,
}
use lucifer.Prelude.Int.{pos}
use lucifer.Prelude.Strings.{str_eq_ne}
use Prim.Native.String.{String}
use text.Mathlib.Text.{◌==◌ as str_eq}
use lucifer.Engine.{add_frame_source, Engine}
use lucifer.Engine.Shows.{
  is_end, seek_sequence, load_source, load_sequence, load_sequences, Document,
}
use lucifer.SourceTree.{Classes, Source}
use lucifer.SourceTree.Xml.{
  Attributes, name_of, is_start, load_frames, Format, Token, start_element, end_element, characters,
  other,
}
use lucifer.SourceTree.Xml.Tokens.{IsBlank, IsInner, shorter, Layout, Reads}

-- The reader is well before the last token, indentation has no tags, positions are read back, and
-- no class has the name of an element of the show.
pub record DocumentReads (K : Classes) (F : Format K) (D : Document K F) (L : Reads K F)
    : Type 0 where
  pub well :
      (s : F.State) (t : Token) (ts : List Token)
      → L.rest s ≡ t ∷ ts
      → 0 < length ts
      → (D.is_end_document s ≡ false) × ((D.is_invalid s ≡ false) × (D.has_error s ≡ false))
  pub width : ℕ
  pub blank : (depth : ℕ) → All IsBlank (D.indent depth)
  pub short : (depth : ℕ) → length (D.indent depth) ≤ width
  pub position_back : (i : ℕ) → i < 2 ^ 32 → D.to_ulong (F.number i) ≡ i
  pub no_lucifer : K.new_source "Lucifer" ≡ none
  pub no_sequence : K.new_source "Sequence" ≡ none

-- A token that `seek_sequence` goes over.
abbrev pub IsSkipped : Token → Type 0
IsSkipped t = (is_start t ≡ false) × (str_eq (name_of t) "Sequence" ≡ false)

module _ (K : Classes) (F : Format K) (D : Document K F) (L : Reads K F)
    (R : DocumentReads K F D L) where
  abbrev pub layout : Layout
  layout = record { indent = D.indent; width = R.width; blank = R.blank; short = R.short }

  known_ne :
      (name word : String) (own : K.Own)
      → K.new_source name ≡ some own
      → K.new_source word ≡ none
      → name ≢ word
  known_ne name word own e n same = cc

  pub Inner-Skipped : (ts : List Token) → All (IsInner K) ts → All IsSkipped ts
  Inner-Skipped [] a = _
  Inner-Skipped (start_element name attributes ∷ ts) a = absurd a.0
  Inner-Skipped (end_element name ∷ ts) (inl e, a) = ((refl, rw e refl), Inner-Skipped ts a)
  Inner-Skipped (end_element name ∷ ts) (inr (own, e), a) = (
    (refl, str_eq_ne name "Sequence" (known_ne name "Sequence" own e R.no_sequence)),
    Inner-Skipped ts a,
  )
  Inner-Skipped (characters text ∷ ts) a = ((refl, refl), Inner-Skipped ts a.1)
  Inner-Skipped (other ∷ ts) a = ((refl, refl), Inner-Skipped ts a.1)

  abbrev pub is_last : Token → Bool
  is_last t = is_end t && str_eq (name_of t) "Lucifer"

  pub Inner-not_last : (t : Token) → IsInner K t → is_last t ≡ false
  Inner-not_last (start_element name attributes) a = absurd a
  Inner-not_last (end_element name) (inl e) = rw e refl
  Inner-not_last (end_element name) (inr (own, e)) =
      str_eq_ne name "Lucifer" (known_ne name "Lucifer" own e R.no_lucifer)
  Inner-not_last (characters text) a = refl
  Inner-not_last (other) a = refl

  pub seek_sequence-passes :
      (pre : List Token) (last : Token) (ts : List Token) (fuel : ℕ) (s : F.State)
      → All IsSkipped pre
      → not (is_start last) && not (str_eq (name_of last) "Sequence") ≡ false
      → L.rest s ≡ pre ++ last ∷ ts
      → length pre < fuel
      → (s' : F.State) × ((seek_sequence K F D fuel s ≡ some s') × (L.rest s' ≡ last ∷ ts))
  unfolding seek_sequence
  seek_sequence-passes pre last ts zero s a stop r h = ground arith
  seek_sequence-passes [] last ts (suc fuel) s a stop r h = (
    s,
    (
      elim (Bool-cases (F.at_end s)) [
        | inl e ↦ rw (seek_sequence, e) refl
        | inr e ↦ rw (seek_sequence, e, L.seen s last ts r, stop) refl
      ],
      r,
    ),
  )
  seek_sequence-passes (t ∷ pre) last ts (suc fuel) s a stop r h =
      let left = shorter pre last ts in
      let here = pre ++ last ∷ ts in
      let (s', (found, r')) =
        seek_sequence-passes pre last ts fuel (F.read_next s) a.1 stop (L.moved s t here r left)
          (omega arith) in
      (s', (rw (seek_sequence, L.more s t here r left, L.seen s t here r, a.0.0, a.0.1) found, r'))

  -- A start element is not gone over.
  pub seek_sequence-stays :
      (t : Token) (ts : List Token) (fuel : ℕ) (s : F.State)
      → is_start t ≡ true
      → L.rest s ≡ t ∷ ts
      → 0 < length ts
      → seek_sequence K F D (suc fuel) s ≡ some s
  unfolding seek_sequence
  seek_sequence-stays t ts fuel s e r more =
      rw (seek_sequence, L.more s t ts r more, L.seen s t ts r, e) refl

  -- One round of the loop that reads no source.
  pub skip_step :
      (fuel : ℕ) (s s' : F.State) (t : Token) (ts : List Token) (e : Engine (Source K))
      (o : Option (Engine (Source K)))
      → L.rest s ≡ t ∷ ts
      → 0 < length ts
      → is_last t ≡ false
      → seek_sequence K F D fuel s ≡ some s'
      → is_start (F.token s') && str_eq (name_of (F.token s')) "Sequence" ≡ false
      → load_sequences K F D fuel (F.read_next_start_element s') e ≡ o
      → load_sequences K F D (suc fuel) s e ≡ o
  unfolding load_sequences load_sequence
  skip_step fuel s s' t ts e o r more not_last found no_sequence next =
      let (in_document, rest) = R.well s t ts r more in
      rw (L.more s t ts r more, in_document, L.seen s t ts r, not_last, found, no_sequence) next

  -- The round that reads a source.
  pub source_step :
      (fuel i : ℕ) (s s' : F.State) (ts us : List Token) (name : String) (attributes : Attributes)
      (fs : Option (Source K)) (e : Engine (Source K)) (o : Option (Engine (Source K)))
      → i < 2 ^ 32
      → L.rest s ≡ start_element "Sequence" (("Position", F.number i) ∷ []) ∷ ts
      → 0 < length ts
      → L.rest (F.read_next_start_element s) ≡ start_element name attributes ∷ us
      → 0 < length us
      → load_frames K F (suc fuel) (F.read_next_start_element s) ≡ some (fs, s')
      → load_sequences K F D (suc fuel) s' (add_frame_source (Source K) fs (pos i) e) ≡ o
      → load_sequences K F D (suc (suc fuel)) s e ≡ o
  unfolding load_sequences load_sequence load_source
  source_step fuel i s s' ts us name attributes fs e o small r more r' more' loaded next =
      let here = start_element "Sequence" (("Position", F.number i) ∷ []) in
      let (in_document, rest) = R.well s here ts r more in
      let inner = start_element name attributes in
      let (in_document', (valid, rest')) = R.well (F.read_next_start_element s) inner us r' more' in
      let stays = seek_sequence-stays here ts fuel s refl r more in
      rw
        (
          L.more s here ts r more,
          in_document,
          stays,
          L.seen s here ts r,
          R.position_back i small,
          valid,
          L.seen (F.read_next_start_element s) inner us r',
          loaded,
        )
        next

  -- The round that ends the loop.
  pub last_step :
      (fuel : ℕ) (s : F.State) (ts : List Token) (e : Engine (Source K))
      → L.rest s ≡ end_element "Lucifer" ∷ ts
      → 0 < length ts
      → load_sequences K F D (suc fuel) s e ≡ some e
  unfolding load_sequences
  last_step fuel s ts e r more =
      let (in_document, rest) = R.well s (end_element "Lucifer") ts r more in
      rw
        (
          L.more s (end_element "Lucifer") ts r more,
          in_document,
          L.seen s (end_element "Lucifer") ts r,
        )
        refl
