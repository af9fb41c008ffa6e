-- ===== src/Engine/Shows.antt =====
-- `ShowSaver::run` and `ShowLoader::run` of src/engine.cpp, over the trees of sources and the tokens
-- of Qt's XML classes. `none` is a failed assertion, or fuel that ran out.
pub mod Words
pub mod Slots
pub mod Loaded
pub mod Whole
mod Tests
use lucifer.Prelude.{
  ℕ, zero, suc, Bool, true, false, not, ◌&&◌, ◌||◌, Option, none, some, List, [], ◌∷◌, ◌++◌,
  if◌then◌else◌, length,
}
use lucifer.Prelude.Int.{pos}
use Prim.Native.String.{String}
use lucifer.Prelude.Maybe.{◌>>=◌}
use text.Mathlib.Text.{◌==◌ as str_eq}
use lucifer.Engine.{add_frame_source, get_frame_source, Engine}
use lucifer.SourceTree.{Classes, Source}
use lucifer.SourceTree.Xml.{
  value, name_of, attributes_of, is_start, save_frames, load_frames, Format, Token, start_element,
  end_element,
}

-- The rest of `QXmlStreamReader`, and a position as a text.
pub record Document (K : Classes) (F : Format K) : Type 0 where
  pub is_end_document : F.State → Bool
  pub is_invalid : F.State → Bool
  pub has_error : F.State → Bool
  pub to_ulong : String → ℕ
  pub date : String
  -- `setAutoFormatting (true)`.
  pub indent : ℕ → List Token

abbrev pub is_end : Token → Bool
is_end (end_element name) = true
is_end _ = false

module _ (K : Classes) (F : Format K) (D : Document K F) where
  open F use {State}
  open D use {indent}

  -- What the saver writes for the source at an index, if there is one, in front of other tokens.
  abbrev pub save_sequence : Option (Source K) → ℕ → List Token → List Token
  save_sequence none i rest = rest
  save_sequence (some p) i rest =
      indent 1
      ++ start_element "Sequence" (("Position", F.number i) ∷ [])
        ∷ (indent 2 ++ save_frames K F indent 2 p (indent 1 ++ end_element "Sequence" ∷ rest))

  -- The saver's loop from the index i on, with n indices to go.
  pub save_sequences : ℕ → ℕ → Engine (Source K) → List Token → List Token
  save_sequences zero i e rest = rest
  save_sequences (suc n) i e rest =
      save_sequence (get_frame_source (Source K) i e) i (save_sequences n (suc i) e rest)

  -- The indentation before the last tag, which has none before it if no source was written.
  abbrev pub before_last : List (Option (Source K)) → List Token
  before_last [] = []
  before_last (none ∷ ss) = before_last ss
  before_last (some p ∷ ss) = indent 0

  pub save_show : Engine (Source K) → List Token → List Token
  unfolding save_sequences
  save_show e rest =
      start_element "Lucifer" (("Version", "1.1.0") ∷ ("Date", D.date) ∷ [])
      ∷ save_sequences (length e.sources) 0 e
          (before_last e.sources ++ end_element "Lucifer" ∷ rest)

  -- The loader's loop that looks for the head of the document.
  pub seek_head : ℕ → State → Option State
  seek_head zero s = none
  seek_head (suc fuel) s = elim (not (F.at_end s) && not (str_eq (name_of (F.token s)) "Lucifer")) [
    | true ↦ seek_head fuel (F.read_next s)
    | false ↦ some s
  ]

  -- The loop that looks for a sequence.
  pub seek_sequence : ℕ → State → Option State
  seek_sequence zero s = none
  seek_sequence (suc fuel) s =
      elim (not (F.at_end s)
        && (not (is_start (F.token s)) && not (str_eq (name_of (F.token s)) "Sequence"))) [
          | true ↦ seek_sequence fuel (F.read_next s)
          | false ↦ some s
        ]

  abbrev pub Loop : Type 0
  Loop = State → Engine (Source K) → Option (Engine (Source K))

  -- What is read for a sequence whose index is known; `again` is the loop.
  pub load_source : ℕ → Loop → ℕ → State → Engine (Source K) → Option (Engine (Source K))
  load_source fuel again index s e =
      if D.is_invalid s
      then some e
      else if is_start (F.token s)
      then (load_frames K F fuel s >>= λ (fs, s').
          again s' (add_frame_source (Source K) fs (pos index) e))
      else none

  pub load_sequence : ℕ → Loop → State → Engine (Source K) → Option (Engine (Source K))
  unfolding load_source
  load_sequence fuel again s e =
      if is_start (F.token s) && str_eq (name_of (F.token s)) "Sequence"
      then load_source fuel again (D.to_ulong (value "Position" (attributes_of (F.token s))))
          (F.read_next_start_element s) e
      else again (F.read_next_start_element s) e

  -- The loop that reads the sequences.
  pub load_sequences : ℕ → State → Engine (Source K) → Option (Engine (Source K))
  unfolding seek_sequence load_sequence
  load_sequences zero s e = none
  load_sequences (suc fuel) s e =
      if F.at_end s || D.is_end_document s
      then some e
      else if is_end (F.token s) && str_eq (name_of (F.token s)) "Lucifer"
      then some e
      else seek_sequence fuel s >>= λ s'. load_sequence fuel (load_sequences fuel) s' e

  pub load_show : ℕ → State → Engine (Source K) → Option (Engine (Source K))
  unfolding seek_head load_sequences
  load_show fuel s e = seek_head fuel s >>= λ s'.
      if not (D.has_error s') && str_eq (value "Version" (attributes_of (F.token s'))) "1.1.0"
      then load_sequences fuel s' e
      else some e
