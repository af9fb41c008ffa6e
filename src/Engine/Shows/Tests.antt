-- ===== src/Engine/Shows/Tests.antt =====
-- A small show of src/engine.cpp, with a line break before every indented tag.
use lucifer.Prelude.{
  ℕ, zero, suc, ◌<◌, ◌≡◌, refl, ap, subst, false, Option, none, some, List, [], ◌∷◌, arith, leb,
  length,
}
use lucifer.Engine.{get_frame_source, Engine}
use lucifer.Engine.Shows.{save_sequences, save_show, load_show, Document}
use lucifer.Engine.Shows.Words.{DocumentReads}
use lucifer.Engine.Shows.Slots.{loaded_over}
use lucifer.Engine.Shows.Loaded.{show_tokens, Kept}
use lucifer.Engine.Shows.Whole.{load_show-save_show}
use lucifer.SourceTree.{num_children, Source, node, nil, cons}
use lucifer.SourceTree.Limits.{Limited}
use lucifer.SourceTree.Xml.{save_frames, Token, characters}
use lucifer.SourceTree.Xml.Saved.{Loadable, num_tokens}
use lucifer.SourceTree.Xml.Plain.{described, from_unary, unary_back, plain, plain-Reads}

abbrev lines : Document described plain
lines = record {
  is_end_document = λ s. leb (length s) 1;
  is_invalid = λ s. false;
  has_error = λ s. false;
  to_ulong = from_unary;
  date = "Mon Mar 1 2010";
  indent = λ depth. characters "\n" ∷ [];
}

not_last :
    (s : List Token) (t : Token) (ts : List Token)
    → s ≡ t ∷ ts
    → 0 < length ts
    → leb (length s) 1 ≡ false
not_last s t ts e h = ground arith

lines-DocumentReads : DocumentReads described plain lines plain-Reads
unfolding plain-Reads
lines-DocumentReads = record {
  well = λ s t ts e h. (not_last s t ts e h, (refl, refl));
  width = 1;
  blank = λ depth. (_, _);
  short = λ depth. omega arith;
  position_back = λ i h. unary_back i;
  no_lucifer = refl;
  no_sequence = refl;
}

abbrev frame : ℕ → Source described
frame n = node "StaticFrame" ("A single frame", n) nil

abbrev steps : Source described
steps = node "FrameSequencer" ("A step sequencer", 5) (cons (frame 1) (cons (frame 2) nil))

abbrev saved : Engine (Source described)
saved = record { sources = some (frame 4) ∷ none ∷ some steps ∷ []; notices = [] }

-- What is there before the show is loaded.
abbrev old : Engine (Source described)
old = record { sources = some (frame 7) ∷ some (frame 8) ∷ []; notices = [] }

abbrev or_frame : Option (Source described) → Source described
or_frame none = frame 0
or_frame (some p) = p

frame-Kept : (n : ℕ) → Kept described plain lines plain-Reads lines-DocumentReads (frame n)
unfolding Loadable plain-Reads num_children Limited
frame-Kept n = (((("new", 0), refl), (_, (omega arith, _))), (refl, _))

steps-Kept : Kept described plain lines plain-Reads lines-DocumentReads steps
unfolding Loadable plain-Reads num_children Limited
steps-Kept = (
  ((("new", 0), refl), (_, (omega arith, ((frame-Kept 1).0, ((frame-Kept 2).0, _))))),
  (refl, ((refl, _), ((refl, _), _))),
)

saved-Kept :
    (j : ℕ) (p : Source described)
    → get_frame_source (Source described) j saved ≡ some p
    → Kept described plain lines plain-Reads lines-DocumentReads p
unfolding get_frame_source
saved-Kept zero p e =
    subst (Kept described plain lines plain-Reads lines-DocumentReads) (ap or_frame e)
      (frame-Kept 4)
saved-Kept (suc zero) p e = cc
saved-Kept (suc (suc zero)) p e =
    subst (Kept described plain lines plain-Reads lines-DocumentReads) (ap or_frame e) steps-Kept
saved-Kept (suc (suc (suc j))) p e = cc

load_show-save_show_example :
    (loaded : Engine (Source described)) × ((load_show described plain lines 200
          (plain.reader (plain.text (save_show described plain lines saved [])))
          old
        ≡ some loaded)
      × ((q : ℕ)
          → get_frame_source (Source described) q loaded
            ≡ loaded_over
                (Source described)
                (get_frame_source (Source described) q saved)
                (get_frame_source (Source described) q old)))
unfolding show_tokens get_frame_source plain-Reads save_show save_sequences save_frames num_tokens
    num_children lines-DocumentReads
load_show-save_show_example =
    load_show-save_show described plain lines plain-Reads lines-DocumentReads saved old 200
      saved-Kept (omega arith) (omega arith) refl
