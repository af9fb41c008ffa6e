-- ===== src/Engine/Shows/Whole.antt =====
-- `ShowLoader::run` on what `ShowSaver::run` of src/engine.cpp wrote.
use lucifer.Prelude.{
  ℕ, zero, suc, ◌+◌, ◌^◌, ◌≤◌, ◌<◌, ◌≡◌, refl, ◌∙◌, Option, none, some, List, [], ◌∷◌, ◌++◌, arith,
  length, All,
}
use Prim.Native.String.{String}
use lucifer.Engine.{get_frame_source, Engine}
use lucifer.Engine.Shows.{
  save_sequences, before_last, save_show, seek_head, load_sequences, load_show, Document,
}
use lucifer.Engine.Shows.Words.{seek_sequence-stays, skip_step, DocumentReads}
use lucifer.Engine.Shows.Slots.{loaded_over, put_sources, put_sources_all}
use lucifer.Engine.Shows.Loaded.{show_tokens, Kept, sequences-tag, load_sequences-saved}
use lucifer.SourceTree.{Classes, Source}
use lucifer.SourceTree.Xml.{Attributes, Format, Token, start_element, end_element, other}
use lucifer.SourceTree.Xml.Tokens.{IsBlank, length-to_tag, Reads}

module _ (K : Classes) (F : Format K) (D : Document K F) (L : Reads K F)
    (R : DocumentReads K F D L) where
  open D use {indent}

  before_last-blank : (ss : List (Option (Source K))) → All IsBlank (before_last K F D ss)
  before_last-blank [] = _
  before_last-blank (none ∷ ss) = before_last-blank ss
  before_last-blank (some p ∷ ss) = R.blank 0

  seek_head-found :
      (fuel : ℕ) (s : F.State) (attributes : Attributes) (ts : List Token)
      → L.rest s ≡ other ∷ other ∷ start_element "Lucifer" attributes ∷ ts
      → 0 < length ts
      → let found = F.read_next (F.read_next s) in
        (seek_head K F D (suc (suc (suc fuel))) s ≡ some found)
        × (L.rest found ≡ start_element "Lucifer" attributes ∷ ts)
  unfolding seek_head
  seek_head-found fuel s attributes ts r more =
      let head = start_element "Lucifer" attributes in
      let r1 = L.moved s other (other ∷ head ∷ ts) r (omega arith) in
      let r2 = L.moved (F.read_next s) other (head ∷ ts) r1 (omega arith) in
      (
        rw
            (
              seek_head,
              L.more s other (other ∷ head ∷ ts) r (omega arith),
              L.seen s other (other ∷ head ∷ ts) r,
              L.more (F.read_next s) other (head ∷ ts) r1 (omega arith),
              L.seen (F.read_next s) other (head ∷ ts) r1,
              L.more (F.read_next (F.read_next s)) head ts r2 more,
              L.seen (F.read_next (F.read_next s)) head ts r2,
            )
            refl,
        r2,
      )

  -- Once the head is found, the sequences are loaded, if the version is the saver's.
  head_step :
      (fuel : ℕ) (s s' : F.State) (date : String) (ts : List Token) (e : Engine (Source K))
      → seek_head K F D fuel s ≡ some s'
      → L.rest s' ≡ start_element "Lucifer" (("Version", "1.1.0") ∷ ("Date", date) ∷ []) ∷ ts
      → 0 < length ts
      → load_show K F D fuel s e ≡ load_sequences K F D fuel s' e
  unfolding load_show
  head_step fuel s s' date ts e found r more =
      let head = start_element "Lucifer" (("Version", "1.1.0") ∷ ("Date", date) ∷ []) in
      let (in_document, (valid, no_error)) = R.well s' head ts r more in
      rw (found, no_error, L.seen s' head ts r) refl

  -- A show that the saver writes is loaded again: after that, every slot holds the source that the
  -- saved engine had there, or what it held before if there was none. That is so if the sources are
  -- trees of registered classes that load back what they save, with no more children than their
  -- classes allow, no index is above 2^32, no class is called "Lucifer" or "Sequence", and the
  -- reader gives back the tokens written, two others in front and one behind; whatever blanks the
  -- automatic formatting of the writer puts between the tags. As many rounds as there are tokens
  -- are enough for every loop.
  pub load_show-save_show :
      (e e' : Engine (Source K)) (fuel : ℕ)
      → ((j : ℕ) (p : Source K) → get_frame_source (Source K) j e ≡ some p → Kept K F D L R p)
      → length e.sources ≤ 2 ^ 32
      → 3 + show_tokens K F D L R (length e.sources) 0 e < fuel
      → L.rest (F.reader (F.text (save_show K F D e [])))
        ≡ other ∷ other ∷ save_show K F D e (other ∷ [])
      → (loaded : Engine (Source K)) × ((load_show K F D fuel
              (F.reader (F.text (save_show K F D e [])))
              e'
            ≡ some loaded)
          × ((q : ℕ)
              → get_frame_source (Source K) q loaded
                ≡ loaded_over
                    (Source K)
                    (get_frame_source (Source K) q e)
                    (get_frame_source (Source K) q e')))
  unfolding save_show
  load_show-save_show e e' zero kept small h r = ground arith
  load_show-save_show e e' (suc zero) kept small h r = ground arith
  load_show-save_show e e' (suc (suc zero)) kept small h r = ground arith
  load_show-save_show e e' (suc (suc (suc fuel))) kept small h r =
      let s = F.reader (F.text (save_show K F D e [])) in
      let blank = before_last K F D e.sources in
      let no_tag = before_last-blank e.sources in
      let n = length e.sources in
      let more = save_sequences K F D n 0 e (blank ++ end_element "Lucifer" ∷ other ∷ []) in
      let attributes : Attributes = ("Version", "1.1.0") ∷ ("Date", D.date) ∷ [] in
      let head = start_element "Lucifer" attributes in
      let some_tag = sequences-tag K F D L R n 0 e blank (other ∷ []) no_tag in
      let long : 0 < length more = omega (arith, length-to_tag more, some_tag) in
      let (found, r') = seek_head-found fuel s attributes more r long in
      let s' = F.read_next (F.read_next s) in
      let started = F.read_next_start_element s' in
      (
        put_sources (Source K) n 0 e e',
        (
          head_step (suc (suc (suc fuel))) s s' D.date more e' found r' long
              ∙ skip_step K F D L R (suc (suc fuel)) s' s' head more e'
                  (some (put_sources (Source K) n 0 e e')) r' long refl
                  (seek_sequence-stays K F D L R head more (suc fuel) s' refl r' long)
                  (rw (L.seen s' head more r') refl)
                  (load_sequences-saved K F D L R n 0 (suc (suc fuel)) started blank (other ∷ []) e
                    e' kept (omega arith) (omega arith) no_tag (omega arith)
                    (L.moved_to_tag s' head more r' some_tag)),
          λ q. put_sources_all (Source K) q e e',
        ),
      )
