-- ===== src/SourceTree/Xml/Saved.antt =====
-- `loadFrames` after `saveFrames`, of src/framesource_impl.cpp.
use lucifer.Prelude.{
  ℕ, zero, suc, ◌+◌, ◌*◌, ◌^◌, ◌≤◌, ◌<◌, ◌≡◌, refl, sym, ap, ◌∙◌, inl, inr, true, some, List, [],
  ◌∷◌, ◌++◌, append_assoc, arith, length, All, length-append,
}
use Prim.Native.String.{String}
use lucifer.SourceTree.{num_children, append, Classes, Source, node, Sources, nil, cons}
use lucifer.SourceTree.Xml.{
  Attributes, unformatted, save_frames, load_children, load_section, load_object, load_frames,
  to_string, from_string, Format, Token, start_element, end_element, other,
}
use lucifer.SourceTree.Children.{num_children-snoc, append-append, append_nil}
use lucifer.SourceTree.Limits.{fits, Limited, AllLimited}
use lucifer.SourceTree.Clone.{fits-has_room, add_last}
use lucifer.SourceTree.Xml.Tokens.{
  IsInner, Blank-Inner, Inner-NoStart, All-append, to_tag-other, seek_start-passes, Layout, Reads,
}
use lucifer.SourceTree.Xml.Steps.{
  Left, closed-Left, next-Left, more-Left, object_step, children_step, frames_step, after, from_tag,
  gap, gap-blank, gap-short, after-gap, saved_start, to_tag-saved, inside, inside-tag, object_read,
}

module _ (K : Classes) (F : Format K) (L : Reads K F) where
  -- The classes are registered, they load back what is saved, and an `int` holds the number of a
  -- node's children.
  unfoldable mutual
    pub Loadable : Source K → Type 0
    Loadable (node name own cs) =
        ((fresh : K.Own) × (K.new_source name ≡ some fresh))
        × (L.Restored name own × ((num_children K cs < 2 ^ 31) × AllLoadable cs))

    pub AllLoadable : Sources K → Type 0
    AllLoadable nil = Unit
    AllLoadable (cons c cs) = Loadable c × AllLoadable cs

module _ (K : Classes) (F : Format K) (L : Reads K F) (Y : Layout) where
  open Y use {indent, width}

  -- As many tokens as `saveFrames` writes at most.
  unfoldable mutual
    pub num_tokens : ℕ → Source K → ℕ
    num_tokens depth (node name own cs) =
        5
        + 3 * width
        + length (F.save indent (suc depth) name own).1
        + all_tokens (suc (suc depth)) cs

    pub all_tokens : ℕ → Sources K → ℕ
    all_tokens depth nil = 0
    all_tokens depth (cons c cs) = width + num_tokens depth c + all_tokens depth cs

  -- What `load_frames` gives for a tree, and where it leaves the reader.
  unfoldable pub Loads : ℕ → F.State → Source K → List Token → ℕ → Type 0
  Loads fuel s t ts n =
      (s' : F.State) × ((load_frames K F fuel s ≡ some (some t, s')) × Left K F L s' ts n)

  LoadsChildren : ℕ → F.State → ℕ → Source K → Source K → List Token → ℕ → Type 0
  LoadsChildren fuel s n fs gs ts m =
      (s' : F.State) × ((load_children K F fuel (load_frames K F fuel) n fs s ≡ some (gs, s'))
        × Left K F L s' ts m)

  mutual
    unfolding Loads LoadsChildren num_tokens Loadable Limited save_frames num_children append
        load_frames load_object load_section load_children after from_tag

    pub load_frames-saved :
        (t : Source K) (depth fuel : ℕ) (s : F.State) (ts : List Token)
        → Loadable K F L t
        → Limited K t
        → num_tokens depth t ≤ fuel
        → L.rest s ≡ save_frames K F indent depth t ts
        → Loads fuel s t ts (num_tokens depth t)
    load_frames-saved (node name own cs) depth zero s ts k l h r = ground arith
    load_frames-saved (node name own cs) depth (suc fuel) s ts k l h r =
        let saved = F.save indent (suc depth) name own in
        let attributes = ("Description", F.description own) ∷ saved.0 in
        let number : Attributes = ("Number", F.number (num_children K cs)) ∷ [] in
        let within = inside K F L Y depth cs name ts in
        let here = saved.1 ++ (indent (suc depth) ++ start_element "Children" number ∷ within) in
        let (s1, (found, r1)) =
          seek_start-passes K F L [] name attributes here fuel s _ r (omega arith) in
        let fresh = k.0.0 in
        let (own_back, (s2, (found2, r4))) =
          object_read K F L Y depth name own fresh (num_children K cs) within fuel s1 k.0.1 k.1.0 r1
            (omega arith) in
        let (tags, some_tag) = inside-tag K F L Y depth cs name ts in
        let r5 =
          L.moved_to_tag s2 (start_element "Children" number) within r4 (rw tags some_tag) ∙ tags in
        let (s3, (children, at)) =
          load_children-saved cs depth name own nil (all_tokens (suc (suc depth)) cs) fuel []
            (F.read_next_start_element s2) ts k.0 k.1.1.1 l.1
            (ap (fits (K.possible_children name)) (omega arith) ∙ l.0) _ r5 (omega arith)
            (omega arith) in
        (
          s3,
          (
            frames_step K F L fuel name attributes fresh s s1 (some (some (node name own cs), s3))
                found (L.seen s1 (start_element name attributes) here r1) k.0.1
                (object_step K F L fuel (load_frames K F fuel) name saved.0 fresh own s1 s2 s3
                  (num_children K cs) (node name own cs)
                  (L.seen s1 (start_element name attributes) here r1) own_back found2
                  (L.seen s2 (start_element "Children" number) within r4)
                  (L.number_back (num_children K cs) k.1.1.0) children),
            more-Left K F L s3 ts (suc (all_tokens (suc (suc depth)) cs) + width)
                (num_tokens depth (node name own cs)) (omega arith) at,
          ),
        )

    load_children-saved :
        (cs : Sources K) (depth : ℕ) (name : String) (own : K.Own) (acc : Sources K) (m fuel : ℕ)
        (pre : List Token) (s : F.State) (ts : List Token)
        → (fresh : K.Own) × (K.new_source name ≡ some fresh)
        → AllLoadable K F L cs
        → AllLimited K cs
        → fits (K.possible_children name) (num_children K acc + num_children K cs) ≡ true
        → All (IsInner K) pre
        → L.rest s ≡ pre ++ from_tag K F L Y depth cs name ts
        → length pre + all_tokens (suc (suc depth)) cs ≤ m
        → m < fuel
        → LoadsChildren fuel s
            (num_children K cs)
            (node name own acc)
            (node name own (append K acc cs))
            ts
            (suc m + width)
    load_children-saved nil depth name own acc m fuel pre s ts known k l f a r h g =
        let ends = end_element "Children" ∷ indent depth in
        (
          s,
          (
            ap (λ ds. some (node name own ds, s)) (sym (append_nil K acc)),
            closed-Left K F L (pre ++ ends) name ts s (suc m + width)
                (All-append K pre ends a (inl refl, Blank-Inner K (indent depth) (Y.blank depth)))
                (inr known) (omega (arith, length-append pre ends))
                (omega (arith, length-append pre ends, Y.short depth))
                (r ∙ sym (append_assoc pre ends (end_element name ∷ ts))),
          ),
        )
    load_children-saved (cons c cs) depth name own acc m fuel pre s ts known k l f a r h g =
        let p = K.possible_children name in
        let room = fits-has_room K p (num_children K acc) (num_children K cs) f in
        let behind = after K F L Y depth cs name ts in
        let blank = gap K F L Y depth cs in
        let deeper = suc (suc depth) in
        let (n, (attributes, (here, start))) = saved_start K F L Y deeper c behind in
        let (s1, (found, r1)) =
          seek_start-passes K F L pre n attributes here fuel s (Inner-NoStart K pre a)
            (r ∙ ap (λ us. pre ++ us) start) (omega arith) in
        let (s2, (loaded, left)) =
          load_frames-saved c deeper fuel s1 behind k.0 l.0 (omega arith) (r1 ∙ sym start) in
        let (pre', (a', (few, r2))) = next-Left K F L s2 behind (num_tokens deeper c) left in
        let (s3, (children, at)) =
          load_children-saved cs depth name own (append K acc (cons c nil)) m fuel (pre' ++ blank)
            (F.read_next_start_element s2) ts known k.1 l.1
            (ap (fits p) (omega (arith, num_children-snoc K acc c)) ∙ f)
            (All-append K pre' blank a' (Blank-Inner K blank (gap-blank K F L Y depth cs)))
            (r2
              ∙ ap (λ us. pre' ++ us) (after-gap K F L Y depth cs name ts)
              ∙ sym (append_assoc pre' blank (from_tag K F L Y depth cs name ts)))
            (omega (arith, length-append pre' blank, gap-short K F L Y depth cs)) g in
        (
          s3,
          (
            children_step K F L fuel (load_frames K F fuel) (num_children K cs) (node name own acc)
                c s s1 s2 (some (node name own (append K acc (cons c cs)), s3)) found loaded
                (ap
                    (λ fs.
                      load_children K F fuel (load_frames K F fuel) (num_children K cs) fs
                        (F.read_next_start_element s2))
                    (add_last K c name own acc room)
                  ∙ children
                  ∙ ap (λ ds. some (node name own ds, s3)) (append-append K acc (cons c nil) cs)),
            at,
          ),
        )

-- The layout of a writer that does not format automatically.
abbrev pub no_layout : Layout
no_layout = record {
  indent = unformatted;
  width = 0;
  blank = λ depth. _;
  short = λ depth. omega arith;
}

module _ (K : Classes) (F : Format K) (L : Reads K F) where
  -- A tree that `toString` writes is what `fromString` makes of the text, if the classes of its
  -- nodes are registered and load back what they save, no node has more children than its class
  -- allows, and the reader gives back the tokens written, two others in front and one behind. As
  -- many rounds as there are tokens are enough for every loop.
  pub from_string-to_string :
      (t : Source K) (fuel : ℕ)
      → Loadable K F L t
      → Limited K t
      → num_tokens K F L no_layout 0 t ≤ fuel
      → L.rest (F.reader (to_string K F t))
        ≡ other ∷ other ∷ save_frames K F unformatted 0 t (other ∷ [])
      → from_string K F fuel (to_string K F t) ≡ some (some t)
  unfolding from_string Loads
  from_string-to_string t fuel k l h r =
      let start = F.reader (to_string K F t) in
      let saved = save_frames K F unformatted 0 t (other ∷ []) in
      let (same, some_tag) = to_tag-saved K F L no_layout [] 0 t (other ∷ []) _ in
      let (s, (loaded, left)) =
        load_frames-saved K F L no_layout t 0 fuel (F.read_next_start_element start) (other ∷ []) k
          l h
          (L.moved_to_tag start other (other ∷ saved) r (rw (to_tag-other saved, same) some_tag)
            ∙ to_tag-other saved
            ∙ same) in
      rw loaded refl
