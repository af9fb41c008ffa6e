-- ===== src/SourceTree/Xml/Steps.antt =====
-- The steps of `loadFrames` of src/framesource_impl.cpp over the tokens of a node.
use lucifer.Prelude.{
  ℕ, suc, ◌+◌, ◌≤◌, ◌<◌, ◌≡◌, refl, sym, ap, ◌∙◌, Option, some, List, [], ◌∷◌, ◌++◌, append_assoc,
  arith, length, All, length-append,
}
use lucifer.Prelude.Int.{negsuc}
use Prim.Native.String.{String}
use lucifer.SourceTree.{num_children, add_child, Classes, Source, node, Sources, nil, cons}
use lucifer.SourceTree.Xml.{
  Attributes, before_end, save_frames, save_children, seek_start, load_children, load_section,
  load_object, load_frames, Format, Token, start_element, end_element,
}
use lucifer.SourceTree.Xml.Tokens.{
  IsBlank, to_tag, IsInner, All-append, All-to_tag, length-to_tag, to_tag-blank, to_tag-append,
  to_tag-last, to_tag-here, to_tag-start, shorter, seek_start-passes, Layout, Reads,
}

module _ (K : Classes) (F : Format K) (L : Reads K F) where
  -- Where `loadFrames` leaves the reader: before `ts` some tokens of the node are to come, at most
  -- n, an end among them.
  unfoldable pub Left : F.State → List Token → ℕ → Type 0
  Left s ts n =
      (t : Token) × ((pre : List Token) × (IsInner K t
          × (All (IsInner K) pre
              × ((0 < length (to_tag pre)) × ((length pre ≤ n) × (L.rest s ≡ t ∷ (pre ++ ts)))))))

  pub closed-Left :
      (us : List Token) (name : String) (ts : List Token) (s : F.State) (n : ℕ)
      → All (IsInner K) us
      → IsInner K (end_element name)
      → 0 < length us
      → length us ≤ n
      → L.rest s ≡ us ++ end_element name ∷ ts
      → Left s ts n
  unfolding Left
  closed-Left [] name ts s n a i z l r = ground arith
  closed-Left (t ∷ us) name ts s n a i z l r =
      let last = end_element name ∷ [] in
      (
        t,
        (
          us ++ last,
          (
            a.0,
            (
              All-append K us last a.1 (i, _),
              (
                to_tag-last us name,
                (
                  omega (arith, length-append us last),
                  r ∙ ap (λ vs. t ∷ vs) (sym (append_assoc us last ts)),
                ),
              ),
            ),
          ),
        ),
      )

  pub next-Left :
      (s : F.State) (ts : List Token) (n : ℕ)
      → Left s ts n
      → (pre : List Token) × (All (IsInner K) pre
          × ((length pre ≤ n) × (L.rest (F.read_next_start_element s) ≡ pre ++ ts)))
  unfolding Left
  next-Left s ts n (t, (pre, (i, (a, (some_tag, (l, r)))))) =
      let same = to_tag-append pre ts some_tag in
      (
        to_tag pre,
        (
          All-to_tag K pre a,
          (
            omega (arith, length-to_tag pre),
            L.moved_to_tag s t (pre ++ ts) r
                  (rw same (rw (length-append (to_tag pre) ts) (omega arith)))
                ∙ same,
          ),
        ),
      )

  pub more-Left : (s : F.State) (ts : List Token) (m n : ℕ) → m ≤ n → Left s ts m → Left s ts n
  unfolding Left
  more-Left s ts m n h (t, (pre, (i, (a, (some_tag, (l, r)))))) =
      (t, (pre, (i, (a, (some_tag, (omega arith, r))))))

  abbrev pub Loader : Type 0
  Loader = F.State → Option (Option (Source K) × F.State)

  pub object_step :
      (fuel : ℕ) (load : Loader) (name : String) (attributes : Attributes) (fresh own : K.Own)
      (s1 s2 s3 : F.State) (n : ℕ) (gs : Source K)
      → F.token s1 ≡ start_element name (("Description", F.description own) ∷ attributes)
      → (F.load name (F.set_description (F.description own) fresh) s1).0 ≡ own
      → seek_start K F fuel (
          F.read_next_start_element
            (F.load name (F.set_description (F.description own) fresh) s1).1)
        ≡ some s2
      → F.token s2 ≡ start_element "Children" (("Number", F.number n) ∷ [])
      → F.to_int (F.number n) ≡ n
      → load_children K F fuel load n (node name own nil) (F.read_next_start_element s2)
        ≡ some (gs, s3)
      → load_object K F fuel load (some fresh) s1 ≡ some (some gs, s3)
  unfolding load_object load_section
  object_step fuel load name attributes fresh own s1 s2 s3 n gs e o f g h c =
      rw (e, o, f, g, h, c) refl

  pub children_step :
      (fuel : ℕ) (load : Loader) (n : ℕ) (fs c : Source K) (s s1 s2 : F.State)
      (o : Option (Source K × F.State))
      → seek_start K F fuel s ≡ some s1
      → load s1 ≡ some (some c, s2)
      → load_children K F fuel load n (add_child K c (negsuc 0) fs).1 (F.read_next_start_element s2)
        ≡ o
      → load_children K F fuel load (suc n) fs s ≡ o
  unfolding load_children
  children_step fuel load n fs c s s1 s2 o e f g = rw (e, f) g

  pub frames_step :
      (fuel : ℕ) (name : String) (attributes : Attributes) (fresh : K.Own) (s s1 : F.State)
      (o : Option (Option (Source K) × F.State))
      → seek_start K F fuel s ≡ some s1
      → F.token s1 ≡ start_element name attributes
      → K.new_source name ≡ some fresh
      → load_object K F fuel (load_frames K F fuel) (some fresh) s1 ≡ o
      → load_frames K F (suc fuel) s ≡ o
  unfolding load_frames
  frames_step fuel name attributes fresh s s1 o e t f g = rw (e, t, f) g

module _ (K : Classes) (F : Format K) (L : Reads K F) (Y : Layout) where
  open Y use {indent}

  -- The end of a node of the class `name` at a depth.
  abbrev pub closing : ℕ → String → List Token → List Token
  closing depth name ts = end_element "Children" ∷ (indent depth ++ end_element name ∷ ts)

  -- What comes after a child, of which the children `cs` are the next.
  unfoldable pub after : ℕ → Sources K → String → List Token → List Token
  after depth cs name ts =
      save_children K F indent (suc (suc depth)) cs (indent (suc depth) ++ closing depth name ts)

  -- The same from the next tag on, and the blanks before that.
  unfoldable pub from_tag : ℕ → Sources K → String → List Token → List Token
  from_tag depth nil name ts = closing depth name ts
  from_tag depth (cons c cs) name ts =
      save_frames K F indent (suc (suc depth)) c (after depth cs name ts)

  abbrev pub gap : ℕ → Sources K → List Token
  gap depth nil = indent (suc depth)
  gap depth (cons c cs) = indent (suc (suc depth))

  pub gap-blank : (depth : ℕ) (cs : Sources K) → All IsBlank (gap depth cs)
  gap-blank depth nil = Y.blank (suc depth)
  gap-blank depth (cons c cs) = Y.blank (suc (suc depth))

  pub gap-short : (depth : ℕ) (cs : Sources K) → length (gap depth cs) ≤ Y.width
  gap-short depth nil = Y.short (suc depth)
  gap-short depth (cons c cs) = Y.short (suc (suc depth))

  pub after-gap :
      (depth : ℕ) (cs : Sources K) (name : String) (ts : List Token)
      → after depth cs name ts ≡ gap depth cs ++ from_tag depth cs name ts
  unfolding after from_tag save_children
  after-gap depth nil name ts = refl
  after-gap depth (cons c cs) name ts = refl

  pub saved_start :
      (depth : ℕ) (c : Source K) (ts : List Token)
      → (name : String) × ((attributes : Attributes) × ((us : List Token) × (save_frames K F indent
                depth c ts
              ≡ start_element name attributes ∷ us)))
  unfolding save_frames
  saved_start depth (node name own cs) ts = (_, (_, (_, refl)))

  -- What stands between the tag "Children" and its end.
  abbrev pub inside : ℕ → Sources K → String → List Token → List Token
  inside depth cs name ts =
      save_children K F indent (suc (suc depth)) cs
        (before_end K F indent (suc depth) cs ++ closing depth name ts)

  saved-long :
      (depth : ℕ) (c : Source K) (ts : List Token) → 1 < length (save_frames K F indent depth c ts)
  unfolding save_frames
  saved-long depth (node name own cs) ts =
      let number = ("Number", F.number (num_children K cs)) ∷ [] in
      let behind = start_element "Children" number ∷ inside depth cs name ts in
      omega (
        arith,
        length-append (F.save indent (suc depth) name own).1 (indent (suc depth) ++ behind),
        length-append (indent (suc depth)) behind,
      )

  -- A start is not all that is saved.
  pub saved_start-long :
      (depth : ℕ) (c : Source K) (ts us : List Token) (t : Token)
      → save_frames K F indent depth c ts ≡ t ∷ us
      → 0 < length us
  saved_start-long depth c ts us t e = omega (arith, ap length e, saved-long depth c ts)

  pub to_tag-saved :
      (blank : List Token) (depth : ℕ) (c : Source K) (ts : List Token)
      → All IsBlank blank
      → (to_tag (blank ++ save_frames K F indent depth c ts) ≡ save_frames K F indent depth c ts)
        × (0 < length (save_frames K F indent depth c ts))
  to_tag-saved blank depth c ts a =
      let (name, (attributes, (us, e))) = saved_start depth c ts in
      (
        to_tag-blank blank (save_frames K F indent depth c ts) a
            ∙ ap (λ vs. to_tag vs) e
            ∙ to_tag-here (start_element name attributes) us refl
            ∙ sym e,
        rw e (omega arith),
      )

  pub inside-tag :
      (depth : ℕ) (cs : Sources K) (name : String) (ts : List Token)
      → (to_tag (inside depth cs name ts) ≡ from_tag depth cs name ts)
        × (0 < length (from_tag depth cs name ts))
  unfolding from_tag after save_children
  inside-tag depth nil name ts = (
    to_tag-here (end_element "Children") (indent depth ++ end_element name ∷ ts) refl,
    omega arith,
  )
  inside-tag depth (cons c cs) name ts =
      to_tag-saved (indent (suc (suc depth))) (suc (suc depth)) c (after depth cs name ts)
        (Y.blank (suc (suc depth)))

  -- The load of a class, up to the element of the children.
  pub object_read :
      (depth : ℕ) (name : String) (own fresh : K.Own) (n : ℕ) (within : List Token) (fuel : ℕ)
      (s1 : F.State)
      → K.new_source name ≡ some fresh
      → L.Restored name own
      → L.rest s1
        ≡ start_element name
            (("Description", F.description own) ∷ (F.save indent (suc depth) name own).0)
          ∷ ((F.save indent (suc depth) name own).1
              ++ (indent (suc depth)
                  ++ start_element "Children" (("Number", F.number n) ∷ []) ∷ within))
      → length (F.save indent (suc depth) name own).1 + Y.width < fuel
      → let loaded = F.load name (F.set_description (F.description own) fresh) s1 in
        (loaded.0 ≡ own)
        × ((s2 : F.State) × ((seek_start K F fuel (F.read_next_start_element loaded.1) ≡ some s2)
              × (L.rest s2 ≡ start_element "Children" (("Number", F.number n) ∷ []) ∷ within)))
  object_read depth name own fresh n within fuel s1 known restored r1 h =
      let number = ("Number", F.number n) ∷ [] in
      let (own_back, (t, (post, (no_start, (few, r2))))) =
        L.load_back indent (suc depth) name own fresh s1 (indent (suc depth)) "Children" number
          within Y.blank (Y.blank (suc depth)) known restored r1 in
      let loaded = (F.load name (F.set_description (F.description own) fresh) s1).1 in
      let (left, (none_left, (fewer, tag))) = to_tag-start post "Children" number within no_start in
      let r3 =
        L.moved_to_tag loaded t (post ++ start_element "Children" number ∷ within) r2
          (rw tag (shorter left (start_element "Children" number) within))
        ∙ tag in
      (
        own_back,
        seek_start-passes K F L left "Children" number within fuel
            (F.read_next_start_element loaded) none_left r3 (omega (arith, Y.short (suc depth))),
      )
