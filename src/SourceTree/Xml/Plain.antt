-- ===== src/SourceTree/Xml/Plain.antt =====
-- A reader over a list of tokens, and classes with a description and a number, for runs of
-- src/framesource_impl.cpp and src/engine.cpp on small trees.
use lucifer.Prelude.{
  ℕ, zero, suc, ◌+◌, ◌≤◌, ◌<◌, ◌≡◌, refl, ap, ◌∙◌, inl, inr, false, ◌||◌, none, some, List, [], ◌∷◌,
  ◌++◌, append_assoc, arith, leb, if◌then◌else◌, Bool-cases, length, All, length-append,
}
use Prim.Native.String.{String, [] as empty, ◌∷◌ as ◌∷ₛ◌}
use text.Mathlib.Text.{◌==◌ as str_eq}
use lucifer.SourceTree.{Classes, childless, many}
use lucifer.SourceTree.Xml.{
  Attributes, value, attributes_of, Format, Token, start_element, end_element, characters, other,
}
use lucifer.SourceTree.Xml.Tokens.{
  IsBlank, IsNoStart, to_tag, Blank-Inner, Inner-NoStart, to_tag-blank, to_tag-here, Reads,
}

-- A description and a number. The names of the elements of a show are no classes.
abbrev pub described : Classes
described = record {
  Own = String × ℕ;
  OwnPlayback = Unit;
  new_source =
      λ name. if str_eq name "Lucifer" || str_eq name "Sequence" then none else some ("new", 0);
  possible_children = λ name. if str_eq name "StaticFrame" then childless else many;
  copy_data_to = λ name own fresh. own;
  new_playback = λ name own. record {};
}

-- A number as so many letters.
abbrev pub unary : ℕ → String
unary zero = ""
unary (suc n) = "I" ∷ₛ unary n

abbrev pub from_unary : String → ℕ
from_unary empty = 0
from_unary (c ∷ₛ s) = suc (from_unary s)

pub unary_back : (n : ℕ) → from_unary (unary n) ≡ n
unary_back zero = refl
unary_back (suc n) = ap suc (unary_back n)

abbrev pub current : List Token → Token
current [] = other
current (t ∷ ts) = t

abbrev pub rest_of : List Token → List Token
rest_of [] = []
rest_of (t ∷ ts) = ts

-- A frame has an element of its own.
abbrev pub points : List Token → String → List Token
points indent name =
    if str_eq name "StaticFrame"
    then indent ++ start_element "PointList" [] ∷ characters "AAAA" ∷ end_element "PointList" ∷ []
    else []

abbrev pub after_points : String → List Token → List Token
after_points name s = if str_eq name "StaticFrame" then rest_of (to_tag (rest_of s)) else s

abbrev pub plain : Format described
plain = record {
  State = List Token;
  token = current;
  at_end = λ s. leb (length s) 1;
  read_next = rest_of;
  read_next_start_element = λ s. to_tag (rest_of s);
  save = λ indent depth name own. (("Value", unary own.1) ∷ [], points (indent depth) name);
  load = λ name own s.
      ((own.0, from_unary (value "Value" (attributes_of (current s)))), after_points name s);
  description = λ own. own.0;
  set_description = λ d own. (d, own.1);
  number = unary;
  to_int = from_unary;
  Text = List Token;
  text = λ ts. other ∷ other ∷ (ts ++ other ∷ []);
  reader = λ ts. ts;
}

pub plain-load_back :
    (indent : List Token) (name : String) (own fresh : String × ℕ) (s blank : List Token)
    (c : String) (attributes : Attributes) (ts : List Token)
    → All IsBlank indent
    → All IsBlank blank
    → s
      ≡ start_element name (("Description", own.0) ∷ ("Value", unary own.1) ∷ [])
        ∷ (points indent name ++ (blank ++ start_element c attributes ∷ ts))
    → ((own.0, from_unary (value "Value" (attributes_of (current s)))) ≡ own)
      × ((t : Token) × ((post : List Token) × (All IsNoStart post
              × ((length post ≤ length (points indent name) + length blank)
                  × (after_points name s ≡ t ∷ (post ++ start_element c attributes ∷ ts))))))
plain-load_back indent name own fresh s blank c attributes ts no_tag no_tag' e =
    let last = start_element c attributes ∷ ts in
    let none_left = Inner-NoStart described blank (Blank-Inner described blank no_tag') in
    let list = start_element "PointList" [] ∷ characters "AAAA" ∷ end_element "PointList" ∷ [] in
    (
      ap (λ u. (own.0, from_unary (value "Value" (attributes_of (current u))))) e
          ∙ ap (λ n. (own.0, n)) (unary_back own.1),
      elim (Bool-cases (str_eq name "StaticFrame")) [
        | inl frame ↦ (
          characters "AAAA",
          (
            end_element "PointList" ∷ blank,
            (
              (refl, none_left),
              (
                rw frame (omega (arith, length-append indent list)),
                rw
                    (
                      e,
                      frame,
                      append_assoc indent list (blank ++ last),
                      to_tag-blank indent (list ++ (blank ++ last)) no_tag,
                      to_tag-here (start_element "PointList" [])
                          (characters "AAAA" ∷ end_element "PointList" ∷ (blank ++ last)) refl,
                    )
                    refl,
              ),
            ),
          ),
        )
        | inr no_frame ↦ (
          start_element name (("Description", own.0) ∷ ("Value", unary own.1) ∷ []),
          (blank, (none_left, (rw no_frame (omega arith), rw (e, no_frame) refl))),
        )
      ],
    )

pub plain-more :
    (s : List Token) (t : Token) (ts : List Token)
    → s ≡ t ∷ ts
    → 0 < length ts
    → leb (length s) 1 ≡ false
plain-more s t ts e h = ground arith

unfoldable pub plain-Reads : Reads described plain
plain-Reads = record {
  rest = λ s. s;
  Restored = λ name own. Unit;
  seen = λ s t ts e. ap current e;
  more = plain-more;
  moved = λ s t ts e h. ap rest_of e;
  moved_to_tag = λ s t ts e h. ap (λ u. to_tag (rest_of u)) e;
  number_back = λ n h. unary_back n;
  load_back = λ indent depth name own fresh s blank c attributes ts no_tag no_tag' known restored e.
      plain-load_back (indent depth) name own fresh s blank c attributes ts (no_tag depth) no_tag'
        e;
}
