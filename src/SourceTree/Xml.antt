-- ===== src/SourceTree/Xml.antt =====
-- `saveFrames` and `loadFrames` of src/framesource_impl.cpp, on the tokens of Qt's XML classes.
-- `none` is a failed assertion, or fuel that ran out.
pub mod Tokens
pub mod Steps
pub mod Saved
pub mod Plain
mod Tests
use lucifer.Prelude.{
  ℕ, zero, suc, Bool, true, false, not, ◌&&◌, Option, none, some, List, [], ◌∷◌, ◌++◌,
  if◌then◌else◌,
}
use lucifer.Prelude.Int.{negsuc}
use Prim.Native.String.{String}
use lucifer.Prelude.Maybe.{◌>>=◌}
use text.Mathlib.Text.{◌==◌ as str_eq}
use lucifer.SourceTree.{num_children, add_child, Classes, Source, node, Sources, nil, cons}

abbrev pub Attributes : Type 0
Attributes = List (String × String)

pub data Token : Type 0 where
  start_element : String → Attributes → Token
  end_element : String → Token
  characters : String → Token
  other : Token

-- `QXmlStreamReader`, what `save` and `load` of a class do with it and with the writer, and Qt's
-- numbers. `save` gives the attributes and the elements that it writes, with the writer's indentation
-- before the tags and the depth at which they stand.
pub record Format (K : Classes) : Type 1 where
  pub State : Type 0
  pub token : State → Token
  pub at_end : State → Bool
  pub read_next : State → State
  pub read_next_start_element : State → State
  pub save : (ℕ → List Token) → ℕ → String → K.Own → Attributes × List Token
  pub load : String → K.Own → State → K.Own × State
  pub description : K.Own → String
  pub set_description : String → K.Own → K.Own
  pub number : ℕ → String
  pub to_int : String → ℕ
  pub Text : Type 0
  pub text : List Token → Text
  pub reader : Text → State

abbrev pub value : String → Attributes → String
value key [] = ""
value key ((k, v) ∷ rest) = if str_eq k key then v else value key rest

abbrev pub name_of : Token → String
name_of (start_element name attributes) = name
name_of (end_element name) = name
name_of _ = ""

abbrev pub attributes_of : Token → Attributes
attributes_of (start_element name attributes) = attributes
attributes_of _ = []

abbrev pub is_start : Token → Bool
is_start (start_element name attributes) = true
is_start _ = false

-- A writer that does not format automatically.
abbrev pub unformatted : ℕ → List Token
unformatted depth = []

module _ (K : Classes) (F : Format K) where
  open F use {State}

  -- The indentation before the end of an element, which has none before it if it has no elements.
  abbrev pub before_end : (ℕ → List Token) → ℕ → Sources K → List Token
  before_end indent depth nil = []
  before_end indent depth (cons c cs) = indent depth

  -- What `saveFrames` writes, in front of the tokens `rest`; `save_children` is its loop. The
  -- writer's indentation before an element comes with what is written around it.
  unfoldable mutual
    pub save_frames : (ℕ → List Token) → ℕ → Source K → List Token → List Token
    save_frames indent depth (node name own cs) rest =
        start_element name
          (("Description", F.description own) ∷ (F.save indent (suc depth) name own).0)
        ∷ ((F.save indent (suc depth) name own).1
            ++ (indent (suc depth)
                ++ start_element "Children" (("Number", F.number (num_children K cs)) ∷ [])
                  ∷ save_children indent (suc (suc depth)) cs (
                      before_end indent (suc depth) cs
                      ++ end_element "Children" ∷ (indent depth ++ end_element name ∷ rest))))

    pub save_children : (ℕ → List Token) → ℕ → Sources K → List Token → List Token
    save_children indent depth nil rest = rest
    save_children indent depth (cons c cs) rest =
        indent depth ++ save_frames indent depth c (save_children indent depth cs rest)

  -- `while ((!e->atEnd ()) && (e->tokenType () != StartElement)) e->readNext ();`
  pub seek_start : ℕ → State → Option State
  seek_start zero s = none
  seek_start (suc fuel) s = elim (not (F.at_end s) && not (is_start (F.token s))) [
    | true ↦ seek_start fuel (F.read_next s)
    | false ↦ some s
  ]

  -- `assert (child)`, and the call of `addChild`.
  abbrev pub adopt : Option (Source K) → Source K → Option (Source K)
  adopt none fs = none
  adopt (some c) fs = some (add_child K c (negsuc 0) fs).1

  -- The loop over the children that the element announces; `load` is `loadFrames`.
  pub load_children :
      ℕ
      → (State → Option (Option (Source K) × State))
      → ℕ
      → Source K
      → State
      → Option (Source K × State)
  unfolding seek_start
  load_children fuel load zero fs s = some (fs, s)
  load_children fuel load (suc n) fs s = do
    s' ← seek_start fuel s
    (c, t) ← load s'
    fs' ← adopt c fs
    load_children fuel load n fs' (F.read_next_start_element t)

  -- The element "Children", if the reader stands on it.
  pub load_section :
      ℕ
      → (State → Option (Option (Source K) × State))
      → Source K
      → State
      → Option (Source K × State)
  unfolding load_children
  load_section fuel load fs s =
      if str_eq (name_of (F.token s)) "Children"
      then load_children fuel load (F.to_int (value "Number" (attributes_of (F.token s)))) fs
          (F.read_next_start_element s)
      else some (fs, s)

  -- An object of the class that the element names.
  pub load_object :
      ℕ
      → (State → Option (Option (Source K) × State))
      → Option K.Own
      → State
      → Option (Option (Source K) × State)
  unfolding seek_start load_section
  load_object fuel load none s = some (none, F.read_next_start_element s)
  load_object fuel load (some fresh) s = do
    let name = name_of (F.token s)
    let described = F.set_description (value "Description" (attributes_of (F.token s))) fresh
    let loaded = F.load name described s
    s' ← seek_start fuel (F.read_next_start_element loaded.1)
    (fs, t) ← load_section fuel load (node name loaded.0 nil) s'
    some (some fs, t)

  pub load_frames : ℕ → State → Option (Option (Source K) × State)
  unfolding load_object seek_start
  load_frames zero s = none
  load_frames (suc fuel) s = do
    s' ← seek_start fuel s
    load_object fuel (load_frames fuel) (K.new_source (name_of (F.token s'))) s'

  pub to_string : Source K → F.Text
  unfolding save_frames
  to_string t = F.text (save_frames unformatted 0 t [])

  pub from_string : ℕ → F.Text → Option (Option (Source K))
  unfolding load_frames
  from_string fuel text =
      load_frames fuel (F.read_next_start_element (F.reader text)) >>= λ found. some found.0
