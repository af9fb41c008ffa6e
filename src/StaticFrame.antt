-- ===== src/StaticFrame.antt =====
-- staticframe.cpp and staticframe.h: a single frame, its playback and its file format.
-- A `short` is its bit pattern, and so is a byte. A frame that is drawn is `true`: what is drawn is
-- its points.
pub mod Codec
pub mod Repeats
mod Tests
use lucifer.Prelude.{
  ℕ, suc, ◌+◌, ◌*◌, ◌/◌, ◌%◌, ◌^◌, Bool, true, false, not, List, [], ◌∷◌, ltb, leb, ◌==◌,
  if◌then◌else◌, length,
}
use lucifer.Prelude.Int.{ℤ, pos, negsuc, to_int}
use Prim.Native.String.{String}
use text.Mathlib.Text.{◌==◌ as str_eq}
use lucifer.SourceTree.Xml.{
  Attributes, value, name_of, attributes_of, Token, start_element, end_element, characters,
}

pub record IldaPoint : Type 0 where
  pub x : ℕ
  pub y : ℕ
  pub z : ℕ
  pub blanked : Bool
  pub r : ℕ
  pub g : ℕ
  pub b : ℕ

-- The bytes of `htons (u)` in memory.
abbrev pub network_order : ℕ → List ℕ → List ℕ
network_order u rest = u / 256 ∷ u % 256 ∷ rest

-- What `save` appends for one point.
pub encode_point : IldaPoint → List ℕ → List ℕ
encode_point p rest =
    network_order p.x (
      network_order p.y (network_order p.z (p.r ∷ p.g ∷ p.b ∷ (if p.blanked then 1 else 0) ∷ rest)))

pub encode_points : List IldaPoint → List ℕ
unfolding encode_point
encode_points [] = []
encode_points (p ∷ ps) = encode_point p (encode_points ps)

-- The loop of `load` over `ba.size () / 10` points.
pub decode_points : ℕ → List ℕ → List IldaPoint
decode_points (suc n) (a ∷ b ∷ c ∷ d ∷ e ∷ f ∷ red ∷ green ∷ blue ∷ last ∷ rest) =
    record {
      x = a * 256 + b;
      y = c * 256 + d;
      z = e * 256 + f;
      blanked = not (last == 0);
      r = red;
      g = green;
      b = blue;
    }
    ∷ decode_points n rest
decode_points _ _ = []

-- What Qt does with numbers and base 64.
pub record Qt : Type 1 where
  pub Float : Type 0
  pub number : ℕ → String
  pub to_number : String → ℕ
  pub number_of_float : Float → String
  pub to_float : String → Float
  pub to_base64 : List ℕ → String
  pub from_base64 : String → List ℕ

-- A `QMatrix4x4`.
pub record Column (Float : Type 0) : Type 0 where
  pub row0 : Float
  pub row1 : Float
  pub row2 : Float
  pub row3 : Float

pub record Matrix (Float : Type 0) : Type 0 where
  pub column0 : Column Float
  pub column1 : Column Float
  pub column2 : Column Float
  pub column3 : Column Float

abbrev pub attributes_of_first : List Token → Attributes
attributes_of_first [] = []
attributes_of_first (t ∷ ts) = attributes_of t

-- `text ()` of the first token.
abbrev pub text_of_first : List Token → String
text_of_first (characters s ∷ ts) = s
text_of_first _ = ""

module _ (Q : Qt) where
  open Q use {Float}

  pub record StaticFrame : Type 0 where
    pub data_points : List IldaPoint
    pub repeats : ℕ
    pub dewell : ℕ
    pub use_dewell : Bool
    pub scale : Float
    pub geometry : Matrix Float

  -- The loops of `save` over the geometry: `geometry (j, i)` is row j of column i.
  pub save_geometry : Matrix Float → Attributes
  save_geometry m =
      ("Geometry00", Q.number_of_float m.column0.row0)
      ∷ ("Geometry10", Q.number_of_float m.column0.row1)
      ∷ ("Geometry20", Q.number_of_float m.column0.row2)
      ∷ ("Geometry30", Q.number_of_float m.column0.row3)
      ∷ ("Geometry01", Q.number_of_float m.column1.row0)
      ∷ ("Geometry11", Q.number_of_float m.column1.row1)
      ∷ ("Geometry21", Q.number_of_float m.column1.row2)
      ∷ ("Geometry31", Q.number_of_float m.column1.row3)
      ∷ ("Geometry02", Q.number_of_float m.column2.row0)
      ∷ ("Geometry12", Q.number_of_float m.column2.row1)
      ∷ ("Geometry22", Q.number_of_float m.column2.row2)
      ∷ ("Geometry32", Q.number_of_float m.column2.row3)
      ∷ ("Geometry03", Q.number_of_float m.column3.row0)
      ∷ ("Geometry13", Q.number_of_float m.column3.row1)
      ∷ ("Geometry23", Q.number_of_float m.column3.row2)
      ∷ ("Geometry33", Q.number_of_float m.column3.row3)
      ∷ []

  -- The attributes and the elements that `save` writes.
  pub save : StaticFrame → Attributes × List Token
  unfolding encode_points save_geometry
  save f = (
    ("Points", Q.number (length f.data_points))
        ∷ ("Use_Dewell", if f.use_dewell then "True" else "False")
        ∷ ("Dewell", Q.number f.dewell)
        ∷ ("Repeats", Q.number f.repeats)
        ∷ ("Scale", Q.number_of_float f.scale)
        ∷ save_geometry f.geometry,
    start_element "PointList" []
        ∷ characters (Q.to_base64 (encode_points f.data_points))
        ∷ end_element "PointList"
        ∷ [],
  )

  abbrev pub float_at : String → Attributes → Float
  float_at key e = Q.to_float (value key e)

  pub load_geometry : Attributes → Matrix Float
  load_geometry e = record {
    column0 = record {
      row0 = float_at "Geometry00" e;
      row1 = float_at "Geometry10" e;
      row2 = float_at "Geometry20" e;
      row3 = float_at "Geometry30" e;
    };
    column1 = record {
      row0 = float_at "Geometry01" e;
      row1 = float_at "Geometry11" e;
      row2 = float_at "Geometry21" e;
      row3 = float_at "Geometry31" e;
    };
    column2 = record {
      row0 = float_at "Geometry02" e;
      row1 = float_at "Geometry12" e;
      row2 = float_at "Geometry22" e;
      row3 = float_at "Geometry32" e;
    };
    column3 = record {
      row0 = float_at "Geometry03" e;
      row1 = float_at "Geometry13" e;
      row2 = float_at "Geometry23" e;
      row3 = float_at "Geometry33" e;
    };
  }

  pub load_data : String → List IldaPoint
  unfolding decode_points
  load_data text = decode_points (length (Q.from_base64 text) / 10) (Q.from_base64 text)

  -- From the current token on: the loop up to "PointList", and the points in the text behind it.
  pub load_points : List Token → List IldaPoint
  unfolding load_data
  load_points [] = []
  load_points (t ∷ ts) =
      let rest = load_points ts in
      if str_eq (name_of t) "PointList" then load_data (text_of_first ts) else rest

  -- `load`, from the tokens of the reader, the current one first.
  pub load : List Token → StaticFrame
  unfolding load_points load_geometry
  load ts =
      let e = attributes_of_first ts in
      record {
        data_points = load_points ts;
        repeats = Q.to_number (value "Repeats" e);
        dewell = Q.to_number (value "Dewell" e);
        use_dewell = str_eq (value "Use_Dewell" e) "True";
        scale = float_at "Scale" e;
        geometry = load_geometry e;
      }

-- `StaticFramePlayback`.
pub record Playback : Type 0 where
  pub active : Bool
  pub dewell_start : ℕ
  pub repeats_done : ℕ

-- `n > i`, of `int`s.
abbrev pub is_above : ℕ → ℤ → Bool
is_above n (pos i) = ltb i n
is_above n (negsuc i) = true

-- `QTime`: the milliseconds from a start to now.
module _ (elapsed : ℕ → ℕ → ℕ) where
  pub reset : ℕ → Playback → Playback
  reset now p = record p { active = true; repeats_done = 0; dewell_start = now }

  -- The test that ends the frame's turn.
  pub expire : Bool → ℕ → ℕ → ℕ → Playback → Playback
  expire true dewell repeats now p =
      if is_above (elapsed p.dewell_start now) (to_int dewell)
      then record p { active = false; dewell_start = now }
      else p
  expire false dewell repeats now p = record p {
    active = if leb repeats p.repeats_done then false else p.active;
    repeats_done = suc p.repeats_done % 2 ^ 32;
  }

  pub finish : Playback → Bool × Playback
  finish p = if p.active then (true, p) else (false, record p { active = true; repeats_done = 0 })

  -- `nextFrame`: whether it draws the frame.
  pub next_frame : Bool → ℕ → ℕ → ℕ → Playback → Bool × Playback
  unfolding expire finish
  next_frame use_dewell dewell repeats now p = finish (expire use_dewell dewell repeats now p)
