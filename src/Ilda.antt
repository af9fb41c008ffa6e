-- ===== src/Ilda.antt =====
-- loadilda.cpp and ildapallette.h: the sections of an ILDA file. A `short` is its bit pattern.
-- The stream is Qt's; `none` is a read outside the palette or the table of true colours. The name
-- and the company of a section, which go into the description of the frame, are read past.
pub mod Palettes
pub mod Colours
pub mod Sections
pub mod File
mod Tests
use lucifer.Prelude.{
  ℕ, zero, suc, ◌-◌, Bool, false, Option, none, some, List, [], ◌∷◌, ◌++◌, ◌==◌, if◌then◌else◌,
  length, get_elem?, replicate,
}
use lucifer.Prelude.Maybe.{◌>>=◌}
use lucifer.StaticFrame.{IldaPoint}
use lucifer.Ilda.Palettes.{ilda_palette, pangolin_palette}
use Prim.Native.Nat.{bit_and}

pub record Colour : Type 0 where
  pub red : ℕ
  pub green : ℕ
  pub blue : ℕ

abbrev pub black : Colour
black = record { red = 0; green = 0; blue = 0 }

-- `while (pal[3*i] != -1)`.
pub colours_of : List ℕ → List Colour
colours_of (r ∷ g ∷ b ∷ rest) =
    let more = colours_of rest in
    if r == 65535 then [] else record { red = r; green = g; blue = b } ∷ more
colours_of _ = []

-- `while (i < 256)`.
abbrev pub pad : List Colour → List Colour
pad cs = cs ++ replicate (256 - length cs) black

unfoldable pub default_palette : Bool → List Colour
unfolding colours_of ilda_palette pangolin_palette
default_palette pangolin = pad (colours_of (if pangolin then pangolin_palette else ilda_palette))

pub record Ildaloader : Type 0 where
  pub palette : List Colour
  pub true_colour : Bool
  pub colour : List Colour

-- `QDataStream`, big endian: its reads, and the bytes that are left of it.
pub record DataStream : Type 1 where
  pub State : Type 0
  pub bytes : State → List ℕ
  pub read_u8 : State → ℕ × State
  pub read_u16 : State → ℕ × State
  pub read_u32 : State → ℕ × State
  pub read_raw_data : ℕ → State → List ℕ × State
  pub skip_raw_data : ℕ → State → State
  -- With a length that is below 0 as an `int`.
  pub skip_negative : ℕ → State → State
  pub at_end : State → Bool

module _ (D : DataStream) where
  open D use {State}

  -- `readHeader`: the number of points. `readRawData` of a name is read past.
  pub read_header : State → ℕ × State
  read_header s =
      let r = D.read_u16 (D.skip_raw_data 8 (D.skip_raw_data 8 s)) in (r.0, D.skip_raw_data 6 r.1)

  pub record Place : Type 0 where
    pub x : ℕ
    pub y : ℕ
    pub z : ℕ

  pub read_place : Bool → State → Place × State
  read_place is_3d s =
      let x = D.read_u16 s in
      let y = D.read_u16 x.1 in
      let z = D.read_u16 y.1 in
      if is_3d
      then (record { x = x.0; y = y.0; z = z.0 }, z.1)
      else (record { x = x.0; y = y.0; z = 0 }, y.1)

  abbrev pub is_blanked : ℕ → Bool
  is_blanked state = bit_and state 64 == 64

  abbrev pub coloured : Place → ℕ → Colour → IldaPoint
  coloured p state c = record {
    x = p.x;
    y = p.y;
    z = p.z;
    blanked = is_blanked state;
    r = c.red;
    g = c.green;
    b = c.blue;
  }

  -- One round of `readFrameSection`.
  pub read_point : Ildaloader → Bool → ℕ → State → Option (IldaPoint × State)
  unfolding read_place
  read_point l is_3d i s = do
    let place = read_place is_3d s
    let state = D.read_u8 place.1
    let col = D.read_u8 state.1
    c ← if l.true_colour then get_elem? l.colour i else get_elem? l.palette col.0
    some (coloured place.0 state.0 c, col.1)

  pub read_points : Ildaloader → Bool → ℕ → ℕ → State → Option (List IldaPoint × State)
  unfolding read_point
  read_points l is_3d i zero s = some ([], s)
  read_points l is_3d i (suc n) s = do
    p ← read_point l is_3d i s
    ps ← read_points l is_3d (suc i) n p.1
    some (p.0 ∷ ps.0, ps.1)

  -- What a section reads: the points of its frame, unless it marks the end of the data.
  pub record Section : Type 0 where
    pub frame : Option (List IldaPoint)
    pub loader : Ildaloader
    pub stream : State

  pub read_frame_section : Bool → Ildaloader → State → Option Section
  unfolding read_header read_points
  read_frame_section is_3d l s =
      let header = read_header s in
      if header.0 == 0
      then some (record { frame = none; loader = l; stream = header.1 })
      else (read_points l is_3d 0 header.0 header.1 >>= λ r. some (record {
        frame = some r.0;
        loader = record l { colour = []; true_colour = false };
        stream = r.1;
      }))

  -- One round of `readFormat5`.
  pub read_rgb_point : Bool → State → IldaPoint × State
  unfolding read_place
  read_rgb_point is_3d s =
      let place = read_place is_3d s in
      let state = D.read_u8 place.1 in
      let b = D.read_u8 state.1 in
      let g = D.read_u8 b.1 in
      let r = D.read_u8 g.1 in
      (coloured place.0 state.0 (record { red = r.0; green = g.0; blue = b.0 }), r.1)

  pub read_rgb_points : Bool → ℕ → State → List IldaPoint × State
  unfolding read_rgb_point
  read_rgb_points is_3d zero s = ([], s)
  read_rgb_points is_3d (suc n) s =
      let p = read_rgb_point is_3d s in let ps = read_rgb_points is_3d n p.1 in (p.0 ∷ ps.0, ps.1)

  pub read_format5 : Bool → State → Option (List IldaPoint) × State
  unfolding read_header read_rgb_points
  read_format5 is_3d s =
      let header = read_header s in
      let r = read_rgb_points is_3d header.0 header.1 in
      if header.0 == 0 then (none, header.1) else (some r.0, r.1)

  pub read_colours : ℕ → State → List Colour × State
  read_colours zero s = ([], s)
  read_colours (suc n) s =
      let r = D.read_u8 s in
      let g = D.read_u8 r.1 in
      let b = D.read_u8 g.1 in
      let cs = read_colours n b.1 in (record { red = r.0; green = g.0; blue = b.0 } ∷ cs.0, cs.1)

  -- `readColorTable`.
  pub read_color_table : Ildaloader → State → Ildaloader × State
  unfolding read_colours
  read_color_table l s =
      let count = D.read_u16 (D.skip_raw_data 8 (D.skip_raw_data 8 s)) in
      let cs = read_colours count.0 (D.skip_raw_data 4 (D.skip_raw_data 2 count.1)) in
      (record l { palette = cs.0 }, cs.1)
