-- ===== src/Ilda/File.antt =====
-- `load` of src/loadilda.cpp: the loop over the sections of a file, and what it builds.
pub mod Whole
use lucifer.Prelude.{
  ℕ, zero, suc, ◌+◌, ◌-◌, ◌%◌, ◌^◌, Bool, true, false, not, ◌&&◌, Option, none, some, List, [], ◌∷◌,
  ◌++◌, ltb, ◌==◌, if◌then◌else◌,
}
use lucifer.Prelude.Maybe.{◌>>=◌}
use lucifer.StaticFrame.{IldaPoint}
use lucifer.Ilda.{
  default_palette, read_frame_section, read_format5, read_colours, read_color_table, Ildaloader,
  DataStream,
}

abbrev pub Frame : Type 0
Frame = List IldaPoint

-- A null pointer, a static frame, or a colour rotator over a sequencer of frames.
pub data Loaded : Type 0 where
  nothing : Loaded
  single : Frame → Loaded
  rotated : List Frame → Loaded

-- The variables `frame` and `sequence`.
abbrev pub Found : Type 0
Found = Option Frame × Option (List Frame)

abbrev pub add_frame : Frame → Found → Found
add_frame f (frame, some fs) = (frame, some (fs ++ f ∷ []))
add_frame f (none, none) = (some f, none)
add_frame f (some first, none) = (some first, some (first ∷ f ∷ []))

abbrev pub add_found : Option Frame → Found → Found
add_found none found = found
add_found (some f) found = add_frame f found

abbrev pub source_of : Found → Loaded
source_of (frame, some fs) = rotated fs
source_of (some f, none) = single f
source_of (none, none) = nothing

pub record LoadResult : Type 0 where
  pub error : ℕ
  pub source : Loaded

-- `memcmp`.
abbrev pub same_bytes : List ℕ → List ℕ → Bool
same_bytes [] [] = true
same_bytes (a ∷ r) (b ∷ q) = (a == b) && same_bytes r q
same_bytes _ _ = false

abbrev pub ilda : List ℕ
ilda = 73 ∷ 76 ∷ 68 ∷ 65 ∷ []

abbrev pub is_none : Option Frame → Bool
is_none none = true
is_none (some f) = false

module _ (D : DataStream) where
  open D use {State}

  pub record Loading : Type 0 where
    pub loader : Ildaloader
    pub found : Found
    pub error : ℕ
    pub eof : Bool
    pub stream : State

  abbrev pub skip_int : ℕ → State → State
  skip_int n s = if ltb n (2 ^ 31) then D.skip_raw_data n s else D.skip_negative n s

  -- `readTrueColorSection`: whether the data ends.
  pub read_true_color_section : Ildaloader → State → Bool × (Ildaloader × State)
  unfolding read_colours
  read_true_color_section l s =
      let datalen = D.read_u32 s in
      let points = D.read_u32 datalen.1 in
      let colours = read_colours D points.0 points.1 in
      if ltb 65535 points.0
      then (false, (l, skip_int ((datalen.0 + 2 ^ 32 - 4) % 2 ^ 32) points.1))
      else if points.0 == 0
      then (true, (l, points.1))
      else (false, (record l { colour = colours.0; true_colour = true }, colours.1))

  -- A section of a type that is not known.
  pub skip_section : State → State
  skip_section s =
      let length_ = D.read_u32 s in let points = D.read_u32 length_.1 in skip_int length_.0 points.1

  abbrev pub read_indexed : Bool → Loading → State → Option Loading
  read_indexed is_3d L s = read_frame_section D is_3d L.loader s >>= λ r. some (record L {
    loader = r.loader;
    found = add_found r.frame L.found;
    eof = is_none r.frame;
    stream = r.stream;
  })

  abbrev pub read_rgb : Bool → Loading → State → Loading
  read_rgb is_3d L s =
      let r = read_format5 D is_3d s in
      record L { found = add_found r.0 L.found; eof = is_none r.0; stream = r.1 }

  -- The `switch` over the type of a section.
  pub read_section : ℕ → Loading → State → Option Loading
  unfolding read_true_color_section skip_section read_frame_section read_format5 read_color_table
  read_section format L s =
      let table = read_color_table D L.loader s in
      let colours = read_true_color_section L.loader s in
      if format == 0
      then read_indexed true L s
      else if format == 1
      then read_indexed false L s
      else if format == 2
      then some (record L { loader = table.0; eof = false; stream = table.1 })
      else if format == 3
      then some (record L { loader = colours.1.0; eof = colours.0; stream = colours.1.1 })
      else if format == 4
      then some (read_rgb true L s)
      else if format == 5
      then some (read_rgb false L s)
      else some (record L { stream = skip_section s })

  -- One round of the loop; a break is the end of it.
  pub read_round : Loading → Option Loading
  unfolding read_section
  read_round L =
      let buf = D.read_raw_data 4 L.stream in
      let format = D.read_u32 buf.1 in
      if same_bytes buf.0 ilda
      then read_section format.0 L format.1
      else some (record L { error = 2; eof = true; stream = buf.1 })

  -- `(!stream.atEnd ()) && (!eof)`.
  pub continues : Loading → Bool
  continues L = not (D.at_end L.stream) && not L.eof

  pub load_loop : ℕ → Loading → Option Loading
  unfolding read_round continues
  load_loop zero L = none
  load_loop (suc fuel) L = elim (continues L) [
    | true ↦ read_round L >>= load_loop fuel
    | false ↦ some L
  ]

  abbrev pub conclude : Loading → Option LoadResult
  conclude L = some (record { error = L.error; source = source_of L.found })

  -- `load`, of a file that was opened or not.
  pub load : ℕ → Bool → Bool → State → Option LoadResult
  unfolding load_loop
  load fuel is_open pangolin s =
      if is_open
      then (load_loop fuel (record {
        loader = record { palette = default_palette pangolin; true_colour = false; colour = [] };
        found = (none, none);
        error = 0;
        eof = false;
        stream = s;
      })
          >>= conclude)
      else some (record { error = 1; source = nothing })
