-- ===== src/Ilda/Colours.antt =====
-- The indexed colours of src/loadilda.cpp (`readFrameSection`).
use lucifer.Prelude.{
  ℕ, zero, suc, ◌<◌, ◌≡◌, refl, ap, inl, inr, Bool, true, false, none, some, List, [], ◌∷◌, arith,
  ◌==◌, if◌then◌else◌, Bool-cases, length, get_elem?-some,
}
use lucifer.StaticFrame.{IldaPoint}
use lucifer.Ilda.Palettes.{ilda_palette, pangolin_palette}
use mathlib.Core.Option
use lucifer.Ilda.{
  colours_of, default_palette, read_header, read_place, coloured, read_point, read_points,
  read_frame_section, Colour, Ildaloader, DataStream, Section,
}

default_palette-length : (pangolin : Bool) → length (default_palette pangolin) ≡ 256
unfolding default_palette colours_of ilda_palette pangolin_palette
default_palette-length true = refl
default_palette-length false = refl

module _ (D : DataStream) (u8_fits : (s : D.State) → (D.read_u8 s).0 < 256) where
  read_point-some :
      (l : Ildaloader) (is_3d : Bool) (i : ℕ) (s : D.State)
      → length l.palette ≡ 256
      → l.true_colour ≡ false
      → (r : IldaPoint × D.State) × (read_point D l is_3d i s ≡ some r)
  unfolding read_point
  read_point-some l is_3d i s h t =
      let state = D.read_u8 (read_place D is_3d s).1 in
      let col = D.read_u8 state.1 in
      let (c, e) = get_elem?-some l.palette col.0 (omega (arith, u8_fits state.1)) in
      ((coloured D (read_place D is_3d s).0 state.0 c, col.1), rw (t, e) refl)

  read_points-some :
      (l : Ildaloader) (is_3d : Bool) (i n : ℕ) (s : D.State)
      → length l.palette ≡ 256
      → l.true_colour ≡ false
      → (ps : List IldaPoint) × (s' : D.State) × (read_points D l is_3d i n s ≡ some (ps, s'))
        × (length ps ≡ n)
  unfolding read_points
  read_points-some l is_3d i zero s h t = ([], s, refl, refl)
  read_points-some l is_3d i (suc n) s h t =
      let (p, e) = read_point-some l is_3d i s h t in
      let (ps, s', es, k) = read_points-some l is_3d (suc i) n p.1 h t in
      (p.0 ∷ ps, s', rw (e, es) refl, ap suc k)

  -- With one of the default palettes, no true colours and a stream whose bytes are below 256,
  -- `readFrameSection` reads no colour that is not there, whatever the file holds; it reads as many
  -- points as the header says, or takes a header without points for the end of the data; and the
  -- palette is kept.
  pub default_palette_suffices :
      (pangolin is_3d : Bool) (colour : List Colour) (s : D.State)
      → let l : Ildaloader = record {
        palette = default_palette pangolin;
        true_colour = false;
        colour = colour;
      } in
        (r : Section D) × (read_frame_section D is_3d l s ≡ some r)
        × (r.loader.palette ≡ default_palette pangolin)
        × (Option.map length r.frame
            ≡ (if (read_header D s).0 == 0 then none else some (read_header D s).0))
  unfolding read_frame_section
  default_palette_suffices pangolin is_3d colour s =
      let l : Ildaloader = record {
        palette = default_palette pangolin;
        true_colour = false;
        colour = colour;
      } in
      let header = read_header D s in
      elim (Bool-cases (header.0 == 0)) [
        | inl e ↦
            (record { frame = none; loader = l; stream = header.1 }, rw e refl, refl, rw e refl)
        | inr e ↦
            let (ps, s', read, count) =
              read_points-some l is_3d 0 header.0 header.1 (default_palette-length pangolin) refl in
            (
              record {
                frame = some ps;
                loader = record l { colour = []; true_colour = false };
                stream = s';
              },
              rw (e, read) refl,
              refl,
              rw e (ap some count),
            )
      ]
