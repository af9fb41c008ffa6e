-- ===== src/StaticFrame/Codec.antt =====
-- The file format of src/staticframe.cpp: `load` after `save`.
use lucifer.Prelude.{
  ℕ, ◌+◌, ◌*◌, ◌/◌, ◌%◌, ◌^◌, ◌<◌, ◌≡◌, refl, ap, ap₂, ◌∙◌, Bool, true, false, not, List, [], ◌∷◌,
  ◌++◌, arith, ◌==◌, if◌then◌else◌, length, All,
}
use Prim.Native.String.{String}
use text.Mathlib.Text.{◌==◌ as str_eq}
use lucifer.SourceTree.Xml.{name_of, Token, start_element}
use lucifer.StaticFrame.{
  network_order, encode_point, encode_points, decode_points, save_geometry, save, load_geometry,
  load_data, load_points, load, IldaPoint, Qt, Column, Matrix, StaticFrame,
}

-- A point whose numbers fit their types.
pub record Fits (p : IldaPoint) : Type 0 where
  pub x_fits : p.x < 2 ^ 16
  pub y_fits : p.y < 2 ^ 16
  pub z_fits : p.z < 2 ^ 16
  pub r_fits : p.r < 256
  pub g_fits : p.g < 256
  pub b_fits : p.b < 256

join : (u : ℕ) → u / 256 * 256 + u % 256 ≡ u
join u = omega arith

flag : (b : Bool) → not ((if b then 1 else 0) == 0) ≡ b
flag true = refl
flag false = refl

decode-encode_points : (ps : List IldaPoint) → decode_points (length ps) (encode_points ps) ≡ ps
unfolding decode_points encode_points encode_point
decode-encode_points [] = refl
decode-encode_points (p ∷ ps) =
    ap₂ (λ q qs. q ∷ qs)
      (λ i. record {
        x = join p.x i;
        y = join p.y i;
        z = join p.z i;
        blanked = flag p.blanked i;
        r = p.r;
        g = p.g;
        b = p.b;
      })
      (decode-encode_points ps)

length-encode_points : (ps : List IldaPoint) → length (encode_points ps) ≡ 10 * length ps
unfolding encode_points encode_point
length-encode_points [] = refl
length-encode_points (p ∷ ps) = omega (arith, length-encode_points ps)

network_order-bytes :
    (u : ℕ) (rest : List ℕ)
    → u < 2 ^ 16
    → All (λ b. b < 256) rest
    → All (λ b. b < 256) (network_order u rest)
network_order-bytes u rest h a = (omega arith, (omega arith, a))

flag_fits : (b : Bool) → (if b then 1 else 0) < 256
flag_fits true = omega arith
flag_fits false = omega arith

encode_points-bytes : (ps : List IldaPoint) → All Fits ps → All (λ b. b < 256) (encode_points ps)
unfolding encode_points encode_point
encode_points-bytes [] h = _
encode_points-bytes (p ∷ ps) h =
    let state = if p.blanked then 1 else 0 in
    let colours = p.r ∷ p.g ∷ p.b ∷ state ∷ encode_points ps in
    let last : All (λ b. b < 256) colours =
      (h.0.r_fits, (h.0.g_fits, (h.0.b_fits, (flag_fits p.blanked, encode_points-bytes ps h.1)))) in
    network_order-bytes p.x (network_order p.y (network_order p.z colours)) h.0.x_fits (
      network_order-bytes p.y (network_order p.z colours) h.0.y_fits
        (network_order-bytes p.z colours h.0.z_fits last))

-- What `load` relies on: Qt reads back the numbers that `toInt` has room for, and bytes in base 64.
pub record ReadsBack (Q : Qt) : Type 0 where
  pub number_back : (n : ℕ) → n < 2 ^ 31 → Q.to_number (Q.number n) ≡ n
  pub bytes_back : (bs : List ℕ) → All (λ b. b < 256) bs → Q.from_base64 (Q.to_base64 bs) ≡ bs

-- A float that its text is read back as: `number` keeps six digits.
abbrev pub IsPrintable : (Q : Qt) → Q.Float → Type 0
IsPrintable Q x = Q.to_float (Q.number_of_float x) ≡ x

-- A token that the loop of `load` passes.
abbrev pub IsPassed : Token → Type 0
IsPassed t = str_eq (name_of t) "PointList" ≡ false

use_dewell_back : (b : Bool) → str_eq (if b then "True" else "False") "True" ≡ b
use_dewell_back true = refl
use_dewell_back false = refl

module _ (Q : Qt) where
  abbrev pub PrintableColumn : Column Q.Float → Type 0
  PrintableColumn c =
      IsPrintable Q c.row0 × IsPrintable Q c.row1 × IsPrintable Q c.row2 × IsPrintable Q c.row3

  abbrev pub PrintableMatrix : Matrix Q.Float → Type 0
  PrintableMatrix m =
      PrintableColumn m.column0
      × PrintableColumn m.column1
      × PrintableColumn m.column2
      × PrintableColumn m.column3

module _ (Q : Qt) (back : ReadsBack Q) where
  load_data-encoded :
      (ps : List IldaPoint) → All Fits ps → load_data Q (Q.to_base64 (encode_points ps)) ≡ ps
  unfolding load_data
  load_data-encoded ps h =
      let bytes = back.bytes_back (encode_points ps) (encode_points-bytes ps h) in
      let count : length (encode_points ps) / 10 ≡ length ps =
        omega (arith, length-encode_points ps) in
      ap (λ bs. decode_points (length bs / 10) bs) bytes
      ∙ ap (λ n. decode_points n (encode_points ps)) count
      ∙ decode-encode_points ps

  load_points-passes :
      (before after : List Token)
      → All IsPassed before
      → load_points Q (before ++ after) ≡ load_points Q after
  unfolding load_points
  load_points-passes [] after h = refl
  load_points-passes (t ∷ before) after h = rw (h.0) (load_points-passes before after h.1)

  load_points-save :
      (f : StaticFrame Q) (rest : List Token)
      → All Fits f.data_points
      → load_points Q ((save Q f).1 ++ rest) ≡ f.data_points
  unfolding load_points save
  load_points-save f rest h = load_data-encoded f.data_points h

  column_back :
      (c : Column Q.Float)
      → PrintableColumn Q c
      → record {
        row0 = Q.to_float (Q.number_of_float c.row0);
        row1 = Q.to_float (Q.number_of_float c.row1);
        row2 = Q.to_float (Q.number_of_float c.row2);
        row3 = Q.to_float (Q.number_of_float c.row3);
      }
        ≡ c
  column_back c (a, b, d, e) = λ i. record { row0 = a i; row1 = b i; row2 = d i; row3 = e i }

  load_geometry-save :
      (f : StaticFrame Q) → PrintableMatrix Q f.geometry → load_geometry Q (save Q f).0 ≡ f.geometry
  unfolding load_geometry save save_geometry
  load_geometry-save f (a, b, c, d) = λ i. record {
    column0 = column_back f.geometry.column0 a i;
    column1 = column_back f.geometry.column1 b i;
    column2 = column_back f.geometry.column2 c i;
    column3 = column_back f.geometry.column3 d i;
  }

  -- If Qt reads back what it prints as `ReadsBack` says, a frame is loaded as it was saved, where
  -- the attributes that `save` writes stand at an element, and the elements that it writes behind
  -- that with any tokens between and behind them, provided that neither that element nor a token
  -- before the points is named "PointList". The points must fit their types, the dwell time and the
  -- repeats be below 2^31, and the scale and the matrix be floats that are read back as they are
  -- printed.
  pub load-save :
      (f : StaticFrame Q) (name : String) (before rest : List Token)
      → All IsPassed (start_element name (save Q f).0 ∷ before)
      → All Fits f.data_points
      → f.repeats < 2 ^ 31
      → f.dewell < 2 ^ 31
      → IsPrintable Q f.scale
      → PrintableMatrix Q f.geometry
      → load Q (start_element name (save Q f).0 ∷ before ++ ((save Q f).1 ++ rest)) ≡ f
  unfolding load save
  load-save f name before rest passed fits r d s g =
      let found =
        load_points-passes (start_element name (save Q f).0 ∷ before) ((save Q f).1 ++ rest) passed
        ∙ load_points-save f rest fits in
      λ i. record {
        data_points = found i;
        repeats = back.number_back f.repeats r i;
        dewell = back.number_back f.dewell d i;
        use_dewell = use_dewell_back f.use_dewell i;
        scale = s i;
        geometry = load_geometry-save f g i;
      }
