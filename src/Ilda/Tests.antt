-- ===== src/Ilda/Tests.antt =====
-- The sections of src/loadilda.cpp on small files.
use lucifer.Prelude.{
  ℕ, ◌+◌, ◌*◌, ◌%◌, ◌<◌, ◌≡◌, refl, sym, ap, ◌∙◌, true, false, none, some, List, [], ◌∷◌, ◌++◌,
  arith, ◌==◌, if◌then◌else◌, length, take, drop, replicate,
}
use mathlib.Core.Option
use lucifer.StaticFrame.{IldaPoint}
use lucifer.StaticFrame.Codec.{Fits}
use lucifer.Ilda.Sections.{ReadsBytes}
use lucifer.Ilda.{default_palette, read_header, read_frame_section, Ildaloader, DataStream, Section}
use lucifer.Ilda.Colours.{default_palette_suffices}
use lucifer.Ilda.File.{load, rotated}
use lucifer.Ilda.File.Whole.{print_file, print_end, load-print_file, ReadsFile, Printed, FitsFile}

-- A stream that is the list of its bytes; past its end it reads 0.
abbrev first_byte : List ℕ → ℕ × List ℕ
first_byte [] = (0, [])
first_byte (a ∷ r) = (a % 256, r)

abbrev first_word : List ℕ → ℕ × List ℕ
first_word (a ∷ b ∷ r) = (a * 256 + b, r)
first_word _ = (0, [])

abbrev first_long : List ℕ → ℕ × List ℕ
first_long (a ∷ b ∷ c ∷ d ∷ r) = (((a * 256 + b) * 256 + c) * 256 + d, r)
first_long _ = (0, [])

abbrev listed : DataStream
listed = record {
  State = List ℕ;
  bytes = λ s. s;
  read_u8 = first_byte;
  read_u16 = first_word;
  read_u32 = first_long;
  read_raw_data = λ n s. (take n s, drop n s);
  skip_raw_data = drop;
  skip_negative = λ n s. s;
  at_end = λ s. length s == 0;
}

first_byte-fits : (s : List ℕ) → (first_byte s).0 < 256
first_byte-fits [] = omega arith
first_byte-fits (a ∷ r) = omega arith

-- A header that announces two points, and one of them.
abbrev short_file : List ℕ
short_file = replicate 16 32 ++ (0 ∷ 2 ∷ 0 ∷ 0 ∷ 0 ∷ 1 ∷ 0 ∷ 0 ∷ 1 ∷ 0 ∷ 2 ∷ 0 ∷ 64 ∷ 5 ∷ [])

default_palette_suffices_example :
    let l : Ildaloader = record {
      palette = default_palette true;
      true_colour = false;
      colour = [];
    } in
    (r : Section listed) × (read_frame_section listed false l short_file ≡ some r)
    × (r.loader.palette ≡ default_palette true)
    × (Option.map length r.frame ≡ (
        if (read_header listed short_file).0 == 0
        then none
        else some (read_header listed short_file).0))
default_palette_suffices_example =
    default_palette_suffices listed first_byte-fits true false [] short_file

first_byte-read :
    (s : List ℕ) (a : ℕ) (r : List ℕ)
    → a < 256
    → s ≡ a ∷ r
    → ((first_byte s).0 ≡ a) × ((first_byte s).1 ≡ r)
first_byte-read s a r h e = rw e (omega arith, refl)

first_word-read :
    (s : List ℕ) (a b : ℕ) (r : List ℕ)
    → s ≡ a ∷ b ∷ r
    → ((first_word s).0 ≡ a * 256 + b) × ((first_word s).1 ≡ r)
first_word-read s a b r e = rw e (refl, refl)

drop_all : (xs r : List ℕ) → drop (length xs) (xs ++ r) ≡ r
drop_all [] r = refl
drop_all (x ∷ xs) r = drop_all xs r

drop-append : (s : List ℕ) (n : ℕ) (xs r : List ℕ) → s ≡ xs ++ r → length xs ≡ n → drop n s ≡ r
drop-append s n xs r e l = ap (drop n) e ∙ ap (λ k. drop k (xs ++ r)) (sym l) ∙ drop_all xs r

listed-ReadsBytes : ReadsBytes listed
listed-ReadsBytes = record { u8 = first_byte-read; u16 = first_word-read; skipped = drop-append }

abbrev dot : IldaPoint
dot = record { x = 258; y = 772; z = 0; blanked = true; r = 9; g = 8; b = 7 }

dot-Fits : Fits dot
dot-Fits = record {
  x_fits = omega arith;
  y_fits = omega arith;
  z_fits = omega arith;
  r_fits = omega arith;
  g_fits = omega arith;
  b_fits = omega arith;
}

abbrev title : List ℕ
title = replicate 8 65

take_all : (xs r : List ℕ) → take (length xs) (xs ++ r) ≡ xs
take_all [] r = refl
take_all (x ∷ xs) r = ap (λ ys. x ∷ ys) (take_all xs r)

taken : (s : List ℕ) (n : ℕ) (xs r : List ℕ) → s ≡ xs ++ r → length xs ≡ n → take n s ≡ xs
taken s n xs r e l = ap (take n) e ∙ ap (λ k. take k (xs ++ r)) (sym l) ∙ take_all xs r

first_long-read :
    (s : List ℕ) (a b c d : ℕ) (r : List ℕ)
    → s ≡ a ∷ b ∷ c ∷ d ∷ r
    → ((first_long s).0 ≡ ((a * 256 + b) * 256 + c) * 256 + d) × ((first_long s).1 ≡ r)
first_long-read s a b c d r e = rw e (refl, refl)

not_empty : (s : List ℕ) (a : ℕ) (r : List ℕ) → s ≡ a ∷ r → length s == 0 ≡ false
not_empty s a r e = rw e (ground arith)

listed-ReadsFile : ReadsFile listed
listed-ReadsFile = record {
  raw = λ s n xs r e l. (taken s n xs r e l, drop-append s n xs r e l);
  u32 = first_long-read;
  not_at_end = not_empty;
}

abbrev flat_dot : Printed
flat_dot = record {
  is_3d = false;
  name = title;
  company = title;
  more = replicate 6 0;
  first = dot;
  others = [];
}

flat_dot-FitsFile : FitsFile flat_dot
flat_dot-FitsFile = record {
  name_length = refl;
  company_length = refl;
  more_length = refl;
  fits = (dot-Fits, _);
  flat = (refl, _);
}

-- Two frames make a sequence, in a rotator.
load-print_file_example :
    load listed 5 true false (print_file (flat_dot ∷ flat_dot ∷ []) (print_end title title []))
    ≡ some (record { error = 0; source = rotated ((dot ∷ []) ∷ (dot ∷ []) ∷ []) })
load-print_file_example =
    load-print_file listed listed-ReadsBytes listed-ReadsFile (flat_dot ∷ flat_dot ∷ []) 5 false
      (print_file (flat_dot ∷ flat_dot ∷ []) (print_end title title [])) title title []
      (flat_dot-FitsFile, (flat_dot-FitsFile, _)) refl refl refl (omega arith)
