-- ===== src/Ilda/File/Whole.antt =====
-- Whole files of the types 4 and 5, printed and loaded by `load` of src/loadilda.cpp.
use lucifer.Prelude.{
  ℕ, zero, suc, ◌+◌, ◌*◌, ◌≤◌, ◌≡◌, refl, sym, ap, ◌∙◌, inl, inr, Bool, true, false, ◌||◌, Option,
  none, some, List, [], ◌∷◌, ◌++◌, map, append-nil, append_assoc, arith, ◌==◌, if◌then◌else◌,
  Bool-cases, length, All,
}
use lucifer.Prelude.Maybe.{◌>>=◌}
use lucifer.StaticFrame.{IldaPoint}
use lucifer.StaticFrame.Codec.{Fits}
use lucifer.Ilda.{default_palette, read_header, read_format5, DataStream}
use lucifer.Ilda.Sections.{print_section, read_format5-print, ReadsBytes}
use lucifer.Ilda.File.{
  Frame, Found, add_frame, add_found, source_of, ilda, is_none, read_rgb, read_section, read_round,
  continues, load_loop, conclude, load, Loading, Loaded, nothing, single, rotated,
}

-- More of what the stream reads of the bytes in front.
pub record ReadsFile (D : DataStream) : Type 0 where
  pub raw :
      (s : D.State) (n : ℕ) (xs r : List ℕ)
      → D.bytes s ≡ xs ++ r
      → length xs ≡ n
      → ((D.read_raw_data n s).0 ≡ xs) × (D.bytes (D.read_raw_data n s).1 ≡ r)
  pub u32 :
      (s : D.State) (a b c d : ℕ) (r : List ℕ)
      → D.bytes s ≡ a ∷ b ∷ c ∷ d ∷ r
      → ((D.read_u32 s).0 ≡ ((a * 256 + b) * 256 + c) * 256 + d) × (D.bytes (D.read_u32 s).1 ≡ r)
  pub not_at_end : (s : D.State) (a : ℕ) (r : List ℕ) → D.bytes s ≡ a ∷ r → D.at_end s ≡ false

-- A section with points: its type, its names, the bytes behind the count, and its points.
pub record Printed : Type 0 where
  pub is_3d : Bool
  pub name : List ℕ
  pub company : List ℕ
  pub more : List ℕ
  pub first : IldaPoint
  pub others : List IldaPoint

abbrev pub frame_of : Printed → Frame
frame_of p = p.first ∷ p.others

pub record FitsFile (p : Printed) : Type 0 where
  pub name_length : length p.name ≡ 8
  pub company_length : length p.company ≡ 8
  pub more_length : length p.more ≡ 6
  pub fits : All Fits (frame_of p)
  pub flat : All (λ q. p.is_3d || q.z == 0 ≡ true) (frame_of p)

abbrev pub type_of : Bool → ℕ
type_of is_3d = if is_3d then 4 else 5

abbrev pub print_file : List Printed → List ℕ → List ℕ
print_file [] rest = rest
print_file (p ∷ ps) rest =
    73
    ∷ 76
    ∷ 68
    ∷ 65
    ∷ 0
    ∷ 0
    ∷ 0
    ∷ type_of p.is_3d
    ∷ print_section p.is_3d p.name p.company p.more (frame_of p) (print_file ps rest)

-- The header without points that closes a file.
abbrev pub print_end : List ℕ → List ℕ → List ℕ → List ℕ
print_end name company rest =
    73 ∷ 76 ∷ 68 ∷ 65 ∷ 0 ∷ 0 ∷ 0 ∷ 4 ∷ (name ++ (company ++ 0 ∷ 0 ∷ rest))

-- What a list of frames is loaded as.
abbrev pub loaded : List Frame → Loaded
loaded [] = nothing
loaded (f ∷ []) = single f
loaded (f ∷ g ∷ fs) = rotated (f ∷ g ∷ fs)

abbrev shape : List Frame → Found
shape [] = (none, none)
shape (f ∷ []) = (some f, none)
shape (f ∷ g ∷ fs) = (some f, some (f ∷ g ∷ fs))

add_frame-shape : (f : Frame) (fs : List Frame) → add_frame f (shape fs) ≡ shape (fs ++ f ∷ [])
add_frame-shape f [] = refl
add_frame-shape f (g ∷ []) = refl
add_frame-shape f (g ∷ h ∷ fs) = refl

source_of-shape : (fs : List Frame) → source_of (shape fs) ≡ loaded fs
source_of-shape [] = refl
source_of-shape (f ∷ []) = refl
source_of-shape (f ∷ g ∷ fs) = refl

module _ (D : DataStream) (laws : ReadsBytes D) (more_laws : ReadsFile D) where
  -- Behind the type of the section in front.
  behind : D.State → D.State
  behind s = (D.read_u32 (D.read_raw_data 4 s).1).1

  round_of_type :
      (L : Loading D) (k : ℕ) (r : List ℕ)
      → D.bytes L.stream ≡ 73 ∷ 76 ∷ 68 ∷ 65 ∷ 0 ∷ 0 ∷ 0 ∷ k ∷ r
      → (read_round D L ≡ read_section D k L (behind L.stream)) × (D.bytes (behind L.stream) ≡ r)
  unfolding read_round behind
  round_of_type L k r e =
      let (tag, e1) = more_laws.raw L.stream 4 ilda (0 ∷ 0 ∷ 0 ∷ k ∷ r) e refl in
      let (type, e2) = more_laws.u32 (D.read_raw_data 4 L.stream).1 0 0 0 k r e1 in
      let format : (D.read_u32 (D.read_raw_data 4 L.stream).1).0 ≡ k = omega (arith, type) in
      (rw (tag, format) refl, e2)

  rgb_round :
      (is_3d : Bool) (L : Loading D) (s : D.State)
      → read_section D (type_of is_3d) L s ≡ some (read_rgb D is_3d L s)
  unfolding read_section
  rgb_round true L s = refl
  rgb_round false L s = refl

  goes_on :
      (L : Loading D) (a : ℕ) (r : List ℕ)
      → D.bytes L.stream ≡ a ∷ r
      → L.eof ≡ false
      → continues D L ≡ true
  unfolding continues
  goes_on L a r e going = rw (more_laws.not_at_end L.stream a r e, going) refl

  stops : (L : Loading D) → L.eof ≡ true → continues D L ≡ false
  unfolding continues
  stops L over = elim (Bool-cases (D.at_end L.stream)) [
    | inl e ↦ rw e refl
    | inr e ↦ rw (e, over) refl
  ]

  loop_step :
      (fuel : ℕ) (L : Loading D)
      → continues D L ≡ true
      → load_loop D (suc fuel) L ≡ (read_round D L >>= load_loop D fuel)
  unfolding load_loop
  loop_step fuel L e = rw (load_loop, e) refl

  loop_end : (fuel : ℕ) (L : Loading D) → continues D L ≡ false → load_loop D (suc fuel) L ≡ some L
  unfolding load_loop
  loop_end fuel L e = rw (load_loop, e) refl

  no_points :
      (s : D.State) (name company rest : List ℕ)
      → length name ≡ 8
      → length company ≡ 8
      → D.bytes s ≡ name ++ (company ++ 0 ∷ 0 ∷ rest)
      → (read_format5 D true s).0 ≡ none
  unfolding read_format5 read_header
  no_points s name company rest n c e =
      let s1 = D.skip_raw_data 8 s in
      let e1 = laws.skipped s 8 name (company ++ 0 ∷ 0 ∷ rest) e n in
      let e2 = laws.skipped s1 8 company (0 ∷ 0 ∷ rest) e1 c in
      let count = (laws.u16 (D.skip_raw_data 8 s1) 0 0 rest e2).0 in
      let zero_points : (D.read_u16 (D.skip_raw_data 8 s1)).0 ≡ 0 = omega (arith, count) in
      rw zero_points refl

  Concludes : Option (Loading D) → List Frame → Type 0
  Concludes o fs = (o >>= conclude D) ≡ some (record { error = 0; source = loaded fs })

  round_into :
      (is_3d : Bool) (fuel : ℕ) (L : Loading D) (r : List ℕ)
      → D.bytes L.stream ≡ 73 ∷ 76 ∷ 68 ∷ 65 ∷ 0 ∷ 0 ∷ 0 ∷ type_of is_3d ∷ r
      → L.eof ≡ false
      → load_loop D (suc fuel) L ≡ load_loop D fuel (read_rgb D is_3d L (behind L.stream))
  round_into is_3d fuel L r e going =
      let (round, left) = round_of_type L (type_of is_3d) r e in
      loop_step fuel L (goes_on L 73 (76 ∷ 68 ∷ 65 ∷ 0 ∷ 0 ∷ 0 ∷ type_of is_3d ∷ r) e going)
      ∙ ap (λ o. o >>= load_loop D fuel) (round ∙ rgb_round is_3d L (behind L.stream))

  end-Concludes :
      (fuel : ℕ) (L : Loading D) (fs : List Frame) (name company rest : List ℕ)
      → length name ≡ 8
      → length company ≡ 8
      → L.eof ≡ false
      → L.error ≡ 0
      → L.found ≡ shape fs
      → D.bytes L.stream ≡ print_end name company rest
      → Concludes (load_loop D (suc (suc fuel)) L) fs
  unfolding Concludes
  end-Concludes fuel L fs name company rest n c going fine found e =
      let r = name ++ (company ++ 0 ∷ 0 ∷ rest) in
      let (round, left) = round_of_type L 4 r e in
      let none_read = no_points (behind L.stream) name company rest n c left in
      let L2 = read_rgb D true L (behind L.stream) in
      let same : L2.found ≡ shape fs = ap (λ o. add_found o L.found) none_read ∙ found in
      ap (λ o. o >>= conclude D)
        (round_into true (suc fuel) L r e going
          ∙ loop_end fuel L2 (stops L2 (ap is_none none_read)))
      ∙ λ i. some (record { error = fine i; source = (ap source_of same ∙ source_of-shape fs) i })

  sections-Conclude :
      (ps : List Printed) (fuel : ℕ) (L : Loading D) (fs : List Frame) (name company rest : List ℕ)
      → All FitsFile ps
      → length name ≡ 8
      → length company ≡ 8
      → L.eof ≡ false
      → L.error ≡ 0
      → L.found ≡ shape fs
      → D.bytes L.stream ≡ print_file ps (print_end name company rest)
      → length ps + 2 ≤ fuel
      → Concludes (load_loop D fuel L) (fs ++ map frame_of ps)
  unfolding Concludes
  sections-Conclude ps zero L fs name company rest a n c going fine found e h = ground arith
  sections-Conclude ps (suc zero) L fs name company rest a n c going fine found e h = ground arith
  sections-Conclude [] (suc (suc fuel)) L fs name company rest a n c going fine found e h =
      end-Concludes fuel L fs name company rest n c going fine found e
      ∙ ap (λ gs. some (record { error = 0; source = loaded gs })) (sym (append-nil fs))
  sections-Conclude (p ∷ ps) (suc (suc fuel)) L fs name company rest a n c going fine found e h =
      let fits = a.0 in
      let later = print_file ps (print_end name company rest) in
      let section = print_section p.is_3d p.name p.company p.more (frame_of p) later in
      let (round, left) = round_of_type L (type_of p.is_3d) section e in
      let (read, e2) =
        read_format5-print D laws p.is_3d p.name p.company p.more p.first p.others later
          (behind L.stream) fits.name_length fits.company_length fits.more_length fits.fits
          fits.flat left in
      let L2 = read_rgb D p.is_3d L (behind L.stream) in
      let added : L2.found ≡ shape (fs ++ frame_of p ∷ []) =
        ap (λ o. add_found o L.found) read
        ∙ ap (add_frame (frame_of p)) found
        ∙ add_frame-shape (frame_of p) fs in
      ap (λ o. o >>= conclude D) (round_into p.is_3d (suc fuel) L section e going)
      ∙ sections-Conclude ps (suc fuel) L2 (fs ++ frame_of p ∷ []) name company rest a.1 n c
          (ap is_none read) fine added e2 (omega arith)
      ∙ ap (λ gs. some (record { error = 0; source = loaded gs }))
          (append_assoc fs (frame_of p ∷ []) (map frame_of ps))

  -- A file of sections of the types 4 and 5 that have points, whose numbers fit their types and
  -- whose z is 0 where they are flat, and of a header without points behind them is loaded without
  -- an error, whatever comes behind it: as no source if there is no section, as the static frame of
  -- the only section, or as a colour rotator over a sequencer of the frames in their order. Two
  -- rounds more than there are sections are enough.
  pub load-print_file :
      (ps : List Printed) (fuel : ℕ) (pangolin : Bool) (s : D.State) (name company rest : List ℕ)
      → All FitsFile ps
      → length name ≡ 8
      → length company ≡ 8
      → D.bytes s ≡ print_file ps (print_end name company rest)
      → length ps + 2 ≤ fuel
      → load D fuel true pangolin s ≡ some (record { error = 0; source = loaded (map frame_of ps) })
  unfolding load Concludes
  load-print_file ps fuel pangolin s name company rest a n c e h =
      sections-Conclude ps fuel
        (record {
          loader = record { palette = default_palette pangolin; true_colour = false; colour = [] };
          found = (none, none);
          error = 0;
          eof = false;
          stream = s;
        })
        [] name company rest a n c refl refl refl e h
