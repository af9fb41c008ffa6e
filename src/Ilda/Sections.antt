-- ===== src/Ilda/Sections.antt =====
-- The sections of the types 4 and 5 in src/loadilda.cpp (`readFormat5`), against a printer.
use lucifer.Prelude.{
  ℕ, ◌+◌, ◌*◌, ◌/◌, ◌%◌, ◌<◌, ◌≡◌, refl, ap, ap₂, ◌∙◌, Bool, true, false, ◌||◌, some, List, [], ◌∷◌,
  ◌++◌, arith, ◌==◌, if◌then◌else◌, length, All,
}
use lucifer.StaticFrame.{network_order, IldaPoint}
use lucifer.StaticFrame.Codec.{Fits}
use lucifer.Ilda.{
  read_header, read_place, is_blanked, read_rgb_point, read_rgb_points, read_format5, DataStream,
}

-- The bytes of one point.
abbrev pub print_point : Bool → IldaPoint → List ℕ → List ℕ
print_point is_3d p rest =
    let colours = (if p.blanked then 64 else 0) ∷ p.b ∷ p.g ∷ p.r ∷ rest in
    network_order p.x (network_order p.y (if is_3d then network_order p.z colours else colours))

abbrev pub print_points : Bool → List IldaPoint → List ℕ → List ℕ
print_points is_3d [] rest = rest
print_points is_3d (p ∷ ps) rest = print_point is_3d p (print_points is_3d ps rest)

-- A section behind its type: two names, the count, six more bytes, the points.
abbrev pub print_section : Bool → List ℕ → List ℕ → List ℕ → List IldaPoint → List ℕ → List ℕ
print_section is_3d name company more ps rest =
    name ++ (company ++ network_order (length ps) (more ++ print_points is_3d ps rest))

-- The stream reads the bytes in front.
pub record ReadsBytes (D : DataStream) : Type 0 where
  pub u8 :
      (s : D.State) (a : ℕ) (r : List ℕ)
      → a < 256
      → D.bytes s ≡ a ∷ r
      → ((D.read_u8 s).0 ≡ a) × (D.bytes (D.read_u8 s).1 ≡ r)
  pub u16 :
      (s : D.State) (a b : ℕ) (r : List ℕ)
      → D.bytes s ≡ a ∷ b ∷ r
      → ((D.read_u16 s).0 ≡ a * 256 + b) × (D.bytes (D.read_u16 s).1 ≡ r)
  pub skipped :
      (s : D.State) (n : ℕ) (xs r : List ℕ)
      → D.bytes s ≡ xs ++ r
      → length xs ≡ n
      → D.bytes (D.skip_raw_data n s) ≡ r

module _ (D : DataStream) (laws : ReadsBytes D) where
  word :
      (s : D.State) (u : ℕ) (r : List ℕ)
      → D.bytes s ≡ network_order u r
      → ((D.read_u16 s).0 ≡ u) × (D.bytes (D.read_u16 s).1 ≡ r)
  word s u r e = let (v, left) = laws.u16 s (u / 256) (u % 256) r e in (omega (arith, v), left)

  place-read :
      (is_3d : Bool) (p : IldaPoint) (r : List ℕ) (s : D.State)
      → is_3d || p.z == 0 ≡ true
      → D.bytes s ≡ network_order p.x (network_order p.y (if is_3d then network_order p.z r else r))
      → ((read_place D is_3d s).0 ≡ record { x = p.x; y = p.y; z = p.z })
        × (D.bytes (read_place D is_3d s).1 ≡ r)
  unfolding read_place
  place-read true p r s flat e =
      let (x, e1) = word s p.x _ e in
      let (y, e2) = word (D.read_u16 s).1 p.y _ e1 in
      let (z, e3) = word (D.read_u16 (D.read_u16 s).1).1 p.z _ e2 in
      (λ i. record { x = x i; y = y i; z = z i }, e3)
  place-read false p r s flat e =
      let (x, e1) = word s p.x _ e in
      let (y, e2) = word (D.read_u16 s).1 p.y _ e1 in
      let z : 0 ≡ p.z = ground arith in (λ i. record { x = x i; y = y i; z = z i }, e2)

  mark_fits : (b : Bool) → (if b then 64 else 0) < 256
  mark_fits true = omega arith
  mark_fits false = omega arith

  blank : (b : Bool) → is_blanked D (if b then 64 else 0) ≡ b
  blank true = refl
  blank false = refl

  point-read :
      (is_3d : Bool) (p : IldaPoint) (r : List ℕ) (s : D.State)
      → Fits p
      → is_3d || p.z == 0 ≡ true
      → D.bytes s ≡ print_point is_3d p r
      → ((read_rgb_point D is_3d s).0 ≡ p) × (D.bytes (read_rgb_point D is_3d s).1 ≡ r)
  unfolding read_rgb_point
  point-read is_3d p r s fits flat e =
      let mark = if p.blanked then 64 else 0 in
      let (place, e1) = place-read is_3d p (mark ∷ p.b ∷ p.g ∷ p.r ∷ r) s flat e in
      let s1 = (read_place D is_3d s).1 in
      let (state, e2) = laws.u8 s1 mark (p.b ∷ p.g ∷ p.r ∷ r) (mark_fits p.blanked) e1 in
      let s2 = (D.read_u8 s1).1 in
      let (b, e3) = laws.u8 s2 p.b (p.g ∷ p.r ∷ r) fits.b_fits e2 in
      let s3 = (D.read_u8 s2).1 in
      let (g, e4) = laws.u8 s3 p.g (p.r ∷ r) fits.g_fits e3 in
      let s4 = (D.read_u8 s3).1 in
      let (red, e5) = laws.u8 s4 p.r r fits.r_fits e4 in
      (
        λ i. record {
          x = (place i).x;
          y = (place i).y;
          z = (place i).z;
          blanked = (ap (is_blanked D) state ∙ blank p.blanked) i;
          r = red i;
          g = g i;
          b = b i;
        },
        e5,
      )

  points-read :
      (is_3d : Bool) (ps : List IldaPoint) (r : List ℕ) (s : D.State)
      → All Fits ps
      → All (λ p. is_3d || p.z == 0 ≡ true) ps
      → D.bytes s ≡ print_points is_3d ps r
      → ((read_rgb_points D is_3d (length ps) s).0 ≡ ps)
        × (D.bytes (read_rgb_points D is_3d (length ps) s).1 ≡ r)
  unfolding read_rgb_points
  points-read is_3d [] r s fits flat e = (refl, e)
  points-read is_3d (p ∷ ps) r s fits flat e =
      let (first, e1) = point-read is_3d p (print_points is_3d ps r) s fits.0 flat.0 e in
      let (rest, e2) = points-read is_3d ps r (read_rgb_point D is_3d s).1 fits.1 flat.1 e1 in
      (ap₂ (λ q qs. q ∷ qs) first rest, e2)

  with_points :
      (is_3d : Bool) (s : D.State) (n : ℕ)
      → (read_header D s).0 ≡ n
      → 0 < n
      → read_format5 D is_3d s ≡ (
        some (read_rgb_points D is_3d n (read_header D s).1).0,
        (read_rgb_points D is_3d n (read_header D s).1).1,
      )
  unfolding read_format5
  with_points is_3d s n e h = let nonzero : n == 0 ≡ false = ground arith in rw (e, nonzero) refl

  -- From a stream that reads its bytes as `ReadsBytes` says, `readFormat5` reads back the points of
  -- a section that is printed, and no byte behind it, if it has points, their numbers fit their
  -- types and, when it is flat, their z is 0.
  pub read_format5-print :
      (is_3d : Bool) (name company more : List ℕ) (p : IldaPoint) (ps : List IldaPoint) (r : List ℕ)
      (s : D.State)
      → length name ≡ 8
      → length company ≡ 8
      → length more ≡ 6
      → All Fits (p ∷ ps)
      → All (λ q. is_3d || q.z == 0 ≡ true) (p ∷ ps)
      → D.bytes s ≡ print_section is_3d name company more (p ∷ ps) r
      → ((read_format5 D is_3d s).0 ≡ some (p ∷ ps)) × (D.bytes (read_format5 D is_3d s).1 ≡ r)
  unfolding read_header
  read_format5-print is_3d name company more p ps r s n c m fits flat e =
      let points = print_points is_3d (p ∷ ps) r in
      let behind = network_order (length (p ∷ ps)) (more ++ points) in
      let s1 = D.skip_raw_data 8 s in
      let e1 = laws.skipped s 8 name (company ++ behind) e n in
      let s2 = D.skip_raw_data 8 s1 in
      let e2 = laws.skipped s1 8 company behind e1 c in
      let (count, e3) = word s2 (length (p ∷ ps)) (more ++ points) e2 in
      let s3 = D.skip_raw_data 6 (D.read_u16 s2).1 in
      let e4 = laws.skipped (D.read_u16 s2).1 6 more points e3 m in
      let (read, left) = points-read is_3d (p ∷ ps) r s3 fits flat e4 in
      rw (with_points is_3d s (length (p ∷ ps)) count (omega arith)) (ap some read, left)
