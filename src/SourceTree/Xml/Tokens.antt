-- ===== src/SourceTree/Xml/Tokens.antt =====
-- What `loadFrames` of src/framesource_impl.cpp relies on in Qt's reader and in the classes, and
-- how it moves over tokens.
use lucifer.Prelude.{
  ℕ, zero, suc, ◌+◌, ◌^◌, ◌≤◌, ◌<◌, ◌≡◌, refl, ◌⊎◌, inl, inr, Bool, true, false, ◌||◌, some, List,
  [], ◌∷◌, ◌++◌, arith, if◌then◌else◌, Bool-cases, length, All, length-append,
}
use Prim.Native.String.{String}
use lucifer.SourceTree.{Classes}
use lucifer.SourceTree.Xml.{
  Attributes, is_start, seek_start, Format, Token, start_element, end_element, characters, other,
}

abbrev pub is_end : Token → Bool
is_end (end_element name) = true
is_end _ = false

-- What a writer puts between two tags to lay the text out.
abbrev pub IsBlank : Token → Type 0
IsBlank (start_element name attributes) = ⊥
IsBlank (end_element name) = ⊥
IsBlank _ = Unit

-- How a writer indents, with how many tokens at most.
pub record Layout : Type 0 where
  pub indent : ℕ → List Token
  pub width : ℕ
  pub blank : (depth : ℕ) → All IsBlank (indent depth)
  pub short : (depth : ℕ) → length (indent depth) ≤ width

abbrev pub IsNoStart : Token → Type 0
IsNoStart t = is_start t ≡ false

-- From the first tag on.
unfoldable pub to_tag : List Token → List Token
to_tag [] = []
to_tag (t ∷ ts) = if is_start t || is_end t then t ∷ ts else to_tag ts

-- The reader goes over a list of tokens, the current one in front; the load of a class gives back
-- what it saved, in front of a start element, and stays before it; numbers of children are read
-- back. `Restored` tells the data that the load of a class gives back.
pub record Reads (K : Classes) (F : Format K) : Type 1 where
  pub rest : F.State → List Token
  pub Restored : String → K.Own → Type 0
  pub seen : (s : F.State) (t : Token) (ts : List Token) → rest s ≡ t ∷ ts → F.token s ≡ t
  pub more :
      (s : F.State) (t : Token) (ts : List Token)
      → rest s ≡ t ∷ ts
      → 0 < length ts
      → F.at_end s ≡ false
  pub moved :
      (s : F.State) (t : Token) (ts : List Token)
      → rest s ≡ t ∷ ts
      → 0 < length ts
      → rest (F.read_next s) ≡ ts
  pub moved_to_tag :
      (s : F.State) (t : Token) (ts : List Token)
      → rest s ≡ t ∷ ts
      → 0 < length (to_tag ts)
      → rest (F.read_next_start_element s) ≡ to_tag ts
  pub number_back : (n : ℕ) → n < 2 ^ 31 → F.to_int (F.number n) ≡ n
  pub load_back :
      (indent : ℕ → List Token) (depth : ℕ) (name : String) (own fresh : K.Own) (s : F.State)
      (blank : List Token) (c : String) (attributes : Attributes) (ts : List Token)
      → ((d : ℕ) → All IsBlank (indent d))
      → All IsBlank blank
      → K.new_source name ≡ some fresh
      → Restored name own
      → rest s
        ≡ start_element name (("Description", F.description own) ∷ (F.save indent depth name own).0)
          ∷ ((F.save indent depth name own).1 ++ (blank ++ start_element c attributes ∷ ts))
      → ((F.load name (F.set_description (F.description own) fresh) s).0 ≡ own)
        × ((t : Token) × ((post : List Token) × (All IsNoStart post
                × ((length post ≤ length (F.save indent depth name own).1 + length blank)
                    × (rest (F.load name (F.set_description (F.description own) fresh) s).1
                        ≡ t ∷ (post ++ start_element c attributes ∷ ts))))))

-- A token that is no start, and if it is an end, one of "Children" or of a class.
abbrev pub IsInner : Classes → Token → Type 0
IsInner K (start_element name attributes) = ⊥
IsInner K (end_element name) =
    (name ≡ "Children") ⊎ ((own : K.Own) × (K.new_source name ≡ some own))
IsInner K _ = Unit

module _ (K : Classes) where
  pub Blank-Inner : (ts : List Token) → All IsBlank ts → All (IsInner K) ts
  Blank-Inner [] a = _
  Blank-Inner (start_element name attributes ∷ ts) a = absurd a.0
  Blank-Inner (end_element name ∷ ts) a = absurd a.0
  Blank-Inner (characters text ∷ ts) a = (_, Blank-Inner ts a.1)
  Blank-Inner (other ∷ ts) a = (_, Blank-Inner ts a.1)

  pub Inner-NoStart : (ts : List Token) → All (IsInner K) ts → All IsNoStart ts
  Inner-NoStart [] a = _
  Inner-NoStart (start_element name attributes ∷ ts) a = absurd a.0
  Inner-NoStart (end_element name ∷ ts) a = (refl, Inner-NoStart ts a.1)
  Inner-NoStart (characters text ∷ ts) a = (refl, Inner-NoStart ts a.1)
  Inner-NoStart (other ∷ ts) a = (refl, Inner-NoStart ts a.1)

  pub All-append :
      (ts us : List Token) → All (IsInner K) ts → All (IsInner K) us → All (IsInner K) (ts ++ us)
  All-append [] us a b = b
  All-append (t ∷ ts) us a b = (a.0, All-append ts us a.1 b)

  pub All-to_tag : (ts : List Token) → All (IsInner K) ts → All (IsInner K) (to_tag ts)
  unfolding to_tag
  All-to_tag [] a = _
  All-to_tag (t ∷ ts) a = elim (Bool-cases (is_start t || is_end t)) [
    | inl e ↦ rw e a
    | inr e ↦ rw e (All-to_tag ts a.1)
  ]

pub length-to_tag : (ts : List Token) → length (to_tag ts) ≤ length ts
unfolding to_tag
length-to_tag [] = omega arith
length-to_tag (t ∷ ts) = elim (Bool-cases (is_start t || is_end t)) [
  | inl e ↦ rw e (omega arith)
  | inr e ↦ rw e (omega (arith, length-to_tag ts))
]

pub to_tag-blank : (blank ts : List Token) → All IsBlank blank → to_tag (blank ++ ts) ≡ to_tag ts
unfolding to_tag
to_tag-blank [] ts a = refl
to_tag-blank (start_element name attributes ∷ blank) ts a = absurd a.0
to_tag-blank (end_element name ∷ blank) ts a = absurd a.0
to_tag-blank (characters text ∷ blank) ts a = to_tag-blank blank ts a.1
to_tag-blank (other ∷ blank) ts a = to_tag-blank blank ts a.1

-- A list that has a tag.
pub to_tag-append :
    (pre ts : List Token) → 0 < length (to_tag pre) → to_tag (pre ++ ts) ≡ to_tag pre ++ ts
unfolding to_tag
to_tag-append [] ts h = ground arith
to_tag-append (t ∷ pre) ts h = elim (Bool-cases (is_start t || is_end t)) [
  | inl e ↦ rw e refl
  | inr e ↦ rw e (to_tag-append pre ts (rw e at h))
]

pub to_tag-last :
    (us : List Token) (name : String) → 0 < length (to_tag (us ++ end_element name ∷ []))
unfolding to_tag
to_tag-last [] name = omega arith
to_tag-last (t ∷ us) name = elim (Bool-cases (is_start t || is_end t)) [
  | inl e ↦ rw e (omega arith)
  | inr e ↦ rw e (to_tag-last us name)
]

pub to_tag-here :
    (t : Token) (ts : List Token) → is_start t || is_end t ≡ true → to_tag (t ∷ ts) ≡ t ∷ ts
unfolding to_tag
to_tag-here t ts e = rw e refl

pub to_tag-other : (ts : List Token) → to_tag (other ∷ ts) ≡ to_tag ts
unfolding to_tag
to_tag-other ts = refl

-- What is left in front of a start element.
pub to_tag-start :
    (pre : List Token) (c : String) (attributes : Attributes) (ts : List Token)
    → All IsNoStart pre
    → (post : List Token) × (All IsNoStart post
        × ((length post ≤ length pre)
            × (to_tag (pre ++ start_element c attributes ∷ ts)
                ≡ post ++ start_element c attributes ∷ ts)))
unfolding to_tag
to_tag-start [] c attributes ts a = ([], (_, (omega arith, refl)))
to_tag-start (t ∷ pre) c attributes ts a = elim (Bool-cases (is_end t)) [
  | inl e ↦ (t ∷ pre, (a, (omega arith, rw (a.0, e) refl)))
  | inr e ↦
      let found = to_tag-start pre c attributes ts a.1 in
      (found.0, (found.1.0, (omega (arith, found.1.1.0), rw (a.0, e) (found.1.1.1))))
]

pub shorter : (pre : List Token) (t : Token) (ts : List Token) → 0 < length (pre ++ t ∷ ts)
shorter pre t ts = rw (length-append pre (t ∷ ts)) (omega arith)

module _ (K : Classes) (F : Format K) (L : Reads K F) where
  -- `seek_start` goes over tokens that are no start element, to one that is.
  pub seek_start-passes :
      (pre : List Token) (c : String) (attributes : Attributes) (ts : List Token) (fuel : ℕ)
      (s : F.State)
      → All IsNoStart pre
      → L.rest s ≡ pre ++ start_element c attributes ∷ ts
      → length pre < fuel
      → (s' : F.State) × ((seek_start K F fuel s ≡ some s')
          × (L.rest s' ≡ start_element c attributes ∷ ts))
  unfolding seek_start
  seek_start-passes pre c attributes ts zero s a r h = ground arith
  seek_start-passes [] c attributes ts (suc fuel) s a r h = (
    s,
    (
      elim (Bool-cases (F.at_end s)) [
        | inl e ↦ rw (seek_start, e) refl
        | inr e ↦ rw (seek_start, e, L.seen s (start_element c attributes) ts r) refl
      ],
      r,
    ),
  )
  seek_start-passes (t ∷ pre) c attributes ts (suc fuel) s a r h =
      let left = shorter pre (start_element c attributes) ts in
      let here = pre ++ start_element c attributes ∷ ts in
      let found =
        seek_start-passes pre c attributes ts fuel (F.read_next s) a.1 (L.moved s t here r left)
          (omega arith) in
      (
        found.0,
        (rw (seek_start, L.more s t here r left, L.seen s t here r, a.0) (found.1.0), found.1.1),
      )
