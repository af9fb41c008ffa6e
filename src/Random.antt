-- ===== src/Random.antt =====
-- `std::random_shuffle`, which the playback list and the frame sequencer call.

-- How often a value stands in a list.
use lucifer.Prelude.{
  ℕ, zero, suc, ◌+◌, ◌<◌, ◌≡◌, refl, some, List, [], ◌∷◌, ◌++◌, arith, dec_lt, ◌==◌, if◌then◌else◌,
  length, get_elem?, get_elem?-some,
}

abbrev pub count : ℕ → List ℕ → ℕ
count p [] = 0
count p (x ∷ xs) = if x == p then suc (count p xs) else count p xs

-- Its n-th call permutes its range, in a way that is not known.
pub record Random : Type 0 where
  pub random_shuffle : ℕ → List ℕ → List ℕ
  pub count-shuffle : (n p : ℕ) (xs : List ℕ) → count p (random_shuffle n xs) ≡ count p xs
  pub length-shuffle : (n : ℕ) (xs : List ℕ) → length (random_shuffle n xs) ≡ length xs

pub count-append : (p : ℕ) (xs ys : List ℕ) → count p (xs ++ ys) ≡ count p xs + count p ys
count-append p [] ys = omega arith
count-append p (x ∷ xs) ys = ground (arith, count-append p xs ys)

-- Every value of the list is below n.
abbrev pub Within : ℕ → List ℕ → Type 0
Within n xs = (p : ℕ) → 0 < count p xs → p < n

pub Within-append : (n : ℕ) (xs ys : List ℕ) → Within n xs → Within n ys → Within n (xs ++ ys)
Within-append n xs ys h k p c = elim (dec_lt 0 (count p xs)) [
  | yes q ↦ h p q
  | no q ↦ k p (omega (arith, count-append p xs ys))
]

pub Within-shuffle :
    (R : Random) (k n : ℕ) (xs : List ℕ) → Within n xs → Within n (R.random_shuffle k xs)
Within-shuffle R k n xs w p h = w p (omega (arith, R.count-shuffle k p xs))

count-get_elem? : (xs : List ℕ) (i v : ℕ) → get_elem? xs i ≡ some v → 0 < count v xs
count-get_elem? [] i v e = cc
count-get_elem? (x ∷ xs) zero v e = ground arith
count-get_elem? (x ∷ xs) (suc i) v e = ground (arith, count-get_elem? xs i v)

-- A read of such a list inside its bounds.
pub get_elem?-Within :
    (n : ℕ) (xs : List ℕ) (i : ℕ)
    → Within n xs
    → i < length xs
    → (v : ℕ) × (get_elem? xs i ≡ some v) × (v < n)
get_elem?-Within n xs i w h =
    let (v, e) = get_elem?-some xs i h in (v, e, w v (count-get_elem? xs i v e))

-- A value shows that the assumptions can be met.
abbrev pub identity_shuffle : Random
identity_shuffle = record {
  random_shuffle = λ n xs. xs;
  count-shuffle = λ n p xs. refl;
  length-shuffle = λ n xs. refl;
}
