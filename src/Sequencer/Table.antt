-- ===== src/Sequencer/Table.antt =====
-- The index tables that `reset_index` of src/framesequencer.cpp fills in, against closed forms.
use lucifer.Prelude.{
  ℕ, zero, suc, ◌+◌, ◌-◌, ◌%◌, ◌^◌, ◌≤◌, ◌<◌, ◌≡◌, refl, sym, ap, ◌∙◌, Bool, true, false, some,
  List, [], ◌∷◌, ◌++◌, arith, leb, length, length-append,
}
use lucifer.Prelude.Int.{pos, ◌+ℤ◌, minus_one}
use mathlib.Core.Option
use lucifer.Random.{Within, Within-append}
use lucifer.Sequencer.{table_size, fill, Mode, sequential, random, pingpong}

-- k, k - 1, ..., 0.
abbrev pub countdown : ℕ → List ℕ
countdown zero = 0 ∷ []
countdown (suc k) = suc k ∷ countdown k

-- i, i + 1, ..., in m steps.
abbrev pub count_from : ℕ → ℕ → List ℕ
count_from i zero = []
count_from i (suc m) = i ∷ count_from (suc i) m

abbrev last_child : ℕ → ℕ
last_child n = (n + 2 ^ 32 - 1) % 2 ^ 32

pos_pred : (k : ℕ) → pos (suc k) +ℤ minus_one ≡ pos k
unfolding ◌+ℤ◌
pos_pred k = ground arith

pos_succ : (k : ℕ) → pos k +ℤ pos 1 ≡ pos (suc k)
unfolding ◌+ℤ◌
pos_succ k = ground arith

fill_last :
    (n r i : ℕ) (down : Bool)
    → leb (last_child n) i ≡ true
    → fill n (suc zero) i (pos 0) down ≡ some (0 ∷ [])
unfolding fill ◌+ℤ◌
fill_last n r i down h = rw h

fill_down :
    (n r i k : ℕ) (down : Bool)
    → leb (last_child n) i ≡ true
    → suc k < 2 ^ 32
    → fill n (suc r) i (pos (suc k)) down
      ≡ Option.map (λ ks. suc k ∷ ks) (fill n r (i + 1) (pos k) true)
unfolding fill
fill_down n r i k down h b = let e : suc k % 2 ^ 32 ≡ suc k = omega arith in rw (h, pos_pred k, e)

fill_up :
    (n r i : ℕ)
    → leb (last_child n) i ≡ false
    → i < 2 ^ 32
    → fill n (suc r) i (pos i) false
      ≡ Option.map (λ ks. i ∷ ks) (fill n r (i + 1) (pos (suc i)) false)
unfolding fill
fill_up n r i h b = let e : i % 2 ^ 32 ≡ i = omega arith in rw (h, pos_succ i, e)

-- From the last child on the loop counts down.
fill-countdown :
    (n i k : ℕ) (down : Bool)
    → 0 < n
    → n < 2 ^ 31
    → n ≤ suc i
    → k < n
    → fill n (suc k) i (pos k) down ≡ some (countdown k)
fill-countdown n i zero down hn hn' hi hk = fill_last n 0 i down (ground arith)
fill-countdown n i (suc k) down hn hn' hi hk =
    fill_down n (suc k) i k down (ground arith) (omega arith)
    ∙ ap (Option.map (λ ks. suc k ∷ ks))
        (fill-countdown n (i + 1) k true hn hn' (omega arith) (omega arith))

-- Up to there it counts up: `m` rounds, then `r` more from the last child.
fill-count_from :
    (n m r q i j : ℕ) (rest : List ℕ)
    → i + m ≡ j
    → m + r ≡ q
    → suc j ≡ n
    → n < 2 ^ 31
    → fill n r j (pos j) false ≡ some rest
    → fill n q i (pos i) false ≡ some (count_from i m ++ rest)
fill-count_from n zero r q i j rest ij mq jn hn h =
    let e : q ≡ r = omega arith in let f : i ≡ j = omega arith in rw (e, f) h
fill-count_from n (suc m) r q i j rest ij mq jn hn h =
    let e : q ≡ suc (m + r) = omega arith in
    let f : i + 1 ≡ suc i = omega arith in
    let ih : fill n (m + r) (i + 1) (pos (suc i)) false ≡ some (count_from (suc i) m ++ rest) =
      rw f (fill-count_from n m r (m + r) (suc i) j rest (omega arith) refl jn hn h) in
    rw e (fill_up n (m + r) i (ground arith) (omega arith) ∙ ap (Option.map (λ ks. i ∷ ks)) ih)

fill_one :
    (n i k : ℕ) (down : Bool)
    → leb (last_child n) i ≡ true
    → k < 2 ^ 32
    → fill n 1 i (pos k) down ≡ some (k ∷ [])
unfolding fill
fill_one n i zero down h b = fill_last n 0 i down h
fill_one n i (suc k) down h b = fill_down n 0 i k down h b

count_from-snoc : (i m j : ℕ) → i + m ≡ j → count_from i m ++ j ∷ [] ≡ count_from i (suc m)
count_from-snoc i zero j e = let f : j ≡ i = omega arith in rw f
count_from-snoc i (suc m) j e = ap (◌∷◌ i) (count_from-snoc (suc i) m j (omega arith))

-- The table of the modes Sequential and Random lists the children in order.
pub fill-sequential :
    (n : ℕ) → n < 2 ^ 31 → fill n (table_size sequential n) 0 (pos 0) false ≡ some (count_from 0 n)
unfolding table_size fill
fill-sequential zero h = refl
fill-sequential (suc n) h =
    fill-count_from (suc n) n 1 (suc n) 0 n (n ∷ []) (omega arith) (omega arith) refl h
      (fill_one (suc n) n n false (ground arith) (omega arith))
    ∙ ap some (count_from-snoc 0 n n (omega arith))

-- For 1 to 2^31 - 1 children the table of the mode Pingpong goes up to the last child and back.
pub fill-pingpong :
    (n : ℕ)
    → suc n < 2 ^ 31
    → fill (suc n) (table_size pingpong (suc n)) 0 (pos 0) false
      ≡ some (count_from 0 n ++ countdown n)
unfolding table_size
fill-pingpong n h =
    fill-count_from (suc n) n (suc n) _ 0 n (countdown n) (omega arith) (omega arith) refl h
      (fill-countdown (suc n) n n false (omega arith) h (omega arith) (omega arith))

pub fill-random :
    (n : ℕ) → n < 2 ^ 31 → fill n (table_size random n) 0 (pos 0) false ≡ some (count_from 0 n)
unfolding table_size
fill-random n h = fill-sequential n h

pub length-count_from : (i m : ℕ) → length (count_from i m) ≡ m
length-count_from i zero = refl
length-count_from i (suc m) = ap suc (length-count_from (suc i) m)

pub length-countdown : (k : ℕ) → length (countdown k) ≡ suc k
length-countdown zero = refl
length-countdown (suc k) = ap suc (length-countdown k)

count_from-Within : (i m n : ℕ) → i + m ≤ n → Within n (count_from i m)
count_from-Within i zero n h p c = absurd (omega arith)
count_from-Within i (suc m) n h p c = ground (arith, count_from-Within (suc i) m n (omega arith) p)

countdown-Within : (k n : ℕ) → k < n → Within n (countdown k)
countdown-Within zero n h p c = ground arith
countdown-Within (suc k) n h p c = ground (arith, countdown-Within k n (omega arith) p)

-- What `reset_index` fills in for at least one child.
pub record Table (mode : Mode) (n : ℕ) (table : List ℕ) : Type 0 where
  pub sized : length table ≡ table_size mode n
  pub within : Within n table

table_size-pingpong : (n : ℕ) → suc n < 2 ^ 31 → table_size pingpong (suc n) ≡ n + suc n
unfolding table_size
table_size-pingpong n h = omega arith

pub table_size-random : (n : ℕ) → table_size random n ≡ n
unfolding table_size
table_size-random n = refl

pub table_size-sequential : (n : ℕ) → table_size sequential n ≡ n
unfolding table_size
table_size-sequential n = refl

-- For 1 to 2^31 - 1 children no assertion of `reset_index` fails, the table has its full size, and
-- every entry is the index of a child.
pub fill-Table :
    (mode : Mode) (n : ℕ)
    → 0 < n
    → n < 2 ^ 31
    → (table : List ℕ) × (fill n (table_size mode n) 0 (pos 0) false ≡ some table)
      × Table mode n table
fill-Table sequential n h b = (
  count_from 0 n,
  fill-sequential n b,
  record {
    sized = length-count_from 0 n ∙ sym (table_size-sequential n);
    within = count_from-Within 0 n n (omega arith);
  },
)
fill-Table random n h b = (
  count_from 0 n,
  fill-random n b,
  record {
    sized = length-count_from 0 n ∙ sym (table_size-random n);
    within = count_from-Within 0 n n (omega arith);
  },
)
fill-Table pingpong zero h b = elim h [ ]
fill-Table pingpong (suc n) h b = (
  count_from 0 n ++ countdown n,
  fill-pingpong n b,
  record {
    sized = omega (
      arith,
      length-append (count_from 0 n) (countdown n),
      length-count_from 0 n,
      length-countdown n,
      table_size-pingpong n b,
    );
    within =
        Within-append (suc n) (count_from 0 n) (countdown n)
          (count_from-Within 0 n (suc n) (omega arith)) (countdown-Within n (suc n) (omega arith));
  },
)
