-- ===== src/SourceTree/Children.antt =====
-- The lists of children of src/framesource_impl.cpp: how many, and which where.
use lucifer.Prelude.{ℕ, zero, suc, ◌+◌, ◌≤◌, ◌≡◌, refl, ap, some, arith}
use lucifer.SourceTree.{
  num_children, insert_at, append, nth, erase_nth, Classes, Source, Sources, nil, cons,
}

module _ (K : Classes) where
  pub num_children-append :
      (cs ds : Sources K) → num_children K (append K cs ds) ≡ num_children K cs + num_children K ds
  unfolding num_children append
  num_children-append nil ds = omega arith
  num_children-append (cons c cs) ds = omega (arith, num_children-append cs ds)

  pub num_children-insert_at :
      (i : ℕ) (x : Source K) (cs : Sources K)
      → num_children K (insert_at K i x cs) ≡ suc (num_children K cs)
  unfolding num_children insert_at
  num_children-insert_at zero x cs = refl
  num_children-insert_at (suc i) x nil = refl
  num_children-insert_at (suc i) x (cons c cs) = ap suc (num_children-insert_at i x cs)

  pub num_children-erase_nth-le :
      (i : ℕ) (cs : Sources K) → num_children K (erase_nth K i cs) ≤ num_children K cs
  unfolding num_children erase_nth
  num_children-erase_nth-le i nil = omega arith
  num_children-erase_nth-le zero (cons c cs) = omega arith
  num_children-erase_nth-le (suc i) (cons c cs) = omega (arith, num_children-erase_nth-le i cs)

  pub num_children-snoc :
      (cs : Sources K) (x : Source K)
      → num_children K (append K cs (cons x nil)) ≡ suc (num_children K cs)
  unfolding num_children append
  num_children-snoc nil x = refl
  num_children-snoc (cons c cs) x = ap suc (num_children-snoc cs x)

  pub nth-append :
      (cs : Sources K) (x : Source K)
      → nth K (num_children K cs) (append K cs (cons x nil)) ≡ some x
  unfolding nth append num_children
  nth-append nil x = refl
  nth-append (cons c cs) x = nth-append cs x

  pub erase_nth-append :
      (cs : Sources K) (x : Source K)
      → erase_nth K (num_children K cs) (append K cs (cons x nil)) ≡ cs
  unfolding erase_nth append num_children
  erase_nth-append nil x = refl
  erase_nth-append (cons c cs) x = ap (cons c) (erase_nth-append cs x)

  pub nth-insert_at :
      (i : ℕ) (x : Source K) (cs : Sources K)
      → i ≤ num_children K cs
      → (nth K i (insert_at K i x cs) ≡ some x) × (erase_nth K i (insert_at K i x cs) ≡ cs)
  unfolding nth insert_at erase_nth num_children
  nth-insert_at zero x cs h = (refl, refl)
  nth-insert_at (suc i) x nil h = absurd (omega arith)
  nth-insert_at (suc i) x (cons c cs) h =
      let (there, back) = nth-insert_at i x cs (omega arith) in (there, ap (cons c) back)

  pub append-append :
      (xs bs cs : Sources K) → append K (append K xs bs) cs ≡ append K xs (append K bs cs)
  unfolding append
  append-append nil bs cs = refl
  append-append (cons a xs) bs cs = ap (cons a) (append-append xs bs cs)

  pub append_nil : (xs : Sources K) → append K xs nil ≡ xs
  unfolding append
  append_nil nil = refl
  append_nil (cons a xs) = ap (cons a) (append_nil xs)
