-- ===== src/SourceTree/Position.antt =====
-- Where `addChild` of src/framesource_impl.cpp puts a child, and `deleteChild` behind it.
use lucifer.Prelude.{
  ℕ, ◌≤◌, ◌<◌, ◌≡◌, refl, sym, ap, subst, ◌∙◌, ◌⊎◌, inl, inr, true, false, some, arith, ltb, ◌==◌,
  lt→ltb, Bool-cases,
}
use lucifer.Prelude.Int.{pos}
use Prim.Native.String.{String}
use lucifer.SourceTree.Children.{
  num_children-insert_at, num_children-snoc, nth-append, erase_nth-append, nth-insert_at,
}
use lucifer.SourceTree.{
  num_children, insert_at, append, has_room, add_child, nth, erase_nth, delete_child, Classes,
  Source, node, Sources, nil, cons,
}

module _ (K : Classes) where
  abbrev pub children : Source K → Sources K
  children (node name own cs) = cs

  delete-inside :
      (i : ℕ) (name : String) (own : K.Own) (ds : Sources K)
      → i < num_children K ds
      → delete_child K i (node name own ds) ≡ some (node name own (erase_nth K i ds))
  unfolding delete_child
  delete-inside i name own ds h = rw (lt→ltb i (num_children K ds) h) refl

  -- The child at i, and the parent without it.
  Holds : ℕ → Source K → Source K → Source K → Type 0
  Holds i x p q = (nth K i (children q) ≡ some x) × (delete_child K i q ≡ some p)

  appended-Holds :
      (i : ℕ) (x : Source K) (name : String) (own : K.Own) (cs : Sources K)
      → i ≡ num_children K cs
      → Holds i x (node name own cs) (node name own (append K cs (cons x nil)))
  unfolding Holds
  appended-Holds i x name own cs e =
      subst (λ j. Holds j x (node name own cs) (node name own (append K cs (cons x nil)))) (sym e)
        (
          nth-append K cs x,
          delete-inside (num_children K cs) name own (append K cs (cons x nil))
                (omega (arith, num_children-snoc K cs x))
              ∙ ap (λ ds. some (node name own ds)) (erase_nth-append K cs x),
        )

  inserted-Holds :
      (i : ℕ) (x : Source K) (name : String) (own : K.Own) (cs : Sources K)
      → i ≤ num_children K cs
      → Holds i x (node name own cs) (node name own (insert_at K i x cs))
  unfolding Holds
  inserted-Holds i x name own cs h =
      let (there, back) = nth-insert_at K i x cs h in
      (
        there,
        delete-inside i name own (insert_at K i x cs)
              (omega (arith, num_children-insert_at K i x cs))
            ∙ ap (λ ds. some (node name own ds)) back,
      )

  add_child-cases :
      (i : ℕ) (x p : Source K)
      → ((add_child K x (pos i) p).0 ≡ false) ⊎ Holds i x p (add_child K x (pos i) p).1
  unfolding add_child
  add_child-cases i x (node name own cs) =
      elim (Bool-cases (has_room K (K.possible_children name) (num_children K cs))) [
        | inr full ↦ rw full (inl refl)
        | inl room ↦ elim (Bool-cases (ltb (num_children K cs) i)) [
          | inl past ↦ rw (room, past) (inl refl)
          | inr inside ↦ elim (Bool-cases (num_children K cs == 0)) [
            | inl no_child ↦
                rw (room, inside, no_child) (inr (appended-Holds i x name own cs (ground arith)))
            | inr some_child ↦
                rw (room, inside, some_child) (inr (inserted-Holds i x name own cs (ground arith)))
          ]
        ]
      ]

  -- When `addChild` adds a child at an index it is the child at that index, and `deleteChild` of
  -- the index gives the parent back as it was.
  pub delete-add_child :
      (i : ℕ) (x p : Source K)
      → (add_child K x (pos i) p).0 ≡ true
      → (nth K i (children (add_child K x (pos i) p).1) ≡ some x)
        × (delete_child K i (add_child K x (pos i) p).1 ≡ some p)
  unfolding Holds
  delete-add_child i x p added = elim (add_child-cases i x p) [ inl e ↦ cc | inr h ↦ h ]
