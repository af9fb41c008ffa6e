-- ===== src/SourceTree/Limits.antt =====
-- How many children the classes of src/framesource_impl.cpp allow, and the edits of a node.
use lucifer.Prelude.{
  ℕ, zero, suc, ◌≤◌, ◌≡◌, refl, ap, subst, ◌∙◌, inl, inr, Bool, true, Option, none, some, List, [],
  ◌∷◌, arith, ltb, leb, ◌==◌, Bool-cases, All,
}
use lucifer.Prelude.Int.{ℤ, pos, negsuc}
use lucifer.Prelude.Maybe.{◌>>=◌}
use Prim.Native.String.{String}
use lucifer.SourceTree.Children.{
  num_children-append, num_children-insert_at, num_children-erase_nth-le,
}
use lucifer.SourceTree.{
  num_children, insert_at, append, has_room, add_child, erase_nth, delete_child, Classes,
  PossibleChildren, childless, one, two, many, Source, node, Sources, nil, cons,
}

abbrev pub fits : PossibleChildren → ℕ → Bool
fits many n = true
fits one n = leb n 1
fits two n = leb n 2
fits childless n = n == 0

module _ (K : Classes) where
  -- No node has more children than its class allows.
  unfoldable mutual
    pub Limited : Source K → Type 0
    Limited (node name own cs) =
        (fits (K.possible_children name) (num_children K cs) ≡ true) × AllLimited cs

    pub AllLimited : Sources K → Type 0
    AllLimited nil = Unit
    AllLimited (cons c cs) = Limited c × AllLimited cs

  append-AllLimited :
      (cs ds : Sources K) → AllLimited cs → AllLimited ds → AllLimited (append K cs ds)
  unfolding append Limited
  append-AllLimited nil ds l m = m
  append-AllLimited (cons c cs) ds l m = (l.0, append-AllLimited cs ds l.1 m)

  insert_at-AllLimited :
      (i : ℕ) (x : Source K) (cs : Sources K)
      → Limited x
      → AllLimited cs
      → AllLimited (insert_at K i x cs)
  unfolding insert_at Limited
  insert_at-AllLimited zero x cs l m = (l, m)
  insert_at-AllLimited (suc i) x nil l m = (l, m)
  insert_at-AllLimited (suc i) x (cons c cs) l m = (m.0, insert_at-AllLimited i x cs l m.1)

  erase_nth-AllLimited : (i : ℕ) (cs : Sources K) → AllLimited cs → AllLimited (erase_nth K i cs)
  unfolding erase_nth Limited
  erase_nth-AllLimited i nil m = m
  erase_nth-AllLimited zero (cons c cs) m = m.1
  erase_nth-AllLimited (suc i) (cons c cs) m = (m.0, erase_nth-AllLimited i cs m.1)

  room-fits : (p : PossibleChildren) (n : ℕ) → has_room K p n ≡ true → fits p (suc n) ≡ true
  unfolding has_room
  room-fits childless n h = cc
  room-fits one n h = ground arith
  room-fits two n h = ground arith
  room-fits many n h = refl

  fewer-fits : (p : PossibleChildren) (m n : ℕ) → m ≤ n → fits p n ≡ true → fits p m ≡ true
  fewer-fits childless m n h e = ground arith
  fewer-fits one m n h e = ground arith
  fewer-fits two m n h e = ground arith
  fewer-fits many m n h e = refl

  one_more-Limited :
      (name : String) (own : K.Own) (cs ds : Sources K)
      → has_room K (K.possible_children name) (num_children K cs) ≡ true
      → num_children K ds ≡ suc (num_children K cs)
      → AllLimited ds
      → Limited (node name own ds)
  unfolding Limited
  one_more-Limited name own cs ds room more l = (
    ap (fits (K.possible_children name)) more
        ∙ room-fits (K.possible_children name) (num_children K cs) room,
    l,
  )

  appended-Limited :
      (x : Source K) (name : String) (own : K.Own) (cs : Sources K)
      → has_room K (K.possible_children name) (num_children K cs) ≡ true
      → Limited x
      → AllLimited cs
      → Limited (node name own (append K cs (cons x nil)))
  unfolding Limited num_children
  appended-Limited x name own cs room lx lcs =
      one_more-Limited name own cs (append K cs (cons x nil)) room
        (omega (arith, num_children-append K cs (cons x nil)))
        (append-AllLimited cs (cons x nil) lcs (lx, _))

  add_child-Limited :
      (x : Source K) (at : ℤ) (p : Source K)
      → Limited x
      → Limited p
      → Limited (add_child K x at p).1
  unfolding add_child Limited
  add_child-Limited x (negsuc k) (node name own cs) lx lp =
      elim (Bool-cases (has_room K (K.possible_children name) (num_children K cs))) [
        | inr full ↦ rw full lp
        | inl room ↦ rw room (appended-Limited x name own cs room lx lp.1)
      ]
  add_child-Limited x (pos i) (node name own cs) lx lp =
      elim (Bool-cases (has_room K (K.possible_children name) (num_children K cs))) [
        | inr full ↦ rw full lp
        | inl room ↦ elim (Bool-cases (ltb (num_children K cs) i)) [
          | inl past ↦ rw (room, past) lp
          | inr inside ↦ elim (Bool-cases (num_children K cs == 0)) [
            | inl no_child ↦
                rw (room, inside, no_child) (appended-Limited x name own cs room lx lp.1)
            | inr some_child ↦
                rw (room, inside, some_child)
                  (one_more-Limited name own cs (insert_at K i x cs) room
                    (num_children-insert_at K i x cs) (insert_at-AllLimited i x cs lx lp.1))
          ]
        ]
      ]

  abbrev IfLimited : Option (Source K) → Type 0
  IfLimited none = Unit
  IfLimited (some q) = Limited q

  delete_child-Limited : (i : ℕ) (p : Source K) → Limited p → IfLimited (delete_child K i p)
  unfolding delete_child Limited
  delete_child-Limited i (node name own cs) l = elim (Bool-cases (ltb i (num_children K cs))) [
    | inr past ↦ rw past _
    | inl inside ↦ rw inside (
      fewer-fits (K.possible_children name) (num_children K (erase_nth K i cs)) (num_children K cs)
          (num_children-erase_nth-le K i cs) l.0,
      erase_nth-AllLimited i cs l.1,
    )
  ]

  -- `addChild` and `deleteChild`, in any order.
  pub data Edit : Type 0 where
    adds : Source K → ℤ → Edit
    deletes : ℕ → Edit

  unfoldable pub edit : Edit → Source K → Option (Source K)
  unfolding add_child delete_child
  edit (adds x at) p = some (add_child K x at p).1
  edit (deletes i) p = delete_child K i p

  unfoldable pub edits : List Edit → Source K → Option (Source K)
  unfolding edit
  edits [] p = some p
  edits (e ∷ es) p = edit e p >>= edits es

  abbrev pub AddsLimited : Edit → Type 0
  AddsLimited (adds x at) = Limited x
  AddsLimited (deletes i) = Unit

  edit-IfLimited : (e : Edit) (p : Source K) → AddsLimited e → Limited p → IfLimited (edit e p)
  unfolding edit
  edit-IfLimited (adds x at) p a l = add_child-Limited x at p a l
  edit-IfLimited (deletes i) p a l = delete_child-Limited i p l

  bind-IfLimited :
      (o : Option (Source K)) (f : Source K → Option (Source K))
      → IfLimited o
      → ((q : Source K) → Limited q → IfLimited (f q))
      → IfLimited (o >>= f)
  bind-IfLimited none f l h = _
  bind-IfLimited (some q) f l h = h q l

  edits-IfLimited :
      (es : List Edit) (p : Source K) → All AddsLimited es → Limited p → IfLimited (edits es p)
  unfolding edits
  edits-IfLimited [] p a l = l
  edits-IfLimited (e ∷ es) p a l =
      bind-IfLimited (edit e p) (edits es) (edit-IfLimited e p a.0 l)
        (λ q m. edits-IfLimited es q a.1 m)

  -- However children are added to a node and deleted from it, if no assertion fails, no node of its
  -- tree has more children than its class allows, provided that this holds of what is added.
  pub edits_keep_limits :
      (es : List Edit) (p q : Source K)
      → All AddsLimited es
      → Limited p
      → edits es p ≡ some q
      → Limited q
  edits_keep_limits es p q a l e = subst IfLimited e (edits-IfLimited es p a l)
