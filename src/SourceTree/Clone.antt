-- ===== src/SourceTree/Clone.antt =====
-- `clone` of src/framesource_impl.cpp, for trees whose classes are registered.
use lucifer.Prelude.{ℕ, suc, ◌+◌, ◌≡◌, refl, sym, ap, ◌∙◌, true, Option, none, some, arith}
use lucifer.Prelude.Int.{negsuc}
use Prim.Native.String.{String}
use lucifer.Prelude.Maybe.{◌>>=◌}
use lucifer.SourceTree.Children.{num_children-snoc, append-append, append_nil}
use lucifer.SourceTree.{
  num_children, append, has_room, add_child, clone, clone_into, Classes, PossibleChildren,
  childless, one, two, many, Source, node, Sources, nil, cons,
}
use lucifer.SourceTree.Limits.{fits, Limited, AllLimited}

module _ (K : Classes) where
  -- Every class is registered.
  unfoldable mutual
    pub Known : Source K → Type 0
    Known (node name own cs) = ((f : K.Own) × (K.new_source name ≡ some f)) × AllKnown cs

    pub AllKnown : Sources K → Type 0
    AllKnown nil = Unit
    AllKnown (cons c cs) = Known c × AllKnown cs

  -- What `copyDataTo` makes of an object's data on a new object of its class.
  abbrev pub copied_own : String → K.Own → Option K.Own → K.Own
  copied_own name own none = own
  copied_own name own (some fresh) = K.copy_data_to name own fresh

  -- The tree in which the data of every node is copied.
  mutual
    pub copied : Source K → Source K
    copied (node name own cs) = node name (copied_own name own (K.new_source name)) (all_copied cs)

    pub all_copied : Sources K → Sources K
    all_copied nil = nil
    all_copied (cons c cs) = cons (copied c) (all_copied cs)

  pub fits-has_room :
      (p : PossibleChildren) (m n : ℕ) → fits p (m + suc n) ≡ true → has_room K p m ≡ true
  unfolding has_room
  fits-has_room childless m n h = ground arith
  fits-has_room one m n h = ground arith
  fits-has_room two m n h = ground arith
  fits-has_room many m n h = refl

  pub add_last :
      (x : Source K) (name : String) (own : K.Own) (cs : Sources K)
      → has_room K (K.possible_children name) (num_children K cs) ≡ true
      → (add_child K x (negsuc 0) (node name own cs)).1 ≡ node name own (append K cs (cons x nil))
  unfolding add_child
  add_last x name own cs room = rw room refl

  mutual
    unfolding clone Limited Known copied num_children append

    clone-copied : (t : Source K) → Known t → Limited K t → clone K t ≡ some (copied t)
    clone-copied (node name own cs) k l =
        let fresh = k.0.0 in
        rw (k.0.1) (
          clone_into-copied cs name (K.copy_data_to name own fresh) nil k.1 l.1
            (ap (fits (K.possible_children name)) (omega arith) ∙ l.0))

    clone_into-copied :
        (cs : Sources K) (name : String) (own : K.Own) (acc : Sources K)
        → AllKnown cs
        → AllLimited K cs
        → fits (K.possible_children name) (num_children K acc + num_children K cs) ≡ true
        → clone_into K cs (node name own acc) ≡ some (node name own (append K acc (all_copied cs)))
    clone_into-copied nil name own acc k l f =
        ap (λ ds. some (node name own ds)) (sym (append_nil K acc))
    clone_into-copied (cons c cs) name own acc k l f =
        let p = K.possible_children name in
        let room = fits-has_room p (num_children K acc) (num_children K cs) f in
        let one_more = append K acc (cons (copied c) nil) in
        ap (λ o. o >>= λ d. clone_into K cs (add_child K d (negsuc 0) (node name own acc)).1)
          (clone-copied c k.0 l.0)
        ∙ ap (clone_into K cs) (add_last (copied c) name own acc room)
        ∙ clone_into-copied cs name own one_more k.1 l.1
            (ap (fits p) (omega (arith, num_children-snoc K acc (copied c))) ∙ f)
        ∙ ap (λ ds. some (node name own ds))
            (append-append K acc (cons (copied c) nil) (all_copied cs))

  -- `clone` of a tree whose classes are registered, and whose nodes have no more children than
  -- their classes allow, is the tree of the same shape in which `copyDataTo` has copied the data of
  -- every node into a new object of its class.
  pub clone_copies_tree : (t : Source K) → Known t → Limited K t → clone K t ≡ some (copied t)
  clone_copies_tree t k l = clone-copied t k l
