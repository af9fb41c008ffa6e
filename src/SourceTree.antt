-- ===== src/SourceTree.antt =====
-- framesource_impl.cpp and framesource_impl.h: the trees of frame sources and of their playbacks.
-- An object is a node with the name of its class, what it has of its own, and its children.
pub mod Children
pub mod Limits
pub mod Position
pub mod Clone
pub mod Playing
pub mod Xml
mod Tests
use lucifer.Prelude.{ℕ, zero, suc, Bool, true, false, Option, none, some, ltb, ◌==◌, if◌then◌else◌}
use lucifer.Prelude.Int.{ℤ, pos, negsuc}
use Prim.Native.String.{String}
use lucifer.Prelude.Maybe.{◌>>=◌}

pub data PossibleChildren : Type 0 where
  childless one two many : PossibleChildren

-- The members that a class has for its own: `newSource` of its name, its constructor's limit,
-- `copyDataTo` and `newPlayback`. `Own` is an object's data, its description among them.
pub record Classes : Type 1 where
  pub Own : Type 0
  pub OwnPlayback : Type 0
  pub new_source : String → Option Own
  pub possible_children : String → PossibleChildren
  pub copy_data_to : String → Own → Own → Own
  pub new_playback : String → Own → OwnPlayback

module _ (K : Classes) where
  mutual
    pub data Source : Type 0 where
      node : String → K.Own → Sources → Source

    pub data Sources : Type 0 where
      nil : Sources
      cons : Source → Sources → Sources

  unfoldable pub num_children : Sources → ℕ
  num_children nil = 0
  num_children (cons c cs) = suc (num_children cs)

  -- `children.insert`.
  pub insert_at : ℕ → Source → Sources → Sources
  insert_at zero x cs = cons x cs
  insert_at (suc i) x nil = cons x nil
  insert_at (suc i) x (cons c cs) = cons c (insert_at i x cs)

  pub append : Sources → Sources → Sources
  append nil ds = ds
  append (cons c cs) ds = cons c (append cs ds)

  -- Whether one child more is possible.
  pub has_room : PossibleChildren → ℕ → Bool
  has_room many n = true
  has_room one n = n == 0
  has_room two n = ltb n 2
  has_room childless n = false

  abbrev pub place_child : ℤ → Source → Sources → Option Sources
  place_child (negsuc i) x cs = some (append cs (cons x nil))
  place_child (pos i) x cs =
      if ltb (num_children cs) i
      then none
      else some (if num_children cs == 0 then append cs (cons x nil) else insert_at i x cs)

  -- `addChild`: whether it did, and the parent.
  pub add_child : Source → ℤ → Source → Bool × Source
  unfolding num_children has_room insert_at append
  add_child x at (node name own cs) =
      if has_room (K.possible_children name) (num_children cs)
      then elim (place_child at x cs) [
        | none ↦ (false, node name own cs)
        | some ds ↦ (true, node name own ds)
      ]
      else (false, node name own cs)

  -- `child`; `none` is its assertion.
  pub nth : ℕ → Sources → Option Source
  nth i nil = none
  nth zero (cons c cs) = some c
  nth (suc i) (cons c cs) = nth i cs

  pub erase_nth : ℕ → Sources → Sources
  erase_nth i nil = nil
  erase_nth zero (cons c cs) = cs
  erase_nth (suc i) (cons c cs) = cons c (erase_nth i cs)

  -- `deleteChild`; `none` is its assertion.
  pub delete_child : ℕ → Source → Option Source
  unfolding num_children erase_nth
  delete_child i (node name own cs) =
      if ltb i (num_children cs) then some (node name own (erase_nth i cs)) else none

  -- `clone`; `none` is its assertion. `clone_into` is its loop over the children.
  mutual
    unfolding add_child

    pub clone : Source → Option Source
    clone (node name own cs) =
        K.new_source name >>= λ fresh. clone_into cs (node name (K.copy_data_to name own fresh) nil)

    pub clone_into : Sources → Source → Option Source
    clone_into nil fs = some fs
    clone_into (cons c cs) fs = clone c >>= λ d. clone_into cs (add_child d (negsuc 0) fs).1

  -- `Playback_impl`.
  mutual
    pub data Playback : Type 0 where
      play : K.OwnPlayback → Playbacks → Playback

    pub data Playbacks : Type 0 where
      nil_play : Playbacks
      cons_play : Playback → Playbacks → Playbacks

  pub append_play : Playbacks → Playback → Playbacks
  append_play nil_play p = cons_play p nil_play
  append_play (cons_play q qs) p = cons_play q (append_play qs p)

  -- `Playback_impl::addChild (child)`, at its default position.
  pub add_playback : Playback → Playback → Playback
  unfolding append_play
  add_playback p (play own ps) = play own (append_play ps p)

  -- `Playback_impl::child`; `none` is the null pointer.
  pub nth_play : ℕ → Playbacks → Option Playback
  nth_play i nil_play = none
  nth_play zero (cons_play p ps) = some p
  nth_play (suc i) (cons_play p ps) = nth_play i ps

  pub child_playback : ℕ → Playback → Option Playback
  unfolding nth_play
  child_playback i (play own ps) = nth_play i ps

  -- `createPlayback`, and its loop over the children.
  mutual
    unfolding add_playback

    pub create_playback : Source → Playback
    create_playback (node name own cs) =
        create_children cs (play (K.new_playback name own) nil_play)

    pub create_children : Sources → Playback → Playback
    create_children nil p = p
    create_children (cons c cs) p = create_children cs (add_playback (create_playback c) p)
