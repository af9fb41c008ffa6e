-- ===== src/SourceTree/Tests.antt =====
-- Trees of frame sources, as src/framesource_impl.cpp builds them, on small inputs.
use lucifer.Prelude.{ℕ, ◌+◌, ◌≡◌, refl, false, some, [], ◌∷◌, if◌then◌else◌}
use lucifer.Prelude.Int.{pos, negsuc}
use Prim.Native.String.{String}
use text.Mathlib.Text.{◌==◌ as str_eq}
use lucifer.SourceTree.{
  num_children, add_child, nth, clone, child_playback, create_playback, Classes, PossibleChildren,
  childless, one, many, Source, node, nil, cons,
}
use lucifer.SourceTree.Limits.{Limited, edit, edits, edits_keep_limits, adds, deletes}
use lucifer.SourceTree.Clone.{Known, copied, clone_copies_tree}
use lucifer.SourceTree.Playing.{child_playback-create}

-- A frame has no children, a colour rotator one, any other class as many as it likes.
abbrev limit : String → PossibleChildren
limit name =
    if str_eq name "StaticFrame"
    then childless
    else if str_eq name "ColourRotator"
    then one
    else many

-- Objects are numbers, and so are their playbacks.
abbrev numbers : Classes
numbers = record {
  Own = ℕ;
  OwnPlayback = ℕ;
  new_source = λ name. some 0;
  possible_children = limit;
  copy_data_to = λ name own fresh. own;
  new_playback = λ name own. own + 1;
}

abbrev frame : ℕ → Source numbers
frame n = node "StaticFrame" n nil

abbrev sequence : Source numbers
sequence = node "FrameSequencer" 5 (cons (frame 1) (cons (frame 2) nil))

abbrev rotator : Source numbers
rotator = node "ColourRotator" 7 (cons sequence nil)

sequence_is_full_at_end : (add_child numbers (frame 3) (pos 3) sequence).0 ≡ false
unfolding add_child
sequence_is_full_at_end = refl

rotator_is_full : (add_child numbers (frame 3) (negsuc 0) rotator).0 ≡ false
unfolding add_child
rotator_is_full = refl

edits_keep_limits_example :
    Limited numbers (node "FrameSequencer" 5 (cons (frame 1) (cons rotator nil)))
unfolding Limited edits edit
edits_keep_limits_example =
    edits_keep_limits numbers (adds rotator (pos 1) ∷ deletes 2 ∷ []) sequence
      (node "FrameSequencer" 5 (cons (frame 1) (cons rotator nil)))
      ((refl, ((refl, ((refl, _), ((refl, _), _))), _)), (_, _)) (refl, ((refl, _), ((refl, _), _)))
      refl

clone_copies_tree_example : clone numbers rotator ≡ some (copied numbers rotator)
unfolding Known Limited num_children
clone_copies_tree_example =
    clone_copies_tree numbers rotator
      ((0, refl), (((0, refl), (((0, refl), _), (((0, refl), _), _))), _))
      (refl, ((refl, ((refl, _), ((refl, _), _))), _))

child_playback-create_example :
    child_playback numbers 1 (create_playback numbers sequence)
    ≡ some (create_playback numbers (frame 2))
unfolding nth
child_playback-create_example =
    child_playback-create numbers 1 "FrameSequencer" 5 (cons (frame 1) (cons (frame 2) nil))
