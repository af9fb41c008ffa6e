-- ===== src/SourceTree/Xml/Tests.antt =====
-- Saving and loading of src/framesource_impl.cpp on a small tree.
use lucifer.Prelude.{ℕ, ◌≡◌, refl, some, arith}
use lucifer.SourceTree.{num_children, add_child, Source, node, nil, cons}
use lucifer.SourceTree.Limits.{Limited}
use lucifer.SourceTree.Xml.{
  save_frames, seek_start, load_children, load_section, load_object, load_frames, to_string,
  from_string,
}
use lucifer.SourceTree.Xml.Tokens.{to_tag}
use lucifer.SourceTree.Xml.Saved.{Loadable, num_tokens, from_string-to_string}
use lucifer.SourceTree.Xml.Plain.{described, plain, plain-Reads}

abbrev frame : ℕ → Source described
frame n = node "StaticFrame" ("A single frame", n) nil

abbrev steps : Source described
steps =
    node "FrameSequencer" ("A step sequencer", 5)
      (cons (frame 1)
        (cons (node "FrameSequencer" ("", 2) (cons (frame 3) nil)) (cons (frame 2) nil)))

frame-Loadable : (n : ℕ) → Loadable described plain plain-Reads (frame n)
unfolding Loadable plain-Reads num_children
frame-Loadable n = ((("new", 0), refl), (_, (omega arith, _)))

from_string-to_string_example :
    from_string described plain 50 (to_string described plain steps) ≡ some (some steps)
unfolding Loadable Limited num_children num_tokens to_string save_frames plain-Reads
from_string-to_string_example =
    from_string-to_string described plain plain-Reads steps 50
      (
        (("new", 0), refl),
        (
          _,
          (
            omega arith,
            (
              frame-Loadable 1,
              (
                ((("new", 0), refl), (_, (omega arith, (frame-Loadable 3, _)))),
                (frame-Loadable 2, _),
              ),
            ),
          ),
        ),
      )
      (refl, ((refl, _), ((refl, ((refl, _), _)), ((refl, _), _)))) (omega arith) refl

read_back : from_string described plain 50 (to_string described plain steps) ≡ some (some steps)
unfolding to_string save_frames from_string load_frames load_object load_section load_children
    seek_start to_tag add_child
read_back = refl
