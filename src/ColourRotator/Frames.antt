-- ===== src/ColourRotator/Frames.antt =====
-- `reset` and `nextFrame` of src/colourrotator.cpp, over a child that is a parameter.
pub mod Branches
use lucifer.Prelude.{ℕ, Option, none, some, List, ◌==◌, if◌then◌else◌}
use lucifer.Prelude.Maybe.{◌>>=◌}
use lucifer.ColourRotator.{
  override_points, hsv_rotator, colour_pulse, Qt, Point, ColourRotator, Playback,
}

-- The state of the child's playback, the child's `nextFrame` and its `reset`.
pub record Child (Q : Qt) : Type 1 where
  pub State : Type 0
  pub next_frame : State → Option (List (Point Q)) × State
  pub reset : State → State

module _ (Q : Qt) (child : Child Q) where
  -- The playback and that of the child.
  pub record Playing : Type 0 where
    pub own : Playback Q
    pub below : child.State

  abbrev pub reset_child : ℕ → child.State → child.State
  reset_child num_children s = if num_children == 1 then child.reset s else s

  pub reset : ℕ → Playing → Playing
  reset num_children pb = record {
    own = record { pulser_start_phase = Q.nought; rotator_start_phase = Q.nought };
    below = reset_child num_children pb.below;
  }

  -- `colourOverride`, `HSVRotator` and `colourPulse`, one after the other.
  pub change_colours :
      ℕ → ColourRotator Q → List (Point Q) → Playback Q → Option (List (Point Q) × Playback Q)
  unfolding override_points hsv_rotator colour_pulse
  change_colours fuel c ps pb = do
    (rotated, pb') ← hsv_rotator Q fuel c (override_points Q c ps) pb
    some (colour_pulse Q c rotated pb')

  abbrev pub take_frame :
      ℕ
      → ℕ
      → ColourRotator Q
      → Playback Q
      → Option (List (Point Q)) × child.State
      → Option (Option (List (Point Q)) × Playing)
  take_frame fuel num_children c own (none, s) =
      some (none, record { own = own; below = reset_child num_children s })
  take_frame fuel num_children c own (some ps, s) = do
    (qs, own') ← change_colours fuel c ps own
    some (some qs, record { own = own'; below = s })

  -- `nextFrame`; the outer `none` is fuel that ran out.
  pub next_frame : ℕ → ℕ → ColourRotator Q → Playing → Option (Option (List (Point Q)) × Playing)
  unfolding reset change_colours
  next_frame fuel num_children c pb =
      if num_children == 0
      then some (none, reset 0 pb)
      else take_frame fuel num_children c pb.own (child.next_frame pb.below)
