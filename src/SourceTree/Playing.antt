-- ===== src/SourceTree/Playing.antt =====
-- `createPlayback` of src/framesource_impl.cpp: the playback of a tree beside the tree.
use lucifer.Prelude.{ℕ, zero, suc, ◌≡◌, refl, sym, ap, ◌∙◌}
use Prim.Native.String.{String}
use mathlib.Core.Option
use lucifer.SourceTree.{
  nth, append_play, add_playback, nth_play, child_playback, create_playback, create_children,
  Classes, node, Sources, nil, cons, Playback, play, Playbacks, nil_play, cons_play,
}

module _ (K : Classes) where
  -- The playbacks of the children, in order.
  created : Sources K → Playbacks K
  created nil = nil_play
  created (cons c cs) = cons_play (create_playback K c) (created cs)

  joined : Playbacks K → Playbacks K → Playbacks K
  joined nil_play qs = qs
  joined (cons_play p ps) qs = cons_play p (joined ps qs)

  joined-append_play :
      (ps : Playbacks K) (p : Playback K) (qs : Playbacks K)
      → joined (append_play K ps p) qs ≡ joined ps (cons_play p qs)
  unfolding joined append_play
  joined-append_play nil_play p qs = refl
  joined-append_play (cons_play q ps) p qs = ap (cons_play q) (joined-append_play ps p qs)

  joined_nil : (ps : Playbacks K) → joined ps nil_play ≡ ps
  unfolding joined
  joined_nil nil_play = refl
  joined_nil (cons_play p ps) = ap (cons_play p) (joined_nil ps)

  create_children-created :
      (cs : Sources K) (own : K.OwnPlayback) (ps : Playbacks K)
      → create_children K cs (play own ps) ≡ play own (joined ps (created cs))
  unfolding create_playback created add_playback
  create_children-created nil own ps = ap (play own) (sym (joined_nil ps))
  create_children-created (cons c cs) own ps =
      create_children-created cs own (append_play K ps (create_playback K c))
      ∙ ap (play own) (joined-append_play ps (create_playback K c) (created cs))

  nth_play-created :
      (i : ℕ) (cs : Sources K)
      → nth_play K i (created cs) ≡ Option.map (create_playback K) (nth K i cs)
  unfolding nth_play nth created
  nth_play-created i nil = refl
  nth_play-created zero (cons c cs) = refl
  nth_play-created (suc i) (cons c cs) = nth_play-created i cs

  -- The playback of a node has the playbacks of the node's children at their indices, and no other,
  -- all the way down the tree.
  pub child_playback-create :
      (i : ℕ) (name : String) (own : K.Own) (cs : Sources K)
      → child_playback K i (create_playback K (node name own cs))
        ≡ Option.map (create_playback K) (nth K i cs)
  unfolding create_playback child_playback joined
  child_playback-create i name own cs =
      ap (child_playback K i) (create_children-created cs (K.new_playback name own) nil_play)
      ∙ nth_play-created i cs
