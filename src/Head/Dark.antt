-- ===== src/Head/Dark.antt =====
-- A head that `kill` of src/head.cpp has darkened, over the events that it handles.
pub mod Events
use lucifer.Prelude.{
  ℕ, ◌≡◌, refl, sym, ap, subst, ◌∙◌, Bool, true, false, Option, none, List, [], ◌∷◌,
}
use lucifer.Random.{Random}
use lucifer.Playlist.{
  get_next_framesource, PlaybackList, Signal, selection_changed, load, dump_current_selection,
}
use lucifer.Head.{
  announce, load_frame_source, dump, on_signal, deliver, on_sources, take_frame, next_source, show,
  show_pair, show_or_move_on, refill, kill, Devices, LaserHead, Emission, new_frame,
}

module _ (R : Random) (D : Devices) where
  -- A killed head whose buffer is empty.
  pub record Dark (o : Option D.Driver) (h : LaserHead R D) : Type 0 where
    pub same_driver : h.driver ≡ o
    pub nothing_played : h.pb ≡ none
    pub no_points : h.point_buf ≡ []
    pub at_start : h.frame_index ≡ 0
    pub is_dead : h.killed ≡ true

  pub kill-Dark : (h : LaserHead R D) → Dark h.driver (kill R D h)
  unfolding kill load_frame_source
  kill-Dark h = record {
    same_driver = refl;
    nothing_played = refl;
    no_points = refl;
    at_start = refl;
    is_dead = refl;
  }

  pub announce-Dark :
      (o : Option D.Driver) (e : Emission) (h : LaserHead R D)
      → Dark o h
      → Dark o (announce R D e h)
  announce-Dark o e h d = record {
    same_driver = d.same_driver;
    nothing_played = d.nothing_played;
    no_points = d.no_points;
    at_start = d.at_start;
    is_dead = d.is_dead;
  }

  pub load-Dark :
      (o : Option D.Driver) (f : Option D.Playback) (now : Bool) (h : LaserHead R D)
      → Dark o h
      → Dark o (load_frame_source R D f now h)
  unfolding load_frame_source
  load-Dark o f true h d = record {
    same_driver = d.same_driver;
    nothing_played = rw (d.is_dead);
    no_points = refl;
    at_start = refl;
    is_dead = d.is_dead;
  }
  load-Dark o f false h d = record {
    same_driver = d.same_driver;
    nothing_played = rw (d.is_dead);
    no_points = d.no_points;
    at_start = d.at_start;
    is_dead = d.is_dead;
  }

  on_signal-Dark :
      (o : Option D.Driver) (s : Signal) (h : LaserHead R D) → Dark o h → Dark o (on_signal R D s h)
  unfolding on_signal dump
  on_signal-Dark o (selection_changed p b) h d = announce-Dark o _ h d
  on_signal-Dark o (load p) h d = d
  on_signal-Dark o dump_current_selection h d = load-Dark o none true h d

  deliver-Dark :
      (o : Option D.Driver) (ss : List Signal) (h : LaserHead R D)
      → Dark o h
      → Dark o (deliver R D ss h)
  unfolding deliver
  deliver-Dark o [] h d = d
  deliver-Dark o (s ∷ ss) h d = on_signal-Dark o s _ (deliver-Dark o ss h d)

  pub on_sources-Dark :
      (o : Option D.Driver) (slot : PlaybackList → PlaybackList) (h : LaserHead R D)
      → Dark o h
      → Dark o (on_sources R D slot h)
  unfolding on_sources
  on_sources-Dark o slot h d =
      let l = slot (record h.sources { signals = [] }) in
      deliver-Dark o l.signals (record h { sources = l })
        (record {
          same_driver = d.same_driver;
          nothing_played = d.nothing_played;
          no_points = d.no_points;
          at_start = d.at_start;
          is_dead = d.is_dead;
        })

  next_source-Dark :
      (o : Option D.Driver) (engine : ℕ → D.Playback) (h : LaserHead R D)
      → Dark o h
      → Dark o (next_source R D engine h)
  unfolding next_source
  next_source-Dark o engine h d =
      announce-Dark o _ _ (load-Dark o _ false _ (on_sources-Dark o (get_next_framesource R) h d))

  take_frame-Dark :
      (o : Option D.Driver) (h : LaserHead R D) → Dark o h → take_frame R D h ≡ (none, h)
  unfolding take_frame
  take_frame-Dark o h d = rw (d.nothing_played)

  pub refill-Dark :
      (o : Option D.Driver) (engine : ℕ → D.Playback) (h : LaserHead R D)
      → Dark o h
      → Dark o (refill R D engine h)
  unfolding refill show_or_move_on show_pair show
  refill-Dark o engine h d =
      let h' = record h { point_buf = []; frame_index = 0 } in
      let d' : Dark o h' = record {
        same_driver = d.same_driver;
        nothing_played = d.nothing_played;
        no_points = refl;
        at_start = refl;
        is_dead = d.is_dead;
      } in
      let again = next_source-Dark o engine h' d' in
      subst (Dark o)
        (sym (
          ap (show_or_move_on R D engine) (take_frame-Dark o h' d')
          ∙ ap (show_pair R D) (take_frame-Dark o (next_source R D engine h') again)))
        (announce-Dark o (new_frame false) _ again)
