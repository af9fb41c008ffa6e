-- ===== src/Sequencer/Play.antt =====
-- `reset_index`, `index` and the inner loop of `nextFrame` of src/framesequencer.cpp.
use lucifer.Prelude.{
  ℕ, zero, suc, ◌+◌, ◌^◌, ◌≤◌, ◌<◌, ◌≡◌, refl, sym, ◌∙◌, ◌⊎◌, inl, inr, Option, none, some, List,
  arith, ℕ_discrete, ltb, ◌==◌, if◌then◌else◌, lt→ltb, ==_iff, Bool-cases, Option-cases, length,
  get_elem?, ==_ne,
}
use lucifer.Random.{Within, Within-shuffle, get_elem?-Within, Random}
use lucifer.Sequencer.{
  table_size, filled, reset_index, checked_entry, index, last_place, advance, pull, Playback,
  Children, Outcome, Mode, sequential, random, pingpong,
}
use lucifer.Sequencer.Table.{fill-Table, Table}

-- A table of full size holds children only, and so does one of another size if the place is within
-- the size to which `index` brings it.
pub record IsSafe (mode : Mode) (n : ℕ) (pb : Playback) : Type 0 where
  pub entries : length pb.index_tbl ≡ table_size mode n → Within n pb.index_tbl
  pub placed : (length pb.index_tbl ≡ table_size mode n) ⊎ (pb.place < table_size mode n)

-- What every call leaves behind.
pub record IsReady (mode : Mode) (n : ℕ) (pb : Playback) : Type 0 where
  pub sized : length pb.index_tbl ≡ table_size mode n
  pub within : Within n pb.index_tbl

module _ (R : Random) (n : ℕ) (some_child : 0 < n) (small : n < 2 ^ 30) where
  filled-IsReady :
      (mode : Mode) (table : List ℕ) (pb : Playback)
      → Table mode n table
      → IsReady mode n (filled R mode table pb)
        × ((filled R mode table pb).place ≡ pb.place)
        × ((filled R mode table pb).repeats_done ≡ pb.repeats_done)
  unfolding filled
  filled-IsReady sequential table pb t = (record { sized = t.sized; within = t.within }, refl, refl)
  filled-IsReady pingpong table pb t = (record { sized = t.sized; within = t.within }, refl, refl)
  filled-IsReady random table pb t = (
    record {
      sized = R.length-shuffle pb.draws table ∙ t.sized;
      within = Within-shuffle R pb.draws n table t.within;
    },
    refl,
    refl,
  )

  -- `reset_index` succeeds, and leaves the place and the repeats alone.
  pub reset_index-IsReady :
      (mode : Mode) (pb : Playback)
      → (q : Playback) × (reset_index R mode n pb ≡ some q)
        × IsReady mode n q
        × (q.place ≡ pb.place)
        × (q.repeats_done ≡ pb.repeats_done)
  unfolding reset_index
  reset_index-IsReady mode pb =
      let (table, e, t) = fill-Table mode n some_child (omega arith) in
      let (ready, place, done) = filled-IsReady mode table pb t in
      (filled R mode table pb, rw e refl, ready, place, done)

  read-IsReady :
      (mode : Mode) (q : Playback)
      → IsReady mode n q
      → q.place < table_size mode n
      → (v : ℕ) × ((if table_size mode n == length q.index_tbl
            then checked_entry n q (get_elem? q.index_tbl q.place)
            else none)
          ≡ some (q, v))
  read-IsReady mode q r h =
      let (v, e, lt) = get_elem?-Within n q.index_tbl q.place r.within (omega (arith, r.sized)) in
      (v, rw ((==_iff _ _).1 (sym r.sized), e, lt→ltb v n lt) refl)

  -- `index` succeeds at a place inside the table.
  pub index-IsReady :
      (mode : Mode) (pb : Playback)
      → IsSafe mode n pb
      → pb.place < table_size mode n
      → (q : Playback) × (v : ℕ) × (index R mode n pb ≡ some (q, v))
        × IsReady mode n q
        × (q.place ≡ pb.place)
        × (q.repeats_done ≡ pb.repeats_done)
  unfolding index
  index-IsReady mode pb s h = elim (ℕ_discrete (table_size mode n) (length pb.index_tbl)) [
    | yes e ↦
        let ready : IsReady mode n pb = record { sized = sym e; within = s.entries (sym e) } in
        let (v, read) = read-IsReady mode pb ready h in
        (pb, v, rw ((==_iff _ _).1 e) read, ready, refl, refl)
    | no ne ↦
        let (q, made, ready, place, done) = reset_index-IsReady mode pb in
        let (v, read) = read-IsReady mode q ready (omega (arith, place)) in
        (q, v, rw (==_ne _ _ ne, made) read, ready, place, done)
  ]

-- The result of a loop is there, its table is ready, and without a frame the last step is reached.
pub record Stops (R : Random) (C : Children) (mode : Mode) (done : ℕ) (r : Option (Outcome R C))
    : Type 0 where
  pub outcome : Outcome R C
  pub returned : r ≡ some outcome
  pub ready : IsReady mode C.number outcome.playback
  pub same_done : outcome.playback.repeats_done ≡ done
  pub ended : outcome.frame ≡ none → table_size mode C.number ≤ suc outcome.playback.place

pub table_size_bounds :
    (mode : Mode) (n : ℕ)
    → 0 < n
    → n < 2 ^ 30
    → (0 < table_size mode n) × (table_size mode n < 2 ^ 31)
unfolding table_size
table_size_bounds sequential n h b = omega arith
table_size_bounds random n h b = omega arith
table_size_bounds pingpong n h b = omega arith

module _ (R : Random) (C : Children) (some_child : 0 < C.number) (small : C.number < 2 ^ 30) where
  pub last_place-IsReady :
      (mode : Mode) (pb : Playback)
      → IsReady mode C.number pb
      → suc (last_place pb) ≡ table_size mode C.number
  last_place-IsReady mode pb r =
      omega (arith, r.sized, table_size_bounds mode C.number some_child small)

  advance-Stops :
      (fuel : ℕ) (mode : Mode) (pb : Playback) (s : C.State)
      → IsReady mode C.number pb
      → table_size mode C.number ≤ pb.place + fuel
      → 0 < fuel
      → Stops R C mode pb.repeats_done (advance R C fuel mode pb s)
  unfolding advance
  advance-Stops zero mode pb s r h p = elim p [ ]
  advance-Stops (suc fuel) mode pb s r h p = elim (Bool-cases (ltb pb.place (last_place pb))) [
    | inr e ↦
        rw (e, advance)
          (record {
            outcome = record { frame = none; playback = pb; kids = s };
            returned = refl;
            ready = r;
            same_done = refl;
            ended = λ f. ground (arith, last_place-IsReady mode pb r);
          })
    | inl e ↦
        let (q, v, read, ready, place, done) =
          index-IsReady R C.number some_child small mode (record pb { place = suc pb.place })
            (record { entries = λ z. r.within; placed = inl r.sized })
            (ground (arith, last_place-IsReady mode pb r)) in
        elim (Option-cases (C.next_frame v (C.reset v s)).0) [
          | inr (f, got) ↦
              rw (e, read, got, advance)
                (record {
                  outcome = record {
                    frame = some f;
                    playback = q;
                    kids = (C.next_frame v (C.reset v s)).1;
                  };
                  returned = refl;
                  ready = ready;
                  same_done = done;
                  ended = λ z. cc;
                })
          | inl got ↦
              let rest =
                advance-Stops fuel mode q (C.next_frame v (C.reset v s)).1 ready
                  (omega (arith, place)) (ground (arith, last_place-IsReady mode pb r)) in
              rw (e, read, got, advance)
                (record {
                  outcome = rest.outcome;
                  returned = rest.returned;
                  ready = rest.ready;
                  same_done = rest.same_done ∙ done;
                  ended = rest.ended;
                })
        ]
  ]

  pub pull-Stops :
      (fuel : ℕ) (mode : Mode) (pb : Playback) (s : C.State)
      → IsSafe mode C.number pb
      → pb.place < table_size mode C.number
      → table_size mode C.number < fuel
      → Stops R C mode pb.repeats_done (pull R C fuel mode pb s)
  unfolding pull
  pull-Stops fuel mode pb s safe h p =
      let (q, v, read, ready, place, done) =
        index-IsReady R C.number some_child small mode pb safe h in
      elim (Option-cases (C.next_frame v s).0) [
        | inr (f, got) ↦
            rw (read, got, pull)
              (record {
                outcome = record { frame = some f; playback = q; kids = (C.next_frame v s).1 };
                returned = refl;
                ready = ready;
                same_done = done;
                ended = λ z. cc;
              })
        | inl got ↦
            let rest =
              advance-Stops fuel mode q (C.next_frame v s).1 ready (omega arith) (omega arith) in
            rw (read, got, pull)
              (record {
                outcome = rest.outcome;
                returned = rest.returned;
                ready = rest.ready;
                same_done = rest.same_done ∙ done;
                ended = rest.ended;
              })
      ]
