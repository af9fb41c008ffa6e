-- ===== src/MotorMix/Lights.antt =====
-- The lights of the projector heads: `updateHeadStatus` and `headSelected` of src/motormix.cpp.
use lucifer.Prelude.{
  ℕ, zero, suc, ◌+◌, ◌≡◌, refl, sym, ap, ap₂, ◌∙◌, Option, some, List, [], ◌∷◌, map, arith,
  ℕ_discrete, ◌==◌, if◌then◌else◌, ==_iff, get_elem?, ==_ne,
}
use mathlib.Core.Option
use lucifer.MotorMix.{
  wanted, update_head, update_heads, update_head_status, select_in, head_selected, Head, Surface,
  Output,
}

-- A head whose light shows what it should.
abbrev settled : Head → Head
settled h = record h { state = wanted h }

update_head-settled :
    (channel : Option ℕ) (h : Head) (outputs : List Output)
    → (update_head channel h outputs).0 ≡ settled h
unfolding update_head
update_head-settled channel h outputs = elim (ℕ_discrete (wanted h) h.state) [
  | yes e ↦ rw ((==_iff _ _).1 e) (λ i. record h { state = sym e i })
  | no n ↦ rw (==_ne _ _ n) refl
]

update_heads-settled :
    (channel : Option ℕ) (hs : List Head) (outputs : List Output)
    → (update_heads channel hs outputs).0 ≡ map settled hs
unfolding update_heads
update_heads-settled channel [] outputs = refl
update_heads-settled channel (h ∷ hs) outputs =
    ap₂ (λ x xs. x ∷ xs) (update_head-settled channel h outputs) (update_heads-settled channel hs _)

update_head-quiet :
    (channel : Option ℕ) (h : Head) (outputs : List Output)
    → update_head channel (settled h) outputs ≡ (settled h, outputs)
unfolding update_head wanted
update_head-quiet channel h outputs = rw ((==_iff (wanted h) (wanted h)).1 refl)

update_heads-quiet :
    (channel : Option ℕ) (hs : List Head) (outputs : List Output)
    → update_heads channel (map settled hs) outputs ≡ (map settled hs, outputs)
unfolding update_heads
update_heads-quiet channel [] outputs = refl
update_heads-quiet channel (h ∷ hs) outputs =
    rw (update_head-quiet channel h outputs, update_heads-quiet channel hs outputs)

get_elem?-map :
    {A B : Type 0} (f : A → B) (xs : List A) (i : ℕ) (a : A)
    → get_elem? xs i ≡ some a
    → get_elem? (map f xs) i ≡ some (f a)
get_elem?-map f [] i a e = cc
get_elem?-map f (x ∷ xs) zero a e = ground arith
get_elem?-map f (x ∷ xs) (suc i) a e = get_elem?-map f xs i a e

get_elem?-select_in :
    (j i k n : ℕ) (hs : List Head) (h : Head)
    → get_elem? hs k ≡ some h
    → i + k ≡ n
    → get_elem? (select_in j i hs) k ≡ some (record h { selected = j == n })
unfolding select_in
get_elem?-select_in j i k n [] h e s = cc
get_elem?-select_in j i zero n (g ∷ hs) h e s =
    let e' : i ≡ n = omega arith in
    rw e' (ap (Option.map {A = Head} (λ x. record x { selected = j == n })) e)
get_elem?-select_in j i (suc k) n (g ∷ hs) h e s =
    get_elem?-select_in j (suc i) k n hs h e (omega arith)

-- After `headSelected (j)` the light of head i blinks if i is j; otherwise it is on if the head is
-- active and off if not; and `updateHeadStatus` run again changes nothing and sends nothing.
pub head_selected_lights :
    (j i : ℕ) (h : Head) (s : Surface)
    → get_elem? s.heads i ≡ some h
    → (get_elem? (head_selected j s).heads i
        ≡ some (record h {
          selected = j == i;
          state = if j == i then 2 else if h.active then 1 else 0;
        }))
      × (update_head_status (head_selected j s) ≡ head_selected j s)
unfolding head_selected update_head_status wanted
head_selected_lights j i h s e =
    let hs = select_in j 0 s.heads in
    let done = update_heads-settled s.channel hs s.outputs in
    let again : update_heads s.channel (update_heads s.channel hs s.outputs).0
          (update_heads s.channel hs s.outputs).1
        ≡ ((update_heads s.channel hs s.outputs).0, (update_heads s.channel hs s.outputs).1) =
      rw done (update_heads-quiet s.channel hs _) in
    (
      ap (λ xs. get_elem? xs i) done
          ∙ get_elem?-map settled hs i _ (get_elem?-select_in j 0 i i s.heads h e (omega arith)),
      ap (λ r. record s { heads = r.0; outputs = r.1 }) again,
    )
