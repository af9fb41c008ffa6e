-- ===== src/PaIlda/Connect.antt =====
-- `connect` of src/driver_portaudio_ilda.cpp: its outcomes, and the sample rate it chooses.
use lucifer.Prelude.{
  ℕ, suc, ◌<◌, min, ◌≡◌, refl, subst, ◌⊎◌, inl, inr, Bool, true, false, ◌&&◌, none, some, List, [],
  ◌∷◌, arith, ltb, if◌then◌else◌, Bool-cases, Option-cases, get_elem?, All,
}
use lucifer.PaIlda.{
  sample_rates, find_rate, open_device, connect, CircularBuffer, PortAudio, PointF, PaIlda,
}

-- The rate is one of the list and supported, and none of the list that is higher is.
abbrev pub IsBest : (ℕ → Bool) → List ℕ → ℕ → Type 0
IsBest supported rates rate =
    ((i : ℕ) × (get_elem? rates i ≡ some rate))
    × ((supported rate ≡ true) × All (λ x. ltb rate x && supported x ≡ false) rates)

abbrev pub IsUnsupported : (ℕ → Bool) → List ℕ → Type 0
IsUnsupported supported rates = All (λ x. supported x ≡ false) rates

abbrev Descends : List ℕ → Type 0
Descends [] = Unit
Descends (x ∷ xs) = All (λ y. y < x) xs × Descends xs

weaken :
    (supported : ℕ → Bool) (r : ℕ) (xs : List ℕ)
    → All (λ y. y < r) xs
    → All (λ x. ltb r x && supported x ≡ false) xs
weaken supported r [] h = _
weaken supported r (x ∷ xs) h = let low = h.0 in (ground arith, weaken supported r xs h.1)

abbrev pub Chosen : (ℕ → Bool) → List ℕ → ℕ × Bool → Type 0
Chosen supported rates r =
    ((r.1 ≡ true) × IsBest supported rates r.0) ⊎ ((r ≡ (0, false)) × IsUnsupported supported rates)

and_false : (b : Bool) → b && false ≡ false
and_false true = refl
and_false false = refl

find_first :
    (supported : ℕ → Bool) (x : ℕ) (xs : List ℕ)
    → supported x ≡ true
    → (x, true) ≡ find_rate supported (x ∷ xs)
unfolding find_rate
find_first supported x xs e = rw e refl

find_later :
    (supported : ℕ → Bool) (x : ℕ) (xs : List ℕ)
    → supported x ≡ false
    → find_rate supported xs ≡ find_rate supported (x ∷ xs)
unfolding find_rate
find_later supported x xs e = rw e refl

find_rate-Chosen :
    (supported : ℕ → Bool) (rates : List ℕ)
    → Descends rates
    → Chosen supported rates (find_rate supported rates)
unfolding find_rate
find_rate-Chosen supported [] h = inr (refl, _)
find_rate-Chosen supported (x ∷ xs) h = elim (Bool-cases (supported x)) [
  | inl supports ↦
      let itself : ltb x x && supported x ≡ false = ground arith in
      subst (Chosen supported (x ∷ xs)) (find_first supported x xs supports)
        (inl (refl, ((0, refl), (supports, (itself, weaken supported x xs h.0)))))
  | inr fails ↦
      subst (Chosen supported (x ∷ xs)) (find_later supported x xs fails)
        (elim (find_rate-Chosen supported xs h.1) [
          | inl (found, ((i, listed), (good, best))) ↦ inl (
            found,
            (
              (suc i, listed),
              (good, (rw fails (and_false (ltb (find_rate supported xs).0 x)), best)),
            ),
          )
          | inr (none_found, bad) ↦ inr (none_found, (fails, bad))
        ])
]

descends : Descends sample_rates
descends = (
  (omega arith, (omega arith, (omega arith, (omega arith, (omega arith, _))))),
  (
    (omega arith, (omega arith, (omega arith, (omega arith, _)))),
    (
      (omega arith, (omega arith, (omega arith, _))),
      ((omega arith, (omega arith, _)), ((omega arith, _), (_, _))),
    ),
  ),
)

module _ (Float : Type 0) (C : CircularBuffer (PointF Float)) where
  -- What may come of `connect`.
  pub data Outcome (P : PortAudio) (index : ℕ) (d : PaIlda Float C)
      : Bool × PaIlda Float C → Type 0 where
    no_device : get_elem? d.valid_devices index ≡ none → Outcome P index d (false, d)
    no_rate :
        (device channels : ℕ)
        → get_elem? d.valid_devices index ≡ some device
        → channels ≡ min 6 (P.max_output_channels device)
        → IsUnsupported (P.is_format_supported device channels) sample_rates
        → Outcome P index d (false, record d { channels = channels; sr = 0 })
    not_opened :
        (device channels rate : ℕ)
        → get_elem? d.valid_devices index ≡ some device
        → channels ≡ min 6 (P.max_output_channels device)
        → IsBest (P.is_format_supported device channels) sample_rates rate
        → P.open_stream device channels rate ≡ false
        → Outcome P index d
            (false, record d { channels = channels; sr = rate; pps_signals = rate ∷ d.pps_signals })
    opened :
        (device channels rate : ℕ)
        → get_elem? d.valid_devices index ≡ some device
        → channels ≡ min 6 (P.max_output_channels device)
        → IsBest (P.is_format_supported device channels) sample_rates rate
        → P.open_stream device channels rate ≡ true
        → Outcome P index d (
          true,
          record d {
            channels = channels;
            sr = rate;
            stream = true;
            pps_signals = rate ∷ d.pps_signals;
          },
        )

  open_device-Outcome :
      (P : PortAudio) (index device : ℕ) (d : PaIlda Float C)
      → get_elem? d.valid_devices index ≡ some device
      → Outcome P index d (open_device Float C P device d)
  unfolding open_device
  open_device-Outcome P index device d present =
      let most = P.max_output_channels device in
      let channels = if ltb 6 most then 6 else most in
      let few : channels ≡ min 6 most = ground arith in
      let supported = P.is_format_supported device channels in
      let rate = (find_rate supported sample_rates).0 in
      elim (find_rate-Chosen supported sample_rates descends) [
        | inr (failed, bad) ↦ rw failed (no_rate device channels present few bad)
        | inl (found, best) ↦ elim (Bool-cases (P.open_stream device channels rate)) [
          | inl done ↦ rw (found, done) (opened device channels rate present few best done)
          | inr fails ↦ rw (found, fails) (not_opened device channels rate present few best fails)
        ]
      ]

  -- What `connect` comes to: nothing for an index without device; else the channels are those of
  -- the device, six at most. If the card supports no rate, the rate is 0 afterwards; otherwise it is
  -- the highest of the list that is supported, `ILDAHwPPSChanged` is emitted with it, and the
  -- stream is open if PortAudio opens it.
  pub connect-Outcome :
      (P : PortAudio) (index : ℕ) (d : PaIlda Float C)
      → Outcome P index d (connect Float C P index d)
  unfolding connect
  connect-Outcome P index d = elim (Option-cases (get_elem? d.valid_devices index)) [
    | inl absent ↦ rw (connect, absent) (no_device absent)
    | inr (device, present) ↦ rw (connect, present) (open_device-Outcome P index device d present)
  ]
