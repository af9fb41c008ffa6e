-- ===== src/Midi/Input.antt =====
-- `MIDIParser::readData` of src/midi.cpp over the queue of src/alsamidi.cpp.
use lucifer.Prelude.{
  ℕ, zero, suc, ◌<◌, ◌≡◌, refl, sym, ap, subst, ◌∙◌, inl, inr, true, false, Option, some, List, [],
  ◌∷◌, ◌++◌, append-nil, append_assoc, arith, ◌==◌, Bool-cases, length, take, drop, length-take,
  length-drop, take-append-drop,
}
use lucifer.Midi.{
  dispatched, parse, read_available, read_data, parse_loop, read_and_parse, Jdksmidi, RawMidi,
  AlsaMidi, Signal,
}

abbrev pub joined : List (List ℕ) → List ℕ
joined [] = []
joined (xs ∷ xss) = xs ++ joined xss

none_taken : {A : Type 0} → (xs : List A) → length (take 64 xs) == 0 ≡ true → xs ≡ []
none_taken [] e = refl
none_taken (x ∷ xs) e = ground arith

fewer :
    {A : Type 0}
    → (xs : List A) → length (take 64 xs) == 0 ≡ false
    → length (drop 64 xs) < length xs
fewer xs e = let a = length-take 64 xs in let b = length-drop 64 xs in ground arith

module _ (J : Jdksmidi) where
  pub parse-append :
      (xs ys : List ℕ) (p : J.Parser)
      → parse J (xs ++ ys) p
        ≡ ((parse J xs p).0 ++ (parse J ys (parse J xs p).1).0, (parse J ys (parse J xs p).1).1)
  unfolding parse
  parse-append [] ys p = refl
  parse-append (x ∷ xs) ys p =
      let first = J.parse_byte x p in
      ap (λ r. (dispatched J first.0 ++ r.0, r.1)) (parse-append xs ys first.1) ∙ λ i. (
        sym
            (append_assoc (dispatched J first.0) (parse J xs first.1).0
              (parse J ys (parse J xs first.1).1).0)
            i,
        (parse J ys (parse J xs first.1).1).1,
      )

  module _ (R : RawMidi) where
    Parsed :
        List ℕ → J.Parser → AlsaMidi R → Option (List Signal × (J.Parser × AlsaMidi R)) → Type 0
    Parsed bytes p a r =
        r ≡ some ((parse J bytes p).0, ((parse J bytes p).1, record a { rxqueue = [] }))

    last_step :
        (fuel : ℕ) (s : List ℕ) (p : J.Parser) (a : AlsaMidi R)
        → length (take 64 a.rxqueue) == 0 ≡ true
        → Parsed s p a (parse_loop R J (suc fuel) s p a)
    unfolding parse_loop read_data Parsed
    last_step fuel s p a e =
        let rest : drop 64 a.rxqueue ≡ [] = ap (drop 64) (none_taken a.rxqueue e) in
        rw e (λ i.
          some (append-nil (parse J s p).0 i, ((parse J s p).1, record a { rxqueue = rest i })))

    more_step :
        (fuel : ℕ) (s : List ℕ) (p : J.Parser) (a : AlsaMidi R)
        → length (take 64 a.rxqueue) == 0 ≡ false
        → Parsed
            (take 64 a.rxqueue ++ drop 64 a.rxqueue)
            (parse J s p).1
            (record a { rxqueue = drop 64 a.rxqueue })
            (parse_loop R J fuel
              (take 64 a.rxqueue)
              (parse J s p).1
              (record a { rxqueue = drop 64 a.rxqueue }))
        → Parsed
            (s ++ (take 64 a.rxqueue ++ drop 64 a.rxqueue))
            p
            a
            (parse_loop R J (suc fuel) s p a)
    unfolding parse_loop read_data Parsed
    more_step fuel s p a e rest =
        let bytes = take 64 a.rxqueue ++ drop 64 a.rxqueue in
        rw (e, rest)
          (ap (λ r. some (r.0, (r.1, record a { rxqueue = [] }))) (sym (parse-append s bytes p)))

    parse_loop-all :
        (fuel : ℕ) (s : List ℕ) (p : J.Parser) (a : AlsaMidi R)
        → length a.rxqueue < fuel
        → Parsed (s ++ a.rxqueue) p a (parse_loop R J fuel s p a)
    parse_loop-all zero s p a h = ground arith
    parse_loop-all (suc fuel) s p a h = elim (Bool-cases (length (take 64 a.rxqueue) == 0)) [
      | inl e ↦
          let empty = none_taken a.rxqueue e in
          subst (λ bytes. Parsed bytes p a (parse_loop R J (suc fuel) s p a))
            (sym (ap (λ q. s ++ q) empty ∙ append-nil s)) (last_step fuel s p a e)
      | inr e ↦
          let next = record a { rxqueue = drop 64 a.rxqueue } in
          subst (λ q. Parsed (s ++ q) p a (parse_loop R J (suc fuel) s p a))
            (take-append-drop 64 a.rxqueue)
            (more_step fuel s p a e (
              parse_loop-all fuel (take 64 a.rxqueue) (parse J s p).1 next
                (let f = fewer a.rxqueue e in omega arith)))
    ]

    abbrev pub readings : AlsaMidi R → List (List ℕ) → List ℕ
    readings a bufs = a.rxqueue ++ joined bufs

    read_available-queue :
        (bufs : List (List ℕ)) (a : AlsaMidi R)
        → (read_available R bufs a).1 ≡ record a { rxqueue = readings a bufs }
    unfolding read_available
    read_available-queue [] a = λ i. record a { rxqueue = sym (append-nil a.rxqueue) i }
    read_available-queue (buf ∷ bufs) a =
        read_available-queue bufs (record a { rxqueue = a.rxqueue ++ buf }) ∙ λ i. record a {
          rxqueue = append_assoc a.rxqueue buf (joined bufs) i;
        }

    -- When the device gave its bytes in pieces of any lengths, what `MIDIParser::readData` reads in
    -- pieces of 64 bytes is parsed as all the bytes in their order, behind those that were queued
    -- before: the signals and the parser are those of the whole text, and the queue is empty
    -- afterwards. One round for each byte and one more are enough.
    pub read_and_parse-all :
        (bufs : List (List ℕ)) (fuel : ℕ) (p : J.Parser) (a : AlsaMidi R)
        → length (a.rxqueue ++ joined bufs) < fuel
        → let bytes = a.rxqueue ++ joined bufs in
          read_and_parse R J fuel p (read_available R bufs a).1
          ≡ some ((parse J bytes p).0, ((parse J bytes p).1, record a { rxqueue = [] }))
    unfolding read_and_parse read_data Parsed
    read_and_parse-all bufs fuel p a h =
        let q = readings a bufs in
        let b = record a { rxqueue = drop 64 q } in
        let short : length (drop 64 q) < fuel = omega (arith, length-drop 64 q) in
        rw (read_available-queue bufs a) (
          subst (λ bytes. Parsed bytes p b (parse_loop R J fuel (take 64 q) p b))
            (take-append-drop 64 q) (parse_loop-all fuel (take 64 q) p b short))
