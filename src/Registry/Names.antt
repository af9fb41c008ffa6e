-- ===== src/Registry/Names.antt =====
-- What the registries of src/framesource_impl.cpp and src/driver.cpp find after a registration.
use lucifer.Prelude.{
  ◌≡◌, refl, sym, ap, subst, ◌∙◌, ◌≢◌, inl, inr, true, false, Option, none, some, List, [], ◌∷◌,
  if◌then◌else◌, Bool-cases, Option-cases,
}
use Prim.Native.String.{String, compare}
use lucifer.Prelude.Strings.{str_eq_self, str_eq_ne}
use text.Mathlib.Text.{◌==◌ as str_eq, is_lt}
use lucifer.Registry.{
  Registry, find, insert, entries, is_known, register, new_source, source_exists, new_driver,
}

module _ {A : Type 0} where
  -- An entry in front that has another name.
  find-past :
      (name k : String) (b : A) (es : List (String × A))
      → find name ((k, b) ∷ es) ≡ none
      → (str_eq k name ≡ false) × (find name es ≡ none)
  find-past name k b es e = elim (Bool-cases (str_eq k name)) [
    | inl same ↦
        let h : some b ≡ none = sym (ap (λ c. if c then some b else find name es) same) ∙ e in cc
    | inr other ↦ (other, sym (ap (λ c. if c then some b else find name es) other) ∙ e)
  ]

  find-insert :
      (name : String) (a : A) (es : List (String × A))
      → find name es ≡ none
      → find name (insert name a es) ≡ some a
  find-insert name a [] e = rw (str_eq_self name) refl
  find-insert name a ((k, b) ∷ rest) e =
      let (other, absent) = find-past name k b rest e in
      elim (Bool-cases (is_lt (compare name k))) [
        | inl first ↦ rw (first, str_eq_self name) refl
        | inr later ↦ rw (later, other) (find-insert name a rest absent)
      ]

  find-insert_ne :
      (name other : String) (a : A) (es : List (String × A))
      → name ≢ other
      → find other (insert name a es) ≡ find other es
  find-insert_ne name other a [] n = rw (str_eq_ne name other n) refl
  find-insert_ne name other a ((k, b) ∷ rest) n = elim (Bool-cases (is_lt (compare name k))) [
    | inl first ↦ rw (first, str_eq_ne name other n) refl
    | inr later ↦
        rw later
          (ap (λ o. if str_eq k other then some b else o) (find-insert_ne name other a rest n))
  ]

  new_source-entries : (name : String) (r : Registry A) → new_source name r ≡ find name (entries r)
  unfolding new_source
  new_source-entries name none = refl
  new_source-entries name (some es) = refl

  -- What holds of the registry after a registration.
  Registered : String → String → A → A → Registry A → Registry A → Type 0
  Registered name other a b r q =
      (new_source name q ≡ some a)
      × (new_driver name q ≡ some (some a))
      × (source_exists name q ≡ true)
      × (new_source other q ≡ new_source other r)
      × (register name b q ≡ none)

  inserted-Registered :
      (name other : String) (a b : A) (r : Registry A)
      → name ≢ other
      → find name (entries r) ≡ none
      → Registered name other a b r (some (insert name a (entries r)))
  unfolding Registered new_source new_driver source_exists register
  inserted-Registered name other a b r n absent =
      let here = find-insert name a (entries r) absent in
      (
        here,
        ap some here,
        ap is_known here,
        find-insert_ne name other a (entries r) n ∙ sym (new_source-entries other r),
        rw here refl,
      )

  abbrev made : Option (Registry A) → Registry A
  made none = none
  made (some q) = q

  register_fresh :
      (name : String) (a : A) (r : Registry A)
      → find name (entries r) ≡ none
      → register name a r ≡ some (some (insert name a (entries r)))
  unfolding register
  register_fresh name a r absent = rw absent refl

  register_known :
      (name : String) (a c : A) (r : Registry A)
      → find name (entries r) ≡ some c
      → register name a r ≡ none
  unfolding register
  register_known name a c r known = rw known refl

  -- When a name is registered, an object of that name comes from its generator, in both registries;
  -- the name exists; another name is what it was; and to register the name again is an assertion
  -- that fails, whatever it is registered with.
  pub register-finds :
      (name other : String) (a b : A) (r q : Registry A)
      → name ≢ other
      → register name a r ≡ some q
      → (new_source name q ≡ some a)
        × (new_driver name q ≡ some (some a))
        × (source_exists name q ≡ true)
        × (new_source other q ≡ new_source other r)
        × (register name b q ≡ none)
  unfolding Registered
  register-finds name other a b r q n e = elim (Option-cases (find name (entries r))) [
    | inl absent ↦
        subst (Registered name other a b r) (ap made (sym (register_fresh name a r absent) ∙ e))
          (inserted-Registered name other a b r n absent)
    | inr (c, known) ↦
        let impossible : none ≡ some q = sym (register_known name a c r known) ∙ e in cc
  ]
