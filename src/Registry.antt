-- ===== src/Registry.antt =====
-- The registries of classes: of frame sources in framesource_impl.cpp, of drivers in driver.cpp.
-- A map is the list of its entries in the order of their keys; the outer `none` is an assertion.
pub mod Names
mod Tests
use lucifer.Prelude.{Bool, true, false, Option, none, some, List, [], ◌∷◌, map, if◌then◌else◌}
use Prim.Native.String.{String, compare}
use text.Mathlib.Text.{◌==◌ as str_eq, is_lt}

-- The pointer to the map, which is null at first.
abbrev pub Registry : Type 0 → Type 0
Registry A = Option (List (String × A))

-- What makes an object of a class.
module _ {A : Type 0} where
  abbrev pub find : String → List (String × A) → Option A
  find name [] = none
  find name ((k, a) ∷ rest) = if str_eq k name then some a else find name rest

  -- `(*framegen)[name] = generator`, of a name that is not there.
  abbrev pub insert : String → A → List (String × A) → List (String × A)
  insert name a [] = (name, a) ∷ []
  insert name a ((k, b) ∷ rest) =
      let later = insert name a rest in
      if is_lt (compare name k) then (name, a) ∷ (k, b) ∷ rest else (k, b) ∷ later

  abbrev pub entries : Registry A → List (String × A)
  entries none = []
  entries (some es) = es

  abbrev pub is_known : Option A → Bool
  is_known none = false
  is_known (some a) = true

  -- `registerFrameGen` and `registerDriverFactory`.
  pub register : String → A → Registry A → Option (Registry A)
  register name a r =
      if is_known (find name (entries r)) then none else some (some (insert name a (entries r)))

  -- `FrameSource_impl::newSource` and `FrameSource_impl::exists`.
  pub new_source : String → Registry A → Option A
  new_source name none = none
  new_source name (some es) = find name es

  pub source_exists : String → Registry A → Bool
  source_exists name none = false
  source_exists name (some es) = is_known (find name es)

  -- `Driver::newDriver` and `Driver::exists`, which assert that there is a map.
  pub new_driver : String → Registry A → Option (Option A)
  new_driver name none = none
  new_driver name (some es) = some (find name es)

  pub driver_exists : String → Registry A → Option Bool
  driver_exists name none = none
  driver_exists name (some es) = some (is_known (find name es))

  -- `enemerateFrameGenTypes` and `enemerateDrivers`.
  pub enumerate : Registry A → List String
  enumerate r = map (λ e. e.0) (entries r)
