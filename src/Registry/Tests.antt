-- ===== src/Registry/Tests.antt =====
-- The registries of src/framesource_impl.cpp and src/driver.cpp with two classes.
use lucifer.Prelude.{ℕ, ◌≡◌, refl, ap, ◌≢◌, true, false, none, some, [], ◌∷◌}
use Prim.Native.String.{String}
use lucifer.Registry.{Registry, register, new_source, source_exists, new_driver, enumerate}
use text.Mathlib.Text.{◌==◌ as str_eq}
use lucifer.Registry.Names.{register-finds}

abbrev frames_only : Registry ℕ
frames_only = some (("StaticFrame", 1) ∷ [])

abbrev with_rotator : Registry ℕ
with_rotator = some (("ColourRotator", 2) ∷ ("StaticFrame", 1) ∷ [])

abbrev rotator : String
rotator = "ColourRotator"

abbrev static_frame : String
static_frame = "StaticFrame"

different : rotator ≢ static_frame
different e = let same : true ≡ false = ap (λ s. str_eq rotator s) e in cc

register-finds_example :
    (new_source "ColourRotator" with_rotator ≡ some 2)
    × (new_driver "ColourRotator" with_rotator ≡ some (some 2))
    × (source_exists "ColourRotator" with_rotator ≡ true)
    × (new_source "StaticFrame" with_rotator ≡ new_source "StaticFrame" frames_only)
    × (register "ColourRotator" 3 with_rotator ≡ none)
unfolding register
register-finds_example =
    register-finds rotator static_frame 2 3 frames_only with_rotator different refl

in_order : enumerate with_rotator ≡ "ColourRotator" ∷ "StaticFrame" ∷ []
unfolding enumerate
in_order = refl
