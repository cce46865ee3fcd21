-- ===== src/Prelude/Text.antt =====
-- Whole texts, compared by `==`: codes and keys of the source are strings.
pub use Prim.Native.String.{String}
pub use text.Mathlib.Text.{◌==◌ as str_eq}
pub use text.Mathlib.TextEquality.{eq_iff}
pub use text.Mathlib.TextPositions.{eq_refl}
use cross_pilot.Prelude.{
  if◌then◌else◌, ◌≡◌, refl, Bool, false, ◌||◌, Option, none, some, List, [], ◌∷◌, arith,
}

-- `code in codes`
abbrev pub mem_text : String → List String → Bool
mem_text s [] = false
mem_text s (t ∷ ts) = str_eq s t || mem_text s ts

-- A Python dict with string keys, in insertion order.
module _ {ℓ} {V : Type ℓ} where
  -- `d.get(k)`
  abbrev pub dict_get : String → List (String × V) → Option V
  dict_get k [] = none
  dict_get k ((j, v) ∷ d) = if str_eq j k then some v else dict_get k d

  -- `d[k] = v`
  abbrev pub dict_set : String → V → List (String × V) → List (String × V)
  dict_set k v [] = (k, v) ∷ []
  dict_set k v ((j, w) ∷ d) = if str_eq j k then (j, v) ∷ d else (j, w) ∷ dict_set k v d

  pub dict_get-dict_set :
      (k j : String) (v : V) (d : List (String × V))
      → dict_get j (dict_set k v d) ≡ (if str_eq k j then some v else dict_get j d)
  dict_get-dict_set k j v [] = refl
  dict_get-dict_set k j v ((i, w) ∷ d) =
      ground (arith, eq_iff k j, eq_iff i k, eq_iff i j, dict_get-dict_set k j v d)
