-- ===== src/Base/Json.antt =====
-- A JSON object held as a list of its keys and values.
use Prim.Native.String.{String}
use mathlib.Core.Path.{◌≡◌, refl}
use mathlib.Core.Bool.{Bool}
use mathlib.Core.Option.{Option, none, some}
use mathlib.Core.List.{List, [], ◌∷◌}
use mathlib.Core.Logic.{inl, inr}
use text.Mathlib.Text.{◌==◌ as str_eq}
use text.Mathlib.TextPositions.{eq_refl}
use recall_ai.Base.Tests.{if◌then◌else◌, Bool-cases}

-- A value: `null`, a text, true or false, or anything else, rendered.
pub data Value : Type 0 where
  null : Value
  str : String → Value
  flag : Bool → Value
  json : String → Value

abbrev pub Dict : Type 0
Dict = List (String × Value)

-- `d.get(key)`, where a missing key is `none`.
unfoldable pub get_key : String → Dict → Option Value
get_key key [] = none
get_key key (x ∷ d) = let rest = get_key key d in if str_eq x.0 key then some x.1 else rest

-- `{**d, key: value}`.
unfoldable pub put_key : String → Value → Dict → Dict
put_key key value [] = (key, value) ∷ []
put_key key value (x ∷ d) =
    let rest = put_key key value d in if str_eq x.0 key then (key, value) ∷ d else x ∷ rest

pub get_key-put_key :
    (key : String) (value : Value) (d : Dict) → get_key key (put_key key value d) ≡ some value
unfolding get_key put_key
get_key-put_key key value [] = rw (eq_refl key) refl
get_key-put_key key value (x ∷ d) = elim (Bool-cases (str_eq x.0 key)) [
  | inl e ↦ rw e (rw (eq_refl key) refl)
  | inr e ↦ rw e (rw e (get_key-put_key key value d))
]
