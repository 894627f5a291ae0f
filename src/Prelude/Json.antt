-- ===== src/Prelude/Json.antt =====
-- Values of the language that the code passes through, `unknown` or `any` there. `undefined` is
-- `none` where a value may be absent. Numbers are natural.
use Prim.Native.Nat.{ℕ}
use Prim.Native.String.{String}
use mathlib.Core.Bool.{Bool}
use mathlib.Core.Option.{Option, none, some}
use mathlib.Core.List.{List, [], ◌∷◌}
use text.Mathlib.Text.{◌==◌ as str_eq}
use bataudit.Prelude.Tests.{if◌then◌else◌}

mutual
  pub data Json : Type 0 where
    null : Json
    bool : Bool → Json
    num : ℕ → Json
    str : String → Json
    arr : Items → Json
    obj : Fields → Json

  pub data Items : Type 0 where
    nil : Items
    cons : Json → Items → Items

  pub data Fields : Type 0 where
    end : Fields
    field : String → Json → Fields → Fields

-- The property of that name, `undefined` if there is none.
abbrev pub get_field : String → Fields → Option Json
get_field k end = none
get_field k (field j v fs) = if str_eq j k then some v else get_field k fs

-- An object literal: a property whose value is `undefined` is left out, as `JSON.stringify` does.
abbrev pub object : List (String × Option Json) → Fields
object [] = end
object ((k, none) ∷ r) = object r
object ((k, some v) ∷ r) = field k v (object r)
