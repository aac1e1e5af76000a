-- ===== src/Prelude/Json.antt =====
-- Values of `json.loads`. A number with a fraction keeps its text; the program that is modelled
-- here only asks whether a number is an int.
use mathlib.Core.Bool.{Bool}
use mathlib.Core.Option.{Option, none, some}
use Prim.Native.Nat.{ℕ}
use Prim.Native.String.{String}
use mathlib.Core.List.{List, [], ◌∷◌}
use text.Mathlib.Text.{◌==◌}
use evgenium_network_linux.Prelude.Tests.{if◌then◌else◌}

mutual
  pub data Json : Type 0 where
    null : Json
    boolean : Bool → Json
    int : ℕ → Json
    negative : ℕ → Json
    float : String → Json
    string : String → Json
    array : Items → Json
    object : Fields → Json

  pub data Items : Type 0 where
    no_items : Items
    item : Json → Items → Items

  pub data Fields : Type 0 where
    no_fields : Fields
    field : String → Json → Fields → Fields

unfoldable pub find_field : String → Fields → Option Json
find_field k Fields.no_fields = none
find_field k (Fields.field j v rest) = if k == j then some v else find_field k rest

-- the keys of an object, `set(body)`
unfoldable pub field_names : Fields → List String
field_names Fields.no_fields = []
field_names (Fields.field k v rest) = k ∷ field_names rest

-- the value if it is a `str`
abbrev pub as_text : Option Json → Option String
as_text (some (Json.string s)) = some s
as_text _ = none

-- the value if it is an `int` that is not negative
abbrev pub as_int : Option Json → Option ℕ
as_int (some (Json.int n)) = some n
as_int _ = none
