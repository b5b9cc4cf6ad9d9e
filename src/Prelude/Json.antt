-- ===== src/Prelude/Json.antt =====
-- JSON values, as encoding/json makes them of the program's structs: a time is kept as a number.
use Prim.Native.Nat.{ℕ}
use Prim.Native.String.{String}
use mathlib.Core.Option.{Option, none, some}

mutual
  pub data Json : Type 0 where
    null : Json
    num : ℕ → Json
    time : ℕ → Json
    str : String → Json
    obj : Fields → Json

  pub data Fields : Type 0 where
    end : Fields
    field : String → Json → Fields → Fields

-- A field under `omitempty`.
abbrev pub field? : String → Option Json → Fields → Fields
field? k none rest = rest
field? k (some v) rest = field k v rest
