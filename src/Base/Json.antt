-- ===== src/Base/Json.antt =====
-- Values of Go's `any`, as the program reads them from JSON or writes them to it. `stamp` is a
-- `time.Time`, in nanoseconds.
use Prim.Native.Nat.{ℕ}
use mathlib.Core.Bool.{Bool}
use mathlib.Core.Option.{Option, none, some}
use devcontainer_manager.Base.Bytes.{Str}

mutual
  pub data Json : Type 0 where
    null : Json
    bool : Bool → Json
    number : Str → Json
    string : Str → Json
    stamp : ℕ → Json
    array : Items → Json
    object : Fields → Json

  pub data Items : Type 0 where
    nil : Items
    cons : Json → Items → Items

  pub data Fields : Type 0 where
    end : Fields
    field : Str → Json → Fields → Fields

-- `value.(string)`, with its second result
abbrev pub as_string : Json → Option Str
as_string (string s) = some s
as_string _ = none
