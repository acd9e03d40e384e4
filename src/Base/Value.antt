-- ===== src/Base/Value.antt =====
-- The values that JSON and YAML give a Python program: what `dict.get`, truth tests, `==` with a
-- text and `in` of a `dict` do with them. Numbers are integers. The text of an f-string is kept as
-- the list of its parts; the program only passes such a text on.
use Prim.Native.String.{String}
use mathlib.Core.Bool.{Bool, true, false, not}
use mathlib.Core.List.{List, [], ◌∷◌}
use mathlib.Core.Option.{Option, none, some}
use text.Mathlib.Text.{◌==◌}
use dev_ops_agent_swarm.Base.Int.{ℤ, pos, negsuc}
use dev_ops_agent_swarm.Base.Result.{Result, ok, raise, attribute_error, type_error}
use dev_ops_agent_swarm.Base.Tests.{if◌then◌else◌, nat_eq}

mutual
  pub data Value : Type 0 where
    null : Value
    bool : Bool → Value
    int : ℤ → Value
    str : String → Value
    formatted : Items → Value
    list : Items → Value
    dict : Fields → Value

  pub data Items : Type 0 where
    nil : Items
    cons : Value → Items → Items

  pub data Fields : Type 0 where
    end : Fields
    field : String → Value → Fields → Fields

-- `d.get(k)` of a `dict`; the keys are distinct
unfoldable pub get : String → Fields → Option Value
get k end = none
get k (field j v d) = if j == k then some v else get k d

-- `d.get(k, default)`
abbrev pub get_or : String → Value → Fields → Value
get_or k default d = elim (get k d) [ none ↦ default | some v ↦ v ]

-- `d[k] = v` of a `dict`
unfoldable pub set : String → Value → Fields → Fields
set k v end = field k v end
set k v (field j w d) = if j == k then field j v d else field j w (set k v d)

-- the receiver of a call `.get(…)`: only a `dict` has that method
abbrev pub as_dict : Value → Result Fields
as_dict (dict d) = ok d
as_dict _ = raise attribute_error

-- `bool(v)`
abbrev pub truthy : Value → Bool
truthy null = false
truthy (bool b) = b
truthy (int (pos n)) = not (nat_eq n 0)
truthy (int (negsuc n)) = true
truthy (str s) = not (s == "")
truthy (formatted _) = true
truthy (list nil) = false
truthy (list (cons _ _)) = true
truthy (dict end) = false
truthy (dict (field _ _ _)) = true

-- `a or b`
abbrev pub or_else : Value → Value → Value
or_else a b = if truthy a then a else b

-- `v == "…"`
abbrev pub is_text : String → Value → Bool
is_text s (str t) = t == s
is_text s _ = false

-- `v is True`
abbrev pub is_true : Value → Bool
is_true (bool b) = b
is_true _ = false

-- a value used as a key: a `list` or a `dict` is unhashable
abbrev pub as_key : Value → Result Value
as_key (list _) = raise type_error
as_key (dict _) = raise type_error
as_key v = ok v

-- `f"{a}…{b}"`
abbrev pub f_string : List Value → Value
f_string parts = formatted (items parts)
  where
    items : List Value → Items
    items [] = nil
    items (v ∷ vs) = cons v (items vs)
