-- ===== src/Base/Compare.antt =====
-- Python's `==` and `>=` on the values of `Value`. A text that is kept as its parts is compared by
-- its parts; the program compares no such text.
use Prim.Native.Nat.{ℕ, suc}
use Prim.Native.String.{compare}
use mathlib.Core.Bool.{Bool, true, false, not, ◌&&◌}
use mathlib.Core.Option.{Option, none, some}
use text.Mathlib.Text.{◌==◌, is_lt}
use dev_ops_agent_swarm.Base.Int.{ℤ, pos, negsuc, ltb_ℤ}
use dev_ops_agent_swarm.Base.Result.{Result, ok, raise, type_error}
use dev_ops_agent_swarm.Base.Tests.{nat_eq}
use dev_ops_agent_swarm.Base.Value.{
  Value, Items, nil, cons, Fields, end, field, null, bool, int, str, formatted, list, dict, get,
}

abbrev pub int_eq : ℤ → ℤ → Bool
int_eq (pos m) (pos n) = nat_eq m n
int_eq (negsuc m) (negsuc n) = nat_eq m n
int_eq _ _ = false

-- a `bool` counts as 0 or 1
abbrev pub number : Value → Option ℤ
number (bool true) = some (pos 1)
number (bool false) = some (pos 0)
number (int n) = some n
number _ = none

abbrev pub number_eq : Option ℤ → ℤ → Bool
number_eq none n = false
number_eq (some m) n = int_eq m n

abbrev pub field_count : Fields → ℕ
field_count end = 0
field_count (field _ _ d) = suc (field_count d)

unfoldable mutual
  -- `a == b`
  pub value_eq : Value → Value → Bool
  value_eq null null = true
  value_eq (bool true) b = number_eq (number b) (pos 1)
  value_eq (bool false) b = number_eq (number b) (pos 0)
  value_eq (int n) b = number_eq (number b) n
  value_eq (str s) (str t) = s == t
  value_eq (formatted xs) (formatted ys) = items_eq xs ys
  value_eq (list xs) (list ys) = items_eq xs ys
  value_eq (dict d) (dict e) = nat_eq (field_count d) (field_count e) && fields_in d e
  value_eq _ _ = false

  pub items_eq : Items → Items → Bool
  items_eq nil nil = true
  items_eq (cons x xs) (cons y ys) = value_eq x y && items_eq xs ys
  items_eq _ _ = false

  -- each entry of the first `dict` stands in the second
  pub fields_in : Fields → Fields → Bool
  fields_in end e = true
  fields_in (field k v d) e =
      elim (get k e) [ none ↦ false | some w ↦ value_eq v w ] && fields_in d e

abbrev pub number_at_least : ℤ → Option ℤ → Result Bool
number_at_least m none = raise type_error
number_at_least m (some n) = ok (not (ltb_ℤ m n))

unfoldable mutual
  unfolding value_eq

  -- `a >= b`, which raises for values that have no order
  pub at_least : Value → Value → Result Bool
  at_least (bool true) b = number_at_least (pos 1) (number b)
  at_least (bool false) b = number_at_least (pos 0) (number b)
  at_least (int n) b = number_at_least n (number b)
  at_least (str s) (str t) = ok (not (is_lt (compare s t)))
  at_least (list xs) (list ys) = items_at_least xs ys
  at_least _ _ = raise type_error

  -- the first elements that differ decide
  pub items_at_least : Items → Items → Result Bool
  items_at_least xs nil = ok true
  items_at_least nil (cons y ys) = ok false
  items_at_least (cons x xs) (cons y ys) = elim (value_eq x y) [
    | true ↦ items_at_least xs ys
    | false ↦ at_least x y
  ]
