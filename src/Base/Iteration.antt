-- ===== src/Base/Iteration.antt =====
-- Python's `for`, `len` and `in` on the values of `Value`.
use Prim.Native.String.{String}
use mathlib.Core.Bool.{Bool, true, false}
use mathlib.Core.List.{List, [], ◌∷◌}
use mathlib.Core.Option.{Option, none, some}
use dev_ops_agent_swarm.Base.Compare.{value_eq}
use dev_ops_agent_swarm.Base.Lists.{any}
use dev_ops_agent_swarm.Base.Result.{Result, ok, raise, key_error, index_error, type_error, ◌>>=◌}
use dev_ops_agent_swarm.Base.Text.{characters, contains}
use dev_ops_agent_swarm.Base.Value.{
  Value, Items, nil, cons, Fields, end, field, str, list, dict, get, as_key,
}

-- the elements that a `for` loop sees
abbrev pub elements : Items → List Value
elements nil = []
elements (cons v vs) = v ∷ elements vs

abbrev pub texts : List String → List Value
texts [] = []
texts (s ∷ ss) = str s ∷ texts ss

abbrev pub keys : Fields → List Value
keys end = []
keys (field k _ d) = str k ∷ keys d

-- `for x in v`
abbrev pub iterated : Value → Result (List Value)
iterated (list xs) = ok (elements xs)
iterated (str s) = ok (texts (characters s))
iterated (dict d) = ok (keys d)
iterated _ = raise type_error

-- `s in text`, where `s` must be a text
abbrev pub text_in : String → Value → Result Bool
text_in t (str s) = ok (contains s t)
text_in t _ = raise type_error

abbrev pub is_key : Fields → Value → Bool
is_key d (str s) = found (get s d)
  where
    found : Option Value → Bool
    found none = false
    found (some _) = true
is_key d _ = false

-- `x in v`
abbrev pub member : Value → Value → Result Bool
member x (list xs) = ok (any (λ y. value_eq x y) (elements xs))
member x (dict d) = as_key x >>= λ k. ok (is_key d k)
member x (str t) = text_in t x
member x _ = raise type_error

abbrev pub first_character : List String → Result Value
first_character [] = raise key_error
first_character (c ∷ _) = ok (str c)

-- `v[0]`, where `v` is truthy
abbrev pub first_of : Value → Result Value
first_of (list (cons v _)) = ok v
first_of (str s) = first_character (characters s)
first_of (dict _) = raise key_error
first_of _ = raise type_error

-- `v[1]`
abbrev pub element_one : Value → Result Value
element_one (list (cons _ (cons v _))) = ok v
element_one (list _) = raise index_error
element_one (str s) = character_one (characters s)
  where
    character_one : List String → Result Value
    character_one (_ ∷ c ∷ _) = ok (str c)
    character_one _ = raise index_error
element_one (dict _) = raise key_error
element_one _ = raise type_error
