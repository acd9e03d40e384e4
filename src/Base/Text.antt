-- ===== src/Base/Text.antt =====
-- Python's `in` and `str.replace` on texts.
use Prim.Native.Nat.{ℕ, zero, suc, ◌-◌}
use Prim.Native.String
use Prim.Native.String.{String}
use mathlib.Core.Bool.{Bool, true, false}
use mathlib.Core.List.{List, [], ◌∷◌}
use mathlib.Core.Option.{Option, none, some}
use text.Mathlib.Text.{starts_with, find?}
use dev_ops_agent_swarm.Base.Tests.{if◌then◌else◌}

abbrev pub is_some {ℓ} : {A : Type ℓ} → Option A → Bool
is_some none = false
is_some (some _) = true

-- `pattern in s`
unfoldable pub contains : String → String → Bool
contains pattern s = is_some (find? s pattern)

-- the rest of a replacement, where `skip` characters belong to a match
unfoldable pub replace_from : ℕ → String → String → String → String
replace_from skip pattern new String.[] = String.[]
replace_from (suc skip) pattern new (String.◌∷◌ c s) = replace_from skip pattern new s
replace_from zero pattern new (String.◌∷◌ c s) =
    let matched = String.◌++◌ new (replace_from (String.count pattern - 1) pattern new s) in
    let passed = String.◌∷◌ c (replace_from zero pattern new s) in
    if starts_with (String.◌∷◌ c s) pattern then matched else passed

-- `s.replace(pattern, new)`, for a pattern that is not empty
unfoldable pub replace : String → String → String → String
unfolding replace_from
replace s pattern new = replace_from zero pattern new s

-- `s` as the texts of its characters
abbrev pub characters : String → List String
characters String.[] = []
characters (String.◌∷◌ c s) = String.◌∷◌ c String.[] ∷ characters s
