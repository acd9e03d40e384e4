-- ===== src/Observer/Numbers.antt =====
-- The floating-point numbers of the observer, as far as its modules compute with them: an interface,
-- with what a comparison of numbers that are no NaN satisfies.
use dev_ops_agent_swarm.Base.{ℕ, Bool, true, false, List, ◌≡◌}
use dev_ops_agent_swarm.Base.Result.{Result}
use dev_ops_agent_swarm.Base.Value.{Value}

-- `mean` and `stdev` are those of Python's `statistics`, `div` is asked for with a divisor that is not
-- zero, `rounded n x` is `round(x, n)`, `of_value` is `float` and `to_value` the JSON number.
pub record Numbers : Type 1 where
  pub Float : Type 0
  pub of_nat : ℕ → Float
  pub hundredth : Float
  pub seven_tenths : Float
  pub leb : Float → Float → Bool
  pub eqb : Float → Float → Bool
  pub add : Float → Float → Float
  pub sub : Float → Float → Float
  pub mul : Float → Float → Float
  pub div : Float → Float → Float
  pub magnitude : Float → Float
  pub rounded : ℕ → Float → Float
  pub mean : List Float → Result Float
  pub stdev : List Float → Result Float
  pub of_value : Value → Result Float
  pub to_value : Float → Value

-- `<=` is a total order
pub record IsOrdered (n : Numbers) : Type 0 where
  pub total : (a b : n.Float) → n.leb a b ≡ false → n.leb b a ≡ true
  pub trans : (a b c : n.Float) → n.leb a b ≡ true → n.leb b c ≡ true → n.leb a c ≡ true
