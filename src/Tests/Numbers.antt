-- ===== src/Tests/Numbers.antt =====
-- The natural numbers as the numbers of the observer and the learner.
use dev_ops_agent_swarm.Base.{ℕ, ◌+◌, ◌-◌, ◌*◌, List, [], ◌∷◌, leb, nat_eq, arith}
use dev_ops_agent_swarm.Base.Int.{pos}
use dev_ops_agent_swarm.Base.Result.{Result, ok, raise, value_error}
use dev_ops_agent_swarm.Base.Value.{int}
use dev_ops_agent_swarm.Observer.Numbers.{Numbers, IsOrdered}

abbrev pub naturals : Numbers
naturals = record {
  Float = ℕ;
  of_nat = λ k. k;
  hundredth = 1;
  seven_tenths = 1;
  leb = leb;
  eqb = nat_eq;
  add = λ a b. a + b;
  sub = λ a b. a - b;
  mul = λ a b. a * b;
  div = λ a b. a;
  magnitude = λ a. a;
  rounded = λ digits a. a;
  mean = first;
  stdev = first;
  of_value = λ v. raise value_error;
  to_value = λ a. int (pos a);
}
  where
    first : List ℕ → Result ℕ
    first [] = raise value_error
    first (x ∷ xs) = ok x

pub naturals-IsOrdered : IsOrdered naturals
naturals-IsOrdered = record { total = λ a b h. ground arith; trans = λ a b c h k. ground arith }
