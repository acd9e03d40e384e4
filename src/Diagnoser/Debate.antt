-- ===== src/Diagnoser/Debate.antt =====
-- `DebateEngine.resolve` (agents/diagnoser/src/debate_engine.py). `generate n` is what the call of
-- `generate_hypothesis` for the alternative `n` gives.
pub mod Winner
use dev_ops_agent_swarm.Base.{
  ℕ, Bool, String, List, [], ◌∷◌, ◌++◌, ◌&&◌, ◌||◌, ltb, nat_eq, if◌then◌else◌,
}
use dev_ops_agent_swarm.Base.Compare.{value_eq}
use dev_ops_agent_swarm.Base.Int.{ℤ, pos, ltb_ℤ, ◌+ℤ◌}
use dev_ops_agent_swarm.Base.Result.{Result, ok, raise, index_error, ◌>>=◌}
use dev_ops_agent_swarm.Base.Value.{Value, Fields, null, get_or}
use dev_ops_agent_swarm.Diagnoser.Rubric.{score}

pub record Scored : Type 0 where
  pub hypothesis : Fields
  pub confidence : ℤ
  pub rubric : ℕ

-- the key of the first is less than the key of the second
abbrev pub outranked : Scored → Scored → Bool
outranked a b =
    ltb a.rubric b.rubric || (nat_eq a.rubric b.rubric && ltb_ℤ a.confidence b.confidence)

-- an entry before the first of a sorted list that does not outrank it
unfoldable pub insert_scored : Scored → List Scored → List Scored
insert_scored x [] = x ∷ []
insert_scored x (y ∷ ys) =
    let rest = insert_scored x ys in if outranked x y then y ∷ rest else x ∷ y ∷ ys

-- `scored.sort(key=…, reverse=True)`, which keeps the order of equal keys
unfoldable pub ranked : List Scored → List Scored
ranked [] = []
ranked (x ∷ xs) = insert_scored x (ranked xs)

-- an alternative that could not be generated is left out
abbrev pub with_alternative : Result (Fields × ℤ) → List (Fields × ℤ) → List (Fields × ℤ)
with_alternative (ok alternative) candidates = candidates ++ alternative ∷ []
with_alternative (raise _) candidates = candidates

abbrev pub candidates : (ℕ → Result (Fields × ℤ)) → Fields → ℤ → List (Fields × ℤ)
candidates generate hypothesis confidence =
    with_alternative (generate 2) (with_alternative (generate 1) ((hypothesis, confidence) ∷ []))

-- `min(winner_conf + 10, 100)`, if the category is the initial one
unfoldable pub boosted : Fields → Fields → ℤ → ℤ
boosted initial winner confidence =
    if value_eq (get_or "root_cause_category" null winner)
      (get_or "root_cause_category" null initial)
    then (if ltb_ℤ (pos 100) (confidence +ℤ pos 10) then pos 100 else confidence +ℤ pos 10)
    else confidence

-- `scored[0]` and the boost
unfoldable pub chosen_from : Fields → List Scored → Result (Fields × ℤ)
chosen_from initial [] = raise index_error
chosen_from initial (winner ∷ _) =
    ok (winner.hypothesis, boosted initial winner.hypothesis winner.confidence)

module _ (rounded : ℕ → ℕ → ℕ → ℕ) (words : Value → List String) (lower : String → String)
    (mentions : String → Value → Bool) where
  -- the list `scored`
  unfoldable pub scored : Fields → List (Fields × ℤ) → Result (List Scored)
  scored context [] = ok []
  scored context ((hypothesis, confidence) ∷ rest) = do
    rubric ← score rounded words lower mentions hypothesis context
    others ← scored context rest
    ok (record { hypothesis = hypothesis; confidence = confidence; rubric = rubric } ∷ others)

  unfoldable pub resolve : (ℕ → Result (Fields × ℤ)) → Fields → Fields → ℤ → Result (Fields × ℤ)
  resolve generate context initial confidence = do
    entries ← scored context (candidates generate initial confidence)
    chosen_from initial (ranked entries)
