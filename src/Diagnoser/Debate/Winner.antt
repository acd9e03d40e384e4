-- ===== src/Diagnoser/Debate/Winner.antt =====
-- Which hypothesis wins a debate.
use dev_ops_agent_swarm.Base.{
  ℕ, ◌<◌, ltb, ltb→lt, ◌≡◌, refl, ap, sym, subst, String, Bool, true, false, List, [], ◌∷◌, ◌++◌,
  All, All-append, ◌≢◌, arith, ◌⊎◌, inl, inr, Bool-cases,
}
use dev_ops_agent_swarm.Base.Int.{ℤ, ltb_ℤ}
use dev_ops_agent_swarm.Base.Result.{Result, ok, raise, >>=-eq-ok, ok-injective}
use dev_ops_agent_swarm.Base.Value.{Value, Fields}
use dev_ops_agent_swarm.Diagnoser.Debate.{
  Scored, outranked, insert_scored, ranked, candidates, with_alternative, boosted, chosen_from,
  scored, resolve,
}
use dev_ops_agent_swarm.Diagnoser.Rubric.{score}

-- the first entry has a lower rubric, or the same rubric and a lower confidence
abbrev pub Below : Scored → Scored → Type 0
Below a b =
    (a.rubric < b.rubric) ⊎ ((a.rubric ≡ b.rubric) × (ltb_ℤ a.confidence b.confidence ≡ true))

-- the first of the entries that is below none: those before it are below it
abbrev pub Best : List Scored → Scored → Type 0
Best entries winner =
    (before : List Scored) × (after : List Scored) × (entries ≡ before ++ winner ∷ after)
    × All (λ x. Below x winner) before
    × All (λ x. ¬ (Below winner x)) after

outranked-Below : (a b : Scored) → outranked a b ≡ true → Below a b
outranked-Below a b h = elim (Bool-cases (ltb a.rubric b.rubric)) [
  | inl less ↦ inl (ltb→lt a.rubric b.rubric less)
  | inr same ↦ inr (ground arith, ground arith)
]

not_outranked-Below : (a b : Scored) → outranked a b ≡ false → ¬ (Below a b)
not_outranked-Below a b h (inl less) = absurd (ground arith)
not_outranked-Below a b h (inr (same, less)) = absurd (ground arith)

-- the same, by the test of the sort
abbrev First : List Scored → Scored → Type 0
First entries winner =
    (before : List Scored) × (after : List Scored) × (entries ≡ before ++ winner ∷ after)
    × All (λ x. outranked x winner ≡ true) before
    × All (λ x. outranked winner x ≡ false) after

not_outranked-earlier :
    (x y z : Scored) → outranked x z ≡ false → outranked y z ≡ true → outranked x y ≡ false
not_outranked-earlier x y z h k = ground arith

not_outranked-later :
    (x y z : Scored) → outranked x z ≡ false → outranked z y ≡ false → outranked x y ≡ false
not_outranked-later x y z h k = ground arith

All-map :
    {P Q : Scored → Type 0} (xs : List Scored) → ((x : Scored) → P x → Q x) → All P xs → All Q xs
All-map [] f h = h
All-map (x ∷ xs) f (h, k) = (f x h, All-map xs f k)

First-Best : (entries : List Scored) (winner : Scored) → First entries winner → Best entries winner
First-Best entries winner (before, after, split, low, high) = (
  before,
  after,
  split,
  All-map before (λ x h. outranked-Below x winner h) low,
  All-map after (λ x h. not_outranked-Below winner x h) high,
)

-- a new first entry that is not outranked by the best of the others
not_outranked-rest :
    (x z : Scored) (entries : List Scored)
    → outranked x z ≡ false
    → First entries z
    → All (λ y. outranked x y ≡ false) entries
not_outranked-rest x z entries h (before, after, split, low, high) =
    subst (All λ y. outranked x y ≡ false) (sym split) (
      All-append _ before (z ∷ after) (All-map before (λ y k. not_outranked-earlier x y z h k) low)
        (h, All-map after (λ y k. not_outranked-later x y z h k) high))

-- how the first of a ranking comes about
insert_scored-First :
    (x : Scored) (entries sorted : List Scored)
    → ((entries ≡ []) × (sorted ≡ []))
      ⊎ ((z : Scored) × (zs : List Scored) × (sorted ≡ z ∷ zs) × First entries z)
    → (w : Scored) × (ws : List Scored) × (insert_scored x sorted ≡ w ∷ ws) × First (x ∷ entries) w
unfolding insert_scored
insert_scored-First x entries sorted (inl (empty, nothing)) =
    (x, [], rw nothing refl, ([], [], rw empty refl, tt, tt))
insert_scored-First x entries sorted (inr (z, zs, s, best)) = branch (Bool-cases (outranked x z))
  where
    branch :
        (outranked x z ≡ true) ⊎ (outranked x z ≡ false)
        → (w : Scored) × (ws : List Scored) × (insert_scored x sorted ≡ w ∷ ws)
          × First (x ∷ entries) w
    branch (inl low) =
        let (before, after, split, lows, highs) = best in
        (
          z,
          insert_scored x zs,
          rw (s, low) refl,
          (x ∷ before, after, ap (λ l. x ∷ l) split, (low, lows), highs),
        )
    branch (inr high) = (
      x,
      z ∷ zs,
      rw (s, high) refl,
      ([], entries, refl, tt, not_outranked-rest x z entries high best),
    )

ranked-First :
    (entries : List Scored)
    → ((entries ≡ []) × (ranked entries ≡ []))
      ⊎ ((z : Scored) × (zs : List Scored) × (ranked entries ≡ z ∷ zs) × First entries z)
unfolding ranked
ranked-First [] = inl (refl, refl)
ranked-First (x ∷ xs) = inr (insert_scored-First x xs (ranked xs) (ranked-First xs))

with_alternative-cons :
    (r : Result (Fields × ℤ)) (c : Fields × ℤ) (cs : List (Fields × ℤ))
    → (rest : List (Fields × ℤ)) × (with_alternative r (c ∷ cs) ≡ c ∷ rest)
with_alternative-cons (ok a) c cs = (cs ++ a ∷ [], refl)
with_alternative-cons (raise e) c cs = (cs, refl)

-- the initial hypothesis is a candidate
candidates-cons :
    (generate : ℕ → Result (Fields × ℤ)) (initial : Fields) (confidence : ℤ)
    → (rest : List (Fields × ℤ)) × (candidates generate initial confidence
        ≡ (initial, confidence) ∷ rest)
candidates-cons generate initial confidence =
    let (one, first) = with_alternative-cons (generate 1) (initial, confidence) [] in
    let (two, second) = with_alternative-cons (generate 2) (initial, confidence) one in
    (two, rw first second)

module _ (rounded : ℕ → ℕ → ℕ → ℕ) (words : Value → List String) (lower : String → String)
    (mentions : String → Value → Bool) where
  scored_cons :
      (context : Fields) (c : Fields × ℤ) (cs : List (Fields × ℤ))
      → scored rounded words lower mentions context (c ∷ cs) ≢ ok []
  unfolding scored
  scored_cons context (h, c) cs e =
      let (rubric, _, e1) = >>=-eq-ok (score rounded words lower mentions h context) _ e in
      let (others, _, e2) = >>=-eq-ok (scored rounded words lower mentions context cs) _ e1 in
      let split = ok-injective e2 in cc

  -- Where the initial hypothesis and the alternatives that could be generated are scored, the
  -- debate returns: it gives the hypothesis of the candidate with the highest rubric, of equal ones the one
  -- with the highest confidence, and of these the first, with its confidence after the boost.
  pub resolve-Best :
      (generate : ℕ → Result (Fields × ℤ)) (context initial : Fields) (confidence : ℤ)
      {entries : List Scored}
      → scored rounded words lower mentions context (candidates generate initial confidence)
        ≡ ok entries
      → (winner : Scored) × Best entries winner
        × (resolve rounded words lower mentions generate context initial confidence
            ≡ ok (winner.hypothesis, boosted initial winner.hypothesis winner.confidence))
  unfolding resolve chosen_from
  resolve-Best generate context initial confidence {entries} e = branch (ranked-First entries)
    where
      branch :
          ((entries ≡ []) × (ranked entries ≡ []))
            ⊎ ((z : Scored) × (zs : List Scored) × (ranked entries ≡ z ∷ zs) × First entries z)
          → (winner : Scored) × Best entries winner
            × (resolve rounded words lower mentions generate context initial confidence
                ≡ ok (winner.hypothesis, boosted initial winner.hypothesis winner.confidence))
      branch (inl (empty, _)) =
          let (rest, split) = candidates-cons generate initial confidence in
          absurd (scored_cons context (initial, confidence) rest (rw (sym split, sym empty) e))
      branch (inr (winner, _, sorted, best)) =
          (winner, First-Best entries winner best, rw (e, sorted) refl)
