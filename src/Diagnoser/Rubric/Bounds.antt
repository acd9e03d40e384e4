-- ===== src/Diagnoser/Rubric/Bounds.antt =====
-- The range of the rubric's scores.
use dev_ops_agent_swarm.Base.{
  ℕ, ◌≤◌, ◌≡◌, subst, String, Bool, true, false, List, [], ◌∷◌, length, arith, leb, ◌*◌,
  if◌then◌else◌,
}
use dev_ops_agent_swarm.Base.Compare.{at_least}
use dev_ops_agent_swarm.Base.Iteration.{iterated}
use dev_ops_agent_swarm.Base.Result.{Result, ok, ◌>>=◌, >>=-eq-ok, ok-injective}
use dev_ops_agent_swarm.Base.Value.{Value, nil, Fields, end, str, list, dict, get_or, as_dict}
use dev_ops_agent_swarm.Diagnoser.Rubric.{
  temporal_grade, shortly_after, direct, indirect, score_graph_plausibility, covered,
  score_evidence_coverage, explained_count, grade_events, score_temporal_fit, score, least,
  timestamps, as_text,
}

-- a result that returns at most `n`
pub record AtMost (n : ℕ) (r : Result ℕ) : Type 0 where
  pub bound : (k : ℕ) → r ≡ ok k → k ≤ n

AtMost-ok : {n : ℕ} (k : ℕ) → k ≤ n → AtMost n (ok k)
AtMost-ok {n} k h = record { bound = λ j e. subst (λ i. i ≤ n) (ok-injective e) h }

AtMost->>= :
    {A : Type 0} {n : ℕ} (m : Result A) (f : A → Result ℕ)
    → ((a : A) → AtMost n (f a))
    → AtMost n (m >>= f)
AtMost->>= m f h = record { bound = λ k e. let (a, _, e') = >>=-eq-ok m f e in (h a).bound k e' }

AtMost-if :
    {n : ℕ} (b : Bool) {x y : Result ℕ} → AtMost n x → AtMost n y → AtMost n (if b then x else y)
AtMost-if true h k = h
AtMost-if false h k = k

Grade : (n a b : ℕ) (c : Bool) → a ≤ n → b ≤ n → (if c then a else b) ≤ n
Grade n a b true h k = h
Grade n a b false h k = k

temporal_grade-AtMost : (x y : Value) → AtMost 300 (temporal_grade x y)
unfolding temporal_grade
temporal_grade-AtMost x y = AtMost->>= (at_least y x) _ λ first.
    AtMost-if first (AtMost-ok 300 (omega arith)) (
      AtMost->>= (shortly_after x y) _
        λ near. AtMost-ok _ (Grade 300 210 60 near (omega arith) (omega arith)))

graph-AtMost : (h c : Fields) → AtMost 300 (score_graph_plausibility h c)
unfolding score_graph_plausibility
graph-AtMost h c = AtMost-if _ (AtMost-ok 150 (omega arith)) (
    AtMost->>= (iterated (get_or "affected_services" (list nil) c)) _ λ services.
      AtMost->>= (as_dict (get_or "dependency_graph" (dict end) c)) _ λ graph.
        AtMost->>= (direct graph (get_or "root_cause_service" (str "") h) services) _ λ found.
          AtMost-if found (AtMost-ok 300 (omega arith)) (
            AtMost->>= (indirect graph (get_or "root_cause_service" (str "") h) services) _
              λ near. AtMost-ok _ (Grade 300 180 0 near (omega arith) (omega arith))))

-- `min` of two numbers is at most the second.
least_le : (a b : ℕ) → (if leb a b then a else b) ≤ b
least_le a b = ground arith

module _ (rounded : ℕ → ℕ → ℕ → ℕ) (words : Value → List String) (lower : String → String)
    (mentions : String → Value → Bool) where
  events-AtMost :
      (roots others : List Value)
      → AtMost 300 (grade_events rounded words lower mentions roots others)
  unfolding grade_events
  events-AtMost [] others = AtMost-ok 150 (omega arith)
  events-AtMost (x ∷ xs) [] = AtMost-ok 150 (omega arith)
  events-AtMost (x ∷ xs) (y ∷ ys) =
      AtMost->>= (least (timestamps (x ∷ xs))) _
        λ a. AtMost->>= (least (timestamps (y ∷ ys))) _ λ b. temporal_grade-AtMost a b

  temporal-AtMost :
      (h c : Fields) → AtMost 300 (score_temporal_fit rounded words lower mentions h c)
  unfolding score_temporal_fit
  temporal-AtMost h c = AtMost-if _ (AtMost-ok 150 (omega arith)) (
      AtMost->>= (iterated (get_or "recent_events" (list nil) c)) _ λ events.
        AtMost->>= (as_text (get_or "root_cause_service" (str "") h)) _ λ root. events-AtMost _ _)

  module _ (range : (c n w : ℕ) → c ≤ n → rounded c n w ≤ w * 10) where
    covered-bound : (count size : ℕ) → covered rounded words lower mentions count size ≤ 400
    unfolding covered
    covered-bound count size = range _ _ 40 (least_le count (if leb 1 size then size else 1))

    evidence-AtMost :
        (h c : Fields) → AtMost 400 (score_evidence_coverage rounded words lower mentions h c)
    unfolding score_evidence_coverage
    evidence-AtMost h c =
        AtMost-if _
          (AtMost->>=
            (explained_count rounded words lower mentions h (get_or "anomalies" (list nil) c)) _
            λ count.
              AtMost->>= (iterated (get_or "anomalies" (list nil) c)) _
                λ anomalies. AtMost-ok _ (covered-bound count (length anomalies)))
          (AtMost-ok 200 (omega arith))

    -- If the rounding of a quotient of at most one, times a weight, is at most the weight: a score
    -- that is computed is at most 100 points.
    pub score_bounds :
        (hypothesis context : Fields) {s : ℕ}
        → score rounded words lower mentions hypothesis context ≡ ok s
        → s ≤ 1000
    unfolding score
    score_bounds hypothesis context {s} e =
        let (evidence, e1, r1) =
          >>=-eq-ok (score_evidence_coverage rounded words lower mentions hypothesis context) _ e in
        let (temporal, e2, r2) =
          >>=-eq-ok (score_temporal_fit rounded words lower mentions hypothesis context) _ r1 in
        let (graph, e3, r3) = >>=-eq-ok (score_graph_plausibility hypothesis context) _ r2 in
        let a : evidence ≤ 400 = (evidence-AtMost hypothesis context).bound evidence e1 in
        let b : temporal ≤ 300 = (temporal-AtMost hypothesis context).bound temporal e2 in
        let c : graph ≤ 300 = (graph-AtMost hypothesis context).bound graph e3 in
        subst (λ k. k ≤ 1000) (ok-injective r3) (omega (arith, a, b, c))
