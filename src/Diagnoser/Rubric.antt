-- ===== src/Diagnoser/Rubric.antt =====
-- The rubric of `DebateEngine` (agents/diagnoser/src/debate_engine.py). Scores are counted in tenths
-- of a point. `rounded c n w` is `round(c / n * w, 1)` in tenths, `words v` is
-- `str(v).lower().split()`, `lower` is `str.lower`, and `mentions s v` is `s in str(v)`.
pub mod Bounds
pub mod Collected
use dev_ops_agent_swarm.Base.{
  ℕ, ◌+◌, ◌-◌, ◌*◌, String, Bool, true, false, not, List, [], ◌∷◌, any, filter, length, leb, Option,
  none, some, ◌&&◌, ◌||◌, if◌then◌else◌,
}
use dev_ops_agent_swarm.Base.Compare.{at_least, number}
use dev_ops_agent_swarm.Base.Int.{ℤ, pos, pos_part, neg_part, ltb_ℤ, sub_ℕ}
use dev_ops_agent_swarm.Base.Iteration.{iterated, member}
use dev_ops_agent_swarm.Base.Result.{
  Result, ok, raise, value_error, attribute_error, type_error, ◌>>=◌,
}
use dev_ops_agent_swarm.Base.Text.{contains}
use dev_ops_agent_swarm.Base.Value.{
  Value, nil, cons, Fields, end, null, int, str, list, dict, get_or, as_dict, as_key, truthy,
}

-- the receiver of `.lower()` must be a text
abbrev pub lowered : (String → String) → Value → Result String
lowered lower (str s) = ok (lower s)
lowered lower _ = raise attribute_error

-- the left side of `in str(e)` must be a text
abbrev pub as_text : Value → Result String
as_text (str s) = ok s
as_text _ = raise type_error

abbrev pub is_dict : Value → Bool
is_dict (dict _) = true
is_dict _ = false

-- `e.get("timestamp", 0)` of the elements that are a `dict`
abbrev pub timestamps : List Value → List Value
timestamps [] = []
timestamps (dict d ∷ es) = get_or "timestamp" (int (pos 0)) d ∷ timestamps es
timestamps (_ ∷ es) = timestamps es

-- `min(…)` of what follows the first element
unfoldable pub least_from : Value → List Value → Result Value
least_from v [] = ok v
least_from v (x ∷ xs) = do later ← at_least x v; least_from (if later then v else x) xs

unfoldable pub least : List Value → Result Value
least [] = raise value_error
least (v ∷ vs) = least_from v vs

-- `a - b` of two numbers
abbrev pub minus : Option ℤ → Option ℤ → Result ℤ
minus (some a) (some b) = ok (sub_ℕ (pos_part a + neg_part b) (neg_part a + pos_part b))
minus _ _ = raise type_error

-- whether `first_root - first_other < 60`
unfoldable pub shortly_after : Value → Value → Result Bool
shortly_after first_root first_other = do
  gap ← minus (number first_root) (number first_other)
  ok (ltb_ℤ gap (pos 60))

-- the three grades of the temporal fit
unfoldable pub temporal_grade : Value → Value → Result ℕ
temporal_grade first_root first_other = do
  first ← at_least first_other first_root
  (if first
      then ok 300
      else (do near ← shortly_after first_root first_other; ok (if near then 210 else 60)))

-- `dependency_graph.get(svc, [])`
abbrev pub dependencies : Fields → Value → Result Value
dependencies graph (str s) = ok (get_or s (list nil) graph)
dependencies graph svc = as_key svc >>= λ k. ok (list nil)

-- the loop over the affected services for a direct dependency
unfoldable pub direct : Fields → Value → List Value → Result Bool
direct graph root [] = ok false
direct graph root (svc ∷ rest) =
    let later = direct graph root rest in
    do deps ← dependencies graph svc; found ← member root deps; (if found then ok true else later)

-- the inner loop over the dependencies of one service
unfoldable pub second_hand : Fields → Value → List Value → Result Bool
second_hand graph root [] = ok false
second_hand graph root (dep ∷ rest) =
    let later = second_hand graph root rest in
    do deps ← dependencies graph dep; found ← member root deps; (if found then ok true else later)

-- the loop for a dependency of a dependency
unfoldable pub indirect : Fields → Value → List Value → Result Bool
indirect graph root [] = ok false
indirect graph root (svc ∷ rest) =
    let later = indirect graph root rest in
    do
      deps ← dependencies graph svc
      each ← iterated deps
      found ← second_hand graph root each
      (if found then ok true else later)

unfoldable pub score_graph_plausibility : Fields → Fields → Result ℕ
score_graph_plausibility hypothesis context =
    let root = get_or "root_cause_service" (str "") hypothesis in
    let affected = get_or "affected_services" (list nil) context in
    let dependency_graph = get_or "dependency_graph" (dict end) context in
    if not (truthy dependency_graph) || not (truthy affected) then ok 150 else (do
      services ← iterated affected
      graph ← as_dict dependency_graph
      found ← direct graph root services
      (if found
          then ok 300
          else (do near ← indirect graph root services; ok (if near then 180 else 0))))

module _ (rounded : ℕ → ℕ → ℕ → ℕ) (words : Value → List String) (lower : String → String)
    (mentions : String → Value → Bool) where
  -- the anomalies with a word that stands in the reasoning
  abbrev pub overlap : String → List Value → ℕ
  overlap reasoning anomalies =
      length (filter (λ a. any (λ kw. contains kw reasoning) (words a)) anomalies)

  unfoldable pub explained_count : Fields → Value → Result ℕ
  explained_count hypothesis observed =
      if truthy (get_or "explained_anomalies" (list nil) hypothesis)
      then (do
        explained ← iterated (get_or "explained_anomalies" (list nil) hypothesis)
        ok (length explained))
      else (do
        reasoning ← lowered lower (get_or "reasoning" (str "") hypothesis)
        anomalies ← iterated observed
        ok (overlap reasoning anomalies))

  -- `min(explained_count / max(len(anomalies), 1), 1.0)` is the quotient of the least of the two
  -- and the second, and `_EVIDENCE_WEIGHT` is 40.
  unfoldable pub covered : ℕ → ℕ → ℕ
  covered count size =
      let n = if leb 1 size then size else 1 in rounded (if leb count n then count else n) n 40

  unfoldable pub score_evidence_coverage : Fields → Fields → Result ℕ
  score_evidence_coverage hypothesis context =
      let observed = get_or "anomalies" (list nil) context in
      if truthy observed
      then (do
        count ← explained_count hypothesis observed
        anomalies ← iterated observed
        ok (covered count (length anomalies)))
      else ok 200

  -- the events that mention the root service, and the others
  unfoldable pub grade_events : List Value → List Value → Result ℕ
  grade_events [] others = ok 150
  grade_events roots [] = ok 150
  grade_events roots others = do
    first_root ← least (timestamps roots)
    first_other ← least (timestamps others)
    temporal_grade first_root first_other

  unfoldable pub score_temporal_fit : Fields → Fields → Result ℕ
  score_temporal_fit hypothesis context =
      let root = get_or "root_cause_service" (str "") hypothesis in
      let recent_events = get_or "recent_events" (list nil) context in
      if not (truthy recent_events) || not (truthy root) then ok 150 else (do
        events ← iterated recent_events
        root_service ← as_text root
        grade_events (filter (mentions root_service) events)
            (filter (λ e. not (mentions root_service e)) events))

  unfoldable pub score : Fields → Fields → Result ℕ
  score hypothesis context = do
    evidence ← score_evidence_coverage hypothesis context
    temporal ← score_temporal_fit hypothesis context
    graph ← score_graph_plausibility hypothesis context
    ok (evidence + temporal + graph)
