-- ===== src/Diagnoser/Rubric/Collected.antt =====
-- The rubric on the context that the collector gives.
use dev_ops_agent_swarm.Base.{ℕ, ◌≡◌, refl, subst, Bool, String, List}
use dev_ops_agent_swarm.Base.Result.{ok, >>=-eq-ok, ok-injective}
use dev_ops_agent_swarm.Base.Value.{Value, Fields, null, get, get_or}
use dev_ops_agent_swarm.Diagnoser.Context.{Telemetry, anomaly_time, collected, collect_context}
use dev_ops_agent_swarm.Diagnoser.Rubric.{
  score, score_evidence_coverage, score_temporal_fit, score_graph_plausibility,
}

module _ (rounded : ℕ → ℕ → ℕ → ℕ) (words : Value → List String) (lower : String → String)
    (mentions : String → Value → Bool) where
  score-collected :
      (t : Telemetry) (hypothesis anomaly : Fields) (start stop : ℕ)
      → score rounded words lower mentions hypothesis (collected t anomaly start stop) ≡ ok 500
  unfolding collected score score_evidence_coverage score_temporal_fit score_graph_plausibility get
  score-collected t hypothesis anomaly start stop = refl

  -- On every context that the collector returns, each hypothesis is scored 50 points.
  pub score-collect_context :
      (t : Telemetry) (now : ℕ) (anomaly hypothesis : Fields) {context : Fields}
      → collect_context t now anomaly ≡ ok context
      → score rounded words lower mentions hypothesis context ≡ ok 500
  unfolding collect_context
  score-collect_context t now anomaly hypothesis e =
      let (at, _, e1) = >>=-eq-ok (anomaly_time t now (get_or "timestamp" null anomaly)) _ e in
      subst (λ c. score rounded words lower mentions hypothesis c ≡ ok 500) (ok-injective e1)
        (score-collected t hypothesis anomaly _ _)
