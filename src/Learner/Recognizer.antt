-- ===== src/Learner/Recognizer.antt =====
-- `PatternRecognizer` (agents/learner/src/pattern_recognizer.py). `truncated m n` is `int(m / n)`.
pub mod Counts
pub mod Best
use dev_ops_agent_swarm.Base.{
  ℕ, ◌+◌, not, String, Bool, true, false, List, [], ◌∷◌, map, filter, Option, none, some, Dict,
  lookup, insert, ltb, ◌==◌, if◌then◌else◌,
}
use dev_ops_agent_swarm.Base.Int.{ℤ, pos, ◌+ℤ◌, ltb_ℤ}
use dev_ops_agent_swarm.Base.Result.{Result, ok, raise, ◌>>=◌}
use dev_ops_agent_swarm.Base.Value.{
  Value, nil, cons, Items, Fields, end, field, int, str, null, list, dict,
}
use dev_ops_agent_swarm.Learner.Vectorizer.{Hit, Metadata, Conversions, Store, nearest}
use dev_ops_agent_swarm.Observer.Numbers.{Numbers}

-- the statistics of one runbook
pub record Tally : Type 0 where
  pub success : ℕ
  pub total : ℕ
  pub mttr_total : ℤ

abbrev pub no_hits : Tally
no_hits = record { success = 0; total = 0; mttr_total = pos 0 }

-- an entry of a `defaultdict`
abbrev pub or_none : Option Tally → Tally
or_none none = no_hits
or_none (some t) = t

pub record Recommendation (Float : Type 0) : Type 0 where
  pub runbook_id : Option String
  pub success_rate : Float
  pub sample_count : ℕ
  pub avg_mttr_seconds : ℤ

module _ {Float : Type 0} where
  abbrev pub success_of : Hit Float → ℕ
  success_of h = if h.metadata.outcome == "success" then 1 else 0

  abbrev pub bump : Hit Float → Tally → Tally
  bump h t = record {
    success = t.success + success_of h;
    total = t.total + 1;
    mttr_total = t.mttr_total +ℤ h.metadata.mttr_seconds;
  }

  abbrev pub counted : Hit Float → Dict Tally → Dict Tally
  counted h stats =
      insert h.metadata.runbook_id (bump h (or_none (lookup h.metadata.runbook_id stats))) stats

  -- the loop over the hits
  unfoldable pub aggregate : List (Hit Float) → Dict Tally → Dict Tally
  aggregate [] stats = stats
  aggregate (h ∷ hits) stats = aggregate hits (counted h stats)

module _ (n : Numbers) where
  open n use {Float, of_nat, div, rounded, to_value, seven_tenths}

  -- `success / total`, where `total` is at least 1
  abbrev pub rate : Tally → Float
  rate t = if ltb 0 t.total then div (of_nat t.success) (of_nat t.total) else of_nat 0

  -- the order of the keys `(rate, -mttr_total)`: the first argument is less than the second
  unfoldable pub worse : Tally → Tally → Bool
  worse a b =
      if n.leb (rate b) (rate a)
      then (if n.leb (rate a) (rate b) then ltb_ℤ b.mttr_total a.mttr_total else false)
      else true

  -- `max`, which keeps the first of equals
  unfoldable pub best_of : String × Tally → Dict Tally → String × Tally
  best_of e [] = e
  best_of e (f ∷ rest) = best_of (if worse e.1 f.1 then f else e) rest

  module _ (truncated : ℤ → ℕ → ℤ) where
    abbrev pub recommendation : String × Tally → Recommendation Float
    recommendation (rb_id, t) = record {
      runbook_id = some rb_id;
      success_rate = rounded 3 (rate t);
      sample_count = t.total;
      avg_mttr_seconds = if ltb 0 t.total then truncated t.mttr_total t.total else pos 0;
    }

    abbrev pub of_stats : Dict Tally → Recommendation Float
    of_stats [] = record {
      runbook_id = none;
      success_rate = of_nat 0;
      sample_count = 0;
      avg_mttr_seconds = pos 0;
    }
    of_stats (e ∷ rest) = recommendation (best_of e rest)

    -- `recommend_runbook`, from the similar incidents that were found
    unfoldable pub recommend_runbook : List (Hit Float) → Recommendation Float
    recommend_runbook hits = of_stats (aggregate hits [])

    module _ (c : Conversions) (s : Store Float) (threshold : Float) where
      unfoldable pub find_similar : Fields → ℕ → s.Collection → Result (List (Hit Float))
      find_similar incident count collection = do
        hits ← nearest c s incident count collection
        ok (filter (λ h. n.leb h.distance threshold) hits)

      abbrev pub id_value : Option String → Value
      id_value none = null
      id_value (some id) = str id

      abbrev pub recommendation_fields : Recommendation Float → Fields
      recommendation_fields r = field "runbook_id" (id_value r.runbook_id) (
          field "success_rate" (to_value r.success_rate) (
            field "sample_count" (int (pos r.sample_count))
              (field "avg_mttr_seconds" (int r.avg_mttr_seconds) end)))

      abbrev pub hit_fields : Hit Float → Fields
      hit_fields h = field "id" (str h.id) (
          field "distance" (to_value (rounded 4 h.distance)) (
            field "root_cause_category" (str h.metadata.root_cause_category) (
              field "root_cause_service" (str h.metadata.root_cause_service) (
                field "runbook_id" (str h.metadata.runbook_id) (
                  field "outcome" (str h.metadata.outcome) (
                    field "mttr_seconds" (int h.metadata.mttr_seconds)
                      (field "confidence" (int h.metadata.confidence) end)))))))

      abbrev pub hit_items : List (Hit Float) → Items
      hit_items [] = nil
      hit_items (h ∷ hits) = cons (dict (hit_fields h)) (hit_items hits)

      unfoldable pub enrich_diagnosis : Fields → s.Collection → Result Fields
      enrich_diagnosis incident collection = do
        similar ← find_similar incident 5 collection
        hits ← find_similar incident 10 collection
        ok (
            field "similar_incidents" (list (hit_items similar)) (
              field "recommended_runbook" (dict (recommendation_fields (recommend_runbook hits)))
                (field "historical_sample_size" (int (pos (s.count collection))) end)))
