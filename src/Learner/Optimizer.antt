-- ===== src/Learner/Optimizer.antt =====
-- `RunbookOptimizer` (agents/learner/src/runbook_optimizer.py), on the table `runbook_stats`. Its
-- columns are large enough for their sums, and a call whose session fails changes nothing.
pub mod Tally
use dev_ops_agent_swarm.Base.{
  ℕ, ◌+◌, String, List, [], ◌∷◌, Option, none, some, Dict, lookup, insert, ltb, if◌then◌else◌,
}
use dev_ops_agent_swarm.Base.Int.{ℤ, pos, ◌+ℤ◌}
use dev_ops_agent_swarm.Base.Value.{Value, is_text}

-- a row of `runbook_stats`
pub record RunbookStats : Type 0 where
  pub total_attempts : ℕ
  pub successes : ℕ
  pub total_mttr_sec : ℤ
  pub last_updated_at : String

-- the arguments of a call of `record`, and its time
pub record Report : Type 0 where
  pub runbook_id : String
  pub outcome : Value
  pub mttr_seconds : ℤ
  pub at : String

abbrev pub success_delta : Report → ℕ
success_delta r = if is_text "success" r.outcome then 1 else 0

-- the values that are inserted, and on a conflict the updated row
abbrev pub upserted : Report → Option RunbookStats → RunbookStats
upserted r none = record {
  total_attempts = 1;
  successes = success_delta r;
  total_mttr_sec = r.mttr_seconds;
  last_updated_at = r.at;
}
upserted r (some row) = record {
  total_attempts = row.total_attempts + 1;
  successes = row.successes + success_delta r;
  total_mttr_sec = row.total_mttr_sec +ℤ r.mttr_seconds;
  last_updated_at = r.at;
}

-- `record`
unfoldable pub record_report : Report → Dict RunbookStats → Dict RunbookStats
record_report r table = insert r.runbook_id (upserted r (lookup r.runbook_id table)) table

-- what `_row_to_dict` returns; `Float` holds the success rate
pub record Performance (Float : Type 0) : Type 0 where
  pub runbook_id : String
  pub total_attempts : ℕ
  pub successes : ℕ
  pub success_rate : Float
  pub avg_mttr_seconds : ℤ
  pub last_updated_at : String

-- `zero` is `0.0`, `rounded s n` is `round(s / n, 3)`, and `average m n` is `int(m / n)`
module _ {Float : Type 0} (zero : Float) (rounded : ℕ → ℕ → Float) (average : ℤ → ℕ → ℤ) where
  abbrev pub row_to_dict : String → RunbookStats → Performance Float
  row_to_dict id row = record {
    runbook_id = id;
    total_attempts = row.total_attempts;
    successes = row.successes;
    success_rate =
        if ltb 0 row.total_attempts then rounded row.successes row.total_attempts else zero;
    avg_mttr_seconds =
        if ltb 0 row.total_attempts then average row.total_mttr_sec row.total_attempts else pos 0;
    last_updated_at = row.last_updated_at;
  }

  abbrev pub shown : String → Option RunbookStats → Option (Performance Float)
  shown id none = none
  shown id (some row) = some (row_to_dict id row)

  unfoldable pub get_stats : String → Dict RunbookStats → Option (Performance Float)
  get_stats id table = shown id (lookup id table)
