-- ===== src/Tests/Diagnoser.antt =====
-- Witnesses for the diagnoser.
use Prim.Native.Nat.{◌/◌}
use native.Mathlib.Nat.{div-le_of_le-mul, mul-le-mul_right}
use dev_ops_agent_swarm.Base.{
  ℕ, ◌*◌, ◌≤◌, ◌≡◌, refl, String, Bool, true, false, List, [], ◌∷◌, none, some, length, All, leb,
  if◌then◌else◌, lookup, insert,
}
use dev_ops_agent_swarm.Base.Int.{ℤ, pos, ◌+ℤ◌}
use dev_ops_agent_swarm.Base.Compare.{value_eq, at_least}
use dev_ops_agent_swarm.Base.Result.{Result, ok, raise, http_error, value_error}
use dev_ops_agent_swarm.Base.Text.{contains}
use dev_ops_agent_swarm.Base.Value.{
  Value, nil, cons, Fields, end, field, null, str, int, list, dict, get, get_or,
}
use dev_ops_agent_swarm.Diagnoser.Context.{
  Telemetry, collected, collect_context, anomaly_time, get_recent_logs, get_recent_metrics,
}
use dev_ops_agent_swarm.Diagnoser.Correlation.{
  Tables, correlate, find_or_create_incident, latest, upgraded, severity_val, mapped, attached,
}
use dev_ops_agent_swarm.Diagnoser.Correlation.Severity.{Covers, AllRaised, correlate-Raised}
use dev_ops_agent_swarm.Diagnoser.Debate.{
  Scored, candidates, boosted, scored, resolve, chosen_from, ranked, insert_scored,
}
use dev_ops_agent_swarm.Diagnoser.Debate.Winner.{Best, resolve-Best}
use dev_ops_agent_swarm.Diagnoser.Engine.{
  handle_anomaly, process_anomaly, count_message, count_error, diagnose, save_diagnosis,
  publish_diagnosis, debated,
}
use dev_ops_agent_swarm.Diagnoser.Engine.Handoff.{
  Ignored, deliver_anomalies, deliver_anomalies-Ignored,
}
use dev_ops_agent_swarm.Diagnoser.Engine.Losses.{lost, deliver-lost}
use dev_ops_agent_swarm.Diagnoser.Hypothesis.{
  dummy, generate_hypothesis, generate_dummy_hypothesis, category_of,
}
use dev_ops_agent_swarm.Diagnoser.Rubric.{
  score, covered, score_evidence_coverage, score_temporal_fit, score_graph_plausibility,
  explained_count, grade_events, temporal_grade, shortly_after, least, least_from, direct, indirect,
  second_hand,
}
use dev_ops_agent_swarm.Diagnoser.Rubric.Bounds.{score_bounds}
use dev_ops_agent_swarm.Diagnoser.Rubric.Collected.{score-collect_context}
use dev_ops_agent_swarm.Diagnoser.State.{Diagnoser, Outside, session}
use dev_ops_agent_swarm.Messaging.Client.{acked, World, deliver, effects}
use dev_ops_agent_swarm.Messaging.Message.{Message, is_expired}
use dev_ops_agent_swarm.Orchestrator.State.{Incident}

-- `round(c / n * w, 1)` in tenths, rounded down
abbrev tenths : ℕ → ℕ → ℕ → ℕ
tenths c n w = c * (w * 10) / n

tenths_range : (c n w : ℕ) → c ≤ n → tenths c n w ≤ w * 10
tenths_range c n w h = div-le_of_le-mul n (mul-le-mul_right (w * 10) h)

abbrev no_words : Value → List String
no_words v = []

abbrev same_text : String → String
same_text s = s

abbrev says : String → Value → Bool
says s (dict d) = contains s (text_of (get_or "service" null d))
  where
    text_of : Value → String
    text_of (str t) = t
    text_of _ = ""
says s _ = false

-- a cascade from a database to the service that depends on it
abbrev event : String → ℕ → Value
event service at = dict (field "service" (str service) (field "timestamp" (int (pos at)) end))

abbrev cascade : Fields
cascade = field "anomalies" (list (cons (str "cpu") (cons (str "memory") nil))) (
    field "recent_events" (list (cons (event "postgres" 10) (cons (event "orders" 20) nil))) (
      field "affected_services" (list (cons (str "orders") nil)) (
        field "dependency_graph" (dict (field "orders" (list (cons (str "postgres") nil)) end))
          end)))

abbrev blames : String → Fields
blames service = field "root_cause_service" (str service) (
    field "root_cause_category" (str "database")
      (field "explained_anomalies" (list (cons (str "cpu") nil)) end))

score_postgres : score tenths no_words same_text says (blames "postgres") cascade ≡ ok 800
unfolding score covered score_evidence_coverage score_temporal_fit score_graph_plausibility
    explained_count grade_events temporal_grade shortly_after least least_from direct indirect
    second_hand get value_eq at_least contains
score_postgres = refl

score_bounds_example : 800 ≤ 1000
score_bounds_example =
    score_bounds tenths no_words same_text says tenths_range (blames "postgres") cascade
      score_postgres

-- the first alternative blames the root of the cascade, and the second one fails
abbrev alternatives : ℕ → Result (Fields × ℤ)
alternatives n = if leb n 1 then ok (blames "postgres", pos 40) else raise http_error

abbrev entry : String → ℕ → ℕ → Scored
entry service confidence points = record {
  hypothesis = blames service;
  confidence = pos confidence;
  rubric = points;
}

entries_of_cascade :
    scored tenths no_words same_text says cascade
      (candidates alternatives (blames "orders") (pos 50))
    ≡ ok (entry "orders" 50 410 ∷ entry "postgres" 40 800 ∷ [])
unfolding scored score covered score_evidence_coverage score_temporal_fit score_graph_plausibility
    explained_count grade_events temporal_grade shortly_after least least_from direct indirect
    second_hand get value_eq at_least contains
entries_of_cascade = refl

resolve-Best_example :
    (winner : Scored) × Best (entry "orders" 50 410 ∷ entry "postgres" 40 800 ∷ []) winner
    × (resolve tenths no_words same_text says alternatives cascade (blames "orders") (pos 50)
        ≡ ok (winner.hypothesis, boosted (blames "orders") winner.hypothesis winner.confidence))
resolve-Best_example =
    resolve-Best tenths no_words same_text says alternatives cascade (blames "orders") (pos 50)
      entries_of_cascade

resolved_cascade :
    resolve tenths no_words same_text says alternatives cascade (blames "orders") (pos 50)
    ≡ ok (blames "postgres", pos 50)
unfolding resolve chosen_from ranked insert_scored boosted scored score score_evidence_coverage
    covered score_temporal_fit score_graph_plausibility explained_count grade_events temporal_grade
    shortly_after least least_from direct indirect second_hand get value_eq at_least contains ◌+ℤ◌
resolved_cascade = refl

abbrev telemetry : Telemetry
telemetry = record {
  loki = λ service start stop. raise http_error;
  prometheus = λ metric service start stop. raise http_error;
  from_iso = λ s. raise value_error;
  four_digits = λ v. raise value_error;
  strip = λ s. s;
  with_offset = λ s. s;
  iso = λ t. "t";
  text_of = λ e. "error";
}

abbrev reported : Fields
reported =
    field "service" (str "orders")
      (field "metric" (str "cpu_usage") (field "severity" (str "critical") end))

abbrev noon : ℕ
noon = 1000000000

context_of_report :
    collect_context telemetry noon reported ≡ ok (collected telemetry reported 700000000 1060000000)
unfolding collect_context anomaly_time get
context_of_report = refl

score-collect_context_example :
    score tenths no_words same_text says
      (blames "postgres")
      (collected telemetry reported 700000000 1060000000)
    ≡ ok 500
score-collect_context_example =
    score-collect_context tenths no_words same_text says telemetry noon reported (blames "postgres")
      context_of_report

-- an incident that was detected a second before, and its row after the report
abbrev row : String → ℕ → Incident
row severity updated = record {
  id = "a";
  status = "detecting";
  severity = str severity;
  created_at = 999000000;
  updated_at = updated;
  state_entered_at = 999000000;
  resolved_at = none;
  diagnosis = none;
  diagnosis_confidence = null;
  root_cause_category = null;
  root_cause_service = null;
  remediation_actions = [];
  auto_resolved = false;
  resolution_summary = null;
  timeline = [];
  postmortem = none;
}

abbrev before : Tables
before = record { incidents = ("a", row "medium" 999000000) ∷ []; anomalies = [] }

abbrev after : Tables
after = record {
  incidents = ("a", row "critical" noon) ∷ [];
  anomalies =
      record {
        incident_id = "a";
        metric = str "cpu_usage";
        service = str "orders";
        severity = str "critical";
        description = null;
        value = null;
        threshold = null;
        detected_at = noon;
        raw_payload = reported;
      }
      ∷ [];
}

correlated : correlate same_text "b" noon reported before ≡ ok ((row "critical" noon, false), after)
unfolding correlate find_or_create_incident latest upgraded severity_val mapped attached insert get
correlated = refl

stored : lookup "a" before.incidents ≡ some (row "medium" 999000000)
unfolding lookup
stored = refl

unused : lookup "b" before.incidents ≡ none
unfolding lookup
unused = refl

correlate-Raised_example :
    (lookup "a" after.incidents ≡ some (row "critical" noon))
    × Covers same_text (str "critical") (row "critical" noon)
    × AllRaised same_text before.incidents after.incidents
unfolding get
correlate-Raised_example =
    correlate-Raised same_text "b" noon reported before (stored, tt) unused correlated

abbrev outside : Outside
outside = record {
  backend = dummy;
  reply = λ n context. raise http_error;
  telemetry = telemetry;
  to_int = λ v. ok (pos 0);
  rounded = tenths;
  words = no_words;
  lower = same_text;
  mentions = says;
}

abbrev anomaly : Message
anomaly = record {
  message_id = "m";
  correlation_id = "c";
  trace_id = "t";
  source_agent = "observer.metrics";
  target_agent = "diagnoser";
  message_type = "anomaly_detected";
  priority = 1;
  ttl_seconds = 300;
  timestamp = noon;
  retry_count = 0;
  payload = reported;
  context = end;
}

abbrev diagnosing : World Diagnoser
diagnosing = record {
  agent = record {
    agent_id = "diagnoser.rca.host";
    messages_processed = 0;
    errors = 0;
    tables = before;
    db_refusals = [];
  };
  bus = record {
    connected = true;
    refusals = [];
    uuids = λ n. record {
      message_uuid = "m";
      correlation_uuid = "d";
      trace_uuid = "t";
      created = noon;
    };
    built = 0;
    outbox = [];
  };
}

-- the report is diagnosed, and one message is published
diagnosed_report :
    length (deliver_anomalies outside ((noon, "b", anomaly) ∷ []) diagnosing).bus.outbox ≡ 1
unfolding deliver is_expired handle_anomaly process_anomaly count_message count_error diagnose
    save_diagnosis publish_diagnosis debated session effects correlate find_or_create_incident
    latest upgraded severity_val mapped attached collect_context anomaly_time collected
    get_recent_logs get_recent_metrics generate_hypothesis generate_dummy_hypothesis category_of
    insert lookup get
diagnosed_report = refl

deliver_anomalies-Ignored_example :
    All Ignored (deliver_anomalies outside ((noon, "b", anomaly) ∷ []) diagnosing).bus.outbox
deliver_anomalies-Ignored_example =
    deliver_anomalies-Ignored outside ((noon, "b", anomaly) ∷ []) diagnosing refl

-- the database refuses the first session
abbrev refusing : World Diagnoser
refusing = record diagnosing { agent = record (diagnosing.agent) { db_refusals = true ∷ [] } }

deliver-lost_example :
    deliver noon (handle_anomaly outside "b" noon) anomaly refusing ≡ (acked, lost refusing)
unfolding is_expired
deliver-lost_example = deliver-lost outside "b" noon anomaly refusing refl refl
