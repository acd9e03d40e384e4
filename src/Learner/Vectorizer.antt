-- ===== src/Learner/Vectorizer.antt =====
-- `IncidentVectorizer` (agents/learner/src/incident_vectorizer.py). The collection, the embeddings and
-- Python's `str`, `int` and `', '.join` are parameters.
use dev_ops_agent_swarm.Base.{ℕ, String, List, [], ◌∷◌, nat_eq, leb, if◌then◌else◌}
use dev_ops_agent_swarm.Base.Int.{ℤ, pos}
use dev_ops_agent_swarm.Base.Result.{Result, ok, ◌>>=◌}
use dev_ops_agent_swarm.Base.Value.{Value, nil, Fields, int, str, list, get_or, f_string}

-- the metadata of an incident, all of which `upsert` writes
pub record Metadata : Type 0 where
  pub root_cause_category : String
  pub root_cause_service : String
  pub runbook_id : String
  pub outcome : String
  pub mttr_seconds : ℤ
  pub confidence : ℤ

pub record Hit (Float : Type 0) : Type 0 where
  pub id : String
  pub metadata : Metadata
  pub distance : Float

-- the texts and numbers that Python makes of values
pub record Conversions : Type 0 where
  pub text : Value → String
  pub integer : Value → Result ℤ
  pub joined : Value → Result Value

-- the vector store: a collection of ChromaDB and the model that gives the embedding of a text
pub record Store (Float : Type 0) : Type 1 where
  pub Collection : Type 0
  pub Embedding : Type 0
  pub encode : Value → Result Embedding
  pub put : String → Embedding → Value → Metadata → Collection → Result Collection
  pub query : Embedding → ℕ → Collection → Result (List (Hit Float))
  pub count : Collection → ℕ

module _ (c : Conversions) where
  -- `_build_incident_text`, none of whose parts is empty
  unfoldable pub build_incident_text : Fields → Result Value
  build_incident_text incident = do
    symptoms ← c.joined (get_or "symptoms" (list nil) incident)
    ok (
        f_string (
          str "Category: "
          ∷ get_or "root_cause_category" (str "unknown") incident
          ∷ str " | Service: "
          ∷ get_or "root_cause_service" (str "unknown") incident
          ∷ str " | Severity: "
          ∷ get_or "severity" (str "unknown") incident
          ∷ str " | Runbook: "
          ∷ get_or "runbook_id" (str "none") incident
          ∷ str " | Outcome: "
          ∷ get_or "outcome" (str "unknown") incident
          ∷ str " | Reasoning: "
          ∷ get_or "reasoning" (str "") incident
          ∷ str " | Symptoms: "
          ∷ symptoms
          ∷ []))

  unfoldable pub metadata_of : Fields → Result Metadata
  metadata_of incident = do
    mttr ← c.integer (get_or "mttr_seconds" (int (pos 0)) incident)
    confidence ← c.integer (get_or "diagnosis_confidence" (int (pos 0)) incident)
    ok (record {
      root_cause_category = c.text (get_or "root_cause_category" (str "") incident);
      root_cause_service = c.text (get_or "root_cause_service" (str "") incident);
      runbook_id = c.text (get_or "runbook_id" (str "") incident);
      outcome = c.text (get_or "outcome" (str "") incident);
      mttr_seconds = mttr;
      confidence = confidence;
    })

  module _ {Float : Type 0} (s : Store Float) where
    open s use {Collection, encode, put, query, count}

    -- `upsert`, of an incident under its id
    unfoldable pub upsert : Value → Fields → Collection → Result Collection
    upsert incident_id incident collection = do
      document ← build_incident_text incident
      embedding ← encode document
      metadata ← metadata_of incident
      put (c.text incident_id) embedding document metadata collection

    -- `find_similar` of the vectorizer, without a filter
    unfoldable pub nearest : Fields → ℕ → Collection → Result (List (Hit Float))
    nearest incident n collection = if nat_eq (count collection) 0 then ok [] else (do
      document ← build_incident_text incident
      embedding ← encode document
      query embedding (if leb n (count collection) then n else count collection) collection)
