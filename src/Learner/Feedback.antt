-- ===== src/Learner/Feedback.antt =====
-- What the learner's table holds after feedback.
use dev_ops_agent_swarm.Base.{
  ℕ, ◌≡◌, refl, ap, ◌∙◌, sym, String, Bool, List, [], ◌∷◌, ◌++◌, Dict, if◌then◌else◌, Bool-cases,
  inl, inr,
}
use dev_ops_agent_swarm.Base.Int.{ℤ, pos}
use dev_ops_agent_swarm.Base.Result.{Result, ok, raise, runtime_error, ◌>>=◌}
use dev_ops_agent_swarm.Base.Value.{Value, str, int, get_or}
use dev_ops_agent_swarm.Learner.Agent.{
  Memory, text_column, kept_or, upserted_feedback, recorded_feedback, handle_feedback,
}
use dev_ops_agent_swarm.Learner.Optimizer.{RunbookStats, Report, record_report, get_stats}
use dev_ops_agent_swarm.Learner.Optimizer.Tally.{
  record_all, reports_on, performance_of, get_stats-record_all,
}
use dev_ops_agent_swarm.Learner.Vectorizer.{Conversions, Store}
use dev_ops_agent_swarm.Messaging.Message.{Message}
use dev_ops_agent_swarm.Observer.Numbers.{Numbers}

-- a feedback, the time of its report, and whether its session commits
pub record Delivery : Type 0 where
  pub at : String
  pub stored : Bool
  pub message : Message

-- the outcome of a feedback, whatever it is
abbrev pub outcome_of : Delivery → Value
outcome_of d = get_or "outcome" (str "unknown") d.message.payload

-- the report that a feedback makes: its time to recovery is a number and its runbook a text
abbrev pub made : Delivery → Result ℤ → Result String → List Report
made d (raise _) _ = []
made d (ok mttr) (raise _) = []
made d (ok mttr) (ok runbook_id) =
    if d.stored
    then record { runbook_id = runbook_id; outcome = outcome_of d; mttr_seconds = mttr; at = d.at }
      ∷ []
    else []

module _ (n : Numbers) (c : Conversions) (s : Store n.Float) where
  -- feedback that is handled one after the other; what raises leaves the memory as it was
  abbrev pub handle_all : List Delivery → Memory s.Collection → Memory s.Collection
  handle_all [] memory = memory
  handle_all (d ∷ rest) memory =
      handle_all rest (kept_or memory (handle_feedback n c s d.at d.stored d.message memory))

  abbrev pub report_of : Delivery → List Report
  report_of d =
      made d (c.integer (get_or "mttr_seconds" (int (pos 0)) d.message.payload))
        (text_column (get_or "runbook_id" (str "unknown") d.message.payload))

  abbrev pub reports_of : List Delivery → List Report
  reports_of [] = []
  reports_of (d ∷ rest) = report_of d ++ reports_of rest

  record_all-append :
      (rs qs : List Report) (table : Dict RunbookStats)
      → record_all (rs ++ qs) table ≡ record_all qs (record_all rs table)
  record_all-append [] qs table = refl
  record_all-append (r ∷ rs) qs table = record_all-append rs qs (record_report r table)

  table-handle_feedback :
      (d : Delivery) (memory : Memory s.Collection)
      → (kept_or memory (handle_feedback n c s d.at d.stored d.message memory)).table
        ≡ record_all (report_of d) memory.table
  unfolding handle_feedback recorded_feedback
  table-handle_feedback d memory =
      by_cases (c.integer (get_or "mttr_seconds" (int (pos 0)) d.message.payload))
        (text_column (get_or "runbook_id" (str "unknown") d.message.payload))
    where
      written : ℤ → String → Result (Dict RunbookStats)
      written mttr runbook_id =
          if d.stored
          then ok (
              record_report
                (record {
                  runbook_id = runbook_id;
                  outcome = outcome_of d;
                  mttr_seconds = mttr;
                  at = d.at;
                })
                memory.table)
          else raise runtime_error

      by_cases :
          (m : Result ℤ) (r : Result String)
          → (kept_or memory (
              m >>= λ mttr. ok (record {
                collection =
                    kept_or memory.collection (upserted_feedback n c s d.message memory.collection);
                table = kept_or memory.table (r >>= λ runbook_id. written mttr runbook_id);
              }))).table
            ≡ record_all (made d m r) memory.table
      by_cases (raise e) r = refl
      by_cases (ok mttr) (raise e) = refl
      by_cases (ok mttr) (ok runbook_id) = elim (Bool-cases d.stored) [
        | inl committed ↦ rw committed refl
        | inr refused ↦ rw refused refl
      ]

  table-handle_all :
      (ds : List Delivery) (memory : Memory s.Collection)
      → (handle_all ds memory).table ≡ record_all (reports_of ds) memory.table
  table-handle_all [] memory = refl
  table-handle_all (d ∷ rest) memory =
      table-handle_all rest (kept_or memory (handle_feedback n c s d.at d.stored d.message memory))
      ∙ (ap (record_all (reports_of rest)) (table-handle_feedback d memory)
          ∙ sym (record_all-append (report_of d) (reports_of rest) memory.table))

  -- Whatever feedback a learner with an empty table handles, and whether or not the vector store takes
  -- it: the statistics of a runbook are those of the reports in it about the runbook, where a
  -- feedback makes a report if its time to recovery is a number, its runbook is a text and its
  -- session commits; its outcome may be any value, and only the text `success` is a success.
  pub get_stats-handle_all :
      {Rate : Type 0} (zero : Rate) (rounded : ℕ → ℕ → Rate) (average : ℤ → ℕ → ℤ) (id : String)
      (ds : List Delivery) (collection : s.Collection)
      → get_stats zero rounded average id
          (handle_all ds (record { collection = collection; table = [] })).table
        ≡ performance_of zero rounded average id (reports_on id (reports_of ds))
  get_stats-handle_all zero rounded average id ds collection =
      ap (get_stats zero rounded average id)
        (table-handle_all ds (record { collection = collection; table = [] }))
      ∙ get_stats-record_all zero rounded average id (reports_of ds)
