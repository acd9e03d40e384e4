-- ===== src/Tests/Learner.antt =====
-- Witnesses for the learner.
use dev_ops_agent_swarm.Base.{ℕ, ◌+◌, ◌≡◌, true, String, List, [], ◌∷◌}
use dev_ops_agent_swarm.Base.Int.{ℤ, pos}
use dev_ops_agent_swarm.Base.Result.{Result, ok, raise, value_error, type_error}
use dev_ops_agent_swarm.Base.Value.{Value, end, field, int, str}
use dev_ops_agent_swarm.Learner.Feedback.{Delivery, handle_all, reports_of, get_stats-handle_all}
use dev_ops_agent_swarm.Learner.Optimizer.{get_stats}
use dev_ops_agent_swarm.Learner.Optimizer.Tally.{reports_on, performance_of}
use dev_ops_agent_swarm.Learner.Recognizer.{recommend_runbook}
use dev_ops_agent_swarm.Learner.Recognizer.Best.{IsBest, recommend_runbook-IsBest}
use dev_ops_agent_swarm.Learner.Vectorizer.{Hit, Conversions, Store}
use dev_ops_agent_swarm.Messaging.Message.{agent_message}
use dev_ops_agent_swarm.Tests.Numbers.{naturals, naturals-IsOrdered}

-- a rate is kept as its two numbers, and an average is not computed
abbrev ratio : ℕ → ℕ → ℕ × ℕ
ratio s n = (s, n)

abbrev total : ℤ → ℕ → ℤ
total m n = m

abbrev hit : String → String → String → ℕ → Hit ℕ
hit id runbook outcome seconds = record {
  id = id;
  metadata = record {
    root_cause_category = "memory";
    root_cause_service = "order-svc";
    runbook_id = runbook;
    outcome = outcome;
    mttr_seconds = pos seconds;
    confidence = pos 80;
  };
  distance = 0;
}

abbrev more_hits : List (Hit ℕ)
more_hits = hit "i2" "scale" "success" 40 ∷ hit "i3" "restart" "success" 20 ∷ []

recommend_runbook-IsBest_example :
    IsBest naturals total
      (hit "i1" "restart" "success" 90 ∷ more_hits)
      (recommend_runbook naturals total (hit "i1" "restart" "success" 90 ∷ more_hits))
recommend_runbook-IsBest_example =
    recommend_runbook-IsBest naturals naturals-IsOrdered total (hit "i1" "restart" "success" 90)
      more_hits

abbrev converted : Value → Result ℤ
converted (int k) = ok k
converted _ = raise value_error

abbrev conversions : Conversions
conversions = record { text = λ v. "t"; integer = converted; joined = λ v. raise type_error }

abbrev store : Store ℕ
store = record {
  Collection = ℕ;
  Embedding = ℕ;
  encode = λ v. ok 0;
  put = λ id embedding document metadata collection. ok (collection + 1);
  query = λ embedding n collection. ok [];
  count = λ collection. collection;
}

abbrev feedback : String → ℕ → Delivery
feedback outcome seconds = record {
  at = "t1";
  stored = true;
  message =
      agent_message
        (record { message_uuid = "m"; correlation_uuid = "c"; trace_uuid = "t"; created = 0 })
        "agents.remediator" "feedback"
        (field "runbook_id" (str "restart")
          (field "outcome" (str outcome) (field "mttr_seconds" (int (pos seconds)) end)));
}

abbrev feedbacks : List Delivery
feedbacks = feedback "success" 90 ∷ feedback "failed" 10 ∷ []

get_stats-handle_all_example :
    get_stats
      (0, 0)
      ratio
      total
      "restart"
      (handle_all naturals conversions store feedbacks
        (record { collection = 0; table = [] })).table
    ≡ performance_of
        (0, 0)
        ratio
        total
        "restart"
        (reports_on "restart" (reports_of naturals conversions store feedbacks))
get_stats-handle_all_example =
    get_stats-handle_all naturals conversions store (0, 0) ratio total "restart" feedbacks 0
