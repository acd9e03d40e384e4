-- ===== src/Orchestrator/Routes.antt =====
-- The messages that `AgentRouter` sends (agents/orchestrator/src/agent_router.py).
use dev_ops_agent_swarm.Base.{String, Option, some}
use dev_ops_agent_swarm.Base.Value.{Fields}
use dev_ops_agent_swarm.Messaging.Client.{build, publish, ◌>>=◌}
use dev_ops_agent_swarm.Messaging.Subjects.{diagnoser_requests, safety_reviews}
use dev_ops_agent_swarm.Orchestrator.State.{O}

module _ (source_agent correlation_id : String) (payload : Fields) (context : Option Fields) where
  unfoldable pub route_to_diagnoser : O (Unit {0})
  unfolding publish build
  route_to_diagnoser = do
    msg ← build (record {
      source_agent = source_agent;
      target_agent = "agents.diagnoser";
      message_type = "diagnosis_request";
      payload = payload;
      correlation_id = some correlation_id;
      context = context;
      priority = 1;
      ttl_seconds = 300;
    })
    publish diagnoser_requests msg

  unfoldable pub route_to_remediator : O (Unit {0})
  unfolding publish build
  route_to_remediator = do
    msg ← build (record {
      source_agent = source_agent;
      target_agent = "agents.safety";
      message_type = "safety_review_request";
      payload = payload;
      correlation_id = some correlation_id;
      context = context;
      priority = 1;
      ttl_seconds = 300;
    })
    publish safety_reviews msg
