-- ===== src/Messaging/Subjects.antt =====
-- Subject constants (shared/messaging/subjects.py).
use dev_ops_agent_swarm.Base.{String}

abbrev pub observer_anomalies : String
observer_anomalies = "agents.observer.anomalies"

abbrev pub diagnoser_requests : String
diagnoser_requests = "agents.diagnoser.requests"

abbrev pub diagnoser_results : String
diagnoser_results = "agents.diagnoser.results"

abbrev pub remediator_executions : String
remediator_executions = "agents.remediator.executions"

abbrev pub safety_reviews : String
safety_reviews = "agents.safety.reviews"

abbrev pub safety_decisions : String
safety_decisions = "agents.safety.decisions"

abbrev pub agent_heartbeat : String
agent_heartbeat = "agents.heartbeat"

abbrev pub incidents_lifecycle : String
incidents_lifecycle = "incidents.lifecycle"

abbrev pub human_approvals : String
human_approvals = "human.approvals"

abbrev pub human_approvals_responses : String
human_approvals_responses = "human.approvals.responses"
