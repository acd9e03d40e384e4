-- ===== src/Orchestrator/Router.antt =====
-- The registry of `AgentRouter` (agents/orchestrator/src/agent_router.py).
pub mod Health
use dev_ops_agent_swarm.Base.{
  ℕ, zero, ◌+◌, ◌*◌, String, Bool, true, false, not, List, [], ◌∷◌, Option, none, some, Dict,
  insert, map, ltb, leb, filter, if◌then◌else◌, ◌&&◌,
}
use dev_ops_agent_swarm.Base.Int.{pos}
use dev_ops_agent_swarm.Base.Result.{Result, ok, raise, type_error, ◌>>=◌}
use dev_ops_agent_swarm.Base.Value.{Value, Fields, end, field, int, str, dict, get, get_or, is_text}
use dev_ops_agent_swarm.Messaging.Message.{second}
use dev_ops_agent_swarm.Orchestrator.State.{AgentInfo}

abbrev pub heartbeat_timeout_seconds : ℕ
heartbeat_timeout_seconds = 90

-- the identifier of a heartbeat is a text
abbrev pub as_text : Value → Result String
as_text (str s) = ok s
as_text _ = raise type_error

unfoldable pub info_of : ℕ → String → Fields → AgentInfo
info_of now agent_id payload = record {
  agent_id = agent_id;
  agent_type = get_or "agent_type" (str "") payload;
  hostname = get_or "hostname" (str "") payload;
  status = get_or "status" (str "healthy") payload;
  last_seen_at = now;
  metrics = field "uptime_seconds" (get_or "uptime_seconds" (int (pos 0)) payload) (
      field "messages_processed" (get_or "messages_processed" (int (pos 0)) payload)
        (field "errors" (get_or "errors" (int (pos 0)) payload) end));
}

unfoldable pub update_agent_status : ℕ → Fields → Dict AgentInfo → Result (Dict AgentInfo)
unfolding info_of
update_agent_status now payload registry = do
  agent_id ← as_text (get_or "agent_id" (str "") payload)
  ok (insert agent_id (info_of now agent_id payload) registry)

abbrev pub is_stale : ℕ → AgentInfo → Bool
is_stale now info = ltb (info.last_seen_at + heartbeat_timeout_seconds * second) now

abbrev pub is_dead : AgentInfo → Bool
is_dead info = is_text "dead" info.status

abbrev pub infos : Dict AgentInfo → List AgentInfo
infos [] = []
infos ((_, info) ∷ rest) = info ∷ infos rest

unfoldable pub get_available_agents : ℕ → String → Dict AgentInfo → List AgentInfo
get_available_agents now agent_type registry =
    filter
      (λ info.
        is_text agent_type info.agent_type && (not (is_dead info) && not (is_stale now info)))
      (infos registry)

-- the loop body of `prune_stale_agents` on one entry, and the identifier that it reports
unfoldable pub prune_one : ℕ → AgentInfo → AgentInfo
prune_one now info =
    if is_stale now info && not (is_dead info) then record info { status = str "dead" } else info

unfoldable pub prune_stale_agents : ℕ → Dict AgentInfo → Dict AgentInfo × List String
unfolding prune_one
prune_stale_agents now [] = ([], [])
prune_stale_agents now ((agent_id, info) ∷ rest) =
    let (kept, dead) = prune_stale_agents now rest in
    (
      (agent_id, prune_one now info) ∷ kept,
      (if is_stale now info && not (is_dead info) then agent_id ∷ dead else dead),
    )

abbrev pub shown : ℕ → AgentInfo → AgentInfo
shown now info = record info { status = if is_stale now info then str "dead" else info.status }

-- `get_all_agents`: each entry with the status that it is shown with
unfoldable pub get_all_agents : ℕ → Dict AgentInfo → List AgentInfo
get_all_agents now registry = map (shown now) (infos registry)
