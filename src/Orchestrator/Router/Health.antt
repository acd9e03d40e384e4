-- ===== src/Orchestrator/Router/Health.antt =====
-- What a pruning of the registry finds and leaves.
use dev_ops_agent_swarm.Base.{
  ℕ, ◌≡◌, refl, Bool, false, not, List, [], ◌∷◌, Dict, String, arith, All, ◌&&◌, filter,
}
use dev_ops_agent_swarm.Orchestrator.State.{AgentInfo}
use dev_ops_agent_swarm.Orchestrator.Router.{
  is_stale, is_dead, prune_stale_agents, get_available_agents, shown,
}

-- the entries that a pruning reports
abbrev pub dies : ℕ → String × AgentInfo → Bool
dies now e = is_stale now e.1 && not (is_dead e.1)

abbrev pub keys_of : Dict AgentInfo → List String
keys_of [] = []
keys_of ((k, _) ∷ rest) = k ∷ keys_of rest

prune_reported :
    (now : ℕ) (r : Dict AgentInfo) → (prune_stale_agents now r).1 ≡ keys_of (filter (dies now) r)
unfolding prune_stale_agents
prune_reported now [] = refl
prune_reported now ((k, info) ∷ r) = ground (arith, prune_reported now r)

prune_again :
    (now : ℕ) (r : Dict AgentInfo)
    → prune_stale_agents now (prune_stale_agents now r).0 ≡ ((prune_stale_agents now r).0, [])
unfolding prune_stale_agents
prune_again now [] = refl
prune_again now ((k, info) ∷ r) = ground (arith, prune_again now r)

prune_available :
    (now : ℕ) (t : String) (r : Dict AgentInfo)
    → get_available_agents now t (prune_stale_agents now r).0 ≡ get_available_agents now t r
unfolding prune_stale_agents get_available_agents
prune_available now t [] = refl
prune_available now t ((k, info) ∷ r) = ground (arith, prune_available now t r)

-- A pruning reports exactly the agents that were not marked dead and sent no heartbeat for 90
-- seconds, in the registry's order. Repeated at the same time it reports none and changes nothing,
-- and it changes for no agent type which agents are available.
pub prune_stale_agents_lem :
    (now : ℕ) (r : Dict AgentInfo)
    → let (kept, dead) = prune_stale_agents now r in
      (dead ≡ keys_of (filter (dies now) r))
      × (prune_stale_agents now kept ≡ (kept, []))
      × ((t : String) → get_available_agents now t kept ≡ get_available_agents now t r)
prune_stale_agents_lem now r =
    (prune_reported now r, prune_again now r, λ t. prune_available now t r)

-- Every agent that is available is shown to the API with a status other than `dead`.
pub get_available_agents-shown :
    (now : ℕ) (t : String) (r : Dict AgentInfo)
    → All (λ info. is_dead (shown now info) ≡ false) (get_available_agents now t r)
unfolding get_available_agents
get_available_agents-shown now t [] = tt
get_available_agents-shown now t ((k, info) ∷ r) =
    ground (arith, get_available_agents-shown now t r)
