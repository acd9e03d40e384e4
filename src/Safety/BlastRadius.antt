-- ===== src/Safety/BlastRadius.antt =====
-- `BlastRadiusCalculator` (agents/safety/src/blast_radius.py). `ancestors` is networkx's function
-- of that name on the static graph: the nodes other than the target that have a path to it.
use dev_ops_agent_swarm.Base.{ℕ, ◌*◌, String, not, List, [], ◌∷◌, length, ltb, if◌then◌else◌, ◌||◌}
use dev_ops_agent_swarm.Base.Int.{pos}
use dev_ops_agent_swarm.Base.Result.{Result, ok, ◌>>=◌}
use dev_ops_agent_swarm.Base.Value.{
  Value, Fields, end, int, str, dict, get_or, as_dict, truthy, f_string,
}
use dev_ops_agent_swarm.Safety.Policy.{among}
use dev_ops_agent_swarm.Safety.RateLimiter.{target_of}

abbrev pub services : List String
services =
    "api-gateway" ∷ "user-svc" ∷ "auth-svc" ∷ "order-svc" ∷ "payment-svc" ∷ "product-svc"
    ∷ "search-svc" ∷ "notification-worker" ∷ "inventory-worker" ∷ "analytics-worker" ∷ "redis"
    ∷ "postgres-orders" ∷ "postgres-payments" ∷ "nats" ∷ "elasticsearch" ∷ []

-- an edge leads from a service to one that it relies on
abbrev pub edges : List (String × String)
edges =
    ("api-gateway", "user-svc")
    ∷ ("api-gateway", "order-svc")
    ∷ ("api-gateway", "product-svc")
    ∷ ("api-gateway", "auth-svc")
    ∷ ("user-svc", "redis")
    ∷ ("auth-svc", "redis")
    ∷ ("auth-svc", "user-svc")
    ∷ ("order-svc", "postgres-orders")
    ∷ ("order-svc", "nats")
    ∷ ("order-svc", "payment-svc")
    ∷ ("order-svc", "inventory-worker")
    ∷ ("payment-svc", "postgres-payments")
    ∷ ("payment-svc", "nats")
    ∷ ("product-svc", "elasticsearch")
    ∷ ("search-svc", "elasticsearch")
    ∷ ("notification-worker", "nats")
    ∷ ("inventory-worker", "nats")
    ∷ ("inventory-worker", "postgres-orders")
    ∷ ("analytics-worker", "nats")
    ∷ []

pub data Risk : Type 0 where
  unknown low medium high critical : Risk

-- the texts of the levels
abbrev pub risk_name : Risk → String
risk_name unknown = "unknown"
risk_name low = "low"
risk_name medium = "medium"
risk_name high = "high"
risk_name critical = "critical"

-- `impact_score` is `impact / total`
pub record Blast : Type 0 where
  pub risk_level : Risk
  pub affected_services : List String
  pub impact : ℕ
  pub total : ℕ
  pub reason : Value

abbrev pub core_infrastructure : List String
core_infrastructure = "postgres-orders" ∷ "nats" ∷ "redis" ∷ []

-- the text of a target that is one
abbrev pub text_of : Value → String
text_of (str s) = s
text_of _ = ""

-- `impact_score > 0.5` and `impact_score > 0.2`, over 15 nodes
unfoldable pub score_level : ℕ → Risk
score_level affected =
    if ltb (length services) (2 * affected)
    then high
    else if ltb (length services) (5 * affected)
    then medium
    else low

module _ (ancestors : String → List String) where
  unfoldable pub blast_of : Value → Blast
  blast_of target =
      let affected = ancestors (text_of target) in
      let level = score_level (length affected) in
      let why =
        f_string
          (str "Action affects " ∷ int (pos (length affected)) ∷ str " upstream services." ∷ []) in
      if not (truthy target) || not (among services target)
      then record {
        risk_level = unknown;
        affected_services = [];
        impact = 0;
        total = length services;
        reason = f_string (str "Target '" ∷ target ∷ str "' is unknown to dependency graph." ∷ []);
      }
      else if among core_infrastructure target
      then record {
        risk_level = critical;
        affected_services = affected;
        impact = length services;
        total = length services;
        reason = why;
      }
      else record {
        risk_level = level;
        affected_services = affected;
        impact = length affected;
        total = length services;
        reason = why;
      }

  unfoldable pub calculate : Fields → Result Blast
  calculate action = do
    params ← as_dict (get_or "params" (dict end) action)
    ok (blast_of (target_of params))
