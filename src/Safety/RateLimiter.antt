-- ===== src/Safety/RateLimiter.antt =====
-- `RateLimiter` (agents/safety/src/rate_limiter.py). Times are microseconds. The value of
-- `datetime.now(timezone.utc)` is an argument that may be an exception: the module does not import
-- `timezone`, so there the expression raises `NameError`.
pub mod Spacing
use dev_ops_agent_swarm.Base.{
  ℕ, zero, suc, ◌+◌, ◌*◌, String, Bool, true, false, List, [], ◌∷◌, ◌++◌, length, filter, ltb, leb,
  if◌then◌else◌, ◌==◌,
}
use dev_ops_agent_swarm.Base.Int.{pos}
use dev_ops_agent_swarm.Base.Result.{Result, ok, raise, ◌>>=◌}
use dev_ops_agent_swarm.Base.Value.{
  Value, Fields, end, null, int, str, dict, get_or, as_dict, or_else, f_string,
}
use dev_ops_agent_swarm.Messaging.Message.{second, utc_now}

pub record Entry : Type 0 where
  pub fingerprint : String
  pub timestamp : ℕ
  pub action : Fields

pub record Limiter : Type 0 where
  pub action_history : List Entry
  pub limit_per_hour : ℕ
  pub cooldown_mins : ℕ

-- `__init__` with its defaults
unfoldable pub init : Limiter
init = record { action_history = []; limit_per_hour = 3; cooldown_mins = 15 }

abbrev pub cooldown : Limiter → ℕ
cooldown l = l.cooldown_mins * 60 * second

abbrev pub hour : ℕ
hour = 3600 * second

-- `params.get("target") or params.get("target_db")`
abbrev pub target_of : Fields → Value
target_of params = or_else (get_or "target" null params) (get_or "target_db" null params)

-- `from datetime import datetime, timedelta`
abbrev pub imported : List String
imported = "datetime" ∷ "timedelta" ∷ []

-- the answer of a check: whether it is allowed, and the reason
pub record Verdict : Type 0 where
  pub allowed : Bool
  pub reason : Value

-- `max(x["timestamp"] for x in matches)`
abbrev pub latest : List Entry → ℕ
latest [] = 0
latest (e ∷ es) = let rest = latest es in if ltb rest e.timestamp then e.timestamp else rest

abbrev pub matching : String → List Entry → List Entry
matching fingerprint = filter (λ e. e.fingerprint == fingerprint)

-- entries of the last hour
abbrev pub prune : ℕ → List Entry → List Entry
prune now = filter (λ e. ltb now (e.timestamp + hour))

unfoldable pub judge : ℕ → Limiter → List Entry → Verdict
judge now l [] =
    if leb l.limit_per_hour 0
    then record {
      allowed = false;
      reason = f_string (
          str "Rate limit exceeded: executed " ∷ int (pos 0) ∷ str " times in the last hour." ∷ []);
    }
    else record { allowed = true; reason = str "Rate limit passed" }
judge now l (e ∷ es) =
    if leb l.limit_per_hour (length (e ∷ es))
    then record {
      allowed = false;
      reason = f_string (
          str "Rate limit exceeded: executed "
          ∷ int (pos (length (e ∷ es)))
          ∷ str " times in the last hour."
          ∷ []);
    }
    else if ltb now (latest (e ∷ es) + cooldown l)
    then record {
      allowed = false;
      reason =
          f_string
            (str "In cooldown period: executed recently at " ∷ int (pos (latest (e ∷ es))) ∷ []);
    }
    else record { allowed = true; reason = str "Rate limit passed" }

-- `sha256` is the hexadecimal digest of a text, and `show` is Python's `str`
module _ (sha256 : String → String) (show : Value → Value → String) where
  -- `show` gives the text `f"{action_type}:{target}"`
  unfoldable pub fingerprint_of : Fields → Result String
  fingerprint_of action = do
    params ← as_dict (get_or "params" (dict end) action)
    ok (sha256 (show (get_or "type" (str "") action) (or_else (target_of params) (str ""))))

  -- the rest of `check` for what `datetime.now(timezone.utc)` gives: the pruned history stays,
  -- whatever the answer
  unfoldable pub check_by : Result ℕ → Fields → Limiter → Result (Limiter × Verdict)
  check_by clock action l = do
    fingerprint ← fingerprint_of action
    now ← clock
    let kept = prune now l.action_history
    ok (record l { action_history = kept }, judge now l (matching fingerprint kept))

  -- the rest of `record` for what `datetime.now(timezone.utc)` gives
  unfoldable pub note_by : Result ℕ → Fields → Limiter → Result Limiter
  note_by clock action l = do
    fingerprint ← fingerprint_of action
    now ← clock
    ok (record l {
      action_history =
          l.action_history
          ++ record { fingerprint = fingerprint; timestamp = now; action = action } ∷ [];
    })

  -- `check` and `record` at a time, with the clock of this module
  unfoldable pub check : ℕ → Fields → Limiter → Result (Limiter × Verdict)
  check now = check_by (utc_now imported now)

  unfoldable pub note : ℕ → Fields → Limiter → Result Limiter
  note now = note_by (utc_now imported now)
