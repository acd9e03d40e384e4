-- ===== src/Observer/Deduplicator.antt =====
-- `AlertDeduplicator` (agents/observer/src/deduplicator.py). Times are microseconds.
pub mod Window
use dev_ops_agent_swarm.Base.{
  ℕ, ◌+◌, ◌*◌, String, Bool, true, false, List, [], ◌∷◌, ◌++◌, Option, none, some, Dict, lookup,
  insert, length, filter, ltb, leb, if◌then◌else◌,
}
use dev_ops_agent_swarm.Base.Value.{Value}
use dev_ops_agent_swarm.Messaging.Message.{second}
use dev_ops_agent_swarm.Observer.Anomaly.{AnomalyResult}

pub record Deduplicator : Type 0 where
  pub window_seconds : ℕ
  pub max_per_window : ℕ
  pub seen : Dict (List ℕ)

-- `__init__` with its defaults
unfoldable pub init : Deduplicator
init = record { window_seconds = 300; max_per_window = 1; seen = [] }

-- an entry of a `defaultdict(list)`
abbrev pub or_empty : Option (List ℕ) → List ℕ
or_empty none = []
or_empty (some ts) = ts

abbrev pub seen_at : String → Deduplicator → List ℕ
seen_at fp d = or_empty (lookup fp d.seen)

-- `(now - t).total_seconds() < self.window_seconds`
abbrev pub recent : ℕ → Deduplicator → List ℕ → List ℕ
recent now d = filter (λ t. ltb now (t + d.window_seconds * second))

-- `show` gives the text of the three fields, and `digest` the first 16 digits of its hash
module _ (digest : String → String) (show : String → Value → String → String) where
  unfoldable pub fingerprint : AnomalyResult → String
  fingerprint a = digest (show a.metric a.service a.severity)

  unfoldable pub is_duplicate : ℕ → AnomalyResult → Deduplicator → Deduplicator × Bool
  is_duplicate now a d =
      let fp = fingerprint a in
      let kept = recent now d (seen_at fp d) in
      if leb d.max_per_window (length kept)
      then (record d { seen = insert fp kept d.seen }, true)
      else (record d { seen = insert fp (kept ++ now ∷ []) d.seen }, false)
