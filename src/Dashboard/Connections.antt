-- ===== src/Dashboard/Connections.antt =====
-- `ConnectionManager` (dashboard/api/websocket/manager.py). A connection is a number, and `up` says
-- whether a send to it returns.
pub mod Broadcast
use dev_ops_agent_swarm.Base.{
  ℕ, Bool, not, true, false, List, [], ◌∷◌, ◌++◌, length, filter, leb, ◌&&◌, if◌then◌else◌,
}

pub record Manager : Type 0 where
  pub active_connections : List ℕ

-- `==` on connections
abbrev pub same : ℕ → ℕ → Bool
same m n = leb m n && leb n m

unfoldable pub connect : ℕ → Manager → Manager
connect websocket m = record { active_connections = m.active_connections ++ websocket ∷ [] }

-- `if x in xs: xs.remove(x)`
abbrev pub remove_first : ℕ → List ℕ → List ℕ
remove_first x [] = []
remove_first x (y ∷ ys) = let rest = remove_first x ys in if same y x then ys else y ∷ rest

unfoldable pub disconnect : ℕ → Manager → Manager
disconnect websocket m = record { active_connections = remove_first websocket m.active_connections }

-- the loop over `disconnected`
abbrev pub disconnect_all : List ℕ → Manager → Manager
disconnect_all [] m = m
disconnect_all (ws ∷ rest) m = disconnect_all rest (disconnect ws m)

-- the connections that have the message, and the manager afterwards
unfoldable pub broadcast : (ℕ → Bool) → Manager → List ℕ × Manager
broadcast up m = (
  filter up m.active_connections,
  disconnect_all (filter (λ c. not (up c)) m.active_connections) m,
)

unfoldable pub connection_count : Manager → ℕ
connection_count m = length m.active_connections
