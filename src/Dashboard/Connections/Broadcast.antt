-- ===== src/Dashboard/Connections/Broadcast.antt =====
-- What a broadcast leaves of the connections.
use dev_ops_agent_swarm.Base.{
  ℕ, ◌+◌, ◌≡◌, refl, ap, ◌∙◌, Bool, true, false, not, List, [], ◌∷◌, length, filter, All,
  Bool-cases, inl, inr, arith,
}
use dev_ops_agent_swarm.Dashboard.Connections.{
  Manager, same, remove_first, disconnect, disconnect_all, broadcast, connection_count,
}

same_refl : (x : ℕ) → same x x ≡ true
same_refl x = ground arith

-- removing connections that are down passes over one that is up
kept_head :
    (up : ℕ → Bool) (x : ℕ) (xs ds : List ℕ)
    → up x ≡ true
    → All (λ d. up d ≡ false) ds
    → disconnect_all ds (record { active_connections = x ∷ xs }) ≡ record {
      active_connections =
          x ∷ (disconnect_all ds (record { active_connections = xs })).active_connections;
    }
unfolding disconnect
kept_head up x xs [] h k = refl
kept_head up x xs (d ∷ ds) h k =
    rw (distinct up x d h k.0) (kept_head up x (remove_first d xs) ds h k.1)
  where
    distinct : (up : ℕ → Bool) (x d : ℕ) → up x ≡ true → up d ≡ false → same x d ≡ false
    distinct up x d h k = grind arith

All-down : (up : ℕ → Bool) (xs : List ℕ) → All (λ d. up d ≡ false) (filter (λ c. not (up c)) xs)
All-down up [] = tt
All-down up (x ∷ xs) = elim (Bool-cases (up x)) [
  | inl h ↦ rw h (All-down up xs)
  | inr h ↦ rw h (h, All-down up xs)
]

remaining :
    (up : ℕ → Bool) (xs : List ℕ)
    → (disconnect_all
        (filter (λ c. not (up c)) xs)
        (record { active_connections = xs })).active_connections
      ≡ filter up xs
unfolding disconnect
remaining up [] = refl
remaining up (x ∷ xs) = elim (Bool-cases (up x)) [
  | inl h ↦ rw h (
      ap (λ m. m.active_connections)
        (kept_head up x xs (filter (λ c. not (up c)) xs) h (All-down up xs))
      ∙ ap (λ ys. x ∷ ys) (remaining up xs))
  | inr h ↦ rw (h, same_refl x) (remaining up xs)
]

-- After a broadcast the active connections are those to which the message was sent, in their order,
-- and each of the others is gone: the manager loses as many connections as sends failed.
pub broadcast_lem :
    (up : ℕ → Bool) (m : Manager)
    → ((broadcast up m).1.active_connections ≡ (broadcast up m).0)
      × (connection_count (broadcast up m).1
            + length (filter (λ c. not (up c)) m.active_connections)
          ≡ connection_count m)
unfolding broadcast connection_count
broadcast_lem up m = (
  remaining up m.active_connections,
  rw (remaining up m.active_connections) (split up m.active_connections),
)
  where
    split :
        (up : ℕ → Bool) (xs : List ℕ)
        → length (filter up xs) + length (filter (λ c. not (up c)) xs) ≡ length xs
    split up [] = refl
    split up (x ∷ xs) = ground (arith, split up xs)
