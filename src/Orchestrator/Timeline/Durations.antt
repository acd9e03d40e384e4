-- ===== src/Orchestrator/Timeline/Durations.antt =====
-- The time per state adds up to the time between the first and the last event.
use dev_ops_agent_swarm.Base.{
  ℕ, ◌≡◌, refl, sym, ◌∙◌, ap, String, List, [], ◌∷◌, Option, some, Dict, lookup, insert, ◌==◌, inl,
  inr, Bool-cases, arith, length, ◌≤◌, length-filter-le, All, In, filter-In,
}
use dev_ops_agent_swarm.Base.Int.{ℤ, pos, sub_ℕ, ◌+ℤ◌, +ℤ_zero, +ℤ_assoc, +ℤ_comm, sub_ℕ_chain}
use dev_ops_agent_swarm.Orchestrator.Timeline.{
  Event, duration_of, spend, state_durations, Case, is_decision, generate_postmortem,
}

unfoldable pub total : Dict ℤ → ℤ
total [] = pos 0
total ((k, v) ∷ d) = v +ℤ total d

total-insert :
    (k : String) (v : ℤ) (d : Dict ℤ) (o : Option ℤ)
    → lookup k d ≡ o
    → total (insert k (duration_of o +ℤ v) d) ≡ total d +ℤ v
unfolding total insert lookup
total-insert k v [] o h = rw (← h) (+ℤ_comm (pos 0 +ℤ v) (pos 0) ∙ +ℤ_zero (pos 0 +ℤ v))
total-insert k v ((j, w) ∷ d) o h = elim (Bool-cases (j == k)) [
  | inl e ↦
      let found : some w ≡ o = rw e at h in
      rw e (
        rw (← found) (
          +ℤ_assoc w v (total d)
          ∙ ap (λ x. w +ℤ x) (+ℤ_comm v (total d))
          ∙ sym (+ℤ_assoc w (total d) v)))
  | inr e ↦
      let rest : lookup k d ≡ o = rw e at h in
      rw e (ap (λ x. w +ℤ x) (total-insert k v d o rest) ∙ sym (+ℤ_assoc w (total d) v))
]

-- The events' timestamps are these.
abbrev pub Stamped : List Event → List ℕ → Type 0
Stamped [] [] = Unit
Stamped (e ∷ es) (t ∷ ts) = (e.timestamp ≡ some t) × Stamped es ts
Stamped _ _ = ⊥

abbrev pub last : ℕ → List ℕ → ℕ
last t [] = t
last t (u ∷ us) = last u us

add_none : (a : ℤ) (t : ℕ) → a +ℤ sub_ℕ t t ≡ a
unfolding ◌+ℤ◌
add_none a t = ground arith

total-spend :
    (k : String) (t u : ℕ) (x y : Option ℕ) (d : Dict ℤ)
    → x ≡ some t
    → y ≡ some u
    → total (spend k x y d) ≡ total d +ℤ sub_ℕ u t
total-spend k t u x y d p q = rw (p, q) (total-insert k (sub_ℕ u t) d (lookup k d) refl)

durations_from :
    (es : List Event) (t : ℕ) (ts : List ℕ) (d : Dict ℤ)
    → Stamped es (t ∷ ts)
    → total (state_durations es d) ≡ total d +ℤ sub_ℕ (last t ts) t
unfolding state_durations
durations_from [] t ts d h = absurd h
durations_from (e ∷ []) t [] d h = sym (add_none (total d) t)
durations_from (e ∷ []) t (u ∷ us) d h = absurd h.1
durations_from (e ∷ f ∷ es) t [] d h = absurd h.1
durations_from (e ∷ f ∷ es) t (u ∷ us) d h =
    durations_from (f ∷ es) u us (spend e.event_type e.timestamp f.timestamp d) h.1
    ∙ ap (λ x. x +ℤ sub_ℕ (last u us) u)
        (total-spend e.event_type t u e.timestamp f.timestamp d h.0 h.1.0)
    ∙ +ℤ_assoc (total d) (sub_ℕ u t) (sub_ℕ (last u us) u)
    ∙ ap (λ x. total d +ℤ x) (sub_ℕ_chain t u (last u us))

-- If all timestamps parse, the durations of a postmortem add up to the time between the first and
-- the last event, and its decisions are some of the incident's events.
pub generate_postmortem-total :
    (c : Case) (t : ℕ) (ts : List ℕ)
    → Stamped c.timeline (t ∷ ts)
    → let p = generate_postmortem c in
      (total p.state_durations ≡ sub_ℕ (last t ts) t)
      × All (λ d. In d c.timeline) p.key_decisions
      × (length p.key_decisions ≤ p.total_events)
unfolding generate_postmortem total
generate_postmortem-total c t ts h = (
  durations_from c.timeline t ts [] h ∙ +ℤ_zero _,
  filter-In is_decision c.timeline,
  length-filter-le _ _,
)
