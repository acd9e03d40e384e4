-- ===== src/Orchestrator/Escalation/Pass.antt =====
-- What a pass of the escalation manager over all incidents returns and publishes.
use dev_ops_agent_swarm.Base.{
  ℕ, ◌+◌, insert, ◌≡◌, refl, ◌∙◌, sym, ap, String, true, List, [], ◌∷◌, ◌++◌, Dict, map, Bool-cases,
  inl, inr, if◌then◌else◌,
}
use mathlib.Core.List.{append-nil, append_assoc}
use dev_ops_agent_swarm.Messaging.Client.{Bus, sent, World, done, effects, return, ◌>>◌}
use dev_ops_agent_swarm.Messaging.Message.{Draft, build_message}
use dev_ops_agent_swarm.Messaging.Subjects.{human_approvals, incidents_lifecycle}
use dev_ops_agent_swarm.Orchestrator.Escalation.{
  check_one, check_from, check_timeouts, retry_current_state, escalate_to_human, retry_draft,
  escalation_draft,
}
use dev_ops_agent_swarm.Orchestrator.Fsm.{
  Fsm, increment_retry, is_terminal, is_timed_out, should_retry,
}
use dev_ops_agent_swarm.Orchestrator.Outcomes.Healthy.{>>=_done}
use dev_ops_agent_swarm.Orchestrator.State.{O, Orchestrator, put_fsm}

-- what a machine calls for
pub data Need : Type 0 where
  nothing retry human : Need

abbrev pub need : ℕ → Fsm → Need
need now f =
    if is_terminal f
    then nothing
    else if is_timed_out now f
    then (if should_retry f then retry else human)
    else nothing

abbrev reported : String → Need → List String
reported id human = id ∷ []
reported id _ = []

abbrev notices : Need → List String
notices nothing = []
notices retry = incidents_lifecycle ∷ []
notices human = human_approvals ∷ []

abbrev pub all_reported : ℕ → Dict Fsm → List String
all_reported now [] = []
all_reported now ((id, f) ∷ rest) = reported id (need now f) ++ all_reported now rest

abbrev pub all_notices : ℕ → Dict Fsm → List String
all_notices now [] = []
all_notices now ((id, f) ∷ rest) = notices (need now f) ++ all_notices now rest

abbrev pub subjects : World Orchestrator → List String
subjects w = map (λ p. p.0) w.bus.outbox

-- the computation returns `a`, having published on `sent`, and the bus still refuses nothing
pub record Returns {A : Type 0} (m : O A) (w : World Orchestrator) (a : A) (sent : List String)
    : Type 0 where
  pub after : World Orchestrator
  pub returned : m w ≡ done a after
  pub connected : after.bus.connected ≡ true
  pub bus_up : after.bus.refusals ≡ []
  pub published : subjects after ≡ subjects w ++ sent

map-snoc :
    {A : Type 0} (xs : List (String × A)) (x : String × A)
    → map (λ p. p.0) (xs ++ x ∷ []) ≡ map (λ p. p.0) xs ++ x.0 ∷ []
map-snoc [] x = refl
map-snoc (y ∷ ys) x = ap (λ zs. y.0 ∷ zs) (map-snoc ys x)

-- the bus after a message of the pass
abbrev published_on : World Orchestrator → String → Draft → Bus
published_on w subject d =
    sent (record (w.bus) { built = w.bus.built + 1 }) [] subject
      (build_message (w.bus.uuids w.bus.built) d)

quiet :
    (w : World Orchestrator)
    → w.bus.connected ≡ true
    → w.bus.refusals ≡ []
    → Returns {A = List String} (return []) w [] []
unfolding effects
quiet w c r = record {
  after = w;
  returned = refl;
  connected = c;
  bus_up = r;
  published = sym (append-nil (subjects w));
}

retry_lem :
    (now : ℕ) (id : String) (f : Fsm) (w : World Orchestrator)
    → w.bus.connected ≡ true
    → w.bus.refusals ≡ []
    → Returns {A = List String}
        (retry_current_state now id f >> return [])
        w
        []
        (incidents_lifecycle ∷ [])
unfolding retry_current_state put_fsm effects
retry_lem now id f w c r = record {
  after = record w {
    agent = record (w.agent) {
      active_fsms = insert id (increment_retry now f) w.agent.active_fsms;
    };
    bus = published_on w incidents_lifecycle (retry_draft (increment_retry now f));
  };
  returned = rw (c, r) refl;
  connected = c;
  bus_up = refl;
  published = map-snoc w.bus.outbox _;
}

escalate_lem :
    (id : String) (f : Fsm) (w : World Orchestrator)
    → w.bus.connected ≡ true
    → w.bus.refusals ≡ []
    → Returns (escalate_to_human id f >> return (id ∷ [])) w (id ∷ []) (human_approvals ∷ [])
unfolding escalate_to_human effects
escalate_lem id f w c r = record {
  after = record w { bus = published_on w human_approvals (escalation_draft id f) };
  returned = rw (c, r) refl;
  connected = c;
  bus_up = refl;
  published = map-snoc w.bus.outbox _;
}

check_one_lem :
    (now : ℕ) (id : String) (f : Fsm) (w : World Orchestrator)
    → w.bus.connected ≡ true
    → w.bus.refusals ≡ []
    → Returns (check_one now id f) w (reported id (need now f)) (notices (need now f))
unfolding check_one
check_one_lem now id f w c r = elim (Bool-cases (is_terminal f)) [
  | inl terminal ↦ rw terminal (quiet w c r)
  | inr live ↦ elim (Bool-cases (is_timed_out now f)) [
    | inr early ↦ rw (live, early) (quiet w c r)
    | inl late ↦ elim (Bool-cases (should_retry f)) [
      | inl again ↦ rw (live, late, again) (retry_lem now id f w c r)
      | inr spent ↦ rw (live, late, spent) (escalate_lem id f w c r)
    ]
  ]
]

check_from_lem :
    (now : ℕ) (fsms : Dict Fsm) (w : World Orchestrator)
    → w.bus.connected ≡ true
    → w.bus.refusals ≡ []
    → Returns (check_from now fsms) w (all_reported now fsms) (all_notices now fsms)
unfolding check_from effects
check_from_lem now [] w c r = quiet w c r
check_from_lem now ((id, f) ∷ rest) w c r =
    let one = check_one_lem now id f w c r in
    let more = check_from_lem now rest one.after one.connected one.bus_up in
    record {
      after = more.after;
      returned =
          >>=_done (check_one now id f) _ w one.returned
          ∙ >>=_done (check_from now rest) _ one.after more.returned;
      connected = more.connected;
      bus_up = more.bus_up;
      published =
          more.published
          ∙ ap (λ xs. xs ++ all_notices now rest) one.published
          ∙ append_assoc (subjects w) (notices (need now f)) (all_notices now rest);
    }

-- On a bus that refuses nothing, a pass returns the identifiers of exactly the machines that are
-- neither terminal nor retried enough and timed out, in the dictionary's order, and publishes one
-- message for each machine that is timed out and not terminal: to the operators if it was retried
-- enough, else to the lifecycle subject.
pub check_timeouts_lem :
    (now : ℕ) (w : World Orchestrator)
    → w.bus.connected ≡ true
    → w.bus.refusals ≡ []
    → Returns
        (check_timeouts now)
        w
        (all_reported now w.agent.active_fsms)
        (all_notices now w.agent.active_fsms)
unfolding check_timeouts effects
check_timeouts_lem now w c r =
    let all = check_from_lem now w.agent.active_fsms w c r in
    record {
      after = all.after;
      returned = all.returned;
      connected = all.connected;
      bus_up = all.bus_up;
      published = all.published;
    }
