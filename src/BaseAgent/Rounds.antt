-- ===== src/BaseAgent/Rounds.antt =====
-- The main loop outlives the calls that raise, and is left when the agent is stopped.
use dev_ops_agent_swarm.Base.{
  ◌+◌, ◌≡◌, refl, ◌∙◌, ap, Bool, true, false, List, [], ◌∷◌, ◌++◌, sym, inl, inr, Bool-cases,
  if◌then◌else◌,
}
use dev_ops_agent_swarm.Base.Result.{Error}
use dev_ops_agent_swarm.BaseAgent.{
  Agent, run_once, run_rounds, increment_errors, begin_running, start,
}
use dev_ops_agent_swarm.Messaging.Client.{
  World, M, world, in_time, effects, connect, close, done, fail, attempt, match_result, return,
  modify, get_agent, ◌>>=◌, ◌>>◌,
}
use dev_ops_agent_swarm.Messaging.Healthy.{
  >>=_done, >>_done, attempt_done, attempt_fail, Step-cases,
}

abbrev pub Loop : Type 0 → Type 0
Loop Own = M (Agent Own) (Unit {0})

-- a computation that returns from a world
abbrev pub Returning : {Own : Type 0} → Loop Own → World (Agent Own) → Type 0
Returning {Own} m w = (v : World (Agent Own)) × (m w ≡ done tt v)

-- the worlds of the calls that raised have one more error
abbrev pub one_more_error : {Own : Type 0} → World (Agent Own) → World (Agent Own)
one_more_error w = record w { agent = record (w.agent) { errors = w.agent.errors + 1 } }

module _ {Own : Type 0} where
  -- one call of `run_loop`: it is as if it had returned, with one more error if it raised
  run_once-raised :
      (run_loop : Loop Own) (w : World (Agent Own)) {e : Error} {v : World (Agent Own)}
      → run_loop w ≡ fail e v
      → run_once run_loop w ≡ done tt (one_more_error v)
  unfolding run_once increment_errors modify match_result
  run_once-raised run_loop w h =
      >>=_done (attempt run_loop) (λ outcome. match_result outcome (λ _. increment_errors 1) return)
        w (attempt_fail run_loop w h)

  run_once-returned :
      (run_loop : Loop Own) (w : World (Agent Own)) {v : World (Agent Own)}
      → run_loop w ≡ done tt v
      → run_once run_loop w ≡ done tt v
  unfolding run_once return match_result
  run_once-returned run_loop w h =
      >>=_done (attempt run_loop) (λ outcome. match_result outcome (λ _. increment_errors 1) return)
        w (attempt_done run_loop w h)

  run_once-Returning :
      (run_loop : Loop Own) (w : World (Agent Own)) → Returning (run_once run_loop) w
  run_once-Returning run_loop w = elim (Step-cases (run_loop w)) [
    | inl (a, v, e) ↦ (v, run_once-returned run_loop w e)
    | inr (x, v, e) ↦ (one_more_error v, run_once-raised run_loop w e)
  ]

  -- a loop whose agent no longer runs is left, whatever calls would come
  run_rounds_stopped :
      (rounds : List (Loop Own)) (w : World (Agent Own))
      → w.agent.running ≡ false
      → run_rounds rounds w ≡ done true w
  unfolding run_rounds effects
  run_rounds_stopped [] w over = rw over refl
  run_rounds_stopped (run_loop ∷ rest) w over = rw over refl

  -- a loop whose agent runs makes its next call
  run_rounds_going :
      (run_loop : Loop Own) (rest : List (Loop Own)) (w : World (Agent Own)) {v : World (Agent Own)}
      → w.agent.running ≡ true
      → run_once run_loop w ≡ done tt v
      → run_rounds (run_loop ∷ rest) w ≡ run_rounds rest v
  unfolding run_rounds get_agent
  run_rounds_going run_loop rest w going returned =
      >>=_done get_agent (λ s. branch s.running) w read
      ∙ (ap (λ b. branch b w) going ∙ >>_done (run_once run_loop) (run_rounds rest) w returned)
    where
      branch : Bool → M (Agent Own) Bool
      branch b = if b then run_once run_loop >> run_rounds rest else return true

      read : get_agent w ≡ done w.agent w
      read = refl

  -- A call of `run_loop` that stops its agent from every world, by returning or by raising.
  abbrev pub Stops : Loop Own → Type 0
  Stops stopper = (w : World (Agent Own)) → (world (stopper w)).agent.running ≡ false

  run_once-Stops :
      (stopper : Loop Own) (w : World (Agent Own))
      → Stops stopper
      → (v : World (Agent Own)) × (run_once stopper w ≡ done tt v) × (v.agent.running ≡ false)
  run_once-Stops stopper w stops = elim (Step-cases (stopper w)) [
    | inl (a, v, e) ↦ (
      v,
      run_once-returned stopper w e,
      ap (λ s. (world {S = Agent Own} s).agent.running) (sym e) ∙ stops w,
    )
    | inr (x, v, e) ↦ (
      one_more_error v,
      run_once-raised stopper w e,
      ap (λ s. (world {S = Agent Own} s).agent.running) (sym e) ∙ stops w,
    )
  ]

  -- where the loop is left if one of its calls stops the agent
  run_rounds-Stops :
      (before : List (Loop Own)) (stopper : Loop Own) (w : World (Agent Own))
      → Stops stopper
      → (u : World (Agent Own)) × (u.agent.running ≡ false)
        × ((after : List (Loop Own)) → run_rounds (before ++ stopper ∷ after) w ≡ done true u)
  run_rounds-Stops [] stopper w stops = elim (Bool-cases w.agent.running) [
    | inl going ↦
        let (v, made, over) = run_once-Stops stopper w stops in
        (
          v,
          over,
          λ after. run_rounds_going stopper after w going made ∙ run_rounds_stopped after v over,
        )
    | inr over ↦ (w, over, λ after. run_rounds_stopped (stopper ∷ after) w over)
  ]
  run_rounds-Stops (run_loop ∷ before) stopper w stops = elim (Bool-cases w.agent.running) [
    | inl going ↦
        let (v, made) = run_once-Returning run_loop w in
        let (u, over, left) = run_rounds-Stops before stopper v stops in
        (
          u,
          over,
          λ after. run_rounds_going run_loop (before ++ stopper ∷ after) w going made ∙ left after,
        )
    | inr over ↦
        (w, over, λ after. run_rounds_stopped (run_loop ∷ before ++ stopper ∷ after) w over)
  ]

  -- the world once the connection stands
  abbrev pub online : World (Agent Own) → World (Agent Own)
  online w = record w { bus = record (w.bus) { connected = true } }

  -- the world in which the main loop starts
  abbrev pub begun : World (Agent Own) → World (Agent Own)
  begun v = record v { agent = record (v.agent) { running = true } }

  -- An agent that is connected in time and whose `setup` returns, and one of whose calls of `run_loop`
  -- stops it: whatever the calls before that one do, and where calls raise, the main loop is left
  -- with `running` false, at the latest after the call that stops. What is left of the run is the
  -- teardown and then the closing of the connection, and the calls after that one are not made.
  pub start-teardown :
      (setup teardown : Loop Own) (before : List (Loop Own)) (stopper : Loop Own)
      (after : List (Loop Own)) (w : World (Agent Own)) {v : World (Agent Own)}
      → setup (online w) ≡ done tt v
      → Stops stopper
      → (u : World (Agent Own)) × (run_rounds (before ++ stopper ∷ []) (begun v) ≡ done true u)
        × (u.agent.running ≡ false)
        × (start in_time setup (before ++ stopper ∷ after) teardown w ≡ (teardown >> close) u)
  unfolding start begin_running connect modify
  start-teardown setup teardown before stopper after w {v} ready stops =
      let (u, over, left) = run_rounds-Stops before stopper (begun v) stops in
      let rounds : List (Loop Own) = before ++ stopper ∷ after in
      let final : Bool → Loop Own = λ b. if b then teardown >> close else return tt in
      let run : Loop Own = run_rounds rounds >>= final in
      (
        u,
        left [],
        over,
        >>_done (connect in_time) (setup >> (begin_running >> run)) w refl
            ∙ (>>_done setup (begin_running >> run) (online w) ready
                ∙ (>>_done begin_running run v refl
                    ∙ >>=_done (run_rounds rounds) final (begun v) (left after))),
      )
