-- ===== src/Messaging/Keeps.antt =====
-- Invariants of the agent's fields: `Keeps P m` says that `m` leaves `P` standing, whether it
-- returns or raises, with one rule for each way that a computation is built.
use dev_ops_agent_swarm.Base.{
  String, Bool, true, false, ◌≡◌, refl, Option, none, some, if◌then◌else◌,
}
use dev_ops_agent_swarm.Base.Result.{Result, ok, raise, Error, runtime_error}
use dev_ops_agent_swarm.Messaging.Client.{
  World, M, Step, done, fail, world, ◌>>=◌, ◌>>◌, return, get_agent, modify, lift, from_result,
  match_option, match_result, attempt, publish, publish_at, attempts, build,
}
use dev_ops_agent_swarm.Messaging.Message.{Message, Draft}

pub record Keeps {S A : Type 0} (P : S → Type 0) (m : M S A) : Type 0 where
  pub keeps : (w : World S) → P w.agent → P (world (m w)).agent

module _ {S : Type 0} {P : S → Type 0} where
  pub Keeps->>= :
      {A B : Type 0} {m : M S A} {f : A → M S B}
      → Keeps P m
      → ((a : A) → Keeps P (f a))
      → Keeps P (m >>= f)
  unfolding ◌>>=◌
  Keeps->>= {A} {B} {m} {f} hm hf = record { keeps = λ w h. go (m w) (hm.keeps w h) }
    where
      go :
          (r : Step S A)
          → P (world r).agent
          → P
              (world
                (elim r as (λ _. Step S B) [ done a w' ↦ f a w' | fail e w' ↦ fail e w' ])).agent
      go (done a w') h = (hf a).keeps w' h
      go (fail e w') h = h

  pub Keeps->> : {A B : Type 0} {m : M S A} {k : M S B} → Keeps P m → Keeps P k → Keeps P (m >> k)
  unfolding ◌>>◌
  Keeps->> hm hk = Keeps->>= hm (λ _. hk)

  pub Keeps-return : {A : Type 0} (a : A) → Keeps P (return a)
  unfolding return
  Keeps-return a = record { keeps = λ w h. h }

  -- what follows a reading of the fields may use the invariant
  pub Keeps-get_agent :
      {B : Type 0} {f : S → M S B} → ((s : S) → P s → Keeps P (f s)) → Keeps P (get_agent >>= f)
  unfolding ◌>>=◌ get_agent
  Keeps-get_agent hf = record { keeps = λ w h. (hf w.agent h).keeps w h }

  pub Keeps-modify : (f : S → S) → ((s : S) → P s → P (f s)) → Keeps P (modify f)
  unfolding modify
  Keeps-modify f hf = record { keeps = λ w h. hf w.agent h }

  pub Keeps-lift : {A : Type 0} (r : Result A) → Keeps P (lift r)
  unfolding lift
  Keeps-lift (ok a) = record { keeps = λ w h. h }
  Keeps-lift (raise e) = record { keeps = λ w h. h }

  -- what follows a computation that may raise runs on its value
  pub Keeps-lift_ok :
      {A B : Type 0} {r : Result A} {f : A → M S B}
      → ((a : A) → r ≡ ok a → Keeps P (f a))
      → Keeps P (lift r >>= f)
  unfolding ◌>>=◌ lift
  Keeps-lift_ok {r = ok a} hf = record { keeps = λ w h. (hf a refl).keeps w h }
  Keeps-lift_ok {r = raise e} hf = record { keeps = λ w h. h }

  pub Keeps-match_option :
      {A B : Type 0} {o : Option A} {n : M S B} {f : A → M S B}
      → Keeps P n
      → ((a : A) → o ≡ some a → Keeps P (f a))
      → Keeps P (match_option o n f)
  unfolding match_option
  Keeps-match_option {o = none} hn hf = hn
  Keeps-match_option {o = some a} hn hf = hf a refl

  pub Keeps-match_result :
      {A B : Type 0} {r : Result A} {c : Error → M S B} {f : A → M S B}
      → ((e : Error) → Keeps P (c e))
      → ((a : A) → r ≡ ok a → Keeps P (f a))
      → Keeps P (match_result r c f)
  unfolding match_result
  Keeps-match_result {r = raise e} hc hf = hc e
  Keeps-match_result {r = ok a} hc hf = hf a refl

  pub Keeps-attempt : {A : Type 0} {m : M S A} → Keeps P m → Keeps P (attempt m)
  unfolding attempt
  Keeps-attempt {A} {m} hm = record { keeps = λ w h. go (m w) (hm.keeps w h) }
    where
      go :
          (r : Step S A)
          → P (world r).agent
          → P
              (world (elim r as (λ _. Step S (Result A)) [
                | done a w' ↦ done (ok a) w'
                | fail e w' ↦ done (raise e) w'
              ])).agent
      go (done a w') h = h
      go (fail e w') h = h

  pub Keeps-if :
      {A : Type 0} (b : Bool) {x y : M S A}
      → (b ≡ true → Keeps P x)
      → (b ≡ false → Keeps P y)
      → Keeps P (if b then x else y)
  Keeps-if true hx hy = hx refl
  Keeps-if false hx hy = hy refl

  pub Keeps-build : (d : Draft) → Keeps P (build d)
  unfolding build
  Keeps-build d = record { keeps = λ w h. h }

  -- the bus is no field of the agent
  pub Keeps-publish : (subject : String) (msg : Message) → Keeps P (publish subject msg)
  unfolding publish
  Keeps-publish subject msg = record { keeps = λ w h. go w.bus.connected w h }
    where
      answered :
          (w : World S) (r : Result (Unit {0})) → P w.agent → P (world (from_result w r)).agent
      answered w (ok _) h = h
      answered w (raise _) h = h

      go :
          (b : Bool) (w : World S)
          → P w.agent
          → P
              (world (
                if b
                then (let (answer, bus) =
                      publish_at w.bus (attempts 3 w.bus.refusals) subject msg in
                    from_result (record w { bus = bus }) answer)
                else fail runtime_error w)).agent
      go true w h =
          let (answer, bus) = publish_at w.bus (attempts 3 w.bus.refusals) subject msg in
          answered (record w { bus = bus }) answer h
      go false w h = h
