-- ===== src/Messaging/Sends.antt =====
-- What an agent publishes: `Sends P m` says that if `P` holds of every message in the outbox, it does
-- after `m`, whether `m` returns or raises.
use dev_ops_agent_swarm.Base.{
  Option, none, some, ℕ, String, Bool, true, false, List, [], ◌∷◌, All, All-append, Bool-cases, inl,
  inr, if◌then◌else◌,
}
use dev_ops_agent_swarm.Base.Result.{Result, ok, raise, Error, runtime_error}
use dev_ops_agent_swarm.Messaging.Client.{
  World, M, Step, done, fail, world, ◌>>=◌, ◌>>◌, return, get_agent, modify, lift, next_fresh,
  from_result, match_result, match_option, attempt, publish, publish_at, attempts, deliver,
  answered,
}
use dev_ops_agent_swarm.Messaging.Message.{Message, is_expired}

pub record Sends {S A : Type 0} (P : String × Message → Type 0) (m : M S A) : Type 0 where
  pub sends : (w : World S) → All P w.bus.outbox → All P (world (m w)).bus.outbox

module _ {S : Type 0} {P : String × Message → Type 0} where
  pub Sends->>= :
      {A B : Type 0} {m : M S A} {f : A → M S B}
      → Sends P m
      → ((a : A) → Sends P (f a))
      → Sends P (m >>= f)
  unfolding ◌>>=◌
  Sends->>= {A} {B} {m} {f} hm hf = record { sends = λ w h. onward (m w) (hm.sends w h) }
    where
      onward :
          (r : Step S A)
          → All P (world r).bus.outbox
          → All P
              (world
                (elim r as (λ _. Step S B) [ done a v ↦ f a v | fail e v ↦ fail e v ])).bus.outbox
      onward (done a v) h = (hf a).sends v h
      onward (fail e v) h = h

  pub Sends->> : {A B : Type 0} {m : M S A} {k : M S B} → Sends P m → Sends P k → Sends P (m >> k)
  unfolding ◌>>◌
  Sends->> hm hk = Sends->>= hm (λ _. hk)

  pub Sends-return : {A : Type 0} (a : A) → Sends {S = S} P (return a)
  unfolding return
  Sends-return a = record { sends = λ w h. h }

  pub Sends-get_agent : Sends {S = S} P get_agent
  unfolding get_agent
  Sends-get_agent = record { sends = λ w h. h }

  pub Sends-modify : (f : S → S) → Sends P (modify f)
  unfolding modify
  Sends-modify f = record { sends = λ w h. h }

  pub Sends-lift : {A : Type 0} (r : Result A) → Sends {S = S} P (lift r)
  unfolding lift
  Sends-lift (ok a) = record { sends = λ w h. h }
  Sends-lift (raise e) = record { sends = λ w h. h }

  pub Sends-next_fresh : Sends {S = S} P next_fresh
  unfolding next_fresh
  Sends-next_fresh = record { sends = λ w h. h }

  pub Sends-match_option :
      {A B : Type 0} (o : Option A) {m : M S B} {f : A → M S B}
      → Sends P m
      → ((a : A) → Sends P (f a))
      → Sends P (match_option o m f)
  unfolding match_option
  Sends-match_option none hm hf = hm
  Sends-match_option (some a) hm hf = hf a

  pub Sends-match_result :
      {A B : Type 0} (r : Result A) {c : Error → M S B} {f : A → M S B}
      → ((e : Error) → Sends P (c e))
      → ((a : A) → Sends P (f a))
      → Sends P (match_result r c f)
  unfolding match_result
  Sends-match_result (raise e) hc hf = hc e
  Sends-match_result (ok a) hc hf = hf a

  pub Sends-attempt : {A : Type 0} {m : M S A} → Sends P m → Sends P (attempt m)
  unfolding attempt
  Sends-attempt {A} {m} hm = record { sends = λ w h. caught (m w) (hm.sends w h) }
    where
      caught :
          (r : Step S A)
          → All P (world r).bus.outbox
          → All P
              (world (elim r as (λ _. Step S (Result A)) [
                | done a v ↦ done (ok a) v
                | fail e v ↦ done (raise e) v
              ])).bus.outbox
      caught (done a v) h = h
      caught (fail e v) h = h

  pub Sends-if :
      {A : Type 0} (b : Bool) {x y : M S A} → Sends P x → Sends P y → Sends P (if b then x else y)
  Sends-if true hx hy = hx
  Sends-if false hx hy = hy

  pub Sends-publish :
      (subject : String) (msg : Message) → P (subject, msg) → Sends {S = S} P (publish subject msg)
  unfolding publish publish_at
  Sends-publish subject msg p = record {
    sends = λ w h. go w.bus.connected (attempts 3 w.bus.refusals) w h;
  }
    where
      go :
          (b : Bool) (r : Bool × List Bool) (w : World S)
          → All P w.bus.outbox
          → All P
              (world (
                if b
                then (let (answer, bus) = publish_at w.bus r subject msg in
                    from_result (record w { bus = bus }) answer)
                else fail runtime_error w)).bus.outbox
      go true (true, rest) w h = All-append P w.bus.outbox ((subject, msg) ∷ []) h (p, tt)
      go true (false, rest) w h = h
      go false r w h = h

  pub deliver-Sends :
      (now : ℕ) (handler : Message → M S (Unit {0})) (msg : Message) (w : World S)
      → Sends P (handler msg)
      → All P w.bus.outbox
      → All P (deliver now handler msg w).1.bus.outbox
  unfolding deliver
  deliver-Sends now handler msg w k h = elim (Bool-cases (is_expired now msg)) [
    | inl late ↦ rw late h
    | inr fresh ↦ rw fresh (after (handler msg w) (k.sends w h))
  ]
    where
      after : (r : Step S (Unit {0})) → All P (world r).bus.outbox → All P (answered r).1.bus.outbox
      after (done _ v) h = h
      after (fail _ v) h = h
