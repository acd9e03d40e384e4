-- ===== src/Messaging/Frame.antt =====
-- What a computation leaves alone: `Frames f m` says that `f` reads the same of the world before and
-- after `m`, whether `m` returns or raises.
use dev_ops_agent_swarm.Base.{
  ℕ, ◌≡◌, refl, ◌∙◌, String, Bool, true, false, Option, none, some, Bool-cases, inl, inr,
  if◌then◌else◌,
}
use dev_ops_agent_swarm.Base.Result.{Result, ok, raise, Error, runtime_error}
use dev_ops_agent_swarm.Messaging.Client.{
  World, M, Step, done, fail, world, ◌>>=◌, ◌>>◌, return, get_agent, modify, lift, from_result,
  match_option, match_result, attempt, publish, publish_at, attempts, deliver, answered,
}
use dev_ops_agent_swarm.Messaging.Message.{Message, is_expired}

pub record Frames {S A V : Type 0} (f : World S → V) (m : M S A) : Type 0 where
  pub same : (w : World S) → f (world (m w)) ≡ f w

module _ {S V : Type 0} {f : World S → V} where
  pub Frames->>= :
      {A B : Type 0} {m : M S A} {k : A → M S B}
      → Frames f m
      → ((a : A) → Frames f (k a))
      → Frames f (m >>= k)
  unfolding ◌>>=◌
  Frames->>= {A} {B} {m} {k} hm hk = record { same = λ w. go w (m w) (hm.same w) }
    where
      go :
          (w : World S) (r : Step S A)
          → f (world r) ≡ f w
          → f (world (elim r as (λ _. Step S B) [ done a v ↦ k a v | fail e v ↦ fail e v ])) ≡ f w
      go w (done a v) h = (hk a).same v ∙ h
      go w (fail e v) h = h

  pub Frames->> :
      {A B : Type 0} {m : M S A} {k : M S B} → Frames f m → Frames f k → Frames f (m >> k)
  unfolding ◌>>◌
  Frames->> hm hk = Frames->>= hm (λ _. hk)

  pub Frames-return : {A : Type 0} (a : A) → Frames f (return a)
  unfolding return
  Frames-return a = record { same = λ w. refl }

  pub Frames-get_agent : Frames f get_agent
  unfolding get_agent
  Frames-get_agent = record { same = λ w. refl }

  pub Frames-modify :
      (g : S → S) → ((w : World S) → f (record w { agent = g w.agent }) ≡ f w) → Frames f (modify g)
  unfolding modify
  Frames-modify g h = record { same = h }

  pub Frames-lift : {A : Type 0} (r : Result A) → Frames f (lift r)
  unfolding lift
  Frames-lift (ok a) = record { same = λ w. refl }
  Frames-lift (raise e) = record { same = λ w. refl }

  -- nothing follows an exception
  pub Frames-lift_raise :
      {A B : Type 0} (e : Error) (k : A → M S B) → Frames f (lift (raise e) >>= k)
  unfolding ◌>>=◌ lift
  Frames-lift_raise e k = record { same = λ w. refl }

  pub Frames-match_option :
      {A B : Type 0} (o : Option A) {n : M S B} {k : A → M S B}
      → Frames f n
      → ((a : A) → Frames f (k a))
      → Frames f (match_option o n k)
  unfolding match_option
  Frames-match_option none hn hk = hn
  Frames-match_option (some a) hn hk = hk a

  pub Frames-match_result :
      {A B : Type 0} (r : Result A) {c : Error → M S B} {k : A → M S B}
      → ((e : Error) → Frames f (c e))
      → ((a : A) → Frames f (k a))
      → Frames f (match_result r c k)
  unfolding match_result
  Frames-match_result (raise e) hc hk = hc e
  Frames-match_result (ok a) hc hk = hk a

  pub Frames-attempt : {A : Type 0} {m : M S A} → Frames f m → Frames f (attempt m)
  unfolding attempt
  Frames-attempt {A} {m} hm = record { same = λ w. go w (m w) (hm.same w) }
    where
      go :
          (w : World S) (r : Step S A)
          → f (world r) ≡ f w
          → f (
              world (elim r as (λ _. Step S (Result A)) [
                | done a v ↦ done (ok a) v
                | fail e v ↦ done (raise e) v
              ]))
            ≡ f w
      go w (done a v) h = h
      go w (fail e v) h = h

  pub Frames-if :
      {A : Type 0} (b : Bool) {x y : M S A}
      → Frames f x
      → Frames f y
      → Frames f (if b then x else y)
  Frames-if true hx hy = hx
  Frames-if false hx hy = hy

  pub deliver-Frames :
      (now : ℕ) (h : Message → M S (Unit {0})) (msg : Message) (w : World S)
      → Frames f (h msg)
      → f (deliver now h msg w).1 ≡ f w
  unfolding deliver
  deliver-Frames now h msg w k = elim (Bool-cases (is_expired now msg)) [
    | inl late ↦ rw late refl
    | inr fresh ↦ rw fresh (after (h msg w) (k.same w))
  ]
    where
      after : (r : Step S (Unit {0})) → f (world r) ≡ f w → f (answered r).1 ≡ f w
      after (done _ v) h = h
      after (fail _ v) h = h

-- the fields of the agent stay in a publish
pub Frames-publish :
    {S V : Type 0} (g : S → V) (subject : String) (msg : Message)
    → Frames (λ w. g w.agent) (publish subject msg)
unfolding publish
Frames-publish {S} {V} g subject msg = record { same = λ w. go w.bus.connected w }
  where
    replied :
        (w v : World S) (r : Result (Unit {0}))
        → g v.agent ≡ g w.agent
        → g (world (from_result v r)).agent ≡ g w.agent
    replied w v (ok _) h = h
    replied w v (raise _) h = h

    go :
        (b : Bool) (w : World S)
        → g
            (world (
              if b
              then (let (answer, bus) = publish_at w.bus (attempts 3 w.bus.refusals) subject msg in
                  from_result (record w { bus = bus }) answer)
              else fail runtime_error w)).agent
          ≡ g w.agent
    go true w =
        let (answer, bus) = publish_at w.bus (attempts 3 w.bus.refusals) subject msg in
        replied w (record w { bus = bus }) answer refl
    go false w = refl
