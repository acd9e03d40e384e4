-- ===== src/Messaging/Client.antt =====
-- `NATSClient` (shared/messaging/nats_client.py) and the monad that the agents' handlers run in.
-- An exception leaves every change made before it in place, as in Python.
use dev_ops_agent_swarm.Base.{
  ℕ, zero, suc, ◌+◌, String, Bool, true, false, List, [], ◌∷◌, ◌++◌, if◌then◌else◌, Option, none,
  some,
}
use dev_ops_agent_swarm.Base.Result.{Error, Result, ok, raise, nats_error, runtime_error}
use dev_ops_agent_swarm.Messaging.Message.{Message, Fresh, Draft, build_message, is_expired}

-- The connection. `refusals` says of each coming call of `_js.publish` whether it raises; once
-- the list is empty every call succeeds. `uuids` gives the generated fields of message `n`.
pub record Bus : Type 0 where
  pub connected : Bool
  pub refusals : List Bool
  pub uuids : ℕ → Fresh
  pub built : ℕ
  pub outbox : List (String × Message)

pub record World (S : Type 0) : Type 0 where
  pub agent : S
  pub bus : Bus

pub data Step (S A : Type 0) : Type 0 where
  done : A → World S → Step S A
  fail : Error → World S → Step S A

abbrev pub M : Type 0 → Type 0 → Type 0
M S A = World S → Step S A

infixl 5 ◌>>=◌ ◌>>◌
unfoldable pub ◌>>=◌ : {S A B : Type 0} → M S A → (A → M S B) → M S B
◌>>=◌ m f w = elim (m w) [ done a w' ↦ f a w' | fail e w' ↦ fail e w' ]

unfoldable pub ◌>>◌ : {S A B : Type 0} → M S A → M S B → M S B
unfolding ◌>>=◌
m >> k = m >>= λ _. k

unfoldable pub return : {S A : Type 0} → A → M S A
return a w = done a w

-- a computation on the agent's fields alone
unfoldable pub get_agent : {S : Type 0} → M S S
get_agent w = done w.agent w

unfoldable pub modify : {S : Type 0} → (S → S) → M S (Unit {0})
modify f w = done tt (record w { agent = f w.agent })

-- a pure computation that may raise
abbrev pub from_result : {S A : Type 0} → World S → Result A → Step S A
from_result w (ok a) = done a w
from_result w (raise e) = fail e w

unfoldable pub lift : {S A : Type 0} → Result A → M S A
lift r w = from_result w r

-- branches on a computed value, as computations
unfoldable pub match_option : {S A B : Type 0} → Option A → M S B → (A → M S B) → M S B
match_option none absent present = absent
match_option (some a) absent present = present a

unfoldable pub match_result : {S A B : Type 0} → Result A → (Error → M S B) → (A → M S B) → M S B
match_result (raise e) caught next = caught e
match_result (ok a) caught next = next a

-- `try: … except Exception`
unfoldable pub attempt : {S A : Type 0} → M S A → M S (Result A)
attempt m w = elim (m w) [ done a w' ↦ done (ok a) w' | fail e w' ↦ done (raise e) w' ]

-- the world that a computation leaves, whether it returns or raises
abbrev pub world : {S A : Type 0} → Step S A → World S
world (done _ w) = w
world (fail _ w) = w

-- the attempts of `publish`: `left` more after this one
unfoldable pub attempts : ℕ → List Bool → Bool × List Bool
attempts left [] = (true, [])
attempts left (false ∷ rest) = (true, rest)
attempts zero (true ∷ rest) = (false, rest)
attempts (suc left) (true ∷ rest) = attempts left rest

-- what a publish leaves of the connection
abbrev pub sent : Bus → List Bool → String → Message → Bus
sent b rest subject msg = record b { refusals = rest; outbox = b.outbox ++ (subject, msg) ∷ [] }

unfoldable pub publish_at : Bus → Bool × List Bool → String → Message → Result (Unit {0}) × Bus
publish_at b (true, rest) subject msg = (ok tt, sent b rest subject msg)
publish_at b (false, rest) subject msg = (raise nats_error, record b { refusals = rest })

-- `publish`, with the default `max_retries=3`
unfoldable pub publish : {S : Type 0} → String → Message → M S (Unit {0})
publish subject msg w =
    if w.bus.connected
    then (let (answer, bus) = publish_at w.bus (attempts 3 w.bus.refusals) subject msg in
        from_result (record w { bus = bus }) answer)
    else fail runtime_error w

-- `build_message(…)` draws its generated fields
unfoldable pub build : {S : Type 0} → Draft → M S Message
build d w =
    done (build_message (w.bus.uuids w.bus.built) d)
      (record w { bus = record (w.bus) { built = w.bus.built + 1 } })

-- the generated fields of the next message
unfoldable pub next_fresh : {S : Type 0} → M S Fresh
next_fresh w =
    done (w.bus.uuids w.bus.built) (record w { bus = record (w.bus) { built = w.bus.built + 1 } })

-- what comes of `connect` within its timeout
pub data Connection : Type 0 where
  in_time timed_out : Connection
  refused : Error → Connection

unfoldable pub connect : {S : Type 0} → Connection → M S (Unit {0})
connect in_time w = done tt (record w { bus = record (w.bus) { connected = true } })
connect timed_out w = fail runtime_error w
connect (refused e) w = fail e w

unfoldable pub close : {S : Type 0} → M S (Unit {0})
close w = done tt (record w { bus = record (w.bus) { connected = false } })

pub data Ack : Type 0 where
  acked naked : Ack

-- a handler that returns is acknowledged, one that raises is not
abbrev pub answered : {S : Type 0} → Step S (Unit {0}) → Ack × World S
answered (done _ w) = (acked, w)
answered (fail _ w) = (naked, w)

-- `_raw_handler`: an expired message is acknowledged unread; what is not acknowledged is
-- delivered again
unfoldable pub deliver :
    {S : Type 0} → ℕ → (Message → M S (Unit {0})) → Message → World S → Ack × World S
deliver now handler msg w = if is_expired now msg then (acked, w) else answered (handler msg w)

-- Everything that a run of a handler computes with.
unfoldable pub effects : Unit {0}
unfolding ◌>>=◌ ◌>>◌ return get_agent modify lift match_option match_result attempt publish
    publish_at attempts build next_fresh
effects = tt
