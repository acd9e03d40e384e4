-- ===== src/Services/Payment.antt =====
-- The payment service (services/payment-service/app/main.py). `numeric` is what a column of two decimals
-- keeps of an amount, and `gmtime` and `isoformat` give the texts of a time.
pub mod Refunds
use dev_ops_agent_swarm.Base.{
  ℕ, String, Bool, true, false, List, [], ◌∷◌, ◌++◌, Option, none, some, Dict, lookup, insert, not,
  ◌==◌, ◌&&◌, if◌then◌else◌,
}
use dev_ops_agent_swarm.Base.Value.{Value, Fields, end, field, null, str, dict}

-- a row of `payments`, but for its id
pub record Payment : Type 0 where
  pub order_id : String
  pub status : String
  pub amount : Value
  pub currency : String
  pub method : String
  pub failure_reason : Value
  pub created_at : ℕ
  pub updated_at : ℕ

pub record PaymentCreate : Type 0 where
  pub order_id : String
  pub amount : Value
  pub currency : String
  pub method : String

pub record PaymentResponse : Type 0 where
  pub id : String
  pub order_id : String
  pub status : String
  pub amount : Value
  pub currency : String
  pub method : String
  pub created_at : String
  pub updated_at : String
  pub failure_reason : Value

-- what a route answers: its value, an `HTTPException`, or the error 500 of another exception
pub data Answer (A : Type 0) : Type 0 where
  answer : A → Answer A
  http_exception : ℕ → String → Answer A
  server_error : Answer A

-- the service: whether its pool is there, its database answers, its connection to NATS is open and
-- publishing returns; the table and the events that were published
pub record Service : Type 0 where
  pub pool_ready : Bool
  pub db_up : Bool
  pub nats_open : Bool
  pub publishing : Bool
  pub payments : Dict Payment
  pub events : List (String × Fields)

abbrev pub ok_or_down : Bool → Value
ok_or_down b = str (if b then "ok" else "down")

unfoldable pub db_ok : Service → Bool
db_ok s = s.pool_ready && s.db_up

-- `health`
unfoldable pub health : Service → Fields
health s = field "status" (str (if db_ok s then "healthy" else "degraded")) (
    field "service" (str "payment-svc") (
      field "version" (str "0.1.0") (
        field "dependencies"
          (dict
            (field "postgres" (ok_or_down (db_ok s)) (field "nats" (ok_or_down s.nats_open) end)))
          end)))

-- `_publish_event`
unfoldable pub publish_event : String → Fields → Service → Service
publish_event subject event s =
    if s.nats_open && s.publishing
    then record s { events = s.events ++ (subject, event) ∷ [] }
    else s

-- a session of the pool: without a pool the dependency answers, and a database that is down raises
abbrev pub with_pool : {A : Type 0} → Service → Answer A × Service → Answer A × Service
with_pool s run =
    if s.pool_ready
    then (if s.db_up then run else (server_error, s))
    else (http_exception 503 "Database pool not initialised", s)

module _ (numeric : Value → Value) (gmtime isoformat : ℕ → String) where
  abbrev pub created_row : ℕ → PaymentCreate → Payment
  created_row now p = record {
    order_id = p.order_id;
    status = "completed";
    amount = numeric p.amount;
    currency = p.currency;
    method = p.method;
    failure_reason = null;
    created_at = now;
    updated_at = now;
  }

  abbrev pub completed_event : String → PaymentCreate → Fields
  completed_event payment_id p = field "payment_id" (str payment_id) (
      field "order_id" (str p.order_id) (
        field "amount" p.amount
          (field "currency" (str p.currency) (field "status" (str "completed") end))))

  abbrev pub created_response : ℕ → String → PaymentCreate → PaymentResponse
  created_response now payment_id p = record {
    id = payment_id;
    order_id = p.order_id;
    status = "completed";
    amount = p.amount;
    currency = p.currency;
    method = p.method;
    created_at = gmtime now;
    updated_at = gmtime now;
    failure_reason = null;
  }

  -- the `INSERT`, which a row under the same primary key refuses, and what follows it
  abbrev pub inserted :
      ℕ → String → PaymentCreate → Service → Option Payment → Answer PaymentResponse × Service
  inserted now payment_id p s (some row) = (server_error, s)
  inserted now payment_id p s none = (
    answer (created_response now payment_id p),
    publish_event "payments.completed" (completed_event payment_id p)
        (record s { payments = insert payment_id (created_row now p) s.payments }),
  )

  unfoldable pub create_payment :
      ℕ → String → PaymentCreate → Service → Answer PaymentResponse × Service
  create_payment now payment_id p s =
      with_pool s (inserted now payment_id p s (lookup payment_id s.payments))

  abbrev pub row_response : String → Payment → PaymentResponse
  row_response payment_id row = record {
    id = payment_id;
    order_id = row.order_id;
    status = row.status;
    amount = row.amount;
    currency = row.currency;
    method = row.method;
    created_at = isoformat row.created_at;
    updated_at = isoformat row.updated_at;
    failure_reason = row.failure_reason;
  }

  abbrev pub found : String → Option Payment → Answer PaymentResponse
  found payment_id none = http_exception 404 "Payment not found"
  found payment_id (some row) = answer (row_response payment_id row)

  unfoldable pub get_payment : String → Service → Answer PaymentResponse × Service
  get_payment payment_id s = with_pool s (found payment_id (lookup payment_id s.payments), s)

  abbrev pub refunded_row : ℕ → Payment → Payment
  refunded_row now row = record row { status = "refunded"; updated_at = now }

  abbrev pub refunded_event : String → Payment → Fields
  refunded_event payment_id row =
      field "payment_id" (str payment_id)
        (field "order_id" (str row.order_id) (field "reason" (str "refunded") end))

  abbrev pub refunded_response : ℕ → String → Payment → PaymentResponse
  refunded_response now payment_id row = record (row_response payment_id row) {
    status = "refunded";
    updated_at = gmtime now;
    failure_reason = null;
  }

  abbrev pub refunded : ℕ → String → Service → Option Payment → Answer PaymentResponse × Service
  refunded now payment_id s none = (http_exception 404 "Payment not found", s)
  refunded now payment_id s (some row) =
      if row.status == "completed"
      then (
        answer (refunded_response now payment_id row),
        publish_event "payments.failed" (refunded_event payment_id row)
            (record s { payments = insert payment_id (refunded_row now row) s.payments }),
      )
      else (http_exception 409 "Only completed payments can be refunded", s)

  unfoldable pub refund_payment : ℕ → String → Service → Answer PaymentResponse × Service
  refund_payment now payment_id s =
      with_pool s (refunded now payment_id s (lookup payment_id s.payments))
