-- ===== src/Tests/Services.antt =====
-- Witnesses for the services under observation.
use dev_ops_agent_swarm.Base.{
  ◌∷◌, ◌++◌, insert, some, ℕ, ◌≡◌, refl, String, true, false, [], lookup, none,
}
use dev_ops_agent_swarm.Base.Int.{pos}
use dev_ops_agent_swarm.Base.Result.{ok}
use dev_ops_agent_swarm.Base.Value.{Fields, str, f_string, Value, int}
use dev_ops_agent_swarm.Services.Notifications.{on_event, email, push}
use dev_ops_agent_swarm.Services.Notifications.Refunded.{refund_payment-on_event}
use dev_ops_agent_swarm.Services.Payment.{
  Payment, PaymentCreate, Service, answer, http_exception, create_payment, created_row,
  created_response, row_response, get_payment, refund_payment, refunded_row, refunded_response,
}
use dev_ops_agent_swarm.Services.Payment.Refunds.{refund_payment-create_payment}

abbrev payment_service : Service
payment_service = record {
  pool_ready = true;
  db_up = true;
  nats_open = true;
  publishing = false;
  payments = [];
  events = [];
}

abbrev order : PaymentCreate
order = record { order_id = "o1"; amount = int (pos 20); currency = "EUR"; method = "card" }

abbrev kept : Value → Value
kept v = v

abbrev clock : ℕ → String
clock t = "t"

no_payment : lookup "p1" payment_service.payments ≡ none
unfolding lookup
no_payment = refl

refund_payment-create_payment_example :
    let (created, s1) = create_payment kept clock clock 1 "p1" order payment_service in
    let (refund, s2) = refund_payment kept clock clock 2 "p1" s1 in
    let row = created_row kept clock clock 1 order in
    (created ≡ answer (created_response kept clock clock 1 "p1" order))
    × ((get_payment kept clock clock "p1" s1).0 ≡ answer (row_response kept clock clock "p1" row))
    × (refund ≡ answer (refunded_response kept clock clock 2 "p1" row))
    × ((refund_payment kept clock clock 3 "p1" s2).0
        ≡ http_exception 409 "Only completed payments can be refunded")
    × ((get_payment kept clock clock "p1" s2).0
        ≡ answer (row_response kept clock clock "p1" (refunded_row kept clock clock 2 row)))
refund_payment-create_payment_example =
    refund_payment-create_payment kept clock clock 1 2 3 "p1" order payment_service refl refl
      no_payment

abbrev paid_row : Payment
paid_row = created_row kept clock clock 1 order

abbrev paid_service : Service
paid_service = record payment_service { publishing = true; payments = ("p1", paid_row) ∷ [] }

paid : lookup "p1" paid_service.payments ≡ some paid_row
unfolding lookup
paid = refl

refund_payment-on_event_example :
    (subject : String) × (event : Fields) × (refund_payment kept clock clock 2 "p1" paid_service ≡ (
      answer (refunded_response kept clock clock 2 "p1" paid_row),
      record paid_service {
        payments = insert "p1" (refunded_row kept clock clock 2 paid_row) paid_service.payments;
        events = paid_service.events ++ (subject, event) ∷ [];
      },
    ))
    × (on_event (λ v. ok v) subject (ok event)
        ≡ some (
          email (str "customer@example.com") (str "Payment Failed") (
                f_string (
                  str "Payment for order #"
                  ∷ str "o1"
                  ∷ str " failed: "
                  ∷ str "refunded"
                  ∷ str ". Please try again."
                  ∷ []))
              ∷ push (str "unknown") (str "Payment Failed") (
                  f_string (
                    str "Your payment for order #"
                    ∷ str "o1"
                    ∷ str " could not be processed."
                    ∷ []))
              ∷ [],
          true,
        ))
refund_payment-on_event_example =
    refund_payment-on_event (λ v. ok v) kept clock clock 2 "p1" paid_row paid_service refl refl refl
      refl paid refl
