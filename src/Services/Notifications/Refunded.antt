-- ===== src/Services/Notifications/Refunded.antt =====
-- What a customer is told of a refund.
use dev_ops_agent_swarm.Base.{ℕ, ◌≡◌, refl, String, true, [], ◌∷◌, ◌++◌, some, lookup, insert, ◌==◌}
use dev_ops_agent_swarm.Base.Result.{Result, ok}
use dev_ops_agent_swarm.Base.Value.{Value, Fields, str, get, f_string}
use dev_ops_agent_swarm.Services.Notifications.{
  email, push, on_event, handler_of, message_handler, handle_payment_failed,
}
use dev_ops_agent_swarm.Services.Payment.{
  refunded_event, Payment, answer, Service, publish_event, refund_payment, refunded_response,
  refunded_row,
}

-- A completed payment that is refunded while NATS takes the events: the refund is answered as one, but the
-- one event that it publishes makes the notification worker tell the customer that the payment
-- failed, and to try again.
pub refund_payment-on_event :
    (two_digits : Value → Result Value) (numeric : Value → Value) (gmtime isoformat : ℕ → String)
    (now : ℕ) (id : String) (row : Payment) (s : Service)
    → s.pool_ready ≡ true
    → s.db_up ≡ true
    → s.nats_open ≡ true
    → s.publishing ≡ true
    → lookup id s.payments ≡ some row
    → (row.status == "completed") ≡ true
    → (subject : String) × (event : Fields) × (refund_payment numeric gmtime isoformat now id s ≡ (
      answer (refunded_response numeric gmtime isoformat now id row),
      record s {
        payments = insert id (refunded_row numeric gmtime isoformat now row) s.payments;
        events = s.events ++ (subject, event) ∷ [];
      },
    ))
      × (on_event two_digits subject (ok event)
          ≡ some (
            email (str "customer@example.com") (str "Payment Failed") (
                  f_string (
                    str "Payment for order #"
                    ∷ str row.order_id
                    ∷ str " failed: "
                    ∷ str "refunded"
                    ∷ str ". Please try again."
                    ∷ []))
                ∷ push (str "unknown") (str "Payment Failed") (
                    f_string (
                      str "Your payment for order #"
                      ∷ str row.order_id
                      ∷ str " could not be processed."
                      ∷ []))
                ∷ [],
            true,
          ))
unfolding refund_payment publish_event on_event handler_of message_handler handle_payment_failed get
refund_payment-on_event two_digits numeric gmtime isoformat now id row s ready up open_ taken there
      completed =
    (
      "payments.failed",
      refunded_event numeric gmtime isoformat id row,
      rw (ready, up, there, completed, open_, taken) refl,
      refl,
    )
