-- ===== src/Services/Notifications.antt =====
-- The notification worker (services/notification-worker/app/main.py). `two_digits` is the formatting of an
-- amount, which raises for what is no number.
pub mod Refunded
use dev_ops_agent_swarm.Base.{
  String, Bool, true, false, List, [], ◌∷◌, Option, none, some, ◌==◌, if◌then◌else◌,
}
use dev_ops_agent_swarm.Base.Int.{pos}
use dev_ops_agent_swarm.Base.Result.{Result, ok, raise, ◌>>=◌}
use dev_ops_agent_swarm.Base.Value.{Value, Fields, int, str, get_or, f_string}

-- what is sent
pub data Notice : Type 0 where
  email : Value → Value → Value → Notice
  push : Value → Value → Value → Notice
  slack : String → Value → Notice

module _ (two_digits : Value → Result Value) where
  unfoldable pub handle_order_created : Fields → Result (List Notice)
  handle_order_created event =
      let order_id = get_or "id" (str "?") event in
      let user_id = get_or "user_id" (str "?") event in
      do
        total ← two_digits (get_or "total" (int (pos 0)) event)
        ok (
            email (f_string (str "user_" ∷ user_id ∷ str "@example.com" ∷ []))
              (f_string (str "Order #" ∷ order_id ∷ str " Confirmed" ∷ []))
              (f_string
                (str "Your order for $" ∷ total ∷ str " has been placed successfully." ∷ []))
            ∷ push user_id (str "Order Confirmed")
                (f_string (str "Order #" ∷ order_id ∷ str " is being processed." ∷ []))
            ∷ [])

  unfoldable pub handle_payment_completed : Fields → Result (List Notice)
  handle_payment_completed event =
      let order_id = get_or "order_id" (str "?") event in
      let currency = get_or "currency" (str "USD") event in
      do
        amount ← two_digits (get_or "amount" (int (pos 0)) event)
        ok (
            email (str "customer@example.com")
              (f_string (str "Payment Receipt — " ∷ currency ∷ str " " ∷ amount ∷ []))
              (f_string (
                str "Your payment of "
                ∷ currency
                ∷ str " "
                ∷ amount
                ∷ str " for order #"
                ∷ order_id
                ∷ str " was successful."
                ∷ []))
            ∷ [])

  unfoldable pub handle_payment_failed : Fields → Result (List Notice)
  handle_payment_failed event =
      let order_id = get_or "order_id" (str "?") event in
      ok (
        email (str "customer@example.com") (str "Payment Failed") (
          f_string (
            str "Payment for order #"
            ∷ order_id
            ∷ str " failed: "
            ∷ get_or "reason" (str "unknown") event
            ∷ str ". Please try again."
            ∷ []))
        ∷ push (str "unknown") (str "Payment Failed") (
            f_string
              (str "Your payment for order #" ∷ order_id ∷ str " could not be processed." ∷ []))
        ∷ [])

  unfoldable pub handle_inventory_low : Fields → Result (List Notice)
  handle_inventory_low event = ok (
      slack "#ops-alerts" (
        f_string (
          str ":warning: Low stock alert: product "
          ∷ get_or "product_id" (str "?") event
          ∷ str " has "
          ∷ get_or "stock" (int (pos 0)) event
          ∷ str " units remaining."
          ∷ []))
      ∷ [])

  -- `HANDLERS`
  unfoldable pub handler_of : String → Option (Fields → Result (List Notice))
  handler_of subject =
      if subject == "orders.created"
      then some handle_order_created
      else if subject == "payments.completed"
      then some handle_payment_completed
      else if subject == "payments.failed"
      then some handle_payment_failed
      else if subject == "inventory.low"
      then some handle_inventory_low
      else none

  -- what is sent, and whether the message is acknowledged
  abbrev pub handled : Result (List Notice) → List Notice × Bool
  handled (ok notices) = (notices, true)
  handled (raise _) = ([], false)

  -- `message_handler` on what the data of a message decode to
  unfoldable pub message_handler :
      (Fields → Result (List Notice)) → Result Fields → List Notice × Bool
  message_handler handler decoded = handled (decoded >>= handler)

  abbrev pub dispatched :
      Option (Fields → Result (List Notice)) → Result Fields → Option (List Notice × Bool)
  dispatched none decoded = none
  dispatched (some handler) decoded = some (message_handler handler decoded)

  -- what the worker makes of a message on a subject, if it listens there
  unfoldable pub on_event : String → Result Fields → Option (List Notice × Bool)
  on_event subject decoded = dispatched (handler_of subject) decoded
