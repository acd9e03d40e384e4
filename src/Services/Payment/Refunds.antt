-- ===== src/Services/Payment/Refunds.antt =====
-- A payment from its creation to its refund, and what the health observer makes of the service.
use dev_ops_agent_swarm.Base.{
  sym, ap, subst, ℕ, ◌≡◌, refl, String, true, false, none, some, lookup, insert, lookup-insert_self,
  Bool-cases, inl, inr, ◌==◌, ◌&&◌,
}
use dev_ops_agent_swarm.Base.Value.{Value, Fields}
use dev_ops_agent_swarm.Services.Payment.{
  Payment, PaymentCreate, answer, http_exception, Service, completed_event, refunded_event,
  publish_event, create_payment, created_row, created_response, row_response, get_payment,
  refund_payment, refunded_row, refunded_response,
}

-- a service with its pool, its database and a row
abbrev Holds : String → Payment → Service → Type 0
Holds id row s = (s.pool_ready ≡ true) × (s.db_up ≡ true) × (lookup id s.payments ≡ some row)

-- a row that was written is there after an event, whether or not NATS takes it
publish_event-Holds :
    (subject : String) (event : Fields) (id : String) (row : Payment) (s : Service)
    → s.pool_ready ≡ true
    → s.db_up ≡ true
    → Holds id row (publish_event subject event (record s { payments = insert id row s.payments }))
unfolding publish_event
publish_event-Holds subject event id row s ready up =
    elim (Bool-cases (s.nats_open && s.publishing)) [
      | inl taken ↦ rw taken (ready, up, lookup-insert_self id row s.payments)
      | inr lost ↦ rw lost (ready, up, lookup-insert_self id row s.payments)
    ]

module _ (numeric : Value → Value) (gmtime isoformat : ℕ → String) where
  create_payment-new :
      (now : ℕ) (id : String) (p : PaymentCreate) (s : Service)
      → s.pool_ready ≡ true
      → s.db_up ≡ true
      → lookup id s.payments ≡ none
      → create_payment numeric gmtime isoformat now id p s ≡ (
        answer (created_response numeric gmtime isoformat now id p),
        publish_event "payments.completed"
            (completed_event numeric gmtime isoformat id p)
            (record s {
              payments = insert id (created_row numeric gmtime isoformat now p) s.payments;
            }),
      )
  unfolding create_payment
  create_payment-new now id p s ready up new = rw (ready, up, new) refl

  get_payment-Holds :
      (id : String) (row : Payment) (s : Service)
      → Holds id row s
      → (get_payment numeric gmtime isoformat id s).0
        ≡ answer (row_response numeric gmtime isoformat id row)
  unfolding get_payment
  get_payment-Holds id row s (ready, up, there) = rw (ready, up, there) refl

  -- a refund of a completed payment
  refund_payment-completed :
      (now : ℕ) (id : String) (row : Payment) (s : Service)
      → Holds id row s
      → (row.status == "completed") ≡ true
      → refund_payment numeric gmtime isoformat now id s ≡ (
        answer (refunded_response numeric gmtime isoformat now id row),
        publish_event "payments.failed" (refunded_event numeric gmtime isoformat id row) (record s {
          payments = insert id (refunded_row numeric gmtime isoformat now row) s.payments;
        }),
      )
  unfolding refund_payment
  refund_payment-completed now id row s (ready, up, there) completed =
      rw (ready, up, there, completed) refl

  refund_payment-refused :
      (now : ℕ) (id : String) (row : Payment) (s : Service)
      → Holds id row s
      → (row.status == "completed") ≡ false
      → (refund_payment numeric gmtime isoformat now id s).0
        ≡ http_exception 409 "Only completed payments can be refunded"
  unfolding refund_payment
  refund_payment-refused now id row s (ready, up, there) other = rw (ready, up, there, other) refl

  -- A service with its pool and its database, and an id that no payment has: the payment is created, and
  -- get returns it as completed. A refund then returns it as refunded, a further refund is refused
  -- with 409, and get returns it as refunded. This holds whether or not NATS takes the events.
  pub refund_payment-create_payment :
      (now then_at later : ℕ) (id : String) (p : PaymentCreate) (s : Service)
      → s.pool_ready ≡ true
      → s.db_up ≡ true
      → lookup id s.payments ≡ none
      → let (created, s1) = create_payment numeric gmtime isoformat now id p s in
        let (refund, s2) = refund_payment numeric gmtime isoformat then_at id s1 in
        let row = created_row numeric gmtime isoformat now p in
        (created ≡ answer (created_response numeric gmtime isoformat now id p))
        × ((get_payment numeric gmtime isoformat id s1).0
            ≡ answer (row_response numeric gmtime isoformat id row))
        × (refund ≡ answer (refunded_response numeric gmtime isoformat then_at id row))
        × ((refund_payment numeric gmtime isoformat later id s2).0
            ≡ http_exception 409 "Only completed payments can be refunded")
        × ((get_payment numeric gmtime isoformat id s2).0
            ≡ answer (
                row_response numeric gmtime isoformat id
                  (refunded_row numeric gmtime isoformat then_at row)))
  refund_payment-create_payment now then_at later id p s ready up new =
      let row = created_row numeric gmtime isoformat now p in
      let s1 : Service = (create_payment numeric gmtime isoformat now id p s).1 in
      let made = create_payment-new now id p s ready up new in
      let there : Holds id row s1 =
        subst (λ r. Holds id row r.1) (sym made) (publish_event-Holds _ _ id row s ready up) in
      let paid_back = refund_payment-completed then_at id row s1 there refl in
      let gone : Holds id (refunded_row numeric gmtime isoformat then_at row)
          (refund_payment numeric gmtime isoformat then_at id s1).1 =
        subst (λ r. Holds id (refunded_row numeric gmtime isoformat then_at row) r.1)
          (sym paid_back)
          (publish_event-Holds _ _ id (refunded_row numeric gmtime isoformat then_at row) s1 there.0
            there.1) in
      (
        ap (λ r. r.0) made,
        get_payment-Holds id row s1 there,
        ap (λ r. r.0) paid_back,
        refund_payment-refused later id _ _ gone refl,
        get_payment-Holds id _ _ gone,
      )
