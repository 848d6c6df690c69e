-- ===== src/Billing/Webhooks/Once.antt =====
-- apps/auth-org-service/src/billing/stripe-billing.service.ts: a Stripe event takes effect once.
use nestjs_saas.Prelude.{
  ℕ, String, Option, some, true, List, ◌≡◌, refl, sym, ◌∙◌, arith, subst, ◌⊎◌, Option-cases,
  Bool-cases, inl, inr, eq_refl, is_some,
}
use nestjs_saas.Exec.{Error, ok, err, Action, ◌>>=◌, Result-cases, bad_request}
use nestjs_saas.Prisma.{Prisma}
use nestjs_saas.Auth.State.{StripeWebhookEvent, Db}
use nestjs_saas.Prisma.Rows.{find_first-update_many, created, find_first_only}
use nestjs_saas.Billing.Stripe.{Event, Stripe, BillingEnv, trimmed}
use nestjs_saas.Billing.Webhooks.{
  WebhookInputs, is_event, new_event, attempt, processed, process_webhook_event_once, handle_event,
  handle_webhook_payload,
}
use nestjs_saas.Billing.Webhooks.Keeps.{SameEvents, handle_event-events}

module _ (prisma : Prisma) (env : BillingEnv) where
  -- The event's row is there.
  abbrev pub IsNoted : Event → Db → Type 0
  IsNoted event db =
      (row : StripeWebhookEvent) × (prisma.find_first (is_event event.id) db.stripe_webhook_events
        ≡ some row)

  -- What a delivery that returned leaves: the event is found, processed.
  unfoldable pub IsDone : Event → Db → Type 0
  IsDone event db =
      (row : StripeWebhookEvent) × (prisma.find_first (is_event event.id) db.stripe_webhook_events
        ≡ some row)
      × (is_some row.processed_at ≡ true)

  skipped :
      (event : Event) (inputs : WebhookInputs) (handler : Action Db (Unit {0})) (db : Db)
      → IsDone event db
      → process_webhook_event_once prisma env event inputs handler db ≡ (ok tt, db)
  unfolding ◌>>=◌ process_webhook_event_once IsDone
  skipped event inputs handler db (row, found, done) = ground arith

  attempted :
      (event : Event) (now : ℕ) (handler : Action Db (Unit {0})) (db db' : Db)
      → SameEvents prisma env db (handler db).1
      → IsNoted event db
      → attempt prisma env event now handler db ≡ (ok tt, db')
      → IsDone event db'
  unfolding ◌>>=◌ IsDone
  attempted event now handler db db' keeps (row, found) e = elim (Result-cases (handler db).0) [
    | inl (done, fine) ↦
        let (x, listed, met, again) =
          find_first-update_many prisma (is_event event.id) (processed now) db.stripe_webhook_events
            row found (λ x t. t) in
        (processed now x, ground (arith, again, keeps), refl)
    | inr (x, thrown) ↦ ground arith
  ]

  pub noted :
      (event : Event) (now : ℕ) (db : Db) (rows : List StripeWebhookEvent)
      → prisma.create (is_event event.id) (new_event event now) db.stripe_webhook_events ≡ some rows
      → IsNoted event (record db { stripe_webhook_events = rows })
  noted event now db rows e =
      let new = new_event event now in
      let (shape, apart) = created prisma (is_event event.id) new db.stripe_webhook_events e in
      (
        new,
        rw shape (
            find_first_only prisma (is_event event.id) new db.stripe_webhook_events
              (eq_refl event.id) apart),
      )

  pub worked :
      (event : Event) (inputs : WebhookInputs) (handler : Action Db (Unit {0})) (db db' : Db)
      → ((db : Db) → SameEvents prisma env db (handler db).1)
      → process_webhook_event_once prisma env event inputs handler db ≡ (ok tt, db')
      → IsDone event db'
  unfolding ◌>>=◌ process_webhook_event_once IsDone
  worked event inputs handler db db' keeps e =
      let rows = db.stripe_webhook_events in
      elim (Option-cases (prisma.find_first (is_event event.id) rows)) [
        | inl missing ↦
            elim (Option-cases
              (prisma.create (is_event event.id) (new_event event inputs.received_at) rows)) [
                | inl clash ↦ ground arith
                | inr (more, made) ↦
                    attempted event inputs.finished_at handler
                      (record db { stripe_webhook_events = more }) db' (keeps _)
                      (noted event inputs.received_at db more made) (ground arith)
              ]
        | inr (row, found) ↦ elim (Bool-cases (is_some row.processed_at)) [
          | inl done ↦ (row, ground arith, done)
          | inr open_yet ↦
              attempted event inputs.finished_at handler db db' (keeps db) (row, found)
                (ground arith)
        ]
      ]

  -- A signature that is missing or wrong is answered with 400.
  abbrev pub IsRefusal : Error → Type 0
  IsRefusal x =
      (x ≡ bad_request "Missing Stripe-Signature header")
      ⊎ (x ≡ bad_request "Invalid Stripe webhook signature")

  -- A delivery is refused before anything is written, or it is one of the event of its payload.
  delivery :
      (stripe : Stripe) (secret raw_body : String) (signature : Option String)
      (inputs : WebhookInputs) (db : Db)
      → trimmed env.stripe_webhook_secret ≡ some secret
      → ((x : Error) × IsRefusal x
          × (handle_webhook_payload prisma env (some stripe) raw_body signature inputs db
              ≡ (err x, db)))
        ⊎ (handle_webhook_payload prisma env (some stripe) raw_body signature inputs db
            ≡ process_webhook_event_once prisma env
                (stripe.parse_event raw_body)
                inputs
                (handle_event prisma env (some stripe) inputs (stripe.parse_event raw_body).body)
                db)
  unfolding ◌>>=◌ handle_webhook_payload
  delivery stripe secret raw_body signature inputs db configured =
      elim (Option-cases (trimmed signature)) [
        | inl no_sig ↦ inl (bad_request "Missing Stripe-Signature header", inl refl, ground arith)
        | inr (sig, signed) ↦
            elim (Result-cases (stripe.construct_event raw_body sig secret inputs.verified_at)) [
              | inl (event, good) ↦ inr (
                  ground (
                    arith,
                    stripe.construct_event_lem raw_body sig secret inputs.verified_at event good,
                  ))
              | inr (x, bad) ↦
                  inl (bad_request "Invalid Stripe webhook signature", inr refl, ground arith)
            ]
      ]

  -- A delivery that was answered without an error found the secret of the endpoint.
  with_secret :
      (stripe : Stripe) (raw_body : String) (signature : Option String) (inputs : WebhookInputs)
      (db db' : Db)
      → handle_webhook_payload prisma env (some stripe) raw_body signature inputs db ≡ (ok tt, db')
      → (secret : String) × (trimmed env.stripe_webhook_secret ≡ some secret)
  unfolding ◌>>=◌ handle_webhook_payload
  with_secret stripe raw_body signature inputs db db' e =
      elim (Option-cases (trimmed env.stripe_webhook_secret)) [
        | inl no_secret ↦ absurd (ground (arith, e, no_secret))
        | inr configured ↦ configured
      ]

  -- A webhook payload that was answered without an error is never worked on again: whatever is sent
  -- as the signature of a second delivery, at whatever time, and whatever Stripe says by then of the
  -- objects that the payload names, the second delivery changes nothing, if the SDK reads the same
  -- event from the payload. It is answered without an error as well, or its signature is missing or
  -- wrong by then and it is a 400.
  pub handle_webhook_payload_once :
      (stripe later_stripe : Stripe) (raw_body : String) (signature later_signature : Option String)
      (inputs later : WebhookInputs) (db db' : Db)
      → later_stripe.parse_event raw_body ≡ stripe.parse_event raw_body
      → handle_webhook_payload prisma env (some stripe) raw_body signature inputs db ≡ (ok tt, db')
      → let second =
          handle_webhook_payload prisma env
            (some later_stripe)
            raw_body
            later_signature
            later
            db' in
        (second ≡ (ok tt, db')) ⊎ ((x : Error) × IsRefusal x × (second ≡ (err x, db')))
  handle_webhook_payload_once stripe later_stripe raw_body signature later_signature inputs later db
        db' reads e =
      let (secret, configured) = with_secret stripe raw_body signature inputs db db' e in
      let event = stripe.parse_event raw_body in
      elim (delivery stripe secret raw_body signature inputs db configured) [
        | inl (x, why, refused) ↦ absurd (ground (arith, refused, e))
        | inr first ↦
            let done : IsDone event db' =
              worked event inputs _ db db'
                (handle_event-events prisma env (some stripe) inputs event.body) (sym first ∙ e) in
            elim (delivery later_stripe secret raw_body later_signature later db' configured) [
              | inl (x, why, refused) ↦ inr (x, why, refused)
              | inr again ↦ inl (
                  again
                  ∙ skipped (later_stripe.parse_event raw_body) later _ db'
                      (subst (λ v. IsDone v db') (sym reads) done))
            ]
      ]
