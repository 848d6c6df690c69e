-- ===== src/Analytics/Delivery.antt =====
-- apps/analytics-webhook-service/src/analytics-webhook-service.service.ts: `deliverPendingWebhooks`.
pub mod Letters
pub mod Circuit
pub mod Requests
use nestjs_saas.Prelude.{
  ℕ, ◌+◌, String, Option, none, some, Bool, true, false, not, ◌&&◌, List, [], ◌∷◌, ◌++◌, ltb, leb,
  if◌then◌else◌, ◌==◌, or_default, take,
}
use nestjs_saas.Exec.{ok, Action}
use nestjs_saas.Prisma.{Prisma}
use nestjs_saas.Js.Text.{decimal, slice_start}
use nestjs_saas.Ordering.{ascending}
use nestjs_saas.Analytics.State.{
  DeliveryStatus, pending, delivered, failed, skipped, Payload, WebhookEndpoint, EventBuffer,
  DeadLetterEvent, Db, upsert,
}
use nestjs_saas.Analytics.Backoff.{
  AnalyticsEnv, backoff_ms, circuit_failure_threshold, circuit_open_ms,
}
use nestjs_saas.Js.Date.{to_iso_string}
use Prim.Native.String.{◌++◌ as append}

-- What `fetch` is given. The body is the object that the code prints with `JSON.stringify`.
pub record WebhookBody : Type 0 where
  pub id : String
  pub tenant_id : String
  pub event_type : String
  pub idempotency_key : String
  pub payload : Payload

pub record WebhookRequest : Type 0 where
  pub url : String
  pub event_id : String
  pub idempotency_key : String
  pub signature : String
  pub body : WebhookBody

-- A response, with its text ("" if reading it fails), or the message of a rejection.
pub data FetchResult : Type 0 where
  response : (is_ok : Bool) (status : ℕ) (status_text text : String) → FetchResult
  rejected : (message : String) → FetchResult

-- The HTTP client and node:crypto. `sign secret body` is the HMAC of the printed body.
pub record Web : Type 0 where
  pub fetch : WebhookRequest → FetchResult
  pub sign : String → WebhookBody → String

-- For the work on one event: two readings of the clock, one of `Math.random()`, and the id of a
-- dead letter.
pub record AttemptInputs : Type 0 where
  pub started_at : ℕ
  pub finished_at : ℕ
  pub random : ℕ
  pub letter_id : String

abbrev pub is_pending : DeliveryStatus → Bool
is_pending pending = true
is_pending _ = false

abbrev pub body_of : EventBuffer → WebhookBody
body_of evt = record {
  id = evt.id;
  tenant_id = evt.tenant_id;
  event_type = evt.event_type;
  idempotency_key = evt.idempotency_key;
  payload = evt.payload;
}

abbrev http_message : ℕ → String → String → String
http_message status status_text text =
    let head = append "HTTP " (append (decimal status) (append " " status_text)) in
    if text == "" then head else append head (append ": " (slice_start 300 text))

abbrev pub is_letter_of : String → DeadLetterEvent → Bool
is_letter_of event_id d = d.event_buffer_id == event_id

module _ (prisma : Prisma) (env : AnalyticsEnv) (web : Web) where
  -- `eventBuffer.update`, of a row that was read
  abbrev pub update_event : String → (EventBuffer → EventBuffer) → Db → Db
  update_event id change db = record db {
    events = (prisma.update_many (λ e. e.id == id) change db.events).1;
  }

  abbrev pub update_endpoint : String → (WebhookEndpoint → WebhookEndpoint) → Db → Db
  update_endpoint id change db = record db {
    endpoints = (prisma.update_many (λ w. w.id == id) change db.endpoints).1;
  }

  unfoldable pub skip : EventBuffer → AttemptInputs → Db → Db
  skip evt inputs = update_event evt.id (λ e. record e {
    delivery_status = skipped;
    last_attempt_at = some inputs.started_at;
    last_error = some "No active webhook endpoint configured for tenant";
  })

  unfoldable pub defer : EventBuffer → ℕ → AttemptInputs → Db → Db
  unfolding backoff_ms to_iso_string
  defer evt open_until inputs = update_event evt.id (λ e. record e {
    next_attempt_at = open_until + backoff_ms 0 inputs.random;
    last_attempt_at = some inputs.started_at;
    last_error = some (append "Circuit open until " (to_iso_string open_until));
  })

  unfoldable pub succeed : EventBuffer → WebhookEndpoint → AttemptInputs → Db → Db
  succeed evt endpoint inputs db =
      update_endpoint endpoint.id
        (λ w. record w {
          updated_at = inputs.finished_at;
          consecutive_failures = 0;
          circuit_open_until = none;
          last_success_at = some inputs.finished_at;
        })
        (update_event evt.id
          (λ e. record e {
            delivery_status = delivered;
            delivered_at = some inputs.finished_at;
            last_attempt_at = some inputs.finished_at;
            delivery_attempts = evt.delivery_attempts + 1;
            last_error = none;
          })
          db)

  -- Is the attempt the last one?
  abbrev pub is_last : EventBuffer → Bool
  is_last evt = leb 10 (evt.delivery_attempts + 1)

  abbrev pub failed_attempt :
      EventBuffer → DeliveryStatus → String → AttemptInputs → EventBuffer → EventBuffer
  failed_attempt evt status message inputs e = record e {
    delivery_attempts = evt.delivery_attempts + 1;
    last_attempt_at = some inputs.finished_at;
    next_attempt_at = inputs.finished_at + backoff_ms (evt.delivery_attempts + 1) inputs.random;
    last_error = some message;
    delivery_status = status;
  }

  abbrev pub new_letter : EventBuffer → String → AttemptInputs → DeadLetterEvent
  new_letter evt message inputs = record {
    id = inputs.letter_id;
    created_at = inputs.finished_at;
    tenant_id = evt.tenant_id;
    event_buffer_id = evt.id;
    event_type = evt.event_type;
    idempotency_key = evt.idempotency_key;
    payload = evt.payload;
    failure_reason = message;
    failed_at = inputs.finished_at;
    requeued_at = none;
  }

  abbrev pub bury : EventBuffer → String → AttemptInputs → Db → Db
  bury evt message inputs db = record db {
    dead_letters =
        upsert prisma (is_letter_of evt.id) (new_letter evt message inputs)
          (λ d. record d { failure_reason = message; failed_at = inputs.finished_at })
          db.dead_letters;
  }

  abbrev pub count_failure : WebhookEndpoint → AttemptInputs → WebhookEndpoint → WebhookEndpoint
  count_failure endpoint inputs w =
      let failures = endpoint.consecutive_failures + 1 in
      record w {
        updated_at = inputs.finished_at;
        consecutive_failures = failures;
        last_failure_at = some inputs.finished_at;
        circuit_open_until =
            if leb (circuit_failure_threshold env) failures
            then some (inputs.finished_at + circuit_open_ms env)
            else w.circuit_open_until;
      }

  -- The same for a response that is not ok and for a rejection.
  unfoldable pub fail : EventBuffer → WebhookEndpoint → String → AttemptInputs → Db → Db
  unfolding backoff_ms circuit_failure_threshold circuit_open_ms
  fail evt endpoint message inputs db =
      update_endpoint endpoint.id (count_failure endpoint inputs) (
        if is_last evt
        then bury evt message inputs
            (update_event evt.id (failed_attempt evt failed message inputs) db)
        else update_event evt.id (failed_attempt evt pending message inputs) db)

  abbrev pub request_of : EventBuffer → WebhookEndpoint → WebhookRequest
  request_of evt endpoint = record {
    url = endpoint.url;
    event_id = evt.id;
    idempotency_key = evt.idempotency_key;
    signature = web.sign endpoint.secret (body_of evt);
    body = body_of evt;
  }

  abbrev pub settle : EventBuffer → WebhookEndpoint → AttemptInputs → FetchResult → Db → Db
  settle evt endpoint inputs (rejected message) db = fail evt endpoint message inputs db
  settle evt endpoint inputs (response is_ok status status_text text) db =
      if is_ok
      then succeed evt endpoint inputs db
      else fail evt endpoint (http_message status status_text text) inputs db

  -- `circuitOpenUntil && circuitOpenUntil.getTime() > nowTs`
  abbrev pub is_open : Option ℕ → ℕ → Bool
  is_open none now = false
  is_open (some open_until) now = ltb now open_until

  -- What is left, and the requests that were made.
  abbrev pub deliver_to :
      EventBuffer → AttemptInputs → Option WebhookEndpoint → Db → Db × List WebhookRequest
  deliver_to evt inputs none db = (skip evt inputs db, [])
  deliver_to evt inputs (some w) db =
      if not w.is_active
      then (skip evt inputs db, [])
      else if is_open w.circuit_open_until inputs.started_at
      then (defer evt (or_default w.circuit_open_until 0) inputs db, [])
      else (settle evt w inputs (web.fetch (request_of evt w)) db, request_of evt w ∷ [])

  abbrev pub endpoint_of : EventBuffer → Db → Option WebhookEndpoint
  endpoint_of evt db = prisma.find_first (λ w. w.tenant_id == evt.tenant_id) db.endpoints

  -- The body of the loop, with the endpoint as it is by then.
  unfoldable pub deliver : EventBuffer → AttemptInputs → Db → Db × List WebhookRequest
  unfolding skip defer succeed fail decimal slice_start
  deliver evt inputs db = deliver_to evt inputs (endpoint_of evt db) db

  unfoldable pub deliver_all :
      List EventBuffer → (String → AttemptInputs) → Db → Db × List WebhookRequest
  unfolding deliver
  deliver_all [] inputs db = (db, [])
  deliver_all (evt ∷ batch) inputs db =
      let (left, made) = deliver evt (inputs evt.id) db in
      let (after, more) = deliver_all batch inputs left in (after, made ++ more)

  abbrev pub pending_batch : ℕ → Db → List EventBuffer
  pending_batch now db = take 50 (
      prisma.find_many (λ e. is_pending e.delivery_status && leb e.next_attempt_at now)
        (ascending (λ e. e.next_attempt_at) ∷ ascending (λ e. e.created_at) ∷ []) db.events)

  -- The requests are the result, which the code does not return.
  unfoldable pub deliver_pending_webhooks :
      ℕ → (String → AttemptInputs) → Action Db (List WebhookRequest)
  unfolding deliver_all
  deliver_pending_webhooks now inputs db =
      let (after, made) = deliver_all (pending_batch now db) inputs db in (ok made, after)
