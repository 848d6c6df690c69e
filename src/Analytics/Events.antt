-- ===== src/Analytics/Events.antt =====
-- apps/analytics-webhook-service/src/analytics-webhook-service.service.ts: `appendEvent`,
-- `upsertWebhookEndpoint`, the lists with their cursors, `requeueDeadLetter` and `dlqSummary`.
pub mod Pages
pub mod Paging
pub mod Once
pub mod Known
pub mod Refinement
use nestjs_saas.Prelude.{
  ℕ, zero, suc, ◌+◌, ◌-◌, ◌*◌, ◌/◌, String, Option, none, some, Bool, true, false, ◌&&◌, ◌||◌, List,
  [], ◌∷◌, leb, if◌then◌else◌, ◌==◌, or_default, is_some, is_none, take,
}
use nestjs_saas.Exec.{Action, pure, gets, ◌>>=◌, ◌>>◌, modify}
use nestjs_saas.Prisma.{Prisma}
use nestjs_saas.Js.Text.{trim}
use nestjs_saas.Js.Number.{nat_min, nat_max}
use nestjs_saas.Ordering.{ascending, descending}
use nestjs_saas.Analytics.State.{pending, WebhookEndpoint, EventBuffer, DeadLetterEvent, Db, upsert}

pub record LearningEvent : Type 0 where
  pub tenant_id : String
  pub user_id : String
  pub course_id : String
  pub enrollment_id : String
  pub idempotency_key : String
  pub occurred_at : Option ℕ
  pub metadata : Option String

-- `trackLessonStarted` and its three companions
pub data Tracked : Type 0 where
  lesson_started lesson_completed course_completed certification_earned : Tracked

abbrev pub event_type_of : Tracked → String
event_type_of lesson_started = "lesson.started"
event_type_of lesson_completed = "lesson.completed"
event_type_of course_completed = "course.completed"
event_type_of certification_earned = "certification.earned"

abbrev pub has_key : String → EventBuffer → Bool
has_key key e = e.idempotency_key == key

abbrev pub new_event : Tracked → LearningEvent → String → ℕ → EventBuffer
new_event tracked payload id now = record {
  id = id;
  created_at = now;
  tenant_id = payload.tenant_id;
  event_type = event_type_of tracked;
  idempotency_key = payload.idempotency_key;
  payload = record {
    event_type = event_type_of tracked;
    tenant_id = payload.tenant_id;
    user_id = payload.user_id;
    course_id = payload.course_id;
    enrollment_id = payload.enrollment_id;
    occurred_at = or_default payload.occurred_at now;
    metadata = or_default payload.metadata "{}";
  };
  delivery_status = pending;
  delivery_attempts = 0;
  next_attempt_at = now;
  last_attempt_at = none;
  delivered_at = none;
  last_error = none;
}

pub record EndpointInput : Type 0 where
  pub tenant_id : String
  pub url : String
  pub secret : String
  pub is_active : Option Bool

pub record PageInput : Type 0 where
  pub tenant_id : String
  pub limit : Option ℕ
  pub cursor : Option String
  pub event_type : Option String

pub record Page (R : Type 0) : Type 0 where
  pub items : List R
  pub next_cursor : Option String

-- `Math.min(200, Math.max(1, limit ?? 50))`
abbrev pub page_limit : Option ℕ → ℕ
page_limit limit = nat_min 200 (nat_max 1 (or_default limit 50))

module _ {R : Type 0} (id_of : R → String) where
  -- `cursor: { id }, skip: 1`: the rows that follow the cursor's
  abbrev pub after_cursor : String → List R → List R
  after_cursor cursor [] = []
  after_cursor cursor (r ∷ rows) =
      let rest = after_cursor cursor rows in if id_of r == cursor then rows else rest

  abbrev pub from_cursor : Option String → List R → List R
  from_cursor none rows = rows
  from_cursor (some cursor) rows = if cursor == "" then rows else after_cursor cursor rows

  -- `items[limit]?.id ?? null`
  abbrev pub id_at : ℕ → List R → Option String
  id_at n [] = none
  id_at zero (r ∷ rows) = some (id_of r)
  id_at (suc n) (r ∷ rows) = id_at n rows

  -- What is made of `limit + 1` rows.
  abbrev pub page_of : ℕ → List R → Page R
  page_of limit rows = record {
    items = take limit (take (suc limit) rows);
    next_cursor = id_at limit (take (suc limit) rows);
  }

module _ (prisma : Prisma) where
  -- `upsert` with `update: {}`
  unfoldable pub append_event : Tracked → LearningEvent → String → ℕ → Action Db (Unit {0})
  append_event tracked payload id now = modify (λ db. record db {
    events =
        upsert prisma (has_key payload.idempotency_key) (new_event tracked payload id now) (λ e. e)
          db.events;
  })

  abbrev pub is_endpoint_of : String → WebhookEndpoint → Bool
  is_endpoint_of tenant_id w = w.tenant_id == tenant_id

  -- `{ ok: false }` is `false`
  unfoldable pub upsert_webhook_endpoint : EndpointInput → String → ℕ → Action Db Bool
  unfolding trim
  upsert_webhook_endpoint payload id now =
      let tenant_id = trim payload.tenant_id in
      let url = trim payload.url in
      let secret = trim payload.secret in
      let is_active = or_default payload.is_active true in
      let new : WebhookEndpoint = record {
        id = id;
        updated_at = now;
        tenant_id = tenant_id;
        url = url;
        secret = secret;
        is_active = is_active;
        consecutive_failures = 0;
        last_failure_at = none;
        last_success_at = none;
        circuit_open_until = none;
      } in
      if (tenant_id == "") || (url == "") || (secret == "") then pure false else do
        modify (λ db. record db {
          endpoints =
              upsert prisma (is_endpoint_of tenant_id) new
                (λ w. record w {
                  updated_at = now;
                  url = url;
                  secret = secret;
                  is_active = is_active;
                })
                db.endpoints;
        })
        pure true

  -- `eventType?.trim() ? { eventType: … } : {}`
  abbrev pub has_type : Option String → String → Bool
  has_type none type = true
  has_type (some wanted) type = if trim wanted == "" then true else type == trim wanted

  unfoldable pub list_events : PageInput → Action Db (Page EventBuffer)
  unfolding trim
  list_events payload = gets (λ db.
      page_of (λ e. e.id) (page_limit payload.limit)
        (from_cursor (λ e. e.id) payload.cursor
          (prisma.find_many
            (λ e. (e.tenant_id == payload.tenant_id) && has_type payload.event_type e.event_type)
            (descending (λ e. e.created_at) ∷ []) db.events)))

  unfoldable pub list_dead_letters : PageInput → Action Db (Page DeadLetterEvent)
  unfolding trim
  list_dead_letters payload = gets (λ db.
      page_of (λ d. d.id) (page_limit payload.limit)
        (from_cursor (λ d. d.id) payload.cursor
          (prisma.find_many
            (λ d. (d.tenant_id == payload.tenant_id) && has_type payload.event_type d.event_type)
            (descending (λ d. d.created_at) ∷ []) db.dead_letters)))

  abbrev pub is_dead_letter : String → String → DeadLetterEvent → Bool
  is_dead_letter tenant_id id d = (d.id == id) && (d.tenant_id == tenant_id)

  -- `{ ok: false }` is `false`; the two updates are one transaction.
  unfoldable pub requeue_dead_letter : String → String → ℕ → Action Db Bool
  requeue_dead_letter tenant_id dead_letter_id now = do
    db ← gets (λ db. db)
    elim (prisma.find_first (is_dead_letter tenant_id dead_letter_id) db.dead_letters) [
      | none ↦ pure false
      | some row ↦ do
        modify (λ db. record db {
          events =
              (prisma.update_many (λ e. e.id == row.event_buffer_id)
                (λ e. record e {
                  delivery_status = pending;
                  next_attempt_at = now;
                  last_error = none;
                })
                db.events).1;
          dead_letters =
              (prisma.update_many (λ d. d.id == row.id) (λ d. record d { requeued_at = some now })
                db.dead_letters).1;
        })
        pure true
    ]

  pub record DlqSummary : Type 0 where
    pub window_hours : ℕ
    pub totals : ℕ
    pub requeued : ℕ
    pub open_count : ℕ
    pub oldest_open_age_minutes : ℕ
    pub oldest_open : Option DeadLetterEvent

  abbrev oldest_open_letter : Db → Option DeadLetterEvent
  oldest_open_letter db =
      elim (prisma.find_many (λ d. is_none d.requeued_at) (ascending (λ d. d.created_at) ∷ [])
        db.dead_letters) [ [] ↦ none | d ∷ rest ↦ some d ]

  -- `Math.max(0, Math.round((now - createdAt) / 60000))`
  abbrev age_minutes : ℕ → Option DeadLetterEvent → ℕ
  age_minutes now none = 0
  age_minutes now (some d) = (2 * (now - d.created_at) + 60000) / 120000

  -- The view of the oldest open letter is the letter.
  unfoldable pub dlq_summary : Option ℕ → ℕ → Action Db DlqSummary
  dlq_summary hours now =
      let window = nat_min (24 * 30) (nat_max 1 (or_default hours 24)) in
      let since = now - window * 60 * 60 * 1000 in
      gets (λ db.
        let totals = prisma.count (λ d. leb since d.created_at) db.dead_letters in
        let requeued =
          prisma.count (λ d. leb since d.created_at && is_some d.requeued_at) db.dead_letters in
        record {
          window_hours = window;
          totals = totals;
          requeued = requeued;
          open_count = totals - requeued;
          oldest_open_age_minutes = age_minutes now (oldest_open_letter db);
          oldest_open = oldest_open_letter db;
        })
