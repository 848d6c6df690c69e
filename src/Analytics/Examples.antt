-- ===== src/Analytics/Examples.antt =====
-- Concrete inputs for the theorems about apps/analytics-webhook-service.
mod Buffer
use nestjs_saas.Prelude.{
  ℕ, suc, ◌+◌, ◌*◌, ◌≤◌, String, Option, none, some, true, false, [], ◌∷◌, Memᴰ, ◌∙◌, sym, map, ◌≡◌,
  refl, arith, eq_iff, All, take, List, ◌&&◌, ◌==◌,
}
use nestjs_saas.Exec.{ok, gets, modify}
use nestjs_saas.Analytics.State.{pending, WebhookEndpoint, EventBuffer, DeadLetterEvent, Db}
use nestjs_saas.Analytics.Backoff.{AnalyticsEnv, backoff_ms, backoff_ms-bounds, exponential_ms}
use nestjs_saas.Analytics.Events.{
  LearningEvent, lesson_started, lesson_completed, course_completed, new_event, PageInput,
  page_limit, append_event, list_events, dlq_summary,
}
use nestjs_saas.Analytics.Delivery.{
  response, WebhookRequest, Web, AttemptInputs, request_of, new_letter, fail, deliver,
  deliver_pending_webhooks,
}
use nestjs_saas.Prisma.ByLists.{by_lists}
use nestjs_saas.Prisma.Keys.{Keyed}
use nestjs_saas.Prisma.Windows.{Newest}
use nestjs_saas.Analytics.Reports.{CourseCompletions, completion_report}
use nestjs_saas.Analytics.Reports.Counts.{
  same_course, completions_of, events_of, completion_report-counts,
}
use nestjs_saas.Ordering.Insertion.{sort}
use nestjs_saas.Analytics.Delivery.Letters.{AllLettered, deliver_pending_webhooks-AllLettered}
use nestjs_saas.Analytics.Delivery.Requests.{
  HasDistinctIds, IsAddressed, deliver_pending_webhooks-Addressed,
}
use nestjs_saas.Analytics.Delivery.Circuit.{requeue_mark, requeued_stays}

abbrev settings : AnalyticsEnv
settings = record { circuit_failure_threshold = none; circuit_open_ms = none }

-- An endpoint that is down.
abbrev down : Web
down = record {
  fetch = λ request. response false 503 "Service Unavailable" "";
  sign = λ secret body. secret;
}

abbrev done_lesson : LearningEvent
done_lesson = record {
  tenant_id = "t1";
  user_id = "ann";
  course_id = "c1";
  enrollment_id = "e1";
  idempotency_key = "k1";
  occurred_at = none;
  metadata = none;
}

abbrev empty : Db
empty = record { events = []; endpoints = []; dead_letters = [] }

buffered : Db
unfolding append_event modify
buffered = (append_event by_lists lesson_completed done_lesson "b1" 5 empty).1

backoff_ms-bounds_example :
    (24000 ≤ backoff_ms 3 7)
    × (backoff_ms 3 7 ≤ 4320000)
    × (8 * exponential_ms 3 ≤ 10 * backoff_ms 3 7 + 5)
    × (10 * backoff_ms 3 7 ≤ 12 * exponential_ms 3 + 5)
backoff_ms-bounds_example = backoff_ms-bounds 3 7 (omega arith)

abbrev event : String → ℕ → EventBuffer
event id now = new_event lesson_started (record done_lesson { idempotency_key = id }) id now

abbrev at : ℕ → AttemptInputs
at t = record { started_at = t; finished_at = t; random = 0; letter_id = "d1" }

abbrev hook : Option ℕ → WebhookEndpoint
hook open_until = record {
  id = "w1";
  updated_at = 0;
  tenant_id = "t1";
  url = "https://hooks.test";
  secret = "s";
  is_active = true;
  consecutive_failures = 0;
  last_failure_at = none;
  last_success_at = none;
  circuit_open_until = open_until;
}

-- An event that failed nine times.
abbrev worn : EventBuffer
worn = record (event "b1" 1) { delivery_attempts = 9 }

abbrev outbox : Option ℕ → Db
outbox open_until = record {
  events = worn ∷ [];
  endpoints = hook open_until ∷ [];
  dead_letters = [];
}

deliver_pending_webhooks-AllLettered_example :
    AllLettered (deliver_pending_webhooks by_lists settings down 10 (λ id. at 10) (outbox none)).1
deliver_pending_webhooks-AllLettered_example =
    deliver_pending_webhooks-AllLettered by_lists settings down 10 (λ id. at 10) (outbox none)
      ((λ e. ground arith), tt)

one_hook : HasDistinctIds (hook none ∷ [])
one_hook v w (Memᴰ.head p) (Memᴰ.head q) e = p ∙ sym q
one_hook v w (Memᴰ.head p) (Memᴰ.tail m) e = elim m [ ]
one_hook v w (Memᴰ.tail m) _ e = elim m [ ]

abbrev sent : List WebhookRequest
sent = request_of by_lists settings down worn (hook none) ∷ []

deliver_pending_webhooks-Addressed_example :
    All
      (λ request.
        (e : EventBuffer) × Memᴰ e (worn ∷ [])
        × (e.delivery_status ≡ pending)
        × (e.next_attempt_at ≤ 10)
        × IsAddressed by_lists settings down (λ id. at 10) (hook none ∷ []) e request)
      sent
unfolding deliver_pending_webhooks sort
deliver_pending_webhooks-Addressed_example =
    deliver_pending_webhooks-Addressed by_lists settings down 10 (λ id. at 10) (outbox none)
      (deliver_pending_webhooks by_lists settings down 10 (λ id. at 10) (outbox none)).1 sent
      one_hook refl

-- A letter that was requeued.
abbrev letter : DeadLetterEvent
letter = record (new_letter by_lists settings down worn "HTTP 503" (at 10)) {
  requeued_at = some 20;
}

abbrev requeued_db : Db
requeued_db = record {
  events = record worn { delivery_attempts = 10 } ∷ [];
  endpoints = hook none ∷ [];
  dead_letters = letter ∷ [];
}

-- It failed again, and the summary still has no open letter.
summary_test :
    (dlq_summary by_lists none 40
      (deliver by_lists settings down
        (record worn { delivery_attempts = 10 })
        (at 30)
        requeued_db).0).0
    ≡ ok (record {
      window_hours = 24;
      totals = 1;
      requeued = 1;
      open_count = 0;
      oldest_open_age_minutes = 0;
      oldest_open = none;
    })
unfolding dlq_summary gets deliver fail sort
summary_test = refl

requeued_stays_example :
    map
      (requeue_mark by_lists settings)
      (deliver by_lists settings down worn (at 30) requeued_db).0.dead_letters
    ≡ ("d1", some 20) ∷ []
requeued_stays_example = requeued_stays by_lists settings down worn (at 30) requeued_db letter refl

abbrev completion : String → String → EventBuffer
completion id course =
    new_event course_completed (record done_lesson { idempotency_key = id; course_id = course }) id
      5

abbrev completions_db : Db
completions_db = record {
  events = completion "b1" "c1" ∷ completion "b2" "c2" ∷ completion "b3" "c1" ∷ event "b4" 6 ∷ [];
  endpoints = [];
  dead_letters = [];
}

abbrev course_counts : List CourseCompletions
course_counts =
    record { course_id = "c1"; completions = 2 } ∷ record { course_id = "c2"; completions = 1 } ∷ []

completion_report-counts_example :
    (completions_db ≡ completions_db)
    × Keyed same_course course_counts
    × (events : List EventBuffer) × Newest 5000
        (λ e. (e.tenant_id == "t1") && (e.event_type == "course.completed"))
        (λ e. e.created_at)
        completions_db.events
        events
    × ((course : String) → completions_of course course_counts ≡ events_of course events)
unfolding completion_report gets sort
completion_report-counts_example =
    completion_report-counts by_lists "t1" completions_db completions_db course_counts refl
