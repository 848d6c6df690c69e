-- ===== src/Gateway/Events.antt =====
-- apps/api-gateway/src/analytics/analytics-gateway.service.ts: the learning events that an update of an
-- enrollment gives rise to.
pub mod Again
use nestjs_saas.Prelude.{
  ℕ, ◌-◌, String, Option, none, some, Bool, true, false, not, ◌&&◌, ◌||◌, List, [], ◌∷◌, ◌++◌, ltb,
  if◌then◌else◌, ◌==◌, or_default,
}
use nestjs_saas.Exec.{Action, ok}
use nestjs_saas.Prisma.{Prisma}
use nestjs_saas.Js.Text.{decimal}
use nestjs_saas.Js.Date.{to_iso_string}
use nestjs_saas.Courses.State.{Enrollment}
use nestjs_saas.Analytics.State.{Db}
use nestjs_saas.Analytics.Events.{
  LearningEvent, Tracked, lesson_started, lesson_completed, course_completed, certification_earned,
  append_event,
}
use Prim.Native.String.{◌++◌ as append}

-- An enrollment as it comes over TCP: its dates are texts.
pub record EnrollmentSnapshot : Type 0 where
  pub id : String
  pub tenant_id : String
  pub user_id : String
  pub course_id : String
  pub progress_percent : ℕ
  pub lessons_completed : ℕ
  pub completed_at : Option String

abbrev pub iso : Option ℕ → Option String
unfolding to_iso_string
iso none = none
iso (some t) = some (to_iso_string t)

unfoldable pub snapshot_of : Enrollment → EnrollmentSnapshot
unfolding iso to_iso_string
snapshot_of e = record {
  id = e.id;
  tenant_id = e.tenant_id;
  user_id = e.user_id;
  course_id = e.course_id;
  progress_percent = e.progress_percent;
  lessons_completed = e.lessons_completed;
  completed_at = iso e.completed_at;
}

pub data Metadata : Type 0 where
  of_start : (trigger actor_user_id : String) (progress_percent lessons_completed : ℕ) → Metadata
  of_lesson : (actor_user_id : String) (lessons_completed delta_lessons_completed : ℕ) → Metadata
  of_course : (actor_user_id : String) (completed_at : Option String) → Metadata
  of_certificate : (actor_user_id source : String) → Metadata

-- `!!date`
abbrev pub is_truthy : Option String → Bool
is_truthy none = false
is_truthy (some s) = not (s == "")

abbrev pub started_key : EnrollmentSnapshot → Bool → String
unfolding decimal
started_key after touched = append after.id (
    append ":lesson.started:" (
      append (decimal after.lessons_completed) (
        append ":"
          (append (decimal after.progress_percent) (append ":" (if touched then "1" else "0"))))))

abbrev pub lesson_key : EnrollmentSnapshot → String
unfolding decimal
lesson_key after = append after.id (append ":lesson.completed:" (decimal after.lessons_completed))

abbrev pub course_key : EnrollmentSnapshot → String
course_key after =
    append after.id (append ":course.completed:" (or_default after.completed_at "unknown"))

abbrev pub certificate_key : EnrollmentSnapshot → String
certificate_key after =
    append after.id (append ":certification.earned:" (or_default after.completed_at "unknown"))

-- What an update asks for, the clock of the gateway, and what the service makes of each call.
pub record EmitInputs : Type 0 where
  pub touch_access : Bool
  pub acting_user_id : String
  pub occurred_at : ℕ
  pub event_id : Tracked → String
  pub buffered_at : ℕ

-- The transport makes a text of the metadata: the parameter `json`.
module _ (json : Metadata → String) where
  abbrev pub event_of : EnrollmentSnapshot → EmitInputs → String → Metadata → LearningEvent
  event_of after inputs key metadata = record {
    tenant_id = after.tenant_id;
    user_id = after.user_id;
    course_id = after.course_id;
    enrollment_id = after.id;
    idempotency_key = key;
    occurred_at = some inputs.occurred_at;
    metadata = some (json metadata);
  }

  abbrev pub lessons_increased : EnrollmentSnapshot → EnrollmentSnapshot → Bool
  lessons_increased before after = ltb before.lessons_completed after.lessons_completed

  abbrev pub progress_increased : EnrollmentSnapshot → EnrollmentSnapshot → Bool
  progress_increased before after = ltb before.progress_percent after.progress_percent

  abbrev pub completed_now : EnrollmentSnapshot → EnrollmentSnapshot → Bool
  completed_now before after = not (is_truthy before.completed_at) && is_truthy after.completed_at

  abbrev pub start_event : EnrollmentSnapshot → EmitInputs → LearningEvent
  start_event after inputs = event_of after inputs (started_key after inputs.touch_access) (
      of_start (if inputs.touch_access then "touch-access" else "progress") inputs.acting_user_id
        after.progress_percent after.lessons_completed)

  abbrev pub when : Bool → List (Tracked × LearningEvent) → List (Tracked × LearningEvent)
  when true events = events
  when false events = []

  abbrev pub started_now : EnrollmentSnapshot → EnrollmentSnapshot → EmitInputs → Bool
  started_now before after inputs =
      inputs.touch_access || progress_increased before after || lessons_increased before after

  abbrev pub finishing :
      EnrollmentSnapshot → EnrollmentSnapshot → EmitInputs → List (Tracked × LearningEvent)
  finishing before after inputs =
      when (lessons_increased before after) (
        (
          lesson_completed,
          event_of after inputs (lesson_key after) (
              of_lesson inputs.acting_user_id after.lessons_completed
                (after.lessons_completed - before.lessons_completed)),
        )
        ∷ [])
      ++ when (completed_now before after) (
          (
            course_completed,
            event_of after inputs (course_key after)
                (of_course inputs.acting_user_id after.completed_at),
          )
          ∷ (
            certification_earned,
            event_of after inputs (certificate_key after)
                (of_certificate inputs.acting_user_id "course-completion"),
          )
          ∷ [])

  -- The calls in the order in which they are made.
  abbrev pub emitted :
      EnrollmentSnapshot → EnrollmentSnapshot → EmitInputs → List (Tracked × LearningEvent)
  emitted before after inputs =
      when (started_now before after inputs) ((lesson_started, start_event after inputs) ∷ [])
      ++ finishing before after inputs

  module _ (prisma : Prisma) where
    -- `Promise.allSettled(events)`: how a call ends is not looked at.
    abbrev pub settle_all : List (Tracked × LearningEvent) → EmitInputs → Db → Db
    unfolding append_event
    settle_all [] inputs db = db
    settle_all ((tracked, event) ∷ events) inputs db =
        settle_all events inputs
          (append_event prisma tracked event (inputs.event_id tracked) inputs.buffered_at db).1

    unfoldable pub emit_learning_events :
        EnrollmentSnapshot → EnrollmentSnapshot → EmitInputs → Action Db (Unit {0})
    unfolding append_event
    emit_learning_events before after inputs db =
        (ok tt, settle_all (emitted before after inputs) inputs db)
