-- ===== src/Gateway/Courses.antt =====
-- apps/api-gateway/src/courses: the endpoints of courses.controller.ts behind the guards, with the
-- bodies of dto.ts, and the calls of course-gateway.service.ts.
pub mod Effects
pub mod Isolation
pub mod Learners
use nestjs_saas.Prelude.{ℕ, String, Option, none, some, Bool, false, if◌then◌else◌, or_default}
use nestjs_saas.Exec.{Result, ok, err, bad_request, Action, pure, lift, modify, ◌>>=◌, ◌>>◌}
use nestjs_saas.Prisma.{Prisma}
use nestjs_saas.Common.Seats.{reason_text, create_enrollment as for_enrollment}
use nestjs_saas.Auth.State.{Db as AuthDb, Env}
use nestjs_saas.Auth.Seats.{SeatCheck, assert_seat_available}
use nestjs_saas.Auth.Controller.{run_safely}
use nestjs_saas.Courses.State.{Db as CoursesDb, Enrollment}
use nestjs_saas.Courses.Calls.{
  creates_course, updates_course, deletes_course, creates_lesson, updates_lesson, deletes_lesson,
  creates_enrollment, updates_enrollment, deletes_enrollment,
}
use nestjs_saas.Courses.Dto.{Validator, has_length}
use nestjs_saas.Courses.Messages.{
  Message, Reply, enrollment, lists_courses, gets_course, lists_lessons, gets_lesson,
  lists_by_course, lists_by_user, gets_enrollment, writes, handle_message,
}
use nestjs_saas.Analytics.State.{Db as AnalyticsDb}
use nestjs_saas.Analytics.Events.{Tracked}
use nestjs_saas.Gateway.Guards.{JwtAccessPayload, AuthenticatedUser, Route, Request, before_handler}
use nestjs_saas.Gateway.Rpc.{Transport, tcp_call}
use nestjs_saas.Gateway.Events.{Metadata, EmitInputs, snapshot_of, emit_learning_events}
use nestjs_saas.Gateway.Endpoints.{
  EnrollmentChanges, Endpoint, roles_of, get_tenant, user_id_of, role_of, tier_of, nat_of,
  lesson_body_fits, lesson_changes_fit, enrollment_changes_fit, list_courses, create_course,
  get_course, update_course, delete_course, list_lessons, create_lesson, get_lesson, update_lesson,
  delete_lesson, enroll_user_in_course, list_course_enrollments, list_my_enrollments,
  get_enrollment, patch_enrollment, unenroll_user,
}

-- The databases of the three services.
pub record World : Type 0 where
  pub auth : AuthDb
  pub courses : CoursesDb
  pub analytics : AnalyticsDb

-- Ids and clocks: of a new row and of the write, of the seat check, and of the events.
pub record Inputs : Type 0 where
  pub new_id : String
  pub written_at : ℕ
  pub checked_at : ℕ
  pub occurred_at : ℕ
  pub event_id : Tracked → String
  pub buffered_at : ℕ

-- What the gateway leaves to others: the tables' clients, settings, class-validator, the pipe for
-- UUIDs, the transport with the text that it makes of metadata, and passport-jwt.
pub record Deployment : Type 1 where
  pub prisma : Prisma
  pub env : Env
  pub validator : Validator
  pub parses_uuid : String → Bool
  pub transport : Transport
  pub json : Metadata → String
  pub verify : String → Option JwtAccessPayload

module _ (d : Deployment) where
  -- `ParseUUIDPipe` on a path parameter
  abbrev pub parse_uuid : String → Result (Unit {0})
  parse_uuid id =
      if d.parses_uuid id then ok tt else err (bad_request "Validation failed (uuid is expected)")

  -- The gateway's `ValidationPipe` on a body: the exception's own message, without the details.
  abbrev pub validate_body : Bool → Result (Unit {0})
  validate_body fits = if fits then ok tt else err (bad_request "Bad Request Exception")

  abbrev pub on_courses : {A : Type 0} → Action CoursesDb A → Action World A
  on_courses m w = ((m w.courses).0, record w { courses = (m w.courses).1 })

  abbrev pub on_auth : {A : Type 0} → Action AuthDb A → Action World A
  on_auth m w = ((m w.auth).0, record w { auth = (m w.auth).1 })

  unfoldable pub call_courses : Message → Action World Reply
  unfolding tcp_call handle_message
  call_courses message =
      tcp_call d.transport (on_courses (handle_message d.prisma d.validator message))

  -- `SEAT_ENFORCEMENT_REASONS[1]`
  unfoldable pub assert_seat : String → ℕ → Action World SeatCheck
  unfolding tcp_call run_safely assert_seat_available
  assert_seat tenant_id now = tcp_call d.transport (
      on_auth (
        run_safely (
          assert_seat_available d.prisma d.env (some tenant_id) (some (reason_text for_enrollment))
            now)))

  -- The row that a reply is taken for.
  abbrev pub row_of : Reply → Option Enrollment
  row_of (enrollment view) = some view.enrollment
  row_of other = none

  unfoldable pub emit : Option Enrollment → Option Enrollment → EmitInputs → World → World
  unfolding emit_learning_events
  emit (some before) (some after) inputs w = record w {
    analytics =
        (emit_learning_events d.json d.prisma (snapshot_of before) (snapshot_of after) inputs
          w.analytics).1;
  }
  emit none after inputs w = w
  emit (some before) none inputs w = w

  abbrev pub emit_inputs : Inputs → Bool → String → EmitInputs
  emit_inputs inputs touched actor = record {
    touch_access = touched;
    acting_user_id = actor;
    occurred_at = inputs.occurred_at;
    event_id = inputs.event_id;
    buffered_at = inputs.buffered_at;
  }

  abbrev pub update_message :
      String → String → Option AuthenticatedUser → EnrollmentChanges → ℕ → Message
  update_message tenant_id enrollment_id user b now = writes (
      updates_enrollment
        (record {
          tenant_id = tenant_id;
          enrollment_id = enrollment_id;
          acting_role = role_of user;
          acting_user_id = user_id_of user;
          progress_percent = nat_of b.progress_percent;
          lessons_completed = nat_of b.lessons_completed;
          completed = b.completed;
          touch_access = b.touch_access;
        })
        now)

  -- `updateEnrollment` of the gateway: the row before, the update, and the events.
  unfoldable pub update_enrollment :
      String → String → Option AuthenticatedUser → EnrollmentChanges → Inputs → Action World Reply
  update_enrollment tenant_id enrollment_id user b inputs = do
    before ← call_courses (gets_enrollment tenant_id enrollment_id (role_of user) (user_id_of user))
    updated ← call_courses (update_message tenant_id enrollment_id user b inputs.written_at)
    modify (
        emit (row_of before) (row_of updated)
          (emit_inputs inputs (or_default b.touch_access false) (user_id_of user)))
    pure updated

  unfoldable pub handle : Endpoint → String → Option AuthenticatedUser → Inputs → Action World Reply
  handle list_courses t user i = call_courses (lists_courses t)
  handle (create_course title) t user i = do
    lift (validate_body (has_length 1 200 title))
    call_courses (
        writes (
          creates_course (record { tenant_id = t; title = title; subscription_tier = tier_of user })
            i.new_id i.written_at))
  handle (get_course c) t user i = do lift (parse_uuid c); call_courses (gets_course t c)
  handle (update_course c title) t user i = do
    lift (parse_uuid c)
    lift (validate_body (has_length 1 200 title))
    call_courses (writes (updates_course t c title i.written_at))
  handle (delete_course c) t user i = do
    lift (parse_uuid c)
    call_courses (writes (deletes_course t c))
  handle (list_lessons c) t user i = do lift (parse_uuid c); call_courses (lists_lessons t c)
  handle (create_lesson c b) t user i = do
    lift (parse_uuid c)
    lift (validate_body (lesson_body_fits b))
    call_courses (
        writes (
          creates_lesson
            (record {
              tenant_id = t;
              course_id = c;
              title = b.title;
              body = b.body;
              sort_order = nat_of b.sort_order;
            })
            i.new_id i.written_at))
  handle (get_lesson c l) t user i = do
    lift (parse_uuid c)
    lift (parse_uuid l)
    call_courses (gets_lesson t c l)
  handle (update_lesson c l b) t user i = do
    lift (parse_uuid c)
    lift (parse_uuid l)
    lift (validate_body (lesson_changes_fit b))
    call_courses (
        writes (
          updates_lesson
            (record {
              tenant_id = t;
              course_id = c;
              lesson_id = l;
              title = b.title;
              body = b.body;
              sort_order = nat_of b.sort_order;
            })
            i.written_at))
  handle (delete_lesson c l) t user i = do
    lift (parse_uuid c)
    lift (parse_uuid l)
    call_courses (writes (deletes_lesson t c l))
  handle (enroll_user_in_course c u) t user i = do
    lift (parse_uuid c)
    lift (validate_body (d.validator.is_uuid u))
    seats ← assert_seat t i.checked_at
    call_courses (
        writes (
          creates_enrollment (record { tenant_id = t; course_id = c; user_id = u }) i.new_id
            i.written_at))
  handle (list_course_enrollments c) t user i = do
    lift (parse_uuid c)
    call_courses (lists_by_course t c)
  handle list_my_enrollments t user i = call_courses (lists_by_user t (user_id_of user))
  handle (get_enrollment e) t user i = do
    lift (parse_uuid e)
    call_courses (gets_enrollment t e (role_of user) (user_id_of user))
  handle (patch_enrollment e b) t user i = do
    lift (parse_uuid e)
    lift (validate_body (enrollment_changes_fit b))
    update_enrollment t e user b i
  handle (unenroll_user e) t user i = do
    lift (parse_uuid e)
    call_courses (writes (deletes_enrollment t e))

  abbrev pub route_of : Endpoint → Route
  route_of endpoint = record { is_public = false; roles = roles_of endpoint }

  -- A request for an endpoint, from the middleware to the reply.
  unfoldable pub serve : Request → Endpoint → Inputs → Action World Reply
  serve request endpoint inputs = do
    passed ← lift (before_handler d.verify (route_of endpoint) request)
    tenant_id ← lift (get_tenant passed.1)
    handle endpoint tenant_id passed.0 inputs
