-- ===== src/Courses/Dto.antt =====
-- apps/course-service/src/dto/tcp-payloads.dto.ts: the payloads as the service's validation pipe
-- passes them on. Only texts, integers and Booleans stand where the DTOs declare them.
use nestjs_saas.Prelude.{ℕ, String, Option, none, some, Bool, true, ◌&&◌, leb, if◌then◌else◌}
use nestjs_saas.Exec.{Result, ok, err, rpc_exception}
use nestjs_saas.Js.Text.{trim, str_length}
use nestjs_saas.Courses.Catalog.{CreateCourse}
use nestjs_saas.Courses.Lessons.{CreateLesson, UpdateLesson}
use nestjs_saas.Courses.Enrollments.{CreateEnrollment, UpdateEnrollment}

-- What class-validator decides: the form of a UUID, and the text of a refusal.
pub record Validator : Type 0 where
  pub is_uuid : String → Bool
  pub message : String

-- `@Length(low, high)`
unfoldable pub has_length : ℕ → ℕ → String → Bool
unfolding str_length
has_length low high s = leb low (str_length s) && leb (str_length s) high

-- `@IsOptional()` before another decorator
abbrev pub optionally : {A : Type 0} → (A → Bool) → Option A → Bool
optionally test none = true
optionally test (some a) = test a

-- A value is passed on, or the exception of the pipe's factory is thrown.
abbrev pub accepted : {A : Type 0} → Validator → Bool → A → Result A
accepted v test a = if test then ok a else err (rpc_exception 400 v.message)

abbrev pub trimmed_text : Option String → Option String
unfolding trim
trimmed_text none = none
trimmed_text (some s) = some (trim s)

-- The texts of a body that may be missing or null.
abbrev pub body_fits : Option (Option String) → Bool
body_fits none = true
body_fits (some body) = optionally (has_length 0 50000) body

unfoldable pub create_course_dto : Validator → CreateCourse → Result CreateCourse
unfolding has_length trim
create_course_dto v p =
    accepted v (v.is_uuid p.tenant_id && has_length 1 200 (trim p.title))
      (record p { title = trim p.title })

-- The title of an update, trimmed.
unfoldable pub update_course_dto : Validator → String → String → String → Result String
unfolding has_length trim
update_course_dto v tenant_id course_id title =
    accepted v (v.is_uuid tenant_id && v.is_uuid course_id && has_length 1 200 (trim title))
      (trim title)

-- The payloads of two ids or three: `DeleteCoursePayloadDto` and its like.
abbrev pub ids_dto : Validator → String → String → Result (Unit {0})
ids_dto v first second = accepted v (v.is_uuid first && v.is_uuid second) tt

abbrev pub three_ids_dto : Validator → String → String → String → Result (Unit {0})
three_ids_dto v first second third =
    accepted v (v.is_uuid first && v.is_uuid second && v.is_uuid third) tt

unfoldable pub create_lesson_dto : Validator → CreateLesson → Result CreateLesson
unfolding has_length trim
create_lesson_dto v p =
    accepted v
      (v.is_uuid p.tenant_id
        && v.is_uuid p.course_id
        && has_length 1 200 (trim p.title)
        && body_fits p.body
        && optionally (λ n. leb n 100000) p.sort_order)
      (record p { title = trim p.title })

unfoldable pub update_lesson_dto : Validator → UpdateLesson → Result UpdateLesson
unfolding has_length trim
update_lesson_dto v p =
    let title = trimmed_text p.title in
    accepted v
      (v.is_uuid p.tenant_id
        && v.is_uuid p.course_id
        && v.is_uuid p.lesson_id
        && optionally (has_length 1 200) title
        && body_fits p.body
        && optionally (λ n. leb n 100000) p.sort_order)
      (record p { title = title })

unfoldable pub create_enrollment_dto : Validator → CreateEnrollment → Result CreateEnrollment
create_enrollment_dto v p =
    accepted v (v.is_uuid p.tenant_id && v.is_uuid p.course_id && v.is_uuid p.user_id) p

unfoldable pub update_enrollment_dto : Validator → UpdateEnrollment → Result UpdateEnrollment
update_enrollment_dto v p =
    accepted v
      (v.is_uuid p.tenant_id
        && v.is_uuid p.enrollment_id
        && v.is_uuid p.acting_user_id
        && optionally (λ n. leb n 100) p.progress_percent
        && optionally (λ n. leb n 1000000) p.lessons_completed)
      p
