-- ===== src/Gateway/Endpoints.antt =====
-- apps/api-gateway/src/courses: the handlers of courses.controller.ts, the roles that they ask for,
-- and the bodies of dto.ts.
use nestjs_saas.Prelude.{
  ℕ, String, Option, none, some, Bool, false, ◌&&◌, List, [], ◌∷◌, leb, if◌then◌else◌, ◌==◌,
  or_default,
}
use nestjs_saas.Exec.{Result, ok, err, bad_request}
use nestjs_saas.Js.Text.{trim}
use nestjs_saas.Js.Number.{ℤ, pos, negsuc}
use nestjs_saas.Common.Roles.{Role, super_admin, org_admin, instructor, learner}
use nestjs_saas.Common.Tiers.{SubscriptionTier, free}
use nestjs_saas.Courses.Dto.{has_length, optionally, body_fits}
use nestjs_saas.Gateway.Guards.{AuthenticatedUser}

-- Bodies with values of the declared types; a body with others is refused like one out of range.
pub record LessonBody : Type 0 where
  pub title : String
  pub body : Option (Option String)
  pub sort_order : Option ℤ

pub record LessonChanges : Type 0 where
  pub title : Option String
  pub body : Option (Option String)
  pub sort_order : Option ℤ

pub record EnrollmentChanges : Type 0 where
  pub progress_percent : Option ℤ
  pub lessons_completed : Option ℤ
  pub completed : Option Bool
  pub touch_access : Option Bool

-- The handlers of the controller with their path parameters and bodies.
pub data Endpoint : Type 0 where
  list_courses : Endpoint
  create_course : (title : String) → Endpoint
  get_course : (course_id : String) → Endpoint
  update_course : (course_id title : String) → Endpoint
  delete_course : (course_id : String) → Endpoint
  list_lessons : (course_id : String) → Endpoint
  create_lesson : (course_id : String) → LessonBody → Endpoint
  get_lesson : (course_id lesson_id : String) → Endpoint
  update_lesson : (course_id lesson_id : String) → LessonChanges → Endpoint
  delete_lesson : (course_id lesson_id : String) → Endpoint
  enroll_user_in_course : (course_id user_id : String) → Endpoint
  list_course_enrollments : (course_id : String) → Endpoint
  list_my_enrollments : Endpoint
  get_enrollment : (enrollment_id : String) → Endpoint
  patch_enrollment : (enrollment_id : String) → EnrollmentChanges → Endpoint
  unenroll_user : (enrollment_id : String) → Endpoint

abbrev pub staff : List Role
staff = super_admin ∷ org_admin ∷ instructor ∷ []

abbrev pub everyone : List Role
everyone = super_admin ∷ org_admin ∷ instructor ∷ learner ∷ []

-- The decorators `@Roles(…)`; no handler is public.
abbrev pub roles_of : Endpoint → List Role
roles_of list_my_enrollments = everyone
roles_of (get_enrollment e) = everyone
roles_of (patch_enrollment e changes) = everyone
roles_of list_courses = staff
roles_of (create_course title) = staff
roles_of (get_course c) = staff
roles_of (update_course c title) = staff
roles_of (delete_course c) = staff
roles_of (list_lessons c) = staff
roles_of (create_lesson c body) = staff
roles_of (get_lesson c l) = staff
roles_of (update_lesson c l changes) = staff
roles_of (delete_lesson c l) = staff
roles_of (enroll_user_in_course c u) = staff
roles_of (list_course_enrollments c) = staff
roles_of (unenroll_user e) = staff

-- `@GetTenant()`
unfoldable pub get_tenant : Option String → Result String
unfolding trim
get_tenant tenant =
    let id = trim (or_default tenant "") in
    if id == "" then err (bad_request "Tenant context is not available for this handler") else ok id

abbrev pub user_id_of : Option AuthenticatedUser → String
user_id_of none = ""
user_id_of (some user) = user.user_id

abbrev pub role_of : Option AuthenticatedUser → Role
role_of none = learner
role_of (some user) = user.role

abbrev pub tier_of : Option AuthenticatedUser → SubscriptionTier
tier_of none = free
tier_of (some user) = user.subscription_tier

-- `@IsInt() @Min(0) @Max(high)`
abbrev pub is_int_to : ℕ → ℤ → Bool
is_int_to high (pos n) = leb n high
is_int_to high (negsuc n) = false

abbrev pub nat_of : Option ℤ → Option ℕ
nat_of none = none
nat_of (some (pos n)) = some n
nat_of (some (negsuc n)) = none

abbrev pub lesson_body_fits : LessonBody → Bool
unfolding has_length
lesson_body_fits b =
    has_length 1 200 b.title && body_fits b.body && optionally (is_int_to 100000) b.sort_order

abbrev pub lesson_changes_fit : LessonChanges → Bool
unfolding has_length
lesson_changes_fit b =
    optionally (has_length 1 200) b.title
    && body_fits b.body
    && optionally (is_int_to 100000) b.sort_order

abbrev pub enrollment_changes_fit : EnrollmentChanges → Bool
enrollment_changes_fit b =
    optionally (is_int_to 100) b.progress_percent
    && optionally (is_int_to 1000000) b.lessons_completed
