-- ===== src/Courses/Messages/Effects.antt =====
-- apps/course-service: what a message does to the tables.
use nestjs_saas.Prelude.{String, Option, none, some, ◌≡◌, inl, inr, refl, arith}
use nestjs_saas.Exec.{Result, ok, err, Result-cases}
use nestjs_saas.Prisma.{Prisma}
use nestjs_saas.Courses.State.{Db}
use nestjs_saas.Courses.Catalog.{list_courses, get_course}
use nestjs_saas.Courses.Lessons.{list_lessons, get_lesson}
use nestjs_saas.Courses.Enrollments.{
  list_enrollments_by_course, list_enrollments_by_user, get_enrollment,
}
use nestjs_saas.Courses.Calls.{
  Call, creates_course, updates_course, deletes_course, creates_lesson, updates_lesson,
  deletes_lesson, creates_enrollment, updates_enrollment, deletes_enrollment, caller, after_call_of,
}
use nestjs_saas.Courses.Dto.{
  Validator, create_course_dto, update_course_dto, create_lesson_dto, update_lesson_dto,
  create_enrollment_dto, update_enrollment_dto,
}
use nestjs_saas.Courses.Messages.{
  Message, lists_courses, gets_course, lists_lessons, gets_lesson, lists_by_course, lists_by_user,
  gets_enrollment, writes, call_dto, perform, handle_message,
}

-- The call that a message comes to, if it writes and its payload passes.
abbrev pub passed : Result Call → Option Call
passed (ok call) = some call
passed (err e) = none

abbrev pub effect : Validator → Message → Option Call
effect v (lists_courses t) = none
effect v (gets_course t c) = none
effect v (lists_lessons t c) = none
effect v (gets_lesson t c l) = none
effect v (lists_by_course t c) = none
effect v (lists_by_user t u) = none
effect v (gets_enrollment t e role u) = none
effect v (writes call) = passed (call_dto v call)

-- The tenant that a message names.
abbrev pub sender : Message → String
sender (lists_courses t) = t
sender (gets_course t c) = t
sender (lists_lessons t c) = t
sender (gets_lesson t c l) = t
sender (lists_by_course t c) = t
sender (lists_by_user t u) = t
sender (gets_enrollment t e role u) = t
sender (writes call) = caller call

caller-dto :
    (v : Validator) (call call' : Call) → call_dto v call ≡ ok call' → caller call' ≡ caller call
unfolding create_course_dto create_lesson_dto update_lesson_dto create_enrollment_dto
    update_enrollment_dto update_course_dto
caller-dto v (creates_course p id now) call' e = ground arith
caller-dto v (updates_course t c title now) call' e = ground arith
caller-dto v (deletes_course t c) call' e = ground arith
caller-dto v (creates_lesson p id now) call' e = ground arith
caller-dto v (updates_lesson p now) call' e = ground arith
caller-dto v (deletes_lesson t c l) call' e = ground arith
caller-dto v (creates_enrollment p id now) call' e = ground arith
caller-dto v (updates_enrollment p now) call' e = ground arith
caller-dto v (deletes_enrollment t x) call' e = ground arith

pub caller-effect :
    (v : Validator) (m : Message) (call : Call) → effect v m ≡ some call → caller call ≡ sender m
caller-effect v (lists_courses t) call e = cc
caller-effect v (gets_course t c) call e = cc
caller-effect v (lists_lessons t c) call e = cc
caller-effect v (gets_lesson t c l) call e = cc
caller-effect v (lists_by_course t c) call e = cc
caller-effect v (lists_by_user t u) call e = cc
caller-effect v (gets_enrollment t x role u) call e = cc
caller-effect v (writes c) call e = elim (Result-cases (call_dto v c)) [
  | inl (call', is) ↦ ground (arith, is, caller-dto v c call' is)
  | inr (x, is) ↦ ground (arith, is)
]

module _ (prisma : Prisma) where
  abbrev pub after_effect : Option Call → Db → Db
  after_effect none db = db
  after_effect (some call) db = after_call_of prisma call db

  performed : (call : Call) (db : Db) → (perform prisma call db).1 ≡ after_call_of prisma call db
  unfolding after_call_of
  performed (creates_course p id now) db = refl
  performed (updates_course t c title now) db = refl
  performed (deletes_course t c) db = refl
  performed (creates_lesson p id now) db = refl
  performed (updates_lesson p now) db = refl
  performed (deletes_lesson t c l) db = refl
  performed (creates_enrollment p id now) db = refl
  performed (updates_enrollment p now) db = refl
  performed (deletes_enrollment t e) db = refl

  pub handle_message-effect :
      (v : Validator) (m : Message) (db : Db)
      → (handle_message prisma v m db).1 ≡ after_effect (effect v m) db
  unfolding handle_message list_courses get_course list_lessons get_lesson
      list_enrollments_by_course list_enrollments_by_user get_enrollment after_call_of
  handle_message-effect v (lists_courses t) db = ground arith
  handle_message-effect v (gets_course t c) db = ground arith
  handle_message-effect v (lists_lessons t c) db = ground arith
  handle_message-effect v (gets_lesson t c l) db = ground arith
  handle_message-effect v (lists_by_course t c) db = ground arith
  handle_message-effect v (lists_by_user t u) db = ground arith
  handle_message-effect v (gets_enrollment t e role u) db = ground arith
  handle_message-effect v (writes call) db = go (call_dto v call) refl
    where
      go :
          (r : Result Call)
          → call_dto v call ≡ r
          → (handle_message prisma v (writes call) db).1
            ≡ after_effect (passed (call_dto v call)) db
      go (err x) is = ground (arith, is)
      go (ok call') is = rw (is, handle_message) (performed call' db)
