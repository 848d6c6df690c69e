-- ===== src/Courses/Messages/Bounds.antt =====
-- apps/course-service: the limits of the DTOs hold in the tables.
use nestjs_saas.Prelude.{some, true, ◌≡◌, List, [], ◌∷◌, sym, subst, arith, Option-cases, inl, inr}
use nestjs_saas.Exec.{ok, Result-cases}
use nestjs_saas.Prisma.{Prisma}
use nestjs_saas.Courses.State.{Db}
use nestjs_saas.Courses.Calls.{
  Call, creates_course, updates_course, deletes_course, creates_lesson, updates_lesson,
  deletes_lesson, creates_enrollment, updates_enrollment, deletes_enrollment,
}
use nestjs_saas.Courses.Dto.{
  Validator, create_course_dto, update_course_dto, create_lesson_dto, update_lesson_dto,
  create_enrollment_dto, update_enrollment_dto,
}
use nestjs_saas.Courses.Messages.{Message, writes, call_dto, handle_message}
use nestjs_saas.Courses.Messages.Effects.{effect, after_effect, handle_message-effect}
use nestjs_saas.Courses.Messages.Fits.{fits_call, Fits, call-Fits}

dto-fits : (v : Validator) (call call' : Call) → call_dto v call ≡ ok call' → fits_call call' ≡ true
unfolding create_course_dto create_lesson_dto update_lesson_dto create_enrollment_dto
    update_enrollment_dto update_course_dto
dto-fits v (creates_course p id now) call' e = ground arith
dto-fits v (updates_course t c title now) call' e = ground arith
dto-fits v (deletes_course t c) call' e = ground arith
dto-fits v (creates_lesson p id now) call' e = ground arith
dto-fits v (updates_lesson p now) call' e = ground arith
dto-fits v (deletes_lesson t c l) call' e = ground arith
dto-fits v (creates_enrollment p id now) call' e = ground arith
dto-fits v (updates_enrollment p now) call' e = ground arith
dto-fits v (deletes_enrollment t x) call' e = ground arith

module _ (prisma : Prisma) where
  fits_effect :
      (v : Validator) (m : Message) (call : Call) → effect v m ≡ some call → fits_call call ≡ true
  fits_effect v (writes c) call e = elim (Result-cases (call_dto v c)) [
    | inl (call', is) ↦ ground (arith, is, dto-fits v c call' is)
    | inr (x, is) ↦ ground (arith, is)
  ]
  fits_effect v m call e = cc

  message-Fits :
      (v : Validator) (m : Message) (db : Db) → Fits db → Fits (handle_message prisma v m db).1
  message-Fits v m db h =
      subst Fits (sym (handle_message-effect prisma v m db)) (elim (Option-cases (effect v m)) [
        | inl nothing ↦ subst (λ o. Fits (after_effect prisma o db)) (sym nothing) h
        | inr (call, is) ↦
            subst (λ o. Fits (after_effect prisma o db)) (sym is)
              (call-Fits prisma call db (fits_effect v m call is) h)
      ])

  -- The service answers its messages one after another, each by what the one before left.
  unfoldable pub answer_all : Validator → List Message → Db → Db
  answer_all v [] db = db
  answer_all v (m ∷ messages) db = answer_all v messages (handle_message prisma v m db).1

  -- Whatever messages the service answers, the limits of its DTOs hold for every row of its tables:
  -- titles of 1 to 200 characters, bodies of at most 50000, places up to 100000, a progress of at
  -- most 100 percent, and at most 1000000 completed lessons.
  pub answer_all-Fits :
      (v : Validator) (messages : List Message) (db : Db)
      → Fits db
      → Fits (answer_all v messages db)
  unfolding answer_all
  answer_all-Fits v [] db h = h
  answer_all-Fits v (m ∷ messages) db h =
      answer_all-Fits v messages (handle_message prisma v m db).1 (message-Fits v m db h)
