-- ===== src/Courses/Messages/ReadBack.antt =====
-- apps/course-service: what a call that writes has written is what the next call reads.
use nestjs_saas.Prelude.{String, ◌≡◌, sym, ap, subst, ◌∙◌, arith, inl, inr}
use nestjs_saas.Exec.{ok, err, Action, Result-cases}
use nestjs_saas.Prisma.{Prisma}
use nestjs_saas.Common.Roles.{Role, learner}
use nestjs_saas.Courses.State.{Db, not_found}
use nestjs_saas.Courses.Catalog.{
  create_course, update_course, delete_course, CourseDetail, get_course,
}
use nestjs_saas.Courses.Lessons.{create_lesson, update_lesson, delete_lesson, get_lesson}
use nestjs_saas.Courses.Enrollments.{
  create_enrollment, update_enrollment, delete_enrollment, get_enrollment,
}
use nestjs_saas.Courses.Calls.{
  Call, creates_course, updates_course, deletes_course, creates_lesson, updates_lesson,
  deletes_lesson, creates_enrollment, updates_enrollment, deletes_enrollment, after_call_of,
}
use nestjs_saas.Courses.Calls.References.{IsSound}
use nestjs_saas.Courses.Calls.Integrity.{call-IsSound}
use nestjs_saas.Courses.Messages.Reads.{
  create_course-get_course, update_course-get_course, delete_course-get_course,
  create_lesson-get_lesson, update_lesson-get_lesson, delete_lesson-get_lesson,
  create_enrollment-get_enrollment, update_enrollment-get_enrollment,
  delete_enrollment-get_enrollment,
}
use nestjs_saas.Courses.Messages.{
  Reply, deleted, course, lesson, enrollment, result_as, replied, perform,
}

module _ (prisma : Prisma) where
  -- The tables show what a call was answered with: the row it wrote, to whoever may read it, or no
  -- row where it deleted one.
  abbrev pub ReadBack : Call → Reply → Db → Type 0
  ReadBack (creates_course p id now) reply db =
      (d : CourseDetail) × (get_course prisma p.tenant_id id db ≡ (ok d, db))
      × (reply ≡ course d.course)
  ReadBack (updates_course t c title now) reply db =
      (d : CourseDetail) × (get_course prisma t c db ≡ (ok d, db)) × (reply ≡ course d.course)
  ReadBack (deletes_course t c) reply db =
      get_course prisma t c db ≡ (err (not_found "Course not found"), db)
  ReadBack (creates_lesson p id now) reply db =
      replied lesson (get_lesson prisma p.tenant_id p.course_id id) db ≡ (ok reply, db)
  ReadBack (updates_lesson p now) reply db =
      replied lesson (get_lesson prisma p.tenant_id p.course_id p.lesson_id) db ≡ (ok reply, db)
  ReadBack (deletes_lesson t c l) reply db =
      get_lesson prisma t c l db ≡ (err (not_found "Lesson not found"), db)
  ReadBack (creates_enrollment p id now) reply db =
      replied enrollment (get_enrollment prisma p.tenant_id id learner p.user_id) db
      ≡ (ok reply, db)
  ReadBack (updates_enrollment p now) reply db =
      replied enrollment
        (get_enrollment prisma p.tenant_id p.enrollment_id p.acting_role p.acting_user_id) db
      ≡ (ok reply, db)
  ReadBack (deletes_enrollment t e) reply db =
      (role : Role) (user_id : String)
      → get_enrollment prisma t e role user_id db ≡ (err (not_found "Enrollment not found"), db)

  replied-eq-ok :
      {A : Type 0} (f : A → Reply) (m : Action Db A) (db db' : Db) (reply : Reply)
      → replied f m db ≡ (ok reply, db')
      → (a : A) × (m db ≡ (ok a, db')) × (f a ≡ reply)
  replied-eq-ok f m db db' reply e = elim (Result-cases (m db).0) [
    | inl (a, is) ↦ (a, ground (arith, e, is), ground (arith, e, is))
    | inr (x, is) ↦ absurd (ground (arith, e, is))
  ]

  IsSound-after :
      (call : Call) (db db' : Db) → after_call_of prisma call db ≡ db' → IsSound db → IsSound db'
  IsSound-after call db db' same sound = subst IsSound same (call-IsSound prisma call db sound)

  -- What is written is read back: from sound tables, after a call that writes was answered, the same
  -- row is read by its id, for an enrollment also by the learner who is enrolled or by whoever made
  -- the update; the course that was written is read with its lessons; and what was deleted is not
  -- found, whoever asks.
  pub perform-ReadBack :
      (call : Call) (db db' : Db) (reply : Reply)
      → IsSound db
      → perform prisma call db ≡ (ok reply, db')
      → ReadBack call reply db'
  unfolding after_call_of
  perform-ReadBack (creates_course p id now) db db' reply sound e =
      let (r, is, same) = replied-eq-ok course (create_course prisma p id now) db db' reply e in
      let (d, read, shown) =
        create_course-get_course prisma p id now db db' r
          (IsSound-after (creates_course p id now) db db' (ap (λ x. x.1) is) sound) is in
      (d, read, sym same ∙ ap course shown)
  perform-ReadBack (updates_course t c title now) db db' reply sound e =
      let (r, is, same) =
        replied-eq-ok course (update_course prisma t c title now) db db' reply e in
      let (d, read, shown) = update_course-get_course prisma t c title now db db' r is in
      (d, read, sym same ∙ ap course shown)
  perform-ReadBack (deletes_course t c) db db' reply sound e =
      let (r, is, same) = replied-eq-ok deleted (delete_course prisma t c) db db' reply e in
      delete_course-get_course prisma t c db db' r is
  perform-ReadBack (creates_lesson p id now) db db' reply sound e =
      let (r, is, same) = replied-eq-ok lesson (create_lesson prisma p id now) db db' reply e in
      ap (λ x. (result_as lesson x.0, x.1))
        (create_lesson-get_lesson prisma p id now db db' r
          (IsSound-after (creates_lesson p id now) db db' (ap (λ x. x.1) is) sound) is)
      ∙ ap (λ y. (ok y, db')) same
  perform-ReadBack (updates_lesson p now) db db' reply sound e =
      let (r, is, same) = replied-eq-ok lesson (update_lesson prisma p now) db db' reply e in
      ap (λ x. (result_as lesson x.0, x.1))
        (update_lesson-get_lesson prisma p now db db' r
          (IsSound-after (updates_lesson p now) db db' (ap (λ x. x.1) is) sound) is)
      ∙ ap (λ y. (ok y, db')) same
  perform-ReadBack (deletes_lesson t c l) db db' reply sound e =
      let (r, is, same) = replied-eq-ok deleted (delete_lesson prisma t c l) db db' reply e in
      delete_lesson-get_lesson prisma t c l db db' r is
  perform-ReadBack (creates_enrollment p id now) db db' reply sound e =
      let (r, is, same) =
        replied-eq-ok enrollment (create_enrollment prisma p id now) db db' reply e in
      ap (λ x. (result_as enrollment x.0, x.1))
        (create_enrollment-get_enrollment prisma p id now db db' r
          (IsSound-after (creates_enrollment p id now) db db' (ap (λ x. x.1) is) sound) is)
      ∙ ap (λ y. (ok y, db')) same
  perform-ReadBack (updates_enrollment p now) db db' reply sound e =
      let (r, is, same) =
        replied-eq-ok enrollment (update_enrollment prisma p now) db db' reply e in
      ap (λ x. (result_as enrollment x.0, x.1))
        (update_enrollment-get_enrollment prisma p now db db' r
          (IsSound-after (updates_enrollment p now) db db' (ap (λ x. x.1) is) sound) is)
      ∙ ap (λ y. (ok y, db')) same
  perform-ReadBack (deletes_enrollment t x) db db' reply sound e =
      let (r, is, same) = replied-eq-ok deleted (delete_enrollment prisma t x) db db' reply e in
      λ role user_id. delete_enrollment-get_enrollment prisma t x db db' r role user_id is
