-- ===== src/Courses/Messages/Fits.antt =====
-- apps/course-service: the limits of the DTOs on rows and calls, and what each call does to them.
use nestjs_saas.Prelude.{
  ℕ, String, Bool, true, leb, ◌≡◌, ◌&&◌, List, sym, subst, arith, ◌==◌, All, All-imp,
}
use nestjs_saas.Exec.Keeps.{
  after_throw_if, after_modify, after_pure, after_or_throw, after_gets, after_last_or_throw,
}
use nestjs_saas.Prisma.{Prisma}
use nestjs_saas.Prisma.Rows.{created, All-update_many, All-delete_many}
use nestjs_saas.Courses.State.{
  Course, Lesson, Enrollment, Db, is_course, is_lesson, is_enrollment, cascade,
}
use nestjs_saas.Courses.Catalog.{
  CreateCourse, retitled, create_course, update_course, delete_course,
}
use nestjs_saas.Courses.Lessons.{
  CreateLesson, UpdateLesson, new_lesson, edited, create_lesson, update_lesson, delete_lesson,
}
use nestjs_saas.Courses.Enrollments.{
  CreateEnrollment, UpdateEnrollment, new_enrollment, progressed, create_enrollment,
  update_enrollment, delete_enrollment,
}
use nestjs_saas.Courses.Calls.{
  Call, creates_course, updates_course, deletes_course, creates_lesson, updates_lesson,
  deletes_lesson, creates_enrollment, updates_enrollment, deletes_enrollment, after_call_of,
}
use nestjs_saas.Courses.Dto.{has_length, optionally, body_fits}

abbrev pub fits_title : String → Bool
fits_title = has_length 1 200

-- The limits on one row.
abbrev pub FitsCourse : Course → Type 0
FitsCourse c = fits_title c.title ≡ true

abbrev pub FitsLesson : Lesson → Type 0
FitsLesson l =
    (fits_title l.title && optionally (has_length 0 50000) l.body && leb l.sort_order 100000) ≡ true

abbrev pub FitsEnrollment : Enrollment → Type 0
FitsEnrollment e = (leb e.progress_percent 100 && leb e.lessons_completed 1000000) ≡ true

pub record Fits (db : Db) : Type 0 where
  pub courses : All FitsCourse db.courses
  pub lessons : All FitsLesson db.lessons
  pub enrollments : All FitsEnrollment db.enrollments

-- The limits on the fields of a call.
abbrev pub fits_call : Call → Bool
fits_call (creates_course p id now) = fits_title p.title
fits_call (updates_course t c title now) = fits_title title
fits_call (deletes_course t c) = true
fits_call (creates_lesson p id now) =
    fits_title p.title && body_fits p.body && optionally (λ n. leb n 100000) p.sort_order
fits_call (updates_lesson p now) =
    optionally fits_title p.title && body_fits p.body && optionally (λ n. leb n 100000) p.sort_order
fits_call (deletes_lesson t c l) = true
fits_call (creates_enrollment p id now) = true
fits_call (updates_enrollment p now) =
    optionally (λ n. leb n 100) p.progress_percent
    && optionally (λ n. leb n 1000000) p.lessons_completed
fits_call (deletes_enrollment t e) = true

module _ (prisma : Prisma) where
  create_course-Fits :
      (p : CreateCourse) (id : String) (now : ℕ) (db : Db)
      → fits_title p.title ≡ true
      → Fits db
      → Fits (create_course prisma p id now db).1
  unfolding create_course
  create_course-Fits p id now db title h = after_gets Fits _ _ db (
      after_throw_if Fits _ _ _ db h λ _. after_or_throw Fits _ _ _ db h λ courses made.
        after_modify Fits _ _ db (
          after_pure Fits _ _ (record {
            courses =
                subst (All FitsCourse) (sym (created prisma _ _ db.courses made).0)
                  (title, h.courses);
            lessons = h.lessons;
            enrollments = h.enrollments;
          })))

  update_course-Fits :
      (t c title : String) (now : ℕ) (db : Db)
      → fits_title title ≡ true
      → Fits db
      → Fits (update_course prisma t c title now db).1
  unfolding update_course
  update_course-Fits t c title now db fits h =
      let after : Fits (record db {
        courses = (prisma.update_many (is_course t c) (retitled prisma title now) db.courses).1;
      }) =
        record {
          courses =
              All-update_many prisma FitsCourse _ _ db.courses
                (All-imp (λ x there. ground (arith, there, fits)) db.courses h.courses);
          lessons = h.lessons;
          enrollments = h.enrollments;
        } in
      after_gets Fits _ _ db (
        after_modify Fits _ _ db
          (after_throw_if Fits _ _ _ _ after (λ _. after_last_or_throw Fits _ _ _ after)))

  delete_course-Fits : (t c : String) (db : Db) → Fits db → Fits (delete_course prisma t c db).1
  unfolding delete_course
  delete_course-Fits t c db h =
      let after : Fits (cascade prisma (prisma.delete_many (is_course t c) db.courses).1 db) =
        record {
          courses = All-delete_many prisma FitsCourse _ db.courses h.courses;
          lessons = All-delete_many prisma FitsLesson _ db.lessons h.lessons;
          enrollments = All-delete_many prisma FitsEnrollment _ db.enrollments h.enrollments;
        } in
      after_gets Fits _ _ db (
        after_modify Fits _ _ db
          (after_throw_if Fits _ _ _ _ after (λ there. after_pure Fits _ _ after)))

  with_lessons :
      (lessons : List Lesson) (db : Db)
      → Fits db
      → All FitsLesson lessons
      → Fits (record db { lessons = lessons })
  with_lessons lessons db h fits = record {
    courses = h.courses;
    lessons = fits;
    enrollments = h.enrollments;
  }

  with_enrollments :
      (enrollments : List Enrollment) (db : Db)
      → Fits db
      → All FitsEnrollment enrollments
      → Fits (record db { enrollments = enrollments })
  with_enrollments enrollments db h fits = record {
    courses = h.courses;
    lessons = h.lessons;
    enrollments = fits;
  }

  create_lesson-Fits :
      (p : CreateLesson) (id : String) (now : ℕ) (db : Db)
      → fits_call (creates_lesson p id now) ≡ true
      → Fits db
      → Fits (create_lesson prisma p id now db).1
  unfolding create_lesson
  create_lesson-Fits p id now db fits h =
      let new : FitsLesson (new_lesson prisma p id now) = ground (arith, fits) in
      after_gets Fits _ _ db (
        after_or_throw Fits _ _ _ db h λ course found.
          after_or_throw Fits _ _ _ db h λ lessons made. after_modify Fits _ _ db (
            after_pure Fits _ _ (
              with_lessons lessons db h (
                subst (All FitsLesson) (sym (created prisma _ _ db.lessons made).0)
                  (new, h.lessons)))))

  update_lesson-Fits :
      (p : UpdateLesson) (now : ℕ) (db : Db)
      → fits_call (updates_lesson p now) ≡ true
      → Fits db
      → Fits (update_lesson prisma p now db).1
  unfolding update_lesson
  update_lesson-Fits p now db fits h =
      let after =
        with_lessons
          (prisma.update_many (λ l. l.id == p.lesson_id) (edited prisma p now) db.lessons).1 db h
          (All-update_many prisma FitsLesson _ _ db.lessons
            (All-imp (λ l there. ground (arith, there, fits)) db.lessons h.lessons)) in
      after_gets Fits _ _ db (
        after_or_throw Fits _ _ _ db h (λ existing found.
          after_throw_if Fits _ _ _ db h
            (λ edits. after_modify Fits _ _ db (after_pure Fits _ _ after))))

  delete_lesson-Fits : (t c l : String) (db : Db) → Fits db → Fits (delete_lesson prisma t c l db).1
  unfolding delete_lesson
  delete_lesson-Fits t c l db h =
      let after =
        with_lessons (prisma.delete_many (is_lesson t c l) db.lessons).1 db h
          (All-delete_many prisma FitsLesson _ db.lessons h.lessons) in
      after_gets Fits _ _ db (
        after_modify Fits _ _ db
          (after_throw_if Fits _ _ _ _ after (λ there. after_pure Fits _ _ after)))

  create_enrollment-Fits :
      (p : CreateEnrollment) (id : String) (now : ℕ) (db : Db)
      → Fits db
      → Fits (create_enrollment prisma p id now db).1
  unfolding create_enrollment
  create_enrollment-Fits p id now db h =
      let new : FitsEnrollment (new_enrollment prisma p id now) = ground arith in
      after_gets Fits _ _ db (
        after_or_throw Fits _ _ _ db h λ course found.
          after_or_throw Fits _ _ _ db h λ enrollments made. after_modify Fits _ _ db (
            after_pure Fits _ _ (
              with_enrollments enrollments db h (
                subst (All FitsEnrollment) (sym (created prisma _ _ db.enrollments made).0)
                  (new, h.enrollments)))))

  update_enrollment-Fits :
      (p : UpdateEnrollment) (now : ℕ) (db : Db)
      → fits_call (updates_enrollment p now) ≡ true
      → Fits db
      → Fits (update_enrollment prisma p now db).1
  unfolding update_enrollment
  update_enrollment-Fits p now db fits h =
      let after =
        with_enrollments
          (prisma.update_many (λ e. e.id == p.enrollment_id) (progressed prisma p now)
            db.enrollments).1
          db h
          (All-update_many prisma FitsEnrollment _ _ db.enrollments
            (All-imp (λ e there. ground (arith, there, fits)) db.enrollments h.enrollments)) in
      after_throw_if Fits _ _ _ db h (λ edits. after_gets Fits _ _ db (
        after_or_throw Fits _ _ _ db h (λ enrollment found.
          after_throw_if Fits _ _ _ db h
            (λ own. after_modify Fits _ _ db (after_pure Fits _ _ after)))))

  delete_enrollment-Fits :
      (t e : String) (db : Db) → Fits db → Fits (delete_enrollment prisma t e db).1
  unfolding delete_enrollment
  delete_enrollment-Fits t e db h =
      let after =
        with_enrollments (prisma.delete_many (is_enrollment t e) db.enrollments).1 db h
          (All-delete_many prisma FitsEnrollment _ db.enrollments h.enrollments) in
      after_gets Fits _ _ db (
        after_modify Fits _ _ db
          (after_throw_if Fits _ _ _ _ after (λ there. after_pure Fits _ _ after)))

  pub call-Fits :
      (call : Call) (db : Db)
      → fits_call call ≡ true
      → Fits db
      → Fits (after_call_of prisma call db)
  unfolding after_call_of
  call-Fits (creates_course p id now) db f h = create_course-Fits p id now db f h
  call-Fits (updates_course t c title now) db f h = update_course-Fits t c title now db f h
  call-Fits (deletes_course t c) db f h = delete_course-Fits t c db h
  call-Fits (creates_lesson p id now) db f h = create_lesson-Fits p id now db f h
  call-Fits (updates_lesson p now) db f h = update_lesson-Fits p now db f h
  call-Fits (deletes_lesson t c l) db f h = delete_lesson-Fits t c l db h
  call-Fits (creates_enrollment p id now) db f h = create_enrollment-Fits p id now db h
  call-Fits (updates_enrollment p now) db f h = update_enrollment-Fits p now db f h
  call-Fits (deletes_enrollment t e) db f h = delete_enrollment-Fits t e db h
