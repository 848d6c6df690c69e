-- ===== src/Courses/Calls/Integrity.antt =====
-- apps/course-service: the references between the tables stay sound under every call.
use nestjs_saas.Prelude.{
  ℕ, String, List, [], ◌∷◌, sym, subst, arith, ◌==◌, All, All-imp, exists-found,
}
use nestjs_saas.Prisma.{Prisma}
use nestjs_saas.Courses.State.{
  Lesson, Enrollment, Db, same_lesson, same_enrollment, is_lesson, is_enrollment,
}
use nestjs_saas.Courses.Catalog.{listed}
use nestjs_saas.Courses.Lessons.{
  CreateLesson, UpdateLesson, new_lesson, create_lesson, edited, update_lesson, delete_lesson,
}
use nestjs_saas.Courses.Enrollments.{
  CreateEnrollment, UpdateEnrollment, new_enrollment, create_enrollment, progressed,
  update_enrollment, delete_enrollment,
}
use nestjs_saas.Courses.Calls.{
  Call, creates_course, updates_course, deletes_course, creates_lesson, updates_lesson,
  deletes_lesson, creates_enrollment, updates_enrollment, deletes_enrollment, after_call_of, run,
}
use nestjs_saas.Prisma.Keys.{Keyed, Keyed-create, Keyed-delete_many, Keyed-update_many}
use nestjs_saas.Exec.Keeps.{after_throw_if, after_modify, after_pure, after_or_throw, after_gets}
use nestjs_saas.Prisma.Rows.{created, All-update_many, All-delete_many}
use nestjs_saas.Courses.Calls.References.{
  IsSound, HasCourse, create_course-IsSound, update_course-IsSound, delete_course-IsSound,
}

module _ (prisma : Prisma) where
  create_lesson-IsSound :
      (payload : CreateLesson) (id : String) (now : ℕ) (db : Db)
      → IsSound db
      → IsSound (create_lesson prisma payload id now db).1
  unfolding create_lesson
  create_lesson-IsSound payload id now db h =
      let new = new_lesson prisma payload id now in
      after_gets IsSound _ _ db (
        after_or_throw IsSound _ _ _ db h (λ course found.
          after_or_throw IsSound _ _ _ db h (λ lessons e.
            let (shape, apart) = created prisma _ new db.lessons e in
            let (met, listed) = prisma.find_first_sound _ _ course found in
            let there : HasCourse db.courses payload.tenant_id payload.course_id =
              exists-found _ db.courses met listed in
            after_modify IsSound _ _ db (
              after_pure IsSound _ _ (record {
                course_keys = h.course_keys;
                lesson_keys = Keyed-create same_lesson prisma new _ lessons e h.lesson_keys;
                enrollment_keys = h.enrollment_keys;
                lesson_courses =
                    subst (All (λ l. HasCourse db.courses l.tenant_id l.course_id)) (sym shape)
                      (there, h.lesson_courses);
                enrollment_courses = h.enrollment_courses;
              })))))

  create_enrollment-IsSound :
      (payload : CreateEnrollment) (id : String) (now : ℕ) (db : Db)
      → IsSound db
      → IsSound (create_enrollment prisma payload id now db).1
  unfolding create_enrollment
  create_enrollment-IsSound payload id now db h =
      let new = new_enrollment prisma payload id now in
      after_gets IsSound _ _ db (
        after_or_throw IsSound _ _ _ db h (λ course found.
          after_or_throw IsSound _ _ _ db h (λ enrollments e.
            let (shape, apart) = created prisma _ new db.enrollments e in
            let (met, listed) = prisma.find_first_sound _ _ course found in
            let there : HasCourse db.courses payload.tenant_id payload.course_id =
              exists-found _ db.courses met listed in
            after_modify IsSound _ _ db (
              after_pure IsSound _ _ (record {
                course_keys = h.course_keys;
                lesson_keys = h.lesson_keys;
                enrollment_keys =
                    Keyed-create same_enrollment prisma new _ enrollments e h.enrollment_keys;
                lesson_courses = h.lesson_courses;
                enrollment_courses =
                    subst (All (λ x. HasCourse db.courses x.tenant_id x.course_id)) (sym shape)
                      (there, h.enrollment_courses);
              })))))

  -- A table of lessons, or of enrollments, that replaces the one of a sound database.
  with_lessons :
      (lessons : List Lesson) (db : Db)
      → IsSound db
      → Keyed same_lesson lessons
      → All (λ l. HasCourse db.courses l.tenant_id l.course_id) lessons
      → IsSound (record db { lessons = lessons })
  with_lessons lessons db h keys refs = record {
    course_keys = h.course_keys;
    lesson_keys = keys;
    enrollment_keys = h.enrollment_keys;
    lesson_courses = refs;
    enrollment_courses = h.enrollment_courses;
  }

  with_enrollments :
      (enrollments : List Enrollment) (db : Db)
      → IsSound db
      → Keyed same_enrollment enrollments
      → All (λ e. HasCourse db.courses e.tenant_id e.course_id) enrollments
      → IsSound (record db { enrollments = enrollments })
  with_enrollments enrollments db h keys refs = record {
    course_keys = h.course_keys;
    lesson_keys = h.lesson_keys;
    enrollment_keys = keys;
    lesson_courses = h.lesson_courses;
    enrollment_courses = refs;
  }

  update_lesson-IsSound :
      (payload : UpdateLesson) (now : ℕ) (db : Db)
      → IsSound db
      → IsSound (update_lesson prisma payload now db).1
  unfolding update_lesson
  update_lesson-IsSound payload now db h =
      let change = edited prisma payload now in
      let sound =
        with_lessons (prisma.update_many (λ l. l.id == payload.lesson_id) change db.lessons).1 db h
          (Keyed-update_many same_lesson prisma _ change (λ r x. ground arith) db.lessons
            h.lesson_keys)
          (All-update_many prisma (λ l. HasCourse db.courses l.tenant_id l.course_id) _ change
            db.lessons (All-imp (λ l there. ground (arith, there)) db.lessons h.lesson_courses)) in
      after_gets IsSound _ _ db (
        after_or_throw IsSound _ _ _ db h (λ existing found.
          after_throw_if IsSound _ _ _ db h
            (λ edits. after_modify IsSound _ _ db (after_pure IsSound _ _ sound))))

  update_enrollment-IsSound :
      (payload : UpdateEnrollment) (now : ℕ) (db : Db)
      → IsSound db
      → IsSound (update_enrollment prisma payload now db).1
  unfolding update_enrollment
  update_enrollment-IsSound payload now db h =
      let change = progressed prisma payload now in
      let sound =
        with_enrollments
          (prisma.update_many (λ e. e.id == payload.enrollment_id) change db.enrollments).1 db h
          (Keyed-update_many same_enrollment prisma _ change (λ r x. ground arith) db.enrollments
            h.enrollment_keys)
          (All-update_many prisma (λ e. HasCourse db.courses e.tenant_id e.course_id) _ change
            db.enrollments
            (All-imp (λ e there. ground (arith, there)) db.enrollments h.enrollment_courses)) in
      after_throw_if IsSound _ _ _ db h (λ edits. after_gets IsSound _ _ db (
        after_or_throw IsSound _ _ _ db h (λ enrollment found.
          after_throw_if IsSound _ _ _ db h
            (λ own. after_modify IsSound _ _ db (after_pure IsSound _ _ sound)))))

  delete_lesson-IsSound :
      (tenant_id course_id lesson_id : String) (db : Db)
      → IsSound db
      → IsSound (delete_lesson prisma tenant_id course_id lesson_id db).1
  unfolding delete_lesson
  delete_lesson-IsSound tenant_id course_id lesson_id db h =
      let test = is_lesson tenant_id course_id lesson_id in
      let sound =
        with_lessons (prisma.delete_many test db.lessons).1 db h
          (Keyed-delete_many same_lesson prisma test db.lessons h.lesson_keys)
          (All-delete_many prisma _ test db.lessons h.lesson_courses) in
      after_gets IsSound _ _ db (
        after_modify IsSound _ _ db
          (after_throw_if IsSound _ _ _ _ sound (λ there. after_pure IsSound _ _ sound)))

  delete_enrollment-IsSound :
      (tenant_id enrollment_id : String) (db : Db)
      → IsSound db
      → IsSound (delete_enrollment prisma tenant_id enrollment_id db).1
  unfolding delete_enrollment
  delete_enrollment-IsSound tenant_id enrollment_id db h =
      let test = is_enrollment tenant_id enrollment_id in
      let sound =
        with_enrollments (prisma.delete_many test db.enrollments).1 db h
          (Keyed-delete_many same_enrollment prisma test db.enrollments h.enrollment_keys)
          (All-delete_many prisma _ test db.enrollments h.enrollment_courses) in
      after_gets IsSound _ _ db (
        after_modify IsSound _ _ db
          (after_throw_if IsSound _ _ _ _ sound (λ there. after_pure IsSound _ _ sound)))

  pub call-IsSound : (call : Call) (db : Db) → IsSound db → IsSound (after_call_of prisma call db)
  unfolding after_call_of
  call-IsSound (creates_course p id now) db h = create_course-IsSound prisma p id now db h
  call-IsSound (updates_course t c title now) db h = update_course-IsSound prisma t c title now db h
  call-IsSound (deletes_course t c) db h = delete_course-IsSound prisma t c db h
  call-IsSound (creates_lesson p id now) db h = create_lesson-IsSound p id now db h
  call-IsSound (updates_lesson p now) db h = update_lesson-IsSound p now db h
  call-IsSound (deletes_lesson t c l) db h = delete_lesson-IsSound t c l db h
  call-IsSound (creates_enrollment p id now) db h = create_enrollment-IsSound p id now db h
  call-IsSound (updates_enrollment p now) db h = update_enrollment-IsSound p now db h
  call-IsSound (deletes_enrollment t e) db h = delete_enrollment-IsSound t e db h

  -- In a database where ids are unique, no user is enrolled twice in a course, and each lesson and
  -- enrollment belongs to a course of its own tenant, all this is so after any sequence of calls of
  -- the service, whether they return or throw.
  pub run-IsSound : (calls : List Call) (db : Db) → IsSound db → IsSound (run prisma calls db)
  unfolding run
  run-IsSound [] db h = h
  run-IsSound (call ∷ calls) db h =
      run-IsSound calls (after_call_of prisma call db) (call-IsSound call db h)
