-- ===== src/Courses/Calls/ById.antt =====
-- apps/course-service: the rows of another tenant under the calls that write lessons and enrollments
-- by their id.
use nestjs_saas.Prelude.{
  ℕ, String, true, false, List, Memᴰ, ◌≡◌, ◌≢◌, refl, sym, subst, arith, ◌==◌, eq_iff, All,
  All-of_each, All-of_mem,
}
use nestjs_saas.Prisma.{Prisma}
use nestjs_saas.Courses.State.{
  Lesson, Enrollment, Db, same_lesson, same_enrollment, is_lesson, is_enrollment,
}
use nestjs_saas.Courses.Catalog.{listed}
use nestjs_saas.Courses.Lessons.{UpdateLesson, update_lesson, delete_lesson}
use nestjs_saas.Courses.Enrollments.{UpdateEnrollment, update_enrollment, delete_enrollment}
use nestjs_saas.Prisma.Keys.{Keyed, Keyed-unique}
use nestjs_saas.Exec.Keeps.{after_throw_if, after_modify, after_pure, after_or_throw, after_gets}
use nestjs_saas.Courses.Calls.References.{IsSound}
use nestjs_saas.Courses.Calls.Apart.{SameRows, unchanged, updated_apart, deleted_apart}

module _ (prisma : Prisma) (other : String) where
  -- The row with the id of one that was found is that one.
  found_lesson :
      (t c i : String) (existing : Lesson) (rows : List Lesson)
      → t ≢ other
      → Keyed same_lesson rows
      → (is_lesson t c i existing ≡ true) × Memᴰ existing rows
      → All
          (λ x.
            (x.id == i) ≡ true
            → ((x.tenant_id == other) ≡ false) × ((x.tenant_id == other) ≡ false))
          rows
  found_lesson t c i existing rows apart keys (met, listed) =
      let own : (existing.tenant_id == other) ≡ false =
        ground (arith, met, eq_iff existing.tenant_id t, eq_iff existing.tenant_id other) in
      All-of_mem rows (λ x m same.
        let e : x.id ≡ existing.id =
          ground (arith, same, met, eq_iff x.id i, eq_iff existing.id i) in
        let one =
          Keyed-unique same_lesson rows keys x existing m listed
            (ground (arith, eq_iff existing.id x.id)) (ground (arith, eq_iff x.id existing.id)) in
        subst (λ y. ((y.tenant_id == other) ≡ false) × ((y.tenant_id == other) ≡ false)) (sym one)
          (own, own))

  found_enrollment :
      (t i : String) (existing : Enrollment) (rows : List Enrollment)
      → t ≢ other
      → Keyed same_enrollment rows
      → (is_enrollment t i existing ≡ true) × Memᴰ existing rows
      → All
          (λ x.
            (x.id == i) ≡ true
            → ((x.tenant_id == other) ≡ false) × ((x.tenant_id == other) ≡ false))
          rows
  found_enrollment t i existing rows apart keys (met, listed) =
      let own : (existing.tenant_id == other) ≡ false =
        ground (arith, met, eq_iff existing.tenant_id t, eq_iff existing.tenant_id other) in
      All-of_mem rows (λ x m same.
        let e : x.id ≡ existing.id =
          ground (arith, same, met, eq_iff x.id i, eq_iff existing.id i) in
        let one =
          Keyed-unique same_enrollment rows keys x existing m listed
            (ground (arith, eq_iff existing.id x.id)) (ground (arith, eq_iff x.id existing.id)) in
        subst (λ y. ((y.tenant_id == other) ≡ false) × ((y.tenant_id == other) ≡ false)) (sym one)
          (own, own))

  pub update_lesson-SameRows :
      (payload : UpdateLesson) (now : ℕ) (db : Db)
      → payload.tenant_id ≢ other
      → IsSound db
      → SameRows prisma other db (update_lesson prisma payload now db).1
  unfolding update_lesson
  update_lesson-SameRows payload now db apart h =
      let P = SameRows prisma other db in
      after_gets P _ _ db (
        after_or_throw P _ _ _ db (unchanged prisma other db) (λ existing found.
          after_throw_if P _ _ _ db (unchanged prisma other db) (λ edits. after_modify P _ _ db (
            after_pure P _ _ (record {
              courses = refl;
              lessons = updated_apart prisma other _ _ _ db.lessons (
                  found_lesson payload.tenant_id payload.course_id payload.lesson_id existing
                    db.lessons apart h.lesson_keys (prisma.find_first_sound _ _ existing found));
              enrollments = refl;
            })))))

  pub update_enrollment-SameRows :
      (payload : UpdateEnrollment) (now : ℕ) (db : Db)
      → payload.tenant_id ≢ other
      → IsSound db
      → SameRows prisma other db (update_enrollment prisma payload now db).1
  unfolding update_enrollment
  update_enrollment-SameRows payload now db apart h =
      let P = SameRows prisma other db in
      after_throw_if P _ _ _ db (unchanged prisma other db) (λ edits. after_gets P _ _ db (
        after_or_throw P _ _ _ db (unchanged prisma other db) (λ existing found.
          after_throw_if P _ _ _ db (unchanged prisma other db) (λ allowed. after_modify P _ _ db (
            after_pure P _ _ (record {
              courses = refl;
              lessons = refl;
              enrollments = updated_apart prisma other _ _ _ db.enrollments (
                  found_enrollment payload.tenant_id payload.enrollment_id existing db.enrollments
                    apart h.enrollment_keys (prisma.find_first_sound _ _ existing found));
            }))))))

  pub delete_lesson-SameRows :
      (t c l : String) (db : Db)
      → t ≢ other
      → SameRows prisma other db (delete_lesson prisma t c l db).1
  unfolding delete_lesson
  delete_lesson-SameRows t c l db apart =
      let P = SameRows prisma other db in
      let kept : SameRows prisma other db
          (record db { lessons = (prisma.delete_many (is_lesson t c l) db.lessons).1 }) =
        record {
          courses = refl;
          lessons = deleted_apart prisma other _ _ db.lessons (
              All-of_each
                (λ x met. ground (arith, met, eq_iff x.tenant_id t, eq_iff x.tenant_id other))
                db.lessons);
          enrollments = refl;
        } in
      after_gets P _ _ db
        (after_modify P _ _ db (after_throw_if P _ _ _ _ kept (λ there. after_pure P _ _ kept)))

  pub delete_enrollment-SameRows :
      (t e : String) (db : Db)
      → t ≢ other
      → SameRows prisma other db (delete_enrollment prisma t e db).1
  unfolding delete_enrollment
  delete_enrollment-SameRows t e db apart =
      let P = SameRows prisma other db in
      let kept : SameRows prisma other db
          (record db { enrollments = (prisma.delete_many (is_enrollment t e) db.enrollments).1 }) =
        record {
          courses = refl;
          lessons = refl;
          enrollments = deleted_apart prisma other _ _ db.enrollments (
              All-of_each
                (λ x met. ground (arith, met, eq_iff x.tenant_id t, eq_iff x.tenant_id other))
                db.enrollments);
        } in
      after_gets P _ _ db
        (after_modify P _ _ db (after_throw_if P _ _ _ _ kept (λ there. after_pure P _ _ kept)))
