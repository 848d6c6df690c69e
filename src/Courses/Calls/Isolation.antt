-- ===== src/Courses/Calls/Isolation.antt =====
-- apps/course-service: a tenant's calls leave the rows of the other tenants alone.
use nestjs_saas.Prelude.{
  String, true, false, not, List, [], ◌∷◌, ◌≡◌, ◌≢◌, subst, ◌∙◌, arith, Bool-cases, inl, inr, ◌==◌,
  eq_iff, All, All-imp, All-of_each, keep, exists, mem-keep, exists-found, found_of_exists,
}
use nestjs_saas.Prisma.{Prisma}
use nestjs_saas.Courses.State.{Course, Db, is_course, cascade}
use nestjs_saas.Courses.Catalog.{delete_course}
use nestjs_saas.Courses.Calls.{
  Call, creates_course, updates_course, deletes_course, creates_lesson, updates_lesson,
  deletes_lesson, creates_enrollment, updates_enrollment, deletes_enrollment, caller, after_call_of,
  run,
}
use nestjs_saas.Exec.Keeps.{after_throw_if, after_modify, after_pure, after_gets}
use nestjs_saas.Courses.Calls.References.{IsSound, HasCourse}
use nestjs_saas.Courses.Calls.Apart.{
  SameRows, unchanged, deleted_apart, create_course-SameRows, create_lesson-SameRows,
  create_enrollment-SameRows, own_course, update_course-SameRows,
}
use nestjs_saas.Courses.Calls.Integrity.{call-IsSound}
use nestjs_saas.Courses.Calls.ById.{
  update_lesson-SameRows, update_enrollment-SameRows, delete_lesson-SameRows,
  delete_enrollment-SameRows,
}

module _ (prisma : Prisma) (other : String) where
  -- A course of the other tenant stays, and so do the rows that refer to it.
  stays :
      (t c i : String) (courses : List Course)
      → t ≢ other
      → HasCourse courses other i
      → exists (λ x. x.id == i) (keep (λ x. not (is_course t c x)) courses) ≡ true
  stays t c i courses apart h =
      let (x, m, met) = found_of_exists (is_course other i) courses h in
      exists-found (λ x. x.id == i) _ (ground (arith, met))
        (mem-keep (λ x. not (is_course t c x)) courses
          (ground (arith, met, eq_iff x.tenant_id t, eq_iff x.tenant_id other)) m)

  gone_with_course :
      (t c u i : String) (courses : List Course)
      → t ≢ other
      → HasCourse courses u i
      → not (exists (λ x. x.id == i) (prisma.delete_many (is_course t c) courses).1) ≡ true
      → (u == other) ≡ false
  gone_with_course t c u i courses apart h gone = elim (Bool-cases (u == other)) [
    | inr differs ↦ differs
    | inl same ↦
        let e : u ≡ other = ground (arith, eq_iff u other) in
        let there = stays t c i courses apart (subst (λ v. HasCourse courses v i) e h) in
        ground (arith, there, gone, prisma.delete_many_lem (is_course t c) courses)
  ]

  delete_course-SameRows :
      (t c : String) (db : Db)
      → t ≢ other
      → IsSound db
      → SameRows prisma other db (delete_course prisma t c db).1
  unfolding delete_course
  delete_course-SameRows t c db apart h =
      let P = SameRows prisma other db in
      let deleted_courses = (prisma.delete_many (is_course t c) db.courses).1 in
      let kept : SameRows prisma other db (cascade prisma deleted_courses db) = record {
        courses =
            deleted_apart prisma other _ _ db.courses
              (All-of_each (λ x met. own_course prisma other t c x apart met) db.courses);
        lessons = deleted_apart prisma other _ _ db.lessons (
            All-imp
              (λ l there gone.
                gone_with_course t c l.tenant_id l.course_id db.courses apart there gone)
              db.lessons h.lesson_courses);
        enrollments = deleted_apart prisma other _ _ db.enrollments (
            All-imp
              (λ l there gone.
                gone_with_course t c l.tenant_id l.course_id db.courses apart there gone)
              db.enrollments h.enrollment_courses);
      } in
      after_gets P _ _ db
        (after_modify P _ _ db (after_throw_if P _ _ _ _ kept (λ there. after_pure P _ _ kept)))

  pub call-SameRows :
      (call : Call) (db : Db)
      → caller call ≢ other
      → IsSound db
      → SameRows prisma other db (after_call_of prisma call db)
  unfolding after_call_of
  call-SameRows (creates_course p id now) db apart h =
      create_course-SameRows prisma other p id now db apart
  call-SameRows (updates_course t c title now) db apart h =
      update_course-SameRows prisma other t c title now db apart
  call-SameRows (deletes_course t c) db apart h = delete_course-SameRows t c db apart h
  call-SameRows (creates_lesson p id now) db apart h =
      create_lesson-SameRows prisma other p id now db apart
  call-SameRows (updates_lesson p now) db apart h =
      update_lesson-SameRows prisma other p now db apart h
  call-SameRows (deletes_lesson t c l) db apart h =
      delete_lesson-SameRows prisma other t c l db apart
  call-SameRows (creates_enrollment p id now) db apart h =
      create_enrollment-SameRows prisma other p id now db apart
  call-SameRows (updates_enrollment p now) db apart h =
      update_enrollment-SameRows prisma other p now db apart h
  call-SameRows (deletes_enrollment t e) db apart h =
      delete_enrollment-SameRows prisma other t e db apart

  -- Tenants are isolated: from a sound database, no sequence of calls by other tenants, whatever ids
  -- they name, adds, changes or removes a course, lesson or enrollment of this tenant.
  pub run-SameRows :
      (calls : List Call) (db : Db)
      → All (λ call. caller call ≢ other) calls
      → IsSound db
      → SameRows prisma other db (run prisma calls db)
  unfolding run
  run-SameRows [] db apart h = unchanged prisma other db
  run-SameRows (call ∷ calls) db apart h =
      let one = call-SameRows call db apart.0 h in
      let more =
        run-SameRows calls (after_call_of prisma call db) apart.1 (call-IsSound prisma call db h) in
      record {
        courses = more.courses ∙ one.courses;
        lessons = more.lessons ∙ one.lessons;
        enrollments = more.enrollments ∙ one.enrollments;
      }
