-- ===== src/Courses/Calls/References.antt =====
-- apps/course-service: sound references between the tables, under the calls that write courses.
use nestjs_saas.Prelude.{
  ℕ, String, Bool, true, not, List, [], ◌∷◌, map, Memᴰ, if◌then◌else◌, ◌≡◌, sym, subst, arith, ◌==◌,
  eq_iff, All, All-imp, keep, exists, All-keep_imp, mem_of_keep, exists-found, found_of_exists,
}
use nestjs_saas.Prisma.{Prisma}
use nestjs_saas.Courses.State.{
  Course, Db, same_course, same_lesson, same_enrollment, is_course, cascade,
}
use nestjs_saas.Courses.Catalog.{
  CreateCourse, new_course, create_course, retitled, update_course, delete_course,
}
use nestjs_saas.Prisma.Keys.{Keyed, Keyed-keep, Keyed-unique, Keyed-create, Keyed-update_many}
use nestjs_saas.Exec.Keeps.{
  after_throw_if, after_modify, after_pure, after_or_throw, after_gets, after_last_or_throw,
}
use nestjs_saas.Prisma.Rows.{created}

-- The unique keys, and for each lesson and enrollment a course of its own tenant.
pub record IsSound (db : Db) : Type 0 where
  pub course_keys : Keyed same_course db.courses
  pub lesson_keys : Keyed same_lesson db.lessons
  pub enrollment_keys : Keyed same_enrollment db.enrollments
  pub lesson_courses :
      All (λ l. exists (is_course l.tenant_id l.course_id) db.courses ≡ true) db.lessons
  pub enrollment_courses :
      All (λ e. exists (is_course e.tenant_id e.course_id) db.courses ≡ true) db.enrollments

-- Is there a course of that tenant?
abbrev pub HasCourse : List Course → String → String → Type 0
HasCourse courses tenant_id course_id = exists (is_course tenant_id course_id) courses ≡ true

module _ (prisma : Prisma) where
  -- A course more changes no reference.
  still_there :
      (c : Course) (courses : List Course) (t i : String)
      → HasCourse courses t i
      → HasCourse (c ∷ courses) t i
  still_there c courses t i h = ground (arith, h)

  -- Nor does a new title.
  retitled-HasCourse :
      (tenant_id course_id title : String) (now : ℕ) (courses : List Course) (t i : String)
      → HasCourse courses t i
      → HasCourse
          (prisma.update_many (is_course tenant_id course_id) (retitled prisma title now) courses).1
          t
          i
  retitled-HasCourse tenant_id course_id title now courses t i h =
      rw prisma.update_many_lem (go courses h)
    where
      go :
          (rows : List Course)
          → HasCourse rows t i
          → HasCourse
              (map
                (λ c. if is_course tenant_id course_id c then retitled prisma title now c else c)
                rows)
              t
              i
      go [] h = h
      go (c ∷ rows) h = ground (arith, h, go rows)

  pub same_course_unique :
      (courses : List Course)
      → Keyed same_course courses
      → (a b : Course) → Memᴰ a courses
      → Memᴰ b courses
      → a.id ≡ b.id
      → a ≡ b
  same_course_unique courses h a b m n e =
      Keyed-unique same_course courses h a b m n (ground (arith, eq_iff b.id a.id))
        (ground (arith, eq_iff a.id b.id))

  -- A reference into the courses that stay, whose course was the tenant's own.
  pub kept-HasCourse :
      (test : Course → Bool) (courses : List Course) (t i : String)
      → Keyed same_course courses
      → exists (λ c. c.id == i) (keep test courses) ≡ true
      → HasCourse courses t i
      → HasCourse (keep test courses) t i
  kept-HasCourse test courses t i keys stays h =
      let (c, m, p) = found_of_exists (λ c. c.id == i) (keep test courses) stays in
      let (d, n, q) = found_of_exists (is_course t i) courses h in
      let same =
        same_course_unique courses keys c d (mem_of_keep test courses m) n
          (ground (arith, eq_iff c.id i, eq_iff d.id i)) in
      exists-found (is_course t i) (keep test courses)
        (subst (λ x. is_course t i x ≡ true) (sym same) q) m

  pub create_course-IsSound :
      (payload : CreateCourse) (id : String) (now : ℕ) (db : Db)
      → IsSound db
      → IsSound (create_course prisma payload id now db).1
  unfolding create_course
  create_course-IsSound payload id now db h = after_gets IsSound _ _ db (
      after_throw_if IsSound _ _ _ db h (λ below. after_or_throw IsSound _ _ _ db h (λ courses e.
        let (shape, apart) = created prisma _ (new_course prisma payload id now) db.courses e in
        after_modify IsSound _ _ db (
          after_pure IsSound _ _ (record {
            course_keys = Keyed-create same_course prisma _ _ courses e h.course_keys;
            lesson_keys = h.lesson_keys;
            enrollment_keys = h.enrollment_keys;
            lesson_courses = rw shape (
                All-imp
                  (λ l.
                    still_there (new_course prisma payload id now) db.courses l.tenant_id
                      l.course_id)
                  db.lessons h.lesson_courses);
            enrollment_courses = rw shape (
                All-imp
                  (λ x.
                    still_there (new_course prisma payload id now) db.courses x.tenant_id
                      x.course_id)
                  db.enrollments h.enrollment_courses);
          })))))

  pub update_course-IsSound :
      (tenant_id course_id title : String) (now : ℕ) (db : Db)
      → IsSound db
      → IsSound (update_course prisma tenant_id course_id title now db).1
  unfolding update_course
  update_course-IsSound tenant_id course_id title now db h =
      let change = retitled prisma title now in
      let sound : IsSound (record db {
        courses = (prisma.update_many (is_course tenant_id course_id) change db.courses).1;
      }) =
        record {
          course_keys =
              Keyed-update_many same_course prisma _ change (λ r x. ground arith) db.courses
                h.course_keys;
          lesson_keys = h.lesson_keys;
          enrollment_keys = h.enrollment_keys;
          lesson_courses =
              All-imp
                (λ l.
                  retitled-HasCourse tenant_id course_id title now db.courses l.tenant_id
                    l.course_id)
                db.lessons h.lesson_courses;
          enrollment_courses =
              All-imp
                (λ e.
                  retitled-HasCourse tenant_id course_id title now db.courses e.tenant_id
                    e.course_id)
                db.enrollments h.enrollment_courses;
        } in
      after_gets IsSound _ _ db (
        after_modify IsSound _ _ db
          (after_throw_if IsSound _ _ _ _ sound (λ there. after_last_or_throw IsSound _ _ _ sound)))

  -- What the database keeps of the rows that refer to courses.
  cascade-IsSound :
      (test : Course → Bool) (db : Db)
      → IsSound db
      → IsSound (cascade prisma (prisma.delete_many test db.courses).1 db)
  cascade-IsSound test db h =
      let stays = keep (λ c. not (test c)) db.courses in
      rw (prisma.delete_many_lem, prisma.delete_many_lem, prisma.delete_many_lem)
        (record {
          course_keys = Keyed-keep same_course _ db.courses h.course_keys;
          lesson_keys = Keyed-keep same_lesson _ db.lessons h.lesson_keys;
          enrollment_keys = Keyed-keep same_enrollment _ db.enrollments h.enrollment_keys;
          lesson_courses =
              All-keep_imp _
                (λ l there.
                  kept-HasCourse _ db.courses l.tenant_id l.course_id h.course_keys
                    (ground (arith, there)))
                db.lessons h.lesson_courses;
          enrollment_courses =
              All-keep_imp _
                (λ e there.
                  kept-HasCourse _ db.courses e.tenant_id e.course_id h.course_keys
                    (ground (arith, there)))
                db.enrollments h.enrollment_courses;
        })

  pub delete_course-IsSound :
      (tenant_id course_id : String) (db : Db)
      → IsSound db
      → IsSound (delete_course prisma tenant_id course_id db).1
  unfolding delete_course
  delete_course-IsSound tenant_id course_id db h =
      let sound = cascade-IsSound (is_course tenant_id course_id) db h in
      after_gets IsSound _ _ db (
        after_modify IsSound _ _ db
          (after_throw_if IsSound _ _ _ _ sound (λ there. after_pure IsSound _ _ sound)))
