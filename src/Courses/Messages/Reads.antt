-- ===== src/Courses/Messages/Reads.antt =====
-- apps/course-service: what each operation that writes leaves for the
-- operation that reads one row.
use nestjs_saas.Prelude.{
  ℕ, String, some, true, false, List, ◌≡◌, refl, sym, ap, subst, ◌∙◌, arith, ◌==◌, eq_iff, eq_refl,
  Memᴰ,
}
use nestjs_saas.Exec.{
  ok, err, ◌>>=◌, or_throw-eq-ok, throw_if-eq-ok, gets-eq, modify-eq, pure-eq-ok,
}
use nestjs_saas.Prisma.{Prisma}
use nestjs_saas.Prisma.Keys.{Keyed, find_first-Keyed}
use nestjs_saas.Prisma.Rows.{created, mem_updated, find_first-delete_many}
use nestjs_saas.Common.Roles.{Role, learner}
use nestjs_saas.Courses.State.{
  Course, Lesson, Enrollment, Db, same_course, same_lesson, same_enrollment, is_course, is_lesson,
  is_enrollment, Deleted, not_found,
}
use nestjs_saas.Courses.Catalog.{
  CreateCourse, CourseDetail, retitled, lesson_order, create_course, update_course, delete_course,
  get_course,
}
use nestjs_saas.Courses.Lessons.{
  CreateLesson, UpdateLesson, edited, create_lesson, update_lesson, delete_lesson, get_lesson,
}
use nestjs_saas.Courses.Enrollments.{
  EnrollmentView, CreateEnrollment, UpdateEnrollment, is_foreign, progressed, title_of, viewed,
  new_enrollment, create_enrollment, update_enrollment, delete_enrollment, get_enrollment,
}
use nestjs_saas.Courses.Calls.References.{IsSound}

module _ (prisma : Prisma) where
  -- Ids are unique.
  course_found :
      (t id : String) (rows : List Course) (r : Course)
      → Keyed same_course rows
      → Memᴰ r rows
      → is_course t id r ≡ true
      → prisma.find_first (is_course t id) rows ≡ some r
  course_found t id rows r keys listed met =
      find_first-Keyed same_course prisma (is_course t id) rows r keys listed met (λ x met'.
        ground
          (arith, met, met', eq_iff x.id id, eq_iff r.id id, eq_iff x.id r.id, eq_iff r.id x.id))

  lesson_found :
      (t c id : String) (rows : List Lesson) (r : Lesson)
      → Keyed same_lesson rows
      → Memᴰ r rows
      → is_lesson t c id r ≡ true
      → prisma.find_first (is_lesson t c id) rows ≡ some r
  lesson_found t c id rows r keys listed met =
      find_first-Keyed same_lesson prisma (is_lesson t c id) rows r keys listed met (λ x met'.
        ground
          (arith, met, met', eq_iff x.id id, eq_iff r.id id, eq_iff x.id r.id, eq_iff r.id x.id))

  enrollment_found :
      (t id : String) (rows : List Enrollment) (r : Enrollment)
      → Keyed same_enrollment rows
      → Memᴰ r rows
      → is_enrollment t id r ≡ true
      → prisma.find_first (is_enrollment t id) rows ≡ some r
  enrollment_found t id rows r keys listed met =
      find_first-Keyed same_enrollment prisma (is_enrollment t id) rows r keys listed met (λ x met'.
        ground
          (arith, met, met', eq_iff x.id id, eq_iff r.id id, eq_iff x.id r.id, eq_iff r.id x.id))

  get_lesson_found :
      (t c id : String) (db : Db) (r : Lesson)
      → IsSound db
      → Memᴰ r db.lessons
      → is_lesson t c id r ≡ true
      → get_lesson prisma t c id db ≡ (ok r, db)
  unfolding get_lesson ◌>>=◌
  get_lesson_found t c id db r sound listed met =
      ground (arith, lesson_found t c id db.lessons r sound.lesson_keys listed met)

  pub create_lesson-get_lesson :
      (p : CreateLesson) (id : String) (now : ℕ) (db db' : Db) (r : Lesson)
      → IsSound db'
      → create_lesson prisma p id now db ≡ (ok r, db')
      → get_lesson prisma p.tenant_id p.course_id id db' ≡ (ok r, db')
  unfolding create_lesson
  create_lesson-get_lesson p id now db db' r sound e =
      let (c, found, e1) = or_throw-eq-ok _ _ _ db (gets-eq _ _ db e) in
      let (rows, made, e2) = or_throw-eq-ok _ _ _ db e1 in
      let (is, left) = pure-eq-ok _ _ (modify-eq _ _ db e2) in
      let shape = (created prisma _ _ db.lessons made).0 in
      let listed : Memᴰ r db'.lessons =
        subst (Memᴰ r) (sym shape ∙ ap (λ d. d.lessons) left) (Memᴰ.head (sym is)) in
      get_lesson_found p.tenant_id p.course_id id db' r sound listed (
        subst (λ l. is_lesson p.tenant_id p.course_id id l ≡ true) is
          (ground (arith, eq_refl p.tenant_id, eq_refl p.course_id, eq_refl id)))

  pub update_lesson-get_lesson :
      (p : UpdateLesson) (now : ℕ) (db db' : Db) (r : Lesson)
      → IsSound db'
      → update_lesson prisma p now db ≡ (ok r, db')
      → get_lesson prisma p.tenant_id p.course_id p.lesson_id db' ≡ (ok r, db')
  unfolding update_lesson
  update_lesson-get_lesson p now db db' r sound e =
      let test = is_lesson p.tenant_id p.course_id p.lesson_id in
      let (old, found, e1) = or_throw-eq-ok _ _ _ db (gets-eq _ _ db e) in
      let (edits, e2) = throw_if-eq-ok _ _ _ db e1 in
      let (is, left) = pure-eq-ok _ _ (modify-eq _ _ db e2) in
      let (met, listed) = prisma.find_first_sound test db.lessons old found in
      let there =
        mem_updated prisma (λ l. l.id == p.lesson_id) (edited prisma p now) db.lessons old listed
          (ground (arith, met)) in
      get_lesson_found p.tenant_id p.course_id p.lesson_id db' r sound
        (subst (λ l. Memᴰ l db'.lessons) is (subst (Memᴰ _) (ap (λ d. d.lessons) left) there))
        (subst (λ l. test l ≡ true) is met)

  pub delete_lesson-get_lesson :
      (t c id : String) (db db' : Db) (r : Deleted)
      → delete_lesson prisma t c id db ≡ (ok r, db')
      → get_lesson prisma t c id db' ≡ (err (not_found "Lesson not found"), db')
  unfolding delete_lesson get_lesson ◌>>=◌
  delete_lesson-get_lesson t c id db db' r e =
      ground (arith, e, find_first-delete_many prisma (is_lesson t c id) db.lessons)

  get_course_found :
      (t id : String) (db : Db) (r : Course)
      → prisma.find_first (is_course t id) db.courses ≡ some r
      → (d : CourseDetail) × (get_course prisma t id db ≡ (ok d, db)) × (r ≡ d.course)
  unfolding get_course ◌>>=◌
  get_course_found t id db r found =
      let d : CourseDetail = record {
        course = r;
        lessons = prisma.find_many (λ l. l.course_id == r.id) (lesson_order prisma) db.lessons;
      } in
      (d, ground (arith, found), refl)

  pub create_course-get_course :
      (p : CreateCourse) (id : String) (now : ℕ) (db db' : Db) (r : Course)
      → IsSound db'
      → create_course prisma p id now db ≡ (ok r, db')
      → (d : CourseDetail) × (get_course prisma p.tenant_id id db' ≡ (ok d, db')) × (r ≡ d.course)
  unfolding create_course
  create_course-get_course p id now db db' r sound e =
      let (below, e1) = throw_if-eq-ok _ _ _ db (gets-eq _ _ db e) in
      let (rows, made, e2) = or_throw-eq-ok _ _ _ db e1 in
      let (is, left) = pure-eq-ok _ _ (modify-eq _ _ db e2) in
      let shape = (created prisma _ _ db.courses made).0 in
      let listed : Memᴰ r db'.courses =
        subst (Memᴰ r) (sym shape ∙ ap (λ d. d.courses) left) (Memᴰ.head (sym is)) in
      get_course_found p.tenant_id id db' r (
        course_found p.tenant_id id db'.courses r sound.course_keys listed (
          subst (λ c. is_course p.tenant_id id c ≡ true) is
            (ground (arith, eq_refl p.tenant_id, eq_refl id))))

  pub update_course-get_course :
      (t id title : String) (now : ℕ) (db db' : Db) (r : Course)
      → update_course prisma t id title now db ≡ (ok r, db')
      → (d : CourseDetail) × (get_course prisma t id db' ≡ (ok d, db')) × (r ≡ d.course)
  unfolding update_course ◌>>=◌
  update_course-get_course t id title now db db' r e =
      let rows = (prisma.update_many (is_course t id) (retitled prisma title now) db.courses).1 in
      let left : record db { courses = rows } ≡ db' = ground (arith, e) in
      let found : prisma.find_first (is_course t id) rows ≡ some r = ground (arith, e) in
      get_course_found t id db' r
        (ap (λ d. prisma.find_first (is_course t id) d.courses) (sym left) ∙ found)

  pub delete_course-get_course :
      (t id : String) (db db' : Db) (r : Deleted)
      → delete_course prisma t id db ≡ (ok r, db')
      → get_course prisma t id db' ≡ (err (not_found "Course not found"), db')
  unfolding delete_course get_course ◌>>=◌
  delete_course-get_course t id db db' r e =
      ground (arith, e, find_first-delete_many prisma (is_course t id) db.courses)

  get_enrollment_found :
      (t id : String) (role : Role) (user_id : String) (db : Db) (r : Enrollment)
      → IsSound db
      → Memᴰ r db.enrollments
      → is_enrollment t id r ≡ true
      → is_foreign r role user_id ≡ false
      → get_enrollment prisma t id role user_id db ≡ (ok (viewed prisma db r), db)
  unfolding get_enrollment ◌>>=◌
  get_enrollment_found t id role user_id db r sound listed met own =
      ground (arith, own, enrollment_found t id db.enrollments r sound.enrollment_keys listed met)

  title_found :
      (t id : String) (db : Db) (c : Course)
      → IsSound db
      → prisma.find_first (is_course t id) db.courses ≡ some c
      → title_of prisma db id ≡ some c.title
  title_found t id db c sound found =
      let (met, listed) = prisma.find_first_sound (is_course t id) db.courses c found in
      let same =
        find_first-Keyed same_course prisma (λ x. x.id == id) db.courses c sound.course_keys listed
          (ground (arith, met))
          (λ x met'. ground (
            arith,
            met,
            met',
            eq_iff x.id id,
            eq_iff c.id id,
            eq_iff x.id c.id,
            eq_iff c.id x.id,
          )) in
      ground (arith, same)

  pub create_enrollment-get_enrollment :
      (p : CreateEnrollment) (id : String) (now : ℕ) (db db' : Db) (r : EnrollmentView)
      → IsSound db'
      → create_enrollment prisma p id now db ≡ (ok r, db')
      → get_enrollment prisma p.tenant_id id learner p.user_id db' ≡ (ok r, db')
  unfolding create_enrollment
  create_enrollment-get_enrollment p id now db db' r sound e =
      let new = new_enrollment prisma p id now in
      let (c, found, e1) = or_throw-eq-ok _ _ _ db (gets-eq _ _ db e) in
      let (rows, made, e2) = or_throw-eq-ok _ _ _ db e1 in
      let (is, left) = pure-eq-ok _ _ (modify-eq _ _ db e2) in
      let shape = (created prisma _ _ db.enrollments made).0 in
      let listed : Memᴰ new db'.enrollments =
        subst (Memᴰ new) (sym shape ∙ ap (λ d. d.enrollments) left) (Memᴰ.head refl) in
      let title = title_found p.tenant_id p.course_id db' c sound (
        ap (λ d. prisma.find_first (is_course p.tenant_id p.course_id) d.courses) (sym left)
        ∙ found) in
      get_enrollment_found p.tenant_id id learner p.user_id db' new sound listed
        (ground (arith, eq_refl p.tenant_id, eq_refl id)) (ground (arith, eq_refl p.user_id))
      ∙ ap (λ t. (ok (record { enrollment = new; course_title = t }), db')) title
      ∙ ap (λ v. (ok v, db')) is

  pub update_enrollment-get_enrollment :
      (p : UpdateEnrollment) (now : ℕ) (db db' : Db) (r : EnrollmentView)
      → IsSound db'
      → update_enrollment prisma p now db ≡ (ok r, db')
      → get_enrollment prisma p.tenant_id p.enrollment_id p.acting_role p.acting_user_id db'
        ≡ (ok r, db')
  unfolding update_enrollment
  update_enrollment-get_enrollment p now db db' r sound e =
      let test = is_enrollment p.tenant_id p.enrollment_id in
      let (edits, e1) = throw_if-eq-ok _ _ _ db e in
      let (old, found, e2) = or_throw-eq-ok _ _ _ db (gets-eq _ _ db e1) in
      let (own, e3) = throw_if-eq-ok _ _ _ db e2 in
      let (is, left) = pure-eq-ok _ _ (modify-eq _ _ db e3) in
      let (met, listed) = prisma.find_first_sound test db.enrollments old found in
      let there =
        mem_updated prisma (λ x. x.id == p.enrollment_id) (progressed prisma p now) db.enrollments
          old listed (ground (arith, met)) in
      get_enrollment_found p.tenant_id p.enrollment_id p.acting_role p.acting_user_id db'
        (progressed prisma p now old) sound (subst (Memᴰ _) (ap (λ d. d.enrollments) left) there)
        met own
      ∙ ap (λ d. (ok (viewed prisma d (progressed prisma p now old)), db')) (sym left)
      ∙ ap (λ v. (ok v, db')) is

  pub delete_enrollment-get_enrollment :
      (t id : String) (db db' : Db) (r : Deleted) (role : Role) (user_id : String)
      → delete_enrollment prisma t id db ≡ (ok r, db')
      → get_enrollment prisma t id role user_id db' ≡ (err (not_found "Enrollment not found"), db')
  unfolding delete_enrollment get_enrollment ◌>>=◌
  delete_enrollment-get_enrollment t id db db' r role user_id e =
      ground (arith, e, find_first-delete_many prisma (is_enrollment t id) db.enrollments)
