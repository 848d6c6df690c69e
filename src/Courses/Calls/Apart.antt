-- ===== src/Courses/Calls/Apart.antt =====
-- apps/course-service: the rows of another tenant under the calls that create rows or write courses.
use nestjs_saas.Prelude.{
  ℕ, String, some, Bool, true, false, not, List, [], ◌∷◌, map, if◌then◌else◌, ◌≡◌, ◌≢◌, refl, ap,
  arith, Bool-cases, inl, inr, ◌==◌, eq_iff, All, All-of_each, keep,
}
use nestjs_saas.Prisma.{Prisma}
use nestjs_saas.Courses.State.{Course, Db, is_course}
use nestjs_saas.Courses.Catalog.{CreateCourse, create_course, retitled, update_course}
use nestjs_saas.Courses.Lessons.{CreateLesson, create_lesson}
use nestjs_saas.Courses.Enrollments.{CreateEnrollment, create_enrollment}
use nestjs_saas.Exec.Keeps.{
  after_throw_if, after_modify, after_pure, after_or_throw, after_gets, after_last_or_throw,
}
use nestjs_saas.Prisma.Rows.{created}

module _ (prisma : Prisma) (other : String) where
  -- What another tenant has.
  pub record SameRows (db db' : Db) : Type 0 where
    pub courses :
        keep (λ c. c.tenant_id == other) db'.courses ≡ keep (λ c. c.tenant_id == other) db.courses
    pub lessons :
        keep (λ l. l.tenant_id == other) db'.lessons ≡ keep (λ l. l.tenant_id == other) db.lessons
    pub enrollments :
        keep (λ e. e.tenant_id == other) db'.enrollments
        ≡ keep (λ e. e.tenant_id == other) db.enrollments

  pub unchanged : (db : Db) → SameRows db db
  unchanged db = record { courses = refl; lessons = refl; enrollments = refl }

  module _ {R : Type 0} (of_other : R → Bool) where
    created_apart :
        (clash : R → Bool) (r : R) (rows rows' : List R)
        → prisma.create clash r rows ≡ some rows'
        → of_other r ≡ false
        → keep of_other rows' ≡ keep of_other rows
    created_apart clash r rows rows' e apart =
        let (shape, clashes) = created prisma clash r rows e in
        ground (arith, ap (keep of_other) shape, apart)

    pub updated_apart :
        (test : R → Bool) (change : R → R) (rows : List R)
        → All (λ r. test r ≡ true → (of_other r ≡ false) × (of_other (change r) ≡ false)) rows
        → keep of_other (prisma.update_many test change rows).1 ≡ keep of_other rows
    updated_apart test change rows h = rw prisma.update_many_lem (go rows h)
      where
        go :
            (rows : List R)
            → All (λ r. test r ≡ true → (of_other r ≡ false) × (of_other (change r) ≡ false)) rows
            → keep of_other (map (λ r. if test r then change r else r) rows) ≡ keep of_other rows
        go [] h = refl
        go (r ∷ rows) h = elim (Bool-cases (test r)) [
          | inl t ↦ ground (arith, h.0 t, go rows h.1, t)
          | inr f ↦ ground (arith, go rows h.1, f)
        ]

    pub deleted_apart :
        (test : R → Bool) (rows : List R)
        → All (λ r. test r ≡ true → of_other r ≡ false) rows
        → keep of_other (prisma.delete_many test rows).1 ≡ keep of_other rows
    deleted_apart test rows h = rw prisma.delete_many_lem (go rows h)
      where
        go :
            (rows : List R)
            → All (λ r. test r ≡ true → of_other r ≡ false) rows
            → keep of_other (keep (λ r. not (test r)) rows) ≡ keep of_other rows
        go [] h = refl
        go (r ∷ rows) h = elim (Bool-cases (test r)) [
          | inl t ↦ ground (arith, h.0 t, go rows h.1, t)
          | inr f ↦ ground (arith, go rows h.1, f)
        ]

  pub not_other : (t : String) → t ≢ other → (t == other) ≡ false
  not_other t apart = ground (arith, eq_iff t other)

  pub create_course-SameRows :
      (payload : CreateCourse) (id : String) (now : ℕ) (db : Db)
      → payload.tenant_id ≢ other
      → SameRows db (create_course prisma payload id now db).1
  unfolding create_course
  create_course-SameRows payload id now db apart =
      let P = SameRows db in
      after_gets P _ _ db (
        after_throw_if P _ _ _ db (unchanged db) (λ below.
          after_or_throw P _ _ _ db (unchanged db) (λ courses e. after_modify P _ _ db (
            after_pure P _ _ (record {
              courses =
                  created_apart _ _ _ db.courses courses e (not_other payload.tenant_id apart);
              lessons = refl;
              enrollments = refl;
            })))))

  pub create_lesson-SameRows :
      (payload : CreateLesson) (id : String) (now : ℕ) (db : Db)
      → payload.tenant_id ≢ other
      → SameRows db (create_lesson prisma payload id now db).1
  unfolding create_lesson
  create_lesson-SameRows payload id now db apart =
      let P = SameRows db in
      after_gets P _ _ db (
        after_or_throw P _ _ _ db (unchanged db) (λ course found.
          after_or_throw P _ _ _ db (unchanged db) (λ lessons e. after_modify P _ _ db (
            after_pure P _ _ (record {
              courses = refl;
              lessons =
                  created_apart _ _ _ db.lessons lessons e (not_other payload.tenant_id apart);
              enrollments = refl;
            })))))

  pub create_enrollment-SameRows :
      (payload : CreateEnrollment) (id : String) (now : ℕ) (db : Db)
      → payload.tenant_id ≢ other
      → SameRows db (create_enrollment prisma payload id now db).1
  unfolding create_enrollment
  create_enrollment-SameRows payload id now db apart =
      let P = SameRows db in
      after_gets P _ _ db (
        after_or_throw P _ _ _ db (unchanged db) (λ course found.
          after_or_throw P _ _ _ db (unchanged db) (λ enrollments e. after_modify P _ _ db (
            after_pure P _ _ (record {
              courses = refl;
              lessons = refl;
              enrollments =
                  created_apart _ _ _ db.enrollments enrollments e
                    (not_other payload.tenant_id apart);
            })))))

  -- A row that a call finds by its tenant is not the other tenant's.
  pub own_course :
      (t i : String) (c : Course)
      → t ≢ other
      → is_course t i c ≡ true
      → (c.tenant_id == other) ≡ false
  own_course t i c apart met = ground (arith, eq_iff c.tenant_id t, eq_iff c.tenant_id other)

  pub update_course-SameRows :
      (t c title : String) (now : ℕ) (db : Db)
      → t ≢ other
      → SameRows db (update_course prisma t c title now db).1
  unfolding update_course
  update_course-SameRows t c title now db apart =
      let P = SameRows db in
      let kept : SameRows db (record db {
        courses = (prisma.update_many (is_course t c) (retitled prisma title now) db.courses).1;
      }) =
        record {
          courses = updated_apart _ _ _ db.courses (
              All-of_each (λ x met. (own_course t c x apart met, own_course t c x apart met))
                db.courses);
          lessons = refl;
          enrollments = refl;
        } in
      after_gets P _ _ db (
        after_modify P _ _ db
          (after_throw_if P _ _ _ _ kept (λ there. after_last_or_throw P _ _ _ kept)))
