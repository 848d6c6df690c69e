-- ===== src/Courses/Calls/Limits.antt =====
-- apps/course-service/src/course-service.service.ts: the limit that a tier puts on courses.
use nestjs_saas.Prelude.{
  ℕ, ◌≤◌, ◌<◌, String, some, Bool, false, not, List, [], ◌∷◌, map, leb, if◌then◌else◌, ◌≡◌, refl,
  sym, subst, arith, Bool-cases, inl, inr, ◌==◌, eq_iff, lt_of_leb, All, length, keep,
}
use nestjs_saas.Prisma.{Prisma}
use nestjs_saas.Common.Tiers.{max_courses_for_subscription_tier}
use nestjs_saas.Courses.State.{Course, Db, is_course, cascade}
use nestjs_saas.Courses.Catalog.{
  CreateCourse, new_course, at_limit, create_course, retitled, update_course, delete_course,
}
use nestjs_saas.Courses.Lessons.{create_lesson, update_lesson, delete_lesson}
use nestjs_saas.Courses.Enrollments.{create_enrollment, update_enrollment, delete_enrollment}
use nestjs_saas.Courses.Calls.{
  Call, creates_course, updates_course, deletes_course, creates_lesson, updates_lesson,
  deletes_lesson, creates_enrollment, updates_enrollment, deletes_enrollment, after_call_of, run,
}
use nestjs_saas.Exec.Keeps.{
  after_throw_if, after_modify, after_pure, after_or_throw, after_gets, after_last_or_throw,
}
use nestjs_saas.Prisma.Rows.{created}

-- A tenant's courses, counted.
abbrev pub course_count : String → Db → ℕ
course_count tenant_id db = length (keep (λ c. c.tenant_id == tenant_id) db.courses)

-- The calls that create a course for the tenant carry a tier with a limit of `most` at most.
abbrev pub CarriesLimit : String → ℕ → Call → Type 0
CarriesLimit t most (creates_course payload id now) =
    payload.tenant_id ≡ t
    → (limit : ℕ) × (max_courses_for_subscription_tier payload.subscription_tier ≡ some limit)
      × (limit ≤ most)
CarriesLimit t most _ = Unit

length-keep-map :
    (t : String) (test : Course → Bool) (change : Course → Course)
    → ((c : Course) → (change c).tenant_id ≡ c.tenant_id)
    → (rows : List Course)
    → length (keep (λ c. c.tenant_id == t) (map (λ c. if test c then change c else c) rows))
      ≡ length (keep (λ c. c.tenant_id == t) rows)
length-keep-map t test change same [] = refl
length-keep-map t test change same (c ∷ rows) =
    ground (arith, same c, length-keep-map t test change same rows)

length-keep-keep :
    (p q : Course → Bool) (rows : List Course)
    → length (keep p (keep q rows)) ≤ length (keep p rows)
length-keep-keep p q [] = omega arith
length-keep-keep p q (c ∷ rows) = ground (arith, length-keep-keep p q rows)

module _ (prisma : Prisma) (t : String) (most : ℕ) where
  abbrev Within : Db → Type 0
  Within db = course_count t db ≤ most

  one_more :
      (payload : CreateCourse) (id : String) (now : ℕ) (db : Db)
      → at_limit prisma payload (max_courses_for_subscription_tier payload.subscription_tier) db
        ≡ false
      → CarriesLimit t most (creates_course payload id now)
      → Within db
      → length (keep (λ c. c.tenant_id == t) (new_course prisma payload id now ∷ db.courses)) ≤ most
  one_more payload id now db below carries h = elim (Bool-cases (payload.tenant_id == t)) [
    | inr other ↦ ground (arith, h, other)
    | inl own ↦
        let same : payload.tenant_id ≡ t = ground (arith, own, eq_iff payload.tenant_id t) in
        let (limit, tier, least) = carries same in
        let counted = prisma.count_lem (λ c. c.tenant_id == t) db.courses in
        let room : course_count t db < limit = lt_of_leb limit (course_count t db) (
          subst (λ n. leb limit n ≡ false) counted
            (subst (λ u. leb limit (prisma.count (λ c. c.tenant_id == u) db.courses) ≡ false) same
              (subst (λ o. at_limit prisma payload o db ≡ false) tier below))) in
        ground (arith, own, room, least)
  ]

  create_course-Within :
      (payload : CreateCourse) (id : String) (now : ℕ) (db : Db)
      → CarriesLimit t most (creates_course payload id now)
      → Within db
      → Within (create_course prisma payload id now db).1
  unfolding create_course
  create_course-Within payload id now db carries h = after_gets Within _ _ db (
      after_throw_if Within _ _ _ db h (λ below. after_or_throw Within _ _ _ db h (λ courses e.
        let (shape, apart) = created prisma _ (new_course prisma payload id now) db.courses e in
        after_modify Within _ _ db (
          after_pure Within _ _ (
            subst (λ rows. length (keep (λ c. c.tenant_id == t) rows) ≤ most) (sym shape)
              (one_more payload id now db below carries h))))))

  update_course-Within :
      (tenant_id course_id title : String) (now : ℕ) (db : Db)
      → Within db
      → Within (update_course prisma tenant_id course_id title now db).1
  unfolding update_course
  update_course-Within tenant_id course_id title now db h =
      let same =
        length-keep-map t (is_course tenant_id course_id) (retitled prisma title now) (λ c. refl)
          db.courses in
      let kept : Within (record db {
        courses =
            (prisma.update_many (is_course tenant_id course_id) (retitled prisma title now)
              db.courses).1;
      }) =
        rw prisma.update_many_lem (ground (arith, same, h)) in
      after_gets Within _ _ db (
        after_modify Within _ _ db
          (after_throw_if Within _ _ _ _ kept (λ there. after_last_or_throw Within _ _ _ kept)))

  delete_course-Within :
      (tenant_id course_id : String) (db : Db)
      → Within db
      → Within (delete_course prisma tenant_id course_id db).1
  unfolding delete_course
  delete_course-Within tenant_id course_id db h =
      let fewer =
        length-keep-keep (λ c. c.tenant_id == t) (λ c. not (is_course tenant_id course_id c))
          db.courses in
      let kept : Within
          (cascade prisma (prisma.delete_many (is_course tenant_id course_id) db.courses).1 db) =
        ground
          (arith, fewer, h, prisma.delete_many_lem (is_course tenant_id course_id) db.courses) in
      after_gets Within _ _ db (
        after_modify Within _ _ db
          (after_throw_if Within _ _ _ _ kept (λ there. after_pure Within _ _ kept)))

  call-Within :
      (call : Call) (db : Db)
      → CarriesLimit t most call
      → Within db
      → Within (after_call_of prisma call db)
  unfolding after_call_of create_lesson update_lesson delete_lesson create_enrollment
      update_enrollment delete_enrollment
  call-Within (creates_course p id now) db carries h = create_course-Within p id now db carries h
  call-Within (updates_course u c title now) db carries h = update_course-Within u c title now db h
  call-Within (deletes_course u c) db carries h = delete_course-Within u c db h
  call-Within (creates_lesson p id now) db carries h = after_gets Within _ _ db (
      after_or_throw Within _ _ _ db h (λ c e.
        after_or_throw Within _ _ _ db h
          (λ rows e. after_modify Within _ _ db (after_pure Within _ _ h))))
  call-Within (updates_lesson p now) db carries h = after_gets Within _ _ db (
      after_or_throw Within _ _ _ db h (λ l e.
        after_throw_if Within _ _ _ db h
          (λ edits. after_modify Within _ _ db (after_pure Within _ _ h))))
  call-Within (deletes_lesson u c l) db carries h = after_gets Within _ _ db (
      after_modify Within _ _ db
        (after_throw_if Within _ _ _ _ h (λ there. after_pure Within _ _ h)))
  call-Within (creates_enrollment p id now) db carries h = after_gets Within _ _ db (
      after_or_throw Within _ _ _ db h (λ c e.
        after_or_throw Within _ _ _ db h
          (λ rows e. after_modify Within _ _ db (after_pure Within _ _ h))))
  call-Within (updates_enrollment p now) db carries h = after_throw_if Within _ _ _ db h (λ edits.
      after_gets Within _ _ db (
        after_or_throw Within _ _ _ db h (λ l e.
          after_throw_if Within _ _ _ db h
            (λ own. after_modify Within _ _ db (after_pure Within _ _ h)))))
  call-Within (deletes_enrollment u e) db carries h = after_gets Within _ _ db (
      after_modify Within _ _ db
        (after_throw_if Within _ _ _ _ h (λ there. after_pure Within _ _ h)))

  -- A tenant that has no more courses than a number never gets more, through any sequence of calls
  -- by anyone in which each course created for it is created on a tier that is limited to that
  -- number or less.
  pub run-course_count :
      (calls : List Call) (db : Db)
      → All (CarriesLimit t most) calls
      → course_count t db ≤ most
      → course_count t (run prisma calls db) ≤ most
  unfolding run
  run-course_count [] db carries h = h
  run-course_count (call ∷ calls) db carries h =
      run-course_count calls (after_call_of prisma call db) carries.1
        (call-Within call db carries.0 h)
