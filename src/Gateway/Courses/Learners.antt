-- ===== src/Gateway/Courses/Learners.antt =====
-- apps/api-gateway and apps/course-service together: what a learner can change.
use nestjs_saas.Prelude.{
  ℕ, String, Option, none, some, Bool, true, false, not, List, [], ◌≡◌, refl, sym, ap, subst, ◌∙◌,
  arith, ◌==◌, eq_iff, or_default, All, All-of_mem, Memᴰ, keep, Option-cases, inl, inr,
}
use nestjs_saas.Exec.{Result, ok, Action, lift, ◌>>◌}
use nestjs_saas.Exec.Keeps.{
  after_throw_if, after_modify, after_pure, after_or_throw, after_gets, after_lift,
}
use nestjs_saas.Prisma.{Prisma}
use nestjs_saas.Prisma.Keys.{Keyed, Keyed-unique}
use nestjs_saas.Common.Roles.{Role, learner}
use nestjs_saas.Courses.State.{Db as CoursesDb, Enrollment, same_enrollment, is_enrollment}
use nestjs_saas.Courses.Enrollments.{UpdateEnrollment, is_foreign, update_enrollment, progressed}
use nestjs_saas.Courses.Calls.{updates_enrollment, after_call_of}
use nestjs_saas.Courses.Calls.References.{IsSound}
use nestjs_saas.Courses.Calls.Integrity.{call-IsSound}
use nestjs_saas.Courses.Calls.Apart.{updated_apart}
use nestjs_saas.Courses.Dto.{Validator, update_enrollment_dto}
use nestjs_saas.Courses.Messages.{Message, gets_enrollment, lists_by_user, writes, handle_message}
use nestjs_saas.Courses.Messages.Effects.{effect, after_effect, handle_message-effect}
use nestjs_saas.Gateway.Guards.{
  JwtAccessPayload, AuthenticatedUser, Request, before_handler, allows, role_of_text,
}
use nestjs_saas.Gateway.Access.{before_handler-user}
use nestjs_saas.Gateway.Courses as Gateway
use nestjs_saas.Gateway.Endpoints.{
  Endpoint, list_courses, create_course, get_course, update_course, delete_course, list_lessons,
  create_lesson, get_lesson, update_lesson, delete_lesson, enroll_user_in_course,
  list_course_enrollments, list_my_enrollments, get_enrollment, patch_enrollment, unenroll_user,
  EnrollmentChanges, roles_of,
}
use nestjs_saas.Gateway.Courses.{
  World, Inputs, Deployment, call_courses, update_message, row_of, emit_inputs, route_of, handle,
  serve,
}
use nestjs_saas.Gateway.Courses.Effects.{
  Keeps, bind-Keeps, lift-Keeps, pure-Keeps, emit-Keeps, call_courses-Keeps,
}

module _ (prisma : Prisma) (user_id : String) (start : CoursesDb) where
  abbrev pub of_others : Enrollment → Bool
  of_others e = not (e.user_id == user_id)

  -- The tables differ from the start at most in enrollments of the user.
  pub record OwnOnly (db : CoursesDb) : Type 0 where
    pub courses : db.courses ≡ start.courses
    pub lessons : db.lessons ≡ start.lessons
    pub enrollments : keep of_others db.enrollments ≡ keep of_others start.enrollments

  -- The row with the id of an enrollment that the learner may change is that one, and the learner's.
  own_rows :
      (p : UpdateEnrollment) (now : ℕ) (e : Enrollment) (rows : List Enrollment)
      → Keyed same_enrollment rows
      → (is_enrollment p.tenant_id p.enrollment_id e ≡ true) × Memᴰ e rows
      → is_foreign e learner user_id ≡ false
      → All
          (λ x.
            (x.id == p.enrollment_id) ≡ true
            → (of_others x ≡ false) × (of_others (progressed prisma p now x) ≡ false))
          rows
  own_rows p now e rows keys (met, listed) own =
      let mine : of_others e ≡ false = ground (arith, own) in
      All-of_mem rows (λ x m same.
        let id : x.id ≡ e.id =
          ground (arith, same, met, eq_iff x.id p.enrollment_id, eq_iff e.id p.enrollment_id) in
        let one =
          Keyed-unique same_enrollment rows keys x e m listed (ground (arith, eq_iff e.id x.id))
            (ground (arith, eq_iff x.id e.id)) in
        subst (λ y. (of_others y ≡ false) × (of_others y ≡ false)) (sym one) (mine, mine))

  update-OwnOnly :
      (p : UpdateEnrollment) (now : ℕ) (db : CoursesDb)
      → p.acting_role ≡ learner
      → p.acting_user_id ≡ user_id
      → IsSound db
      → OwnOnly db
      → OwnOnly (update_enrollment prisma p now db).1
  unfolding update_enrollment
  update-OwnOnly p now db role actor sound h = after_throw_if OwnOnly _ _ _ db h (λ edits.
      after_gets OwnOnly _ _ db (
        after_or_throw OwnOnly _ _ _ db h (λ e found. after_throw_if OwnOnly _ _ _ db h (λ allowed.
          let own : is_foreign e learner user_id ≡ false =
            ap (λ r. is_foreign e r user_id) (sym role)
            ∙ ap (is_foreign e p.acting_role) (sym actor)
            ∙ allowed in
          after_modify OwnOnly _ _ db (
            after_pure OwnOnly _ _ (record {
              courses = h.courses;
              lessons = h.lessons;
              enrollments =
                  updated_apart prisma user_id of_others _ _ db.enrollments (
                    own_rows p now e db.enrollments sound.enrollment_keys
                      (prisma.find_first_sound _ _ e found) own)
                  ∙ h.enrollments;
            }))))))

  -- The same with the soundness that the next message needs.
  abbrev pub SoundOwn : CoursesDb → Type 0
  SoundOwn db = IsSound db × OwnOnly db

  update_message-SoundOwn :
      (v : Validator) (p : UpdateEnrollment) (now : ℕ) (db : CoursesDb)
      → p.acting_role ≡ learner
      → p.acting_user_id ≡ user_id
      → SoundOwn db
      → SoundOwn (handle_message prisma v (writes (updates_enrollment p now)) db).1
  unfolding update_enrollment_dto after_call_of
  update_message-SoundOwn v p now db role actor h =
      subst SoundOwn (sym (handle_message-effect prisma v (writes (updates_enrollment p now)) db))
        (elim (Option-cases (effect v (writes (updates_enrollment p now)))) [
          | inl nothing ↦ subst (λ o. SoundOwn (after_effect prisma o db)) (sym nothing) h
          | inr (call, is) ↦
              let same : call ≡ updates_enrollment p now = ground (arith, is) in
              subst (λ o. SoundOwn (after_effect prisma o db)) (sym (is ∙ ap some same))
                (
                  call-IsSound prisma (updates_enrollment p now) db h.0,
                  update-OwnOnly p now db role actor h.0 h.1,
                )
        ])

module _ (d : Deployment) where
  module _ (start : CoursesDb) (t : String) (user : AuthenticatedUser)
      (is_learner : user.role ≡ learner) where
    Kept : CoursesDb → Type 0
    Kept = SoundOwn d.prisma user.user_id start

    -- A message that only reads.
    read : (m : Message) → effect d.validator m ≡ none → Keeps d Kept (call_courses d m)
    read m reads = call_courses-Keeps d Kept m (λ db h.
        subst Kept
          (sym (
            handle_message-effect d.prisma d.validator m db
            ∙ ap (λ o. after_effect d.prisma o db) reads))
          h)

    checked :
        {A : Type 0} (r : Result (Unit {0})) (k : Action World A)
        → Keeps d Kept k
        → Keeps d Kept (lift r >> k)
    checked r k h = bind-Keeps d Kept (lift r) (λ _. k) (lift-Keeps d Kept r) (λ _. h)

    patch-Keeps :
        (e : String) (b : EnrollmentChanges) (i : Inputs)
        → Keeps d Kept (Gateway.update_enrollment d t e (some user) b i)
    unfolding Gateway.update_enrollment Kept
    patch-Keeps e b i =
        bind-Keeps d Kept _ _ (read (gets_enrollment t e user.role user.user_id) refl) λ before.
          bind-Keeps d Kept _ _
            (call_courses-Keeps d Kept (update_message d t e (some user) b i.written_at) (λ db h.
              update_message-SoundOwn d.prisma user.user_id start d.validator _ i.written_at db
                is_learner refl h))
            λ updated.
              bind-Keeps d Kept _ _
                (emit-Keeps d Kept (row_of d before) (row_of d updated)
                  (emit_inputs d i (or_default b.touch_access false) user.user_id))
                λ _. pure-Keeps d Kept updated

    handle-Keeps_own :
        (endpoint : Endpoint) (i : Inputs)
        → allows (roles_of endpoint) learner ≡ true
        → Keeps d Kept (handle d endpoint t (some user) i)
    unfolding handle
    handle-Keeps_own list_my_enrollments i e = read (lists_by_user t user.user_id) refl
    handle-Keeps_own (get_enrollment x) i e =
        checked _ _ (read (gets_enrollment t x user.role user.user_id) refl)
    handle-Keeps_own (patch_enrollment x b) i e = checked _ _ (checked _ _ (patch-Keeps x b i))
    handle-Keeps_own list_courses i e = cc e
    handle-Keeps_own (create_course title) i e = cc e
    handle-Keeps_own (get_course c) i e = cc e
    handle-Keeps_own (update_course c title) i e = cc e
    handle-Keeps_own (delete_course c) i e = cc e
    handle-Keeps_own (list_lessons c) i e = cc e
    handle-Keeps_own (create_lesson c b) i e = cc e
    handle-Keeps_own (get_lesson c l) i e = cc e
    handle-Keeps_own (update_lesson c l b) i e = cc e
    handle-Keeps_own (delete_lesson c l) i e = cc e
    handle-Keeps_own (enroll_user_in_course c u) i e = cc e
    handle-Keeps_own (list_course_enrollments c) i e = cc e
    handle-Keeps_own (unenroll_user x) i e = cc e

  role_of_learner :
      (text : String) (role : Role)
      → text ≡ "LEARNER"
      → role_of_text text ≡ some role
      → role ≡ learner
  role_of_learner text role e is =
      let same : some role ≡ some learner = sym is ∙ ap role_of_text e in ground (arith, same)

  some_roles : {A : Type 0} (endpoint : Endpoint) → roles_of endpoint ≡ [] → A
  some_roles endpoint none_listed = absurd (ground arith)

  -- Whom the guards let in with such a token.
  learner_user :
      (request : Request) (endpoint : Endpoint) (found : Option AuthenticatedUser)
      (tenant : Option String) (token : String) (payload : JwtAccessPayload) (user_id : String)
      → request.bearer ≡ some token
      → d.verify token ≡ some payload
      → payload.role ≡ some "LEARNER"
      → payload.user_id ≡ some user_id
      → before_handler d.verify (route_of d endpoint) request ≡ ok (found, tenant)
      → (user : AuthenticatedUser) × (found ≡ some user)
        × (user.role ≡ learner)
        × (user.user_id ≡ user_id)
        × (allows (roles_of endpoint) learner ≡ true)
  learner_user request endpoint found tenant token payload user_id has_token verified role uid e =
      let (user, token', payload', is_user, has_token', verified', seen, in_role, in_scope, same) =
        before_handler-user d.verify (route_of d endpoint) request found tenant refl e in
      let same_token : token' ≡ token = ground (arith, has_token, has_token') in
      let both : some payload' ≡ some payload = sym verified' ∙ ap d.verify same_token ∙ verified in
      let one : payload' ≡ payload = ground (arith, both) in
      let (text, has_role, is_role) = seen.role in
      let learner_text : some text ≡ some "LEARNER" =
        sym has_role ∙ ap (λ (p : JwtAccessPayload). p.role) one ∙ role in
      let is_learner = role_of_learner text user.role (ground (arith, learner_text)) is_role in
      let uid' : some user.user_id ≡ some user_id =
        sym seen.user_id ∙ ap (λ (p : JwtAccessPayload). p.user_id) one ∙ uid in
      (
        user,
        is_user,
        is_learner,
        ground (arith, uid'),
        elim in_role [
          | inl nothing ↦ some_roles endpoint nothing
          | inr allowed ↦ ap (allows (roles_of endpoint)) (sym is_learner) ∙ allowed
        ],
      )

  -- A request with a learner's token changes, in sound tables of the course service, no course and no
  -- lesson, and no enrollment but those of the user that the token names, whatever endpoint, ids and
  -- body it has.
  pub serve-OwnOnly :
      (request : Request) (endpoint : Endpoint) (inputs : Inputs) (w : World) (token : String)
      (payload : JwtAccessPayload) (user_id : String)
      → request.bearer ≡ some token
      → d.verify token ≡ some payload
      → payload.role ≡ some "LEARNER"
      → payload.user_id ≡ some user_id
      → IsSound w.courses
      → OwnOnly d.prisma user_id w.courses (serve d request endpoint inputs w).1.courses
  unfolding serve Kept
  serve-OwnOnly request endpoint inputs w token payload user_id has_token verified role uid sound =
      let P : World → Type 0 = λ v. OwnOnly d.prisma user_id w.courses v.courses in
      let start : P w = record { courses = refl; lessons = refl; enrollments = refl } in
      after_lift P _ _ w start λ passed is_passed. after_lift P _ _ w start λ t got.
        let (user, is_user, is_learner, uid', allowed) =
          learner_user request endpoint passed.0 passed.1 token payload user_id has_token verified
            role uid is_passed in
        let start' : SoundOwn d.prisma user.user_id w.courses w.courses =
          (sound, record { courses = refl; lessons = refl; enrollments = refl }) in
        let after =
          (handle-Keeps_own w.courses t user is_learner endpoint inputs allowed).kept w start' in
        subst (λ f. P (handle d endpoint t f inputs w).1) (sym is_user)
          (subst
            (λ i. OwnOnly d.prisma i w.courses (handle d endpoint t (some user) inputs w).1.courses)
            uid' after.1)
