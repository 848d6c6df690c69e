-- ===== src/Gateway/Courses/Effects.antt =====
-- apps/api-gateway/src/courses: a handler reaches the tables of the course service only by messages
-- that name the tenant of the request.
use nestjs_saas.Prelude.{
  ℕ, String, Option, none, some, ◌≡◌, refl, false, or_default, sym, subst, arith,
}
use nestjs_saas.Exec.{Result, ok, err, Action, lift, pure, modify, ◌>>=◌, ◌>>◌}
use nestjs_saas.Exec.Keeps.{after_call}
use nestjs_saas.Common.Seats.{reason_text, create_enrollment as for_enrollment}
use nestjs_saas.Auth.Seats.{assert_seat_available}
use nestjs_saas.Auth.Controller.{run_safely}
use nestjs_saas.Courses.State.{Db as CoursesDb, Enrollment}
use nestjs_saas.Courses.Messages.{Message, gets_enrollment, handle_message}
use nestjs_saas.Courses.Messages.Effects.{sender}
use nestjs_saas.Gateway.Guards.{AuthenticatedUser}
use nestjs_saas.Gateway.Rpc.{Transport, tcp_call}
use nestjs_saas.Gateway.Events.{EmitInputs}
use nestjs_saas.Gateway.Endpoints.{
  Endpoint, list_courses, create_course, get_course, update_course, delete_course, list_lessons,
  create_lesson, get_lesson, update_lesson, delete_lesson, enroll_user_in_course,
  list_course_enrollments, list_my_enrollments, get_enrollment, patch_enrollment, unenroll_user,
  EnrollmentChanges, role_of, user_id_of,
}
use nestjs_saas.Gateway.Courses.{
  World, Inputs, Deployment, call_courses, assert_seat, emit, update_enrollment, row_of,
  emit_inputs, update_message, handle, on_courses, on_auth,
}

tcp_call-state :
    {S A : Type 0} (transport : Transport) (op : Action S A) (s : S)
    → (tcp_call transport op s).1 ≡ (op s).1
unfolding tcp_call
tcp_call-state {A} transport op s = go (op s).0 refl
  where
    go : (r : Result A) → (op s).0 ≡ r → (tcp_call transport op s).1 ≡ (op s).1
    go (ok a) e = ground (arith, e)
    go (err x) e = ground (arith, e)

module _ (d : Deployment) where
  pub call_courses-state :
      (m : Message) (w : World)
      → (call_courses d m w).1
        ≡ record w { courses = (handle_message d.prisma d.validator m w.courses).1 }
  unfolding call_courses
  call_courses-state m w =
      tcp_call-state d.transport (on_courses d (handle_message d.prisma d.validator m)) w

  pub emit-courses :
      (before after : Option Enrollment) (inputs : EmitInputs) (w : World)
      → (emit d before after inputs w).courses ≡ w.courses
  unfolding emit
  emit-courses none after inputs w = refl
  emit-courses (some b) none inputs w = refl
  emit-courses (some b) (some a) inputs w = refl

  -- An action that keeps a property of the course service's tables.
  pub record Keeps (Q : CoursesDb → Type 0) {A : Type 0} (m : Action World A) : Type 0 where
    pub kept : (w : World) → Q w.courses → Q (m w).1.courses

  module _ (Q : CoursesDb → Type 0) where
    pub bind-Keeps :
        {A B : Type 0} (m : Action World A) (f : A → Action World B)
        → Keeps Q m
        → ((a : A) → Keeps Q (f a))
        → Keeps Q (m >>= f)
    bind-Keeps m f k ks = record {
      kept = λ w h.
          after_call (λ v. Q v.courses) m f w (k.kept w h)
            (λ a e. (ks a).kept (m w).1 (k.kept w h));
    }

    pub lift-Keeps : {A : Type 0} (r : Result A) → Keeps Q (lift r)
    unfolding lift
    lift-Keeps r = record { kept = λ w h. h }

    pub pure-Keeps : {A : Type 0} (a : A) → Keeps Q (pure a)
    unfolding pure
    pure-Keeps a = record { kept = λ w h. h }

    pub emit-Keeps :
        (before after : Option Enrollment) (inputs : EmitInputs)
        → Keeps Q (modify (emit d before after inputs))
    unfolding modify
    emit-Keeps before after inputs = record {
      kept = λ w h. subst Q (sym (emit-courses before after inputs w)) h;
    }

    pub assert_seat-Keeps : (t : String) (now : ℕ) → Keeps Q (assert_seat d t now)
    unfolding assert_seat
    assert_seat-Keeps t now = record {
      kept = λ w h.
          subst (λ v. Q v.courses)
            (sym (
              tcp_call-state d.transport
                (on_auth d (
                  run_safely (
                    assert_seat_available d.prisma d.env (some t)
                      (some (reason_text for_enrollment)) now)))
                w))
            h;
    }

    pub call_courses-Keeps :
        (m : Message)
        → ((db : CoursesDb) → Q db → Q (handle_message d.prisma d.validator m db).1)
        → Keeps Q (call_courses d m)
    call_courses-Keeps m keeps = record {
      kept = λ w h. subst (λ v. Q v.courses) (sym (call_courses-state m w)) (keeps w.courses h);
    }

  -- A property of the tables that the messages of a tenant keep is kept by the handlers that run for
  -- the tenant.
  module _ (Q : CoursesDb → Type 0) (t : String)
      (keeps : (m : Message) (db : CoursesDb)
        → sender m ≡ t
        → Q db
        → Q (handle_message d.prisma d.validator m db).1) where
    sent : (m : Message) → sender m ≡ t → Keeps Q (call_courses d m)
    sent m by = call_courses-Keeps Q m (λ db h. keeps m db by h)

    -- A check of the request comes first.
    checked :
        {A : Type 0} (r : Result (Unit {0})) (k : Action World A)
        → Keeps Q k
        → Keeps Q (lift r >> k)
    checked r k h = bind-Keeps Q (lift r) (λ _. k) (lift-Keeps Q r) (λ _. h)

    update_enrollment-Keeps :
        (e : String) (user : Option AuthenticatedUser) (b : EnrollmentChanges) (i : Inputs)
        → Keeps Q (update_enrollment d t e user b i)
    unfolding update_enrollment
    update_enrollment-Keeps e user b i =
        bind-Keeps Q _ _ (sent (gets_enrollment t e (role_of user) (user_id_of user)) refl)
          λ before.
            bind-Keeps Q _ _ (sent (update_message d t e user b i.written_at) refl) λ updated.
              bind-Keeps Q _ _
                (emit-Keeps Q (row_of d before) (row_of d updated)
                  (emit_inputs d i (or_default b.touch_access false) (user_id_of user)))
                λ _. pure-Keeps Q updated

    pub handle-Keeps :
        (endpoint : Endpoint) (user : Option AuthenticatedUser) (i : Inputs)
        → Keeps Q (handle d endpoint t user i)
    unfolding handle
    handle-Keeps list_courses user i = sent _ refl
    handle-Keeps (create_course title) user i = checked _ _ (sent _ refl)
    handle-Keeps (get_course c) user i = checked _ _ (sent _ refl)
    handle-Keeps (update_course c title) user i = checked _ _ (checked _ _ (sent _ refl))
    handle-Keeps (delete_course c) user i = checked _ _ (sent _ refl)
    handle-Keeps (list_lessons c) user i = checked _ _ (sent _ refl)
    handle-Keeps (create_lesson c b) user i = checked _ _ (checked _ _ (sent _ refl))
    handle-Keeps (get_lesson c l) user i = checked _ _ (checked _ _ (sent _ refl))
    handle-Keeps (update_lesson c l b) user i =
        checked _ _ (checked _ _ (checked _ _ (sent _ refl)))
    handle-Keeps (delete_lesson c l) user i = checked _ _ (checked _ _ (sent _ refl))
    handle-Keeps (enroll_user_in_course c u) user i =
        checked _ _
          (checked _ _ (bind-Keeps Q _ _ (assert_seat-Keeps Q t i.checked_at) λ seats. sent _ refl))
    handle-Keeps (list_course_enrollments c) user i = checked _ _ (sent _ refl)
    handle-Keeps list_my_enrollments user i = sent _ refl
    handle-Keeps (get_enrollment e) user i = checked _ _ (sent _ refl)
    handle-Keeps (patch_enrollment e b) user i =
        checked _ _ (checked _ _ (update_enrollment-Keeps e user b i))
    handle-Keeps (unenroll_user e) user i = checked _ _ (sent _ refl)
