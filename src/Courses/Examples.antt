-- ===== src/Courses/Examples.antt =====
-- Concrete inputs for the theorems about apps/course-service.
use nestjs_saas.Prelude.{◌≤◌, true, none, some, List, [], ◌∷◌, ◌≡◌, refl, arith, eq_iff}
use nestjs_saas.Exec.{◌>>=◌}
use nestjs_saas.Common.Roles.{learner}
use nestjs_saas.Common.Tiers.{free}
use nestjs_saas.Courses.State.{Course, Lesson, Enrollment, Db}
use nestjs_saas.Courses.Catalog.{
  CreateCourse, create_course, update_course, delete_course, list_courses,
}
use nestjs_saas.Courses.Lessons.{CreateLesson, new_lesson, create_lesson}
use nestjs_saas.Courses.Enrollments.{UpdateEnrollment}
use nestjs_saas.Courses.Calls.{
  Call, creates_course, deletes_course, creates_lesson, updates_course, updates_enrollment,
  after_call_of, run,
}
use nestjs_saas.Courses.Calls.References.{IsSound}
use nestjs_saas.Courses.Calls.Apart.{SameRows}
use nestjs_saas.Courses.Calls.Integrity.{run-IsSound}
use nestjs_saas.Prisma.ByLists.{by_lists}
use nestjs_saas.Courses.Calls.Isolation.{run-SameRows}
use nestjs_saas.Courses.Calls.Limits.{course_count, run-course_count}
use nestjs_saas.Courses.Dto.{Validator, has_length, update_course_dto, update_enrollment_dto}
use nestjs_saas.Courses.Messages.{lesson, Message, writes, lists_courses, handle_message}
use nestjs_saas.Courses.Messages.ReadBack.{ReadBack, perform-ReadBack}
use nestjs_saas.Courses.Messages.Fits.{Fits}
use nestjs_saas.Courses.Messages.Bounds.{answer_all, answer_all-Fits}

abbrev algebra : Course
algebra = record { id = "c1"; tenant_id = "t1"; title = "Algebra"; created_at = 1; updated_at = 1 }

abbrev ann_in_algebra : Enrollment
ann_in_algebra = record {
  id = "e1";
  tenant_id = "t1";
  course_id = "c1";
  user_id = "ann";
  enrolled_at = 2;
  updated_at = 2;
  last_accessed_at = none;
  completed_at = none;
  progress_percent = 0;
  lessons_completed = 0;
}

abbrev school : Db
school = record { courses = algebra ∷ []; lessons = []; enrollments = ann_in_algebra ∷ [] }

school-IsSound : IsSound school
school-IsSound = record {
  course_keys = (tt, tt);
  lesson_keys = tt;
  enrollment_keys = (tt, tt);
  lesson_courses = tt;
  enrollment_courses = (refl, tt);
}

abbrev first_lesson : CreateLesson
first_lesson = record {
  tenant_id = "t1";
  course_id = "c1";
  title = "Groups";
  body = none;
  sort_order = none;
}

abbrev free_course : CreateCourse
free_course = record { tenant_id = "t2"; title = "Biology"; subscription_tier = free }

abbrev calls : List Call
calls =
    creates_lesson first_lesson "l1" 5
    ∷ creates_course free_course "c2" 6
    ∷ deletes_course "t1" "c1"
    ∷ []

-- Deleting the course took the lesson and the enrollment with it.
run_test : run by_lists calls school ≡ record {
  courses =
      record { id = "c2"; tenant_id = "t2"; title = "Biology"; created_at = 6; updated_at = 6 }
      ∷ [];
  lessons = [];
  enrollments = [];
}
unfolding run after_call_of create_lesson create_course delete_course ◌>>=◌
run_test = refl

run-IsSound_example : IsSound (run by_lists calls school)
run-IsSound_example = run-IsSound by_lists calls school school-IsSound

run-SameRows_example :
    SameRows by_lists "t1" school
      (run by_lists (creates_course free_course "c2" 6 ∷ deletes_course "t2" "c1" ∷ []) school)
run-SameRows_example =
    run-SameRows by_lists "t1" (creates_course free_course "c2" 6 ∷ deletes_course "t2" "c1" ∷ [])
      school
      ((λ e. ground (arith, eq_iff "t2" "t1")), ((λ e. ground (arith, eq_iff "t2" "t1")), tt))
      school-IsSound

run-course_count_example :
    course_count "t2" (run by_lists (creates_course free_course "c2" 6 ∷ []) school) ≤ 3
run-course_count_example =
    run-course_count by_lists "t2" 3 (creates_course free_course "c2" 6 ∷ []) school
      ((λ e. (3, refl, omega arith)), tt) (omega arith)

abbrev bens_update : UpdateEnrollment
bens_update = record {
  tenant_id = "t1";
  enrollment_id = "e1";
  acting_role = learner;
  acting_user_id = "ben";
  progress_percent = some 100;
  lessons_completed = none;
  completed = none;
  touch_access = none;
}

abbrev validator : Validator
validator = record { is_uuid = λ id. true; message = "Bad payload" }

school-Fits : Fits school
unfolding has_length
school-Fits = record { courses = (refl, tt); lessons = tt; enrollments = (refl, tt) }

abbrev messages : List Message
messages =
    writes (updates_course "t1" "c1" "  Algebra I " 8)
    ∷ writes (
        updates_enrollment
          (record bens_update { acting_user_id = "ann"; progress_percent = some 101 }) 9)
    ∷ lists_courses "t1"
    ∷ []

-- The title is trimmed, and a progress of 101 percent refused.
answer_all_test :
    answer_all by_lists validator messages school
    ≡ record school { courses = record algebra { title = "Algebra I"; updated_at = 8 } ∷ [] }
unfolding answer_all handle_message update_course_dto update_enrollment_dto update_course
    list_courses after_call_of ◌>>=◌
answer_all_test = refl

answer_all-Fits_example : Fits (answer_all by_lists validator messages school)
answer_all-Fits_example = answer_all-Fits by_lists validator messages school school-Fits

abbrev two_units : CreateLesson
two_units = record first_lesson { title = "Units" }

abbrev units : Lesson
units = new_lesson by_lists two_units "l2" 5

perform-ReadBack_example :
    ReadBack by_lists
      (creates_lesson two_units "l2" 5)
      (lesson units)
      (record school { lessons = units ∷ [] })
unfolding create_lesson ◌>>=◌
perform-ReadBack_example =
    perform-ReadBack by_lists (creates_lesson two_units "l2" 5) school
      (record school { lessons = units ∷ [] }) (lesson units) school-IsSound refl
