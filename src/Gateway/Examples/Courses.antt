-- ===== src/Gateway/Examples/Courses.antt =====
-- Concrete inputs for the theorems about the gateway's endpoints for courses.
use nestjs_saas.Prelude.{
  ◌*◌, String, Option, none, some, true, [], ◌∷◌, ◌≡◌, refl, arith, ◌==◌, eq_iff, if◌then◌else◌,
}
use nestjs_saas.Exec.{modify, gets, ◌>>=◌}
use nestjs_saas.Js.Text.{trim}
use nestjs_saas.Courses.Enrollments.{get_enrollment as get_row, update_enrollment as update_row}
use nestjs_saas.Courses.Dto.{update_enrollment_dto}
use nestjs_saas.Courses.Messages.{handle_message}
use nestjs_saas.Prisma.ByLists.{by_lists}
use nestjs_saas.Auth.State.{Env}
use nestjs_saas.Courses.State.{Course, Enrollment}
use nestjs_saas.Courses.Calls.References.{IsSound}
use nestjs_saas.Courses.Calls.Apart.{SameRows}
use nestjs_saas.Gateway.Examples.{tcp}
use nestjs_saas.Gateway.Guards.{JwtAccessPayload, Request, before_handler}
use nestjs_saas.Gateway.Events.{snapshot_of, emit_learning_events}
use nestjs_saas.Gateway.Rpc.{tcp_call}
use nestjs_saas.Gateway.Endpoints.{get_tenant, Endpoint, patch_enrollment}
use nestjs_saas.Gateway.Courses.{
  World, Inputs, Deployment, call_courses, emit, update_enrollment, handle, serve,
}
use nestjs_saas.Gateway.Courses.Isolation.{serve_all, serve_all-SameRows}
use nestjs_saas.Gateway.Courses.Learners.{OwnOnly, serve-OwnOnly}

abbrev unset : Env
unset = record {
  free_included_learner_seats = none;
  seat_grace_days = none;
  jwt_access_ttl_sec = none;
  refresh_ttl_days_ms = some (30 * 86400000);
  smtp_host = none;
  smtp_user = none;
  smtp_pass = none;
}

abbrev ann_token : JwtAccessPayload
ann_token = record {
  user_id = some "ann";
  tenant_id = some "t1";
  role = some "LEARNER";
  subscription_tier = some "FREE";
  token_use = some "access";
}

abbrev verify : String → Option JwtAccessPayload
verify token = if token == "good" then some ann_token else none

abbrev pub deployment : Deployment
deployment = record {
  prisma = by_lists;
  env = unset;
  validator = record { is_uuid = λ id. true; message = "Bad payload" };
  parses_uuid = λ id. true;
  transport = tcp;
  json = λ metadata. "{}";
  verify = verify;
}

abbrev algebra : Course
algebra = record { id = "c1"; tenant_id = "t1"; title = "Algebra"; created_at = 1; updated_at = 1 }

abbrev ann_in_algebra : Enrollment
ann_in_algebra = record {
  id = "e1";
  tenant_id = "t1";
  course_id = "c1";
  user_id = "ann";
  enrolled_at = 2;
  updated_at = 2;
  last_accessed_at = none;
  completed_at = none;
  progress_percent = 0;
  lessons_completed = 0;
}

abbrev pub world : World
world = record {
  auth = record {
    tenants = [];
    users = [];
    memberships = [];
    invites = [];
    refresh_tokens = [];
    stripe_webhook_events = [];
  };
  courses = record { courses = algebra ∷ []; lessons = []; enrollments = ann_in_algebra ∷ [] };
  analytics = record { events = []; endpoints = []; dead_letters = [] };
}

courses-IsSound : IsSound world.courses
courses-IsSound = record {
  course_keys = (tt, tt);
  lesson_keys = tt;
  enrollment_keys = (tt, tt);
  lesson_courses = tt;
  enrollment_courses = (refl, tt);
}

abbrev request : Request
request = record {
  method = "PATCH";
  path = some "/enrollments/e1";
  tenant_header = some "t1";
  bearer = some "good";
  params_tenant_id = none;
  body_tenant_id = none;
  query_tenant_id = none;
}

abbrev completes : Endpoint
completes = patch_enrollment "e1" (record {
  progress_percent = none;
  lessons_completed = none;
  completed = some true;
  touch_access = none;
})

abbrev at_noon : Inputs
at_noon = record {
  new_id = "new";
  written_at = 43200000;
  checked_at = 43200000;
  occurred_at = 43200000;
  event_id = λ tracked. "event";
  buffered_at = 43200000;
}

serve_all-SameRows_example :
    SameRows by_lists "t2" world.courses
      (serve_all deployment ((request, completes, at_noon) ∷ []) world).courses
unfolding trim
serve_all-SameRows_example =
    serve_all-SameRows deployment "t2" ((request, completes, at_noon) ∷ []) world
      (
        (λ same.
            let tenants : ◌≡◌ {A = Option String} (some "t1") (some "t2") = same in
            ground (arith, eq_iff "t1" "t2", tenants)),
        tt,
      )
      courses-IsSound

serve-OwnOnly_example :
    OwnOnly by_lists "ann" world.courses
      (serve deployment request completes at_noon world).1.courses
serve-OwnOnly_example =
    serve-OwnOnly deployment request completes at_noon world "good" ann_token "ann" refl refl refl
      refl courses-IsSound

-- Ann completes her course, which is her first event there.
completes_test :
    (serve deployment request completes at_noon world).1.courses.enrollments
    ≡ record ann_in_algebra {
      completed_at = some 43200000;
      last_accessed_at = some 43200000;
      updated_at = 43200000;
    }
      ∷ []
unfolding serve ◌>>=◌ before_handler get_tenant handle update_enrollment call_courses get_row
    update_row handle_message tcp_call update_enrollment_dto modify gets emit emit_learning_events
    snapshot_of
completes_test = refl
