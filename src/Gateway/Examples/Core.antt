-- ===== src/Gateway/Examples/Core.antt =====
-- Concrete inputs for the theorems about the gateway's calls, events, counters and limits.
use nestjs_saas.Prelude.{
  ℕ, ◌+◌, String, none, some, true, List, [], ◌∷◌, length, keep, nat_eq, ◌≡◌, refl,
}
use nestjs_saas.Exec.{Action, ok, err, exception, plain_error, conflict}
use nestjs_saas.Js.Number.{ℤ, pos}
use nestjs_saas.Prisma.ByLists.{by_lists}
use nestjs_saas.Auth.Controller.{run_safely}
use nestjs_saas.Courses.State.{Enrollment}
use nestjs_saas.Courses.Enrollments.{UpdateEnrollment, progressed}
use nestjs_saas.Common.Roles.{learner}
use nestjs_saas.Analytics.State.{Db}
use nestjs_saas.Gateway.Examples.{tcp}
use nestjs_saas.Gateway.Events.{EmitInputs, snapshot_of, emit_learning_events}
use nestjs_saas.Gateway.Events.Again.{emit_learning_events_again}
use nestjs_saas.Gateway.Rpc.{RpcError, rpc_object, says_exists, normalize_rpc_error, tcp_call}
use nestjs_saas.Gateway.Rpc.Answers.{answered, tcp_call-run_safely}
use nestjs_saas.Gateway.Metrics.{Outcome, responded, threw, no_metrics, served_all}
use nestjs_saas.Gateway.Metrics.Counts.{
  count_of, final_status, is_5xx, is_thrown_5xx, served_all-counts,
}

abbrev taken : RpcError
taken = rpc_object 500 "Tenant name already exists"

taken_test : normalize_rpc_error taken ≡ exception 409 "Tenant name already exists"
unfolding normalize_rpc_error says_exists
taken_test = refl

-- A method that writes 7 and then throws.
abbrev writes_and_throws : Action ℕ String
writes_and_throws n = (err (exception 403 "No seat"), 7)

tcp_call-run_safely_example :
    tcp_call tcp (run_safely writes_and_throws) 3 ≡ (answered (err (exception 403 "No seat")), 7)
tcp_call-run_safely_example = tcp_call-run_safely tcp writes_and_throws 3

abbrev requests : List (Outcome × ℤ)
requests =
    (responded 200, pos 12)
    ∷ (threw (plain_error "down"), pos 3)
    ∷ (threw (conflict "twice"), pos 5)
    ∷ []

served_all-counts_example :
    let m = served_all requests no_metrics in
    (m.total_requests ≡ length requests)
    × (m.total_errors_5xx ≡ length (keep is_5xx requests) + length (keep is_thrown_5xx requests))
    × (count_of 500 m.status_counts ≡ length (keep (λ r. nat_eq (final_status r) 500) requests))
served_all-counts_example = served_all-counts requests 500

-- One request failed, and two failures are counted.
twice_test : (served_all requests no_metrics).total_errors_5xx ≡ 2
twice_test = refl

abbrev row : Enrollment
row = record {
  id = "e1";
  tenant_id = "t1";
  course_id = "c1";
  user_id = "ann";
  enrolled_at = 2;
  updated_at = 2;
  last_accessed_at = none;
  completed_at = none;
  progress_percent = 0;
  lessons_completed = 0;
}

abbrev completes : UpdateEnrollment
completes = record {
  tenant_id = "t1";
  enrollment_id = "e1";
  acting_role = learner;
  acting_user_id = "ann";
  progress_percent = some 100;
  lessons_completed = some 4;
  completed = some true;
  touch_access = some true;
}

abbrev inputs : ℕ → String → EmitInputs
inputs time id = record {
  touch_access = true;
  acting_user_id = "ann";
  occurred_at = time;
  event_id = λ tracked. id;
  buffered_at = time;
}

abbrev no_events : Db
no_events = record { events = []; endpoints = []; dead_letters = [] }

abbrev after_first : Db
unfolding emit_learning_events snapshot_of
after_first =
    (emit_learning_events (λ metadata. "{}") by_lists (snapshot_of row)
      (snapshot_of (progressed by_lists completes 5 row)) (inputs 6 "x") no_events).1

emit_learning_events_again_example :
    emit_learning_events
      (λ metadata. "{}")
      by_lists
      (snapshot_of (progressed by_lists completes 5 row))
      (snapshot_of (progressed by_lists completes 9 (progressed by_lists completes 5 row)))
      (inputs 10 "y")
      after_first
    ≡ (ok tt, after_first)
unfolding after_first
emit_learning_events_again_example =
    emit_learning_events_again by_lists (λ metadata. "{}") completes 5 9 row (inputs 6 "x")
      (inputs 10 "y") no_events refl
