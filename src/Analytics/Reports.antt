-- ===== src/Analytics/Reports.antt =====
-- apps/analytics-webhook-service/src/analytics-webhook-service.service.ts: `completionReport`.
pub mod Counts
use nestjs_saas.Prelude.{ℕ, suc, String, Bool, List, [], ◌∷◌, ◌&&◌, if◌then◌else◌, ◌==◌, take}
use nestjs_saas.Exec.{Action, gets}
use nestjs_saas.Prisma.{Prisma}
use nestjs_saas.Ordering.{descending}
use nestjs_saas.Analytics.State.{EventBuffer, Db}

pub record CourseCompletions : Type 0 where
  pub course_id : String
  pub completions : ℕ

-- `counts.set(courseId, (counts.get(courseId) ?? 0) + 1)`: a new key comes last.
abbrev pub add_one : String → List CourseCompletions → List CourseCompletions
add_one course_id [] = record { course_id = course_id; completions = 1 } ∷ []
add_one course_id (c ∷ counts) =
    let rest = add_one course_id counts in
    if c.course_id == course_id
    then record c { completions = suc c.completions } ∷ counts
    else c ∷ rest

abbrev pub count_events : List EventBuffer → List CourseCompletions → List CourseCompletions
count_events [] counts = counts
count_events (e ∷ events) counts =
    if e.payload.course_id == ""
    then count_events events counts
    else count_events events (add_one e.payload.course_id counts)

module _ (prisma : Prisma) where
  abbrev pub is_completion : String → EventBuffer → Bool
  is_completion tenant_id e = (e.tenant_id == tenant_id) && (e.event_type == "course.completed")

  -- The newest 5000 completions of the tenant.
  abbrev pub completions_read : String → Db → List EventBuffer
  completions_read tenant_id db =
      take 5000
        (prisma.find_many (is_completion tenant_id) (descending (λ e. e.created_at) ∷ []) db.events)

  unfoldable pub completion_report : String → Action Db (List CourseCompletions)
  completion_report tenant_id = gets (λ db. count_events (completions_read tenant_id db) [])
