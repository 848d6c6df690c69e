-- ===== src/Analytics/Activity.antt =====
-- apps/analytics-webhook-service/src/analytics-webhook-service.service.ts: `engagementReport`, without
-- the rounded quotients that it adds, and `eventVolumeReport`.
pub mod Counts
use nestjs_saas.Prelude.{
  ℕ, suc, ◌-◌, ◌*◌, String, Option, Bool, ◌&&◌, ◌||◌, List, [], ◌∷◌, leb, if◌then◌else◌, ◌==◌,
  or_default, exists, length, take,
}
use nestjs_saas.Exec.{Action, gets}
use nestjs_saas.Prisma.{Prisma}
use nestjs_saas.Ordering.{ascending, descending}
use nestjs_saas.Js.Date.{iso_day}
use nestjs_saas.Js.Maps.{put}
use nestjs_saas.Js.Number.{nat_min, nat_max}
use nestjs_saas.Analytics.State.{EventBuffer, Db}

-- `Math.min(365, Math.max(1, days ?? usual))`
abbrev pub window_days : Option ℕ → ℕ → ℕ
window_days days usual = nat_min 365 (nat_max 1 (or_default days usual))

-- Is the event of the tenant and not older than the window?
abbrev pub in_window : String → ℕ → ℕ → EventBuffer → Bool
in_window tenant_id days now e =
    (e.tenant_id == tenant_id) && leb (now - days * 24 * 60 * 60 * 1000) e.created_at

pub record Activity : Type 0 where
  pub started : ℕ
  pub completed : ℕ

pub record Engagement : Type 0 where
  pub window_days : ℕ
  pub active_learners : ℕ
  pub per_course : List (String × Activity)

abbrev pub is_engagement : EventBuffer → Bool
is_engagement e =
    (e.event_type == "lesson.started")
    || (e.event_type == "lesson.completed")
    || (e.event_type == "course.completed")

abbrev pub no_activity : Activity
no_activity = record { started = 0; completed = 0 }

abbrev pub counted : String → Activity → Activity
counted event_type row = record {
  started = if event_type == "lesson.started" then suc row.started else row.started;
  completed = if event_type == "course.completed" then suc row.completed else row.completed;
}

-- `activeLearners.add(userId)`
abbrev pub add_learner : String → List String → List String
add_learner user_id learners =
    if user_id == ""
    then learners
    else if exists (λ u. u == user_id) learners
    then learners
    else user_id ∷ learners

abbrev pub active_learners : List EventBuffer → List String → List String
active_learners [] learners = learners
active_learners (e ∷ events) learners =
    active_learners events (add_learner e.payload.user_id learners)

abbrev pub per_course : List EventBuffer → List (String × Activity) → List (String × Activity)
per_course [] rows = rows
per_course (e ∷ events) rows = per_course events (
    if e.payload.course_id == ""
    then rows
    else put e.payload.course_id no_activity (counted e.event_type) rows)

-- Types with their numbers, for one day.
abbrev pub TypeCounts : Type 0
TypeCounts = List (String × ℕ)

abbrev pub by_day : List EventBuffer → List (String × TypeCounts) → List (String × TypeCounts)
unfolding iso_day
by_day [] rows = rows
by_day (e ∷ events) rows =
    by_day events (put (iso_day e.created_at) [] (put e.event_type 0 suc) rows)

pub record EventVolume : Type 0 where
  pub window_days : ℕ
  pub series : List (String × TypeCounts)

module _ (prisma : Prisma) where
  abbrev pub engagement_read : String → ℕ → ℕ → Db → List EventBuffer
  engagement_read tenant_id days now db = take 20000 (
      prisma.find_many (λ e. in_window tenant_id days now e && is_engagement e)
        (descending (λ e. e.created_at) ∷ []) db.events)

  unfoldable pub engagement_report : String → Option ℕ → ℕ → Action Db Engagement
  engagement_report tenant_id days now =
      let window = window_days days 30 in
      gets (λ db. record {
        window_days = window;
        active_learners = length (active_learners (engagement_read tenant_id window now db) []);
        per_course = per_course (engagement_read tenant_id window now db) [];
      })

  abbrev pub volume_read : String → ℕ → ℕ → Db → List EventBuffer
  volume_read tenant_id days now db = take 50000 (
      prisma.find_many (in_window tenant_id days now) (ascending (λ e. e.created_at) ∷ [])
        db.events)

  unfoldable pub event_volume_report : String → Option ℕ → ℕ → Action Db EventVolume
  event_volume_report tenant_id days now =
      let window = window_days days 14 in
      gets (λ db. record {
        window_days = window;
        series = by_day (volume_read tenant_id window now db) [];
      })
