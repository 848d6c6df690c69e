-- ===== src/Analytics/Examples/Buffer.antt =====
-- Concrete inputs for the theorems about the buffer of events, its pages and the reports on it.
use nestjs_saas.Prelude.{
  ℕ, suc, ◌+◌, ◌≤◌, String, none, some, List, [], ◌∷◌, ◌≡◌, refl, arith, eq_iff, length, keep,
  exists, ◌==◌, leb, ◌-◌, ◌*◌, ◌&&◌, ◌||◌, or_default,
}
use nestjs_saas.Exec.{gets, modify}
use nestjs_saas.Ordering.Insertion.{sort}
use nestjs_saas.Prisma.ByLists.{by_lists}
use nestjs_saas.Prisma.Keys.{Keyed}
use nestjs_saas.Prisma.Windows.{Newest, Oldest}
use nestjs_saas.Js.Number.{nat_min, nat_max}
use nestjs_saas.Js.Date.{iso_day}
use nestjs_saas.Js.Maps.{sum_at, same_entry}
use nestjs_saas.Analytics.State.{EventBuffer, Db}
use nestjs_saas.Analytics.Events.{
  LearningEvent, lesson_started, course_completed, new_event, PageInput, list_events, append_event,
}
use nestjs_saas.Analytics.Events.Pages.{listing}
use nestjs_saas.Analytics.Events.Paging.{shown, follow, follow-total}
use nestjs_saas.Analytics.Events.Refinement.{
  same_key, TrackCall, insert_all, track_all, view, track_all-refines,
}
use nestjs_saas.Analytics.Activity.{engagement_report, event_volume_report, Engagement, EventVolume}
use nestjs_saas.Analytics.Activity.Counts.{
  course_events, is_user, on_day, same_text, engagement_report-counts, event_volume_report-counts,
}

abbrev lesson_of : String → LearningEvent
lesson_of key = record {
  tenant_id = "t1";
  user_id = "ann";
  course_id = "c1";
  enrollment_id = "e1";
  idempotency_key = key;
  occurred_at = none;
  metadata = none;
}

abbrev event : String → ℕ → EventBuffer
event id now = new_event lesson_started (lesson_of id) id now

abbrev buffer : Db
buffer = record {
  events = event "b1" 1 ∷ event "b2" 2 ∷ event "b3" 3 ∷ [];
  endpoints = [];
  dead_letters = [];
}

-- The second has the key of one that is there.
abbrev calls : List TrackCall
calls = (lesson_started, lesson_of "b4", "x", 7) ∷ (course_completed, lesson_of "b2", "y", 8) ∷ []

track_all-refines_example :
    Keyed same_key (track_all by_lists calls buffer).events
    × ((key : String)
        → view by_lists (track_all by_lists calls buffer) key
          ≡ insert_all calls (view by_lists buffer) key)
track_all-refines_example =
    track_all-refines by_lists calls buffer ((refl, (refl, tt)), ((refl, tt), (tt, tt)))

stays_test : view by_lists (track_all by_lists calls buffer) "b2" ≡ some (event "b2" 2)
unfolding track_all append_event modify
stays_test = refl

abbrev one_by_one : PageInput
one_by_one = record { tenant_id = "t1"; limit = some 1; cursor = none; event_type = none }

follow-total_example :
    (pages : List (List EventBuffer)) × (follow by_lists
        (suc (length (listing by_lists one_by_one buffer)))
        one_by_one
        buffer
      ≡ some pages)
    × (shown pages + length pages ≡ suc (length (listing by_lists one_by_one buffer)))
unfolding sort
follow-total_example =
    follow-total by_lists one_by_one buffer ((refl, (refl, tt)), ((refl, tt), (tt, tt)))
      (
        (λ e. ground (arith, eq_iff "b3" "", e)),
        ((λ e. ground (arith, eq_iff "b2" "", e)), ((λ e. ground (arith, eq_iff "b1" "", e)), tt)),
      )
      refl

follow_test :
    follow by_lists 4 one_by_one buffer ≡ some ((event "b3" 3 ∷ []) ∷ (event "b1" 1 ∷ []) ∷ [])
unfolding follow list_events gets sort
follow_test = refl

abbrev engagement : Engagement
engagement = record {
  window_days = 7;
  active_learners = 1;
  per_course = ("c1", record { started = 3; completed = 0 }) ∷ [];
}

engagement_report-counts_example :
    (buffer ≡ buffer)
    × (engagement.window_days ≡ nat_min 365 (nat_max 1 (or_default (some 7) 30)))
    × (1 ≤ engagement.window_days)
    × (engagement.window_days ≤ 365)
    × Keyed same_entry engagement.per_course
    × (events : List EventBuffer) × Newest 20000
        (λ e.
          ((e.tenant_id == "t1") && leb (9 - engagement.window_days * 86400000) e.created_at)
          && ((e.event_type == "lesson.started")
              || (e.event_type == "lesson.completed")
              || (e.event_type == "course.completed")))
        (λ e. e.created_at)
        buffer.events
        events
    × ((course : String)
        → sum_at (λ row. row.started) course engagement.per_course
          ≡ course_events course "lesson.started" events)
    × ((course : String)
        → sum_at (λ row. row.completed) course engagement.per_course
          ≡ course_events course "course.completed" events)
    × (users : List String) × (engagement.active_learners ≡ length users)
    × Keyed same_text users
    × ((user : String) → exists (λ u. u == user) users ≡ exists (is_user user) events)
unfolding engagement_report gets sort
engagement_report-counts_example =
    engagement_report-counts by_lists "t1" (some 7) 9 buffer buffer engagement refl

abbrev volume : EventVolume
volume = record { window_days = 14; series = ("1970-01-01", ("lesson.started", 3) ∷ []) ∷ [] }

event_volume_report-counts_example :
    (buffer ≡ buffer)
    × (volume.window_days ≡ nat_min 365 (nat_max 1 (or_default none 14)))
    × (events : List EventBuffer) × Oldest 50000
        (λ e. (e.tenant_id == "t1") && leb (9 - volume.window_days * 86400000) e.created_at)
        (λ e. e.created_at)
        buffer.events
        events
    × ((day type : String)
        → sum_at (sum_at (λ n. n) type) day volume.series ≡ length (keep (on_day day type) events))
unfolding event_volume_report gets sort iso_day
event_volume_report-counts_example =
    event_volume_report-counts by_lists "t1" none 9 buffer buffer volume refl
