-- ===== src/Analytics/Activity/Counts.antt =====
-- apps/analytics-webhook-service/src/analytics-webhook-service.service.ts: the numbers of
-- `engagementReport` and `eventVolumeReport` are numbers of events and of users.
use nestjs_saas.Prelude.{
  ℕ, suc, ◌+◌, ◌-◌, ◌*◌, ◌≤◌, String, Option, Bool, true, false, not, ◌&&◌, ◌||◌, List, [], ◌∷◌,
  if◌then◌else◌, ◌≡◌, ◌∙◌, refl, ap, sym, subst, arith, Bool-cases, inl, inr, ◌==◌, leb, eq_iff,
  length, or_default, keep, exists, All,
}
use nestjs_saas.Exec.{ok, gets}
use nestjs_saas.Prisma.{Prisma}
use nestjs_saas.Prisma.Keys.{Keyed}
use nestjs_saas.Prisma.Windows.{Newest, Oldest, take-Newest, take-Oldest}
use nestjs_saas.Js.Number.{nat_min, nat_max}
use nestjs_saas.Js.Date.{iso_day}
use nestjs_saas.Js.Maps.{put, sum_at, same_entry, sum_at-put, put-Keyed}
use nestjs_saas.Analytics.State.{EventBuffer, Db}
use nestjs_saas.Analytics.Activity.{
  Activity, Engagement, EventVolume, TypeCounts, window_days, is_engagement, no_activity, counted,
  add_learner, active_learners, per_course, by_day, engagement_read, volume_read, engagement_report,
  event_volume_report,
}

-- Is it an event of that type in the course, or on the day?
abbrev in_course : String → String → EventBuffer → Bool
in_course course type e = (e.payload.course_id == course) && (e.event_type == type)

abbrev pub on_day : String → String → EventBuffer → Bool
unfolding iso_day
on_day day type e = (iso_day e.created_at == day) && (e.event_type == type)

-- No event counts for the empty id.
abbrev pub course_events : String → String → List EventBuffer → ℕ
course_events course type events =
    if course == "" then 0 else length (keep (in_course course type) events)

counts_of :
    (f : Activity → ℕ) (type : String)
    → f no_activity ≡ 0
    → ((t : String) (v : Activity) → f (counted t v) ≡ (if t == type then 1 else 0) + f v)
    → (course : String) (events : List EventBuffer) (rows : List (String × Activity))
    → sum_at f course (per_course events rows)
      ≡ course_events course type events + sum_at f course rows
counts_of f type zero grows course [] rows = ground arith
counts_of f type zero grows course (e ∷ events) rows =
    elim (Bool-cases (e.payload.course_id == "")) [
      | inl blank ↦ ground (
        arith,
        blank,
        eq_iff e.payload.course_id "",
        eq_iff e.payload.course_id course,
        eq_iff course "",
        counts_of f type zero grows course events rows,
      )
      | inr there ↦
          let added = put e.payload.course_id no_activity (counted e.event_type) rows in
          ground (
            arith,
            there,
            eq_iff e.payload.course_id "",
            eq_iff e.payload.course_id course,
            eq_iff course "",
            counts_of f type zero grows course events added,
            sum_at-put no_activity (counted e.event_type) f (if e.event_type == type then 1 else 0)
                zero (grows e.event_type) course e.payload.course_id rows,
          )
    ]

per_course-Keyed :
    (events : List EventBuffer) (rows : List (String × Activity))
    → Keyed same_entry rows
    → Keyed same_entry (per_course events rows)
per_course-Keyed [] rows h = h
per_course-Keyed (e ∷ events) rows h = elim (Bool-cases (e.payload.course_id == "")) [
  | inl blank ↦ ground (arith, blank, per_course-Keyed events rows h)
  | inr there ↦ ground (
    arith,
    there,
    per_course-Keyed events _
        (put-Keyed no_activity (counted e.event_type) e.payload.course_id rows h),
  )
]

started_grows :
    (t : String) (v : Activity)
    → (counted t v).started ≡ (if t == "lesson.started" then 1 else 0) + v.started
started_grows t v = ground arith

completed_grows :
    (t : String) (v : Activity)
    → (counted t v).completed ≡ (if t == "course.completed" then 1 else 0) + v.completed
completed_grows t v = ground arith

volume_of :
    (day type : String) (events : List EventBuffer) (rows : List (String × TypeCounts))
    → sum_at (sum_at (λ n. n) type) day (by_day events rows)
      ≡ length (keep (on_day day type) events) + sum_at (sum_at (λ n. n) type) day rows
unfolding by_day on_day
volume_of day type [] rows = omega arith
volume_of day type (e ∷ events) rows =
    let inner = put e.event_type 0 suc in
    let added = put (iso_day e.created_at) [] inner rows in
    ground (
      arith,
      volume_of day type events added,
      sum_at-put [] inner (sum_at (λ n. n) type) (if e.event_type == type then 1 else 0) refl
          (λ v.
            ground (arith, sum_at-put 0 suc (λ n. n) 1 refl (λ n. omega arith) type e.event_type v))
          day (iso_day e.created_at) rows,
    )

-- Lists of users without repeats
abbrev pub same_text : String → String → Bool
same_text a b = b == a

none_of_exists :
    (u : String) (learners : List String)
    → exists (λ x. x == u) learners ≡ false
    → All (λ x. same_text u x ≡ false) learners
none_of_exists u [] e = tt
none_of_exists u (x ∷ learners) e = ground (arith, none_of_exists u learners)

add_learner-Keyed :
    (u : String) (learners : List String)
    → Keyed same_text learners
    → Keyed same_text (add_learner u learners)
add_learner-Keyed u learners h = elim (Bool-cases (exists (λ x. x == u) learners)) [
  | inl there ↦ ground (arith, there, h)
  | inr new ↦ elim (Bool-cases (u == "")) [
    | inl blank ↦ ground (arith, blank, h)
    | inr named ↦ ground (arith, named, new, none_of_exists u learners new, h)
  ]
]

active_learners-Keyed :
    (events : List EventBuffer) (learners : List String)
    → Keyed same_text learners
    → Keyed same_text (active_learners events learners)
active_learners-Keyed [] learners h = h
active_learners-Keyed (e ∷ events) learners h =
    active_learners-Keyed events _ (add_learner-Keyed e.payload.user_id learners h)

add_learner-exists :
    (u added : String) (learners : List String)
    → exists (λ x. x == u) (add_learner added learners)
      ≡ ((not (added == "") && (added == u)) || exists (λ x. x == u) learners)
add_learner-exists u added learners = elim (Bool-cases (added == u)) [
  | inl same ↦
      let is : added ≡ u = ground (arith, same, eq_iff added u) in
      ground (arith, same, eq_iff added "", is, ap (λ t. exists (λ x. x == t) learners) is)
  | inr other ↦ ground (arith, other)
]

-- The empty id is no user.
abbrev pub is_user : String → EventBuffer → Bool
is_user u e = not (e.payload.user_id == "") && (e.payload.user_id == u)

active_learners-exists :
    (u : String) (events : List EventBuffer) (learners : List String)
    → exists (λ x. x == u) (active_learners events learners)
      ≡ (exists (is_user u) events || exists (λ x. x == u) learners)
active_learners-exists u [] learners = refl
active_learners-exists u (e ∷ events) learners = ground (
  arith,
  active_learners-exists u events (add_learner e.payload.user_id learners),
  add_learner-exists u e.payload.user_id learners,
)

or_false : (b : Bool) → (b || false) ≡ b
or_false true = refl
or_false false = refl

module _ (prisma : Prisma) where
  -- The engagement report changes nothing, and its window is the number of days that is asked for, 30
  -- if none is, brought into 1 to 365. It is about the 20000 newest events of the tenant that are not
  -- older than the window and say that a lesson was started or completed or a course was completed,
  -- or about all of them if there are no more. It lists each course once, with the numbers of its
  -- started lessons and of its completions among them, and the number of active learners is that of a
  -- list without repeats that has exactly the users of these events.
  pub engagement_report-counts :
      (tenant_id : String) (days : Option ℕ) (now : ℕ) (db db' : Db) (r : Engagement)
      → engagement_report prisma tenant_id days now db ≡ (ok r, db')
      → (db' ≡ db)
        × (r.window_days ≡ nat_min 365 (nat_max 1 (or_default days 30)))
        × (1 ≤ r.window_days)
        × (r.window_days ≤ 365)
        × Keyed same_entry r.per_course
        × (events : List EventBuffer) × Newest 20000
            (λ e.
              ((e.tenant_id == tenant_id) && leb (now - r.window_days * 86400000) e.created_at)
              && ((e.event_type == "lesson.started")
                  || (e.event_type == "lesson.completed")
                  || (e.event_type == "course.completed")))
            (λ e. e.created_at)
            db.events
            events
        × ((course : String)
            → sum_at (λ row. row.started) course r.per_course
              ≡ course_events course "lesson.started" events)
        × ((course : String)
            → sum_at (λ row. row.completed) course r.per_course
              ≡ course_events course "course.completed" events)
        × (users : List String) × (r.active_learners ≡ length users)
        × Keyed same_text users
        × ((user : String) → exists (λ u. u == user) users ≡ exists (is_user user) events)
  unfolding engagement_report gets
  engagement_report-counts tenant_id days now db db' r e =
      let events = engagement_read prisma tenant_id (window_days days 30) now db in
      let window : window_days days 30 ≡ r.window_days = ground (arith, e) in
      let rows : per_course events [] ≡ r.per_course = ground (arith, e) in
      let learners : length (active_learners events []) ≡ r.active_learners = ground (arith, e) in
      (
        ground (arith, e),
        sym window,
        ground (arith, window),
        ground (arith, window),
        subst (Keyed same_entry) rows (per_course-Keyed events [] tt),
        events,
        subst
            (λ w.
              Newest 20000
                (λ e. ((e.tenant_id == tenant_id) && leb (now - w) e.created_at) && is_engagement e)
                (λ e. e.created_at) db.events events)
            (omega (arith, window)) (take-Newest prisma 20000 _ _ db.events),
        λ course.
            ap (sum_at (λ row. row.started) course) (sym rows)
            ∙ counts_of (λ row. row.started) "lesson.started" refl started_grows course events []
            ∙ omega arith,
        λ course.
            ap (sum_at (λ row. row.completed) course) (sym rows)
            ∙ counts_of (λ row. row.completed) "course.completed" refl completed_grows course events
                []
            ∙ omega arith,
        active_learners events [],
        sym learners,
        active_learners-Keyed events [] tt,
        λ user. active_learners-exists user events [] ∙ or_false _,
      )

  -- The event volume report changes nothing, and its window is the number of days that is asked for,
  -- 14 if none is, brought into 1 to 365. It is about the 50000 oldest events of the tenant that are
  -- not older than the window, or about all of them if there are no more, and says for each day and
  -- each type how many of them are of that day and type.
  pub event_volume_report-counts :
      (tenant_id : String) (days : Option ℕ) (now : ℕ) (db db' : Db) (r : EventVolume)
      → event_volume_report prisma tenant_id days now db ≡ (ok r, db')
      → (db' ≡ db)
        × (r.window_days ≡ nat_min 365 (nat_max 1 (or_default days 14)))
        × (events : List EventBuffer) × Oldest 50000
            (λ e. (e.tenant_id == tenant_id) && leb (now - r.window_days * 86400000) e.created_at)
            (λ e. e.created_at)
            db.events
            events
        × ((day type : String)
            → sum_at (sum_at (λ n. n) type) day r.series ≡ length (keep (on_day day type) events))
  unfolding event_volume_report gets
  event_volume_report-counts tenant_id days now db db' r e =
      let events = volume_read prisma tenant_id (window_days days 14) now db in
      let window : window_days days 14 ≡ r.window_days = ground (arith, e) in
      let rows : by_day events [] ≡ r.series = ground (arith, e) in
      (
        ground (arith, e),
        sym window,
        events,
        subst
            (λ w.
              Oldest 50000 (λ e. (e.tenant_id == tenant_id) && leb (now - w) e.created_at)
                (λ e. e.created_at) db.events events)
            (omega (arith, window)) (take-Oldest prisma 50000 _ _ db.events),
        λ day type.
            ap (sum_at (sum_at (λ n. n) type) day) (sym rows)
            ∙ volume_of day type events []
            ∙ omega arith,
      )
