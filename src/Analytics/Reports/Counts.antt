-- ===== src/Analytics/Reports/Counts.antt =====
-- apps/analytics-webhook-service/src/analytics-webhook-service.service.ts: the numbers of
-- `completionReport` are numbers of events.
use nestjs_saas.Prelude.{
  ℕ, ◌+◌, String, Bool, false, List, [], ◌∷◌, if◌then◌else◌, ◌≡◌, ◌∙◌, ap, sym, subst, arith, ◌&&◌,
  Bool-cases, inl, inr, ◌==◌, eq_iff, length, keep, All,
}
use nestjs_saas.Exec.{ok, gets}
use nestjs_saas.Prisma.{Prisma}
use nestjs_saas.Prisma.Keys.{Keyed}
use nestjs_saas.Prisma.Windows.{Newest, take-Newest}
use nestjs_saas.Analytics.State.{EventBuffer, Db}
use nestjs_saas.Analytics.Reports.{
  CourseCompletions, add_one, count_events, completions_read, completion_report,
}

-- The sum of what a report says of a course.
abbrev pub completions_of : String → List CourseCompletions → ℕ
completions_of course [] = 0
completions_of course (c ∷ counts) =
    let rest = completions_of course counts in
    if c.course_id == course then c.completions + rest else rest

abbrev of_course : String → EventBuffer → Bool
of_course course e = e.payload.course_id == course

completions_of-add_one :
    (course added : String) (counts : List CourseCompletions)
    → completions_of course (add_one added counts)
      ≡ (if added == course then 1 else 0) + completions_of course counts
completions_of-add_one course added [] = ground arith
completions_of-add_one course added (c ∷ counts) = elim (Bool-cases (c.course_id == added)) [
  | inl same ↦
      let is : c.course_id ≡ added = ground (arith, eq_iff c.course_id added) in
      ground (arith, ap (λ t. t == course) is)
  | inr other ↦ ground (arith, completions_of-add_one course added counts)
]

-- No event counts for the empty id.
abbrev pub events_of : String → List EventBuffer → ℕ
events_of course events = if course == "" then 0 else length (keep (of_course course) events)

completions_of-count_events :
    (course : String) (events : List EventBuffer) (counts : List CourseCompletions)
    → completions_of course (count_events events counts)
      ≡ events_of course events + completions_of course counts
completions_of-count_events course [] counts = ground arith
completions_of-count_events course (e ∷ events) counts =
    elim (Bool-cases (e.payload.course_id == "")) [
      | inl blank ↦ ground (
        arith,
        blank,
        eq_iff e.payload.course_id "",
        eq_iff e.payload.course_id course,
        eq_iff course "",
        completions_of-count_events course events counts,
      )
      | inr there ↦ ground (
        arith,
        there,
        eq_iff e.payload.course_id "",
        eq_iff e.payload.course_id course,
        eq_iff course "",
        completions_of-count_events course events (add_one e.payload.course_id counts),
        completions_of-add_one course e.payload.course_id counts,
      )
    ]

abbrev pub same_course : CourseCompletions → CourseCompletions → Bool
same_course a b = b.course_id == a.course_id

add_one-All :
    (a : CourseCompletions) (added : String) (counts : List CourseCompletions)
    → (added == a.course_id) ≡ false
    → All (λ b. same_course a b ≡ false) counts
    → All (λ b. same_course a b ≡ false) (add_one added counts)
add_one-All a added [] other h = (other, tt)
add_one-All a added (c ∷ counts) other h = elim (Bool-cases (c.course_id == added)) [
  | inl same ↦ ground (arith, same, h)
  | inr apart ↦ ground (arith, apart, h.0, add_one-All a added counts other h.1)
]

add_one-Keyed :
    (added : String) (counts : List CourseCompletions)
    → Keyed same_course counts
    → Keyed same_course (add_one added counts)
add_one-Keyed added [] h = (tt, tt)
add_one-Keyed added (c ∷ counts) h = elim (Bool-cases (c.course_id == added)) [
  | inl same ↦ ground (arith, same, h)
  | inr apart ↦
      let other : (added == c.course_id) ≡ false =
        ground (arith, apart, eq_iff c.course_id added, eq_iff added c.course_id) in
      ground (arith, apart, add_one-All c added counts other h.0, add_one-Keyed added counts h.1)
]

count_events-Keyed :
    (events : List EventBuffer) (counts : List CourseCompletions)
    → Keyed same_course counts
    → Keyed same_course (count_events events counts)
count_events-Keyed [] counts h = h
count_events-Keyed (e ∷ events) counts h = elim (Bool-cases (e.payload.course_id == "")) [
  | inl blank ↦ ground (arith, blank, count_events-Keyed events counts h)
  | inr there ↦
      ground
        (arith, there, count_events-Keyed events _ (add_one-Keyed e.payload.course_id counts h))
]

module _ (prisma : Prisma) where
  -- The report changes nothing. It is about the 5000 newest events of type course.completed of the
  -- tenant, or about all of them if there are no more: it lists each course once, and says of each
  -- course, by an id that is not empty, how many of these events are of it.
  pub completion_report-counts :
      (tenant_id : String) (db db' : Db) (rows : List CourseCompletions)
      → completion_report prisma tenant_id db ≡ (ok rows, db')
      → (db' ≡ db)
        × Keyed same_course rows
        × (events : List EventBuffer) × Newest 5000
            (λ e. (e.tenant_id == tenant_id) && (e.event_type == "course.completed"))
            (λ e. e.created_at)
            db.events
            events
        × ((course : String) → completions_of course rows ≡ events_of course events)
  unfolding completion_report gets
  completion_report-counts tenant_id db db' rows e =
      let events = completions_read prisma tenant_id db in
      let is : count_events events [] ≡ rows = ground (arith, e) in
      (
        ground (arith, e),
        subst (Keyed same_course) is (count_events-Keyed events [] tt),
        events,
        take-Newest prisma 5000 _ _ db.events,
        λ course.
            ap (completions_of course) (sym is)
            ∙ completions_of-count_events course events []
            ∙ omega arith,
      )
