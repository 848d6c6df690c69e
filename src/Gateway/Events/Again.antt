-- ===== src/Gateway/Events/Again.antt =====
-- apps/api-gateway and apps/analytics-webhook-service together: an update that is sent again.
use Prim.Native.String.{◌++◌ as append}
use text.Mathlib.TextLemmas.{append-eq-nil_iff}
use nestjs_saas.Prelude.{
  ℕ, String, Option, none, some, Bool, true, false, not, ◌&&◌, List, [], ◌∷◌, ◌++◌, ◌≡◌, ◌≢◌, refl,
  sym, ap, subst, ◌∙◌, arith, ◌==◌, eq_iff, or_default, Bool-cases, inl, inr,
}
use nestjs_saas.Exec.{ok}
use nestjs_saas.Prisma.{Prisma}
use nestjs_saas.Js.Date.{to_iso_string}
use nestjs_saas.Courses.State.{Enrollment}
use nestjs_saas.Courses.Enrollments.{UpdateEnrollment, completion, progressed}
use nestjs_saas.Analytics.State.{Db}
use nestjs_saas.Analytics.Events.{LearningEvent, Tracked, lesson_started}
use nestjs_saas.Analytics.Events.Known.{
  Known, found_of_Known, Known-append_event, append_event-Known,
}
use nestjs_saas.Analytics.Events.Once.{append_known}
use nestjs_saas.Gateway.Events.{
  EnrollmentSnapshot, iso, snapshot_of, EmitInputs, Metadata, is_truthy, started_key, emitted, when,
  start_event, started_now, finishing, completed_now, settle_all, emit_learning_events,
}

module _ (prisma : Prisma) where
  module _ (json : Metadata → String) where
    Known-settle_all :
        (key : String) (events : List (Tracked × LearningEvent)) (i : EmitInputs) (db : Db)
        → Known prisma key db
        → Known prisma key (settle_all json prisma events i db)
    unfolding settle_all
    Known-settle_all key [] i db h = h
    Known-settle_all key ((tracked, event) ∷ events) i db h =
        Known-settle_all key events i _
          (Known-append_event prisma key tracked event (i.event_id tracked) i.buffered_at db h)

    settle_all-Known :
        (begins : Bool) (event : LearningEvent) (events : List (Tracked × LearningEvent))
        (i : EmitInputs) (db : Db)
        → begins ≡ true
        → Known prisma event.idempotency_key (
            settle_all json prisma (when json begins ((lesson_started, event) ∷ []) ++ events) i db)
    unfolding settle_all
    settle_all-Known true event events i db h = Known-settle_all event.idempotency_key events i _ (
        append_event-Known prisma lesson_started event (i.event_id lesson_started) i.buffered_at db)
    settle_all-Known false event events i db h = absurd (ground (arith, h))

    -- An update that touches has left an event with the key of its start.
    emitted-Known :
        (before after : EnrollmentSnapshot) (i : EmitInputs) (db : Db)
        → i.touch_access ≡ true
        → Known prisma
            (start_event json after i).idempotency_key
            (settle_all json prisma (emitted json before after i) i db)
    emitted-Known before after i db touched =
        settle_all-Known (started_now json before after i) (start_event json after i)
          (finishing json before after i) i db (ground (arith, touched))

    letter : ◌≢◌ {A = String} "T" ""
    letter same = ground (arith, eq_iff "T" "", same)

    truthy_text : (p q : String) → is_truthy (some (append p (append "T" q))) ≡ true
    truthy_text p q = elim (Bool-cases (append p (append "T" q) == "")) [
      | inl empty ↦ absurd (
          letter
            (append-eq-nil_iff.0
              (append-eq-nil_iff.0 ((eq_iff (append p (append "T" q)) "").0 empty)).1).0)
      | inr more ↦ ap not more
    ]

    truthy_iso : (t : ℕ) → is_truthy (some (to_iso_string t)) ≡ true
    unfolding to_iso_string
    truthy_iso t = truthy_text _ _

    quiet :
        (before after : EnrollmentSnapshot) (i : EmitInputs)
        → before.lessons_completed ≡ after.lessons_completed
        → before.progress_percent ≡ after.progress_percent
        → completed_now json before after ≡ false
        → emitted json before after i
          ≡ when json i.touch_access ((lesson_started, start_event json after i) ∷ [])
    quiet before after i lessons progress completed = ground (arith, lessons, progress, completed)

    -- A time of completion that is set again is set in both.
    not_completed_now : (a b : Bool) → (a ≡ b) → not a && b ≡ false
    not_completed_now a b same = ground (arith, same)

    completion_again :
        (completed : Option Bool) (first second : ℕ) (c : Option ℕ)
        → is_truthy (iso (completion prisma completed first c))
          ≡ is_truthy
              (iso (completion prisma completed second (completion prisma completed first c)))
    unfolding iso to_iso_string
    completion_again none first second c = refl
    completion_again (some false) first second c = refl
    completion_again (some true) first second c = truthy_iso first ∙ sym (truthy_iso second)

    kept_again :
        {A : Type 0} → (o : Option A) (d : A) → or_default o d ≡ or_default o (or_default o d)
    kept_again none d = refl
    kept_again (some x) d = refl

    completed_once :
        (p : UpdateEnrollment) (first second : ℕ) (e : Enrollment)
        → completed_now json
            (snapshot_of (progressed prisma p first e))
            (snapshot_of (progressed prisma p second (progressed prisma p first e)))
          ≡ false
    unfolding snapshot_of
    completed_once p first second e =
        not_completed_now _ _ (completion_again p.completed first second e.completed_at)

    -- An event whose key is there changes nothing.
    settle_again :
        (begins : Bool) (event : LearningEvent) (i : EmitInputs) (db : Db)
        → (begins ≡ true → Known prisma event.idempotency_key db)
        → settle_all json prisma (when json begins ((lesson_started, event) ∷ [])) i db ≡ db
    unfolding settle_all
    settle_again false event i db known = refl
    settle_again true event i db known =
        let (e, found) = found_of_Known prisma event.idempotency_key db (known refl) in
        ap (λ r. r.1)
          (append_known prisma lesson_started event (i.event_id lesson_started) i.buffered_at db e
            found)

    key_of :
        (before after : EnrollmentSnapshot) (touched : Bool)
        → before.id ≡ after.id
        → before.lessons_completed ≡ after.lessons_completed
        → before.progress_percent ≡ after.progress_percent
        → started_key before touched ≡ started_key after touched
    unfolding started_key
    key_of before after touched id lessons progress = rw id (rw lessons (rw progress refl))

    again-events :
        (start before after : EnrollmentSnapshot) (i j : EmitInputs) (db : Db)
        → i.touch_access ≡ j.touch_access
        → started_key before j.touch_access ≡ started_key after j.touch_access
        → emitted json before after j
          ≡ when json j.touch_access ((lesson_started, start_event json after j) ∷ [])
        → let left = settle_all json prisma (emitted json start before i) i db in
          settle_all json prisma (emitted json before after j) j left ≡ left
    again-events start before after i j db alike key none_new =
        let left = settle_all json prisma (emitted json start before i) i db in
        let known : j.touch_access ≡ true → Known prisma (started_key after j.touch_access) left =
          (λ touched.
            subst (λ k. Known prisma k left) (ap (started_key before) alike ∙ key)
              (emitted-Known start before i db (alike ∙ touched))) in
        rw none_new (settle_again j.touch_access (start_event json after j) j left known)

    -- After an update of an enrollment, the events of the same update sent again, at whatever later
    -- time and under whatever ids, leave the tables of the analytics service as they are.
    pub emit_learning_events_again :
        (p : UpdateEnrollment) (first second : ℕ) (e : Enrollment) (i j : EmitInputs) (db : Db)
        → i.touch_access ≡ j.touch_access
        → let updated = progressed prisma p first e in
          let again = progressed prisma p second updated in
          let left =
            (emit_learning_events json prisma (snapshot_of e) (snapshot_of updated) i db).1 in
          emit_learning_events json prisma (snapshot_of updated) (snapshot_of again) j left
          ≡ (ok tt, left)
    unfolding emit_learning_events snapshot_of
    emit_learning_events_again p first second e i j db alike =
        let updated = snapshot_of (progressed prisma p first e) in
        let again = snapshot_of (progressed prisma p second (progressed prisma p first e)) in
        let lessons = kept_again p.lessons_completed e.lessons_completed in
        let progress = kept_again p.progress_percent e.progress_percent in
        ap (λ db. (ok tt, db))
          (again-events (snapshot_of e) updated again i j db alike
            (key_of updated again j.touch_access refl lessons progress)
            (quiet updated again j lessons progress (completed_once p first second e)))
