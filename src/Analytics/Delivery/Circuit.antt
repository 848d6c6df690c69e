-- ===== src/Analytics/Delivery/Circuit.antt =====
-- apps/analytics-webhook-service/src/analytics-webhook-service.service.ts: dead letters that were
-- requeued.
use nestjs_saas.Prelude.{
  ℕ, String, Option, none, some, Bool, not, List, [], ◌∷◌, map, if◌then◌else◌, ◌≡◌, refl, arith,
  if_both,
}
use nestjs_saas.Prisma.{Prisma}
use nestjs_saas.Analytics.State.{WebhookEndpoint, EventBuffer, DeadLetterEvent, Db}
use nestjs_saas.Analytics.Backoff.{AnalyticsEnv}
use nestjs_saas.Analytics.Delivery.{
  WebhookRequest, FetchResult, response, rejected, Web, AttemptInputs, is_letter_of,
  update_endpoint, skip, defer, succeed, is_last, count_failure, fail, request_of, settle, is_open,
  deliver_to, endpoint_of, deliver,
}

module _ (prisma : Prisma) (env : AnalyticsEnv) where
  -- What tells whether a letter is open.
  abbrev pub requeue_mark : DeadLetterEvent → String × Option ℕ
  requeue_mark d = (d.id, d.requeued_at)

  SameMarks : Db → Db → Type 0
  SameMarks db db' = map requeue_mark db'.dead_letters ≡ map requeue_mark db.dead_letters

  remarked :
      (test : DeadLetterEvent → Bool) (message : String) (now : ℕ) (rows : List DeadLetterEvent)
      → map requeue_mark (
          map
            (λ d. if test d then record d { failure_reason = message; failed_at = now } else d)
            rows)
        ≡ map requeue_mark rows
  remarked test message now [] = refl
  remarked test message now (d ∷ rows) = ground (arith, remarked test message now rows)

  fail-SameMarks :
      (web : Web) (evt : EventBuffer) (w : WebhookEndpoint) (message : String)
      (inputs : AttemptInputs) (db : Db) (d : DeadLetterEvent)
      → prisma.find_first (is_letter_of evt.id) db.dead_letters ≡ some d
      → SameMarks db (fail prisma env web evt w message inputs db)
  unfolding fail SameMarks
  fail-SameMarks web evt w message inputs db d found =
      let law =
        prisma.update_many_lem (is_letter_of evt.id)
          (λ d. record d { failure_reason = message; failed_at = inputs.finished_at })
          db.dead_letters in
      if_both
        (λ x.
          SameMarks db
            (update_endpoint prisma env web w.id (count_failure prisma env web w inputs) x))
        (is_last prisma env web evt)
        (ground (
          arith,
          found,
          law,
          remarked (is_letter_of evt.id) message inputs.finished_at db.dead_letters,
        ))
        refl

  -- A delivery never reopens a dead letter: an event that has one, and fails again after it was
  -- requeued, leaves every letter marked as requeued, or as open, as it was.
  pub requeued_stays :
      (web : Web) (evt : EventBuffer) (inputs : AttemptInputs) (db : Db) (d : DeadLetterEvent)
      → prisma.find_first (is_letter_of evt.id) db.dead_letters ≡ some d
      → map requeue_mark (deliver prisma env web evt inputs db).0.dead_letters
        ≡ map requeue_mark db.dead_letters
  unfolding deliver skip defer succeed SameMarks
  requeued_stays web evt inputs db d found = go (endpoint_of prisma env web evt db)
    where
      settled :
          (w : WebhookEndpoint) (r : FetchResult)
          → SameMarks db (settle prisma env web evt w inputs r db)
      settled w (rejected message) = fail-SameMarks web evt w message inputs db d found
      settled w (response is_ok status status_text text) =
          if_both (SameMarks db) is_ok refl (fail-SameMarks web evt w _ inputs db d found)

      go : (o : Option WebhookEndpoint) → SameMarks db (deliver_to prisma env web evt inputs o db).0
      go none = refl
      go (some w) =
          if_both (λ (r : Db × List WebhookRequest). SameMarks db r.0) (not w.is_active) refl
            (if_both (λ (r : Db × List WebhookRequest). SameMarks db r.0)
              (is_open prisma env web w.circuit_open_until inputs.started_at) refl
              (settled w (web.fetch (request_of prisma env web evt w))))
