-- ===== src/Analytics/Delivery/Letters.antt =====
-- apps/analytics-webhook-service: no failed event goes without a dead letter.
use nestjs_saas.Prelude.{
  ℕ, String, Option, none, some, Bool, true, false, not, List, [], ◌∷◌, map, if◌then◌else◌, ◌≡◌,
  refl, subst, arith, Option-cases, Bool-cases, inl, inr, ◌==◌, eq_iff, eq_refl, or_default,
  if_both, All, All-imp, exists, exists-found,
}
use nestjs_saas.Prisma.{Prisma}
use nestjs_saas.Analytics.State.{
  DeliveryStatus, pending, failed, WebhookEndpoint, EventBuffer, DeadLetterEvent, Db,
}
use nestjs_saas.Analytics.Backoff.{AnalyticsEnv}
use nestjs_saas.Analytics.Delivery.{
  WebhookRequest, FetchResult, response, rejected, Web, AttemptInputs, is_letter_of,
  update_endpoint, skip, defer, succeed, is_last, failed_attempt, new_letter, bury, count_failure,
  fail, request_of, settle, is_open, deliver_to, endpoint_of, deliver, deliver_all, pending_batch,
  deliver_pending_webhooks,
}
use nestjs_saas.Prisma.Rows.{create_free, All-update_many}

abbrev is_failed : DeliveryStatus → Bool
is_failed failed = true
is_failed _ = false

abbrev pub HasLetter : List DeadLetterEvent → EventBuffer → Type 0
HasLetter letters e = is_failed e.delivery_status ≡ true → exists (is_letter_of e.id) letters ≡ true

abbrev pub AllLettered : Db → Type 0
AllLettered db = All (HasLetter db.dead_letters) db.events

module _ (prisma : Prisma) where
  -- Events that change, before letters of which none was lost.
  events_updated :
      (test : EventBuffer → Bool) (change : EventBuffer → EventBuffer)
      (letters : List DeadLetterEvent) (rows : List EventBuffer)
      → ((e : EventBuffer) → test e ≡ true → HasLetter letters e → HasLetter letters (change e))
      → All (HasLetter letters) rows
      → All (HasLetter letters) (prisma.update_many test change rows).1
  events_updated test change letters rows keeps h =
      All-update_many prisma (HasLetter letters) test change rows (
        All-imp
          (λ e has. elim (Bool-cases (test e)) [
            | inl met ↦ rw met (keeps e met has)
            | inr other ↦ rw other has
          ])
          rows h)

  -- The letters that an `upsert` leaves.
  letters_kept :
      (id : String) (test : DeadLetterEvent → Bool) (change : DeadLetterEvent → DeadLetterEvent)
      (letters : List DeadLetterEvent)
      → ((d : DeadLetterEvent) → (change d).event_buffer_id ≡ d.event_buffer_id)
      → exists (is_letter_of id) letters ≡ true
      → exists (is_letter_of id) (prisma.update_many test change letters).1 ≡ true
  letters_kept id test change letters same h = rw prisma.update_many_lem (go letters h)
    where
      go :
          (rows : List DeadLetterEvent)
          → exists (is_letter_of id) rows ≡ true
          → exists (is_letter_of id) (map (λ d. if test d then change d else d) rows) ≡ true
      go [] h = h
      go (d ∷ rows) h = ground (arith, same d, h, go rows)

  module _ (env : AnalyticsEnv) (web : Web) where
    bury-keeps :
        (evt : EventBuffer) (message : String) (inputs : AttemptInputs) (db : Db) (id : String)
        → exists (is_letter_of id) db.dead_letters ≡ true
        → exists (is_letter_of id) (bury prisma env web evt message inputs db).dead_letters ≡ true
    bury-keeps evt message inputs db id h =
        elim (Option-cases (prisma.find_first (is_letter_of evt.id) db.dead_letters)) [
          | inr (old, found) ↦
              let kept =
                letters_kept id (is_letter_of evt.id)
                  (λ d. record d { failure_reason = message; failed_at = inputs.finished_at })
                  db.dead_letters (λ d. refl) h in
              ground (arith, kept)
          | inl missing ↦
              let made =
                create_free prisma (is_letter_of evt.id)
                  (new_letter prisma env web evt message inputs) db.dead_letters
                  (prisma.find_first_complete (is_letter_of evt.id) db.dead_letters missing) in
              ground (arith, made, h)
        ]

    bury-buried :
        (evt : EventBuffer) (message : String) (inputs : AttemptInputs) (db : Db)
        → exists (is_letter_of evt.id) (bury prisma env web evt message inputs db).dead_letters
          ≡ true
    bury-buried evt message inputs db =
        elim (Option-cases (prisma.find_first (is_letter_of evt.id) db.dead_letters)) [
          | inr (old, found) ↦
              let (met, listed) =
                prisma.find_first_sound (is_letter_of evt.id) db.dead_letters old found in
              bury-keeps evt message inputs db evt.id
                (exists-found (is_letter_of evt.id) db.dead_letters met listed)
          | inl missing ↦
              let made =
                create_free prisma (is_letter_of evt.id)
                  (new_letter prisma env web evt message inputs) db.dead_letters
                  (prisma.find_first_complete (is_letter_of evt.id) db.dead_letters missing) in
              ground (arith, made, eq_refl evt.id)
        ]

    fail-AllLettered :
        (evt : EventBuffer) (w : WebhookEndpoint) (message : String) (inputs : AttemptInputs)
        (db : Db)
        → AllLettered db
        → AllLettered (fail prisma env web evt w message inputs db)
    unfolding fail
    fail-AllLettered evt w message inputs db h =
        let letters = (bury prisma env web evt message inputs db).dead_letters in
        let more : All (HasLetter letters) db.events =
          All-imp (λ e has now_failed. bury-keeps evt message inputs db e.id (has now_failed))
            db.events h in
        if_both
          (λ d.
            AllLettered
              (update_endpoint prisma env web w.id (count_failure prisma env web w inputs) d))
          (is_last prisma env web evt)
          (events_updated (λ e. e.id == evt.id)
            (failed_attempt prisma env web evt failed message inputs) letters db.events
            (λ e met has now_failed.
              subst (λ i. exists (is_letter_of i) letters ≡ true)
                (ground (arith, met, eq_iff e.id evt.id)) (bury-buried evt message inputs db))
            more)
          (events_updated (λ e. e.id == evt.id)
            (failed_attempt prisma env web evt pending message inputs) db.dead_letters db.events
            (λ e met has. ground arith) h)

    deliver-AllLettered :
        (evt : EventBuffer) (inputs : AttemptInputs) (db : Db)
        → AllLettered db
        → AllLettered (deliver prisma env web evt inputs db).0
    unfolding deliver skip defer succeed
    deliver-AllLettered evt inputs db h = go (endpoint_of prisma env web evt db)
      where
        skipped_one : AllLettered (skip prisma env web evt inputs db)
        skipped_one = events_updated _ _ db.dead_letters db.events (λ e met has. ground arith) h

        deferred : (open_until : ℕ) → AllLettered (defer prisma env web evt open_until inputs db)
        deferred open_until = events_updated _ _ db.dead_letters db.events (λ e met has. has) h

        settled :
            (w : WebhookEndpoint) (r : FetchResult)
            → AllLettered (settle prisma env web evt w inputs r db)
        settled w (rejected message) = fail-AllLettered evt w message inputs db h
        settled w (response is_ok status status_text text) =
            if_both AllLettered is_ok
              (events_updated _ _ db.dead_letters db.events (λ e met has. ground arith) h)
              (fail-AllLettered evt w _ inputs db h)

        go :
            (o : Option WebhookEndpoint) → AllLettered (deliver_to prisma env web evt inputs o db).0
        go none = skipped_one
        go (some w) =
            if_both (λ (r : Db × List WebhookRequest). AllLettered r.0) (not w.is_active)
              skipped_one
              (if_both (λ (r : Db × List WebhookRequest). AllLettered r.0)
                (is_open prisma env web w.circuit_open_until inputs.started_at)
                (deferred (or_default w.circuit_open_until 0))
                (settled w (web.fetch (request_of prisma env web evt w))))

    delivered_all :
        (batch : List EventBuffer) (inputs : String → AttemptInputs) (db : Db)
        → AllLettered db
        → AllLettered (deliver_all prisma env web batch inputs db).0
    unfolding deliver_all
    delivered_all [] inputs db h = h
    delivered_all (evt ∷ batch) inputs db h =
        delivered_all batch inputs (deliver prisma env web evt (inputs evt.id) db).0
          (deliver-AllLettered evt (inputs evt.id) db h)

    -- If every failed event has a dead letter, this is still so after a run of the delivery job,
    -- whatever the endpoints answer.
    pub deliver_pending_webhooks-AllLettered :
        (now : ℕ) (inputs : String → AttemptInputs) (db : Db)
        → AllLettered db
        → AllLettered (deliver_pending_webhooks prisma env web now inputs db).1
    unfolding deliver_pending_webhooks
    deliver_pending_webhooks-AllLettered now inputs db h =
        delivered_all (pending_batch prisma env web now db) inputs db h
