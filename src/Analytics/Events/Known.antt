-- ===== src/Analytics/Events/Known.antt =====
-- apps/analytics-webhook-service/src/analytics-webhook-service.service.ts: what tracking an event
-- leaves, and which events are there.
use nestjs_saas.Prelude.{
  ℕ, String, some, true, false, ◌∷◌, ◌≡◌, refl, sym, subst, arith, eq_refl, Option-cases, inl, inr,
  ◌⊎◌, Memᴰ, All, All-at,
}
use nestjs_saas.Exec.{modify}
use nestjs_saas.Prisma.{Prisma}
use nestjs_saas.Prisma.Rows.{create_free}
use nestjs_saas.Analytics.State.{EventBuffer, Db}
use nestjs_saas.Analytics.Events.{LearningEvent, Tracked, has_key, new_event, append_event}
use nestjs_saas.Analytics.Events.Once.{unchanged}

module _ (prisma : Prisma) where
  -- There is an event with the key.
  abbrev pub Known : String → Db → Type 0
  Known key db = (e : EventBuffer) × Memᴰ e db.events × (has_key key e ≡ true)

  pub found_of_Known :
      (key : String) (db : Db)
      → Known key db
      → (e : EventBuffer) × (prisma.find_first (has_key key) db.events ≡ some e)
  found_of_Known key db (x, listed, met) =
      elim (Option-cases (prisma.find_first (has_key key) db.events)) [
        | inr found ↦ found
        | inl missing ↦
            let none_has =
              All-at _ db.events (prisma.find_first_complete (has_key key) db.events missing)
                listed in
            absurd (ground (arith, none_has, met))
      ]

  -- Tracking an event leaves what is there, and adds the event if its key is new.
  pub append_event-rows :
      (tracked : Tracked) (event : LearningEvent) (id : String) (now : ℕ) (db : Db)
      → let after = (append_event prisma tracked event id now db).1 in
        ((after.events ≡ db.events) × Known event.idempotency_key db)
        ⊎ ((after.events ≡ new_event tracked event id now ∷ db.events)
            × All (λ x. has_key event.idempotency_key x ≡ false) db.events)
  unfolding append_event modify
  append_event-rows tracked event id now db =
      let test = has_key event.idempotency_key in
      elim (Option-cases (prisma.find_first test db.events)) [
        | inr (old, found) ↦
            let (met, listed) = prisma.find_first_sound test db.events old found in
            inl (ground (arith, found, unchanged prisma test db.events), (old, listed, met))
        | inl missing ↦
            let apart = prisma.find_first_complete test db.events missing in
            inr (
              ground (
                arith,
                missing,
                create_free prisma test (new_event tracked event id now) db.events apart,
              ),
              apart,
            )
      ]

  pub Known-append_event :
      (key : String) (tracked : Tracked) (event : LearningEvent) (id : String) (now : ℕ) (db : Db)
      → Known key db
      → Known key (append_event prisma tracked event id now db).1
  Known-append_event key tracked event id now db (x, listed, met) =
      elim (append_event-rows tracked event id now db) [
        | inl (same, known) ↦ (x, subst (Memᴰ x) (sym same) listed, met)
        | inr (more, apart) ↦ (x, subst (Memᴰ x) (sym more) (Memᴰ.tail listed), met)
      ]

  pub append_event-Known :
      (tracked : Tracked) (event : LearningEvent) (id : String) (now : ℕ) (db : Db)
      → Known event.idempotency_key (append_event prisma tracked event id now db).1
  append_event-Known tracked event id now db = elim (append_event-rows tracked event id now db) [
    | inl (same, (x, listed, met)) ↦ (x, subst (Memᴰ x) (sym same) listed, met)
    | inr (more, apart) ↦ (
      new_event tracked event id now,
      subst (Memᴰ _) (sym more) (Memᴰ.head refl),
      eq_refl event.idempotency_key,
    )
  ]
