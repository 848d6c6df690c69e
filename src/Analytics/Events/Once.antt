-- ===== src/Analytics/Events/Once.antt =====
-- apps/analytics-webhook-service/src/analytics-webhook-service.service.ts: an event whose
-- idempotency key is there.
use nestjs_saas.Prelude.{ℕ, String, some, Bool, List, [], ◌∷◌, map, if◌then◌else◌, ◌≡◌, refl, arith}
use nestjs_saas.Exec.{ok, modify}
use nestjs_saas.Prisma.{Prisma}
use nestjs_saas.Analytics.State.{EventBuffer, Db}
use nestjs_saas.Analytics.Events.{LearningEvent, Tracked, has_key, append_event}

module _ (prisma : Prisma) where
  pub unchanged :
      (test : EventBuffer → Bool) (rows : List EventBuffer)
      → (prisma.update_many test (λ e. e) rows).1 ≡ rows
  unchanged test rows = rw prisma.update_many_lem (go rows)
    where
      go : (rows : List EventBuffer) → map (λ e. if test e then e else e) rows ≡ rows
      go [] = refl
      go (r ∷ rows) = ground (arith, go rows)

  -- A key that is there: nothing is written.
  pub append_known :
      (tracked : Tracked) (payload : LearningEvent) (id : String) (now : ℕ) (db : Db)
      (e : EventBuffer)
      → prisma.find_first (has_key payload.idempotency_key) db.events ≡ some e
      → append_event prisma tracked payload id now db ≡ (ok tt, db)
  unfolding append_event modify
  append_known tracked payload id now db e found =
      ground (arith, unchanged (has_key payload.idempotency_key) db.events)
