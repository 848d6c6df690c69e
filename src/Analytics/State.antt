-- ===== src/Analytics/State.antt =====
-- apps/analytics-webhook-service/prisma/schema.prisma: the tables and their keys. A payload is the
-- JSON object that `appendEvent` makes. Times are milliseconds.
use nestjs_saas.Prelude.{ℕ, String, Option, none, some, Bool, List, or_default}
use nestjs_saas.Prisma.{Prisma}

pub data DeliveryStatus : Type 0 where
  pending delivered failed skipped : DeliveryStatus

-- `analyticsPayload`, with its metadata as a text
pub record Payload : Type 0 where
  pub event_type : String
  pub tenant_id : String
  pub user_id : String
  pub course_id : String
  pub enrollment_id : String
  pub occurred_at : ℕ
  pub metadata : String

pub record WebhookEndpoint : Type 0 where
  pub id : String
  pub updated_at : ℕ
  pub tenant_id : String
  pub url : String
  pub secret : String
  pub is_active : Bool
  pub consecutive_failures : ℕ
  pub last_failure_at : Option ℕ
  pub last_success_at : Option ℕ
  pub circuit_open_until : Option ℕ

pub record EventBuffer : Type 0 where
  pub id : String
  pub created_at : ℕ
  pub tenant_id : String
  pub event_type : String
  pub idempotency_key : String
  pub payload : Payload
  pub delivery_status : DeliveryStatus
  pub delivery_attempts : ℕ
  pub next_attempt_at : ℕ
  pub last_attempt_at : Option ℕ
  pub delivered_at : Option ℕ
  pub last_error : Option String

pub record DeadLetterEvent : Type 0 where
  pub id : String
  pub created_at : ℕ
  pub tenant_id : String
  pub event_buffer_id : String
  pub event_type : String
  pub idempotency_key : String
  pub payload : Payload
  pub failure_reason : String
  pub failed_at : ℕ
  pub requeued_at : Option ℕ

pub record Db : Type 0 where
  pub events : List EventBuffer
  pub endpoints : List WebhookEndpoint
  pub dead_letters : List DeadLetterEvent

-- `upsert` on a unique key: the row that has the key is updated, or a new one is created. No other
-- key of a new row is taken, since its id is fresh.
abbrev pub upsert : {R : Type 0} → Prisma → (R → Bool) → R → (R → R) → List R → List R
upsert prisma has_key new change rows = elim (prisma.find_first has_key rows) [
  | some old ↦ (prisma.update_many has_key change rows).1
  | none ↦ or_default (prisma.create has_key new rows) rows
]
