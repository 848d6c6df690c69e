-- ===== src/Billing/Stripe.antt =====
-- The Stripe SDK, which is not part of the repository: the objects that
-- apps/auth-org-service/src/billing/stripe-billing.service.ts reads, and the calls it makes, whose
-- answers are a parameter.
use nestjs_saas.Prelude.{◌≡◌, ℕ, String, Option, none, some, List, if◌then◌else◌, ◌==◌}
use nestjs_saas.Exec.{Result, ok}
use nestjs_saas.Js.Text.{trim}
use nestjs_saas.Auth.State.{Env}

-- A field that holds an id or the object itself.
pub data Expandable (A : Type 0) : Type 0 where
  by_id : String → Expandable A
  expanded : A → Expandable A

-- `active` and `trialing` are the paying ones.
pub data SubscriptionStatus : Type 0 where
  incomplete incomplete_expired trialing active past_due canceled unpaid paused : SubscriptionStatus

pub record SubscriptionItem : Type 0 where
  pub price : Expandable String
  pub quantity : Option ℕ

pub record Subscription : Type 0 where
  pub id : String
  pub status : SubscriptionStatus
  pub metadata_tenant_id : Option String
  pub customer : Option (Expandable String)
  pub items : List SubscriptionItem

pub data RetrievedCustomer : Type 0 where
  deleted_customer : RetrievedCustomer
  customer : (metadata_tenant_id : Option String) → RetrievedCustomer

pub record Invoice : Type 0 where
  pub subscription : Option (Expandable String)

pub data CheckoutMode : Type 0 where
  payment setup subscription : CheckoutMode

pub record CheckoutSession : Type 0 where
  pub metadata_tenant_id : Option String
  pub customer : Option (Expandable String)
  pub mode : CheckoutMode
  pub subscription : Option (Expandable Subscription)

pub data SubscriptionEvent : Type 0 where
  created updated deleted paused resumed pending_update_applied pending_update_expired
        trial_will_end :
      SubscriptionEvent

pub data InvoiceEvent : Type 0 where
  paid payment_succeeded payment_failed finalized voided : InvoiceEvent

-- `event.type` with `event.data.object`
pub data EventBody : Type 0 where
  checkout_session_completed : CheckoutSession → EventBody
  subscription_event : SubscriptionEvent → Subscription → EventBody
  invoice_event : InvoiceEvent → Invoice → EventBody
  other_event : (type : String) → EventBody

pub record Event : Type 0 where
  pub id : String
  pub body : EventBody

-- What `checkout.sessions.create` is given of this service's making.
pub record CheckoutRequest : Type 0 where
  pub customer : String
  pub price : String
  pub quantity : ℕ
  pub success_url : String
  pub cancel_url : String
  pub tenant_id : String
  pub initiated_by_user_id : Option String

pub record CreatedSession : Type 0 where
  pub id : String
  pub url : Option String

-- Each call answers or rejects. The SDK checks a signature at the time it is called, and takes the
-- event from the payload alone.
pub record Stripe : Type 0 where
  pub retrieve_customer : String → Result RetrievedCustomer
  pub retrieve_subscription : String → Result Subscription
  pub create_customer : (tenant_id : String) → Result String
  pub create_session : CheckoutRequest → Result CreatedSession
  pub construct_event : (raw_body signature secret : String) → (now : ℕ) → Result Event
  pub parse_event : (raw_body : String) → Event
  pub construct_event_lem :
      (raw_body signature secret : String) (now : ℕ) (event : Event)
      → construct_event raw_body signature secret now ≡ ok event
      → event ≡ parse_event raw_body

-- What the service reads of its environment beside the price ids.
pub record BillingEnv : Type 0 where
  pub auth : Env
  pub stripe_price_pro : Option String
  pub stripe_price_enterprise : Option String
  pub stripe_webhook_secret : Option String
  pub billing_checkout_return_base_url : Option String
  pub internal_service_secret : Option String

abbrev pub id_of : Expandable String → String
id_of (by_id id) = id
id_of (expanded id) = id

-- A text that is a condition: `undefined`, `null` and the empty text are false.
abbrev pub truthy : Option String → Option String
truthy none = none
truthy (some s) = if s == "" then none else some s

-- `field?.trim() || null`
unfoldable pub trimmed : Option String → Option String
unfolding trim
trimmed none = none
trimmed (some s) = truthy (some (trim s))
