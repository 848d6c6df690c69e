-- ===== src/Lib.antt =====
-- NestJS SaaS LMS: a model of the services of this repository and the theorems that make them
-- correct. The backend is a set of NestJS processes, each with a PostgreSQL database of its own
-- that it reaches through a Prisma client: `apps/auth-org-service` (tenants, users, invites, seats,
-- sessions and Stripe billing), `apps/course-service` (courses, lessons and enrollments),
-- `apps/analytics-webhook-service` (learning events and their delivery), and `apps/api-gateway`,
-- the HTTP entry point, which calls the other three over TCP. `libs/common` holds what they share:
-- roles, subscription tiers, the seat policy and the Stripe price catalog.
--
-- How the code is read.
--   * A method of a service is an `Action S A` (Exec.antt): a function from the tables to a result
--     and the tables it leaves. A thrown exception is the result `err` with its HTTP status and
--     message; what was written before it stays written, as in the code, which opens no transaction
--     around these methods. Field names follow the source in snake case (`usedAt` is `used_at`).
--   * The Prisma client is a parameter, `Prisma` (Prisma.antt): a record of the queries the services
--     make with the documented behaviour of each as a law. `Prisma/ByLists.antt` fills it with
--     functions on lists, which the examples run. `Prisma/Windows.antt` says what `take` with an order
--     leaves. A unique key is the `clash` argument of `create`.
--   * bcryptjs, node:crypto and the JWT service are the parameter `Crypto` (Auth/State.antt), whose
--     `sign` rejects a time to live that is NaN; the clock, random tokens and generated ids are
--     arguments (`AcceptInputs`, `LoginInputs`, ...), one for each reading. Logging is left out.
--   * Numbers are ℕ, where the code's are small non-negative integers (seats, milliseconds). A
--     subtraction is written where the code cannot go below 0. `toLowerCase` is modelled on ASCII.
--   * The Stripe SDK is the parameter `Stripe` (Billing/Stripe.antt), whose calls answer or reject,
--     and which checks a signature at the time it is called; the HTTP client of the delivery job is
--     the parameter `Web` (Analytics/Delivery.antt); passport-jwt is `verify`, the claims of a token
--     that it accepts (Gateway/Guards.antt).
--   * The TCP transport is the parameter `Transport` (Gateway/Rpc.antt): what a client gets for what a
--     handler threw. class-validator is `Validator` (Courses/Dto.antt), which decides the form of a
--     UUID. `Deployment` (Gateway/Courses.antt) holds all that the gateway leaves to others. Calls
--     from one process to another are made one after another.
--   * `Math.random()` is a number of steps of 2 ^ -53; the products of `backoffMs` are not rounded to
--     doubles.
--   * Every operation is a total function by structural recursion: no fuel is used. A loop over rows is
--     a recursion on the list of rows.
--
-- Which file models what.
--   Js/Text, Js/Number      the string methods, `parseInt` and `Math.max` the code calls
--   Js/Maps                 `Map`, in the order of insertion
--   Common/Roles            libs/common/src/auth (role.enum.ts, rbac.ts)
--   Common/Tiers            libs/common/src/subscription/subscription-tier.ts
--   Common/Seats            libs/common/src/billing/seat-policy.ts
--   Common/Catalog          libs/common/src/billing/stripe-catalog.ts
--   Auth/State              apps/auth-org-service/prisma/schema.prisma and the service's settings
--   Auth/Seats              assertSeatCapacityForNewActiveLearner, assertSeatAvailable
--   Auth/Domains            normalizeEmail, ensureDomainAllowed
--   Auth/Tenants            registerTenant
--   Auth/Invites            createInvite, acceptInvite, cleanupExpiredInvites
--   Auth/Sessions           login, refreshSession, logoutSession, logoutAllSessions, clean-up
--   Auth/Controller         apps/auth-org-service/src/auth-org-service.controller.ts: its errors
--   Auth/Operations         billingOpsSummary, with `groupBy` of the client as `Grouping`
--   Auth/Calls              the service as a sequence of calls
--   Ordering                `orderBy` of the client
--   Js/Date                 toISOString
--   Billing/Stripe          what stripe-billing.service.ts reads of the Stripe SDK
--   Billing/Subscriptions   apps/auth-org-service/src/billing: syncSubscriptionRecord and its callers
--   Billing/Webhooks        processWebhookEventOnce, handleWebhookPayload
--   Billing/Checkout        createCheckoutSession and billing-checkout.controller.ts
--   Courses/State           apps/course-service/prisma/schema.prisma
--   Courses/Catalog, Lessons, Enrollments
--                           apps/course-service/src/course-service.service.ts
--   Courses/Calls           the service as a sequence of calls
--   Courses/Dto             apps/course-service/src/dto/tcp-payloads.dto.ts
--   Courses/Messages        apps/course-service/src/course-service.controller.ts behind the DTOs
--   Analytics/State         apps/analytics-webhook-service/prisma/schema.prisma
--   Analytics/Events        apps/analytics-webhook-service: appendEvent, the lists, dead letters
--   Analytics/Backoff       backoffMs and the settings of the circuit breaker
--   Analytics/Delivery      deliverPendingWebhooks, with the requests it makes as its result
--   Analytics/Reports       completionReport
--   Analytics/Activity      engagementReport and eventVolumeReport
--   Gateway/Tenants         libs/common/src/tenant: the tenant middleware and interceptor
--   Gateway/Guards          apps/api-gateway/src/auth/index.ts: JwtStrategy and the guards
--   Gateway/Rpc             apps/api-gateway/src/core/tcp-rpc.ts
--   Gateway/Events          apps/api-gateway/src/analytics/analytics-gateway.service.ts: the learning
--                           events of an update of an enrollment
--   Gateway/Endpoints       apps/api-gateway/src/courses: the handlers, their roles and bodies
--   Gateway/Courses         apps/api-gateway/src/courses: a request from the guards to the reply, by
--                           way of course-gateway.service.ts and the other services
--   Gateway/Auth            apps/api-gateway/src/auth: auth.controller.ts, dto.ts and the calls of
--                           auth-gateway.service.ts
--   Gateway/Metrics         apps/api-gateway/src/core/gateway-metrics.service.ts and its callers
--   Gateway/Throttle        apps/api-gateway/src/core/gateway-throttler.guard.ts
-- In each folder, the files below a component are named for what they prove; `Examples.antt` runs
-- the operations on small tables.
--
-- Not modelled: the gateway's endpoints for analytics and `tenantAuthEcho`, its readiness and alerts,
-- the snapshot of its metrics, the rounded rates in the reports; Swagger,
-- module wiring, e-mail text, log lines, scripts and load tests, which carry no decisions of their own. The
-- message of an error that Prisma throws is named by its code or by what it says first.
pub mod Prelude
pub mod Js
pub mod Exec
pub mod Prisma
pub mod Common
pub mod Auth
pub mod Billing
pub mod Courses
pub mod Analytics
pub mod Gateway
pub mod Ordering
