-- ===== src/Gateway/Courses/Isolation.antt =====
-- apps/api-gateway and apps/course-service together: a request changes nothing of another tenant's.
use nestjs_saas.Prelude.{
  String, Option, none, some, false, List, [], ◌∷◌, ◌≡◌, ◌≢◌, refl, sym, ap, subst, ◌∙◌, arith, All,
  Option-cases, inl, inr,
}
use nestjs_saas.Exec.{ok}
use nestjs_saas.Exec.Keeps.{after_lift}
use nestjs_saas.Prisma.{Prisma}
use nestjs_saas.Js.Text.{trim}
use nestjs_saas.Courses.State.{Db as CoursesDb}
use nestjs_saas.Courses.Calls.{Call, caller, after_call_of}
use nestjs_saas.Courses.Calls.References.{IsSound}
use nestjs_saas.Courses.Calls.Integrity.{call-IsSound}
use nestjs_saas.Courses.Calls.Apart.{SameRows, unchanged}
use nestjs_saas.Courses.Calls.Isolation.{call-SameRows}
use nestjs_saas.Courses.Dto.{Validator}
use nestjs_saas.Courses.Messages.{Message, handle_message}
use nestjs_saas.Courses.Messages.Effects.{
  effect, sender, caller-effect, after_effect, handle_message-effect,
}
use nestjs_saas.Gateway.Guards.{JwtAccessPayload, AuthenticatedUser, Route, Request, before_handler}
use nestjs_saas.Gateway.Access.{before_handler-user}
use nestjs_saas.Gateway.Endpoints.{Endpoint, get_tenant}
use nestjs_saas.Gateway.Courses.{World, Inputs, Deployment, serve, route_of}
use nestjs_saas.Gateway.Courses.Effects.{handle-Keeps}

module _ (prisma : Prisma) (other : String) (start : CoursesDb) where
  -- The tables are sound, and hold of the other tenant what they held at the start.
  pub record Untouched (db : CoursesDb) : Type 0 where
    pub sound : IsSound db
    pub same : SameRows prisma other start db

  call-Untouched :
      (call : Call) (db : CoursesDb)
      → caller call ≢ other
      → Untouched db
      → Untouched (after_call_of prisma call db)
  call-Untouched call db apart h =
      let one = call-SameRows prisma other call db apart h.sound in
      record {
        sound = call-IsSound prisma call db h.sound;
        same = record {
          courses = one.courses ∙ h.same.courses;
          lessons = one.lessons ∙ h.same.lessons;
          enrollments = one.enrollments ∙ h.same.enrollments;
        };
      }

  pub message-Untouched :
      (v : Validator) (t : String)
      → t ≢ other
      → (m : Message) (db : CoursesDb) → sender m ≡ t
      → Untouched db
      → Untouched (handle_message prisma v m db).1
  message-Untouched v t apart m db by h =
      subst Untouched (sym (handle_message-effect prisma v m db))
        (elim (Option-cases (effect v m)) [
          | inl nothing ↦ subst (λ o. Untouched (after_effect prisma o db)) (sym nothing) h
          | inr (call, is) ↦
              subst (λ o. Untouched (after_effect prisma o db)) (sym is)
                (call-Untouched call db (λ e. apart (sym (caller-effect v m call is ∙ by) ∙ e)) h)
        ])

-- The tenant that a token's claims name, without white space around.
abbrev pub claimed_tenant : Option JwtAccessPayload → Option String
unfolding trim
claimed_tenant none = none
claimed_tenant (some payload) = elim payload.tenant_id [ none ↦ none | some t ↦ some (trim t) ]

abbrev pub token_claims :
    (String → Option JwtAccessPayload) → Option String → Option JwtAccessPayload
token_claims verify none = none
token_claims verify (some token) = verify token

got_none : {A : Type 0} (t : String) → get_tenant none ≡ ok t → A
unfolding get_tenant
got_none t e = cc e

got_some : (s t : String) → get_tenant (some s) ≡ ok t → trim s ≡ t
unfolding get_tenant
got_some s t e = ground (arith, e)

module _ (d : Deployment) where
  -- The tenant of the token of a request, if it has one that is accepted.
  abbrev pub tenant_of : Request → Option String
  tenant_of request = claimed_tenant (token_claims d.verify request.bearer)

  -- A handler runs for the tenant of the token.
  pub get_tenant-tenant_of :
      (request : Request) (route : Route) (found : Option AuthenticatedUser)
      (tenant : Option String) (t : String)
      → route.is_public ≡ false
      → before_handler d.verify route request ≡ ok (found, tenant)
      → get_tenant tenant ≡ ok t
      → tenant_of request ≡ some t
  unfolding get_tenant
  get_tenant-tenant_of request route found tenant t protected passed got =
      let (user, token, payload, is_user, has_token, verified, seen, in_role, in_scope, same) =
        before_handler-user d.verify route request found tenant protected passed in
      elim same [
        | inr (nothing, optional) ↦ got_none t (ap get_tenant (sym nothing) ∙ got)
        | inl own ↦
            let trimmed = got_some user.tenant_id t (ap get_tenant (sym own) ∙ got) in
            ap (λ b. claimed_tenant (token_claims d.verify b)) has_token
            ∙ ap claimed_tenant verified
            ∙ ap (λ o. claimed_tenant (some (record payload { tenant_id = o }))) seen.tenant_id
            ∙ ap some trimmed
      ]

  -- Requests, one after another.
  pub serve_all : List (Request × Endpoint × Inputs) → World → World
  serve_all [] w = w
  serve_all ((request, endpoint, inputs) ∷ requests) w =
      serve_all requests (serve d request endpoint inputs w).1

  serve-Keeps :
      (Q : CoursesDb → Type 0) (request : Request) (endpoint : Endpoint) (inputs : Inputs)
      → ((t : String)
          → tenant_of request ≡ some t
          → (m : Message) (db : CoursesDb) → sender m ≡ t
          → Q db
          → Q (handle_message d.prisma d.validator m db).1)
      → (w : World) → Q w.courses
      → Q (serve d request endpoint inputs w).1.courses
  unfolding serve
  serve-Keeps Q request endpoint inputs keeps w h =
      after_lift (λ v. Q v.courses) _ _ w h
        λ found passed.
          after_lift (λ v. Q v.courses) _ _ w h
            λ t got.
              (handle-Keeps d Q t
                  (keeps t (
                    get_tenant-tenant_of request (route_of d endpoint) found.0 found.1 t refl passed
                      got))
                  endpoint found.0 inputs).kept
                w h

  -- Tenants are isolated from the gateway on: from sound tables of the course service, no requests,
  -- whatever endpoints, ids and headers they name, add, change or remove a course, lesson or
  -- enrollment of a tenant, unless a request brings a token that is accepted and names that tenant,
  -- up to white space around the name.
  pub serve_all-SameRows :
      (other : String) (requests : List (Request × Endpoint × Inputs)) (w : World)
      → All (λ r. tenant_of r.0 ≢ some other) requests
      → IsSound w.courses
      → SameRows d.prisma other w.courses (serve_all requests w).courses
  unfolding serve_all
  serve_all-SameRows other requests w apart sound =
      let start : Untouched d.prisma other w.courses w.courses = record {
        sound = sound;
        same = unchanged d.prisma other w.courses;
      } in
      (go requests w apart start).same
    where
      go :
          (requests : List (Request × Endpoint × Inputs)) (v : World)
          → All (λ r. tenant_of r.0 ≢ some other) requests
          → Untouched d.prisma other w.courses v.courses
          → Untouched d.prisma other w.courses (serve_all requests v).courses
      go [] v apart h = h
      go ((request, endpoint, inputs) ∷ requests) v apart h =
          go requests (serve d request endpoint inputs v).1 apart.1 (
            serve-Keeps (Untouched d.prisma other w.courses) request endpoint inputs
              (λ t of_t.
                message-Untouched d.prisma other w.courses d.validator t
                  (λ same. apart.0 (of_t ∙ ap some same)))
              v h)
