-- ===== src/Analytics/Delivery/Requests.antt =====
-- apps/analytics-webhook-service/src/analytics-webhook-service.service.ts: where the requests of the
-- delivery job go.
use nestjs_saas.Prelude.{
  ℕ, ◌≤◌, ◌<◌, String, some, Bool, true, false, not, ◌&&◌, List, [], ◌∷◌, ◌++◌, Memᴰ, if◌then◌else◌,
  ◌≡◌, refl, sym, ap, subst, ◌∙◌, arith, Option-cases, inl, inr, ◌==◌, leb, eq_iff, All, All-at,
  All-imp, All-of_mem, All-take,
}
use nestjs_saas.Exec.{ok}
use nestjs_saas.Prisma.{Prisma}
use nestjs_saas.Prisma.Rows.{All-update_many, All-find_many, find_many-test}
use nestjs_saas.Analytics.State.{DeliveryStatus, pending, WebhookEndpoint, EventBuffer, Db}
use nestjs_saas.Analytics.Backoff.{AnalyticsEnv}
use nestjs_saas.Analytics.Delivery.{
  FetchResult, response, rejected, WebhookRequest, Web, AttemptInputs, is_pending, skip, defer,
  succeed, is_last, count_failure, body_of, fail, request_of, settle, is_open, deliver_to,
  endpoint_of, deliver, deliver_all, pending_batch, deliver_pending_webhooks,
}

-- What the job never changes of an endpoint
abbrev identity : WebhookEndpoint → String × String × String × String × Bool
identity w = (w.id, w.tenant_id, w.url, w.secret, w.is_active)

-- The primary key
abbrev pub HasDistinctIds : List WebhookEndpoint → Type 0
HasDistinctIds rows = (v w : WebhookEndpoint) → Memᴰ v rows → Memᴰ w rows → v.id ≡ w.id → v ≡ w

-- The circuit is open at every reading of the clock before an attempt.
abbrev pub IsOpenThroughout : (String → AttemptInputs) → WebhookEndpoint → Type 0
IsOpenThroughout inputs w =
    (t : ℕ) × (w.circuit_open_until ≡ some t) × ((id : String) → (inputs id).started_at < t)

All-join : {A : Type 0} (P : A → Type 0) (xs ys : List A) → All P xs → All P ys → All P (xs ++ ys)
All-join P [] ys h k = k
All-join P (x ∷ xs) ys h k = (h.0, All-join P xs ys h.1 k)

All-both :
    {A : Type 0} (P Q : A → Type 0) (xs : List A) → All P xs → All Q xs → All (λ x. P x × Q x) xs
All-both P Q [] h k = tt
All-both P Q (x ∷ xs) h k = ((h.0, k.0), All-both P Q xs h.1 k.1)

-- Both branches, each with what the test says.
if_either :
    {A : Type 0} (P : A → Type 0) (b : Bool) {x y : A}
    → (b ≡ true → P x)
    → (b ≡ false → P y)
    → P (if b then x else y)
if_either P true h k = h refl
if_either P false h k = k refl

module _ (prisma : Prisma) (env : AnalyticsEnv) (web : Web) (inputs : String → AttemptInputs)
    (start : List WebhookEndpoint) where
  -- The row of an endpoint, as the job finds it, comes from one that was there at the start.
  record Origin (row : WebhookEndpoint) : Type 0 where
    first : WebhookEndpoint
    listed : Memᴰ first start
    same : identity row ≡ identity first
    circuit : IsOpenThroughout inputs first → row.circuit_open_until ≡ first.circuit_open_until

  -- A request for an event, of an endpoint of its tenant that is active and not open throughout.
  pub record IsAddressed (e : EventBuffer) (request : WebhookRequest) : Type 0 where
    pub endpoint : WebhookEndpoint
    pub listed : Memᴰ endpoint start
    pub of_tenant : endpoint.tenant_id ≡ e.tenant_id
    pub active : endpoint.is_active ≡ true
    pub closed : IsOpenThroughout inputs endpoint → ⊥
    pub url : request.url ≡ endpoint.url
    pub event_id : request.event_id ≡ e.id
    pub idempotency_key : request.idempotency_key ≡ e.idempotency_key
    pub signature : request.signature ≡ web.sign endpoint.secret request.body
    pub body : request.body ≡ record {
      id = e.id;
      tenant_id = e.tenant_id;
      event_type = e.event_type;
      idempotency_key = e.idempotency_key;
      payload = e.payload;
    }

  changed :
      (distinct : HasDistinctIds start) (w : WebhookEndpoint)
      (change : WebhookEndpoint → WebhookEndpoint)
      → ((r : WebhookEndpoint) → identity (change r) ≡ identity r)
      → (o : Origin w) → (IsOpenThroughout inputs o.first → ⊥)
      → (rows : List WebhookEndpoint) → All Origin rows
      → All Origin (prisma.update_many (λ r. r.id == w.id) change rows).1
  changed distinct w change keeps o closed rows h =
      All-update_many prisma Origin (λ r. r.id == w.id) change rows
        (All-imp
          (λ r p.
            if_either Origin (r.id == w.id)
              (λ met.
                let is : p.first ≡ o.first =
                  distinct p.first o.first p.listed o.listed (
                    ap (λ t. t.0) (sym p.same) ∙ (eq_iff r.id w.id).0 met ∙ ap (λ t. t.0) o.same) in
                record {
                  first = p.first;
                  listed = p.listed;
                  same = keeps r ∙ p.same;
                  circuit = λ stays. absurd (closed (subst (IsOpenThroughout inputs) is stays));
                })
              (λ differs. p))
          rows h)

  -- A request is made only where the circuit was seen closed.
  not_throughout :
      (evt : EventBuffer) (w : WebhookEndpoint) (o : Origin w)
      → is_open prisma env web w.circuit_open_until (inputs evt.id).started_at ≡ false
      → IsOpenThroughout inputs o.first
      → ⊥
  not_throughout evt w o closed (t, is, early) =
      let here : w.circuit_open_until ≡ some t = o.circuit (t, is, early) ∙ is in
      ground (arith, closed, here, early evt.id)

  Effects : EventBuffer → Db × List WebhookRequest → Type 0
  Effects evt r = All Origin r.0.endpoints × All (IsAddressed evt) r.1

  addressed :
      (evt : EventBuffer) (w : WebhookEndpoint) (o : Origin w)
      → w.tenant_id ≡ evt.tenant_id
      → w.is_active ≡ true
      → (IsOpenThroughout inputs o.first → ⊥)
      → IsAddressed evt (request_of prisma env web evt w)
  addressed evt w o tenant active closed = record {
    endpoint = o.first;
    listed = o.listed;
    of_tenant = ap (λ t. t.1) (sym o.same) ∙ tenant;
    active = ap (λ t. t.4) (sym o.same) ∙ active;
    closed = closed;
    url = ap (λ t. t.2) o.same;
    event_id = refl;
    idempotency_key = refl;
    signature = ap (λ t. web.sign t.3 (body_of evt)) o.same;
    body = refl;
  }

  module _ (distinct : HasDistinctIds start) where
    settle-Origin :
        (evt : EventBuffer) (w : WebhookEndpoint) (o : Origin w) (i : AttemptInputs)
        (r : FetchResult) (db : Db)
        → (IsOpenThroughout inputs o.first → ⊥)
        → All Origin db.endpoints
        → All Origin (settle prisma env web evt w i r db).endpoints
    unfolding succeed fail
    settle-Origin evt w o i r db closed h = go r
      where
        failed_one :
            (message : String) → All Origin (fail prisma env web evt w message i db).endpoints
        failed_one message =
            if_either
              (λ (d : Db).
                All Origin
                  (prisma.update_many (λ v. v.id == w.id) (count_failure prisma env web w i)
                    d.endpoints).1)
              (is_last prisma env web evt)
              (λ _. changed distinct w _ (λ v. refl) o closed db.endpoints h)
              (λ _. changed distinct w _ (λ v. refl) o closed db.endpoints h)

        go : (r : FetchResult) → All Origin (settle prisma env web evt w i r db).endpoints
        go (rejected message) = failed_one message
        go (response is_ok status status_text text) =
            if_either (λ (d : Db). All Origin d.endpoints) is_ok
              (λ _. changed distinct w _ (λ v. refl) o closed db.endpoints h) (λ _. failed_one _)

    deliver-Effects :
        (evt : EventBuffer) (db : Db)
        → All Origin db.endpoints
        → Effects evt (deliver prisma env web evt (inputs evt.id) db)
    unfolding deliver skip defer Effects
    deliver-Effects evt db h = elim (Option-cases (endpoint_of prisma env web evt db)) [
      | inl missing ↦
          subst (λ o. Effects evt (deliver_to prisma env web evt (inputs evt.id) o db))
            (sym missing) (h, tt)
      | inr (w, found) ↦
          let (met, listed) = prisma.find_first_sound _ db.endpoints w found in
          let o = All-at Origin db.endpoints h listed in
          subst (λ o. Effects evt (deliver_to prisma env web evt (inputs evt.id) o db)) (sym found)
            (if_either (Effects evt) (not w.is_active) (λ _. (h, tt))
              λ active.
                if_either (Effects evt)
                  (is_open prisma env web w.circuit_open_until (inputs evt.id).started_at)
                  (λ _. (h, tt))
                  λ shut.
                    let closed = not_throughout evt w o shut in
                    (
                      settle-Origin evt w o (inputs evt.id)
                          (web.fetch (request_of prisma env web evt w)) db closed h,
                      (
                        addressed evt w o ((eq_iff w.tenant_id evt.tenant_id).0 met)
                            (ground (arith, active)) closed,
                        tt,
                      ),
                    ))
    ]

    For : List EventBuffer → WebhookRequest → Type 0
    For batch request = (e : EventBuffer) × Memᴰ e batch × IsAddressed e request

    deliver_all-For :
        (batch : List EventBuffer) (db : Db)
        → All Origin db.endpoints
        → All (For batch) (deliver_all prisma env web batch inputs db).1
    unfolding deliver_all For Effects
    deliver_all-For [] db h = tt
    deliver_all-For (evt ∷ batch) db h =
        let (kept, made) = deliver-Effects evt db h in
        let left = (deliver prisma env web evt (inputs evt.id) db).0 in
        All-join (For (evt ∷ batch)) _ _ (All-imp (λ r a. (evt, Memᴰ.head refl, a)) _ made)
          (All-imp (λ r a. (a.0, Memᴰ.tail a.1, a.2)) _ (deliver_all-For batch left kept))

module _ (prisma : Prisma) (env : AnalyticsEnv) (web : Web) where
  batch_rows :
      (now : ℕ) (db : Db)
      → All
          (λ e.
            Memᴰ e db.events × ((is_pending e.delivery_status && leb e.next_attempt_at now) ≡ true))
          (pending_batch prisma env web now db)
  batch_rows now db = All-take _ 50 _ (
      All-both _ _ _ (All-find_many prisma _ _ _ db.events (All-of_mem db.events (λ e m. m)))
        (find_many-test prisma _ _ db.events))

  was_pending : (s : DeliveryStatus) → is_pending s ≡ true → s ≡ pending
  was_pending s e = ground (arith, e)

  -- Every request that a run of the delivery job makes is for an event that was pending and due as the
  -- run started, and goes to the address of an active endpoint of the tenant of that event: it carries
  -- the event as it is in the buffer, and the signature of what it carries with the secret of that
  -- endpoint. No request goes to an endpoint whose circuit was open as the run started and is open at
  -- every reading of the clock. That holds whatever the endpoints answer, if no two endpoints have the
  -- same id.
  pub deliver_pending_webhooks-Addressed :
      (now : ℕ) (inputs : String → AttemptInputs) (db db' : Db) (requests : List WebhookRequest)
      → HasDistinctIds db.endpoints
      → deliver_pending_webhooks prisma env web now inputs db ≡ (ok requests, db')
      → All
          (λ request.
            (e : EventBuffer) × Memᴰ e db.events
            × (e.delivery_status ≡ pending)
            × (e.next_attempt_at ≤ now)
            × IsAddressed prisma env web inputs db.endpoints e request)
          requests
  unfolding deliver_pending_webhooks For
  deliver_pending_webhooks-Addressed now inputs db db' requests distinct e =
      let batch = pending_batch prisma env web now db in
      let is : (deliver_all prisma env web batch inputs db).1 ≡ requests = ground (arith, e) in
      subst (All _) is (
        All-imp
          (λ r a.
            let (listed, met) = All-at _ batch (batch_rows now db) a.1 in
            (
              a.0,
              listed,
              was_pending a.0.delivery_status (ground (arith, met)),
              ground (arith, met),
              a.2,
            ))
          _
          (deliver_all-For prisma env web inputs db.endpoints distinct batch db (
            All-of_mem db.endpoints
              λ w m. record { first = w; listed = m; same = refl; circuit = λ _. refl })))
