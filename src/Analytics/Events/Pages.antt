-- ===== src/Analytics/Events/Pages.antt =====
-- apps/analytics-webhook-service/src/analytics-webhook-service.service.ts: the pages of
-- `listEvents` as parts of the listing.
use nestjs_saas.Prelude.{
  ℕ, zero, suc, String, some, Bool, false, ◌&&◌, List, [], ◌∷◌, Memᴰ, ◌≡◌, refl, ap, arith, ◌==◌,
  eq_iff, eq_refl, All-at, take,
}
use nestjs_saas.Prisma.{Prisma}
use nestjs_saas.Ordering.{descending}
use nestjs_saas.Analytics.State.{EventBuffer, Db}
use nestjs_saas.Analytics.Events.{
  PageInput, Page, page_limit, after_cursor, from_cursor, id_at, page_of, has_type,
}
use nestjs_saas.Prisma.Keys.{Keyed}

module _ {R : Type 0} where
  abbrev pub drop : ℕ → List R → List R
  drop zero rows = rows
  drop (suc n) [] = []
  drop (suc n) (r ∷ rows) = drop n rows

  pub take-take : (n : ℕ) (rows : List R) → take n (take (suc n) rows) ≡ take n rows
  take-take zero rows = refl
  take-take (suc n) [] = refl
  take-take (suc n) (r ∷ rows) = ap (λ t. r ∷ t) (take-take n rows)

  module _ (id_of : R → String) where
    abbrev same_id : R → R → Bool
    same_id a b = id_of b == id_of a

    pub id_at-mem :
        (n : ℕ) (rows : List R) (c : String)
        → id_at id_of n rows ≡ some c
        → (r : R) × Memᴰ r rows × (id_of r ≡ c)
    id_at-mem n [] c e = ground arith
    id_at-mem zero (r ∷ rows) c e = (r, Memᴰ.head refl, ground arith)
    id_at-mem (suc n) (r ∷ rows) c e =
        let (x, m, same) = id_at-mem n rows c e in (x, Memᴰ.tail m, same)

    pub id_at-take :
        (n : ℕ) (rows : List R) → id_at id_of n (take (suc n) rows) ≡ id_at id_of n rows
    id_at-take n [] = refl
    id_at-take zero (r ∷ rows) = refl
    id_at-take (suc n) (r ∷ rows) = id_at-take n rows

    pub after_cursor-drop :
        (n : ℕ) (rows : List R) (c : String)
        → Keyed same_id rows
        → id_at id_of n rows ≡ some c
        → after_cursor id_of c rows ≡ drop (suc n) rows
    after_cursor-drop n [] c keys e = ground arith
    after_cursor-drop zero (r ∷ rows) c keys e = ground (arith, eq_refl c)
    after_cursor-drop (suc n) (r ∷ rows) c keys e =
        let (x, m, same) = id_at-mem n rows c e in
        let apart = All-at (λ y. same_id r y ≡ false) rows keys.0 m in
        ground (
          arith,
          apart,
          same,
          eq_iff (id_of r) c,
          eq_iff (id_of x) (id_of r),
          after_cursor-drop n rows c keys.1 e,
        )

module _ (prisma : Prisma) where
  -- The tenant's events of the type that is asked for, newest first.
  abbrev pub listing : PageInput → Db → List EventBuffer
  listing payload db =
      prisma.find_many
        (λ e. (e.tenant_id == payload.tenant_id) && has_type prisma payload.event_type e.event_type)
        (descending (λ e. e.created_at) ∷ []) db.events

  abbrev events_page : PageInput → Db → Page EventBuffer
  events_page payload db =
      page_of (λ e. e.id) (page_limit payload.limit)
        (from_cursor (λ e. e.id) payload.cursor (listing payload db))
