-- ===== src/Analytics/Events/Paging.antt =====
-- apps/analytics-webhook-service/src/analytics-webhook-service.service.ts: a client that follows the
-- cursors of `listEvents` to the end.
use nestjs_saas.Prelude.{
  ℕ, zero, suc, ◌+◌, ◌-◌, ◌≤◌, ◌<◌, String, Option, none, some, List, [], ◌∷◌, ◌≡◌, ◌≢◌, refl, sym,
  ap, ◌∙◌, arith, Option-cases, inl, inr, ◌==◌, eq_iff, All, All-at, length, take,
}
use nestjs_saas.Exec.{ok, err, gets}
use nestjs_saas.Prisma.{Prisma}
use nestjs_saas.Prisma.Keys.{Keyed}
use nestjs_saas.Analytics.State.{EventBuffer, Db}
use nestjs_saas.Analytics.Events.{
  PageInput, Page, page_limit, from_cursor, id_at, page_of, list_events,
}
use nestjs_saas.Analytics.Events.Pages.{
  drop, listing, id_at-take, take-take, id_at-mem, after_cursor-drop,
}

-- What a list of pages shows.
abbrev pub shown : List (List EventBuffer) → ℕ
shown [] = 0
shown (page ∷ pages) = length page + shown pages

module _ {R : Type 0} where
  length-drop : (n : ℕ) (rows : List R) → length (drop n rows) ≡ length rows - n
  length-drop zero rows = omega arith
  length-drop (suc n) [] = omega arith
  length-drop (suc n) (r ∷ rows) = omega (arith, length-drop n rows)

  length-take_short : (n : ℕ) (rows : List R) → length rows ≤ n → length (take n rows) ≡ length rows
  length-take_short zero [] h = refl
  length-take_short zero (r ∷ rows) h = absurd (omega (arith, h))
  length-take_short (suc n) [] h = refl
  length-take_short (suc n) (r ∷ rows) h =
      omega (arith, length-take_short n rows (omega (arith, h)))

  length-take_long : (n : ℕ) (rows : List R) → n ≤ length rows → length (take n rows) ≡ n
  length-take_long zero rows h = refl
  length-take_long (suc n) [] h = absurd (omega (arith, h))
  length-take_long (suc n) (r ∷ rows) h = omega (arith, length-take_long n rows (omega (arith, h)))

  module _ (id_of : R → String) where
    id_at-drop : (k n : ℕ) (rows : List R) → id_at id_of n (drop k rows) ≡ id_at id_of (k + n) rows
    id_at-drop zero n rows = ap (λ m. id_at id_of m rows) (omega arith)
    id_at-drop (suc k) n [] = refl
    id_at-drop (suc k) n (r ∷ rows) =
        let next : suc (k + n) ≡ suc k + n = omega arith in
        id_at-drop k n rows ∙ ap (λ m. id_at id_of m (r ∷ rows)) next

    id_at_inside :
        (n : ℕ) (rows : List R) (c : String) → id_at id_of n rows ≡ some c → n < length rows
    id_at_inside n [] c e = ground arith
    id_at_inside zero (r ∷ rows) c e = omega arith
    id_at_inside (suc n) (r ∷ rows) c e = omega (arith, id_at_inside n rows c e)

    id_at_outside : (n : ℕ) (rows : List R) → id_at id_of n rows ≡ none → length rows ≤ n
    id_at_outside n [] e = omega arith
    id_at_outside zero (r ∷ rows) e = ground arith
    id_at_outside (suc n) (r ∷ rows) e = omega (arith, id_at_outside n rows e)

abbrev with_page :
    List EventBuffer → Option (List (List EventBuffer)) → Option (List (List EventBuffer))
with_page page none = none
with_page page (some pages) = some (page ∷ pages)

-- What a client makes of a page that asks again with `nextCursor` if there is one.
abbrev continued :
    (String → Option (List (List EventBuffer)))
    → Page EventBuffer
    → Option (List (List EventBuffer))
continued ask page = elim page.next_cursor [
  | none ↦ some (page.items ∷ [])
  | some c ↦ with_page page.items (ask c)
]

continued_last :
    (ask : String → Option (List (List EventBuffer))) (page : Page EventBuffer)
    → page.next_cursor ≡ none
    → continued ask page ≡ some (page.items ∷ [])
continued_last ask page e = ground (arith, e)

continued_more :
    (ask : String → Option (List (List EventBuffer))) (page : Page EventBuffer) (c : String)
    (pages : List (List EventBuffer))
    → page.next_cursor ≡ some c
    → ask c ≡ some pages
    → continued ask page ≡ some (page.items ∷ pages)
continued_more ask page c pages e is = ground (arith, e, is)

module _ (prisma : Prisma) where
  -- The pages that such a client sees; `none` is too little fuel.
  unfoldable pub follow : ℕ → PageInput → Db → Option (List (List EventBuffer))
  follow zero payload db = none
  follow (suc fuel) payload db =
      let ask : String → Option (List (List EventBuffer)) =
        (λ c. follow fuel (record payload { cursor = some c }) db) in
      elim (list_events prisma payload db).0 [ err e ↦ none | ok page ↦ continued ask page ]

  follow_step :
      (fuel k : ℕ) (payload : PageInput) (db : Db)
      → from_cursor (λ e. e.id) payload.cursor (listing prisma payload db)
        ≡ drop k (listing prisma payload db)
      → follow (suc fuel) payload db
        ≡ continued
            (λ c. follow fuel (record payload { cursor = some c }) db)
            (page_of (λ e. e.id) (page_limit payload.limit) (drop k (listing prisma payload db)))
  unfolding follow list_events gets
  follow_step fuel k payload db place =
      ap
        (λ rows.
          continued (λ c. follow fuel (record payload { cursor = some c }) db)
            (page_of (λ e. e.id) (page_limit payload.limit) rows))
        place

  -- The cursor of a page that starts at `k` leads to the place after the event it names.
  next_place :
      (k limit : ℕ) (rows : List EventBuffer) (c : String)
      → Keyed (λ a b. b.id == a.id) rows
      → All (λ e. e.id ≢ "") rows
      → id_at (λ e. e.id) (k + limit) rows ≡ some c
      → from_cursor (λ e. e.id) (some c) rows ≡ drop (suc (k + limit)) rows
  next_place k limit rows c keys named at =
      let (r, listed, is) = id_at-mem (λ e. e.id) (k + limit) rows c at in
      let given : r.id ≢ "" = All-at _ rows named listed in
      ground (
        arith,
        after_cursor-drop (λ e. e.id) (k + limit) rows c keys at,
        eq_iff c "",
        eq_iff r.id "",
        ap (λ s. s == "") is,
        given,
      )

  -- The pages from a place in the listing on.
  abbrev Followed : ℕ → ℕ → PageInput → Db → Type 0
  Followed fuel k payload db =
      (pages : List (List EventBuffer)) × (follow fuel payload db ≡ some pages)
      × (shown pages + length pages ≡ suc (length (listing prisma payload db) - k))

  follow_from :
      (fuel k : ℕ) (payload : PageInput) (db : Db)
      → Keyed (λ a b. b.id == a.id) (listing prisma payload db)
      → All (λ e. e.id ≢ "") (listing prisma payload db)
      → from_cursor (λ e. e.id) payload.cursor (listing prisma payload db)
        ≡ drop k (listing prisma payload db)
      → length (listing prisma payload db) < fuel + k
      → k ≤ length (listing prisma payload db)
      → Followed fuel k payload db
  follow_from zero k payload db keys named place fuelled inside =
      absurd (omega (arith, fuelled, inside))
  follow_from (suc fuel) k payload db keys named place fuelled inside =
      let rows = listing prisma payload db in
      let limit = page_limit payload.limit in
      let left = drop k rows in
      let page = page_of (λ e. e.id) limit left in
      let step = follow_step fuel k payload db place in
      let items : length page.items ≡ length (take limit left) = ap length (take-take limit left) in
      elim (Option-cases (id_at (λ e. e.id) limit left)) [
        | inl last ↦ (
          page.items ∷ [],
          step ∙ continued_last _ page (id_at-take (λ e. e.id) limit left ∙ last),
          omega (
            arith,
            items,
            length-take_short limit left (id_at_outside (λ e. e.id) limit left last),
            length-drop k rows,
          ),
        )
        | inr (c, more) ↦
            let at : id_at (λ e. e.id) (k + limit) rows ≡ some c =
              sym (id_at-drop (λ e. e.id) k limit rows) ∙ more in
            let before = id_at_inside (λ e. e.id) (k + limit) rows c at in
            let (rest, is, count) =
              follow_from fuel (suc (k + limit)) (record payload { cursor = some c }) db keys named
                (next_place k limit rows c keys named at) (omega (arith, fuelled))
                (omega (arith, before)) in
            (
              page.items ∷ rest,
              step ∙ continued_more _ page c rest (id_at-take (λ e. e.id) limit left ∙ more) is,
              omega (
                arith,
                items,
                count,
                before,
                length-drop k rows,
                length-take_long limit left (omega (arith, before, length-drop k rows)),
              ),
            )
      ]

  -- A client that follows the cursors from the first page reaches one without a cursor, after at most
  -- as many pages as there are events and one more. With the events that it is shown, there are as
  -- many pages as events in the listing and one: each page but the last has cost it one event.
  -- Events have ids that are unique and not empty.
  pub follow-total :
      (payload : PageInput) (db : Db)
      → Keyed (λ a b. b.id == a.id) (listing prisma payload db)
      → All (λ e. e.id ≢ "") (listing prisma payload db)
      → payload.cursor ≡ none
      → (pages : List (List EventBuffer)) × (follow
            (suc (length (listing prisma payload db)))
            payload
            db
          ≡ some pages)
        × (shown pages + length pages ≡ suc (length (listing prisma payload db)))
  follow-total payload db keys named start =
      let rows = listing prisma payload db in
      let (pages, is, count) =
        follow_from (suc (length rows)) 0 payload db keys named
          (ap (λ cursor. from_cursor (λ e. e.id) cursor rows) start) (omega arith) (omega arith) in
      (pages, is, omega (arith, count))
