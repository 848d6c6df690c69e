-- ===== src/Analytics/Events/Refinement.antt =====
-- apps/analytics-webhook-service: the buffer of events is a map from idempotency keys to events, in
-- which the first event of a key stays.
use nestjs_saas.Prelude.{
  ℕ, String, Option, none, some, Bool, true, false, List, [], ◌∷◌, if◌then◌else◌, ◌≡◌, refl, sym,
  ap, subst, ◌∙◌, arith, Option-cases, Bool-cases, inl, inr, eq_iff, Memᴰ, All, All-at,
}
use nestjs_saas.Prisma.{Prisma}
use nestjs_saas.Prisma.Keys.{Keyed, Keyed-unique}
use nestjs_saas.Prisma.Rows.{find_first_only, find_first-eq-none}
use nestjs_saas.Analytics.State.{EventBuffer, Db}
use nestjs_saas.Analytics.Events.{LearningEvent, Tracked, has_key, new_event, append_event}
use nestjs_saas.Analytics.Events.Known.{Known, append_event-rows}

-- The abstract buffer.
abbrev pub KeyMap : Type 0
KeyMap = String → Option EventBuffer

-- An event is put in unless its key is taken.
abbrev pub insert_new : EventBuffer → KeyMap → KeyMap
insert_new e m key = elim (m key) [
  | some old ↦ some old
  | none ↦ if has_key key e then some e else none
]

-- The idempotency key is unique in the schema.
abbrev pub same_key : EventBuffer → EventBuffer → Bool
same_key a b = has_key a.idempotency_key b

-- Calls of the four methods that track: the event, its id and the time.
abbrev pub TrackCall : Type 0
TrackCall = Tracked × LearningEvent × String × ℕ

abbrev pub insert_all : List TrackCall → KeyMap → KeyMap
insert_all [] m = m
insert_all ((tracked, event, id, now) ∷ calls) m =
    insert_all calls (insert_new (new_event tracked event id now) m)

module _ (prisma : Prisma) where
  unfoldable pub track_all : List TrackCall → Db → Db
  track_all [] db = db
  track_all ((tracked, event, id, now) ∷ calls) db =
      track_all calls (append_event prisma tracked event id now db).1

  -- The map that the table stands for.
  abbrev pub view : Db → KeyMap
  view db key = prisma.find_first (has_key key) db.events

  same_first :
      (new : EventBuffer) (rows : List EventBuffer) (key : String) (r x : EventBuffer)
      → All (λ y. has_key new.idempotency_key y ≡ false) rows
      → Keyed same_key rows
      → Memᴰ r rows
      → has_key key r ≡ true
      → Memᴰ x (new ∷ rows)
      → has_key key x ≡ true
      → x ≡ r
  same_first new rows key r x apart keys listed met (Memᴰ.head p) met' =
      let other = All-at _ rows apart listed in
      absurd (
        ground (
          arith,
          ap (has_key key) p,
          other,
          met,
          met',
          eq_iff new.idempotency_key key,
          eq_iff r.idempotency_key key,
          eq_iff r.idempotency_key new.idempotency_key,
        ))
  same_first new rows key r x apart keys listed met (Memᴰ.tail n) met' =
      let is : r.idempotency_key ≡ x.idempotency_key =
        ground (arith, met, met', eq_iff x.idempotency_key key, eq_iff r.idempotency_key key) in
      Keyed-unique same_key rows keys x r n listed
        (ground (arith, is, eq_iff r.idempotency_key x.idempotency_key))
        (ground (arith, is, eq_iff x.idempotency_key r.idempotency_key))

  first_stays :
      (new : EventBuffer) (rows : List EventBuffer) (key : String) (r : EventBuffer)
      → All (λ x. has_key new.idempotency_key x ≡ false) rows
      → Keyed same_key rows
      → prisma.find_first (has_key key) rows ≡ some r
      → prisma.find_first (has_key key) (new ∷ rows) ≡ some r
  first_stays new rows key r apart keys found =
      let (met, listed) = prisma.find_first_sound (has_key key) rows r found in
      elim (Option-cases (prisma.find_first (has_key key) (new ∷ rows))) [
        | inl missing ↦
            let none_has =
              All-at _ rows (prisma.find_first_complete (has_key key) (new ∷ rows) missing).1
                listed in
            absurd (ground (arith, none_has, met))
        | inr (x, is) ↦
            let (met', listed') = prisma.find_first_sound (has_key key) (new ∷ rows) x is in
            is ∙ ap some (same_first new rows key r x apart keys listed met listed' met')
      ]

  added :
      (new : EventBuffer) (rows : List EventBuffer) (key : String)
      → All (λ x. has_key new.idempotency_key x ≡ false) rows
      → Keyed same_key rows
      → prisma.find_first (has_key key) (new ∷ rows)
        ≡ insert_new new (λ k. prisma.find_first (has_key k) rows) key
  added new rows key apart keys = elim (Option-cases (prisma.find_first (has_key key) rows)) [
    | inl missing ↦
        let none_has = prisma.find_first_complete (has_key key) rows missing in
        elim (Bool-cases (has_key key new)) [
          | inl met ↦
              ground
                (arith, missing, met, find_first_only prisma (has_key key) new rows met none_has)
          | inr unmet ↦ ground (
            arith,
            missing,
            unmet,
            find_first-eq-none prisma (has_key key) (new ∷ rows) (unmet, none_has),
          )
        ]
    | inr (r, found) ↦ ground (arith, found, first_stays new rows key r apart keys found)
  ]

  -- An event whose key is there is not put in.
  not_inserted :
      (tracked : Tracked) (event : LearningEvent) (id : String) (now : ℕ) (db : Db) (key : String)
      → Known prisma event.idempotency_key db
      → insert_new (new_event tracked event id now) (view db) key ≡ view db key
  not_inserted tracked event id now db key (x, listed, met) =
      elim (Option-cases (prisma.find_first (has_key key) db.events)) [
        | inr (r, found) ↦ ground (arith, found)
        | inl missing ↦
            let unmet =
              All-at _ db.events (prisma.find_first_complete (has_key key) db.events missing)
                listed in
            ground (
              arith,
              missing,
              unmet,
              met,
              eq_iff event.idempotency_key key,
              eq_iff x.idempotency_key key,
              eq_iff x.idempotency_key event.idempotency_key,
            )
      ]

  append_event-refines :
      (tracked : Tracked) (event : LearningEvent) (id : String) (now : ℕ) (db : Db)
      → Keyed same_key db.events
      → let after = (append_event prisma tracked event id now db).1 in
        Keyed same_key after.events
        × ((key : String)
            → view after key ≡ insert_new (new_event tracked event id now) (view db) key)
  append_event-refines tracked event id now db keys =
      let new = new_event tracked event id now in
      let after = (append_event prisma tracked event id now db).1 in
      elim (append_event-rows prisma tracked event id now db) [
        | inl (same, known) ↦ (
          subst (Keyed same_key) (sym same) keys,
          λ key.
              ap (prisma.find_first (has_key key)) same
              ∙ sym (not_inserted tracked event id now db key known),
        )
        | inr (more, apart) ↦ (
          subst (Keyed same_key) (sym more) (apart, keys),
          λ key. ap (prisma.find_first (has_key key)) more ∙ added new db.events key apart keys,
        )
      ]

  insert_all-eq :
      (calls : List TrackCall) (m n : KeyMap)
      → ((key : String) → m key ≡ n key)
      → (key : String) → insert_all calls m key ≡ insert_all calls n key
  insert_all-eq [] m n same key = same key
  insert_all-eq ((tracked, event, id, now) ∷ calls) m n same key =
      let new = new_event tracked event id now in
      insert_all-eq calls (insert_new new m) (insert_new new n) (λ k. ground (arith, same k)) key

  -- The buffer implements a map from idempotency keys to events in which the first event of a key
  -- stays: from a table whose keys are unique, after any sequence of tracked events the event found
  -- under a key is what the abstract map holds, and the keys are unique still.
  pub track_all-refines :
      (calls : List TrackCall) (db : Db)
      → Keyed same_key db.events
      → Keyed same_key (track_all calls db).events
        × ((key : String) → view (track_all calls db) key ≡ insert_all calls (view db) key)
  unfolding track_all
  track_all-refines [] db keys = (keys, λ key. refl)
  track_all-refines ((tracked, event, id, now) ∷ calls) db keys =
      let (kept, first) = append_event-refines tracked event id now db keys in
      let (keyed, rest) =
        track_all-refines calls (append_event prisma tracked event id now db).1 kept in
      (keyed, λ key. rest key ∙ insert_all-eq calls _ _ first key)
